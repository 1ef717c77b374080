-- ===== src/Graph.antt =====
-- The typed builder of graphs: v2/flow/graph.
pub mod Types
pub mod Adapters
pub mod Builder
pub mod Compile
pub mod Chain
pub mod Streams
