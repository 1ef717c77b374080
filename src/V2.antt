-- ===== src/V2.antt =====
-- The second version of the library: v2/flow.
pub mod Ir
pub mod Arcs
pub mod Cycle
pub mod Validate
pub mod Layers
pub mod Value
pub mod Mapping
pub mod Errors
pub mod State
pub mod Nodes
pub mod Codec
pub mod Engine
pub mod Structure
pub mod Fire
pub mod Checkpoint
pub mod Tasks
pub mod Run
pub mod Resume
pub mod Sqlite
pub mod RoundRobin
