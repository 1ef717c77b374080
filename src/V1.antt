-- ===== src/V1.antt =====
-- The first version of the library: flow.
pub mod Ir
pub mod Validate
pub mod Compile
pub mod Run
