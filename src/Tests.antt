-- ===== src/Tests.antt =====
-- The properties at work on a small flow: `start` routes to `left` or `right` by a condition, and `ask`
-- interrupts for a human. The conditions, nodes and hashes are those of these tests.
pub mod Structure
pub mod Flows
pub mod Graphs
pub mod Runs
pub mod Daemon
pub mod Handlers
pub mod Tables
pub mod Listings
pub mod Builder
pub mod Streams
pub mod First
