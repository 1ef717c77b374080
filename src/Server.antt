-- ===== src/Server.antt =====
-- cmd/flowd/server: the parts of the daemon that keep state between requests.
pub mod Lru
pub mod Flows
pub mod Current
pub mod Requests
pub mod Runs
pub mod Resumes
