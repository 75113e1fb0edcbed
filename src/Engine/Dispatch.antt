-- ===== src/Engine/Dispatch.antt =====
-- src/ampa/engine/dispatch.py: the container pool and the dispatchers. The proofs are below.
pub mod Pool
pub mod Teardown
pub mod Dispatchers
pub mod Leases
pub mod Races
mod Examples
