-- ===== src/Engine/Core.antt =====
-- src/ampa/engine/core.py: the life of a delegation and of a transition. The proofs are below.
mod Flow
pub use Flow.*
pub mod Delegation
pub mod Transition
