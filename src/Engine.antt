-- ===== src/Engine.antt =====
-- The engine package, src/ampa/engine: a module per file.
pub mod Descriptor
pub mod Records
pub mod World
pub mod Expressions
pub mod Invariants
pub mod Evaluator
pub mod Candidates
pub mod Dispatch
pub mod Core
pub mod Sample
mod Examples
