-- ===== src/Audit.antt =====
-- The audit of work items, src/ampa/audit: what an audit reports, and the three commands.
pub mod Report
pub mod Comment
pub mod Commands
pub mod Checks
pub mod Handlers
mod Examples
