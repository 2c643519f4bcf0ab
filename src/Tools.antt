-- ===== src/Tools.antt =====
-- The tool layer (src/tools): its parts, one module each.
pub mod Health
pub mod Access
pub mod Catalog
pub mod Executor
pub mod Registry
