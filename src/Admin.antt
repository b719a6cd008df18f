-- ===== src/Admin.antt =====
-- crates/common and crates/admin: the registry of units, its entries, and its messages.
pub mod Types
pub mod Query
pub mod Naming
pub mod Entry
pub mod Registry
pub mod Server
