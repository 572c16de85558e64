-- ===== src/Store.antt =====
-- The tables of internal/store, as far as the other components use them.
pub mod Models
pub mod Tables
pub mod Statements
pub mod Domains
pub mod Catalogs
pub mod Atomic
pub mod Hosts
mod Examples
