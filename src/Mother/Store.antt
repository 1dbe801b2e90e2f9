-- ===== src/Mother/Store.antt =====
-- mother/store/: the mother's database.
pub mod Tables
pub mod Rollups
pub mod Servers
pub mod Retention
pub mod Groups
pub mod Migrations
