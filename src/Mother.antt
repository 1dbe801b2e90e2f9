-- ===== src/Mother.antt =====
-- mother/: the central collector.
pub mod Update
pub mod Store
pub mod Settings
pub mod Release
pub mod Build
pub mod Api
