-- ===== src/Mother/Api.antt =====
-- mother/api/: the mother's HTTP surface.
pub mod State
pub mod Rollout
pub mod Ingest
pub mod Removal
pub mod Admin
pub mod Binaries
pub mod Chart
