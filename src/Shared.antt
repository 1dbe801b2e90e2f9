-- ===== src/Shared.antt =====
-- shared/: what the agent and the mother have in common besides the protocol.
pub mod Release
pub mod Checksum
pub mod SelfUpdate
