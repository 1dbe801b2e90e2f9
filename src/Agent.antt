-- ===== src/Agent.antt =====
-- agent/: the process on a monitored host.
pub mod Collectors
pub mod Loop
