-- ===== src/Examples.antt =====
-- The theorems at concrete inputs.
mod Fixtures
mod OfAgent
mod OfLive
mod OfUpdates
mod OfStore
mod OfFleet
mod OfIngest
mod OfShared
mod OfBuild
mod OfMother
mod OfStaging
