-- ===== src/Formats.antt =====
-- internal/formats: the policy of an exam, the adapters of the test profiles, and the SAT router.
pub mod Policy
pub mod Adapters
pub mod Scale
pub mod SatRouter
pub mod Listed
pub mod WellFormed
