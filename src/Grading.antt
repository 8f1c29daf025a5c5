-- ===== src/Grading.antt =====
-- internal/grading: automatic grading of one response.
pub mod Types
pub mod TextMatch
pub mod Numeric
pub mod Rubric
pub mod Engine
pub mod EditDistance
