-- ===== src/Exam.antt =====
-- internal/exam: exams, attempts and their store.
pub mod Models
pub mod Policy
pub mod Routing
pub mod Store
pub mod Exams
pub mod Attempts
pub mod Save
pub mod Navigate
pub mod Submit
pub mod ManualGrade
pub mod Advance
pub mod Machine
