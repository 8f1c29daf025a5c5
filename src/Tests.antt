-- ===== src/Tests.antt =====
-- Concrete stores, and the theorems at concrete inputs.
mod Setup
mod Store
mod Grading
mod Rbac
mod Formats
mod Times
mod Grades
mod Requests
mod Platform
mod Ags
mod Admin
mod Nrps
mod Gradebook
mod Api
mod Launches
mod Courses
mod DeepLinking
mod Ephemeral
