-- ===== src/Examples.antt =====
-- Concrete courses, quizzes and attempts, and runs of the modelled code on them.
pub mod Data
mod Scoring
mod Attempts
mod Course
mod Sessions
mod Progress
mod Auth
mod Groups
mod Checker
mod Mapping
