-- ===== src/Attempts.antt =====
-- The quiz attempt repository: course-service/internal/repository/quiz_attempt.go.
pub mod Rows
pub mod Repository
pub mod Dedupe
pub mod Counts
pub mod Failures
pub mod Cooldowns
