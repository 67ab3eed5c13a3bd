-- ===== src/Course.antt =====
-- The course service's learner endpoints: course-service/internal/handlers.
pub mod View
pub mod Access
pub mod PublicQuiz
pub mod Listing
pub mod Completion
pub mod Grading
pub mod Submission
