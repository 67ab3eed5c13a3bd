-- ===== src/Content.antt =====
-- The course service's domain logic: course-service/internal/content.
pub mod Quiz
pub mod QuizYaml
pub mod Scoring
pub mod Cooldown
pub mod Slug
pub mod Module
