-- ===== src/Checker.antt =====
-- Lab checks against GitLab: checker-service/internal/checker.
pub mod Conventional
pub mod Pages
pub mod Steps
