-- ===== src/Progress.antt =====
-- A learner's results per module, as user-service keeps them: module_progress.go of
-- user-service/internal/repository and internal_progress.go of user-service/internal/handlers.
pub mod Rows
pub mod History
pub mod Summary
