-- ===== src/Lib.antt =====
-- The e-learning platform: how a quiz is scored, how wrong answers are counted and delayed, who gets
-- into a course, what the module handlers show, record and announce, and how results and seats of
-- in-person sessions are kept, how groups form a tree, and how a lab step is checked on GitLab.
--
-- The program. course-service (Go) serves courses made of modules: lessons, labs and quizzes. A request
-- goes through `learnerView` (course-service/internal/handlers/modules.go), which loads the course,
-- asks user-service for the learner's progress and applies the access rules. A quiz submission is
-- refused while a question of the quiz is cooling down; otherwise `ScoreQuiz`
-- (course-service/internal/content/scoring.go) scores it, the attempt table
-- (course-service/internal/repository/quiz_attempt.go) forgets the questions passed and counts those
-- failed, each with a deadline by `ComputeCooldown` (course-service/internal/content/cooldown.go), and
-- user-service is told of the progress and of a completed course. user-service keeps the best result of
-- each module (user-service/internal/repository/module_progress.go), sums up a course from these rows
-- for the access rules, books seats of sessions (user-service/internal/handlers/sessions.go), and keeps
-- the groups of users (user-service/internal/handlers/groups.go). checker-service looks at a learner's
-- GitLab project for the steps of a lab (checker-service/internal/checker/step.go).
--
-- The files, with the code they model.
-- - Prelude: shared names; native lists, maps, sets and tables; signed and 64-bit integers; the
--   operations and laws asked of `float64`, and a fixed-point type that has the laws.
-- - Content.Quiz, Content.QuizYaml: the quiz and its document, with `ToQuiz`, `convertQuestion` and
--   what `FetchQuizContent` fills in (course-service/internal/content/quiz_types.go).
-- - Content.Scoring: `ScoreSingle`, `ScoreMultiple`, `ScoreBoolean`, `ScoreOrder`, `ScoreQuiz`
--   (scoring.go), with a child for the theorems on each.
-- - Content.Cooldown: `ComputeCooldown` (cooldown.go).
-- - Content.Slug, Content.Module: courses, modules and their slugs
--   (course-service/internal/content/types.go).
-- - Attempts.Rows, Attempts.Repository: the table quiz_question_attempts and `States`,
--   `RecordFailures`, `Clear` (quiz_attempt.go); Attempts.Counts, Attempts.Failures,
--   Attempts.Cooldowns and Attempts.Dedupe hold the theorems on them.
-- - Course.View: the data of a request and what it gets from outside (the files user_client.go and
--   state.go of course-service/internal/handlers).
-- - Course.Access, Course.PublicQuiz, Course.Listing, Course.Grading, Course.Submission: the handlers
--   of modules.go; Course.Completion: `courseCompleted` and `MarkLessonComplete` (lessons.go).
-- - Progress.Rows: `RecordProgress`, the rows of a course and `summarizeCourseProgress` (module_progress.go
--   and user-service/internal/handlers/internal_progress.go); Progress.History and Progress.Summary
--   hold the theorems on the row of a module and on the summary of a course.
-- - Sessions.Bookings: the table session_bookings
--   (user-service/internal/repository/session_booking.go) and the handlers of sessions.go;
--   Sessions.Capacity runs them one at a time, and Sessions.Interleavings is the step relation of
--   concurrent requests, whose check and booking are two statements. Where course-service does not answer,
--   the capacity is 0 and the check is skipped; the theorems say what course-service answers.
-- - Auth: `guard` and its four middlewares (internal/middleware/auth.go), which all services share;
--   verifying a token is a parameter.
-- - Groups.Store: the tables groups and user_groups, with the statements of group.go and
--   group_members.go in user-service/internal/repository; Groups.Hierarchy: `CreateSubgroup`, `MoveGroup`
--   and the subtree queries (group_hierarchy.go), with children for the placement of rows by path and
--   depth, the rewriting of a subtree, and the tree by the parents' ids; Groups.Roles: the
--   synchronisation at login (group_sync.go); Groups.Handlers: the requests of groups.go, whose
--   sequences are Groups.Handlers.Requests (user-service/internal/handlers/router.go); Groups.Pathless: the groups that `CreateAndJoin` inserts.
-- - Checker.Conventional, Checker.Pages, Checker.Steps: `isConventionalMessage`, the paged listings and
--   `CheckStep` with its checks (checker-service/internal/checker/step.go, and `countMergedMRs` of
--   fetch.go).
-- - Mapping: the rows of courses and modules with their defaults (course-service/internal/models and
--   course-service/internal/repository/course_mapping.go); Mapping.Documents: their jsonb columns
--   (jsonb.go); Mapping.Courses: whole courses, as they are stored and as `Get` reads them; Mapping.Store:
--   the tables, with the statements that change them
--   (course-service/internal/repository/course.go).
-- - Examples: a small course, and the theorems applied to it.
--
-- How the code is read. A Go pointer is an `Option`; a map is an association list, a set a list of
-- distinct keys. An `int` is a signed integer whose sums and products wrap at 64 bits where the code
-- adds and multiplies points and durations; counts of rows and loop indices are natural numbers.
-- `float64` is a parameter (`Float64`) with laws that IEEE 754 gives (`Float64Laws`): integers up to
-- 2 ^ 53 are exact and rounding is monotone. The table is a finite map; a handler is a function from
-- the request, the answers of its outside calls (`Env`, `Outage`), the times at which it reads the
-- clock and the table, to its reply, the requests it sends to user-service, and the table. Every
-- recursion is on a list or a number of the input, so no fuel is needed, but for the paged listings of
-- the checker: their fuel is the number of rounds, and one for each page of the server is enough. The
-- texts that the code slices (paths, branch names, messages) are lists of bytes; the GitLab client,
-- the readings of a UUID's text and the encodings of encoding/json are records of functions.
--
-- Not modelled: HTTP, the text of JSON and logging; SQL, below what each statement does to the table; the YAML
-- decoder and the git cache, which are parameters; the detail view of a module, the inline quiz and the
-- handlers of lab checks; the evaluation of a policy, which is OPA's; the rest of user-service, the front
-- end and the deployment.
pub mod Prelude
pub mod Content
pub mod Attempts
pub mod Course
pub mod Sessions
pub mod Progress
pub mod Auth
pub mod Groups
pub mod Checker
pub mod Mapping
pub mod Examples
