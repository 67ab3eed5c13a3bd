-- ===== src/Course/Access.antt =====
-- Access to a course: `learnerView`, `ensureModuleAccess` and the prerequisite checks of
-- course-service/internal/handlers/modules.go.
pub mod Laws
use elearning_platform.Prelude.{
  ℕ, String, Bool, true, false, not, ◌&&◌, ◌||◌, List, [], ◌∷◌, map, Option, none, some,
  if◌then◌else◌, str_eq, contains, all, Assoc, lookup,
}
use elearning_platform.Prelude.Int.{ℤ, pos, ltb_ℤ}
use elearning_platform.Prelude.Float64.{Float64}
use elearning_platform.Content.Module.{Course, CoursePrerequisite, nonempty}
use elearning_platform.Course.View.{
  Post, auto_enroll, Claims, CourseProgress, CoursePrereqSummary, SummaryRow, Env, LearnerView,
  Reply, ok, error, found, not_found, failed, empty_course_prereq_summary, to_set, course_progress,
  role_admin, visible_modules,
}

-- `courseSummaries` for one slug: a course that the answer does not mention, or a failed call, is an
-- empty summary.
abbrev to_summary : SummaryRow → CoursePrereqSummary
to_summary row = record {
  total_score = row.total_score;
  passed_modules = to_set row.passed_modules;
  viewed_count = row.viewed_count;
}

unfoldable pub summary_of : Option (Assoc SummaryRow) → String → CoursePrereqSummary
summary_of none slug = empty_course_prereq_summary
summary_of (some rows) slug = elim (lookup slug rows) [
  | none ↦ empty_course_prereq_summary
  | some row ↦ to_summary row
]

unfoldable pub prerequisite_satisfied : CoursePrerequisite → CoursePrereqSummary → Bool
prerequisite_satisfied p s =
    if ltb_ℤ (pos 0) p.min_score && ltb_ℤ s.total_score p.min_score
    then false
    else if not (all (contains s.passed_modules) p.modules)
    then false
    else ltb_ℤ (pos 0) p.min_score
      || nonempty p.modules
      || ltb_ℤ (pos 0) s.total_score
      || ltb_ℤ (pos 0) s.viewed_count

module _ {f : Float64} (env : Env f) where
  unfoldable pub check_course_prerequisites : List CoursePrerequisite → String → Bool
  unfolding summary_of prerequisite_satisfied
  check_course_prerequisites prereqs user =
      let rows = env.course_summaries user (map (λ p. p.course) prereqs) in
      all (λ p. prerequisite_satisfied p (summary_of rows p.course)) prereqs

  -- `none` lets the request through; the posts are started either way.
  unfoldable pub ensure_module_access : LearnerView f → String → Option (ℕ × String) × List Post
  ensure_module_access view denied =
      if view.is_admin
      then (none, [])
      else if not view.course.is_public && not view.progress.enrolled
      then (some (403, denied), [])
      else let posts =
          if view.course.is_public && not view.progress.enrolled
          then auto_enroll view.user_id view.slug ∷ []
          else [] in
        if nonempty view.course.prerequisites
          && not (check_course_prerequisites view.course.prerequisites view.user_id)
        then (some (403, "Complete prerequisite courses first"), posts)
        else (none, posts)

  abbrev pub view_of : Course f → Claims → String → LearnerView f
  view_of course claims slug = record {
    course = course;
    modules = visible_modules env course claims;
    progress = course_progress (env.progress_overview slug claims.subject);
    claims = claims;
    is_admin = str_eq claims.role role_admin;
    user_id = claims.subject;
    slug = slug;
  }

  abbrev admit : LearnerView f → Option (ℕ × String) × List Post → Reply (LearnerView f) × List Post
  admit view (none, posts) = (ok view, posts)
  admit view (some (status, message), posts) = (error status message, posts)

  unfoldable pub learner_view : Option Claims → String → String → Reply (LearnerView f) × List Post
  unfolding ensure_module_access
  learner_view none slug denied = (error 401 "Unauthorized", [])
  learner_view (some claims) slug denied = elim (env.load_course slug) [
    | not_found ↦ (error 404 "Course not found", [])
    | failed ↦ (error 500 "Internal error", [])
    | found course ↦
        let view = view_of course claims slug in admit view (ensure_module_access view denied)
  ]
