-- ===== src/Course/Completion/Laws.antt =====
-- When a course counts as complete, and what completing a lesson posts: `courseCompleted` of
-- course-service/internal/handlers/modules.go, `MarkLessonComplete` of lessons.go.
use elearning_platform.Prelude.{
  ◌≡◌, refl, ◌↔◌, ◌≢◌, ◌⊎◌, inl, inr, String, Bool, true, false, List, [], ◌∷◌, none, arith, eq_iff,
  contains, any, All, Option-cases, str_eq,
}
use elearning_platform.Prelude.Float64.{Float64}
use elearning_platform.Content.Slug.{Unicode}
use elearning_platform.Content.Module.{Module, slug, module_type_quiz}
use elearning_platform.Course.View.{Post, course_complete, CourseProgress, Env, LearnerView}
use elearning_platform.Course.Completion.{
  is_finished, finished_all, course_completed, find_module_lesson, complete_lesson,
  notify_course_complete,
}

module _ {f : Float64} (u : Unicode) (progress : CourseProgress) (passed viewed : String) where
  -- A quiz has been passed and any other module viewed before, or its slug is the one that the request
  -- names, be it empty.
  abbrev pub IsDone : Module f → Type 0
  IsDone m =
      ((str_eq m.type module_type_quiz ≡ true)
        × ((slug u m ≡ passed) ⊎ (contains progress.passed_modules (slug u m) ≡ true)))
      ⊎ ((str_eq m.type module_type_quiz ≡ false)
          × ((slug u m ≡ viewed) ⊎ (contains progress.viewed (slug u m) ≡ true)))

  is_finished_iff :
      (m : Module f)
      → (is_finished u progress passed viewed m ≡ true) ↔ ((m.hidden ≡ true) ⊎ IsDone m)
  unfolding is_finished
  is_finished_iff m = (
    λ h. ground (arith, eq_iff (slug u m) passed, eq_iff (slug u m) viewed),
    λ h. ground (arith, eq_iff (slug u m) passed, eq_iff (slug u m) viewed),
  )

  finished_all_iff :
      (ms : List (Module f))
      → (finished_all u progress passed viewed ms ≡ true)
        ↔ All (λ m. (m.hidden ≡ true) ⊎ IsDone m) ms
  unfolding finished_all
  finished_all_iff [] = (λ h. tt, λ h. refl)
  finished_all_iff (m ∷ ms) =
      let (to, from) = is_finished_iff m in
      let (to_all, from_all) = finished_all_iff ms in
      (λ h. (to (ground arith), to_all (ground arith)), λ h. ground (arith, from h.0, from_all h.1))

abbrev pub is_course_complete : Post → Bool
is_course_complete (course_complete body) = true
is_course_complete _ = false

module _ {f : Float64} where
  -- A course counts as complete exactly when each of its modules is hidden from learners, or is a quiz
  -- that was passed before or has the slug that the request names as passed, or is another module that
  -- was viewed before or has the slug named as viewed. A request that passes or views nothing names
  -- the empty slug there, which a module can have.
  pub course_completed_iff :
      (u : Unicode) (view : LearnerView f) (passed viewed : String)
      → (course_completed u view passed viewed ≡ true)
        ↔ All (λ m. (m.hidden ≡ true) ⊎ IsDone u view.progress passed viewed m) view.modules
  unfolding course_completed
  course_completed_iff u view passed viewed =
      finished_all_iff u view.progress passed viewed view.modules

  -- Completing a lesson notifies user-service of the course's completion exactly when one of the
  -- learner's modules has the lesson's slug, user-service takes the lesson, and each of the modules is
  -- hidden, or is a quiz that was passed or whose slug is empty, or is another module that was viewed
  -- or has the lesson's slug.
  pub complete_lesson-notifies_iff :
      (env : Env f) (accepted : Bool) (view : LearnerView f) (lesson : String)
      → (any is_course_complete (complete_lesson env accepted view lesson).1 ≡ true) ↔ (
          (find_module_lesson env.unicode view.modules lesson ≢ none)
          × (accepted ≡ true)
          × All
              (λ m. (m.hidden ≡ true) ⊎ IsDone env.unicode view.progress "" lesson m)
              view.modules)
  unfolding complete_lesson notify_course_complete
  complete_lesson-notifies_iff env accepted view lesson =
      let (to, from) = course_completed_iff env.unicode view "" lesson in
      elim (Option-cases (find_module_lesson env.unicode view.modules lesson)) [
        | inl missing ↦ rw missing (λ h. cc, λ h. absurd (h.0 refl))
        | inr (m, there) ↦
            rw there
              (λ h. (λ e. cc, ground arith, to (ground arith)), λ h. ground (arith, from h.2))
      ]
