-- ===== src/Course/Completion.antt =====
-- Lessons and course completion: `courseCompleted` of course-service/internal/handlers/modules.go and
-- `MarkLessonComplete` of course-service/internal/handlers/lessons.go.
pub mod Laws
use elearning_platform.Prelude.{
  String, Bool, true, false, not, ◌&&◌, ◌||◌, List, [], ◌∷◌, ◌++◌, Option, none, some,
  if◌then◌else◌, str_eq, contains, find, Assoc,
}
use elearning_platform.Prelude.Int.{ℤ}
use elearning_platform.Prelude.Float64.{Float64}
use elearning_platform.Content.Slug.{Unicode}
use elearning_platform.Content.Module.{Course, Module, slug, module_type_quiz, nonempty}
use elearning_platform.Course.View.{
  Post, lesson_complete, course_complete, Claims, CourseProgress, Env, LearnerView, Reply, ok,
  error, to_set,
}
use elearning_platform.Course.Access.{learner_view}

module _ {f : Float64} (u : Unicode) where
  -- One round of the loop: whether this module does not hold the course back.
  unfoldable pub is_finished : CourseProgress → String → String → Module f → Bool
  is_finished progress just_passed just_viewed m =
      if m.hidden
      then true
      else if str_eq m.type module_type_quiz
      then str_eq (slug u m) just_passed || contains progress.passed_modules (slug u m)
      else str_eq (slug u m) just_viewed || contains progress.viewed (slug u m)

  unfoldable pub finished_all : CourseProgress → String → String → List (Module f) → Bool
  unfolding is_finished
  finished_all progress just_passed just_viewed [] = true
  finished_all progress just_passed just_viewed (m ∷ rest) =
      is_finished progress just_passed just_viewed m
      && finished_all progress just_passed just_viewed rest

  unfoldable pub course_completed : LearnerView f → String → String → Bool
  unfolding finished_all
  course_completed view just_passed just_viewed =
      finished_all view.progress just_passed just_viewed view.modules

  -- The first module with the slug.
  unfoldable pub find_module_lesson : List (Module f) → String → Option (Module f)
  find_module_lesson modules lesson = find (λ m. str_eq (slug u m) lesson) modules

module _ {f : Float64} (env : Env f) where
  abbrev or_no_totals : Option (Assoc ℤ) → Assoc ℤ
  or_no_totals none = []
  or_no_totals (some totals) = totals

  unfoldable pub notify_course_complete : Course f → String → Post
  notify_course_complete course user = course_complete (record {
    user_id = user;
    course_slug = course.slug;
    skills = to_set course.skills;
    difficulty = course.difficulty;
    skill_total_courses =
        if nonempty course.skills then or_no_totals (env.skill_totals course.skills) else [];
  })

  -- `accepted` says whether user-service takes the lesson's completion.
  unfoldable pub complete_lesson : Bool → LearnerView f → String → Reply String × List Post
  complete_lesson accepted view lesson = elim (find_module_lesson env.unicode view.modules lesson) [
    | none ↦ (error 404 "Lesson not found", [])
    | some m ↦
        let posted = lesson_complete view.user_id view.slug lesson in
        if not accepted
        then (error 500 "Failed to mark lesson as complete", posted ∷ [])
        else let done = course_completed env.unicode view "" lesson in
          (
            ok "Lesson marked as complete",
            if done
                then posted ∷ notify_course_complete view.course view.user_id ∷ []
                else posted ∷ [],
          )
  ]

  abbrev after_view :
      (LearnerView f → Reply String × List Post)
      → Reply (LearnerView f) × List Post
      → Reply String × List Post
  after_view next (ok view, posts) = let (reply, more) = next view in (reply, posts ++ more)
  after_view next (error status message, posts) = (error status message, posts)

  unfoldable pub mark_lesson_complete :
      Bool → Option Claims → String → String → Reply String × List Post
  unfolding complete_lesson
  mark_lesson_complete accepted claims slug lesson =
      after_view (λ view. complete_lesson accepted view lesson)
        (learner_view env claims slug "Not enrolled")
