-- ===== src/Course/Access/Laws.antt =====
-- Who gets into a course: the access rules of course-service/internal/handlers/modules.go.
use elearning_platform.Prelude.{
  ◌≡◌, refl, ◌↔◌, ◌⊎◌, ◌≢◌, inl, inr, String, Bool, true, false, not, ◌&&◌, List, [], ◌∷◌, map,
  none, arith, contains, all, All, Bool-cases,
}
use elearning_platform.Prelude.Int.{pos, ltb_ℤ, ◌≤ℤ◌}
use elearning_platform.Prelude.Float64.{Float64}
use elearning_platform.Content.Module.{CoursePrerequisite, nonempty}
use elearning_platform.Course.View.{auto_enroll, CoursePrereqSummary, Env, LearnerView}
use elearning_platform.Course.Access.{
  prerequisite_satisfied, check_course_prerequisites, ensure_module_access, summary_of,
}

all_iff : {A : Type 0} (p : A → Bool) (l : List A) → (all p l ≡ true) ↔ All (λ x. p x ≡ true) l
all_iff p [] = (λ h. tt, λ h. refl)
all_iff p (x ∷ l) =
    (λ h. (ground arith, (all_iff p l).0 (ground arith)), λ h. ground (arith, (all_iff p l).1 h.1))

-- The three conditions of one prerequisite.
pub record IsMet (p : CoursePrerequisite) (s : CoursePrereqSummary) : Type 0 where
  pub score : (p.min_score ≤ℤ pos 0) ⊎ (p.min_score ≤ℤ s.total_score)
  pub modules : All (λ m. contains s.passed_modules m ≡ true) p.modules
  pub progress :
      (ltb_ℤ (pos 0) p.min_score ≡ true)
      ⊎ (p.modules ≢ [])
      ⊎ (ltb_ℤ (pos 0) s.total_score ≡ true)
      ⊎ (ltb_ℤ (pos 0) s.viewed_count ≡ true)

nonempty_iff : {A : Type 0} (l : List A) → (nonempty l ≡ true) ↔ (l ≢ [])
nonempty_iff [] = (λ h. cc, λ h. absurd (h refl))
nonempty_iff (x ∷ l) = (λ h e. cc, λ h. refl)

-- prerequisiteSatisfied accepts exactly when the learner has the minimum score, where the prerequisite
-- asks for a positive one, has passed all its modules, and has a positive score or some view in the
-- course where it asks for neither.
pub prerequisite_satisfied_iff :
    (p : CoursePrerequisite) (s : CoursePrereqSummary)
    → (prerequisite_satisfied p s ≡ true) ↔ IsMet p s
unfolding prerequisite_satisfied
prerequisite_satisfied_iff p s =
    let (every, back) = all_iff (contains s.passed_modules) p.modules in
    let (some_module, listed) = nonempty_iff p.modules in
    (
      λ h. record {
        score = ground arith;
        modules = every (ground arith);
        progress = ground (arith, some_module);
      },
      λ m. ground (arith, back m.modules, m.score, m.progress, listed),
    )

nonempty-all :
    {A : Type 0} (p : A → Bool) (l : List A) → (nonempty l && not (all p l)) ≡ not (all p l)
nonempty-all p [] = refl
nonempty-all p (x ∷ l) = refl

module _ {f : Float64} (env : Env f) where
  -- The learner's progress in the prerequisite's course satisfies it.
  abbrev pub satisfies : LearnerView f → CoursePrerequisite → Bool
  satisfies view p = prerequisite_satisfied p (
      summary_of (env.course_summaries view.user_id (map (λ q. q.course) view.course.prerequisites))
        p.course)

  -- A request is let through exactly for an admin, or for a learner of a public course or one in which
  -- they are enrolled, whose prerequisites are all satisfied.
  pub ensure_module_access_iff :
      (view : LearnerView f) (denied : String)
      → ((ensure_module_access env view denied).0 ≡ none) ↔ (
          (view.is_admin ≡ true)
          ⊎ (((view.course.is_public ≡ true) ⊎ (view.progress.enrolled ≡ true))
              × All (λ p. satisfies view p ≡ true) view.course.prerequisites))
  unfolding ensure_module_access check_course_prerequisites
  ensure_module_access_iff view denied =
      let prereqs = view.course.prerequisites in
      let gate = nonempty-all (satisfies view) prereqs in
      let (every, back) = all_iff (satisfies view) prereqs in
      (
        λ h. elim (Bool-cases view.is_admin) [
          | inl a ↦ inl a
          | inr learner ↦ inr (ground arith, every (ground arith))
        ],
        λ h. elim h [ inl a ↦ rw a | inr (open_course, met) ↦ ground (arith, back met) ],
      )

  -- Enrolment is started exactly for a learner, no admin, who is not yet enrolled in a public course.
  -- It is started also where the unsatisfied prerequisites then refuse the request.
  pub ensure_module_access-enrolls :
      (view : LearnerView f) (denied : String)
      → ((ensure_module_access env view denied).1 ≡ auto_enroll view.user_id view.slug ∷ []) ↔ (
          (view.is_admin ≡ false)
          × (view.course.is_public ≡ true)
          × (view.progress.enrolled ≡ false))
  unfolding ensure_module_access
  ensure_module_access-enrolls view denied = ground arith
