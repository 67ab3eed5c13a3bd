-- ===== src/Examples/Course.antt =====
-- Requests of one learner on the example course.
use elearning_platform.Prelude.Members.{Member}
use elearning_platform.Attempts.Rows.{Attempts, row}
use elearning_platform.Prelude.{
  ◌≢◌, String, Assoc, ◌≡◌, refl, ◌↔◌, ◌⊎◌, inl, inr, true, false, [], ◌∷◌, none, some, arith,
  contains, any, All, get_elem?, lookup,
}
use elearning_platform.Prelude.Int.{pos, ◌+ℤ◌, ◌*ℤ◌, add_int, mul_int, wrap64}
use elearning_platform.Prelude.FixedPoint.{fixed_point}
use elearning_platform.Prelude.Table.{get, delete}
use elearning_platform.Content.Module.{slug}
use elearning_platform.Content.Slug.{slugify_module_name}
use elearning_platform.Content.Scoring.{
  score_quiz, score_questions, score_question, score_single, score_multiple, score_boolean,
  score_order, reaches,
}
use elearning_platform.Content.Cooldown.{compute_cooldown}
use elearning_platform.Course.View.{LearnerView}
use elearning_platform.Attempts.Repository.{select_states, result_for, clear}
use elearning_platform.Course.View.{auto_enroll}
use elearning_platform.Course.Access.{summary_of, prerequisite_satisfied, ensure_module_access}
use elearning_platform.Course.Access.Laws.{
  prerequisite_satisfied_iff, ensure_module_access_iff, ensure_module_access-enrolls,
}
use elearning_platform.Course.PublicQuiz.{sanitize_questions}
use elearning_platform.Course.PublicQuiz.Secrecy.{sanitize_questions-secret}
use elearning_platform.Course.Listing.{list_entries, ModuleResponse}
use elearning_platform.Course.Listing.Locks.{list_entries-unlocked_iff, PreviousDone}
use elearning_platform.Course.Completion.{course_completed, complete_lesson, find_module_lesson}
use elearning_platform.Course.Completion.Laws.{
  course_completed_iff, complete_lesson-notifies_iff, is_course_complete,
}
use elearning_platform.Course.Grading.{
  CooldownState, too_early, rejected, accepted, pending_of, accept_submission, question_ids,
  failed_ids, passed_ids,
}
use elearning_platform.Course.Grading.Pending.{IsPending, accept_submission-IsPending}
use elearning_platform.Course.Submission.{score_submission, finalize_submission}
use elearning_platform.Course.Submission.Laws.{
  resubmission-too_early, score_submission-notifies_iff, table_after,
}
use elearning_platform.Examples.Data.{
  option, single, questions, ascii, lesson_module, quiz_module, prerequisite, progress, view, env,
  resolved, running, key, attempts, right_answers, one_wrong,
}

prerequisite_satisfied_iff_example :
    prerequisite_satisfied prerequisite
      (record { total_score = pos 10; passed_modules = "start" ∷ []; viewed_count = pos 0 })
    ≡ true
prerequisite_satisfied_iff_example =
    (prerequisite_satisfied_iff prerequisite
        (record { total_score = pos 10; passed_modules = "start" ∷ []; viewed_count = pos 0 })).1
      (record { score = inr (omega arith); modules = (refl, tt); progress = inl refl })

ensure_module_access_iff_example : (ensure_module_access env view "Not enrolled").0 ≡ none
unfolding prerequisite_satisfied summary_of lookup
ensure_module_access_iff_example =
    (ensure_module_access_iff env view "Not enrolled").1 (inr (inl refl, (refl, tt)))

ensure_module_access-enrolls_example :
    (ensure_module_access env
      (record view { progress = record progress { enrolled = false } })
      "Not enrolled").1
    ≡ auto_enroll "ann" "go" ∷ []
ensure_module_access-enrolls_example =
    (ensure_module_access-enrolls env
        (record view { progress = record progress { enrolled = false } }) "Not enrolled").1
      (refl, refl, refl)

sanitize_questions-secret_example :
    sanitize_questions (single ∷ []) false
    ≡ sanitize_questions
        (record single { answers = option "a" true ∷ option "b" false ∷ [] } ∷ [])
        false
sanitize_questions-secret_example =
    sanitize_questions-secret (single ∷ [])
      (record single { answers = option "a" true ∷ option "b" false ∷ [] } ∷ [])
      (
        record {
          id = refl;
          type = refl;
          difficulty = refl;
          points = refl;
          question = refl;
          answers = ((refl, refl), ((refl, refl), tt));
          items = refl;
          partial_scoring = refl;
          source_refs = refl;
        },
        tt,
      )

list_entries-unlocked_iff_example :
    (e : ModuleResponse) × (get_elem?
        (list_entries ascii false ("intro" ∷ []) progress 0 true (lesson_module ∷ quiz_module ∷ []))
        1
      ≡ some e)
    × (e.slug ≡ slug ascii quiz_module)
    × ((e.locked ≡ false) ↔ (
        All (λ s. contains ("intro" ∷ []) s ≡ true) quiz_module.prerequisites
        × ((quiz_module.inline ≡ true)
            ⊎ PreviousDone ascii ("intro" ∷ []) true (lesson_module ∷ []))))
list_entries-unlocked_iff_example =
    list_entries-unlocked_iff ascii ("intro" ∷ []) progress 0 true (lesson_module ∷ []) []
      quiz_module

course_completed_iff_example : course_completed ascii view "exam" "" ≡ true
unfolding slug slugify_module_name
course_completed_iff_example =
    (course_completed_iff ascii view "exam" "").1
      (inr (inr (refl, inr refl)), (inr (inl (refl, inl refl)), tt))

-- The learner has passed the quiz and now views the lesson.
abbrev nearly_done : LearnerView fixed_point
nearly_done = record view {
  progress = record progress { viewed = []; passed_modules = "exam" ∷ [] };
}

complete_lesson-notifies_iff_example :
    any is_course_complete (complete_lesson env true nearly_done "intro").1 ≡ true
unfolding slug slugify_module_name find_module_lesson
complete_lesson-notifies_iff_example =
    (complete_lesson-notifies_iff env true nearly_done "intro").1
      (λ e. cc, refl, (inr (inr (refl, inl refl)), (inr (inl (refl, inr refl)), tt)))

-- Two wrong answers to one question, and a deadline to come.
abbrev waiting_row : Attempts
waiting_row = (row key "s", record { attempts = 2; cooldown_until = some (pos 9) }) ∷ []

accept_submission-IsPending_example :
    let waits = IsPending fixed_point key (question_ids questions) (pos 7) waiting_row in
    let reply =
      accept_submission fixed_point running
        (pos 7)
        key
        questions
        waiting_row
        (some right_answers) in
    (((e : String × CooldownState) → ¬ waits e) × (reply ≡ accepted right_answers))
    ⊎ ((pending : Assoc CooldownState) × (pending ≢ [])
        × (reply ≡ rejected (too_early pending))
        × ((e : String × CooldownState) → Member e pending ↔ waits e))
accept_submission-IsPending_example =
    accept_submission-IsPending fixed_point running (pos 7) key questions waiting_row right_answers
      refl

score_submission-notifies_iff_example :
    any is_course_complete
      (score_submission env running (pos 7) view quiz_module resolved 1 right_answers attempts).1
    ≡ true
unfolding score_quiz score_questions score_question score_single score_multiple score_boolean
    score_order add_int wrap64 ◌+ℤ◌ lookup slug slugify_module_name reaches ◌*ℤ◌
score_submission-notifies_iff_example =
    (score_submission-notifies_iff env running view quiz_module resolved 1 right_answers (pos 7)
        attempts).1
      (refl, (inr (inr (refl, inr refl)), (inr (inl (refl, inl refl)), tt)))

resubmission-too_early_example :
    let t' = table_after env running view quiz_module resolved 1 one_wrong (pos 1000) attempts in
    finalize_submission env running
      (pos 50000000000)
      (pos 50000000001)
      view
      quiz_module
      resolved
      1
      (some right_answers)
      t'
    ≡ (
      too_early (
          pending_of fixed_point (select_states key (question_ids questions) (pos 50000000000) t')),
      [],
      t',
    )
unfolding failed_ids passed_ids score_quiz add_int wrap64 ◌+ℤ◌ lookup result_for get clear delete
    compute_cooldown mul_int ◌*ℤ◌
resubmission-too_early_example =
    resubmission-too_early env running view quiz_module resolved 1 one_wrong (pos 1000)
      (pos 50000000000) (pos 50000000001) attempts running "s" right_answers refl refl refl refl
      refl refl refl refl
