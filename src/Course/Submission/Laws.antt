-- ===== src/Course/Submission/Laws.antt =====
-- What a submission leaves behind: `SubmitModule` of course-service/internal/handlers/modules.go.
use elearning_platform.Prelude.{
  ℕ, ◌≡◌, ◌∙◌, ap, String, true, false, [], some, arith, contains, Assoc, any, if◌then◌else◌,
  str_eq, ◌↔◌, ◌⊎◌, All,
}
use elearning_platform.Prelude.Int.{ℤ, pos, ltb_ℤ, ◌+ℤ◌}
use elearning_platform.Prelude.Float64.{Float64}
use elearning_platform.Prelude.Table.{get}
use elearning_platform.Content.Quiz.{UserAnswer, QuizResult}
use elearning_platform.Content.Module.{Module, slug}
use elearning_platform.Content.Scoring.{score_quiz}
use elearning_platform.Attempts.Rows.{Attempts, Outage, row, row_key_eq}
use elearning_platform.Attempts.Repository.{select_states, dedupe, clear, result_for, next_attempt}
use elearning_platform.Attempts.Dedupe.{dedupe_lem}
use elearning_platform.Attempts.Cooldowns.{cooldown_holds}
use elearning_platform.Course.View.{Env, LearnerView}
use elearning_platform.Course.Completion.{notify_course_complete}
use elearning_platform.Course.Completion.Laws.{is_course_complete, IsDone, course_completed_iff}
use elearning_platform.Course.Grading.{
  too_early, rejected, accepted, attempt_key, question_ids, failed_ids, passed_ids, pending_of,
  record_question_cooldowns, or_kept,
}
use elearning_platform.Course.Grading.Cooldowns.{
  is_waiting, is_waiting_of-lookup, accept_submission_lem,
}
use elearning_platform.Course.Submission.{
  ResolvedQuiz, effective_quiz, score_submission, finalize_submission, act_on,
}

module _ {f : Float64} (env : Env f) (outage : Outage) (view : LearnerView f) (m : Module f)
    (resolved : ResolvedQuiz f) (idx : ℕ) (answers : Assoc UserAnswer) where
  abbrev pub result : QuizResult
  result = score_quiz f (effective_quiz env resolved) answers

  abbrev pub table_after : ℤ → Attempts → Attempts
  table_after now t = (score_submission env outage now view m resolved idx answers t).2

  -- The table that the failures are recorded on: the passed questions' rows are gone from it.
  abbrev pub cleared : Attempts → Attempts
  cleared t =
      or_kept t (
        clear outage (attempt_key view.user_id view.slug idx) (passed_ids result.question_results)
          t)

  -- A scored submission tells user-service of the course's completion exactly when ScoreQuiz passes it
  -- and each of the learner's modules is hidden, or is a quiz that was passed before or has the
  -- module's slug, or is another module that was viewed or whose slug is empty.
  pub score_submission-notifies_iff :
      (now : ℤ) (t : Attempts)
      → (any is_course_complete (score_submission env outage now view m resolved idx answers t).1
          ≡ true)
        ↔ ((result.passed ≡ true)
            × All
                (λ n.
                  (n.hidden ≡ true) ⊎ IsDone env.unicode view.progress (slug env.unicode m) "" n)
                view.modules)
  unfolding score_submission notify_course_complete
  score_submission-notifies_iff now t =
      let (to, from) = course_completed_iff env.unicode view (slug env.unicode m) "" in
      (λ h. (ground arith, to (ground arith)), λ h. ground (arith, from h.1))

  is_waiting-table_after :
      (now later : ℤ) (t : Attempts) (id : String)
      → outage.increment ≡ false
      → outage.write ≡ false
      → contains (failed_ids result.question_results) id ≡ true
      → str_eq id "" ≡ false
      → contains (question_ids resolved.questions) id ≡ true
      → let key = attempt_key view.user_id view.slug idx in
        let r =
          result_for f resolved.cooldown m.max_attempts_per_question m.lock_on_max_attempts
            (next_attempt (get row_key_eq (row key id) (cleared t))).attempts in
        ltb_ℤ (pos 0) r.remaining ≡ true
        → ltb_ℤ later (now +ℤ r.remaining) ≡ true
        → is_waiting (select_states key (question_ids resolved.questions) later (table_after now t))
          ≡ true
  unfolding score_submission record_question_cooldowns
  is_waiting-table_after now later t id inc write failed named asked earns early =
      let key = attempt_key view.user_id view.slug idx in
      let ids = failed_ids result.question_results in
      let listed : contains (dedupe ids) id ≡ true = (dedupe_lem ids).1 id ∙ ground (arith) in
      let (s, found, _, waits) =
        cooldown_holds f outage now key ids resolved.cooldown m.max_attempts_per_question
          m.lock_on_max_attempts (cleared t) id (question_ids resolved.questions) later inc write
          listed asked earns early in
      is_waiting_of-lookup
        (select_states key (question_ids resolved.questions) later (table_after now t)) id s found
        waits

  -- A scored submission that answers one of the quiz's questions wrongly, one with a non-empty ID, and
  -- earns it a cooldown, closes the quiz to its learner: where the database accepts the statements and
  -- the later read, every submission that decodes and comes before the deadline is answered as too
  -- early, posts nothing and leaves the table as it is.
  pub resubmission-too_early :
      (now later recorded : ℤ) (t : Attempts) (later_outage : Outage) (id : String)
      (later_answers : Assoc UserAnswer)
      → outage.increment ≡ false
      → outage.write ≡ false
      → later_outage.load ≡ false
      → contains (failed_ids result.question_results) id ≡ true
      → str_eq id "" ≡ false
      → contains (question_ids resolved.questions) id ≡ true
      → let key = attempt_key view.user_id view.slug idx in
        let r =
          result_for f resolved.cooldown m.max_attempts_per_question m.lock_on_max_attempts
            (next_attempt (get row_key_eq (row key id) (cleared t))).attempts in
        ltb_ℤ (pos 0) r.remaining ≡ true
        → ltb_ℤ later (now +ℤ r.remaining) ≡ true
        → let t' = table_after now t in
          finalize_submission env later_outage later recorded view m resolved idx
            (some later_answers)
            t'
          ≡ (
            too_early (pending_of f (select_states key (question_ids resolved.questions) later t')),
            [],
            t',
          )
  unfolding finalize_submission
  resubmission-too_early now later recorded t later_outage id later_answers inc write load failed
        named asked earns early =
      let key = attempt_key view.user_id view.slug idx in
      let t' = table_after now t in
      let pending = pending_of f (select_states key (question_ids resolved.questions) later t') in
      let waits = is_waiting-table_after now later t id inc write failed named asked earns early in
      ap (act_on env (λ a. score_submission env later_outage recorded view m resolved idx a t') t')
        (accept_submission_lem f later_outage later key resolved.questions t' later_answers load
          ∙ ap (λ w. if w then rejected (too_early pending) else accepted later_answers) waits)
