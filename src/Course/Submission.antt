-- ===== src/Course/Submission.antt =====
-- Quiz submission: `SubmitModule`, `resolveSubmitQuiz` and `finalizeSubmission` of
-- course-service/internal/handlers/modules.go.
pub mod Laws
use elearning_platform.Prelude.{
  ℕ, String, Bool, true, false, not, ◌&&◌, List, [], ◌∷◌, ◌++◌, map, Option, none, some,
  if◌then◌else◌, str_eq, get_elem?, length, ltb, Assoc,
}
use elearning_platform.Prelude.Int.{ℤ, pos, negsuc, ltb_ℤ}
use elearning_platform.Prelude.Float64.{Float64}
use elearning_platform.Content.Quiz.{
  CooldownSpec, Question, Quiz, UserAnswer, QuestionResult, QuizResult,
}
use elearning_platform.Content.QuizYaml.{fetched_quiz}
use elearning_platform.Content.Module.{
  Module, slug, module_type_quiz, has_git_content, has_questions,
}
use elearning_platform.Content.Scoring.{score_quiz}
use elearning_platform.Attempts.Rows.{AttemptKey, Attempts, AttemptState, RecordResult, Outage}
use elearning_platform.Attempts.Repository.{states, clear, record_failures}
use elearning_platform.Course.View.{
  Post, module_progress, Claims, Env, LearnerView, Reply, ok, error,
}
use elearning_platform.Course.Access.{learner_view}
use elearning_platform.Course.Completion.{course_completed, notify_course_complete}
use elearning_platform.Course.Grading.{
  SubmitReply, refused, scored, Acceptance, rejected, accepted, attempt_key, accept_submission,
  record_question_cooldowns,
}

-- The questions, pass mark and backoff that a submission is scored with.
pub record ResolvedQuiz (f : Float64) : Type 0 where
  pub questions : List Question
  pub passing_score : ℤ
  pub cooldown : CooldownSpec f

-- strconv.Atoi has parsed the parameter, or failed.
unfoldable pub resolve_module_index : Option ℤ → ℕ → Option ℕ
resolve_module_index none count = none
resolve_module_index (some (negsuc n)) count = none
resolve_module_index (some (pos n)) count = if ltb n count then some n else none

module _ {f : Float64} (env : Env f) where
  unfoldable pub resolve_submit_quiz : Module f → Reply (ResolvedQuiz f)
  resolve_submit_quiz m =
      if has_git_content m
      then elim (env.fetch_quiz m) [
        | none ↦ error 500 "Failed to fetch quiz content"
        | some doc ↦
            let quiz = fetched_quiz m.path doc in
            ok (record {
              questions = quiz.questions;
              passing_score = quiz.passing_score;
              cooldown = quiz.cooldown;
            })
      ]
      else if has_questions m
      then ok (record {
        questions = m.questions;
        passing_score = m.passing_score;
        cooldown = m.cooldown;
      })
      else error 404 "No questions found for this quiz"

  -- `ScoreQuiz` on the quiz made of the questions and the pass mark.
  abbrev pub effective_quiz : ResolvedQuiz f → Quiz f
  effective_quiz r = record {
    id = "";
    title = "";
    description = "";
    version = "";
    covers = [];
    passing_score = r.passing_score;
    cooldown = r.cooldown;
    max_attempts_per_question = none;
    lock_on_max_attempts = false;
    questions = r.questions;
  }

  -- The part of `finalizeSubmission` behind the refusals, with the answers read at one time and the
  -- failures recorded at a later one.
  unfoldable pub score_submission :
      Outage
      → ℤ
      → LearnerView f
      → Module f
      → ResolvedQuiz f
      → ℕ
      → Assoc UserAnswer
      → Attempts
      → SubmitReply × List Post × Attempts
  score_submission outage now view m resolved idx answers t =
      let result = score_quiz f (effective_quiz resolved) answers in
      let key = attempt_key view.user_id view.slug idx in
      let (cooldowns, t') =
        record_question_cooldowns f outage now key result.question_results resolved.cooldown
          m.max_attempts_per_question m.lock_on_max_attempts t in
      let progress = module_progress (record {
        user_id = view.user_id;
        course_slug = view.slug;
        module_index = idx;
        module_slug = slug env.unicode m;
        module_type = m.type;
        score = result.total_score;
        max_score = result.max_score;
        passed = result.passed;
      }) in
      let complete = result.passed && course_completed env.unicode view (slug env.unicode m) "" in
      (
        scored (record {
          total_score = result.total_score;
          max_score = result.max_score;
          passed = result.passed;
          question_results = result.question_results;
          cooldowns = cooldowns;
        }),
        if complete
            then progress ∷ notify_course_complete env view.course view.user_id ∷ []
            else progress ∷ [],
        t',
      )

  -- A rejected submission ends here; `score` is the rest of the handler.
  abbrev pub act_on :
      (Assoc UserAnswer → SubmitReply × List Post × Attempts)
      → Attempts
      → Acceptance
      → SubmitReply × List Post × Attempts
  act_on score t (rejected reply) = (reply, [], t)
  act_on score t (accepted answers) = score answers

  -- `asked` is the time at which the cooldowns are read, `now` that at which failures are recorded.
  unfoldable pub finalize_submission :
      Outage
      → ℤ
      → ℤ
      → LearnerView f
      → Module f
      → ResolvedQuiz f
      → ℕ
      → Option (Assoc UserAnswer)
      → Attempts
      → SubmitReply × List Post × Attempts
  finalize_submission outage asked now view m resolved idx body t =
      act_on (λ answers. score_submission outage now view m resolved idx answers t) t
        (accept_submission f outage asked (attempt_key view.user_id view.slug idx)
          resolved.questions t body)

  -- `SubmitModule` once the learner's view is loaded.
  unfoldable pub submit_to :
      Outage
      → ℤ
      → ℤ
      → Option ℤ
      → Option (Assoc UserAnswer)
      → LearnerView f
      → Attempts
      → SubmitReply × List Post × Attempts
  submit_to outage asked now index body view t =
      elim (resolve_module_index index (length view.modules)) [
        | none ↦ (refused 404 "Module not found", [], t)
        | some idx ↦ elim (get_elem? view.modules idx) [
          | none ↦ (refused 404 "Module not found", [], t)
          | some m ↦
              if not (str_eq m.type module_type_quiz)
              then (refused 400 "Module is not a quiz", [], t)
              else elim (resolve_submit_quiz m) [
                | error status message ↦ (refused status message, [], t)
                | ok resolved ↦ finalize_submission outage asked now view m resolved idx body t
              ]
        ]
      ]

  abbrev after_learner_view :
      (LearnerView f → SubmitReply × List Post × Attempts)
      → Reply (LearnerView f) × List Post
      → Attempts
      → SubmitReply × List Post × Attempts
  after_learner_view next (error status message, posts) t = (refused status message, posts, t)
  after_learner_view next (ok view, posts) t =
      let (reply, more, t') = next view in (reply, posts ++ more, t')

  unfoldable pub submit_module :
      Outage
      → ℤ
      → ℤ
      → Option Claims
      → String
      → Option ℤ
      → Option (Assoc UserAnswer)
      → Attempts
      → SubmitReply × List Post × Attempts
  unfolding submit_to finalize_submission score_submission resolve_submit_quiz
  submit_module outage asked now claims slug index body t =
      after_learner_view (λ view. submit_to outage asked now index body view t)
        (learner_view env claims slug "Enroll in this course to access it") t
