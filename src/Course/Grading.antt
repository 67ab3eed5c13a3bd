-- ===== src/Course/Grading.antt =====
-- The attempt state around a submission: `acceptSubmission`, `pendingCooldowns` and
-- `recordQuestionCooldowns` of course-service/internal/handlers/modules.go, over the attempt table.
pub mod Cooldowns
pub mod Pending
use elearning_platform.Prelude.{
  ℕ, String, Bool, true, false, not, ◌&&◌, List, [], ◌∷◌, ◌++◌, map, Option, none, some,
  if◌then◌else◌, str_eq, get_elem?, length, ltb, Assoc,
}
use elearning_platform.Prelude.Int.{ℤ, pos, negsuc, ltb_ℤ}
use elearning_platform.Prelude.Float64.{Float64}
use elearning_platform.Content.Quiz.{
  CooldownSpec, Question, Quiz, UserAnswer, QuestionResult, QuizResult,
}
use elearning_platform.Content.QuizYaml.{fetched_quiz}
use elearning_platform.Content.Module.{
  Module, slug, module_type_quiz, has_git_content, has_questions,
}
use elearning_platform.Content.Scoring.{score_quiz}
use elearning_platform.Attempts.Rows.{AttemptKey, Attempts, AttemptState, RecordResult, Outage}
use elearning_platform.Attempts.Repository.{states, clear, record_failures}
use elearning_platform.Course.View.{
  Post, module_progress, Claims, Env, LearnerView, Reply, ok, error,
}
use elearning_platform.Course.Access.{learner_view}
use elearning_platform.Course.Completion.{course_completed, notify_course_complete}

pub record CooldownState : Type 0 where
  pub remaining_seconds : ℤ
  pub attempts : ℕ
  pub locked : Bool

pub record SubmitResponse : Type 0 where
  pub total_score : ℤ
  pub max_score : ℤ
  pub passed : Bool
  pub question_results : List QuestionResult
  pub cooldowns : Option (Assoc CooldownState)  -- `none` where recording failed

-- What the handler writes: an error, status 425 with the pending cooldowns, or the scored quiz.
pub data SubmitReply : Type 0 where
  refused : ℕ → String → SubmitReply
  too_early : Assoc CooldownState → SubmitReply
  scored : SubmitResponse → SubmitReply

abbrev pub attempt_key : String → String → ℕ → AttemptKey
attempt_key user course idx = record {
  username = user;
  course_slug = course;
  module_index = pos idx;
}

abbrev pub question_ids : List Question → List String
question_ids qs = map (λ q. q.id) qs

-- The IDs of the questions answered rightly, and of the others.
unfoldable pub passed_ids : List QuestionResult → List String
passed_ids [] = []
passed_ids (r ∷ rest) =
    let ids = passed_ids rest in if r.is_correct then r.question_id ∷ ids else ids

unfoldable pub failed_ids : List QuestionResult → List String
failed_ids [] = []
failed_ids (r ∷ rest) =
    let ids = failed_ids rest in if r.is_correct then ids else r.question_id ∷ ids

module _ (f : Float64) where
  -- int(d.Seconds())
  abbrev whole_seconds : ℤ → ℤ
  whole_seconds d = f.to_int (f.seconds d)

  unfoldable pub pending_of : Assoc AttemptState → Assoc CooldownState
  pending_of [] = []
  pending_of ((id, s) ∷ rest) =
      let others = pending_of rest in
      if ltb_ℤ (pos 0) s.remaining
      then (
        id,
        record {
          remaining_seconds = whole_seconds s.remaining;
          attempts = s.attempts;
          locked = false;
        },
      )
        ∷ others
      else others

  unfoldable pub reported : Assoc RecordResult → Assoc CooldownState
  reported [] = []
  reported ((id, r) ∷ rest) =
      (
        id,
        record {
          remaining_seconds = whole_seconds r.remaining;
          attempts = r.attempts;
          locked = r.locked;
        },
      )
      ∷ reported rest

-- A step of the chain that may refuse the request: the table is left alone.
unfoldable pub pending_cooldowns :
    (f : Float64)
    → Outage
    → ℤ
    → AttemptKey
    → List Question
    → Attempts
    → Option (Assoc CooldownState)
unfolding pending_of
pending_cooldowns f outage now key questions t =
    elim (states outage now key (question_ids questions) t) [
      | none ↦ none
      | some found ↦ some (pending_of f found)
    ]

-- What `acceptSubmission` decides: a reply that ends the request, or the answers to score.
pub data Acceptance : Type 0 where
  rejected : SubmitReply → Acceptance
  accepted : Assoc UserAnswer → Acceptance

abbrev pub accept_unless : Assoc UserAnswer → Option (Assoc CooldownState) → Acceptance
accept_unless answers none = rejected (refused 500 "Internal error")
accept_unless answers (some []) = accepted answers
accept_unless answers (some (c ∷ rest)) = rejected (too_early (c ∷ rest))

-- `body` is the decoded request, if it decodes. The table is only read.
unfoldable pub accept_submission :
    (f : Float64)
    → Outage
    → ℤ
    → AttemptKey
    → List Question
    → Attempts
    → Option (Assoc UserAnswer)
    → Acceptance
accept_submission f outage now key questions t none = rejected (refused 400 "Invalid request body")
accept_submission f outage now key questions t (some answers) =
    accept_unless answers (pending_cooldowns f outage now key questions t)

abbrev pub or_kept : Attempts → Option Attempts → Attempts
or_kept t none = t
or_kept t (some t') = t'

-- A failed delete is logged and passed over.
unfoldable pub record_question_cooldowns :
    (f : Float64)
    → Outage
    → ℤ
    → AttemptKey
    → List QuestionResult
    → CooldownSpec f
    → Option ℤ
    → Bool
    → Attempts
    → Option (Assoc CooldownState) × Attempts
unfolding passed_ids failed_ids reported
record_question_cooldowns f outage now key results spec most lock t =
    let cleared = or_kept t (clear outage key (passed_ids results) t) in
    let (recorded, t') =
      record_failures f outage now key (failed_ids results) spec most lock cleared in
    (elim recorded [ none ↦ none | some rs ↦ some (reported f rs) ], t')
