-- ===== src/Course/Grading/Cooldowns.antt =====
-- When `acceptSubmission` of course-service/internal/handlers/modules.go turns a submission away.
use elearning_platform.Prelude.{
  ◌≡◌, ◌∙◌, refl, String, Bool, true, false, List, [], ◌∷◌, some, arith, lookup, ap, sym,
  if◌then◌else◌, Assoc, inl, inr, Bool-cases, any, ◌↔◌,
}
use elearning_platform.Prelude.Int.{ℤ, pos, ltb_ℤ}
use elearning_platform.Prelude.Float64.{Float64}
use elearning_platform.Content.Quiz.{Question, UserAnswer}
use elearning_platform.Attempts.Rows.{AttemptKey, Attempts, AttemptState, Outage}
use elearning_platform.Attempts.Repository.{states, select_states}
use elearning_platform.Course.Grading.{
  CooldownState, too_early, rejected, accepted, question_ids, pending_of, pending_cooldowns,
  accept_submission, accept_unless,
}

-- Some state of the list has time left.
abbrev pub is_waiting : Assoc AttemptState → Bool
is_waiting found = any (λ e. ltb_ℤ (pos 0) e.1.remaining) found

pending_of-empty_iff :
    (f : Float64) (found : Assoc AttemptState)
    → (pending_of f found ≡ []) ↔ (is_waiting found ≡ false)
unfolding pending_of
pending_of-empty_iff f [] = (λ h. refl, λ h. refl)
pending_of-empty_iff f ((id, s) ∷ rest) =
    let (to, from) = pending_of-empty_iff f rest in
    elim (Bool-cases (ltb_ℤ (pos 0) s.remaining)) [
      | inl waits ↦ rw waits (λ h. cc, λ h. cc)
      | inr not_waiting ↦ rw not_waiting (to, from)
    ]

pub is_waiting_of-lookup :
    (found : Assoc AttemptState) (id : String) (s : AttemptState)
    → lookup id found ≡ some s
    → ltb_ℤ (pos 0) s.remaining ≡ true
    → is_waiting found ≡ true
unfolding lookup
is_waiting_of-lookup [] id s h waits = cc
is_waiting_of-lookup ((k, s') ∷ rest) id s h waits = ground (arith, is_waiting_of-lookup rest id s)

select_states-nothing :
    (key : AttemptKey) (now : ℤ) (t : Attempts) → select_states key [] now t ≡ []
unfolding select_states
select_states-nothing key now [] = refl
select_states-nothing key now ((rk, a) ∷ t) = ground (arith, select_states-nothing key now t)

states-select_states :
    (outage : Outage) (now : ℤ) (key : AttemptKey) (ids : List String) (t : Attempts)
    → outage.load ≡ false
    → states outage now key ids t ≡ some (select_states key ids now t)
unfolding states
states-select_states outage now key [] t up = ap some (sym (select_states-nothing key now t))
states-select_states outage now key (id ∷ ids) t up = rw up refl

accept_unless-some :
    (answers : Assoc UserAnswer) (pending : Assoc CooldownState) (waiting : Bool)
    → (pending ≡ []) ↔ (waiting ≡ false)
    → accept_unless answers (some pending)
      ≡ (if waiting then rejected (too_early pending) else accepted answers)
accept_unless-some answers [] true e = cc (e.0 refl)
accept_unless-some answers [] false e = refl
accept_unless-some answers (c ∷ rest) true e = refl
accept_unless-some answers (c ∷ rest) false e = cc (e.1 refl)

pub pending_cooldowns-states :
    (f : Float64) (outage : Outage) (now : ℤ) (key : AttemptKey) (questions : List Question)
    (t : Attempts)
    → outage.load ≡ false
    → pending_cooldowns f outage now key questions t
      ≡ some (pending_of f (select_states key (question_ids questions) now t))
unfolding pending_cooldowns
pending_cooldowns-states f outage now key questions t up =
    rw (pending_cooldowns, states-select_states outage now key (question_ids questions) t up) refl

-- While the table can be read, a submission that decodes is accepted where none of the module's
-- questions has time left, and is otherwise answered with the questions that have.
pub accept_submission_lem :
    (f : Float64) (outage : Outage) (now : ℤ) (key : AttemptKey) (questions : List Question)
    (t : Attempts) (answers : Assoc UserAnswer)
    → outage.load ≡ false
    → let found = select_states key (question_ids questions) now t in
      accept_submission f outage now key questions t (some answers)
      ≡ (if is_waiting found then rejected (too_early (pending_of f found)) else accepted answers)
unfolding accept_submission
accept_submission_lem f outage now key questions t answers up =
    let found = select_states key (question_ids questions) now t in
    ap (accept_unless answers) (pending_cooldowns-states f outage now key questions t up)
    ∙ accept_unless-some answers (pending_of f found) (is_waiting found)
        (pending_of-empty_iff f found)
