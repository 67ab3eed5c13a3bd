-- ===== src/Course/Grading/Pending.antt =====
-- Which questions turn a submission away: `acceptSubmission` and `pendingCooldowns` of
-- course-service/internal/handlers/modules.go, over the rows of the attempt table.
use elearning_platform.Prelude.{
  ◌≡◌, ◌≢◌, ◌∙◌, refl, sym, ap, subst, ◌↔◌, ◌⊎◌, inl, inr, String, Bool, true, false, List, [], ◌∷◌,
  ◌&&◌, Option, none, some, arith, Assoc, Bool-cases, contains, if◌then◌else◌,
}
use elearning_platform.Prelude.Int.{ℤ, pos, ltb_ℤ}
use elearning_platform.Prelude.Float64.{Float64}
use elearning_platform.Prelude.Members.{Member}
use elearning_platform.Content.Quiz.{Question, UserAnswer}
use elearning_platform.Attempts.Rows.{
  AttemptKey, Attempt, Attempts, Outage, RowKey, key_eq, key_eq_iff, row,
}
use elearning_platform.Attempts.Repository.{select_states, remaining_until}
use elearning_platform.Attempts.Cooldowns.{remaining_until_pos}
use elearning_platform.Course.Grading.{
  CooldownState, too_early, rejected, accepted, question_ids, pending_of, accept_submission,
  accept_unless,
}
use elearning_platform.Course.Grading.Cooldowns.{pending_cooldowns-states}

-- The deadline is still to come.
abbrev pub is_due : ℤ → Option ℤ → Bool
is_due now none = false
is_due now (some deadline) = ltb_ℤ now deadline

remaining_until-is_due :
    (now : ℤ) (deadline : Option ℤ)
    → ltb_ℤ (pos 0) (remaining_until deadline now) ≡ is_due now deadline
unfolding remaining_until
remaining_until-is_due now none = refl
remaining_until-is_due now (some deadline) = remaining_until_pos deadline now

module _ (f : Float64) (key : AttemptKey) (ids : List String) (now : ℤ) where
  -- The row's count and the whole seconds left until its deadline.
  abbrev pub cooldown_of : Attempt → CooldownState
  cooldown_of a = record {
    remaining_seconds = f.to_int (f.seconds (remaining_until a.cooldown_until now));
    attempts = a.attempts;
    locked = false;
  }

  -- A listed question has a row of the key whose deadline is to come, reported as `c`.
  abbrev pub IsPending : Attempts → String × CooldownState → Type 0
  IsPending t (id, c) =
      (a : Attempt) × Member (row key id, a) t
      × (contains ids id ≡ true)
      × (is_due now a.cooldown_until ≡ true)
      × (cooldown_of a ≡ c)

  abbrev is_pending : RowKey → Attempt → Bool
  is_pending rk a = key_eq rk.key key && contains ids rk.question_id && is_due now a.cooldown_until

  -- A row that is not pending adds nothing.
  IsPending-skip :
      (rk : RowKey) (a : Attempt) (t : Attempts) (e : String × CooldownState)
      → is_pending rk a ≡ false
      → IsPending ((rk, a) ∷ t) e
      → IsPending t e
  IsPending-skip rk a t (id, c) h (b, inl same, listed, due, shape) =
      let own : is_pending (row key id) b ≡ true =
        ground (arith, (key_eq_iff key key).1 refl, listed, due) in
      cc (sym h ∙ ap (λ p. is_pending p.0 p.1) same ∙ own)
  IsPending-skip rk a t (id, c) h (b, inr m, listed, due, shape) = (b, m, listed, due, shape)

  pending_of-select_states :
      (rk : RowKey) (a : Attempt) (t : Attempts)
      → let rest = pending_of f (select_states key ids now t) in
        pending_of f (select_states key ids now ((rk, a) ∷ t))
        ≡ (if is_pending rk a then (rk.question_id, cooldown_of a) ∷ rest else rest)
  unfolding pending_of select_states
  pending_of-select_states rk a t =
      elim (Bool-cases (key_eq rk.key key && contains ids rk.question_id)) [
        | inl e ↦ rw (e, remaining_until-is_due now a.cooldown_until) refl
        | inr e ↦ rw e refl
      ]

  IsPending-here :
      (rk : RowKey) (a : Attempt) (t : Attempts) (id : String) (c : CooldownState)
      → is_pending rk a ≡ true
      → ◌≡◌ {A = String × CooldownState} (rk.question_id, cooldown_of a) (id, c)
      → IsPending ((rk, a) ∷ t) (id, c)
  IsPending-here rk a t id c h same =
      let k : rk.key ≡ key = (key_eq_iff rk.key key).0 (ground arith) in
      let q : rk.question_id ≡ id = ap (λ p. p.0) same in
      let listed : contains ids rk.question_id ≡ true = ground arith in
      (
        a,
        inl (ap (λ x. (row x rk.question_id, a)) k ∙ ap (λ x. (row key x, a)) q),
        ap (contains ids) (sym q) ∙ listed,
        ground arith,
        ap (λ p. p.1) same,
      )

  IsPending-Member :
      (rk : RowKey) (a : Attempt) (t : Attempts) (e : String × CooldownState)
      (rest : Assoc CooldownState)
      → (IsPending t e → Member e rest)
      → IsPending ((rk, a) ∷ t) e
      → Member e ((rk.question_id, cooldown_of a) ∷ rest)
  IsPending-Member rk a t (id, c) rest from (b, inl same, listed, due, shape) =
      inl (ap (λ p. (p.0.question_id, cooldown_of p.1)) same ∙ ap (λ x. (id, x)) shape)
  IsPending-Member rk a t (id, c) rest from (b, inr m, listed, due, shape) =
      inr (from (b, m, listed, due, shape))

  IsPending-there :
      (rk : RowKey) (a : Attempt) (t : Attempts) (e : String × CooldownState)
      → IsPending t e
      → IsPending ((rk, a) ∷ t) e
  IsPending-there rk a t (id, c) (b, m, listed, due, shape) = (b, inr m, listed, due, shape)

  Member-pending_of :
      (t : Attempts) (e : String × CooldownState)
      → Member e (pending_of f (select_states key ids now t)) ↔ IsPending t e
  unfolding pending_of select_states
  Member-pending_of [] (id, c) = (λ m. absurd m, λ (a, m, listed, due, shape). absurd m)
  Member-pending_of ((rk, a) ∷ t) (id, c) =
      let (to, from) = Member-pending_of t (id, c) in
      let step = pending_of-select_states rk a t in
      let rest = pending_of f (select_states key ids now t) in
      let entry : String × CooldownState = (rk.question_id, cooldown_of a) in
      elim (Bool-cases (is_pending rk a)) [
        | inl e ↦
            let entries = ap (λ b. if b then entry ∷ rest else rest) e in
            (
              λ m. elim (subst (Member (id, c)) (step ∙ entries) m) [
                | inl same ↦ IsPending-here rk a t id c e same
                | inr n ↦ IsPending-there rk a t (id, c) (to n)
              ],
              λ p.
                  subst (Member (id, c)) (sym (step ∙ entries))
                    (IsPending-Member rk a t (id, c) rest from p),
            )
        | inr e ↦
            let entries = ap (λ b. if b then entry ∷ rest else rest) e in
            (
              λ m. IsPending-there rk a t (id, c) (to (subst (Member (id, c)) (step ∙ entries) m)),
              λ p.
                  subst (Member (id, c)) (sym (step ∙ entries))
                    (from (IsPending-skip rk a t (id, c) e p)),
            )
      ]

-- The reply by the list of what is pending.
accept_unless-Member :
    (answers : Assoc UserAnswer) (waits : String × CooldownState → Type 0)
    (pending : Assoc CooldownState)
    → ((e : String × CooldownState) → Member e pending ↔ waits e)
    → (((e : String × CooldownState) → ¬ waits e)
        × (accept_unless answers (some pending) ≡ accepted answers))
      ⊎ ((shown : Assoc CooldownState) × (shown ≢ [])
          × (accept_unless answers (some pending) ≡ rejected (too_early shown))
          × ((e : String × CooldownState) → Member e shown ↔ waits e))
accept_unless-Member answers waits [] h = inl (λ e w. (h e).1 w, refl)
accept_unless-Member answers waits (c ∷ rest) h = inr (c ∷ rest, λ e. cc e, refl, h)

-- While the table can be read, a submission that decodes is accepted if no listed question of the
-- learner's module has a row whose deadline is to come; otherwise it is turned away as too early
-- with exactly these questions, each with the seconds left and the attempts of its row.
pub accept_submission-IsPending :
    (f : Float64) (outage : Outage) (now : ℤ) (key : AttemptKey) (questions : List Question)
    (t : Attempts) (answers : Assoc UserAnswer)
    → outage.load ≡ false
    → let waits = IsPending f key (question_ids questions) now t in
      let reply = accept_submission f outage now key questions t (some answers) in
      (((e : String × CooldownState) → ¬ waits e) × (reply ≡ accepted answers))
      ⊎ ((pending : Assoc CooldownState) × (pending ≢ [])
          × (reply ≡ rejected (too_early pending))
          × ((e : String × CooldownState) → Member e pending ↔ waits e))
unfolding accept_submission
accept_submission-IsPending f outage now key questions t answers up =
    let ids = question_ids questions in
    rw (pending_cooldowns-states f outage now key questions t up) (
      accept_unless-Member answers (IsPending f key ids now t)
        (pending_of f (select_states key ids now t)) (Member-pending_of f key ids now t))
