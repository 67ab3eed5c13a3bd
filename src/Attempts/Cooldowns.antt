-- ===== src/Attempts/Cooldowns.antt =====
-- Reading the state back: `States` and `Clear` of quiz_attempt.go, after `RecordFailures`.
use elearning_platform.Prelude.{
  ℕ, ◌≡◌, refl, ◌∙◌, String, Bool, true, false, ◌&&◌, List, [], ◌∷◌, Option, none, some, arith,
  eq_iff, contains, if◌then◌else◌, lookup,
}
use elearning_platform.Prelude.Int.{ℤ, pos, ltb_ℤ, ◌+ℤ◌, -ℤ_parts}
use elearning_platform.Prelude.Float64.{Float64}
use elearning_platform.Prelude.Table.{get, delete, get-delete}
use elearning_platform.Content.Quiz.{CooldownSpec}
use elearning_platform.Attempts.Rows.{
  AttemptKey, RowKey, Attempt, Attempts, AttemptState, Outage, key_eq, row, row_key_eq, key_eq_iff,
}
use elearning_platform.Attempts.Repository.{
  dedupe, select_states, remaining_until, clear, record_failures, result_for, next_attempt,
  is_locked_out,
}
use elearning_platform.Attempts.Failures.{get-record_failures}

-- What `States` makes of a row.
abbrev pub state_of : ℤ → Option Attempt → Option AttemptState
state_of now none = none
state_of now (some a) =
    some (record { attempts = a.attempts; remaining = remaining_until a.cooldown_until now })

-- The states read for a key are those of its listed questions' rows, each with the row's count and
-- the time left until its deadline, and no others.
pub lookup-select_states :
    (key : AttemptKey) (ids : List String) (now : ℤ) (t : Attempts) (id : String)
    → lookup id (select_states key ids now t)
      ≡ (if contains ids id then state_of now (get row_key_eq (row key id) t) else none)
unfolding select_states lookup get
lookup-select_states key ids now [] id = ground arith
lookup-select_states key ids now ((rk, a) ∷ t) id =
    ground (
      arith,
      lookup-select_states key ids now t id,
      key_eq_iff rk.key key,
      eq_iff rk.question_id id,
    )

-- A deadline in the future leaves a positive wait, and one in the past none.
pub remaining_until_pos :
    (deadline now : ℤ) → (ltb_ℤ (pos 0) (remaining_until (some deadline) now) ≡ ltb_ℤ now deadline)
unfolding remaining_until
remaining_until_pos deadline now = ground (arith, -ℤ_parts deadline now)

-- Where the database deletes, clearing forgets the listed questions of the key, and nothing else.
pub get-clear :
    (outage : Outage) (key : AttemptKey) (ids : List String) (t : Attempts) (rk : RowKey)
    → outage.delete_rows ≡ false
    → (t' : Attempts) × (clear outage key ids t ≡ some t')
      × (get row_key_eq rk t' ≡ (
          if key_eq rk.key key && contains ids rk.question_id then none else get row_key_eq rk t))
unfolding clear
get-clear outage key [] t rk h = (t, refl, ground arith)
get-clear outage key (id ∷ ids) t rk h =
    let mine : RowKey → Bool = λ rk'. key_eq rk'.key key && contains (id ∷ ids) rk'.question_id in
    (delete row_key_eq mine t, rw h refl, get-delete row_key_eq mine rk t)

module _ (f : Float64) (outage : Outage) (now : ℤ) (key : AttemptKey) (ids : List String)
    (spec : CooldownSpec f) (most : Option ℤ) (lock : Bool) (t : Attempts) where
  -- The attempt that a failure on this question counts as.
  abbrev pub count_after : String → ℕ
  count_after id = (next_attempt (get row_key_eq (row key id) t)).attempts

  -- Where the database accepts the statements, a listed question that a failure earns a cooldown reports
  -- the raised count and a positive wait when asked at any time before the end of that cooldown.
  pub cooldown_holds :
      (id : String) (asked : List String) (later : ℤ)
      → outage.increment ≡ false
      → outage.write ≡ false
      → contains (dedupe ids) id ≡ true
      → contains asked id ≡ true
      → let r = result_for f spec most lock (count_after id) in
        ltb_ℤ (pos 0) r.remaining ≡ true
        → ltb_ℤ later (now +ℤ r.remaining) ≡ true
        → let t' = (record_failures f outage now key ids spec most lock t).1 in
          (s : AttemptState) × (lookup id (select_states key asked later t') ≡ some s)
          × (s.attempts ≡ count_after id)
          × (ltb_ℤ (pos 0) s.remaining ≡ true)
  unfolding result_for
  cooldown_holds id asked later hi hw listed asks earns early =
      let r = result_for f spec most lock (count_after id) in
      (
        record {
          attempts = count_after id;
          remaining = remaining_until (some (now +ℤ r.remaining)) later;
        },
        ground (
          arith,
          lookup-select_states key asked later
              (record_failures f outage now key ids spec most lock t).1 id,
          get-record_failures f outage now key ids spec most lock t (row key id) hi hw,
          key_eq_iff key key,
        ),
        refl,
        remaining_until_pos (now +ℤ r.remaining) later ∙ early,
      )

  -- Where the database accepts the statements, a failure that reaches the cap of a locking module sets
  -- no deadline: the question's wait is that of its earlier deadline, and none if it had none.
  pub lock_sets_no_deadline :
      (id : String) (asked : List String) (later : ℤ)
      → outage.increment ≡ false
      → outage.write ≡ false
      → contains (dedupe ids) id ≡ true
      → contains asked id ≡ true
      → is_locked_out most lock (count_after id) ≡ true
      → let t' = (record_failures f outage now key ids spec most lock t).1 in
        lookup id (select_states key asked later t')
        ≡ state_of later (some (next_attempt (get row_key_eq (row key id) t)))
  unfolding result_for
  lock_sets_no_deadline id asked later hi hw listed asks out = ground (
    arith,
    lookup-select_states key asked later (record_failures f outage now key ids spec most lock t).1
        id,
    get-record_failures f outage now key ids spec most lock t (row key id) hi hw,
    key_eq_iff key key,
  )
