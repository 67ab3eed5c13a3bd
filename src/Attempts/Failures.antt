-- ===== src/Attempts/Failures.antt =====
-- `RecordFailures` of quiz_attempt.go as a whole: what one call leaves in each row and reports.
use elearning_platform.Prelude.{
  ℕ, ◌≡◌, refl, sym, ap, ◌∙◌, subst, inl, inr, String, Bool, false, ◌&&◌, List, [], ◌∷◌, map,
  Option, none, some, arith, eq_iff, Bool-cases, contains, IsDistinct, if◌then◌else◌, Assoc, lookup,
}
use elearning_platform.Prelude.Int.{ℤ, pos, ltb_ℤ, ◌+ℤ◌}
use elearning_platform.Prelude.Float64.{Float64}
use elearning_platform.Prelude.Table.{get, put}
use elearning_platform.Content.Quiz.{CooldownSpec}
use elearning_platform.Attempts.Rows.{
  AttemptKey, RowKey, Attempt, Attempts, RecordResult, Outage, key_eq, row, row_key_eq,
}
use elearning_platform.Attempts.Repository.{
  upsert_rows, next_attempt, set_deadlines, dedupe, result_for, results_for, deadlines_of,
  record_failures, increment_attempts, increment_rows, write_deadlines,
}
use elearning_platform.Attempts.Dedupe.{dedupe_lem}
use elearning_platform.Attempts.Counts.{get-put-row, get-row, get-upsert_rows, get-set_deadlines}

abbrev keys {ℓ} : {V : Type ℓ} → Assoc V → List String
keys m = map (λ e. e.0) m

keys-upsert_rows :
    (key : AttemptKey) (ids : List String) (t : Attempts) → keys (upsert_rows key ids t).0 ≡ ids
unfolding upsert_rows
keys-upsert_rows key [] t = refl
keys-upsert_rows key (id ∷ ids) t = ap (◌∷◌ id) (
    keys-upsert_rows key ids
      (put row_key_eq (row key id) (next_attempt (get row_key_eq (row key id) t)) t))

lookup-upsert_rows :
    (key : AttemptKey) (ids : List String) (t : Attempts) (id : String)
    → IsDistinct ids
    → lookup id (upsert_rows key ids t).0 ≡ (
        if contains ids id
        then some (next_attempt (get row_key_eq (row key id) t)).attempts
        else none)
unfolding upsert_rows lookup
lookup-upsert_rows key [] t id d = refl
lookup-upsert_rows key (j ∷ ids) t id d =
    let a = next_attempt (get row_key_eq (row key j) t) in
    ground (
      arith,
      lookup-upsert_rows key ids (put row_key_eq (row key j) a t) id d.1,
      get-put-row key j a t (row key id),
      eq_iff j id,
    )

module _ (f : Float64) (spec : CooldownSpec f) (most : Option ℤ) (lock : Bool) where
  keys-results_for : (counts : Assoc ℕ) → keys (results_for f spec most lock counts) ≡ keys counts
  unfolding results_for
  keys-results_for [] = refl
  keys-results_for ((id, n) ∷ counts) = ap (◌∷◌ id) (keys-results_for counts)

  abbrev mapped : Option ℕ → Option RecordResult
  mapped none = none
  mapped (some n) = some (result_for f spec most lock n)

  lookup-results_for :
      (counts : Assoc ℕ) (id : String)
      → lookup id (results_for f spec most lock counts) ≡ mapped (lookup id counts)
  unfolding results_for lookup
  lookup-results_for [] id = refl
  lookup-results_for ((j, n) ∷ counts) id = ground (arith, lookup-results_for counts id)

contains-deadlines_of :
    (now : ℤ) (rs : Assoc RecordResult) (id : String)
    → contains (keys rs) id ≡ false
    → contains (keys (deadlines_of now rs)) id ≡ false
unfolding deadlines_of
contains-deadlines_of now [] id h = refl
contains-deadlines_of now ((j, r) ∷ rs) id h = ground (arith, contains-deadlines_of now rs id)

deadlines_of-IsDistinct :
    (now : ℤ) (rs : Assoc RecordResult)
    → IsDistinct (keys rs)
    → IsDistinct (keys (deadlines_of now rs))
unfolding deadlines_of
deadlines_of-IsDistinct now [] d = tt
deadlines_of-IsDistinct now ((j, r) ∷ rs) d = elim (Bool-cases (ltb_ℤ (pos 0) r.remaining)) [
  | inl e ↦ rw e (contains-deadlines_of now rs j d.0, deadlines_of-IsDistinct now rs d.1)
  | inr e ↦ rw e (deadlines_of-IsDistinct now rs d.1)
]

abbrev deadline_for : ℤ → Option RecordResult → Option ℤ
deadline_for now none = none
deadline_for now (some r) = if ltb_ℤ (pos 0) r.remaining then some (now +ℤ r.remaining) else none

lookup-absent :
    {V : Type 0} (m : Assoc V) (id : String) → contains (keys m) id ≡ false → lookup id m ≡ none
unfolding lookup
lookup-absent [] id h = refl
lookup-absent ((j, v) ∷ m) id h = ground (arith, lookup-absent m id)

lookup-deadlines_of :
    (now : ℤ) (rs : Assoc RecordResult) (id : String)
    → IsDistinct (keys rs)
    → lookup id (deadlines_of now rs) ≡ deadline_for now (lookup id rs)
unfolding deadlines_of lookup
lookup-deadlines_of now [] id d = refl
lookup-deadlines_of now ((j, r) ∷ rs) id d = ground (
  arith,
  lookup-deadlines_of now rs id d.1,
  lookup-absent (deadlines_of now rs) id,
  contains-deadlines_of now rs id,
  eq_iff j id,
)

increment_rows_ok :
    (outage : Outage) (key : AttemptKey) (ids : List String) (t : Attempts)
    → outage.increment ≡ false
    → increment_rows outage key ids t ≡ some (upsert_rows key ids t)
unfolding increment_rows upsert_rows
increment_rows_ok outage key [] t h = refl
increment_rows_ok outage key (id ∷ ids) t h = rw h

increment_attempts_lem :
    (outage : Outage) (key : AttemptKey) (ids : List String) (t : Attempts)
    → increment_attempts outage key ids t ≡ increment_rows outage key (dedupe ids) t
unfolding increment_attempts
increment_attempts_lem outage key ids t = refl

write_deadlines_ok :
    (outage : Outage) (key : AttemptKey) (ds : Assoc ℤ) (t : Attempts)
    → outage.write ≡ false
    → write_deadlines outage key ds t ≡ some (set_deadlines key ds t)
unfolding write_deadlines set_deadlines
write_deadlines_ok outage key [] t h = refl
write_deadlines_ok outage key (d ∷ ds) t h = rw h

increment_attempts_ok :
    (outage : Outage) (key : AttemptKey) (ids : List String) (t : Attempts)
    → outage.increment ≡ false
    → increment_attempts outage key ids t ≡ some (upsert_rows key (dedupe ids) t)
increment_attempts_ok outage key ids t h =
    increment_attempts_lem outage key ids t ∙ increment_rows_ok outage key (dedupe ids) t h

record_failures-rows :
    (f : Float64) (outage : Outage) (now : ℤ) (key : AttemptKey) (ids : List String)
    (spec : CooldownSpec f) (most : Option ℤ) (lock : Bool) (t : Attempts)
    → let (counts, t') = upsert_rows key (dedupe ids) t in
      let results = results_for f spec most lock counts in
      let t'' = set_deadlines key (deadlines_of now results) t' in
      increment_attempts outage key ids t ≡ some (counts, t')
      → write_deadlines outage key (deadlines_of now results) t' ≡ some t''
      → record_failures f outage now key ids spec most lock t ≡ (some results, t'')
unfolding record_failures
record_failures-rows f outage now key [] spec most lock t hi hw =
    unfold dedupe upsert_rows results_for deadlines_of set_deadlines in refl
record_failures-rows f outage now key (id ∷ ids) spec most lock t hi hw = ground (arith, hi, hw)

module _ (f : Float64) (outage : Outage) (now : ℤ) (key : AttemptKey) (ids : List String)
    (spec : CooldownSpec f) (most : Option ℤ) (lock : Bool) (t : Attempts) where
  -- The rows that the call touches: the key's, for a listed question with a non-empty ID.
  abbrev pub touches : RowKey → Bool
  touches rk = key_eq rk.key key && contains (dedupe ids) rk.question_id

  -- A touched row has one attempt more, and a deadline if the new count earns a cooldown.
  abbrev pub after_failure : Option Attempt → Attempt
  after_failure old =
      let a = next_attempt old in
      let r = result_for f spec most lock a.attempts in
      if ltb_ℤ (pos 0) r.remaining
      then record a { cooldown_until = some (now +ℤ r.remaining) }
      else a

  abbrev recorded : Assoc RecordResult
  recorded = results_for f spec most lock (upsert_rows key (dedupe ids) t).0

  abbrev updated : Attempts
  updated = set_deadlines key (deadlines_of now recorded) (upsert_rows key (dedupe ids) t).1

  record_failures_ok :
      outage.increment ≡ false
      → outage.write ≡ false
      → record_failures f outage now key ids spec most lock t ≡ (some recorded, updated)
  record_failures_ok hi hw =
      record_failures-rows f outage now key ids spec most lock t
        (increment_attempts_ok outage key ids t hi)
        (write_deadlines_ok outage key (deadlines_of now recorded)
          (upsert_rows key (dedupe ids) t).1 hw)

  keys-recorded : keys recorded ≡ dedupe ids
  keys-recorded =
      keys-results_for f spec most lock (upsert_rows key (dedupe ids) t).0
      ∙ keys-upsert_rows key (dedupe ids) t

  -- Where the database accepts both statements, recording failures gives each row of the key whose
  -- question is listed under a non-empty ID one attempt more, however often it is listed, and the
  -- deadline of its new cooldown where that is positive. Every other row stays as it is.
  pub get-record_failures :
      (rk : RowKey)
      → outage.increment ≡ false
      → outage.write ≡ false
      → get row_key_eq rk (record_failures f outage now key ids spec most lock t).1
        ≡ (if touches rk then some (after_failure (get row_key_eq rk t)) else get row_key_eq rk t)
  get-record_failures rk hi hw =
      let (distinct, _) = dedupe_lem ids in
      let id = rk.question_id in
      let d = subst IsDistinct (sym keys-recorded) distinct in
      rw (record_failures_ok hi hw) (
        ground (
          arith,
          get-set_deadlines key (deadlines_of now recorded) (upsert_rows key (dedupe ids) t).1 rk
              (deadlines_of-IsDistinct now recorded d),
          lookup-deadlines_of now recorded id d,
          lookup-results_for f spec most lock (upsert_rows key (dedupe ids) t).0 id,
          lookup-upsert_rows key (dedupe ids) t id distinct,
          get-upsert_rows key (dedupe ids) t rk distinct,
          get-row key id t rk,
          eq_iff id id,
        ))
