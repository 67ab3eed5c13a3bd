-- ===== src/Attempts/Repository.antt =====
-- The methods of course-service/internal/repository/quiz_attempt.go as functions on the table, at a
-- given time, under an `Outage` that says which statements the database refuses. Instants and
-- durations are nanoseconds.
use elearning_platform.Prelude.{
  ℕ, suc, ◌-◌, String, Bool, true, false, ◌&&◌, ◌||◌, List, [], ◌∷◌, Option, none, some,
  if◌then◌else◌, str_eq, contains, Assoc, ltb,
}
use elearning_platform.Prelude.Int.{ℤ, pos, negsuc, leb_ℤ, ltb_ℤ, ◌+ℤ◌, ◌-ℤ◌, i63}
use elearning_platform.Prelude.Table.{get, put, delete}
use elearning_platform.Prelude.Float64.{Float64}
use elearning_platform.Content.Quiz.{CooldownSpec}
use elearning_platform.Content.Cooldown.{compute_cooldown}
use elearning_platform.Attempts.Rows.{
  AttemptKey, Attempt, AttemptState, RecordResult, Outage, Attempts, key_eq, row_key_eq, row,
}

-- `deadline.Sub(now)` saturates at the ends of a 64-bit duration.
abbrev saturate : ℤ → ℤ
saturate (pos n) = if ltb n i63 then pos n else pos (i63 - 1)
saturate (negsuc n) = if ltb n i63 then negsuc n else negsuc (i63 - 1)

unfoldable pub remaining_until : Option ℤ → ℤ → ℤ
remaining_until none now = pos 0
remaining_until (some deadline) now =
    let left = saturate (deadline -ℤ now) in if ltb_ℤ left (pos 0) then pos 0 else left

-- The rows of the key among the listed questions, and their states. The primary key makes the rows'
-- questions distinct, so the order in which the source fills its map is of no account.
unfoldable pub select_states : AttemptKey → List String → ℤ → Attempts → Assoc AttemptState
select_states key ids now [] = []
select_states key ids now ((rk, a) ∷ rest) =
    let found = select_states key ids now rest in
    if key_eq rk.key key && contains ids rk.question_id
    then (
      rk.question_id,
      record { attempts = a.attempts; remaining = remaining_until a.cooldown_until now },
    )
      ∷ found
    else found

-- `none` is the error that the source returns.
unfoldable pub states :
    Outage → ℤ → AttemptKey → List String → Attempts → Option (Assoc AttemptState)
unfolding select_states remaining_until
states outage now key [] t = some []
states outage now key (id ∷ ids) t =
    if outage.load then none else some (select_states key (id ∷ ids) now t)

unfoldable pub dedupe_from : List String → List String → List String
dedupe_from seen [] = []
dedupe_from seen (v ∷ rest) =
    let skipped = dedupe_from seen rest in
    let kept = v ∷ dedupe_from (v ∷ seen) rest in
    if str_eq v "" || contains seen v then skipped else kept

unfoldable pub dedupe : List String → List String
unfolding dedupe_from
dedupe values = dedupe_from [] values

abbrev pub next_attempt : Option Attempt → Attempt
next_attempt none = record { attempts = 1; cooldown_until = none }
next_attempt (some a) = record a { attempts = suc a.attempts }

-- The upsert, row by row: the new counts and the table.
unfoldable pub upsert_rows : AttemptKey → List String → Attempts → Assoc ℕ × Attempts
upsert_rows key [] t = ([], t)
upsert_rows key (id ∷ ids) t =
    let a = next_attempt (get row_key_eq (row key id) t) in
    let (counts, t') = upsert_rows key ids (put row_key_eq (row key id) a t) in
    ((id, a.attempts) ∷ counts, t')

-- No listed question: the source returns before its statement.
unfoldable pub increment_rows :
    Outage → AttemptKey → List String → Attempts → Option (Assoc ℕ × Attempts)
unfolding upsert_rows
increment_rows outage key [] t = some ([], t)
increment_rows outage key (id ∷ ids) t =
    if outage.increment then none else some (upsert_rows key (id ∷ ids) t)

unfoldable pub increment_attempts :
    Outage → AttemptKey → List String → Attempts → Option (Assoc ℕ × Attempts)
unfolding increment_rows dedupe
increment_attempts outage key ids t = increment_rows outage key (dedupe ids) t

-- `maxAttempts != nil && lockOnMax && count >= *maxAttempts`
unfoldable pub is_locked_out : Option ℤ → Bool → ℕ → Bool
is_locked_out none lock count = false
is_locked_out (some most) lock count = lock && leb_ℤ most (pos count)

module _ (f : Float64) where
  -- One round of RecordFailures' loop: the question's result.
  unfoldable pub result_for : CooldownSpec f → Option ℤ → Bool → ℕ → RecordResult
  unfolding is_locked_out
  result_for spec most lock count =
      if is_locked_out most lock count
      then record { attempts = count; remaining = pos 0; locked = true }
      else record {
        attempts = count;
        remaining = compute_cooldown f (pos count) spec;
        locked = false;
      }

  unfoldable pub results_for : CooldownSpec f → Option ℤ → Bool → Assoc ℕ → Assoc RecordResult
  unfolding result_for
  results_for spec most lock [] = []
  results_for spec most lock ((id, count) ∷ rest) =
      (id, result_for spec most lock count) ∷ results_for spec most lock rest

-- The deadlines of the questions that got a cooldown.
unfoldable pub deadlines_of : ℤ → Assoc RecordResult → Assoc ℤ
deadlines_of now [] = []
deadlines_of now ((id, r) ∷ rest) =
    let others = deadlines_of now rest in
    if ltb_ℤ (pos 0) r.remaining then (id, now +ℤ r.remaining) ∷ others else others

-- The update, row by row: a row that is not there stays away.
unfoldable pub set_deadlines : AttemptKey → Assoc ℤ → Attempts → Attempts
set_deadlines key [] t = t
set_deadlines key ((id, deadline) ∷ rest) t =
    set_deadlines key rest (elim (get row_key_eq (row key id) t) [
      | none ↦ t
      | some a ↦ put row_key_eq (row key id) (record a { cooldown_until = some deadline }) t
    ])

unfoldable pub write_deadlines : Outage → AttemptKey → Assoc ℤ → Attempts → Option Attempts
unfolding set_deadlines
write_deadlines outage key [] t = some t
write_deadlines outage key (d ∷ rest) t =
    if outage.write then none else some (set_deadlines key (d ∷ rest) t)

module _ (f : Float64) where
  -- The two statements share no transaction: an error in the second leaves the counts raised.
  unfoldable pub record_failures :
      Outage
      → ℤ
      → AttemptKey
      → List String
      → CooldownSpec f
      → Option ℤ
      → Bool
      → Attempts
      → Option (Assoc RecordResult) × Attempts
  record_failures outage now key [] spec most lock t = (some [], t)
  record_failures outage now key (id ∷ ids) spec most lock t =
      elim (increment_attempts outage key (id ∷ ids) t) [
        | none ↦ (none, t)
        | some (counts, t') ↦
            let results = results_for f spec most lock counts in
            elim (write_deadlines outage key (deadlines_of now results) t') [
              | none ↦ (none, t')
              | some t'' ↦ (some results, t'')
            ]
      ]

unfoldable pub clear : Outage → AttemptKey → List String → Attempts → Option Attempts
clear outage key [] t = some t
clear outage key (id ∷ ids) t =
    if outage.delete_rows
    then none
    else some (delete row_key_eq (λ rk. key_eq rk.key key && contains (id ∷ ids) rk.question_id) t)
