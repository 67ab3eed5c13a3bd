-- ===== src/Examples/Attempts.antt =====
-- A learner's failures, cooldowns and cleared rows at concrete times.
use elearning_platform.Prelude.{◌≡◌, refl, true, [], ◌∷◌, some, lookup}
use elearning_platform.Prelude.Int.{pos, ltb_ℤ, ◌+ℤ◌, ◌*ℤ◌, mul_int, wrap64}
use elearning_platform.Prelude.FixedPoint.{fixed_point}
use elearning_platform.Prelude.Table.{get}
use elearning_platform.Content.Cooldown.{compute_cooldown, cooldown_seconds}
use elearning_platform.Attempts.Rows.{AttemptState, row, row_key_eq}
use elearning_platform.Attempts.Repository.{
  dedupe, record_failures, select_states, remaining_until, result_for, is_locked_out,
}
use elearning_platform.Attempts.Failures.{get-record_failures}
use elearning_platform.Attempts.Cooldowns.{cooldown_holds, lock_sets_no_deadline}
use elearning_platform.Examples.Data.{linear, running, key, attempts}

-- The second failure earns 60 seconds.
get-record_failures_example :
    get row_key_eq
      (row key "s")
      (record_failures fixed_point running
        (pos 1000)
        key
        ("s" ∷ [])
        linear
        (some (pos 3))
        true
        attempts).1
    ≡ some (record { attempts = 2; cooldown_until = some (pos 60000001000) })
unfolding dedupe result_for compute_cooldown cooldown_seconds ◌+ℤ◌ ◌*ℤ◌ mul_int wrap64 is_locked_out
    get
get-record_failures_example =
    get-record_failures fixed_point running (pos 1000) key ("s" ∷ []) linear (some (pos 3)) true
      attempts (row key "s") refl refl

cooldown_holds_example :
    let t' =
      (record_failures fixed_point running
        (pos 1000)
        key
        ("s" ∷ [])
        linear
        (some (pos 3))
        true
        attempts).1 in
    (s : AttemptState) × (lookup "s" (select_states key ("s" ∷ "m" ∷ []) (pos 50000000000) t')
      ≡ some s)
    × (s.attempts ≡ 2)
    × (ltb_ℤ (pos 0) s.remaining ≡ true)
unfolding dedupe result_for compute_cooldown cooldown_seconds ◌+ℤ◌ ◌*ℤ◌ mul_int wrap64 is_locked_out
    get
cooldown_holds_example =
    cooldown_holds fixed_point running (pos 1000) key ("s" ∷ []) linear (some (pos 3)) true attempts
      "s" ("s" ∷ "m" ∷ []) (pos 50000000000) refl refl refl refl refl refl

-- With two attempts allowed, the second failure locks the question, and it has no time to wait.
lock_sets_no_deadline_example :
    let t' =
      (record_failures fixed_point running
        (pos 1000)
        key
        ("s" ∷ [])
        linear
        (some (pos 2))
        true
        attempts).1 in
    lookup "s" (select_states key ("s" ∷ []) (pos 1001) t')
    ≡ some (record { attempts = 2; remaining = pos 0 })
unfolding dedupe remaining_until is_locked_out get
lock_sets_no_deadline_example =
    lock_sets_no_deadline fixed_point running (pos 1000) key ("s" ∷ []) linear (some (pos 2)) true
      attempts "s" ("s" ∷ []) (pos 1001) refl refl refl refl refl
