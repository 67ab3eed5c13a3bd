-- ===== src/Content/Cooldown.antt =====
-- Retry backoff: course-service/internal/content/cooldown.go. A `time.Duration` is its 64-bit
-- count of nanoseconds.
pub mod Bounds
use elearning_platform.Prelude.{ℕ, zero, suc, ◌&&◌, if◌then◌else◌, str_eq}
use elearning_platform.Prelude.Int.{ℤ, pos, negsuc, ltb_ℤ, mul_int}
use elearning_platform.Prelude.Float64.{Float64}
use elearning_platform.Content.Quiz.{CooldownSpec}

abbrev pub second : ℤ
second = pos 1000000000

module _ (f : Float64) where
  -- `for range n { mult *= multiplier }`
  unfoldable pub power : f.Num → f.Num → ℕ → f.Num
  power multiplier mult zero = mult
  power multiplier mult (suc n) = power multiplier (f.mul mult multiplier) n

  -- The rounds of `for range currentAttempts - 1`.
  abbrev rounds : ℤ → ℕ
  rounds (pos zero) = 0
  rounds (pos (suc n)) = n
  rounds (negsuc n) = 0

  unfoldable pub cooldown_seconds : ℤ → CooldownSpec f → ℤ
  unfolding power
  cooldown_seconds attempts spec =
      if str_eq spec.strategy "fixed"
      then spec.base_seconds
      else if str_eq spec.strategy "linear"
      then mul_int spec.base_seconds attempts
      else let mult = power spec.multiplier (f.of_int (pos 1)) (rounds attempts) in
        let secs = f.to_int (f.mul (f.of_int spec.base_seconds) mult) in
        if ltb_ℤ (pos 0) spec.max_seconds && ltb_ℤ spec.max_seconds secs
        then spec.max_seconds
        else secs

  unfoldable pub compute_cooldown : ℤ → CooldownSpec f → ℤ
  unfolding cooldown_seconds
  compute_cooldown attempts spec =
      let secs = cooldown_seconds attempts spec in
      mul_int (if ltb_ℤ secs (pos 0) then pos 0 else secs) second
