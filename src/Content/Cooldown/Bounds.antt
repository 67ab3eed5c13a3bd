-- ===== src/Content/Cooldown/Bounds.antt =====
-- Bounds of `ComputeCooldown`: course-service/internal/content/cooldown.go.
use elearning_platform.Prelude.{ℕ, ◌≡◌, refl, ◌∙◌, ◌*◌, ◌≤◌, ◌<◌, false, arith, str_eq}
use elearning_platform.Prelude.Int.{ℤ, pos, pos_part, mul_int-pos}
use elearning_platform.Prelude.Float64.{Float64}
use elearning_platform.Content.Quiz.{CooldownSpec}
use elearning_platform.Content.Cooldown.{cooldown_seconds, compute_cooldown}

-- The most seconds that a `time.Duration` holds.
abbrev pub max_whole_seconds : ℕ
max_whole_seconds = 9223372036

module _ (f : Float64) (spec : CooldownSpec f) where
  -- Up to 9223372036 seconds the cooldown is exact, and a negative one is none.
  pub compute_cooldown_exact :
      (attempts : ℤ)
      → pos_part (cooldown_seconds f attempts spec) ≤ max_whole_seconds
      → compute_cooldown f attempts spec
        ≡ pos (pos_part (cooldown_seconds f attempts spec) * 1000000000)
  unfolding compute_cooldown
  compute_cooldown_exact attempts h = ground (
    arith,
    mul_int-pos (pos_part (cooldown_seconds f attempts spec)) 1000000000,
    mul_int-pos 0 1000000000,
  )

  cooldown_seconds-linear :
      (base attempts : ℕ)
      → spec.strategy ≡ "linear"
      → spec.base_seconds ≡ pos base
      → base * attempts ≤ max_whole_seconds
      → cooldown_seconds f (pos attempts) spec ≡ pos (base * attempts)
  unfolding cooldown_seconds
  cooldown_seconds-linear base attempts linear e h =
      rw (cooldown_seconds, linear, e) (mul_int-pos base attempts (omega arith))

  cooldown_seconds-cap :
      (attempts : ℤ) (cap : ℕ)
      → str_eq spec.strategy "fixed" ≡ false
      → str_eq spec.strategy "linear" ≡ false
      → spec.max_seconds ≡ pos cap
      → 0 < cap
      → pos_part (cooldown_seconds f attempts spec) ≤ cap
  unfolding cooldown_seconds
  cooldown_seconds-cap attempts cap not_fixed not_linear e some_cap = ground arith

  -- A linear backoff of `base` seconds waits `base` seconds for every attempt made, as long as that is
  -- at most 9223372036 seconds.
  pub compute_cooldown_linear :
      (base attempts : ℕ)
      → spec.strategy ≡ "linear"
      → spec.base_seconds ≡ pos base
      → base * attempts ≤ max_whole_seconds
      → compute_cooldown f (pos attempts) spec ≡ pos (base * attempts * 1000000000)
  compute_cooldown_linear base attempts linear e h =
      let secs = cooldown_seconds-linear base attempts linear e h in
      compute_cooldown_exact (pos attempts) (rw secs h) ∙ rw secs refl

  -- A backoff that is neither fixed nor linear, with a positive cap of at most 9223372036 seconds,
  -- waits a time that is not negative and at most the cap.
  pub compute_cooldown_capped :
      (attempts : ℤ) (cap : ℕ)
      → str_eq spec.strategy "fixed" ≡ false
      → str_eq spec.strategy "linear" ≡ false
      → spec.max_seconds ≡ pos cap
      → 0 < cap
      → cap ≤ max_whole_seconds
      → (n : ℕ) × (compute_cooldown f attempts spec ≡ pos n) × (n ≤ cap * 1000000000)
  compute_cooldown_capped attempts cap not_fixed not_linear e some_cap fits =
      let low = cooldown_seconds-cap attempts cap not_fixed not_linear e some_cap in
      (
        pos_part (cooldown_seconds f attempts spec) * 1000000000,
        compute_cooldown_exact attempts (omega arith),
        omega arith,
      )
