-- ===== src/Prelude/FixedPoint.antt =====
-- A stand-in for `float64` on which witnesses run: decimal fixed point with three places, rounded
-- down. It satisfies the laws of `Float64Laws`.
use Prim.Native.Nat.{ℕ, suc, ◌+◌, ◌-◌, ◌*◌, ◌/◌, ◌≤◌, ◌<◌}
use mathlib.Core.Path.{◌≡◌}
use mathlib.Core.Bool.{true}
use native.Mathlib.Omega.{arith}
use elearning_platform.Prelude.Tests.{leb→le}
use elearning_platform.Prelude.Int.{ℤ, pos, negsuc, ◌*ℤ◌, ◌≤ℤ◌, ltb_ℤ, leb_ℤ, sub_ℕ}
use elearning_platform.Prelude.Float64.{Float64, Float64Laws}

-- Division by a positive number, rounded down.
abbrev fdiv : ℤ → ℕ → ℤ
fdiv (pos a) d = pos (a / d)
fdiv (negsuc a) d = negsuc (a / d)

abbrev scale : ℤ → ℤ
scale (pos a) = pos (a * 1000)
scale (negsuc a) = negsuc (a * 1000 + 999)

abbrev div_fixed : ℤ → ℤ → ℤ
div_fixed x (pos d) = fdiv (scale x) d
div_fixed x (negsuc d) = pos 0

abbrev round_fixed : ℤ → ℤ
round_fixed (pos a) = pos ((a + 500) / 1000 * 1000)
round_fixed (negsuc a) = sub_ℕ 0 ((a + 501) / 1000 * 1000)

abbrev pub fixed_point : Float64
fixed_point = record {
  Num = ℤ;
  of_int = scale;
  mul = λ a b. fdiv (a *ℤ b) 1000;
  div = div_fixed;
  ltb = ltb_ℤ;
  leb = leb_ℤ;
  to_int = λ x. fdiv x 1000;
  round = round_fixed;
  seconds = λ d. fdiv d 1000000;
}

mul_exact : (a b : ℤ) → fdiv (scale a *ℤ scale b) 1000 ≡ scale (a *ℤ b)
unfolding ◌*ℤ◌
mul_exact (pos a) (pos b) = ground arith
mul_exact (pos a) (negsuc b) = ground arith
mul_exact (negsuc a) (pos b) = ground arith
mul_exact (negsuc a) (negsuc b) = ground arith

div_le_of_le : (a b d : ℕ) → 0 < d → a ≤ b * d → a / d ≤ b
div_le_of_le a b d h le = grind arith

le_div_of_le : (a b d : ℕ) → 0 < d → b * d ≤ a → b ≤ a / d
le_div_of_le a b d h le = grind arith

div_mono_ℕ : (a b d : ℕ) → a ≤ b → a / d ≤ b / d
div_mono_ℕ a b d h = grind arith

div_le_of_lt : (a b d : ℕ) → 0 < d → a < (b + 1) * d → a / d ≤ b
div_le_of_lt a b d h lt = grind arith

neg_times : (q c : ℕ) → 0 < c → negsuc q *ℤ pos c ≡ negsuc (suc q * c - 1)
unfolding ◌*ℤ◌
neg_times q c h = grind arith

pos_times : (q c : ℕ) → pos q *ℤ pos c ≡ pos (q * c)
unfolding ◌*ℤ◌
pos_times q c = ground arith

div_le :
    (n q : ℤ) (c : ℕ)
    → 0 < c
    → n ≤ℤ q *ℤ pos c
    → leb_ℤ (div_fixed (scale n) (scale (pos c))) (scale q) ≡ true
div_le (pos n) (pos q) c h le =
    let le' : n ≤ q * c = ground (arith, pos_times q c) in
    ground (arith, div_le_of_le (n * 1000 * 1000) (q * 1000) (c * 1000))
div_le (pos n) (negsuc q) c h le = ground (arith, neg_times q c h)
div_le (negsuc n) (pos q) c h le = ground arith
div_le (negsuc n) (negsuc q) c h le =
    let le' : suc q * c ≤ suc n = ground (arith, neg_times q c h) in
    ground (arith, le_div_of_le ((n * 1000 + 999) * 1000 + 999) (q * 1000 + 999) (c * 1000))

le_div :
    (n q : ℤ) (c : ℕ)
    → 0 < c
    → q *ℤ pos c ≤ℤ n
    → leb_ℤ (scale q) (div_fixed (scale n) (scale (pos c))) ≡ true
le_div (pos n) (pos q) c h le =
    let le' : q * c ≤ n = ground (arith, pos_times q c) in
    ground (arith, le_div_of_le (n * 1000 * 1000) (q * 1000) (c * 1000))
le_div (pos n) (negsuc q) c h le = ground arith
le_div (negsuc n) (pos q) c h le = ground (arith, pos_times q c)
le_div (negsuc n) (negsuc q) c h le =
    let le' : suc n ≤ suc q * c = ground (arith, neg_times q c h) in
    ground (arith, div_le_of_lt ((n * 1000 + 999) * 1000 + 999) (q * 1000 + 999) (c * 1000))

div_mono :
    (m n : ℤ) (c : ℕ)
    → m ≤ℤ n
    → leb_ℤ (div_fixed (scale m) (scale (pos c))) (div_fixed (scale n) (scale (pos c))) ≡ true
div_mono (pos m) (pos n) c le =
    ground (arith, div_mono_ℕ (m * 1000 * 1000) (n * 1000 * 1000) (c * 1000))
div_mono (pos m) (negsuc n) c le = ground arith
div_mono (negsuc m) (pos n) c le = ground arith
div_mono (negsuc m) (negsuc n) c le =
    ground
      (arith, div_mono_ℕ ((n * 1000 + 999) * 1000 + 999) ((m * 1000 + 999) * 1000 + 999) (c * 1000))

fdiv_mono : (x y : ℤ) → x ≤ℤ y → leb_ℤ (fdiv x 1000) (fdiv y 1000) ≡ true
fdiv_mono (pos x) (pos y) h = ground arith
fdiv_mono (pos x) (negsuc y) h = ground arith
fdiv_mono (negsuc x) (pos y) h = ground arith
fdiv_mono (negsuc x) (negsuc y) h = ground arith

mul_le : (x y k : ℕ) → x ≤ y → x * k ≤ y * k
mul_le x y k h = grind arith

times_mono : (x y : ℤ) (k : ℕ) → x ≤ℤ y → x *ℤ pos k ≤ℤ y *ℤ pos k
unfolding ◌*ℤ◌
times_mono (pos x) (pos y) k h = ground (arith, mul_le x y k)
times_mono (pos x) (negsuc y) k h = absurd (omega arith)
times_mono (negsuc x) (pos y) k h = ground arith
times_mono (negsuc x) (negsuc y) k h = ground (arith, mul_le (suc y) (suc x) k)

mul_mono :
    (x y : ℤ) (k : ℕ)
    → leb_ℤ x y ≡ true
    → leb_ℤ (fdiv (x *ℤ scale (pos k)) 1000) (fdiv (y *ℤ scale (pos k)) 1000) ≡ true
mul_mono x y k h =
    fdiv_mono (x *ℤ pos (k * 1000)) (y *ℤ pos (k * 1000)) (times_mono x y (k * 1000) (leb→le _ _ h))

leb_of_int : (a b : ℤ) → leb_ℤ (scale a) (scale b) ≡ leb_ℤ a b
leb_of_int (pos a) (pos b) = ground arith
leb_of_int (pos a) (negsuc b) = ground arith
leb_of_int (negsuc a) (pos b) = ground arith
leb_of_int (negsuc a) (negsuc b) = ground arith

le_round :
    (x a b : ℤ)
    → leb_ℤ (scale a) x ≡ true
    → leb_ℤ x (scale b) ≡ true
    → (a ≤ℤ fdiv (round_fixed x) 1000) × (fdiv (round_fixed x) 1000 ≤ℤ b)
le_round (pos x) (pos a) (pos b) l r = ground arith
le_round (negsuc x) (negsuc a) (pos b) l r = ground arith
le_round (pos x) (negsuc a) (pos b) l r = ground arith
le_round (negsuc x) (negsuc a) (negsuc b) l r = ground arith
le_round (pos x) a (negsuc b) l r = ground arith
le_round (negsuc x) (pos a) b l r = ground arith

pub fixed_point_laws : Float64Laws fixed_point
fixed_point_laws = record {
  mul_exact = λ a b _ _ _. mul_exact a b;
  div_le = λ n q c h _ _ _. div_le n q c h;
  le_div = λ n q c h _ _ _. le_div n q c h;
  div_mono = λ m n c _. div_mono m n c;
  mul_mono = λ x y k _. mul_mono x y k;
  leb_trans = λ x y z p q. ground arith;
  leb_of_int = λ a b _ _. leb_of_int a b;
  not_ltb = λ x y p. ground arith;
  leb_of_not_ltb = λ x y p q. ground arith;
  le_round = λ x a b _ _. le_round x a b;
}
