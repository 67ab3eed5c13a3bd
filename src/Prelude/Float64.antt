-- ===== src/Prelude/Float64.antt =====
-- Go's `float64`, which is the hardware's: a parameter of the model.
use Prim.Native.Nat.{ℕ, ◌≤◌, ◌<◌}
use mathlib.Core.Path.{◌≡◌}
use mathlib.Core.Bool.{Bool, true, false}
use elearning_platform.Prelude.Int.{ℤ, pos, pos_part, neg_part, ◌*ℤ◌, ◌≤ℤ◌, leb_ℤ}

-- The operations that the source applies to a `float64`.
pub record Float64 : Type 1 where
  pub Num : Type 0
  pub of_int : ℤ → Num  -- float64(n)
  pub mul : Num → Num → Num
  pub div : Num → Num → Num
  pub ltb : Num → Num → Bool  -- a < b, false at a NaN
  pub leb : Num → Num → Bool  -- a <= b, false at a NaN
  pub to_int : Num → ℤ  -- int(x)
  pub round : Num → Num  -- math.Round(x)
  pub seconds : ℤ → Num  -- d.Seconds() of a time.Duration, in nanoseconds

-- The integers whose size is at most 2 ^ 53: a `float64` holds each of them exactly.
abbrev pub IsExact : ℤ → Type 0
IsExact a = (pos_part a ≤ 9007199254740992) × (neg_part a ≤ 9007199254740992)

-- What IEEE 754 gives of these operations, where a zero counts as one value whatever its sign (the
-- source divides by no computed number, and nothing else tells the two apart): products of integers are exact where they fit, a
-- quotient is rounded monotonically, `math.Round` and `int` keep integer bounds, and the order is
-- one on the values that compare.
pub record Float64Laws (f : Float64) : Type 0 where
  pub mul_exact :
      (a b : ℤ)
      → IsExact a
      → IsExact b
      → IsExact (a *ℤ b)
      → f.mul (f.of_int a) (f.of_int b) ≡ f.of_int (a *ℤ b)
  pub div_le :
      (n q : ℤ) (c : ℕ)
      → 0 < c
      → IsExact n
      → IsExact q
      → IsExact (pos c)
      → n ≤ℤ q *ℤ pos c
      → f.leb (f.div (f.of_int n) (f.of_int (pos c))) (f.of_int q) ≡ true
  pub le_div :
      (n q : ℤ) (c : ℕ)
      → 0 < c
      → IsExact n
      → IsExact q
      → IsExact (pos c)
      → q *ℤ pos c ≤ℤ n
      → f.leb (f.of_int q) (f.div (f.of_int n) (f.of_int (pos c))) ≡ true
  pub div_mono :
      (m n : ℤ) (c : ℕ)
      → 0 < c
      → m ≤ℤ n
      → f.leb (f.div (f.of_int m) (f.of_int (pos c))) (f.div (f.of_int n) (f.of_int (pos c))) ≡ true
  pub mul_mono :
      (x y : f.Num) (k : ℕ)
      → 0 < k
      → f.leb x y ≡ true
      → f.leb (f.mul x (f.of_int (pos k))) (f.mul y (f.of_int (pos k))) ≡ true
  pub leb_trans : (x y z : f.Num) → f.leb x y ≡ true → f.leb y z ≡ true → f.leb x z ≡ true
  pub leb_of_int : (a b : ℤ) → IsExact a → IsExact b → f.leb (f.of_int a) (f.of_int b) ≡ leb_ℤ a b
  pub not_ltb : (x y : f.Num) → f.leb y x ≡ true → f.ltb x y ≡ false
  pub leb_of_not_ltb : (x y : f.Num) → f.leb x y ≡ true → f.ltb x y ≡ false → f.leb y x ≡ true
  pub le_round :
      (x : f.Num) (a b : ℤ)
      → IsExact a
      → IsExact b
      → f.leb (f.of_int a) x ≡ true
      → f.leb x (f.of_int b) ≡ true
      → (a ≤ℤ f.to_int (f.round x)) × (f.to_int (f.round x) ≤ℤ b)
