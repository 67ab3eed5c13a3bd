-- ===== src/Prelude/Sets.antt =====
-- Go's `map[string]bool` and `map[string]struct{}` as sets: a list of distinct keys. A set's size
-- against inclusion of sets.
use Prim.Native.Nat.{suc, ◌≤◌}
use Prim.Native.String.{String}
use mathlib.Core.Path.{◌≡◌, refl}
use mathlib.Core.Logic.{inl, inr}
use mathlib.Core.Bool.{Bool, true, false, ◌||◌}
use mathlib.Core.List.{List, [], ◌∷◌}
use native.Mathlib.Omega.{arith}
use text.Mathlib.TextEquality.{eq_iff}
use text.Mathlib.TextPositions.{eq_refl}
use elearning_platform.Prelude.Tests.{str_eq, if◌then◌else◌, Bool-cases}
use elearning_platform.Prelude.Lists.{length}

abbrev pub contains : List String → String → Bool
contains [] s = false
contains (x ∷ xs) s = str_eq x s || contains xs s

abbrev pub insert : String → List String → List String
insert s xs = if contains xs s then xs else s ∷ xs

abbrev pub IsDistinct : List String → Type 0
IsDistinct [] = Unit
IsDistinct (x ∷ xs) = (contains xs x ≡ false) × IsDistinct xs

abbrev pub IsSubset : List String → List String → Type 0
IsSubset xs ys = (s : String) → contains xs s ≡ true → contains ys s ≡ true

pub contains-insert :
    (s : String) (xs : List String) (t : String)
    → contains (insert s xs) t ≡ (str_eq s t || contains xs t)
contains-insert s xs t = ground (arith, eq_iff s t)

pub insert-IsDistinct : (s : String) (xs : List String) → IsDistinct xs → IsDistinct (insert s xs)
insert-IsDistinct s xs h = elim (Bool-cases (contains xs s)) [
  | inl old ↦ rw old h
  | inr new ↦ rw new (new, h)
]

remove : String → List String → List String
remove s [] = []
remove s (x ∷ xs) = if str_eq x s then xs else x ∷ remove s xs

length-remove :
    (s : String) (xs : List String) → contains xs s ≡ true → suc (length (remove s xs)) ≡ length xs
unfolding remove
length-remove s [] h = cc
length-remove s (x ∷ xs) h = ground (arith, length-remove s xs)

contains-remove_ne :
    (s : String) (xs : List String) (t : String)
    → str_eq s t ≡ false
    → contains (remove s xs) t ≡ contains xs t
unfolding remove
contains-remove_ne s [] t n = refl
contains-remove_ne s (x ∷ xs) t n = ground (arith, contains-remove_ne s xs t, eq_iff x s)

-- What lies in a set without its first key still lies in the other without that key.
IsSubset-remove :
    (x : String) (xs ys : List String)
    → contains xs x ≡ false
    → IsSubset (x ∷ xs) ys
    → IsSubset xs (remove x ys)
IsSubset-remove x xs ys fresh sub s h = elim (Bool-cases (str_eq x s)) [
  | inl e ↦ ground (arith, eq_iff x s)
  | inr n ↦ ground (arith, contains-remove_ne x ys s n, sub s)
]

pub length-le_of_IsSubset :
    (xs ys : List String) → IsDistinct xs → IsSubset xs ys → length xs ≤ length ys
length-le_of_IsSubset [] ys d sub = omega arith
length-le_of_IsSubset (x ∷ xs) ys d sub =
    let shorter = length-le_of_IsSubset xs (remove x ys) d.1 (IsSubset-remove x xs ys d.0 sub) in
    ground (arith, length-remove x ys, sub x, eq_refl x)

-- A set inside one that is no larger is the whole of it.
pub IsSubset-of_length-le :
    (xs ys : List String) → IsDistinct xs → IsSubset xs ys → length ys ≤ length xs → IsSubset ys xs
IsSubset-of_length-le [] [] d sub le s h = h
IsSubset-of_length-le [] (y ∷ ys) d sub le s h = absurd (omega arith)
IsSubset-of_length-le (x ∷ xs) ys d sub le s h =
    let back = IsSubset-of_length-le xs (remove x ys) d.1 (IsSubset-remove x xs ys d.0 sub) in
    elim (Bool-cases (str_eq x s)) [
      | inl e ↦ ground arith
      | inr n ↦ ground (
        arith,
        contains-remove_ne x ys s n,
        length-remove x ys,
        sub x,
        eq_refl x,
        λ (p : length (remove x ys) ≤ length xs). back p s,
      )
    ]
