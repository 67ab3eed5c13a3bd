-- ===== src/Prelude/Members.antt =====
-- Membership of a list by recursion, and what `map` and `keep` do to it.
use mathlib.Core.Path.{◌≡◌, refl, sym, ap, ◌∙◌}
use mathlib.Core.Logic.{◌⊎◌, inl, inr, ◌↔◌}
use mathlib.Core.Bool.{Bool, true, false}
use mathlib.Core.Option.{some}
use mathlib.Core.List.{List, [], ◌∷◌, map}
use native.Mathlib.Omega.{arith}
use elearning_platform.Prelude.Tests.{Bool-cases}
use elearning_platform.Prelude.Lists.{keep, find, any}

module _ {A : Type 0} where
  abbrev pub Member : A → List A → Type 0
  Member a [] = ⊥
  Member a (x ∷ xs) = (x ≡ a) ⊎ Member a xs

  pub Member-keep :
      (p : A → Bool) (a : A) (xs : List A) → Member a (keep p xs) ↔ (Member a xs × (p a ≡ true))
  Member-keep p a [] = (λ m. absurd m, λ m. m.0)
  Member-keep p a (x ∷ xs) =
      let (into, out) = Member-keep p a xs in
      elim (Bool-cases (p x)) [
        | inl e ↦ rw e (
          λ m. elim m [ inl h ↦ (inl h, sym (ap p h) ∙ e) | inr n ↦ (inr (into n).0, (into n).1) ],
          λ m. elim m.0 [ inl h ↦ inl h | inr n ↦ inr (out (n, m.1)) ],
        )
        | inr e ↦ rw e (
          λ m. (inr (into m).0, (into m).1),
          λ m. elim m.0 [ inl h ↦ cc (sym (ap p h) ∙ e, m.1) | inr n ↦ out (n, m.1) ],
        )
      ]

  pub find-Member : (p : A → Bool) (a : A) (xs : List A) → find p xs ≡ some a → Member a xs
  find-Member p a [] h = cc
  find-Member p a (x ∷ xs) h = elim (Bool-cases (p x)) [
    | inl e ↦ inl (ground arith)
    | inr e ↦ inr (find-Member p a xs (ground arith))
  ]

  -- Keeping a found element leaves it found.
  pub find-keep :
      (p q : A → Bool) (a : A) (xs : List A)
      → find p xs ≡ some a
      → q a ≡ true
      → find p (keep q xs) ≡ some a
  find-keep p q a [] h k = cc
  find-keep p q a (x ∷ xs) h k = ground (arith, find-keep p q a xs)

  pub any-false :
      (p : A → Bool) (a : A) (xs : List A) → any p xs ≡ false → Member a xs → p a ≡ false
  any-false p a [] h m = absurd m
  any-false p a (x ∷ xs) h (inl e) = ground (arith, ap p e)
  any-false p a (x ∷ xs) h (inr m) = ground (arith, any-false p a xs)

module _ {A : Type 0} {B : Type 0} (f : A → B) where
  pub Member-map : (b : B) (xs : List A) → Member b (map f xs) → (a : A) × Member a xs × (f a ≡ b)
  Member-map b [] m = absurd m
  Member-map b (x ∷ xs) (inl e) = (x, inl refl, e)
  Member-map b (x ∷ xs) (inr m) = let (a, n, e) = Member-map b xs m in (a, inr n, e)
