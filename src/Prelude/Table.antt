-- ===== src/Prelude/Table.antt =====
-- A database table by its primary key: an association list over any key with a lawful equality test.
use mathlib.Core.Path.{◌≡◌, refl}
use mathlib.Core.Logic.{◌↔◌}
use mathlib.Core.Bool.{Bool, true}
use mathlib.Core.Option.{Option, none, some}
use mathlib.Core.List.{List, [], ◌∷◌}
use native.Mathlib.Omega.{arith}
use elearning_platform.Prelude.Tests.{if◌then◌else◌}

pub record Eq {ℓ} (A : Type ℓ) : Type ℓ where
  pub beq : A → A → Bool
  pub beq_iff : (a b : A) → (beq a b ≡ true) ↔ (a ≡ b)

abbrev pub Table {ℓ κ} : Type ℓ → Type κ → Type (ℓ ⊔ κ)
Table K V = List (K × V)

module _ {ℓ κ} {K : Type ℓ} {V : Type κ} (e : Eq K) where
  unfoldable pub get : K → Table K V → Option V
  get k [] = none
  get k ((j, v) ∷ t) = if e.beq j k then some v else get k t

  -- Writes the row of the key, in its place or at the end.
  unfoldable pub put : K → V → Table K V → Table K V
  put k v [] = (k, v) ∷ []
  put k v ((j, w) ∷ t) = if e.beq j k then (k, v) ∷ t else (j, w) ∷ put k v t

  -- Deletes every row whose key passes the test.
  unfoldable pub delete : (K → Bool) → Table K V → Table K V
  delete p [] = []
  delete p ((j, v) ∷ t) = let rest = delete p t in if p j then rest else (j, v) ∷ rest

  pub get-put :
      (k j : K) (v : V) (t : Table K V)
      → get j (put k v t) ≡ (if e.beq k j then some v else get j t)
  unfolding get put
  get-put k j v [] = refl
  get-put k j v ((i, w) ∷ t) =
      ground (arith, e.beq_iff k j, e.beq_iff i k, e.beq_iff i j, get-put k j v t)

  pub get-delete :
      (p : K → Bool) (j : K) (t : Table K V) → get j (delete p t) ≡ (if p j then none else get j t)
  unfolding get delete
  get-delete p j [] = ground arith
  get-delete p j ((i, w) ∷ t) = ground (arith, e.beq_iff i j, get-delete p j t)
