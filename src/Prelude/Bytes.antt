-- ===== src/Prelude/Bytes.antt =====
-- Texts that the code slices and compares by prefix, as lists of bytes.
use Prim.Native.Nat.{ℕ, zero, suc, ◌≤◌}
use mathlib.Core.Path.{◌≡◌, refl, ap}
use mathlib.Core.Logic.{◌↔◌}
use mathlib.Core.Bool.{Bool, true, false, ◌&&◌}
use mathlib.Core.List.{List, [], ◌∷◌, ◌++◌}
use native.Mathlib.Omega.{arith}
use elearning_platform.Prelude.Tests.{◌==◌}
use elearning_platform.Prelude.Lists.{length}

abbrev pub Bytes : Type 0
Bytes = List ℕ

-- Go's `==` on texts.
abbrev pub bytes_eq : Bytes → Bytes → Bool
bytes_eq [] [] = true
bytes_eq [] (b ∷ s) = false
bytes_eq (a ∷ r) [] = false
bytes_eq (a ∷ r) (b ∷ s) = (a == b) && bytes_eq r s

-- strings.HasPrefix, with the prefix first.
abbrev pub starts_with : Bytes → Bytes → Bool
starts_with [] s = true
starts_with (a ∷ p) [] = false
starts_with (a ∷ p) (b ∷ s) = (a == b) && starts_with p s

abbrev pub drop {ℓ} : {A : Type ℓ} → ℕ → List A → List A
drop zero s = s
drop (suc n) [] = []
drop (suc n) (a ∷ s) = drop n s

pub bytes_eq_iff : (r s : Bytes) → (bytes_eq r s ≡ true) ↔ (r ≡ s)
bytes_eq_iff [] [] = ground arith
bytes_eq_iff [] (b ∷ s) = ground arith
bytes_eq_iff (a ∷ r) [] = ground arith
bytes_eq_iff (a ∷ r) (b ∷ s) = ground (arith, bytes_eq_iff r s)

pub starts_with-append : (p s : Bytes) → starts_with p (p ++ s) ≡ true
starts_with-append [] s = refl
starts_with-append (a ∷ p) s = ground (arith, starts_with-append p s)

pub starts_with_split : (p s : Bytes) → starts_with p s ≡ true → s ≡ p ++ drop (length p) s
starts_with_split [] s h = refl
starts_with_split (a ∷ p) [] h = cc
starts_with_split (a ∷ p) (b ∷ s) h = ground (arith, starts_with_split p s)

pub starts_with-length : (p s : Bytes) → starts_with p s ≡ true → length p ≤ length s
starts_with-length [] s h = omega arith
starts_with-length (a ∷ p) [] h = cc
starts_with-length (a ∷ p) (b ∷ s) h = ground (arith, starts_with-length p s)

pub starts_with_whole : (p s : Bytes) → starts_with p s ≡ true → length p ≡ length s → p ≡ s
starts_with_whole [] [] h l = refl
starts_with_whole [] (b ∷ s) h l = absurd (omega arith)
starts_with_whole (a ∷ p) [] h l = absurd (omega arith)
starts_with_whole (a ∷ p) (b ∷ s) h l = ground (arith, starts_with_whole p s)

-- A prefix no longer than the first part is a prefix of the first part.
pub starts_with-append_of_length :
    (p s r : Bytes) → length p ≤ length s → starts_with p (s ++ r) ≡ starts_with p s
starts_with-append_of_length [] s r h = refl
starts_with-append_of_length (a ∷ p) [] r h = absurd (omega arith)
starts_with-append_of_length (a ∷ p) (b ∷ s) r h =
    rw (starts_with-append_of_length p s r (omega arith))

-- Parts of one length, and one separator: the prefix with the separator is the first part itself.
pub starts_with-append_of_eq_length :
    (p s r : Bytes) (c : ℕ)
    → length p ≡ length s
    → starts_with (p ++ c ∷ []) (s ++ c ∷ r) ≡ bytes_eq s p
starts_with-append_of_eq_length [] [] r c h = ground arith
starts_with-append_of_eq_length [] (b ∷ s) r c h = absurd (omega arith)
starts_with-append_of_eq_length (a ∷ p) [] r c h = absurd (omega arith)
starts_with-append_of_eq_length (a ∷ p) (b ∷ s) r c h =
    ground (arith, starts_with-append_of_eq_length p s r c)

pub drop-append_of_length : (n : ℕ) (s r : Bytes) → n ≤ length s → drop n (s ++ r) ≡ drop n s ++ r
drop-append_of_length zero s r h = refl
drop-append_of_length (suc n) [] r h = absurd (omega arith)
drop-append_of_length (suc n) (b ∷ s) r h = drop-append_of_length n s r (omega arith)

pub drop_all : (s : Bytes) → drop (length s) s ≡ []
drop_all [] = refl
drop_all (b ∷ s) = drop_all s

pub append_assoc : (a b c : Bytes) → (a ++ b) ++ c ≡ a ++ (b ++ c)
append_assoc [] b c = refl
append_assoc (x ∷ a) b c = ap (λ s. x ∷ s) (append_assoc a b c)

pub append_eq_of_length :
    (a b c d : Bytes) → length a ≡ length b → a ++ c ≡ b ++ d → (a ≡ b) × (c ≡ d)
append_eq_of_length [] [] c d l e = (refl, e)
append_eq_of_length [] (y ∷ b) c d l e = absurd (omega arith)
append_eq_of_length (x ∷ a) [] c d l e = absurd (omega arith)
append_eq_of_length (x ∷ a) (y ∷ b) c d l e = ground (arith, append_eq_of_length a b c d)

pub append_nil : (a : Bytes) → a ++ [] ≡ a
append_nil [] = refl
append_nil (x ∷ a) = ap (λ s. x ∷ s) (append_nil a)

pub starts_with-extension : (p r s : Bytes) → starts_with (p ++ r) s ≡ true → starts_with p s ≡ true
starts_with-extension [] r s h = refl
starts_with-extension (a ∷ p) r [] h = cc
starts_with-extension (a ∷ p) r (b ∷ s) h = ground (arith, starts_with-extension p r s)

pub drop_prefix : (p s : Bytes) → drop (length p) (p ++ s) ≡ s
drop_prefix [] s = refl
drop_prefix (a ∷ p) s = drop_prefix p s
