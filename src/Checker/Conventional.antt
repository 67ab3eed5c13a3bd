-- ===== src/Checker/Conventional.antt =====
-- isConventionalMessage of checker-service/internal/checker/step.go: the expression
-- `^(feat|…|revert)(\([^)]+\))?: .+` on a message's first line, as a matcher on bytes.
use elearning_platform.Prelude.{
  ℕ, ◌+◌, ◌≡◌, ◌⊎◌, ◌≢◌, inl, inr, refl, sym, ap, ◌∙◌, ◌↔◌, Bool, true, false, ◌&&◌, ◌||◌, List, [],
  ◌∷◌, ◌++◌, Option, none, some, arith, if◌then◌else◌, ◌==◌, length, any,
}
use elearning_platform.Prelude.Bytes.{Bytes, starts_with, drop}
pub mod Format

-- strings.Cut at the first newline.
unfoldable pub first_line : Bytes → Bytes
first_line [] = []
first_line (c ∷ s) = let rest = first_line s in if c == b'\n' then [] else c ∷ rest

abbrev pub types : List Bytes
types =
    (b'f' ∷ b'e' ∷ b'a' ∷ b't' ∷ [])
    ∷ (b'f' ∷ b'i' ∷ b'x' ∷ [])
    ∷ (b'c' ∷ b'h' ∷ b'o' ∷ b'r' ∷ b'e' ∷ [])
    ∷ (b'd' ∷ b'o' ∷ b'c' ∷ b's' ∷ [])
    ∷ (b's' ∷ b't' ∷ b'y' ∷ b'l' ∷ b'e' ∷ [])
    ∷ (b'r' ∷ b'e' ∷ b'f' ∷ b'a' ∷ b'c' ∷ b't' ∷ b'o' ∷ b'r' ∷ [])
    ∷ (b't' ∷ b'e' ∷ b's' ∷ b't' ∷ [])
    ∷ (b'p' ∷ b'e' ∷ b'r' ∷ b'f' ∷ [])
    ∷ (b'c' ∷ b'i' ∷ [])
    ∷ (b'b' ∷ b'u' ∷ b'i' ∷ b'l' ∷ b'd' ∷ [])
    ∷ (b'r' ∷ b'e' ∷ b'v' ∷ b'e' ∷ b'r' ∷ b't' ∷ [])
    ∷ []

-- `: .+`
unfoldable pub subject : Bytes → Bool
subject (a ∷ b ∷ c ∷ s) = (a == b':') && (b == b' ')
subject s = false

-- `[^)]+\): .+`, once the bracket is open; the flag says that a byte of the scope has been read.
unfoldable pub scope : Bool → Bytes → Bool
unfolding subject
scope read [] = false
scope read (c ∷ s) = let rest = scope true s in if c == b')' then read && subject s else rest

-- What follows the type.
unfoldable pub after_type : Bytes → Bool
unfolding scope subject
after_type [] = false
after_type (c ∷ s) = if c == b'(' then scope false s else subject (c ∷ s)

unfoldable pub conventional_line : Bytes → Bool
unfolding after_type
conventional_line s = any (λ t. starts_with t s && after_type (drop (length t) s)) types

unfoldable pub is_conventional_message : Bytes → Bool
unfolding conventional_line first_line
is_conventional_message msg = conventional_line (first_line msg)
