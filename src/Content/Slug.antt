-- ===== src/Content/Slug.antt =====
-- Module slugs: `SlugifyModuleName` of course-service/internal/content/types.go. Go's Unicode tables
-- are a parameter.
use Prim.Native.Char.{Char, code}
use elearning_platform.Prelude.{ℕ, String, Bool, ◌||◌, if◌then◌else◌, ◌==◌}

-- unicode.IsLetter, unicode.IsDigit and the letters' lower case of strings.ToLower.
pub record Unicode : Type 0 where
  pub is_letter : Char → Bool
  pub is_digit : Char → Bool
  pub to_lower : Char → Char

abbrev dash : Char
dash = "-"

abbrev pub is_char : ℕ → Char → Bool
is_char n c = code c == n

module _ (u : Unicode) where
  abbrev pub kept : Char → Bool
  kept c = u.is_letter c || u.is_digit c || is_char b'-' c || is_char b'_' c

  -- The loop over the name's runes.
  unfoldable pub replace_runes : String → String
  replace_runes String.[] = String.[]
  replace_runes (String.◌∷◌ c s) = String.◌∷◌ (if kept c then c else dash) (replace_runes s)

  unfoldable pub lower : String → String
  lower String.[] = String.[]
  lower (String.◌∷◌ c s) = String.◌∷◌ (u.to_lower c) (lower s)

-- strings.Trim(s, "-")
unfoldable pub trim_left : String → String
trim_left String.[] = String.[]
trim_left (String.◌∷◌ c s) =
    let rest = trim_left s in if is_char b'-' c then rest else String.◌∷◌ c s

abbrev nonempty_cons : Char → String → String
nonempty_cons c String.[] = if is_char b'-' c then String.[] else String.◌∷◌ c String.[]
nonempty_cons c (String.◌∷◌ d s) = String.◌∷◌ c (String.◌∷◌ d s)

unfoldable pub trim_right : String → String
trim_right String.[] = String.[]
trim_right (String.◌∷◌ c s) = nonempty_cons c (trim_right s)

unfoldable pub slugify_module_name : Unicode → String → String
unfolding replace_runes lower trim_left trim_right
slugify_module_name u name = lower u (trim_right (trim_left (replace_runes u name)))
