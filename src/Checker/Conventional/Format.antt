-- ===== src/Checker/Conventional/Format.antt =====
-- The format that the expression describes, as a grammar, and that the matcher accepts it.
use elearning_platform.Prelude.{
  ◌≡◌, ◌⊎◌, inl, inr, refl, ap, ◌∙◌, ◌↔◌, Bool, true, false, ◌&&◌, ◌||◌, List, [], ◌∷◌, ◌++◌, arith,
  ◌==◌, length, any, Bool-cases,
}
use elearning_platform.Prelude.Bytes.{
  Bytes, starts_with, drop, starts_with_split, starts_with-append, drop_prefix,
}
use elearning_platform.Prelude.Members.{Member}
use elearning_platform.Checker.Conventional.{
  types, subject, scope, after_type, conventional_line, first_line, is_conventional_message,
}

abbrev IsNonempty : Bytes → Type 0
IsNonempty [] = ⊥
IsNonempty (c ∷ s) = Unit

-- A colon, a space and at least one byte.
abbrev pub IsSubject : Bytes → Type 0
IsSubject s = (text : Bytes) × IsNonempty text × (s ≡ b':' ∷ b' ' ∷ text)

abbrev closes : Bytes → Bool
closes s = any (λ c. c == b')') s

-- A scope in brackets, then the subject.
abbrev pub IsScoped : Bytes → Type 0
IsScoped s =
    (inside : Bytes) × (text : Bytes) × IsNonempty inside
    × (closes inside ≡ false)
    × (s ≡ b'(' ∷ inside ++ b')' ∷ text)
    × IsSubject text

-- One of the types, then a subject with or without a scope.
abbrev pub IsConventional : Bytes → Type 0
IsConventional s =
    (t : Bytes) × (rest : Bytes) × Member t types
    × (s ≡ t ++ rest)
    × (IsSubject rest ⊎ IsScoped rest)

IsSubject-subject : (s text : Bytes) → IsNonempty text → s ≡ b':' ∷ b' ' ∷ text → subject s ≡ true
unfolding subject
IsSubject-subject s [] n e = absurd n
IsSubject-subject s (c ∷ text) n e = ap subject e

subject-IsSubject : (s : Bytes) → subject s ≡ true → IsSubject s
unfolding subject
subject-IsSubject [] h = cc h
subject-IsSubject (a ∷ []) h = cc h
subject-IsSubject (a ∷ b ∷ []) h = cc h
subject-IsSubject (a ∷ b ∷ c ∷ s) h = (c ∷ s, tt, ground arith)

-- What stands before the closing bracket; `read` says that there was a byte already.
abbrev IsClosed : Bool → Bytes → Type 0
IsClosed read s =
    (inside : Bytes) × (text : Bytes) × ((read ≡ true) ⊎ IsNonempty inside)
    × (closes inside ≡ false)
    × (s ≡ inside ++ b')' ∷ text)
    × (subject text ≡ true)

scope-IsClosed : (read : Bool) (s : Bytes) → scope read s ≡ true → IsClosed read s
unfolding scope
scope-IsClosed read [] h = cc h
scope-IsClosed read (c ∷ s) h = elim (Bool-cases (c == b')')) [
  | inl e ↦ ([], s, inl (ground arith), refl, ground arith, ground arith)
  | inr e ↦
      let (inside, text, n, k, shape, sub) = scope-IsClosed true s (ground arith) in
      (c ∷ inside, text, inr tt, rw e k, ap (λ x. c ∷ x) shape, sub)
]

IsClosed-scope :
    (read : Bool) (s inside text : Bytes)
    → (read ≡ true) ⊎ IsNonempty inside
    → closes inside ≡ false
    → s ≡ inside ++ b')' ∷ text
    → subject text ≡ true
    → scope read s ≡ true
unfolding scope
IsClosed-scope read s [] text n k e h = elim n [
  | inl r ↦ ap (scope read) e ∙ rw (r, h) refl
  | inr no_byte ↦ absurd no_byte
]
IsClosed-scope read s (x ∷ inside) text n k e h =
    let other : (x == b')') ≡ false = ground arith in
    let open_rest : closes inside ≡ false = ground arith in
    ap (scope read) e
    ∙ rw other (IsClosed-scope true (inside ++ b')' ∷ text) inside text (inl refl) open_rest refl h)

after_type-parts : (s : Bytes) → after_type s ≡ true → IsSubject s ⊎ IsScoped s
unfolding after_type
after_type-parts [] h = cc h
after_type-parts (c ∷ s) h = elim (Bool-cases (c == b'(')) [
  | inl e ↦
      let (inside, text, n, k, shape, sub) = scope-IsClosed false s (ground arith) in
      inr (
        inside,
        text,
        elim n [ inl r ↦ cc r | inr byte ↦ byte ],
        k,
        ground (arith, ap (λ x. c ∷ x) shape),
        subject-IsSubject text sub,
      )
  | inr e ↦ inl (subject-IsSubject (c ∷ s) (ground arith))
]

parts-after_type : (s : Bytes) → IsSubject s ⊎ IsScoped s → after_type s ≡ true
unfolding after_type
parts-after_type s (inl (text, n, e)) =
    ap after_type e ∙ IsSubject-subject (b':' ∷ b' ' ∷ text) text n refl
parts-after_type s (inr (inside, text, n, k, e, (subj, m, f))) =
    ap after_type e
    ∙ IsClosed-scope false (inside ++ b')' ∷ text) inside text (inr n) k refl
        (IsSubject-subject text subj m f)

or_true : (b : Bool) → (b || true) ≡ true
or_true true = refl
or_true false = refl

module _ (s : Bytes) where
  -- A line matches one of the alternatives.
  any-IsConventional :
      (ts : List Bytes)
      → any (λ t. starts_with t s && after_type (drop (length t) s)) ts ≡ true
      → (t : Bytes) × (rest : Bytes) × Member t ts
        × (s ≡ t ++ rest)
        × (IsSubject rest ⊎ IsScoped rest)
  any-IsConventional [] h = cc h
  any-IsConventional (t ∷ ts) h =
      elim (Bool-cases (starts_with t s && after_type (drop (length t) s))) [
        | inl e ↦
            let here : starts_with t s ≡ true = ground arith in
            let tail : after_type (drop (length t) s) ≡ true = ground arith in
            (
              t,
              drop (length t) s,
              inl refl,
              starts_with_split t s here,
              after_type-parts (drop (length t) s) tail,
            )
        | inr e ↦
            let (u, rest, m, shape, parts) = any-IsConventional ts (ground arith) in
            (u, rest, inr m, shape, parts)
      ]

  IsConventional-any :
      (t rest : Bytes) (ts : List Bytes)
      → Member t ts
      → s ≡ t ++ rest
      → IsSubject rest ⊎ IsScoped rest
      → any (λ u. starts_with u s && after_type (drop (length u) s)) ts ≡ true
  IsConventional-any t rest [] m e parts = absurd m
  IsConventional-any t rest (u ∷ ts) (inl same) e parts =
      rw
        (
          ap (λ x. starts_with x s) same ∙ ap (starts_with t) e ∙ starts_with-append t rest,
          ap (λ x. drop (length x) s) same ∙ ap (drop (length t)) e ∙ drop_prefix t rest,
          parts-after_type rest parts,
        )
        refl
  IsConventional-any t rest (u ∷ ts) (inr m) e parts =
      rw (IsConventional-any t rest ts m e parts)
        (or_true (starts_with u s && after_type (drop (length u) s)))

-- A message is accepted exactly if its first line is one of the eleven types, an optional scope in
-- brackets that is not empty and holds no closing bracket, a colon, a space and at least one byte.
pub is_conventional_message_iff :
    (msg : Bytes) → (is_conventional_message msg ≡ true) ↔ IsConventional (first_line msg)
unfolding is_conventional_message conventional_line
is_conventional_message_iff msg = (
  any-IsConventional (first_line msg) types,
  λ m. IsConventional-any (first_line msg) m.0 m.1 types m.2 m.3 m.4,
)
