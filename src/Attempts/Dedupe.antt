-- ===== src/Attempts/Dedupe.antt =====
-- `dedupe` of quiz_attempt.go: the distinct non-empty values.
use elearning_platform.Prelude.{
  ◌≡◌, refl, inl, inr, String, not, ◌&&◌, ◌||◌, List, [], ◌∷◌, arith, eq_iff, Bool-cases, str_eq,
  contains, IsDistinct,
}
use elearning_platform.Attempts.Repository.{dedupe, dedupe_from}

contains-dedupe_from :
    (seen values : List String) (s : String)
    → contains (dedupe_from seen values) s
      ≡ (contains values s && not (str_eq s "") && not (contains seen s))
unfolding dedupe_from
contains-dedupe_from seen [] s = refl
contains-dedupe_from seen (v ∷ rest) s =
    ground
      (arith, eq_iff v s, contains-dedupe_from seen rest s, contains-dedupe_from (v ∷ seen) rest s)

dedupe_from-IsDistinct : (seen values : List String) → IsDistinct (dedupe_from seen values)
unfolding dedupe_from
dedupe_from-IsDistinct seen [] = tt
dedupe_from-IsDistinct seen (v ∷ rest) = elim (Bool-cases (str_eq v "" || contains seen v)) [
  | inl skip ↦ rw skip (dedupe_from-IsDistinct seen rest)
  | inr fresh ↦ rw fresh (
    ground (arith, contains-dedupe_from (v ∷ seen) rest v, eq_iff v v),
    dedupe_from-IsDistinct (v ∷ seen) rest,
  )
]

-- `dedupe` keeps exactly the non-empty values, each of them once.
pub dedupe_lem :
    (values : List String)
    → IsDistinct (dedupe values)
      × ((s : String) → contains (dedupe values) s ≡ (contains values s && not (str_eq s "")))
unfolding dedupe
dedupe_lem values =
    (dedupe_from-IsDistinct [] values, λ s. ground (arith, contains-dedupe_from [] values s))
