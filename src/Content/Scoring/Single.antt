-- ===== src/Content/Scoring/Single.antt =====
-- Single-choice and true/false questions: what `score_single` and `score_boolean` of scoring.go award.
use elearning_platform.Prelude.{
  ◌≡◌, subst, ◌↔◌, ◌≢◌, inl, inr, String, Bool, true, List, [], ◌∷◌, arith, eq_iff, Option, none,
  some, str_eq, Option-cases, Bool-cases, find,
}
use elearning_platform.Content.Quiz.{Answer, Question}
use elearning_platform.Content.Scoring.{score_single, score_boolean}

-- The first answer in the list that has the ID: the ones before it have other IDs.
pub data IsFirst (id : String) (a : Answer) : List Answer → Type 0 where
  here : {rest : List Answer} → a.id ≡ id → IsFirst id a (a ∷ rest)
  there :
      {b : Answer} {rest : List Answer} → b.id ≢ id → IsFirst id a rest → IsFirst id a (b ∷ rest)

abbrev by_id : String → List Answer → Option Answer
by_id id = find (λ a. str_eq a.id id)

by_id-IsFirst : (id : String) (l : List Answer) (a : Answer) → by_id id l ≡ some a → IsFirst id a l
by_id-IsFirst id [] a h = cc
by_id-IsFirst id (b ∷ rest) a h = elim (Bool-cases (str_eq b.id id)) [
  | inl e ↦
      let same : b ≡ a = ground arith in
      subst (λ c. IsFirst id c (b ∷ rest)) same (here ((eq_iff b.id id).0 e))
  | inr e ↦ there (λ p. ground (arith, eq_iff b.id id)) (by_id-IsFirst id rest a (ground arith))
]

IsFirst-by_id : {id : String} {a : Answer} {l : List Answer} → IsFirst id a l → by_id id l ≡ some a
IsFirst-by_id {id} {a} (here p) = ground (arith, eq_iff a.id id)
IsFirst-by_id {id} (there {b} n rest) = ground (arith, eq_iff b.id id, IsFirst-by_id rest)

-- The learner chose an ID, and `a` is the first answer that has it.
abbrev pub IsChosen : Option String → List Answer → Answer → Type 0
IsChosen none l a = ⊥
IsChosen (some id) l a = IsFirst id a l

-- A single-choice question is marked correct exactly when the learner chose an ID and the first
-- answer that has this ID is one of the correct ones.
pub score_single-is_correct_iff :
    (q : Question) (choice : Option String)
    → ((score_single q choice).is_correct ≡ true)
      ↔ ((a : Answer) × IsChosen choice q.answers a × (a.correct ≡ true))
unfolding score_single
score_single-is_correct_iff q none = (λ h. cc, λ h. absurd h.1)
score_single-is_correct_iff q (some id) = (
  λ h. elim (Option-cases (by_id id q.answers)) [
    | inl e ↦ ground arith
    | inr (a, e) ↦ (a, by_id-IsFirst id q.answers a e, ground arith)
  ],
  λ h. ground (arith, IsFirst-by_id h.1),
)

-- A true/false question is marked correct exactly when it has an answer key and the learner's answer
-- equals it.
pub score_boolean-is_correct_iff :
    (q : Question) (answer : Option Bool)
    → ((score_boolean q answer).is_correct ≡ true) ↔ ((answer ≢ none) × (answer ≡ q.correct_answer))
unfolding score_boolean
score_boolean-is_correct_iff q none = ground arith
score_boolean-is_correct_iff q (some b) = ground arith
