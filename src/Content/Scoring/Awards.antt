-- ===== src/Content/Scoring/Awards.antt =====
-- What one scored question awards: `score_question`, the `switch` of `ScoreQuiz` in scoring.go, over
-- the four scoring functions.
use elearning_platform.Prelude.{
  ℕ, suc, ◌+◌, ◌*◌, ◌≤◌, ◌≡◌, ◌⊎◌, String, Bool, true, false, List, [], ◌∷◌, Option, none, some,
  arith, sym, ◌∙◌, subst, inl, inr, any, length, str_eq,
}
use elearning_platform.Prelude.Int.{pos, ◌≤ℤ◌}
use elearning_platform.Prelude.Float64.{Float64, Float64Laws}
use elearning_platform.Content.Quiz.{Question, UserAnswer, QuestionResult}
use elearning_platform.Content.Scoring.{
  score_single, score_multiple, score_boolean, score_order, score_question,
}
use elearning_platform.Content.Scoring.Partial.{IsStrict, score_multiple_bounds}

-- The result names the question and its points.
abbrev pub IsFor : Question → QuestionResult → Type 0
IsFor q r = (r.question_id ≡ q.id) × (r.type ≡ q.type) × (r.points_max ≡ q.points)

-- All the points for a correct answer and none for another.
abbrev pub AllOrNothing : Question → QuestionResult → Type 0
AllOrNothing q r =
    ((r.is_correct ≡ true) × (r.points_earned ≡ q.points))
    ⊎ ((r.is_correct ≡ false) × (r.points_earned ≡ pos 0))

single-awards :
    (q : Question) (c : Option String)
    → IsFor q (score_single q c) × AllOrNothing q (score_single q c)
unfolding score_single
single-awards q none = ground arith
single-awards q (some id) = ground arith

boolean-awards :
    (q : Question) (c : Option Bool)
    → IsFor q (score_boolean q c) × AllOrNothing q (score_boolean q c)
unfolding score_boolean
boolean-awards q none = ground arith
boolean-awards q (some b) = ground arith

order-awards :
    (q : Question) (l : List String) → IsFor q (score_order q l) × AllOrNothing q (score_order q l)
unfolding score_order
order-awards q [] = ground arith
order-awards q (s ∷ l) = ground arith

module _ (f : Float64) where
  multiple-awards :
      (q : Question) (l : List String)
      → IsFor q (score_multiple f q l)
        × ((score_multiple f q l).is_correct ≡ true
            → (score_multiple f q l).points_earned ≡ q.points)
  unfolding score_multiple
  multiple-awards q [] = (ground arith, λ h. cc)
  multiple-awards q (s ∷ l) = (ground arith, λ h. ground arith)

  -- Whatever the question's type, the result is for this question and its points, and a correct
  -- answer earns all of them. All types but "multiple" award all the points or none.
  pub score_question_awards :
      (q : Question) (a : UserAnswer)
      → IsFor q (score_question f q a)
        × ((score_question f q a).is_correct ≡ true
            → (score_question f q a).points_earned ≡ q.points)
        × ((str_eq q.type "multiple" ≡ false) → AllOrNothing q (score_question f q a))
  unfolding score_question
  score_question_awards q a =
      let s = single-awards q a.single in
      let (m, earned) = multiple-awards q a.multiple in
      let b = boolean-awards q a.boolean in
      let o = order-awards q a.order in
      (ground arith, λ h. ground (arith, earned), λ h. ground arith)

-- A question with non-negative points whose multiple choice, if it is one, has a correct answer and
-- may not score below 0. The sizes keep the products exact.
abbrev pub IsFair : Question → UserAnswer → Type 0
IsFair q a =
    (p : ℕ) × (q.points ≡ pos p)
    × ((str_eq q.type "multiple" ≡ false)
        ⊎ (IsStrict q.partial_scoring
            × (any (λ x. x.correct) q.answers ≡ true)
            × (suc p * (length q.answers + length a.multiple) ≤ 9007199254740992)))

pos_injective : {a b : ℕ} → pos a ≡ pos b → a ≡ b
pos_injective h = cc

module _ {f : Float64} (laws : Float64Laws f) where
  -- A fair question earns between 0 and its points.
  pub score_question_bounds :
      (q : Question) (a : UserAnswer) (p : ℕ)
      → q.points ≡ pos p
      → IsFair q a
      → (pos 0 ≤ℤ (score_question f q a).points_earned)
        × ((score_question f q a).points_earned ≤ℤ pos p)
  unfolding score_question
  score_question_bounds q a p e fair = elim fair.2 [
    | inr (strict, right, bound) ↦
        let s = single-awards q a.single in
        let b = boolean-awards q a.boolean in
        let o = order-awards q a.order in
        let within = score_multiple_bounds laws q a.multiple p e strict right (
          subst (λ t. suc t * (length q.answers + length a.multiple) ≤ 9007199254740992)
            (pos_injective (sym fair.1 ∙ e)) bound) in
        let (m, _) = multiple-awards f q a.multiple in ground arith
    | inl n ↦ let o = (score_question_awards f q a).2 n in ground arith
  ]
