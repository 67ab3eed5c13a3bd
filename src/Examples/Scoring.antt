-- ===== src/Examples/Scoring.antt =====
-- Questions and quizzes scored at concrete answers, over a fixed-point stand-in for `float64`.
use mathlib.Core.Bool.{true≢false}
use elearning_platform.Prelude.{
  ◌≡◌, refl, sym, ◌↔◌, ◌≢◌, String, true, List, [], ◌∷◌, some, contains, eq_iff, arith, inl, inr,
  lookup, ℕ, ◌≤◌,
}
use elearning_platform.Prelude.Int.{pos, ◌≤ℤ◌, ◌+ℤ◌, add_int, wrap64}
use elearning_platform.Prelude.FixedPoint.{fixed_point, fixed_point_laws}
use elearning_platform.Content.Cooldown.{compute_cooldown}
use elearning_platform.Content.Cooldown.Bounds.{compute_cooldown_capped}
use elearning_platform.Content.Scoring.{
  score_single, score_multiple, score_boolean, score_order, score_question, score_questions,
  score_quiz,
}
use elearning_platform.Content.Scoring.Order.{score_order-is_correct_iff}
use elearning_platform.Content.Scoring.Single.{score_single-is_correct_iff, here, there}
use elearning_platform.Content.Scoring.Multiple.{score_multiple-is_correct_iff, has_correct}
use elearning_platform.Content.Scoring.Partial.{score_multiple_bounds}
use elearning_platform.Content.Scoring.Totals.{score_quiz_bounds, score_quiz-passed}
use elearning_platform.Examples.Data.{
  single, multiple, order, doubling, quiz, right_answers, one_wrong,
}

score_order-is_correct_iff_example : (score_order order ("x" ∷ "y" ∷ [])).is_correct ≡ true
score_order-is_correct_iff_example =
    (score_order-is_correct_iff order ("x" ∷ "y" ∷ [])).1 (refl, λ e. cc)

abbrev chosen : List String
chosen = "b" ∷ "a" ∷ []

score_multiple-is_correct_iff_example :
    ((score_multiple fixed_point multiple chosen).is_correct ≡ true)
    ↔ ((chosen ≢ []) × ((id : String) → contains chosen id ≡ has_correct multiple.answers id))
score_multiple-is_correct_iff_example = score_multiple-is_correct_iff fixed_point multiple chosen

score_single-is_correct_iff_example : (score_single single (some "b")).is_correct ≡ true
score_single-is_correct_iff_example =
    (score_single-is_correct_iff single (some "b")).1
      (_, there (λ e. true≢false (sym ((eq_iff "a" "b").1 e))) (here refl), refl)

score_multiple_bounds_example :
    (pos 0 ≤ℤ (score_multiple fixed_point multiple ("a" ∷ "c" ∷ [])).points_earned)
    × ((score_multiple fixed_point multiple ("a" ∷ "c" ∷ [])).points_earned
        ≤ℤ (score_multiple fixed_point multiple ("a" ∷ "c" ∷ [])).points_max)
score_multiple_bounds_example =
    score_multiple_bounds fixed_point_laws multiple ("a" ∷ "c" ∷ []) 4 refl refl refl (omega arith)

score_quiz_bounds_example :
    (pos 0 ≤ℤ (score_quiz fixed_point quiz one_wrong).total_score)
    × ((score_quiz fixed_point quiz one_wrong).total_score
        ≤ℤ (score_quiz fixed_point quiz one_wrong).max_score)
    × ((score_quiz fixed_point quiz one_wrong).max_score ≡ pos 10)
unfolding lookup
score_quiz_bounds_example =
    score_quiz_bounds fixed_point_laws one_wrong quiz
      (
        (2, refl, inl refl),
        (
          (4, refl, inr (refl, refl, omega arith)),
          ((2, refl, inl refl), ((2, refl, inl refl), tt)),
        ),
      )
      (omega arith)

score_quiz-passed_example : (score_quiz fixed_point quiz right_answers).passed ≡ true
unfolding score_quiz score_questions score_question score_single score_multiple score_boolean
    score_order lookup add_int wrap64 ◌+ℤ◌
score_quiz-passed_example =
    score_quiz-passed fixed_point_laws right_answers quiz 10 (refl, (refl, (refl, (refl, tt)))) refl
      (omega arith) (omega arith) (omega arith) (omega arith)

compute_cooldown_capped_example :
    (n : ℕ) × (compute_cooldown fixed_point (pos 5) doubling ≡ pos n) × (n ≤ 100000000000)
compute_cooldown_capped_example =
    compute_cooldown_capped fixed_point doubling (pos 5) 100 refl refl refl (omega arith)
      (omega arith)
