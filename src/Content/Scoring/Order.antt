-- ===== src/Content/Scoring/Order.antt =====
-- Ordering questions: `score_order` of scoring.go against equality of the two sequences.
use elearning_platform.Prelude.{
  ℕ, suc, ◌+◌, ◌≡◌, refl, subst, ◌↔◌, ◌≢◌, String, Bool, true, ◌&&◌, List, [], ◌∷◌, arith, eq_iff,
  ◌==◌, length,
}
use elearning_platform.Content.Quiz.{Question}
use elearning_platform.Content.Scoring.{order_matches, score_order}

order_matches-cons :
    (x : String) (e xs : List String) (i : ℕ)
    → order_matches (x ∷ e) xs (suc i) ≡ order_matches e xs i
unfolding order_matches
order_matches-cons x e [] i = refl
order_matches-cons x e (id ∷ rest) i = ground (arith, order_matches-cons x e rest (i + 1))

-- The two tests of `score_order` together.
abbrev same : List String → List String → Bool
same e xs = order_matches e xs 0 && length xs == length e

same_sound : (e xs : List String) → same e xs ≡ true → xs ≡ e
unfolding order_matches
same_sound [] [] h = refl
same_sound [] (x ∷ xs) h = ground arith
same_sound (y ∷ e) [] h = ground arith
same_sound (y ∷ e) (x ∷ xs) h =
    ground (arith, same_sound e xs, eq_iff x y, order_matches-cons y e xs 0)

same_self : (xs : List String) → same xs xs ≡ true
unfolding order_matches
same_self [] = refl
same_self (x ∷ xs) = ground (arith, same_self xs, eq_iff x x, order_matches-cons x xs xs 0)

same_complete : (e xs : List String) → xs ≡ e → same e xs ≡ true
same_complete e xs p = subst (λ l. same l xs ≡ true) p (same_self xs)

-- An ordering question is marked correct exactly when the learner gave the whole expected sequence,
-- and gave something.
pub score_order-is_correct_iff :
    (q : Question) (order : List String)
    → ((score_order q order).is_correct ≡ true) ↔ ((order ≡ q.correct_order) × (order ≢ []))
unfolding score_order
score_order-is_correct_iff q [] = (λ h. cc, λ h. absurd (h.1 refl))
score_order-is_correct_iff q (id ∷ rest) = (
  λ h. (same_sound q.correct_order (id ∷ rest) (ground arith), λ e. cc),
  λ h. ground (arith, same_complete q.correct_order (id ∷ rest) h.0),
)
