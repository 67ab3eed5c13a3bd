-- ===== src/Content/Scoring/Partial.antt =====
-- Partial credit: the bounds of `partial_multiple_choice_score` of scoring.go.
use elearning_platform.Prelude.{
  ℕ, suc, ◌+◌, ◌-◌, ◌*◌, ◌≤◌, ◌<◌, ◌≡◌, subst, String, List, [], ◌∷◌, any, length, Option-cases,
  ◌⊎◌, inl, inr, true, false, Option, none, some, arith,
}
use elearning_platform.Prelude.Int.{pos, sub_ℕ, ◌*ℤ◌, ◌≤ℤ◌, ≤ℤ_total}
use elearning_platform.Prelude.Float64.{Float64, Float64Laws, IsExact}
use elearning_platform.Content.Quiz.{PartialScoring, Question}
use elearning_platform.Content.Scoring.{
  raw_partial, cut_off, partial_multiple_choice_score, score_multiple, correct_ids, selected_ids,
  count_selected,
}
use elearning_platform.Content.Scoring.Multiple.{
  count_selected_sum, selected_ids-IsDistinct, hits-le-length, correct_ids_pos, length-correct_ids,
  length-selected_ids,
}

mul_le_left : (p a b : ℕ) → a ≤ b → p * a ≤ p * b
mul_le_left p a b h = grind arith

-- The product points * (hits - misses) lies in the range that a float64 holds exactly.
product-IsExact :
    (p hits misses c : ℕ)
    → hits ≤ c
    → 0 < c
    → suc p * (c + misses) ≤ 9007199254740992
    → IsExact (pos p) × IsExact (sub_ℕ hits misses) × IsExact (pos p *ℤ sub_ℕ hits misses)
unfolding ◌*ℤ◌
product-IsExact p hits misses c h k bound = ground (
  arith,
  mul_le_left p (hits - misses) (c + misses),
  mul_le_left p (suc (misses - hits - 1)) (c + misses),
  mul_le_left p 1 (c + misses),
)

product_le : (p hits misses c : ℕ) → hits ≤ c → pos p *ℤ sub_ℕ hits misses ≤ℤ pos p *ℤ pos c
unfolding ◌*ℤ◌
product_le p hits misses c h = ground (arith, mul_le_left p (hits - misses) c)

le_times : (p c : ℕ) → c ≤ suc p * c
le_times p c = grind arith

-- Partial credit is off, or may not be negative.
abbrev pub IsStrict : Option PartialScoring → Type 0
IsStrict none = Unit
IsStrict (some s) = s.allow_negative ≡ false

module _ {f : Float64} (laws : Float64Laws f) where
  open laws use {mul_exact, div_le, le_div, leb_of_int, leb_of_not_ltb, le_round}

  cut_off_bounds :
      (s : PartialScoring) (p : ℕ) (x : f.Num)
      → s.allow_negative ≡ false
      → p ≤ 9007199254740992
      → f.leb x (f.of_int (pos p)) ≡ true
      → (f.leb (f.of_int (pos 0)) x ≡ true) ⊎ (f.leb x (f.of_int (pos 0)) ≡ true)
      → (f.leb (f.of_int (pos 0)) (cut_off f s x) ≡ true)
        × (f.leb (cut_off f s x) (f.of_int (pos p)) ≡ true)
  unfolding cut_off
  cut_off_bounds s p x strict small le sign = ground (
    arith,
    leb_of_int (pos 0) (pos 0) (omega arith) (omega arith),
    leb_of_int (pos 0) (pos p) (omega arith) (omega arith),
    leb_of_not_ltb x (f.of_int (pos 0)),
  )

  -- The quotient is at most the points, and is on one side of 0.
  raw_partial_bounds :
      (p hits misses c : ℕ)
      → hits ≤ c
      → 0 < c
      → suc p * (c + misses) ≤ 9007199254740992
      → (f.leb (raw_partial f (pos p) c hits misses) (f.of_int (pos p)) ≡ true)
        × ((f.leb (f.of_int (pos 0)) (raw_partial f (pos p) c hits misses) ≡ true)
            ⊎ (f.leb (raw_partial f (pos p) c hits misses) (f.of_int (pos 0)) ≡ true))
  unfolding raw_partial
  raw_partial_bounds p hits misses c h k bound =
      let (ep, ed, en) = product-IsExact p hits misses c h k bound in
      let n = pos p *ℤ sub_ℕ hits misses in
      let ec : IsExact (pos c) = ground (arith, mul_le_left (suc p) c (c + misses), le_times p c) in
      rw (mul_exact (pos p) (sub_ℕ hits misses) ep ed en, raw_partial)
        (
          div_le n (pos p) c k en ep ec (product_le p hits misses c h),
          elim (≤ℤ_total (pos 0 *ℤ pos c) n) [
            | inl up ↦ inl (le_div n (pos 0) c k en (omega arith) ec up)
            | inr down ↦ inr (div_le n (pos 0) c k en (omega arith) ec down)
          ],
        )

  partial_bounds :
      (q : Question) (p hits misses c : ℕ)
      → q.points ≡ pos p
      → IsStrict q.partial_scoring
      → hits ≤ c
      → 0 < c
      → suc p * (c + misses) ≤ 9007199254740992
      → (pos 0 ≤ℤ partial_multiple_choice_score f q c hits misses)
        × (partial_multiple_choice_score f q c hits misses ≤ℤ pos p)
  unfolding partial_multiple_choice_score
  partial_bounds q p hits misses c e strict h k bound =
      let (le, sign) = raw_partial_bounds p hits misses c h k bound in
      let small : p ≤ 9007199254740992 = ground (arith, mul_le_left p 1 (c + misses)) in
      elim (Option-cases q.partial_scoring) [
        | inl off ↦ rw off (ground arith)
        | inr (s, on) ↦
            let raw = raw_partial f (pos p) c hits misses in
            let (lo, hi) = cut_off_bounds s p raw (subst IsStrict on strict) small le sign in
            let (a, b) =
              le_round (cut_off f s raw) (pos 0) (pos p) (omega arith) (omega arith) lo hi in
            rw (on, e) (ground arith)
      ]

  -- Under the laws of `Float64Laws`, a multiple-choice answer earns between 0 and the result's maximum,
  -- where the question's points are not negative, it has a correct answer, its partial scoring, if any,
  -- allows no negative score, and (points + 1) times the answers listed and chosen is at most 2 ^ 53.
  pub score_multiple_bounds :
      (q : Question) (chosen : List String) (p : ℕ)
      → q.points ≡ pos p
      → IsStrict q.partial_scoring
      → any (λ a. a.correct) q.answers ≡ true
      → suc p * (length q.answers + length chosen) ≤ 9007199254740992
      → (pos 0 ≤ℤ (score_multiple f q chosen).points_earned)
        × ((score_multiple f q chosen).points_earned ≤ℤ (score_multiple f q chosen).points_max)
  unfolding score_multiple
  score_multiple_bounds q [] p e strict some_correct bound = rw e (omega arith)
  score_multiple_bounds q (x ∷ rest) p e strict some_correct bound =
      let ids = correct_ids q.answers in
      let l = selected_ids (x ∷ rest) in
      let (hits, misses) = count_selected ids l in
      let fit : suc p * (length ids + misses) ≤ 9007199254740992 = ground (
        arith,
        mul_le_left (suc p) (length ids + misses) (length q.answers + length (x ∷ rest)),
        length-correct_ids q.answers,
        length-selected_ids (x ∷ rest),
        count_selected_sum ids l,
      ) in
      ground (
        arith,
        partial_bounds q p hits misses (length ids) e strict
            (hits-le-length ids l (selected_ids-IsDistinct (x ∷ rest)))
            (correct_ids_pos q.answers some_correct) fit,
      )
