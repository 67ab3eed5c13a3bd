-- ===== src/Content/Scoring/Totals.antt =====
-- The totals of a scored quiz and its pass mark: `ScoreQuiz` of scoring.go.
use mathlib.Core.List.{append_assoc, append-nil}
use elearning_platform.Prelude.{
  ℕ, ◌+◌, ◌≤◌, ◌<◌, ◌≡◌, refl, sym, ◌∙◌, ap, true, List, [], ◌∷◌, ◌++◌, map, arith, All, Assoc,
}
use elearning_platform.Prelude.Int.{ℤ, pos, negsuc, pos_part, add_int-pos, i63, ◌≤ℤ◌, ◌*ℤ◌}
use elearning_platform.Prelude.Float64.{Float64, Float64Laws, IsExact}
use elearning_platform.Content.Quiz.{Question, Quiz, UserAnswer, QuestionResult, QuizResult}
use elearning_platform.Content.Scoring.{
  score_question, score_questions, score_quiz, reaches, user_answer, add_result, empty_quiz_result,
}
use elearning_platform.Content.Scoring.Awards.{IsFair, score_question_awards, score_question_bounds}

module _ (f : Float64) (answers : Assoc UserAnswer) where
  -- The result of one question of the quiz.
  abbrev pub result_of : Question → QuestionResult
  result_of q = score_question f q (user_answer f answers q.id)

  score_questions-results :
      (qs : List Question) (r : QuizResult)
      → (score_questions f answers qs r).question_results ≡ r.question_results ++ map result_of qs
  unfolding score_questions
  score_questions-results [] r = sym (append-nil r.question_results)
  score_questions-results (q ∷ qs) r =
      score_questions-results qs _
      ∙ append_assoc r.question_results (result_of q ∷ []) (map result_of qs)

  -- A scored quiz has one result for each question, in the quiz's order: the result of that question
  -- alone for the answer given under its ID.
  pub score_quiz-question_results :
      (quiz : Quiz f) → (score_quiz f quiz answers).question_results ≡ map result_of quiz.questions
  unfolding score_quiz
  score_quiz-question_results quiz =
      ground (arith, score_questions-results quiz.questions empty_quiz_result)

  -- Where every question is answered correctly, the totals stay equal.
  equal_totals :
      (qs : List Question) (r : QuizResult)
      → All (λ q. (result_of q).is_correct ≡ true) qs
      → r.total_score ≡ r.max_score
      → (score_questions f answers qs r).total_score ≡ (score_questions f answers qs r).max_score
  unfolding score_questions
  equal_totals [] r h e = e
  equal_totals (q ∷ qs) r h e =
      let (header, earned, _) = score_question_awards f q (user_answer f answers q.id) in
      equal_totals qs _ h.1 (cc (earned h.0))

module _ {f : Float64} (laws : Float64Laws f) where
  -- Under the laws of `Float64Laws`, a total that reaches a pass mark reaches it still when it is
  -- raised, where the maximum is positive.
  pub reaches_mono :
      (low high passing : ℤ) (maximum : ℕ)
      → 0 < maximum
      → low ≤ℤ high
      → reaches f low (pos maximum) passing ≡ true
      → reaches f high (pos maximum) passing ≡ true
  unfolding reaches
  reaches_mono low high passing maximum h le r =
      laws.leb_trans _ _ _ r
        (laws.mul_mono _ _ 100 (omega arith) (laws.div_mono low high maximum h le))

  -- 100 percent reaches every pass mark up to 100.
  full_marks-reaches :
      (passing : ℤ) (maximum : ℕ)
      → 0 < maximum
      → IsExact (pos maximum)
      → IsExact passing
      → passing ≤ℤ pos 100
      → reaches f (pos maximum) (pos maximum) passing ≡ true
  unfolding reaches ◌*ℤ◌
  full_marks-reaches passing maximum h em ep le =
      let whole = laws.le_div (pos maximum) (pos 1) maximum h em (omega arith) em (ground arith) in
      let hundred = laws.mul_exact (pos 1) (pos 100) (omega arith) (omega arith) (omega arith) in
      laws.leb_trans _ _ _ (laws.leb_of_int passing (pos 100) ep (omega arith) ∙ ground arith)
        (rw hundred at (laws.mul_mono _ _ 100 (omega arith) whole))

-- The points of the questions, as numbers.
abbrev pub sum_points : List Question → ℕ
sum_points [] = 0
sum_points (q ∷ qs) = pos_part q.points + sum_points qs

between : (z : ℤ) (p : ℕ) → pos 0 ≤ℤ z → z ≤ℤ pos p → (e : ℕ) × (z ≡ pos e) × (e ≤ p)
between (pos e) p lo hi = (e, refl, omega arith)
between (negsuc e) p lo hi = absurd (omega arith)

module _ {f : Float64} (laws : Float64Laws f) (answers : Assoc UserAnswer) where
  abbrev pub AllFair : List Question → Type 0
  AllFair qs = All (λ q. IsFair q (user_answer f answers q.id)) qs

  score_questions_bounds :
      (qs : List Question) (r : QuizResult) (t m : ℕ)
      → r.total_score ≡ pos t
      → r.max_score ≡ pos m
      → t ≤ m
      → AllFair qs
      → m + sum_points qs < i63
      → (total : ℕ) × ((score_questions f answers qs r).total_score ≡ pos total)
        × (total ≤ m + sum_points qs)
        × ((score_questions f answers qs r).max_score ≡ pos (m + sum_points qs))
  unfolding score_questions
  score_questions_bounds [] r t m et em le fair fit = (t, et, omega arith, ground arith)
  score_questions_bounds (q ∷ qs) r t m et em le fair fit =
      let p = pos_part q.points in
      let ep : q.points ≡ pos p = ground (arith, fair.0.1) in
      let a = user_answer f answers q.id in
      let (lo, hi) = score_question_bounds laws q a p ep fair.0 in
      let (e, ee, small) = between (score_question f q a).points_earned p lo hi in
      let (header, _, _) = score_question_awards f q a in
      let (total, h1, h2, h3) =
        score_questions_bounds qs (add_result r (score_question f q a)) (t + e) (m + p)
          (ground (arith, add_int-pos t e)) (ground (arith, add_int-pos m p)) (omega arith) fair.1
          (omega arith) in
      (total, h1, omega arith, h3 ∙ ap pos (omega arith))

  -- Under the laws of `Float64Laws`, the total of a quiz of fair questions lies between 0 and its
  -- maximum, and the maximum is the sum of the questions' points, where that sum fits a 64-bit integer.
  pub score_quiz_bounds :
      (quiz : Quiz f)
      → AllFair quiz.questions
      → sum_points quiz.questions < i63
      → (pos 0 ≤ℤ (score_quiz f quiz answers).total_score)
        × ((score_quiz f quiz answers).total_score ≤ℤ (score_quiz f quiz answers).max_score)
        × ((score_quiz f quiz answers).max_score ≡ pos (sum_points quiz.questions))
  unfolding score_quiz
  score_quiz_bounds quiz fair fit =
      let (total, h1, h2, h3) =
        score_questions_bounds quiz.questions empty_quiz_result 0 0 refl refl (omega arith) fair
          (omega arith) in
      ground arith

  -- Under the laws of `Float64Laws`, a quiz with every question answered correctly is passed, where
  -- its maximum is positive, its pass mark is at most 100, and both are at most 2 ^ 53 in size.
  pub score_quiz-passed :
      (quiz : Quiz f) (maximum : ℕ)
      → All (λ q. (result_of f answers q).is_correct ≡ true) quiz.questions
      → (score_quiz f quiz answers).max_score ≡ pos maximum
      → 0 < maximum
      → IsExact (pos maximum)
      → IsExact quiz.passing_score
      → quiz.passing_score ≤ℤ pos 100
      → (score_quiz f quiz answers).passed ≡ true
  unfolding score_quiz
  score_quiz-passed quiz maximum right e h em ep le = ground (
    arith,
    equal_totals f answers quiz.questions empty_quiz_result right refl,
    full_marks-reaches laws quiz.passing_score maximum h em ep le,
  )
