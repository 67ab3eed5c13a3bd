-- ===== src/Content/Scoring.antt =====
-- Quiz scoring: course-service/internal/content/scoring.go, one function for each of its own.
pub mod Order
pub mod Single
pub mod Multiple
pub mod Partial
pub mod Awards
pub mod Totals
use elearning_platform.Prelude.{
  ℕ, suc, ◌+◌, String, Bool, true, false, not, ◌&&◌, ◌||◌, List, [], ◌∷◌, ◌++◌, Option, none, some,
  if◌then◌else◌, str_eq, ◌==◌, length, get_elem?, find, contains, insert, Assoc, lookup,
}
use elearning_platform.Prelude.Int.{ℤ, pos, sub_ℕ, ltb_ℤ, add_int}
use elearning_platform.Prelude.Float64.{Float64}
use elearning_platform.Content.Quiz.{
  Answer, PartialScoring, Question, Quiz, UserAnswer, CorrectAnswer, absent, answer_id, id_set,
  flag, flag_ref, id_order, QuestionResult, QuizResult,
}

-- The result that every scoring function starts from.
abbrev pub start_result : Question → QuestionResult
start_result q = record {
  question_id = q.id;
  type = q.type;
  is_correct = false;
  points_earned = pos 0;
  points_max = q.points;
  correct_answer = absent;
  feedback = "";
  source_refs = [];
}

-- Nothing was answered: the feedback alone.
abbrev unanswered : Question → QuestionResult
unanswered q = record (start_result q) {
  feedback = q.feedback.wrong;
  source_refs = q.feedback.source_refs;
}

-- A wrong answer, with the right one attached.
abbrev wrong_result : Question → CorrectAnswer → QuestionResult
wrong_result q c = record (unanswered q) { correct_answer = c }

abbrev right_result : Question → CorrectAnswer → QuestionResult
right_result q c = record (start_result q) {
  is_correct = true;
  points_earned = q.points;
  correct_answer = c;
  feedback = q.feedback.correct;
}

unfoldable pub correct_answer_id : List Answer → String
correct_answer_id [] = ""
correct_answer_id (a ∷ rest) = if a.correct then a.id else correct_answer_id rest

-- The loop returns at the first answer that has the chosen ID.
unfoldable pub score_single : Question → Option String → QuestionResult
score_single q none = unanswered q
score_single q (some chosen) = elim (find (λ a. str_eq a.id chosen) q.answers) [
  | none ↦ wrong_result q (answer_id (correct_answer_id q.answers))
  | some a ↦
      if a.correct
      then right_result q (answer_id a.id)
      else wrong_result q (answer_id (correct_answer_id q.answers))
]

-- The keys of `correctIDs` and of `selected`.
unfoldable pub correct_ids : List Answer → List String
correct_ids [] = []
correct_ids (a ∷ rest) = let ids = correct_ids rest in if a.correct then insert a.id ids else ids

unfoldable pub selected_ids : List String → List String
selected_ids [] = []
selected_ids (s ∷ rest) = insert s (selected_ids rest)

-- The counting loop over `selected`: (correctSelected, falsePositives).
unfoldable pub count_selected : List String → List String → ℕ × ℕ
count_selected ids [] = (0, 0)
count_selected ids (s ∷ rest) =
    let (hits, misses) = count_selected ids rest in
    if contains ids s then (suc hits, misses) else (hits, suc misses)

unfoldable pub tally_multiple_choice : Question → List String → List String × ℕ × ℕ
unfolding correct_ids selected_ids count_selected
tally_multiple_choice q chosen =
    let ids = correct_ids q.answers in
    let (hits, misses) = count_selected ids (selected_ids chosen) in (ids, hits, misses)

abbrev pub is_some {ℓ} : {A : Type ℓ} → Option A → Bool
is_some none = false
is_some (some a) = true

-- `question.CorrectAnswer != nil && *answer == *question.CorrectAnswer`
abbrev flag_matches : Option Bool → Bool → Bool
flag_matches none b = false
flag_matches (some true) b = b
flag_matches (some false) b = not b

unfoldable pub score_boolean : Question → Option Bool → QuestionResult
score_boolean q none = unanswered q
score_boolean q (some b) =
    if flag_matches q.correct_answer b
    then right_result q (flag b)
    else wrong_result q (flag_ref q.correct_answer)

-- The loop over `order`, from index `i`.
unfoldable pub order_matches : List String → List String → ℕ → Bool
order_matches expected [] i = true
order_matches expected (id ∷ rest) i = elim (get_elem? expected i) [
  | none ↦ false
  | some e ↦ str_eq id e && order_matches expected rest (i + 1)
]

unfoldable pub score_order : Question → List String → QuestionResult
unfolding order_matches
score_order q [] = unanswered q
score_order q (id ∷ rest) =
    if order_matches q.correct_order (id ∷ rest) 0 && length (id ∷ rest) == length q.correct_order
    then right_result q (id_order q.correct_order)
    else wrong_result q (id_order q.correct_order)

-- `QuizResult{}`
abbrev pub empty_quiz_result : QuizResult
empty_quiz_result = record {
  total_score = pos 0;
  max_score = pos 0;
  passed = false;
  question_results = [];
}

-- One round of ScoreQuiz's loop: the totals grow by the question's points.
abbrev pub add_result : QuizResult → QuestionResult → QuizResult
add_result r qr = record r {
  total_score = add_int r.total_score qr.points_earned;
  max_score = add_int r.max_score qr.points_max;
  question_results = r.question_results ++ qr ∷ [];
}

module _ (f : Float64) where
  -- points * (hits - misses) / correct, as a float64.
  unfoldable pub raw_partial : ℤ → ℕ → ℕ → ℕ → f.Num
  raw_partial points correct hits misses =
      f.div (f.mul (f.of_int points) (f.of_int (sub_ℕ hits misses))) (f.of_int (pos correct))

  -- A negative value counts as 0, unless the question allows negatives.
  unfoldable pub cut_off : PartialScoring → f.Num → f.Num
  cut_off p raw =
      if not p.allow_negative && f.ltb raw (f.of_int (pos 0)) then f.of_int (pos 0) else raw

  unfoldable pub partial_multiple_choice_score : Question → ℕ → ℕ → ℕ → ℤ
  unfolding raw_partial cut_off
  partial_multiple_choice_score q correct hits misses = elim q.partial_scoring [
    | none ↦ pos 0
    | some p ↦
        if p.enabled
        then f.to_int (f.round (cut_off p (raw_partial q.points correct hits misses)))
        else pos 0
  ]

  unfoldable pub score_multiple : Question → List String → QuestionResult
  unfolding tally_multiple_choice partial_multiple_choice_score
  score_multiple q [] = unanswered q
  score_multiple q (s ∷ rest) =
      let (ids, hits, misses) = tally_multiple_choice q (s ∷ rest) in
      if hits == length ids && misses == 0
      then right_result q (id_set ids)
      else record (wrong_result q (id_set ids)) {
        points_earned = partial_multiple_choice_score q (length ids) hits misses;
      }

  -- `answers[question.ID]`, the zero value where the key is missing.
  abbrev pub user_answer : Assoc UserAnswer → String → UserAnswer
  user_answer answers id = elim (lookup id answers) [
    | none ↦ record { single = none; multiple = []; boolean = none; order = [] }
    | some a ↦ a
  ]

  unfoldable pub score_question : Question → UserAnswer → QuestionResult
  unfolding score_single score_multiple score_boolean score_order
  score_question q a =
      if str_eq q.type "single"
      then score_single q a.single
      else if str_eq q.type "multiple"
      then score_multiple q a.multiple
      else if str_eq q.type "boolean"
      then score_boolean q a.boolean
      else if str_eq q.type "order"
      then score_order q a.order
      else start_result q

  -- The loop of ScoreQuiz over the questions.
  unfoldable pub score_questions : Assoc UserAnswer → List Question → QuizResult → QuizResult
  unfolding score_question
  score_questions answers [] r = r
  score_questions answers (q ∷ rest) r =
      let qr = score_question q (user_answer answers q.id) in
      score_questions answers rest (record r {
        total_score = add_int r.total_score qr.points_earned;
        max_score = add_int r.max_score qr.points_max;
        question_results = r.question_results ++ qr ∷ [];
      })

  -- float64(total) / float64(max) * 100 >= float64(passing)
  unfoldable pub reaches : ℤ → ℤ → ℤ → Bool
  reaches total maximum passing =
      f.leb (f.of_int passing)
        (f.mul (f.div (f.of_int total) (f.of_int maximum)) (f.of_int (pos 100)))

  unfoldable pub score_quiz : Quiz f → Assoc UserAnswer → QuizResult
  unfolding score_questions reaches
  score_quiz quiz answers =
      let r = score_questions answers quiz.questions empty_quiz_result in
      if ltb_ℤ (pos 0) r.max_score
      then record r { passed = reaches r.total_score r.max_score quiz.passing_score }
      else r
