-- ===== src/Content/QuizYaml/Defaults.antt =====
-- The values that the conversion of course-service/internal/content/quiz_types.go fills in.
use elearning_platform.Prelude.{
  ◌≡◌, refl, String, false, List, [], ◌∷◌, map, arith, str_eq, All, if◌then◌else◌,
}
use elearning_platform.Prelude.Int.{pos, eqb_ℤ}
use elearning_platform.Prelude.Float64.{Float64}
use elearning_platform.Content.Quiz.{Question}
use elearning_platform.Content.QuizYaml.{
  QuestionYaml, QuizYaml, convert_question, to_quiz, fetched_quiz,
}

-- A question that is worth something and has a difficulty.
abbrev pub IsComplete : Question → Type 0
IsComplete q = (eqb_ℤ q.points (pos 0) ≡ false) × (str_eq q.difficulty "" ≡ false)

default-nonempty :
    (s default : String)
    → str_eq default "" ≡ false
    → str_eq (if str_eq s "" then default else s) "" ≡ false
default-nonempty s default h = ground arith

convert_question-IsComplete : (raw : QuestionYaml) → IsComplete (convert_question raw)
unfolding convert_question
convert_question-IsComplete raw = (ground arith, default-nonempty raw.difficulty "medium" refl)

convert_questions-IsComplete :
    (raws : List QuestionYaml) → All IsComplete (map convert_question raws)
convert_questions-IsComplete [] = tt
convert_questions-IsComplete (raw ∷ raws) =
    (convert_question-IsComplete raw, convert_questions-IsComplete raws)

-- A quiz fetched from a non-empty path has an ID and a title, and each of its questions has points
-- other than 0 and a difficulty.
pub fetched_quiz-IsComplete :
    {f : Float64} (path : String) (doc : QuizYaml f)
    → str_eq path "" ≡ false
    → let quiz = fetched_quiz path doc in
      (str_eq quiz.id "" ≡ false) × (str_eq quiz.title "" ≡ false) × All IsComplete quiz.questions
unfolding fetched_quiz to_quiz
fetched_quiz-IsComplete path doc h =
    (ground arith, ground arith, convert_questions-IsComplete doc.questions)
