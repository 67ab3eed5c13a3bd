-- ===== src/Course/PublicQuiz/Secrecy.antt =====
-- The answer key is not among the questions to be answered: `sanitizeQuestions` of
-- course-service/internal/handlers/modules.go.
use elearning_platform.Prelude.{◌≡◌, refl, false, List, [], ◌∷◌, map, arith}
use elearning_platform.Content.Quiz.{Answer, Question}
use elearning_platform.Course.PublicQuiz.{public_answer, public_question, sanitize_questions}

-- Two answer options that differ at most in whether they are correct.
abbrev pub SameOption : Answer → Answer → Type 0
SameOption a b = (a.id ≡ b.id) × (a.text ≡ b.text)

abbrev pub SameOptions : List Answer → List Answer → Type 0
SameOptions [] [] = Unit
SameOptions (a ∷ as') (b ∷ bs) = SameOption a b × SameOptions as' bs
SameOptions _ _ = ⊥

-- Two questions that differ at most in their answer keys and in their feedback texts.
pub record SameQuestion (p q : Question) : Type 0 where
  pub id : p.id ≡ q.id
  pub type : p.type ≡ q.type
  pub difficulty : p.difficulty ≡ q.difficulty
  pub points : p.points ≡ q.points
  pub question : p.question ≡ q.question
  pub answers : SameOptions p.answers q.answers
  pub items : p.items ≡ q.items
  pub partial_scoring : p.partial_scoring ≡ q.partial_scoring
  pub source_refs : p.feedback.source_refs ≡ q.feedback.source_refs

abbrev pub SameQuestions : List Question → List Question → Type 0
SameQuestions [] [] = Unit
SameQuestions (p ∷ ps) (q ∷ qs) = SameQuestion p q × SameQuestions ps qs
SameQuestions _ _ = ⊥

same-answers :
    (l m : List Answer)
    → SameOptions l m
    → map (public_answer false) l ≡ map (public_answer false) m
unfolding public_answer
same-answers [] [] h = refl
same-answers (a ∷ l) (b ∷ m) h = cc (h.0.0, h.0.1, same-answers l m h.1)
same-answers [] (b ∷ m) h = absurd h
same-answers (a ∷ l) [] h = absurd h

same-question :
    (p q : Question) → SameQuestion p q → public_question false p ≡ public_question false q
unfolding public_question
same-question p q h = ground (arith, same-answers p.answers q.answers h.answers)

-- The questions as sanitizeQuestions gives them to a learner do not depend on which answers are correct,
-- on the key of a true/false or ordering question, nor on the feedback texts: lists of questions that
-- differ only there give the same. The reply to a scored submission is another one.
pub sanitize_questions-secret :
    (ps qs : List Question)
    → SameQuestions ps qs
    → sanitize_questions ps false ≡ sanitize_questions qs false
unfolding sanitize_questions
sanitize_questions-secret [] [] h = refl
sanitize_questions-secret (p ∷ ps) (q ∷ qs) h =
    cc (same-question p q h.0, sanitize_questions-secret ps qs h.1)
sanitize_questions-secret [] (q ∷ qs) h = absurd h
sanitize_questions-secret (p ∷ ps) [] h = absurd h
