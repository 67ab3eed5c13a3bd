-- ===== src/Course/PublicQuiz.antt =====
-- Questions as a client sees them: `sanitizeQuestions` of
-- course-service/internal/handlers/modules.go.
pub mod Secrecy
use elearning_platform.Prelude.{String, Bool, false, List, map, Option, if◌then◌else◌}
use elearning_platform.Prelude.Int.{ℤ}
use elearning_platform.Content.Quiz.{Answer, OrderItem, PartialScoring, SourceRef, Question}

pub record PublicAnswer : Type 0 where
  pub id : String
  pub text : String
  pub correct : Bool

pub record PublicQuestion : Type 0 where
  pub id : String
  pub type : String
  pub difficulty : String
  pub points : ℤ
  pub question : String
  pub answers : List PublicAnswer
  pub items : List OrderItem
  pub partial_scoring : Option PartialScoring
  pub source_refs : List SourceRef

unfoldable pub public_answer : Bool → Answer → PublicAnswer
public_answer admin a = record {
  id = a.id;
  text = a.text;
  correct = if admin then a.correct else false;
}

unfoldable pub public_question : Bool → Question → PublicQuestion
unfolding public_answer
public_question admin q = record {
  id = q.id;
  type = q.type;
  difficulty = q.difficulty;
  points = q.points;
  question = q.question;
  answers = map (public_answer admin) q.answers;
  items = q.items;
  partial_scoring = q.partial_scoring;
  source_refs = q.feedback.source_refs;
}

unfoldable pub sanitize_questions : List Question → Bool → List PublicQuestion
unfolding public_question
sanitize_questions qq admin = map (public_question admin) qq
