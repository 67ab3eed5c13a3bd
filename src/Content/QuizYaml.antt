-- ===== src/Content/QuizYaml.antt =====
-- The quiz document as decoded from YAML, and its conversion: `QuizYAML` to `convertQuestion` of
-- course-service/internal/content/quiz_types.go.
pub mod Defaults
use elearning_platform.Prelude.{String, Bool, List, map, Option, none, some, if◌then◌else◌, str_eq}
use elearning_platform.Prelude.Int.{ℤ, pos, eqb_ℤ}
use elearning_platform.Prelude.Float64.{Float64}
use elearning_platform.Content.Quiz.{
  CoverEntry, CooldownSpec, Answer, OrderItem, PartialScoring, SourceRef, Feedback, Question, Quiz,
}

pub record CoverEntryYaml : Type 0 where
  pub course : String
  pub modules : List String

pub record CooldownSpecYaml (f : Float64) : Type 0 where
  pub strategy : String
  pub base_seconds : ℤ
  pub multiplier : f.Num
  pub max_seconds : ℤ

pub record AnswerYaml : Type 0 where
  pub id : String
  pub text : String
  pub correct : Bool

pub record OrderItemYaml : Type 0 where
  pub id : String
  pub text : String

pub record PartialScoringYaml : Type 0 where
  pub enabled : Bool
  pub allow_negative : Bool

pub record SourceRefYaml : Type 0 where
  pub course : String
  pub module_slug : String  -- `Module`
  pub anchor : String
  pub priority : ℤ

pub record FeedbackYaml : Type 0 where
  pub wrong : String
  pub correct : String
  pub source_refs : List SourceRefYaml

pub record QuestionYaml : Type 0 where
  pub id : String
  pub type : String
  pub difficulty : String
  pub points : ℤ
  pub question : String
  pub answers : List AnswerYaml
  pub correct_answer : Option Bool
  pub items : List OrderItemYaml
  pub correct_order : List String
  pub partial_scoring : Option PartialScoringYaml
  pub feedback : FeedbackYaml

pub record QuizYaml (f : Float64) : Type 0 where
  pub id : String
  pub title : String
  pub description : String
  pub version : String
  pub covers : List CoverEntryYaml
  pub passing_score : ℤ
  pub cooldown : CooldownSpecYaml f
  pub max_attempts_per_question : Option ℤ
  pub lock_on_max_attempts : Bool
  pub questions : List QuestionYaml

-- Go's struct conversions `CoverEntry(c)`, `Answer(a)`, `OrderItem(it)`, `SourceRef(sr)`.
abbrev to_cover_entry : CoverEntryYaml → CoverEntry
to_cover_entry c = record { course = c.course; modules = c.modules }

abbrev to_answer : AnswerYaml → Answer
to_answer a = record { id = a.id; text = a.text; correct = a.correct }

abbrev to_order_item : OrderItemYaml → OrderItem
to_order_item it = record { id = it.id; text = it.text }

abbrev to_source_ref : SourceRefYaml → SourceRef
to_source_ref sr = record {
  course = sr.course;
  module_slug = sr.module_slug;
  anchor = sr.anchor;
  priority = sr.priority;
}

abbrev to_partial_scoring : PartialScoringYaml → PartialScoring
to_partial_scoring p = record { enabled = p.enabled; allow_negative = p.allow_negative }

abbrev to_feedback : FeedbackYaml → Feedback
to_feedback fb = record {
  wrong = fb.wrong;
  correct = fb.correct;
  source_refs = map to_source_ref fb.source_refs;
}

abbrev pub difficulty_medium : String
difficulty_medium = "medium"

unfoldable pub convert_question : QuestionYaml → Question
convert_question raw = record {
  id = raw.id;
  type = raw.type;
  difficulty = if str_eq raw.difficulty "" then difficulty_medium else raw.difficulty;
  points = if eqb_ℤ raw.points (pos 0) then pos 1 else raw.points;
  question = raw.question;
  answers = map to_answer raw.answers;
  correct_answer = raw.correct_answer;
  items = map to_order_item raw.items;
  correct_order = raw.correct_order;
  partial_scoring = elim raw.partial_scoring [ none ↦ none | some p ↦ some (to_partial_scoring p) ];
  feedback = to_feedback raw.feedback;
}

module _ {f : Float64} where
  abbrev to_cooldown_spec : CooldownSpecYaml f → CooldownSpec f
  to_cooldown_spec c = record {
    strategy = c.strategy;
    base_seconds = c.base_seconds;
    multiplier = c.multiplier;
    max_seconds = c.max_seconds;
  }

  unfoldable pub to_quiz : QuizYaml f → Quiz f
  to_quiz qy = record {
    id = qy.id;
    title = qy.title;
    description = qy.description;
    version = qy.version;
    covers = map to_cover_entry qy.covers;
    passing_score = qy.passing_score;
    cooldown = to_cooldown_spec qy.cooldown;
    max_attempts_per_question = qy.max_attempts_per_question;
    lock_on_max_attempts = qy.lock_on_max_attempts;
    questions = map convert_question qy.questions;
  }

  -- `FetchQuizContent` after the document is fetched and decoded: `path` stands in for a missing
  -- ID, and the ID for a missing title.
  unfoldable pub fetched_quiz : String → QuizYaml f → Quiz f
  unfolding to_quiz
  fetched_quiz path doc =
      let with_id : QuizYaml f = record doc { id = if str_eq doc.id "" then path else doc.id } in
      to_quiz
        (record with_id { title = if str_eq with_id.title "" then with_id.id else with_id.title })
