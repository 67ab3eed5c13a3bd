-- ===== src/Content/Quiz.antt =====
-- The in-memory quiz: course-service/internal/content/quiz_types.go and the submission types of
-- scoring.go. A Go pointer is an `Option`, a slice a list; `float64` is a parameter.
use elearning_platform.Prelude.{String, Bool, List, Option}
use elearning_platform.Prelude.Int.{ℤ}
use elearning_platform.Prelude.Float64.{Float64}

pub record CoverEntry : Type 0 where
  pub course : String
  pub modules : List String

pub record CooldownSpec (f : Float64) : Type 0 where
  pub strategy : String
  pub base_seconds : ℤ
  pub multiplier : f.Num
  pub max_seconds : ℤ

pub record Answer : Type 0 where
  pub id : String
  pub text : String
  pub correct : Bool

pub record OrderItem : Type 0 where
  pub id : String
  pub text : String

pub record PartialScoring : Type 0 where
  pub enabled : Bool
  pub allow_negative : Bool

pub record SourceRef : Type 0 where
  pub course : String
  pub module_slug : String  -- `Module`
  pub anchor : String
  pub priority : ℤ

pub record Feedback : Type 0 where
  pub wrong : String
  pub correct : String
  pub source_refs : List SourceRef

pub record Question : Type 0 where
  pub id : String
  pub type : String
  pub difficulty : String
  pub points : ℤ
  pub question : String
  pub answers : List Answer
  pub correct_answer : Option Bool
  pub items : List OrderItem
  pub correct_order : List String
  pub partial_scoring : Option PartialScoring
  pub feedback : Feedback

pub record Quiz (f : Float64) : Type 0 where
  pub id : String
  pub title : String
  pub description : String
  pub version : String
  pub covers : List CoverEntry
  pub passing_score : ℤ
  pub cooldown : CooldownSpec f
  pub max_attempts_per_question : Option ℤ
  pub lock_on_max_attempts : Bool
  pub questions : List Question

pub record UserAnswer : Type 0 where
  pub single : Option String
  pub multiple : List String
  pub boolean : Option Bool
  pub order : List String

-- The values that the source stores in `CorrectAnswer any`.
pub data CorrectAnswer : Type 0 where
  absent : CorrectAnswer  -- nil
  answer_id : String → CorrectAnswer
  id_set : List String → CorrectAnswer  -- the keys of a map[string]bool
  flag : Bool → CorrectAnswer
  flag_ref : Option Bool → CorrectAnswer  -- a *bool
  id_order : List String → CorrectAnswer

pub record QuestionResult : Type 0 where
  pub question_id : String
  pub type : String
  pub is_correct : Bool
  pub points_earned : ℤ
  pub points_max : ℤ
  pub correct_answer : CorrectAnswer
  pub feedback : String
  pub source_refs : List SourceRef

pub record QuizResult : Type 0 where
  pub total_score : ℤ
  pub max_score : ℤ
  pub passed : Bool
  pub question_results : List QuestionResult
