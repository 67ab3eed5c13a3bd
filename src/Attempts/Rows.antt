-- ===== src/Attempts/Rows.antt =====
-- The rows of quiz_question_attempts and their primary key: QuizQuestionAttempt of
-- course-service/internal/models and the types of course-service/internal/repository/quiz_attempt.go.
use elearning_platform.Prelude.{
  ℕ, String, Bool, true, ◌&&◌, Option, ◌≡◌, ◌↔◌, arith, eq_iff, str_eq,
}
use elearning_platform.Prelude.Int.{ℤ, eqb_ℤ, eqb_ℤ_iff}
use elearning_platform.Prelude.Table.{Eq, Table}

pub record AttemptKey : Type 0 where
  pub username : String
  pub course_slug : String
  pub module_index : ℤ

-- The primary key of the table.
pub record RowKey : Type 0 where
  pub key : AttemptKey
  pub question_id : String

-- The other columns of `QuizQuestionAttempt`; `updated_at` is never read.
pub record Attempt : Type 0 where
  pub attempts : ℕ
  pub cooldown_until : Option ℤ

pub record AttemptState : Type 0 where
  pub attempts : ℕ
  pub remaining : ℤ

pub record RecordResult : Type 0 where
  pub attempts : ℕ
  pub remaining : ℤ
  pub locked : Bool

-- Which statements the database refuses.
pub record Outage : Type 0 where
  pub load : Bool
  pub delete_rows : Bool
  pub increment : Bool
  pub write : Bool

abbrev pub key_eq : AttemptKey → AttemptKey → Bool
key_eq a b =
    str_eq a.username b.username
    && str_eq a.course_slug b.course_slug
    && eqb_ℤ a.module_index b.module_index

abbrev pub row_eq : RowKey → RowKey → Bool
row_eq a b = key_eq a.key b.key && str_eq a.question_id b.question_id

pub key_eq_iff : (a b : AttemptKey) → (key_eq a b ≡ true) ↔ (a ≡ b)
key_eq_iff a b = ground (
  arith,
  eq_iff a.username b.username,
  eq_iff a.course_slug b.course_slug,
  eqb_ℤ_iff a.module_index b.module_index,
)

pub row_eq_iff : (a b : RowKey) → (row_eq a b ≡ true) ↔ (a ≡ b)
row_eq_iff a b = ground (arith, key_eq_iff a.key b.key, eq_iff a.question_id b.question_id)

abbrev pub row_key_eq : Eq RowKey
row_key_eq = record { beq = row_eq; beq_iff = row_eq_iff }

abbrev pub Attempts : Type 0
Attempts = Table RowKey Attempt

abbrev pub row : AttemptKey → String → RowKey
row key id = record { key = key; question_id = id }
