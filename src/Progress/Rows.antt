-- ===== src/Progress/Rows.antt =====
-- The table module_progress: `RecordProgress` and `ListByUserCourses` of
-- user-service/internal/repository/module_progress.go, and `summarizeCourseProgress` of
-- user-service/internal/handlers/internal_progress.go.
use elearning_platform.Prelude.{
  ℕ, suc, String, Bool, true, ◌&&◌, ◌||◌, List, [], ◌∷◌, ◌++◌, length, Option, none, some, ◌≡◌, ◌↔◌,
  arith, eq_iff, if◌then◌else◌, str_eq,
}
use elearning_platform.Prelude.Int.{ℤ, pos, leb_ℤ, eqb_ℤ, eqb_ℤ_iff, add_int}
use elearning_platform.Prelude.Table.{Eq, Table, get, put}

-- The unique index of the table.
pub record ProgressKey : Type 0 where
  pub user_id : String
  pub course_slug : String
  pub module_index : ℤ

-- The other columns of `ModuleProgress`, but its generated ID and `updatedat`.
pub record ModuleProgress : Type 0 where
  pub module_slug : Option String
  pub best_score : ℤ
  pub max_score : ℤ
  pub passed : Bool
  pub attempts : ℕ
  pub module_type : String
  pub completed_at : Option ℤ

-- The arguments of one call on a module, with its time.
pub record Result : Type 0 where
  pub at : ℤ
  pub module_slug : String
  pub module_type : String
  pub score : ℤ
  pub max_score : ℤ
  pub passed : Bool

abbrev pub key_eq : ProgressKey → ProgressKey → Bool
key_eq a b =
    str_eq a.user_id b.user_id
    && str_eq a.course_slug b.course_slug
    && eqb_ℤ a.module_index b.module_index

pub key_eq_iff : (a b : ProgressKey) → (key_eq a b ≡ true) ↔ (a ≡ b)
key_eq_iff a b = ground (
  arith,
  eq_iff a.user_id b.user_id,
  eq_iff a.course_slug b.course_slug,
  eqb_ℤ_iff a.module_index b.module_index,
)

abbrev pub progress_key_eq : Eq ProgressKey
progress_key_eq = record { beq = key_eq; beq_iff = key_eq_iff }

abbrev pub Progress : Type 0
Progress = Table ProgressKey ModuleProgress

-- An empty slug is stored as NULL.
abbrev pub slug_of : String → Option String
slug_of s = if str_eq s "" then none else some s

-- COALESCE(old, new)
abbrev pub coalesce {ℓ} : {A : Type ℓ} → Option A → Option A → Option A
coalesce none new = new
coalesce (some a) new = some a

-- The row to create, and the assignments on a conflict.
unfoldable pub merge_result : Option ModuleProgress → Result → ModuleProgress
merge_result none r = record {
  module_slug = slug_of r.module_slug;
  best_score = r.score;
  max_score = r.max_score;
  passed = r.passed;
  attempts = 1;
  module_type = r.module_type;
  completed_at = if r.passed then some r.at else none;
}
merge_result (some old) r = record {
  module_slug = coalesce old.module_slug (slug_of r.module_slug);
  best_score = if leb_ℤ old.best_score r.score then r.score else old.best_score;
  max_score = r.max_score;
  passed = old.passed || r.passed;
  attempts = suc old.attempts;
  module_type = r.module_type;
  completed_at = if r.passed then coalesce old.completed_at (some r.at) else old.completed_at;
}

-- `none` is the error of a statement that the database refuses.
unfoldable pub record_progress : Bool → ProgressKey → Result → Progress → Option Progress
unfolding merge_result
record_progress refused k r t =
    if refused
    then none
    else some (put progress_key_eq k (merge_result (get progress_key_eq k t) r) t)

-- The rows of one course in the map of ListByUserCourses. The order by module index is left out: it
-- only orders the passed slugs.
unfoldable pub list_by_user_course : String → String → Progress → List ModuleProgress
list_by_user_course user course [] = []
list_by_user_course user course ((k, p) ∷ t) =
    let rest = list_by_user_course user course t in
    if str_eq k.user_id user && str_eq k.course_slug course then p ∷ rest else rest

pub record CourseProgressSummary : Type 0 where
  pub total_score : ℤ
  pub passed_modules : List String
  pub viewed_count : ℕ

-- One round of the loop.
unfoldable pub add_row : CourseProgressSummary → ModuleProgress → CourseProgressSummary
add_row s row = record s {
  total_score = add_int s.total_score row.best_score;
  passed_modules = elim row.module_slug [
    | none ↦ s.passed_modules
    | some slug ↦ if row.passed then s.passed_modules ++ slug ∷ [] else s.passed_modules
  ];
}

unfoldable pub add_rows : CourseProgressSummary → List ModuleProgress → CourseProgressSummary
unfolding add_row
add_rows s [] = s
add_rows s (row ∷ rows) = add_rows (add_row s row) rows

unfoldable pub summarize_course_progress : List ModuleProgress → List String → CourseProgressSummary
unfolding add_rows
summarize_course_progress rows viewed =
    add_rows (record { total_score = pos 0; passed_modules = []; viewed_count = length viewed })
      rows
