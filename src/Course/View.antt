-- ===== src/Course/View.antt =====
-- What a learner endpoint loads once per request: the types of
-- course-service/internal/handlers/user_client.go and modules.go, and the answers of the database,
-- of git and of user-service, which are the fields of `Env`.
use elearning_platform.Prelude.{
  ℕ, String, Bool, false, not, List, [], ◌∷◌, ◌++◌, Option, none, some, if◌then◌else◌, str_eq,
  get_elem?, insert, Assoc, keep,
}
use elearning_platform.Prelude.Int.{ℤ, pos, negsuc, eqb_ℤ}
use elearning_platform.Prelude.Float64.{Float64}
use elearning_platform.Content.Slug.{Unicode}
use elearning_platform.Content.QuizYaml.{QuizYaml}
use elearning_platform.Content.Module.{Course, Module}

-- The claims of a verified token: internal/middleware/auth.go.
pub record Claims : Type 0 where
  pub subject : String
  pub email : String
  pub role : String
  pub preferred_username : String

pub record ModuleProgressData : Type 0 where
  pub best_score : ℤ
  pub max_score : ℤ
  pub passed : Bool
  pub attempts : ℤ

-- Sets of slugs are lists of distinct keys; `modules` is keyed by the module's index.
pub record CourseProgress : Type 0 where
  pub enrolled : Bool
  pub viewed : List String
  pub modules : List (ℤ × ModuleProgressData)
  pub total_score : ℤ
  pub passed_modules : List String
  pub viewed_count : ℤ

pub record CoursePrereqSummary : Type 0 where
  pub total_score : ℤ
  pub passed_modules : List String
  pub viewed_count : ℤ

abbrev pub empty_course_progress : CourseProgress
empty_course_progress = record {
  enrolled = false;
  viewed = [];
  modules = [];
  total_score = pos 0;
  passed_modules = [];
  viewed_count = pos 0;
}

abbrev pub empty_course_prereq_summary : CoursePrereqSummary
empty_course_prereq_summary = record {
  total_score = pos 0;
  passed_modules = [];
  viewed_count = pos 0;
}

-- The wire bodies, whose lists become sets.
pub record ModuleRow : Type 0 where
  pub module_index : ℤ
  pub progress : ModuleProgressData

pub record ProgressOverviewBody : Type 0 where
  pub enrolled : Bool
  pub viewed : List String
  pub modules : List ModuleRow
  pub total_score : ℤ
  pub passed_modules : List String
  pub viewed_count : ℤ

pub record SummaryRow : Type 0 where
  pub total_score : ℤ
  pub passed_modules : List String
  pub viewed_count : ℤ

pub data Lookup {ℓ} (A : Type ℓ) : Type ℓ where
  found : A → Lookup A
  not_found : Lookup A
  failed : Lookup A

-- The requests to user-service that a handler makes or starts, in their order: autoEnroll,
-- recordModuleProgress, postLessonComplete and notifyCourseComplete.
pub record ModuleProgressRequest : Type 0 where
  pub user_id : String
  pub course_slug : String
  pub module_index : ℕ
  pub module_slug : String
  pub module_type : String
  pub score : ℤ
  pub max_score : ℤ
  pub passed : Bool

pub record CourseCompleteBody : Type 0 where
  pub user_id : String
  pub course_slug : String
  pub skills : List String
  pub difficulty : String
  pub skill_total_courses : Assoc ℤ

pub data Post : Type 0 where
  auto_enroll : String → String → Post
  module_progress : ModuleProgressRequest → Post
  lesson_complete : String → String → String → Post
  course_complete : CourseCompleteBody → Post

-- The answers that one request gets from outside: a missing answer is a failed call.
pub record Env (f : Float64) : Type 0 where
  pub unicode : Unicode
  pub load_course : String → Lookup (Course f)
  pub module_index : Module f → Option (List (Module f))
  pub progress_overview : String → String → Option ProgressOverviewBody
  pub course_summaries : String → List String → Option (Assoc SummaryRow)
  pub skill_totals : List String → Option (Assoc ℤ)
  pub fetch_quiz : Module f → Option (QuizYaml f)  -- the fetched and decoded document

pub record LearnerView (f : Float64) : Type 0 where
  pub course : Course f
  pub modules : List (Module f)
  pub progress : CourseProgress
  pub claims : Claims
  pub is_admin : Bool
  pub user_id : String
  pub slug : String

-- What a handler writes: a payload with status 200, or an error status with its message.
pub data Reply {ℓ} (A : Type ℓ) : Type ℓ where
  ok : A → Reply A
  error : ℕ → String → Reply A

-- A set's keys from a list of slugs.
abbrev pub to_set : List String → List String
to_set [] = []
to_set (s ∷ rest) = insert s (to_set rest)

-- Later rows of the same index overwrite earlier ones.
abbrev index_rows : List ModuleRow → List (ℤ × ModuleProgressData) → List (ℤ × ModuleProgressData)
index_rows [] acc = acc
index_rows (r ∷ rest) acc = index_rows rest ((r.module_index, r.progress) ∷ acc)

-- `courseProgress`: a failed call is empty progress.
unfoldable pub course_progress : Option ProgressOverviewBody → CourseProgress
course_progress none = empty_course_progress
course_progress (some body) = record {
  enrolled = body.enrolled;
  viewed = to_set body.viewed;
  modules = index_rows body.modules [];
  total_score = body.total_score;
  passed_modules = to_set body.passed_modules;
  viewed_count = body.viewed_count;
}

abbrev pub role_admin : String
role_admin = "admin"

module _ {f : Float64} (env : Env f) where
  unfoldable pub expand_module_indexes : List (Module f) → List (Module f)
  expand_module_indexes [] = []
  expand_module_indexes (m ∷ rest) =
      let others = expand_module_indexes rest in
      if str_eq m.type "modules"
      then elim (env.module_index m) [ none ↦ others | some subs ↦ subs ++ others ]
      else m ∷ others

  unfoldable pub visible_modules : Course f → Claims → List (Module f)
  unfolding expand_module_indexes
  visible_modules c claims =
      let expanded = expand_module_indexes c.modules in
      if str_eq claims.role role_admin then expanded else keep (λ m. not m.hidden) expanded

-- `modules[idx]` behind the test `idx >= 0 && idx < len(modules)`.
unfoldable pub module_at : {f : Float64} → List (Module f) → ℤ → Option (Module f)
module_at modules (pos n) = get_elem? modules n
module_at modules (negsuc n) = none

-- `progress[idx]`
unfoldable pub progress_at : List (ℤ × ModuleProgressData) → ℤ → Option ModuleProgressData
progress_at [] idx = none
progress_at ((i, p) ∷ rest) idx = if eqb_ℤ i idx then some p else progress_at rest idx
