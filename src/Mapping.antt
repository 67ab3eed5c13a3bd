-- ===== src/Mapping.antt =====
-- Courses and modules as rows: course-service/internal/repository/course_mapping.go. fmt.Sprintf is a
-- parameter. The four cooldown columns of a module are one field here; a nil slice and an empty one
-- are the same list, as textArray and fromTextArray make them.
use elearning_platform.Prelude.{
  ℕ, suc, String, Bool, true, false, not, ◌&&◌, ◌||◌, List, [], ◌∷◌, map, Option, none, some,
  if◌then◌else◌, str_eq, keep,
}
use Prim.Native.String.{compare}
use Prim.Native.Nat.{Ordering}
use elearning_platform.Prelude.Int.{ℤ, pos, eqb_ℤ}
use elearning_platform.Prelude.Float64.{Float64}
use elearning_platform.Content.Quiz.{CooldownSpec, Question}
use elearning_platform.Content.Slug.{Unicode, slugify_module_name}
use elearning_platform.Content.Module.{
  CoursePrerequisite, Badge, Session, Fields, end, CheckStep, Module, Course,
}
use elearning_platform.Mapping.Documents.{
  Codec, Codecs, Jsonb, present, marshal_jsonb, unmarshal_jsonb, is_empty, is_end,
}
pub mod Documents
pub mod Defaults
pub mod RoundTrip
pub mod Courses
pub mod Store

-- The texts of `fmt.Sprintf("module-%d", n)` and `fmt.Sprintf("q-%d", n)`.
pub record Names : Type 0 where
  pub module_name : ℕ → String
  pub question_id : ℕ → String

pub record ModuleRow (f : Float64) : Type 0 where
  pub course_slug : String
  pub position : ℕ
  pub slug : String
  pub name : String
  pub type : String
  pub src : String
  pub ref : String
  pub path : String
  pub lab_url : String
  pub inline_content : String
  pub replication : Bool
  pub hidden : Bool
  pub inline : Bool
  pub prerequisites : List String
  pub passing_score : ℤ
  pub cooldown : CooldownSpec f
  pub max_attempts_per_question : Option ℤ
  pub lock_on_max_attempts : Bool
  pub check_provider : String
  pub check_type : String
  pub check_params : Jsonb
  pub steps : Jsonb
  pub questions : Jsonb
  pub skills : List String

abbrev pub or_text : String → String → String
or_text default s = if str_eq s "" then default else s

abbrev pub or_number : ℤ → ℤ → ℤ
or_number default n = if eqb_ℤ n (pos 0) then default else n

module _ (f : Float64) where
  -- Go's `==` on a float64 and 0.
  abbrev pub is_zero_num : f.Num → Bool
  is_zero_num x = f.leb x (f.of_int (pos 0)) && f.leb (f.of_int (pos 0)) x

  abbrev pub zero_spec : CooldownSpec f
  zero_spec = record {
    strategy = "";
    base_seconds = pos 0;
    multiplier = f.of_int (pos 0);
    max_seconds = pos 0;
  }

  -- `spec == (content.CooldownSpec{})`
  abbrev pub is_zero_spec : CooldownSpec f → Bool
  is_zero_spec s =
      str_eq s.strategy ""
      && eqb_ℤ s.base_seconds (pos 0)
      && is_zero_num s.multiplier
      && eqb_ℤ s.max_seconds (pos 0)

  abbrev pub filled_spec : CooldownSpec f → CooldownSpec f
  filled_spec s = record {
    strategy = or_text "exponential" s.strategy;
    base_seconds = or_number (pos 30) s.base_seconds;
    multiplier = if is_zero_num s.multiplier then f.of_int (pos 1) else s.multiplier;
    max_seconds = s.max_seconds;
  }

  -- The columns that applyCooldownDefaults leaves.
  unfoldable pub apply_cooldown_defaults : CooldownSpec f → CooldownSpec f
  apply_cooldown_defaults s = if is_zero_spec s then zero_spec else filled_spec s

abbrev pub defaulted_question : Names → ℕ → Question → Question
defaulted_question names index q = record q {
  id = or_text (names.question_id (suc index)) q.id;
  difficulty = or_text "medium" q.difficulty;
  points = or_number (pos 1) q.points;
}

unfoldable pub defaulted_questions : Names → ℕ → List Question → List Question
defaulted_questions names index [] = []
defaulted_questions names index (q ∷ qs) =
    defaulted_question names index q ∷ defaulted_questions names (suc index) qs

module _ {f : Float64} where
  abbrev pub with_documents :
      ModuleRow f → Option Jsonb → Option Jsonb → Option Jsonb → Option (ModuleRow f)
  with_documents row none s q = none
  with_documents row (some p) none q = none
  with_documents row (some p) (some s) none = none
  with_documents row (some p) (some s) (some q) =
      some (record row { check_params = p; steps = s; questions = q })

  abbrev pub from_documents :
      Module f
      → Option Fields
      → Option (List CheckStep)
      → Option (List Question)
      → Option (Module f)
  from_documents m none s q = none
  from_documents m (some p) none q = none
  from_documents m (some p) (some s) none = none
  from_documents m (some p) (some s) (some q) =
      some (record m { check_params = p; steps = s; questions = q })

module _ (f : Float64) (unicode : Unicode) (names : Names) (codecs : Codecs) where
  -- The row of one module, before its documents.
  unfoldable pub plain_row : String → ℕ → Module f → ModuleRow f
  unfolding apply_cooldown_defaults
  plain_row course position m =
      let name = or_text (names.module_name (suc position)) m.name in
      record {
        course_slug = course;
        position = position;
        slug = slugify_module_name unicode name;
        name = name;
        type = or_text "text" m.type;
        src = m.src;
        ref = m.ref;
        path = m.path;
        lab_url = m.lab_url;
        inline_content = m.inline_content;
        replication = m.replication;
        hidden = m.hidden;
        inline = m.inline;
        prerequisites = m.prerequisites;
        passing_score = m.passing_score;
        cooldown = apply_cooldown_defaults f m.cooldown;
        max_attempts_per_question = m.max_attempts_per_question;
        lock_on_max_attempts = m.lock_on_max_attempts;
        check_provider = m.check_provider;
        check_type = m.check_type;
        check_params = none;
        steps = none;
        questions = none;
        skills = m.skills;
      }

  unfoldable pub module_to_row : String → ℕ → Module f → Option (ModuleRow f)
  unfolding plain_row defaulted_questions
  module_to_row course position m =
      let questions = defaulted_questions names 0 m.questions in
      with_documents (plain_row course position m)
        (marshal_jsonb codecs.params (is_end m.check_params) m.check_params)
        (marshal_jsonb codecs.steps (is_empty m.steps) m.steps)
        (marshal_jsonb codecs.questions (is_empty questions) questions)

  unfoldable pub plain_module : ModuleRow f → Module f
  plain_module r = record {
    name = r.name;
    type = r.type;
    src = r.src;
    ref = r.ref;
    path = r.path;
    lab_url = r.lab_url;
    inline_content = r.inline_content;
    replication = r.replication;
    hidden = r.hidden;
    inline = r.inline;
    prerequisites = r.prerequisites;
    questions = [];
    passing_score = r.passing_score;
    cooldown = r.cooldown;
    max_attempts_per_question = r.max_attempts_per_question;
    lock_on_max_attempts = r.lock_on_max_attempts;
    check_provider = r.check_provider;
    check_type = r.check_type;
    check_params = end;
    steps = [];
    skills = r.skills;
  }

  unfoldable pub module_from_model : ModuleRow f → Option (Module f)
  unfolding plain_module
  module_from_model r =
      from_documents (plain_module r) (unmarshal_jsonb codecs.params end r.check_params)
        (unmarshal_jsonb codecs.steps [] r.steps) (unmarshal_jsonb codecs.questions [] r.questions)
