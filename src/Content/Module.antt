-- ===== src/Content/Module.antt =====
-- Courses and modules: course-service/internal/content/types.go.
use elearning_platform.Prelude.{
  String, Bool, true, false, not, ◌&&◌, List, [], ◌∷◌, Option, if◌then◌else◌, str_eq,
}
use elearning_platform.Prelude.Int.{ℤ}
use elearning_platform.Prelude.Float64.{Float64}
use elearning_platform.Content.Quiz.{CooldownSpec, Question}
use elearning_platform.Content.Slug.{Unicode, slugify_module_name}

pub record CoursePrerequisite : Type 0 where
  pub course : String
  pub min_score : ℤ
  pub modules : List String

pub record Badge : Type 0 where
  pub name : String
  pub icon : String

pub record Session : Type 0 where
  pub id : String
  pub title : String
  pub date : String
  pub location : String
  pub capacity : ℤ

-- A JSON value, as `any` holds it after decoding; a number stays in its text.
mutual
  pub data Json : Type 0 where
    null : Json
    boolean : Bool → Json
    number : String → Json
    text : String → Json
    arr : Items → Json
    obj : Fields → Json

  pub data Items : Type 0 where
    nil : Items
    cons : Json → Items → Items

  pub data Fields : Type 0 where
    end : Fields
    field : String → Json → Fields → Fields

pub record CheckStep : Type 0 where
  pub title : String
  pub check_type : String
  pub check_params : Fields

pub record Module (f : Float64) : Type 0 where
  pub name : String
  pub type : String
  pub src : String
  pub ref : String
  pub path : String
  pub lab_url : String
  pub inline_content : String
  pub replication : Bool
  pub hidden : Bool
  pub inline : Bool
  pub prerequisites : List String
  pub questions : List Question
  pub passing_score : ℤ
  pub cooldown : CooldownSpec f
  pub max_attempts_per_question : Option ℤ
  pub lock_on_max_attempts : Bool
  pub check_provider : String
  pub check_type : String
  pub check_params : Fields
  pub steps : List CheckStep
  pub skills : List String

pub record Course (f : Float64) : Type 0 where
  pub slug : String
  pub title : String
  pub description : String
  pub category : String
  pub difficulty : String
  pub is_public : Bool
  pub hidden : Bool
  pub prerequisites : List CoursePrerequisite
  pub modules : List (Module f)
  pub module_count : ℤ
  pub skills : List String
  pub scope : String
  pub badge : Option Badge
  pub in_person : Bool
  pub sessions : List Session
  pub xp_required : ℤ

abbrev pub module_type_video : String
module_type_video = "video"

abbrev pub module_type_image : String
module_type_image = "image"

abbrev pub module_type_lab : String
module_type_lab = "lab"

abbrev pub module_type_quiz : String
module_type_quiz = "quiz"

abbrev pub module_type_text : String
module_type_text = "text"

-- `s != ""`
abbrev pub is_set : String → Bool
is_set s = not (str_eq s "")

abbrev pub nonempty {ℓ} : {A : Type ℓ} → List A → Bool
nonempty [] = false
nonempty (x ∷ xs) = true

module _ {f : Float64} where
  -- `Module.Slug`
  unfoldable pub slug : Unicode → Module f → String
  slug u m = slugify_module_name u m.name

  -- `Module.Content`
  unfoldable pub content : Module f → String
  content m =
      if str_eq m.type module_type_video
      then m.src
      else if str_eq m.type module_type_image
      then m.src
      else if str_eq m.type module_type_lab
      then if is_set m.inline_content then m.inline_content else m.src
      else m.inline_content

  unfoldable pub has_questions : Module f → Bool
  has_questions m = str_eq m.type module_type_quiz && nonempty m.questions

  unfoldable pub has_git_content : Module f → Bool
  has_git_content m = is_set m.src && is_set m.ref && is_set m.path
