-- ===== src/Mapping/Courses.antt =====
-- Whole courses as rows: courseToModel and its children, and the reading of Get in
-- course-service/internal/repository/course.go. The rows come in the order in which they were stored;
-- the order of sessions by date is left to the query.
use elearning_platform.Prelude.{
  ℕ, suc, String, Bool, true, false, not, ◌&&◌, List, [], ◌∷◌, map, Option, none, some,
  if◌then◌else◌, str_eq, length,
}
use Prim.Native.String.{compare}
use Prim.Native.Nat.{Ordering}
use elearning_platform.Prelude.Int.{ℤ, pos}
use elearning_platform.Prelude.Float64.{Float64}
use elearning_platform.Content.Slug.{Unicode}
use elearning_platform.Content.Module.{CoursePrerequisite, Badge, Session, Module, Course}
use elearning_platform.Mapping.{Names, ModuleRow, or_text, module_to_row, module_from_model}
use elearning_platform.Mapping.Documents.{Codecs}
pub mod RoundTrip

pub record CourseRow : Type 0 where
  pub slug : String
  pub title : String
  pub description : String
  pub category : String
  pub difficulty : String
  pub public : Bool
  pub hidden : Bool
  pub scope : String
  pub xp_required : ℤ
  pub badge_name : String
  pub badge_icon : String
  pub in_person : Bool
  pub skills : List String

pub record PrerequisiteRow : Type 0 where
  pub course_slug : String
  pub required_course : String
  pub min_score : ℤ
  pub modules : List String

pub record SessionRow : Type 0 where
  pub course_slug : String
  pub session_id : String
  pub title : String
  pub date : String
  pub location : String
  pub capacity : ℤ

-- courseChildren, with the course.
pub record Rows (f : Float64) : Type 0 where
  pub course : CourseRow
  pub modules : List (ModuleRow f)
  pub prerequisites : List PrerequisiteRow
  pub sessions : List SessionRow

-- The set of skills, sorted: a text goes in once, in its place.
unfoldable pub insert_sorted : String → List String → List String
insert_sorted s [] = s ∷ []
insert_sorted s (t ∷ ts) =
    let rest = insert_sorted s ts in
    elim (compare s t) [ Ordering.lt ↦ s ∷ t ∷ ts | Ordering.eq ↦ t ∷ ts | Ordering.gt ↦ t ∷ rest ]

unfoldable pub insert_skills : List String → List String → List String
unfolding insert_sorted
insert_skills [] seen = seen
insert_skills (s ∷ ss) seen =
    let rest = insert_skills ss seen in if str_eq s "" then rest else insert_sorted s rest

unfoldable pub aggregate_skills : {f : Float64} → List (Module f) → List String
unfolding insert_skills
aggregate_skills [] = []
aggregate_skills (m ∷ ms) = insert_skills m.skills (aggregate_skills ms)

abbrev pub badge_name : Option Badge → String
badge_name none = ""
badge_name (some b) = b.name

abbrev pub badge_icon : Option Badge → String
badge_icon none = ""
badge_icon (some b) = b.icon

abbrev pub badge_of : String → String → Option Badge
badge_of name icon =
    if str_eq name "" && str_eq icon "" then none else some (record { name = name; icon = icon })

abbrev pub prerequisite_row : String → CoursePrerequisite → PrerequisiteRow
prerequisite_row course p = record {
  course_slug = course;
  required_course = p.course;
  min_score = p.min_score;
  modules = p.modules;
}

unfoldable pub prerequisites_to_model : String → List CoursePrerequisite → List PrerequisiteRow
prerequisites_to_model course [] = []
prerequisites_to_model course (p ∷ ps) =
    let rest = prerequisites_to_model course ps in
    if str_eq p.course "" then rest else prerequisite_row course p ∷ rest

abbrev pub prerequisite_from_model : PrerequisiteRow → CoursePrerequisite
prerequisite_from_model r = record {
  course = r.required_course;
  min_score = r.min_score;
  modules = r.modules;
}

abbrev pub session_row : String → Session → SessionRow
session_row course s = record {
  course_slug = course;
  session_id = s.id;
  title = s.title;
  date = s.date;
  location = s.location;
  capacity = s.capacity;
}

unfoldable pub sessions_to_model : String → List Session → List SessionRow
sessions_to_model course [] = []
sessions_to_model course (s ∷ ss) =
    let rest = sessions_to_model course ss in
    if str_eq s.id "" then rest else session_row course s ∷ rest

abbrev pub session_from_model : SessionRow → Session
session_from_model r = record {
  id = r.session_id;
  title = r.title;
  date = r.date;
  location = r.location;
  capacity = r.capacity;
}

abbrev pub cons_ok {ℓ} : {A : Type ℓ} → Option A → Option (List A) → Option (List A)
cons_ok none rest = none
cons_ok (some x) none = none
cons_ok (some x) (some xs) = some (x ∷ xs)

module _ (f : Float64) (unicode : Unicode) (names : Names) (codecs : Codecs) where
  unfoldable pub modules_to_model : String → ℕ → List (Module f) → Option (List (ModuleRow f))
  unfolding module_to_row
  modules_to_model course position [] = some []
  modules_to_model course position (m ∷ ms) =
      cons_ok (module_to_row f unicode names codecs course position m)
        (modules_to_model course (suc position) ms)

  unfoldable pub course_row : Course f → CourseRow
  unfolding aggregate_skills
  course_row c = record {
    slug = c.slug;
    title = or_text c.slug c.title;
    description = c.description;
    category = c.category;
    difficulty = c.difficulty;
    public = c.is_public;
    hidden = c.hidden;
    scope = c.scope;
    xp_required = c.xp_required;
    badge_name = badge_name c.badge;
    badge_icon = badge_icon c.badge;
    in_person = c.in_person;
    skills = aggregate_skills c.modules;
  }

  abbrev pub with_modules : Course f → Option (List (ModuleRow f)) → Option (Rows f)
  with_modules c none = none
  with_modules c (some rows) = some (record {
    course = course_row c;
    modules = rows;
    prerequisites = prerequisites_to_model c.slug c.prerequisites;
    sessions = sessions_to_model c.slug c.sessions;
  })

  unfoldable pub course_to_model : Course f → Option (Rows f)
  unfolding modules_to_model course_row prerequisites_to_model sessions_to_model
  course_to_model c = with_modules c (modules_to_model c.slug 0 c.modules)

  unfoldable pub course_from_model : CourseRow → Course f
  course_from_model r = record {
    slug = r.slug;
    title = r.title;
    description = r.description;
    category = r.category;
    difficulty = r.difficulty;
    is_public = r.public;
    hidden = r.hidden;
    prerequisites = [];
    modules = [];
    module_count = pos 0;
    skills = r.skills;
    scope = r.scope;
    badge = badge_of r.badge_name r.badge_icon;
    in_person = r.in_person;
    sessions = [];
    xp_required = r.xp_required;
  }

  unfoldable pub modules_from_model : List (ModuleRow f) → Option (List (Module f))
  unfolding module_from_model
  modules_from_model [] = some []
  modules_from_model (r ∷ rs) =
      cons_ok (module_from_model f unicode names codecs r) (modules_from_model rs)

  abbrev pub with_children : Rows f → Option (List (Module f)) → Option (Course f)
  with_children rows none = none
  with_children rows (some ms) = some (record (course_from_model rows.course) {
    modules = ms;
    module_count = pos (length ms);
    prerequisites = map prerequisite_from_model rows.prerequisites;
    sessions = map session_from_model rows.sessions;
  })

  unfoldable pub get_course : Rows f → Option (Course f)
  unfolding course_from_model modules_from_model
  get_course rows = with_children rows (modules_from_model rows.modules)
