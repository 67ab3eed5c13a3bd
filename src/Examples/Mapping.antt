-- ===== src/Examples/Mapping.antt =====
-- A course with one module whose parameters are one JSON field, stored and read.
use elearning_platform.Prelude.{
  true, false, String, false, [], ◌∷◌, Option, none, some, ◌≡◌, refl, if◌then◌else◌, arith, str_eq,
}
use elearning_platform.Prelude.Int.{pos}
use elearning_platform.Prelude.FixedPoint.{fixed_point, fixed_point_laws}
use elearning_platform.Content.Module.{
  null, boolean, number, text, arr, obj, Fields, end, field, Course,
}
use elearning_platform.Mapping.{Names}
use elearning_platform.Mapping.Documents.{Codec, Codecs}
use elearning_platform.Mapping.RoundTrip.{CodecsLaws}
use elearning_platform.Mapping.Courses.{Rows, course_to_model, get_course}
use elearning_platform.Mapping.Store.{
  Catalogue, StoreResult, stored, rejected, upsert, find_rows, owned, session_exists,
}
use elearning_platform.Mapping.Store.Upserts.{upsert-find_rows}
use elearning_platform.Mapping.Courses.RoundTrip.{course_to_model-get_course}
use elearning_platform.Examples.Data.{ascii, lesson_module, course}

-- Objects with one null field, written as the field's name.
abbrev write_field : Fields → Option String
write_field (field k null end) = if str_eq k "" then none else some k
write_field fs = none

abbrev fields_codec : Codec Fields
fields_codec = record { marshal = write_field; unmarshal = λ k. some (field k null end) }

abbrev no_codec : {A : Type 0} → Codec A
no_codec = record { marshal = λ x. none; unmarshal = λ d. none }

abbrev codecs : Codecs
codecs = record { params = fields_codec; steps = no_codec; questions = no_codec }

write_key :
    (k d : String)
    → (if str_eq k "" then none else some k) ≡ some d
    → (str_eq d "" ≡ false) × (some (field d null end) ≡ some (field k null end))
write_key k d h = ground arith

fields_written :
    (x : Fields) (d : String)
    → write_field x ≡ some d
    → (str_eq d "" ≡ false) × (fields_codec.unmarshal d ≡ some x)
fields_written end d h = cc h
fields_written (field k null end) d h = write_key k d h
fields_written (field k null (field l v rest)) d h = cc h
fields_written (field k (boolean b) rest) d h = cc h
fields_written (field k (number n) rest) d h = cc h
fields_written (field k (text s) rest) d h = cc h
fields_written (field k (arr js) rest) d h = cc h
fields_written (field k (obj fs) rest) d h = cc h

codecs_laws : CodecsLaws codecs
codecs_laws = record {
  params = record {
    read_back = λ x. x;
    written = λ x d h. (fields_written x d h).0;
    read = λ x d h. (fields_written x d h).1;
    marshal_again = λ x. refl;
    empty_again = λ x. refl;
  };
  steps = record {
    read_back = λ x. x;
    written = λ x d h. cc h;
    read = λ x d h. cc h;
    marshal_again = λ x. refl;
    empty_again = λ x. refl;
  };
  questions = record { written = λ x d h. cc h; read = λ x d h. cc h };
}

abbrev names : Names
names = record { module_name = λ n. "module"; question_id = λ n. "q" }

abbrev small_course : Course fixed_point
small_course = record course {
  title = "";
  modules = record lesson_module { name = ""; check_params = field "branch" null end } ∷ [];
}

-- The rows, when there are any.
abbrev stored_rows : Option (Rows fixed_point) → Rows fixed_point
stored_rows none = record {
  course = record {
    slug = "";
    title = "";
    description = "";
    category = "";
    difficulty = "";
    public = false;
    hidden = false;
    scope = "";
    xp_required = pos 0;
    badge_name = "";
    badge_icon = "";
    in_person = false;
    skills = [];
  };
  modules = [];
  prerequisites = [];
  sessions = [];
}
stored_rows (some rows) = rows

abbrev small_rows : Rows fixed_point
small_rows = stored_rows (course_to_model fixed_point ascii names codecs small_course)

course_to_model-get_course_example :
    (d : Course fixed_point) × (get_course fixed_point ascii names codecs small_rows ≡ some d)
    × (course_to_model fixed_point ascii names codecs d ≡ some small_rows)
unfolding course_to_model
course_to_model-get_course_example =
    course_to_model-get_course fixed_point ascii names codecs fixed_point_laws codecs_laws
      small_course small_rows refl

-- A table with a session of the course.
abbrev small_catalogue : Catalogue fixed_point
small_catalogue = record {
  courses = [];
  modules = [];
  prerequisites = [];
  sessions =
      record {
        course_slug = "go";
        session_id = "s1";
        title = "";
        date = "";
        location = "";
        capacity = pos 3;
      }
      ∷ [];
}

abbrev catalogue_of : StoreResult (Catalogue fixed_point) → Catalogue fixed_point
catalogue_of (stored t) = t
catalogue_of (rejected e) = small_catalogue

abbrev full_catalogue : Catalogue fixed_point
full_catalogue =
    catalogue_of
      (upsert fixed_point ascii names codecs (λ rows t. false) small_course small_catalogue)

upsert-find_rows_example :
    ((rows : Rows fixed_point) × (course_to_model fixed_point ascii names codecs small_course
        ≡ some rows)
      × (find_rows (λ ss. ss) "go" full_catalogue
          ≡ some
              (record rows { sessions = owned (λ r. r.course_slug) "go" full_catalogue.sessions })))
    × ((other : String)
        → str_eq "go" other ≡ false
        → find_rows (λ ss. ss) other full_catalogue ≡ find_rows (λ ss. ss) other small_catalogue)
    × ((course id : String)
        → session_exists course id small_catalogue.sessions ≡ true
        → session_exists course id full_catalogue.sessions ≡ true)
unfolding upsert
upsert-find_rows_example =
    upsert-find_rows fixed_point ascii names codecs (λ ss. ss) (λ rows t. false) small_course
      small_catalogue full_catalogue refl
