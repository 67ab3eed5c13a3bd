-- ===== src/Mapping/Store.antt =====
-- The tables of the courses: Get, Create, Upsert, Delete, PutSession, DeleteSession and SessionExists of
-- course-service/internal/repository/course.go. What the database refuses and the order in which it
-- gives the sessions are parameters; deleting a course deletes what refers to it, by the constraints of
-- course-service/internal/models/course.go.
use elearning_platform.Prelude.{
  String, Bool, true, false, not, ◌&&◌, List, [], ◌∷◌, ◌++◌, Option, none, some, if◌then◌else◌,
  str_eq, keep, find, any,
}
use elearning_platform.Prelude.Float64.{Float64}
use elearning_platform.Content.Slug.{Unicode}
use elearning_platform.Content.Module.{Session, Course}
use elearning_platform.Mapping.{Names, ModuleRow}
use elearning_platform.Mapping.Documents.{Codecs}
use elearning_platform.Mapping.Courses.{
  CourseRow, PrerequisiteRow, SessionRow, Rows, session_row, course_to_model, get_course,
}
pub mod Tables
pub mod Upserts

-- ErrNotFound, ErrConflict, a document that encoding/json refuses, and an error of the database.
pub data StoreError : Type 0 where
  not_found : StoreError
  conflict : StoreError
  bad_document : StoreError
  database : StoreError

pub data StoreResult (A : Type 0) : Type 0 where
  stored : A → StoreResult A
  rejected : StoreError → StoreResult A

pub record Catalogue (f : Float64) : Type 0 where
  pub courses : List CourseRow
  pub modules : List (ModuleRow f)
  pub prerequisites : List PrerequisiteRow
  pub sessions : List SessionRow

module _ {A : Type 0} (key : A → String) where
  unfoldable pub owned : String → List A → List A
  owned slug t = keep (λ x. str_eq (key x) slug) t

  unfoldable pub without : String → List A → List A
  without slug t = keep (λ x. not (str_eq (key x) slug)) t

  -- The rows of the slug are deleted, and the new ones inserted.
  unfoldable pub replace : String → List A → List A → List A
  unfolding without
  replace slug new t = without slug t ++ new

abbrev pub is_session : String → String → SessionRow → Bool
is_session course id r = str_eq r.course_slug course && str_eq r.session_id id

-- ON CONFLICT (slug) DO UPDATE
unfoldable pub put_course : CourseRow → List CourseRow → List CourseRow
put_course row [] = row ∷ []
put_course row (r ∷ rs) = if str_eq r.slug row.slug then row ∷ rs else r ∷ put_course row rs

-- ON CONFLICT (course_slug, session_id) DO UPDATE
unfoldable pub put_session_row : SessionRow → List SessionRow → List SessionRow
put_session_row row [] = row ∷ []
put_session_row row (r ∷ rs) =
    if is_session row.course_slug row.session_id r then row ∷ rs else r ∷ put_session_row row rs

unfoldable pub put_sessions : List SessionRow → List SessionRow → List SessionRow
unfolding put_session_row
put_sessions [] t = t
put_sessions (s ∷ ss) t = put_sessions ss (put_session_row s t)

unfoldable pub session_exists : String → String → List SessionRow → Bool
session_exists course id t = any (is_session course id) t

abbrev pub course_exists : String → List CourseRow → Bool
course_exists slug t = any (λ r. str_eq r.slug slug) t

module _ {f : Float64} where
  unfoldable pub replace_course_children : String → Rows f → Catalogue f → Catalogue f
  unfolding replace put_sessions
  replace_course_children slug rows t = record t {
    modules = replace (λ r. r.course_slug) slug rows.modules t.modules;
    prerequisites = replace (λ r. r.course_slug) slug rows.prerequisites t.prerequisites;
    sessions = put_sessions rows.sessions t.sessions;
  }

  -- The transaction of Upsert; `refused` is whether one of its statements fails.
  abbrev pub write_rows :
      (Rows f → Catalogue f → Bool)
      → String
      → Catalogue f
      → Option (Rows f)
      → StoreResult (Catalogue f)
  write_rows refused slug t none = rejected bad_document
  write_rows refused slug t (some rows) =
      if refused rows t
      then rejected database
      else stored (
          replace_course_children slug rows
            (record t { courses = put_course rows.course t.courses }))

  unfoldable pub delete_course : Bool → String → Catalogue f → StoreResult (Catalogue f)
  unfolding without
  delete_course outage slug t =
      if outage
      then rejected database
      else if course_exists slug t.courses
      then stored (record {
        courses = without (λ r. r.slug) slug t.courses;
        modules = without (λ r. r.course_slug) slug t.modules;
        prerequisites = without (λ r. r.course_slug) slug t.prerequisites;
        sessions = without (λ r. r.course_slug) slug t.sessions;
      })
      else rejected not_found

  -- `outage` is whether the count or the write fails.
  unfoldable pub put_session : Bool → String → Session → Catalogue f → StoreResult (Catalogue f)
  unfolding put_session_row
  put_session outage course s t =
      if outage
      then rejected database
      else if course_exists course t.courses
      then stored (record t { sessions = put_session_row (session_row course s) t.sessions })
      else rejected not_found

  unfoldable pub delete_session : Bool → String → String → Catalogue f → StoreResult (Catalogue f)
  unfolding session_exists
  delete_session outage course id t =
      if outage
      then rejected database
      else if session_exists course id t.sessions
      then stored (record t { sessions = keep (λ r. not (is_session course id r)) t.sessions })
      else rejected not_found

  module _ (order : List SessionRow → List SessionRow) where
    abbrev pub preload : String → Catalogue f → Option CourseRow → Option (Rows f)
    preload slug t none = none
    preload slug t (some row) = some (record {
      course = row;
      modules = owned (λ r. r.course_slug) slug t.modules;
      prerequisites = owned (λ r. r.course_slug) slug t.prerequisites;
      sessions = order (owned (λ r. r.course_slug) slug t.sessions);
    })

    -- First, with its Preload clauses.
    unfoldable pub find_rows : String → Catalogue f → Option (Rows f)
    unfolding owned
    find_rows slug t = preload slug t (find (λ r. str_eq r.slug slug) t.courses)

module _ (f : Float64) (unicode : Unicode) (names : Names) (codecs : Codecs) where
  unfoldable pub upsert :
      (Rows f → Catalogue f → Bool) → Course f → Catalogue f → StoreResult (Catalogue f)
  unfolding course_to_model put_course replace_course_children
  upsert refused c t = write_rows refused c.slug t (course_to_model f unicode names codecs c)

  -- `outage` is whether the count fails.
  unfoldable pub create_course :
      Bool → (Rows f → Catalogue f → Bool) → Course f → Catalogue f → StoreResult (Catalogue f)
  unfolding upsert
  create_course outage refused c t =
      if outage
      then rejected database
      else if course_exists c.slug t.courses
      then rejected conflict
      else upsert refused c t
