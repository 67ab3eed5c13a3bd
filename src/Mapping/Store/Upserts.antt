-- ===== src/Mapping/Store/Upserts.antt =====
-- What an Upsert (course-service/internal/repository/course.go) does to the course, to the other courses
-- and to the sessions that are there.
use elearning_platform.Prelude.{
  String, Bool, subst, true, false, List, [], ◌∷◌, Option, none, some, ◌≡◌, refl, sym, ap, ◌∙◌, inl,
  inr, arith, Bool-cases, eq_iff, str_eq, find, if◌then◌else◌, ℕ, suc,
}
use elearning_platform.Prelude.Float64.{Float64}
use elearning_platform.Content.Slug.{Unicode}
use elearning_platform.Content.Module.{Module, Course}
use elearning_platform.Mapping.{Names, ModuleRow, module_to_row, plain_row, defaulted_questions}
use elearning_platform.Mapping.Documents.{Codecs, marshal_jsonb, is_end, is_empty}
use elearning_platform.Mapping.Courses.{
  CourseRow, PrerequisiteRow, SessionRow, Rows, course_row, prerequisites_to_model,
  sessions_to_model, modules_to_model, course_to_model,
}
use elearning_platform.Mapping.RoundTrip.{shape-with_documents}
use elearning_platform.Mapping.Courses.RoundTrip.{parts-cons_ok, or_rows, rows-with_modules}
use elearning_platform.Mapping.Store.Tables.{
  AllOf, AllOf-cons, owned-replace, owned-replace_other, find-put_course,
  prerequisites_to_model-AllOf, sessions_to_model-AllOf, session_exists-put_sessions,
  owned-put_sessions,
}
use elearning_platform.Mapping.Store.{
  write_rows, database, rejected, preload, StoreResult, stored, Catalogue, owned, replace,
  put_course, put_sessions, session_exists, replace_course_children, find_rows, upsert,
}

module _ (f : Float64) (unicode : Unicode) (names : Names) (codecs : Codecs) where
  course_slug-module_to_row :
      (course : String) (position : ℕ) (m : Module f) (row : ModuleRow f)
      → module_to_row f unicode names codecs course position m ≡ some row
      → row.course_slug ≡ course
  unfolding module_to_row
  course_slug-module_to_row course position m row h =
      let qs = defaulted_questions names 0 m.questions in
      let (p, s, q, hp, hs, hq, shape) =
        shape-with_documents (plain_row f unicode names codecs course position m) row
          (marshal_jsonb codecs.params (is_end m.check_params) m.check_params)
          (marshal_jsonb codecs.steps (is_empty m.steps) m.steps)
          (marshal_jsonb codecs.questions (is_empty qs) qs) h in
      sym (ap (λ r. r.course_slug) shape)

  modules_to_model-AllOf :
      (course : String) (position : ℕ) (ms : List (Module f)) (rows : List (ModuleRow f))
      → modules_to_model f unicode names codecs course position ms ≡ some rows
      → AllOf (λ r. r.course_slug) course rows
  unfolding modules_to_model
  modules_to_model-AllOf course position [] rows h =
      let empty_rows : [] ≡ rows = ground arith in
      subst (AllOf (λ r. r.course_slug) course) empty_rows (λ r m. absurd m)
  modules_to_model-AllOf course position (m ∷ ms) rows h =
      let (r, rs, hr, hrs, shape) =
        parts-cons_ok (module_to_row f unicode names codecs course position m)
          (modules_to_model f unicode names codecs course (suc position) ms) rows h in
      subst (AllOf (λ r. r.course_slug) course) shape (
        AllOf-cons (λ r. r.course_slug) course r rs
          (course_slug-module_to_row course position m r hr)
          (modules_to_model-AllOf course (suc position) ms rs hrs))

  -- The rows of a course bear its slug.
  record Owns (slug : String) (rows : Rows f) : Type 0 where
    own_course : rows.course.slug ≡ slug
    own_modules : AllOf (λ r. r.course_slug) slug rows.modules
    own_prerequisites : AllOf (λ r. r.course_slug) slug rows.prerequisites
    own_sessions : AllOf (λ r. r.course_slug) slug rows.sessions

  course_to_model-Owns :
      (c : Course f) (rows : Rows f)
      → course_to_model f unicode names codecs c ≡ some rows
      → Owns c.slug rows
  unfolding course_to_model course_row
  course_to_model-Owns c rows h =
      let (ms, hm, hr) =
        rows-with_modules f unicode names codecs c
          (modules_to_model f unicode names codecs c.slug 0 c.modules) rows h in
      let whole : Rows f = record {
        course = course_row f unicode names codecs c;
        modules = ms;
        prerequisites = prerequisites_to_model c.slug c.prerequisites;
        sessions = sessions_to_model c.slug c.sessions;
      } in
      let shape : whole ≡ rows = ap (or_rows f unicode names codecs whole) hr in
      subst (Owns c.slug) shape (record {
        own_course = refl;
        own_modules = modules_to_model-AllOf c.slug 0 c.modules ms hm;
        own_prerequisites = prerequisites_to_model-AllOf c.slug c.prerequisites;
        own_sessions = sessions_to_model-AllOf c.slug c.sessions;
      })

  abbrev or_catalogue : Catalogue f → StoreResult (Catalogue f) → Catalogue f
  or_catalogue t (stored u) = u
  or_catalogue t (rejected e) = t

  write_rows-stored :
      (refused : Rows f → Catalogue f → Bool) (slug : String) (t t' : Catalogue f)
      (o : Option (Rows f))
      → write_rows refused slug t o ≡ stored t'
      → (rows : Rows f) × (o ≡ some rows)
        × (replace_course_children slug rows
              (record t { courses = put_course rows.course t.courses })
            ≡ t')
  write_rows-stored refused slug t t' none h = cc h
  write_rows-stored refused slug t t' (some rows) h =
      let written =
        replace_course_children slug rows
          (record t { courses = put_course rows.course t.courses }) in
      elim (Bool-cases (refused rows t)) [
        | inl e ↦ cc (sym (ap (λ b. if b then rejected database else stored written) e) ∙ h)
        | inr e ↦ (
          rows,
          refl,
          ap (or_catalogue t)
              (sym (ap (λ b. if b then rejected database else stored written) e) ∙ h),
        )
      ]

  module _ (order : List SessionRow → List SessionRow) where
    -- The course's rows are the new ones, with the sessions of the table.
    find_rows-own :
        (slug : String) (rows : Rows f) (t : Catalogue f)
        → Owns slug rows
        → find_rows order slug (
            replace_course_children slug rows
              (record t { courses = put_course rows.course t.courses }))
          ≡ some (record rows {
            sessions =
                order (owned (λ r. r.course_slug) slug (put_sessions rows.sessions t.sessions));
          })
    unfolding find_rows replace_course_children
    find_rows-own slug rows t own =
        let found =
          find-put_course rows.course slug t.courses
          ∙ ap (λ b. if b then some rows.course else find (λ r. str_eq r.slug slug) t.courses)
              ((eq_iff rows.course.slug slug).1 own.own_course) in
        let sessions =
          order (owned (λ r. r.course_slug) slug (put_sessions rows.sessions t.sessions)) in
        let packed = λ (ms : List (ModuleRow f)) (ps : List PrerequisiteRow).
          some (record rows { modules = ms; prerequisites = ps; sessions = sessions }) in
        ap
          (preload order slug (
            replace_course_children slug rows
              (record t { courses = put_course rows.course t.courses })))
          found
        ∙ ap
            (λ ms. packed ms (
              owned (λ r. r.course_slug) slug
                (replace (λ r. r.course_slug) slug rows.prerequisites t.prerequisites)))
            (owned-replace (λ r. r.course_slug) slug rows.modules t.modules own.own_modules)
        ∙ ap (packed rows.modules) (
            owned-replace (λ r. r.course_slug) slug rows.prerequisites t.prerequisites
              own.own_prerequisites)

    preload-same :
        (slug : String) (new t : Catalogue f) (row : Option CourseRow)
        → owned (λ r. r.course_slug) slug new.modules ≡ owned (λ r. r.course_slug) slug t.modules
        → owned (λ r. r.course_slug) slug new.prerequisites
          ≡ owned (λ r. r.course_slug) slug t.prerequisites
        → owned (λ r. r.course_slug) slug new.sessions ≡ owned (λ r. r.course_slug) slug t.sessions
        → preload order slug new row ≡ preload order slug t row
    preload-same slug new t none m p s = refl
    preload-same slug new t (some row) m p s =
        let whole : List (ModuleRow f) → List PrerequisiteRow → List SessionRow → Option (Rows f) =
          λ ms ps ss.
            some (record { course = row; modules = ms; prerequisites = ps; sessions = order ss }) in
        ap
          (λ ms.
            whole ms (owned (λ r. r.course_slug) slug new.prerequisites)
              (owned (λ r. r.course_slug) slug new.sessions))
          m
        ∙ ap
            (λ ps.
              whole (owned (λ r. r.course_slug) slug t.modules) ps
                (owned (λ r. r.course_slug) slug new.sessions))
            p
        ∙ ap
            (whole (owned (λ r. r.course_slug) slug t.modules)
              (owned (λ r. r.course_slug) slug t.prerequisites))
            s

    -- The other courses are as before.
    find_rows-other :
        (slug other : String) (rows : Rows f) (t : Catalogue f)
        → Owns slug rows
        → str_eq slug other ≡ false
        → find_rows order other (
            replace_course_children slug rows
              (record t { courses = put_course rows.course t.courses }))
          ≡ find_rows order other t
    unfolding find_rows replace_course_children
    find_rows-other slug other rows t own n =
        let new =
          replace_course_children slug rows
            (record t { courses = put_course rows.course t.courses }) in
        let found =
          find-put_course rows.course other t.courses
          ∙ ap (λ b. if b then some rows.course else find (λ r. str_eq r.slug other) t.courses)
              (ap (λ k. str_eq k other) own.own_course ∙ n) in
        ap (preload order other new) found
        ∙ preload-same other new t (find (λ r. str_eq r.slug other) t.courses)
            (owned-replace_other (λ r. r.course_slug) slug other rows.modules t.modules
              own.own_modules n)
            (owned-replace_other (λ r. r.course_slug) slug other rows.prerequisites t.prerequisites
              own.own_prerequisites n)
            (owned-put_sessions slug other rows.sessions t.sessions own.own_sessions n)

    -- An Upsert that succeeds leaves the course with the rows of courseToModel, but for its sessions,
    -- which are those of the table; every other course is read as before, and every session that
    -- was in the table is still there.
    pub upsert-find_rows :
        (refused : Rows f → Catalogue f → Bool) (c : Course f) (t t' : Catalogue f)
        → upsert f unicode names codecs refused c t ≡ stored t'
        → ((rows : Rows f) × (course_to_model f unicode names codecs c ≡ some rows)
            × (find_rows order c.slug t'
                ≡ some (record rows {
                  sessions = order (owned (λ r. r.course_slug) c.slug t'.sessions);
                })))
          × ((other : String)
              → str_eq c.slug other ≡ false
              → find_rows order other t' ≡ find_rows order other t)
          × ((course id : String)
              → session_exists course id t.sessions ≡ true
              → session_exists course id t'.sessions ≡ true)
    unfolding upsert replace_course_children
    upsert-find_rows refused c t t' h =
        let (rows, e, shape) =
          write_rows-stored refused c.slug t t' (course_to_model f unicode names codecs c) h in
        let own = course_to_model-Owns c rows e in
        let new =
          replace_course_children c.slug rows
            (record t { courses = put_course rows.course t.courses }) in
        subst
          (λ u.
            ((r : Rows f) × (course_to_model f unicode names codecs c ≡ some r)
              × (find_rows order c.slug u
                  ≡ some (record r {
                    sessions = order (owned (λ x. x.course_slug) c.slug u.sessions);
                  })))
            × ((other : String)
                → str_eq c.slug other ≡ false
                → find_rows order other u ≡ find_rows order other t)
            × ((course id : String)
                → session_exists course id t.sessions ≡ true
                → session_exists course id u.sessions ≡ true))
          shape
          (
            (rows, e, find_rows-own c.slug rows t own),
            λ other n. find_rows-other c.slug other rows t own n,
            λ course id. session_exists-put_sessions course id rows.sessions t.sessions,
          )
