-- ===== src/Mapping/Courses/RoundTrip.antt =====
-- A course that is stored, read and stored again gives the same rows.
use elearning_platform.Prelude.{
  ℕ, suc, String, List, [], ◌∷◌, map, Option, none, some, str_eq, length, ◌≡◌, refl, sym, ap, ◌∙◌,
  inl, inr, arith, Bool-cases, eq_iff,
}
use elearning_platform.Prelude.Int.{pos}
use elearning_platform.Prelude.Float64.{Float64, Float64Laws}
use elearning_platform.Content.Slug.{Unicode}
use elearning_platform.Content.Module.{CoursePrerequisite, Badge, Session, Module, Course}
use elearning_platform.Mapping.{Names, ModuleRow, or_text, module_to_row}
use elearning_platform.Mapping.Documents.{Codecs}
use elearning_platform.Mapping.Defaults.{or_text_idem}
use elearning_platform.Mapping.RoundTrip.{
  CodecsLaws, stored_module, module_from_model-module_to_row,
}
use elearning_platform.Mapping.Courses.{
  CourseRow, PrerequisiteRow, SessionRow, Rows, insert_skills, aggregate_skills, badge_name,
  badge_icon, badge_of, prerequisite_row, session_row, prerequisites_to_model,
  prerequisite_from_model, sessions_to_model, session_from_model, cons_ok, modules_to_model,
  course_row, with_modules, course_to_model, modules_from_model, with_children, get_course,
}

prerequisites_again :
    (course : String) (ps : List CoursePrerequisite)
    → prerequisites_to_model course (map prerequisite_from_model (prerequisites_to_model course ps))
      ≡ prerequisites_to_model course ps
unfolding prerequisites_to_model
prerequisites_again course [] = refl
prerequisites_again course (p ∷ ps) = elim (Bool-cases (str_eq p.course "")) [
  | inl e ↦ rw e (prerequisites_again course ps)
  | inr e ↦ rw (e, e) (ap (λ rs. prerequisite_row course p ∷ rs) (prerequisites_again course ps))
]

sessions_again :
    (course : String) (ss : List Session)
    → sessions_to_model course (map session_from_model (sessions_to_model course ss))
      ≡ sessions_to_model course ss
unfolding sessions_to_model
sessions_again course [] = refl
sessions_again course (s ∷ ss) = elim (Bool-cases (str_eq s.id "")) [
  | inl e ↦ rw e (sessions_again course ss)
  | inr e ↦ rw (e, e) (ap (λ rs. session_row course s ∷ rs) (sessions_again course ss))
]

badge_again :
    (b : Option Badge)
    → (badge_name (badge_of (badge_name b) (badge_icon b)) ≡ badge_name b)
      × (badge_icon (badge_of (badge_name b) (badge_icon b)) ≡ badge_icon b)
badge_again none = (refl, refl)
badge_again (some b) = elim (Bool-cases (str_eq b.name "")) [
  | inl e ↦ elim (Bool-cases (str_eq b.icon "")) [
    | inl k ↦ rw (e, k) (sym ((eq_iff b.name "").0 e), sym ((eq_iff b.icon "").0 k))
    | inr k ↦ rw (e, k) (refl, refl)
  ]
  | inr e ↦ rw e (refl, refl)
]

module _ {A : Type 0} where
  pub parts-cons_ok :
      (a : Option A) (rest : Option (List A)) (out : List A)
      → cons_ok a rest ≡ some out
      → (x : A) × (xs : List A) × (a ≡ some x) × (rest ≡ some xs) × (x ∷ xs ≡ out)
  parts-cons_ok none rest out h = cc h
  parts-cons_ok (some x) none out h = cc h
  parts-cons_ok (some x) (some xs) out h = (x, xs, refl, refl, ground arith)

module _ (f : Float64) (unicode : Unicode) (names : Names) (codecs : Codecs) where
  abbrev pub or_rows : Rows f → Option (Rows f) → Rows f
  or_rows rows none = rows
  or_rows rows (some r) = r

  pub rows-with_modules :
      (c : Course f) (o : Option (List (ModuleRow f))) (out : Rows f)
      → with_modules f unicode names codecs c o ≡ some out
      → (ms : List (ModuleRow f)) × (o ≡ some ms)
        × (with_modules f unicode names codecs c (some ms) ≡ some out)
  rows-with_modules c none out h = cc h
  rows-with_modules c (some ms) out h = (ms, refl, h)

  module _ (laws : CodecsLaws codecs) where
    abbrev stored_modules : ℕ → List (Module f) → List (Module f)
    stored_modules position [] = []
    stored_modules position (m ∷ ms) =
        stored_module f unicode names codecs laws position m ∷ stored_modules (suc position) ms

    skills_again :
        (position : ℕ) (ms : List (Module f))
        → aggregate_skills (stored_modules position ms) ≡ aggregate_skills ms
    unfolding aggregate_skills
    skills_again position [] = refl
    skills_again position (m ∷ ms) = ap (insert_skills m.skills) (skills_again (suc position) ms)

  module _ (float_laws : Float64Laws f) (laws : CodecsLaws codecs) where
    modules_again :
        (course : String) (position : ℕ) (ms : List (Module f)) (rows : List (ModuleRow f))
        → modules_to_model f unicode names codecs course position ms ≡ some rows
        → (modules_from_model f unicode names codecs rows ≡ some (stored_modules laws position ms))
          × (modules_to_model f unicode names codecs course position
                (stored_modules laws position ms)
              ≡ some rows)
    unfolding modules_to_model modules_from_model
    modules_again course position [] rows h =
        let empty_rows : [] ≡ rows = ground arith in
        (ap (modules_from_model f unicode names codecs) (sym empty_rows), h)
    modules_again course position (m ∷ ms) rows h =
        let (r, rs, hr, hrs, shape) =
          parts-cons_ok (module_to_row f unicode names codecs course position m)
            (modules_to_model f unicode names codecs course (suc position) ms) rows h in
        let (a, b) =
          module_from_model-module_to_row f unicode names codecs float_laws laws course position m r
            hr in
        let (c, d) = modules_again course (suc position) ms rs hrs in
        let stored = stored_module f unicode names codecs laws position m in
        let later = stored_modules laws (suc position) ms in
        (
          ap (modules_from_model f unicode names codecs) (sym shape)
              ∙ ap (λ x. cons_ok x (modules_from_model f unicode names codecs rs)) a
              ∙ ap (cons_ok (some stored)) c,
          ap (λ x. cons_ok x (modules_to_model f unicode names codecs course (suc position) later))
                b
              ∙ ap (cons_ok (some r)) d
              ∙ ap some shape,
        )

    -- The course with its defaults, as it is read.
    abbrev pub stored_course : Course f → Course f
    stored_course c = record c {
      title = or_text c.slug c.title;
      prerequisites = map prerequisite_from_model (prerequisites_to_model c.slug c.prerequisites);
      sessions = map session_from_model (sessions_to_model c.slug c.sessions);
      modules = stored_modules laws 0 c.modules;
      module_count = pos (length (stored_modules laws 0 c.modules));
      skills = aggregate_skills c.modules;
      badge = badge_of (badge_name c.badge) (badge_icon c.badge);
    }

    course_row_again :
        (c : Course f)
        → course_row f unicode names codecs (stored_course c) ≡ course_row f unicode names codecs c
    unfolding course_row
    course_row_again c =
        let shaped = λ (title : String) (name : String) (icon : String) (skills : List String).
          record (course_row f unicode names codecs c) {
            title = title;
            badge_name = name;
            badge_icon = icon;
            skills = skills;
          } in
        let title = or_text c.slug c.title in
        let badge = badge_of (badge_name c.badge) (badge_icon c.badge) in
        let (name, icon) = badge_again c.badge in
        let skills = aggregate_skills (stored_modules laws 0 c.modules) in
        ap (λ x. shaped x (badge_name badge) (badge_icon badge) skills)
          (or_text_idem c.slug c.title)
        ∙ ap (λ x. shaped title x (badge_icon badge) skills) name
        ∙ ap (λ x. shaped title (badge_name c.badge) x skills) icon
        ∙ ap (shaped title (badge_name c.badge) (badge_icon c.badge))
            (skills_again laws 0 c.modules)

    -- A course that is stored can be read, and storing the course that was read gives the same rows,
    -- if what encoding/json reads of its own documents is written as before, `float64` has its laws
    -- and the rows are read in the order stored.
    pub course_to_model-get_course :
        (c : Course f) (rows : Rows f)
        → course_to_model f unicode names codecs c ≡ some rows
        → (d : Course f) × (get_course f unicode names codecs rows ≡ some d)
          × (course_to_model f unicode names codecs d ≡ some rows)
    unfolding course_to_model get_course
    course_to_model-get_course c rows h =
        let (ms, hm, hr) =
          rows-with_modules c (modules_to_model f unicode names codecs c.slug 0 c.modules) rows h in
        let (a, b) = modules_again c.slug 0 c.modules ms hm in
        let packed =
          λ (r : CourseRow) (ps : List PrerequisiteRow) (ss : List SessionRow) (out : Rows f).
            record out { course = r; modules = ms; prerequisites = ps; sessions = ss } in
        let d = stored_course c in
        let row = course_row f unicode names codecs c in
        let ps = prerequisites_to_model c.slug c.prerequisites in
        let ss = sessions_to_model c.slug c.sessions in
        let whole = packed row ps ss rows in
        let shape : whole ≡ rows = ap (or_rows rows) hr in
        (
          d,
          ap (get_course f unicode names codecs) (sym shape)
              ∙ ap (with_children f unicode names codecs whole) a,
          ap (with_modules f unicode names codecs d) b
              ∙ ap
                  (λ x. some (
                    packed x (prerequisites_to_model c.slug d.prerequisites)
                      (sessions_to_model c.slug d.sessions) rows))
                  (course_row_again c)
              ∙ ap (λ x. some (packed row x (sessions_to_model c.slug d.sessions) rows))
                  (prerequisites_again c.slug c.prerequisites)
              ∙ ap (λ x. some (packed row ps x rows)) (sessions_again c.slug c.sessions)
              ∙ ap some shape,
        )
