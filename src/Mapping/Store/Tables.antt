-- ===== src/Mapping/Store/Tables.antt =====
-- The rows of one course and of the others, after the writes of an Upsert (course.go).
use elearning_platform.Prelude.{
  String, Bool, true, false, List, [], ◌∷◌, some, ◌≡◌, refl, sym, ap, ◌∙◌, inl, inr, arith,
  Bool-cases, eq_iff, str_eq, find, if◌then◌else◌,
}
use elearning_platform.Prelude.Members.{Member}
use elearning_platform.Content.Module.{CoursePrerequisite, Session}
use elearning_platform.Mapping.Courses.{
  CourseRow, SessionRow, prerequisite_row, session_row, prerequisites_to_model, sessions_to_model,
}
use elearning_platform.Mapping.Store.{
  owned, replace, put_course, put_session_row, put_sessions, session_exists,
}

module _ {A : Type 0} (key : A → String) where
  abbrev pub AllOf : String → List A → Type 0
  AllOf slug xs = (x : A) → Member x xs → key x ≡ slug

  pub AllOf-cons :
      (slug : String) (x : A) (xs : List A) → key x ≡ slug → AllOf slug xs → AllOf slug (x ∷ xs)
  AllOf-cons slug x xs e h y (inl same) = sym (ap key same) ∙ e
  AllOf-cons slug x xs e h y (inr m) = h y m

  AllOf-skip :
      (slug : String) (x : A) (xs : List A) (b : Bool)
      → key x ≡ slug
      → AllOf slug xs
      → AllOf slug (if b then xs else x ∷ xs)
  AllOf-skip slug x xs true e h = h
  AllOf-skip slug x xs false e h = AllOf-cons slug x xs e h

  owned_own : (slug : String) (xs : List A) → AllOf slug xs → owned key slug xs ≡ xs
  unfolding owned
  owned_own slug [] h = refl
  owned_own slug (x ∷ xs) h =
      ground (arith, h x (inl refl), eq_iff (key x) slug, owned_own slug xs (λ y m. h y (inr m)))

  owned_other :
      (slug other : String) (xs : List A)
      → AllOf slug xs
      → str_eq slug other ≡ false
      → owned key other xs ≡ []
  unfolding owned
  owned_other slug other [] h n = refl
  owned_other slug other (x ∷ xs) h n =
      let rest = owned_other slug other xs (λ y m. h y (inr m)) n in
      let differs = ap (λ k. str_eq k other) (h x (inl refl)) ∙ n in rw differs rest

  pub owned-replace :
      (slug : String) (new t : List A)
      → AllOf slug new
      → owned key slug (replace key slug new t) ≡ new
  unfolding owned replace
  owned-replace slug new [] h = owned_own slug new h
  owned-replace slug new (x ∷ t) h = elim (Bool-cases (str_eq (key x) slug)) [
    | inl e ↦ rw e (owned-replace slug new t h)
    | inr e ↦ rw (e, e) (owned-replace slug new t h)
  ]

  pub owned-replace_other :
      (slug other : String) (new t : List A)
      → AllOf slug new
      → str_eq slug other ≡ false
      → owned key other (replace key slug new t) ≡ owned key other t
  unfolding owned replace
  owned-replace_other slug other new [] h n = owned_other slug other new h n
  owned-replace_other slug other new (x ∷ t) h n =
      let rest = owned-replace_other slug other new t h n in
      elim (Bool-cases (str_eq (key x) slug)) [
        | inl e ↦
            let differs : str_eq (key x) other ≡ false = ground (arith, eq_iff (key x) slug) in
            rw (e, differs) rest
        | inr e ↦ elim (Bool-cases (str_eq (key x) other)) [
          | inl k ↦ rw (e, k) (ap (λ xs. x ∷ xs) rest)
          | inr k ↦ rw (e, k) rest
        ]
      ]

pub find-put_course :
    (row : CourseRow) (slug : String) (t : List CourseRow)
    → find (λ r. str_eq r.slug slug) (put_course row t)
      ≡ (if str_eq row.slug slug then some row else find (λ r. str_eq r.slug slug) t)
unfolding put_course
find-put_course row slug [] = refl
find-put_course row slug (r ∷ t) = ground (
  arith,
  eq_iff r.slug row.slug,
  eq_iff row.slug slug,
  eq_iff r.slug slug,
  find-put_course row slug t,
)

pub prerequisites_to_model-AllOf :
    (course : String) (ps : List CoursePrerequisite)
    → AllOf (λ r. r.course_slug) course (prerequisites_to_model course ps)
unfolding prerequisites_to_model
prerequisites_to_model-AllOf course [] = λ r m. absurd m
prerequisites_to_model-AllOf course (p ∷ ps) =
    AllOf-skip (λ r. r.course_slug) course (prerequisite_row course p)
      (prerequisites_to_model course ps) (str_eq p.course "") refl
      (prerequisites_to_model-AllOf course ps)

pub sessions_to_model-AllOf :
    (course : String) (ss : List Session)
    → AllOf (λ r. r.course_slug) course (sessions_to_model course ss)
unfolding sessions_to_model
sessions_to_model-AllOf course [] = λ r m. absurd m
sessions_to_model-AllOf course (s ∷ ss) =
    AllOf-skip (λ r. r.course_slug) course (session_row course s) (sessions_to_model course ss)
      (str_eq s.id "") refl (sessions_to_model-AllOf course ss)

-- Upserting a row keeps the session rows of the other keys.
session_exists-put_session_row :
    (course id : String) (row : SessionRow) (t : List SessionRow)
    → session_exists course id t ≡ true
    → session_exists course id (put_session_row row t) ≡ true
unfolding session_exists put_session_row
session_exists-put_session_row course id row [] h = cc h
session_exists-put_session_row course id row (r ∷ t) h = ground (
  arith,
  eq_iff r.course_slug row.course_slug,
  eq_iff r.session_id row.session_id,
  session_exists-put_session_row course id row t,
)

pub session_exists-put_sessions :
    (course id : String) (rows t : List SessionRow)
    → session_exists course id t ≡ true
    → session_exists course id (put_sessions rows t) ≡ true
unfolding put_sessions
session_exists-put_sessions course id [] t h = h
session_exists-put_sessions course id (r ∷ rows) t h =
    session_exists-put_sessions course id rows (put_session_row r t)
      (session_exists-put_session_row course id r t h)

owned-put_session_row :
    (row : SessionRow) (other : String) (t : List SessionRow)
    → str_eq row.course_slug other ≡ false
    → owned (λ r. r.course_slug) other (put_session_row row t) ≡ owned (λ r. r.course_slug) other t
unfolding owned put_session_row
owned-put_session_row row other [] n = rw n refl
owned-put_session_row row other (r ∷ t) n = ground (
  arith,
  eq_iff r.course_slug row.course_slug,
  eq_iff r.course_slug other,
  owned-put_session_row row other t n,
)

pub owned-put_sessions :
    (slug other : String) (rows t : List SessionRow)
    → AllOf (λ r. r.course_slug) slug rows
    → str_eq slug other ≡ false
    → owned (λ r. r.course_slug) other (put_sessions rows t) ≡ owned (λ r. r.course_slug) other t
unfolding put_sessions
owned-put_sessions slug other [] t h n = refl
owned-put_sessions slug other (r ∷ rows) t h n =
    owned-put_sessions slug other rows (put_session_row r t) (λ x m. h x (inr m)) n
    ∙ owned-put_session_row r other t (ap (λ k. str_eq k other) (h r (inl refl)) ∙ n)
