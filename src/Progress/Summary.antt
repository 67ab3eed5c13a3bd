-- ===== src/Progress/Summary.antt =====
-- A passed module counts for its course: `RecordProgress`, `ListByUserCourses` and
-- `summarizeCourseProgress` together.
use elearning_platform.Prelude.{
  ◌≡◌, refl, ◌∙◌, String, Bool, true, false, ◌&&◌, ◌||◌, List, [], ◌∷◌, ◌++◌, none, some, arith,
  str_eq, contains, eq_refl, length, any, Option-cases, inl, inr,
}
use elearning_platform.Prelude.Int.{pos}
use elearning_platform.Prelude.Table.{get}
use elearning_platform.Progress.History.{
  record_all, merge_all, merge_all-module_slug, merge_first-IsHistory, get-record_first,
}
use elearning_platform.Progress.Rows.{
  ProgressKey, ModuleProgress, Result, Progress, CourseProgressSummary, progress_key_eq, key_eq_iff,
  merge_result, list_by_user_course, add_row, add_rows, summarize_course_progress,
}

contains-append :
    (xs ys : List String) (s : String) → contains (xs ++ ys) s ≡ (contains xs s || contains ys s)
contains-append [] ys s = refl
contains-append (x ∷ xs) ys s = ground (arith, contains-append xs ys s)

-- A passed row with the slug.
abbrev passed_as : String → ModuleProgress → Bool
passed_as slug p = p.passed && (elim p.module_slug [ none ↦ false | some s ↦ str_eq s slug ])

contains-add_row :
    (s : CourseProgressSummary) (row : ModuleProgress) (slug : String)
    → contains (add_row s row).passed_modules slug
      ≡ (contains s.passed_modules slug || passed_as slug row)
unfolding add_row
contains-add_row s row slug = elim (Option-cases row.module_slug) [
  | inl e ↦ ground (arith, e)
  | inr (named, e) ↦ ground (arith, e, contains-append s.passed_modules (named ∷ []) slug)
]

contains-add_rows :
    (s : CourseProgressSummary) (rows : List ModuleProgress) (slug : String)
    → contains (add_rows s rows).passed_modules slug
      ≡ (contains s.passed_modules slug || any (passed_as slug) rows)
unfolding add_rows
contains-add_rows s [] slug = ground arith
contains-add_rows s (row ∷ rows) slug =
    ground (arith, contains-add_rows (add_row s row) rows slug, contains-add_row s row slug)

any-list_by_user_course :
    (k : ProgressKey) (p : ModuleProgress) (slug : String) (t : Progress)
    → get progress_key_eq k t ≡ some p
    → passed_as slug p ≡ true
    → any (passed_as slug) (list_by_user_course k.user_id k.course_slug t) ≡ true
unfolding list_by_user_course get
any-list_by_user_course k p slug [] h e = cc
any-list_by_user_course k p slug ((j, w) ∷ t) h e = ground (
  arith,
  any-list_by_user_course k p slug t,
  key_eq_iff j k,
  eq_refl k.user_id,
  eq_refl k.course_slug,
)

-- Once one of the results recorded for a module is a pass, the summary of the course lists the slug
-- that its first result named, where that slug is not empty, the module had no row before, and the
-- database accepts the statements.
pub record_all-passed :
    (k : ProgressKey) (r : Result) (rs : List Result) (t : Progress) (viewed : List String)
    → get progress_key_eq k t ≡ none
    → str_eq r.module_slug "" ≡ false
    → any (λ x. x.passed) (r ∷ rs) ≡ true
    → (t' : Progress) × (record_all k (r ∷ rs) t ≡ some t')
      × (contains
            (summarize_course_progress
              (list_by_user_course k.user_id k.course_slug t')
              viewed).passed_modules
            r.module_slug
          ≡ true)
unfolding summarize_course_progress merge_result
record_all-passed k r rs t viewed fresh named passed =
    let (t', run, mine, _) = get-record_first k r rs t fresh in
    let p = merge_all (merge_result none r) rs in
    let slug_kept : p.module_slug ≡ some r.module_slug =
      merge_all-module_slug (merge_result none r) rs r.module_slug (ground arith) in
    let history = (merge_first-IsHistory r rs).passed in
    let listed =
      any-list_by_user_course k p r.module_slug t' mine
        (ground (arith, slug_kept, history, passed, eq_refl r.module_slug)) in
    let none_yet : CourseProgressSummary = record {
      total_score = pos 0;
      passed_modules = [];
      viewed_count = length viewed;
    } in
    (
      t',
      run,
      contains-add_rows none_yet (list_by_user_course k.user_id k.course_slug t') r.module_slug
          ∙ listed,
    )
