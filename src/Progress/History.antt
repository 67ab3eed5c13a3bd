-- ===== src/Progress/History.antt =====
-- A module's row against the results recorded for it: `RecordProgress` of
-- user-service/internal/repository/module_progress.go.
use elearning_platform.Prelude.{
  ◌+◌, ◌≡◌, ◌↔◌, ◌⊎◌, inl, inr, refl, sym, Bool, true, false, ◌||◌, List, [], ◌∷◌, String, Option,
  none, some, arith, if◌then◌else◌, length, any, All, ◌∙◌, ap,
}
use elearning_platform.Prelude.Int.{◌≤ℤ◌, eqb_ℤ, eqb_ℤ_iff}
use elearning_platform.Prelude.Table.{get, put, get-put}
use elearning_platform.Progress.Rows.{
  ProgressKey, ModuleProgress, Result, Progress, progress_key_eq, key_eq, key_eq_iff, merge_result,
  record_progress,
}

-- Results recorded one after another for one key, where the database accepts each of them.
unfoldable pub record_all : ProgressKey → List Result → Progress → Option Progress
record_all k [] t = some t
record_all k (r ∷ rs) t = elim (record_progress false k r t) [
  | none ↦ none
  | some t' ↦ record_all k rs t'
]

-- The row that results leave, from the row before them.
abbrev pub merge_all : ModuleProgress → List Result → ModuleProgress
merge_all p [] = p
merge_all p (r ∷ rs) = merge_all (merge_result (some p) r) rs

-- A row that tells the history of the results behind it: their number, whether one passed, the best
-- of the scores, and a time of completion exactly where one passed.
pub record IsHistory (p : ModuleProgress) (rs : List Result) : Type 0 where
  pub attempts : p.attempts ≡ length rs
  pub passed : p.passed ≡ any (λ r. r.passed) rs
  pub at_least : All (λ r. r.score ≤ℤ p.best_score) rs
  pub attained : any (λ r. eqb_ℤ r.score p.best_score) rs ≡ true
  pub completed : (p.completed_at ≡ none) ↔ (p.passed ≡ false)

abbrev CompletedIffPassed : ModuleProgress → Type 0
CompletedIffPassed p = (p.completed_at ≡ none) ↔ (p.passed ≡ false)

merge_result-completed :
    (p : ModuleProgress) (r : Result)
    → CompletedIffPassed p
    → CompletedIffPassed (merge_result (some p) r)
unfolding merge_result
merge_result-completed p r h = (λ e. ground arith, λ e. ground arith)

merge_all-completed :
    (p : ModuleProgress) (rs : List Result)
    → CompletedIffPassed p
    → CompletedIffPassed (merge_all p rs)
merge_all-completed p [] h = h
merge_all-completed p (r ∷ rs) h =
    merge_all-completed (merge_result (some p) r) rs (merge_result-completed p r h)

merge_all-attempts :
    (p : ModuleProgress) (rs : List Result) → (merge_all p rs).attempts ≡ p.attempts + length rs
unfolding merge_result
merge_all-attempts p [] = omega arith
merge_all-attempts p (r ∷ rs) = omega (arith, merge_all-attempts (merge_result (some p) r) rs)

merge_all-passed :
    (p : ModuleProgress) (rs : List Result)
    → (merge_all p rs).passed ≡ (p.passed || any (λ r. r.passed) rs)
unfolding merge_result
merge_all-passed p [] = ground arith
merge_all-passed p (r ∷ rs) = ground (arith, merge_all-passed (merge_result (some p) r) rs)

merge_all-at_least :
    (p : ModuleProgress) (rs : List Result)
    → (p.best_score ≤ℤ (merge_all p rs).best_score)
      × All (λ r. r.score ≤ℤ (merge_all p rs).best_score) rs
unfolding merge_result
merge_all-at_least p [] = (omega arith, tt)
merge_all-at_least p (r ∷ rs) =
    let (best, rest) = merge_all-at_least (merge_result (some p) r) rs in
    (ground arith, (ground arith, rest))

pub merge_all-module_slug :
    (p : ModuleProgress) (rs : List Result) (slug : String)
    → p.module_slug ≡ some slug
    → (merge_all p rs).module_slug ≡ some slug
unfolding merge_result
merge_all-module_slug p [] slug h = h
merge_all-module_slug p (r ∷ rs) slug h =
    merge_all-module_slug (merge_result (some p) r) rs slug (ground (arith, h))

or_left : {a : Bool} (b : Bool) → a ≡ true → (a || b) ≡ true
or_left b h = ground arith

merge_result-best :
    (p : ModuleProgress) (r : Result)
    → ((merge_result (some p) r).best_score ≡ p.best_score)
      ⊎ ((merge_result (some p) r).best_score ≡ r.score)
unfolding merge_result
merge_result-best p r = ground arith

merge_all-attained :
    (p : ModuleProgress) (rs : List Result)
    → ((merge_all p rs).best_score ≡ p.best_score)
      ⊎ (any (λ r. eqb_ℤ r.score (merge_all p rs).best_score) rs ≡ true)
merge_all-attained p [] = inl refl
merge_all-attained p (r ∷ rs) =
    let p' = merge_result (some p) r in
    elim (merge_all-attained p' rs) [
      | inl e ↦ elim (merge_result-best p r) [
        | inl same ↦ inl (e ∙ same)
        | inr new ↦
            inr (or_left _ ((eqb_ℤ_iff r.score (merge_all p' rs).best_score).1 (sym (e ∙ new))))
      ]
      | inr later ↦ inr (ground arith)
    ]

pub merge_first-IsHistory :
    (r : Result) (rs : List Result) → IsHistory (merge_all (merge_result none r) rs) (r ∷ rs)
unfolding merge_result
merge_first-IsHistory r rs =
    let p = merge_result none r in
    let (best, rest) = merge_all-at_least p rs in
    record {
      attempts = merge_all-attempts p rs ∙ omega arith;
      passed = merge_all-passed p rs;
      at_least = (best, rest);
      attained = elim (merge_all-attained p rs) [
        | inl e ↦ or_left _ ((eqb_ℤ_iff r.score (merge_all p rs).best_score).1 (sym e))
        | inr later ↦ ground arith
      ];
      completed = merge_all-completed p rs (ground arith);
    }

record_all_cons :
    (k : ProgressKey) (old : Option ModuleProgress) (r : Result) (rs : List Result) (t : Progress)
    → get progress_key_eq k t ≡ old
    → record_all k (r ∷ rs) t ≡ record_all k rs (put progress_key_eq k (merge_result old r) t)
unfolding record_all record_progress
record_all_cons k old r rs t h =
    ap (λ o. record_all k rs (put progress_key_eq k (merge_result o r) t)) h

get-record_all :
    (k : ProgressKey) (p : ModuleProgress) (rs : List Result) (t : Progress)
    → get progress_key_eq k t ≡ some p
    → (t' : Progress) × (record_all k rs t ≡ some t')
      × (get progress_key_eq k t' ≡ some (merge_all p rs))
      × ((j : ProgressKey)
          → get progress_key_eq j t'
            ≡ (if key_eq k j then some (merge_all p rs) else get progress_key_eq j t))
unfolding record_all
get-record_all k p [] t h = (t, refl, h, λ j. ground (arith, key_eq_iff k j))
get-record_all k p (r ∷ rs) t h =
    let p' = merge_result (some p) r in
    let t1 = put progress_key_eq k p' t in
    let (t', run, mine, others) =
      get-record_all k p' rs t1
        (get-put progress_key_eq k k p' t ∙ ground (arith, key_eq_iff k k)) in
    (
      t',
      record_all_cons k (some p) r rs t h ∙ run,
      mine,
      λ j. others j ∙ ground (arith, get-put progress_key_eq k j p' t),
    )

-- The table after a first result and others, for a key without a row.
pub get-record_first :
    (k : ProgressKey) (r : Result) (rs : List Result) (t : Progress)
    → get progress_key_eq k t ≡ none
    → (t' : Progress) × (record_all k (r ∷ rs) t ≡ some t')
      × (get progress_key_eq k t' ≡ some (merge_all (merge_result none r) rs))
      × ((j : ProgressKey)
          → get progress_key_eq j t' ≡ (
              if key_eq k j
              then some (merge_all (merge_result none r) rs)
              else get progress_key_eq j t))
get-record_first k r rs t h =
    let p' = merge_result none r in
    let t1 = put progress_key_eq k p' t in
    let (t', run, mine, others) =
      get-record_all k p' rs t1
        (get-put progress_key_eq k k p' t ∙ ground (arith, key_eq_iff k k)) in
    (
      t',
      record_all_cons k none r rs t h ∙ run,
      mine,
      λ j. others j ∙ ground (arith, get-put progress_key_eq k j p' t),
    )

-- Where the database accepts the statements, recording one or more results for a module that has no
-- row succeeds and leaves a row that tells their history; every other row stays as it is.
pub record_all-IsHistory :
    (k : ProgressKey) (r : Result) (rs : List Result) (t : Progress)
    → get progress_key_eq k t ≡ none
    → (t' : Progress) × (p : ModuleProgress) × (record_all k (r ∷ rs) t ≡ some t')
      × (get progress_key_eq k t' ≡ some p)
      × IsHistory p (r ∷ rs)
      × ((j : ProgressKey)
          → get progress_key_eq j t' ≡ (if key_eq k j then some p else get progress_key_eq j t))
record_all-IsHistory k r rs t h =
    let (t', run, mine, others) = get-record_first k r rs t h in
    (t', merge_all (merge_result none r) rs, run, mine, merge_first-IsHistory r rs, others)
