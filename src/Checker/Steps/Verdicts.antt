-- ===== src/Checker/Steps/Verdicts.antt =====
-- The verdicts of the parts of CheckStep's checks.
use elearning_platform.Prelude.{
  ℕ, Bool, true, false, not, ◌&&◌, ◌||◌, List, [], ◌∷◌, Option, none, some, if◌then◌else◌, ◌==◌,
  any, all, find, keep, ◌≡◌, inl, inr, refl, sym, ap, ◌∙◌, arith, Bool-cases, Option-cases, All,
}
use elearning_platform.Prelude.Bytes.{Bytes, bytes_eq, starts_with}
use elearning_platform.Checker.Conventional.{is_conventional_message}
use elearning_platform.Checker.Pages.{Listing, listed, refused, unfinished}
use elearning_platform.Checker.Steps.{
  Branch, MergeRequest, FullMergeRequest, Compare, StepResponse, foreign_project, Violation,
  allowed, denied, Outcome, answered, errored, more, branch_by_pattern, check_mr_open, success,
  touches, judge_commits,
}
use elearning_platform.Checker.Steps.Dispatch.{
  full_of, judge_status, judge_branch_commits, judge_pipelines, judge_diffs, judge_branch,
  judge_first, scan_commits, conventional_outcome, add_full, check_pipeline_passed,
}

pub if_allow : (b : Bool) (v : Violation) → (if b then allowed else denied v).allow ≡ b
if_allow true v = refl
if_allow false v = refl

pub if_deny : (b : Bool) (v : Violation) → (if b then denied v else allowed).allow ≡ not b
if_deny true v = refl
if_deny false v = refl

-- GitLab's branches have names.
abbrev pub IsNamed : List Branch → Type 0
IsNamed bs = All (λ b. bytes_eq b.name [] ≡ false) bs

abbrev pub has_prefix : Bytes → Branch → Bool
has_prefix pattern b = starts_with pattern b.name

pub branch_by_pattern_none :
    (bs : List Branch) (pattern : Bytes)
    → IsNamed bs
    → bytes_eq (branch_by_pattern bs pattern) [] ≡ not (any (has_prefix pattern) bs)
unfolding branch_by_pattern
branch_by_pattern_none [] pattern n = refl
branch_by_pattern_none (b ∷ bs) pattern n = elim (Bool-cases (starts_with pattern b.name)) [
  | inl e ↦ rw e n.0
  | inr e ↦ rw e (branch_by_pattern_none bs pattern n.1)
]

unfoldable pub name_of : Option Branch → Bytes
name_of none = []
name_of (some b) = b.name

pub branch_by_pattern-find :
    (bs : List Branch) (pattern : Bytes)
    → branch_by_pattern bs pattern ≡ name_of (find (has_prefix pattern) bs)
unfolding branch_by_pattern name_of
branch_by_pattern-find [] pattern = refl
branch_by_pattern-find (b ∷ bs) pattern = elim (Bool-cases (starts_with pattern b.name)) [
  | inl e ↦ rw e refl
  | inr e ↦ rw e (branch_by_pattern-find bs pattern)
]

pub not-not : (b : Bool) → not (not b) ≡ b
not-not true = refl
not-not false = refl

pub check_mr_open-keep :
    (p : MergeRequest → Bool) (mrs : List MergeRequest)
    → (check_mr_open (keep p mrs)).allow ≡ any p mrs
unfolding check_mr_open
check_mr_open-keep p [] = refl
check_mr_open-keep p (mr ∷ mrs) = elim (Bool-cases (p mr)) [
  | inl e ↦ rw e refl
  | inr e ↦ rw e (check_mr_open-keep p mrs)
]

abbrev pub verdict : Outcome → Bool
verdict (answered r) = r.allow
verdict errored = false
verdict more = false

pub judge_commits-allow :
    (ms : List Bytes) → (judge_commits ms).allow ≡ all is_conventional_message ms
unfolding judge_commits
judge_commits-allow [] = refl
judge_commits-allow (m ∷ ms) = elim (Bool-cases (is_conventional_message m)) [
  | inl e ↦ rw e (judge_commits-allow ms)
  | inr e ↦ rw e refl
]

-- Whether a listing of commits has a conventional one.
abbrev pub listing_conventional : Listing Bytes → Bool
listing_conventional (listed commits) = any is_conventional_message commits
listing_conventional refused = false
listing_conventional unfinished = false

pub scan_commits-or :
    (l : Listing Bytes) (rest : Option Bool) (b later : Bool)
    → ((c : Bool) → rest ≡ some c → c ≡ later)
    → scan_commits rest l ≡ some b
    → b ≡ (listing_conventional l || later)
scan_commits-or (listed commits) rest b later r h =
    elim (Bool-cases (any is_conventional_message commits)) [
      | inl e ↦ rw e (ground arith)
      | inr e ↦ rw e (r b (ground arith))
    ]
scan_commits-or refused rest b later r h = r b h
scan_commits-or unfinished rest b later r h = cc h

pub full_of-add_ne :
    (i j : ℕ) (o : Option FullMergeRequest) (rest : List (ℕ × FullMergeRequest))
    → (j == i) ≡ false
    → full_of i (add_full j o rest) ≡ full_of i rest
full_of-add_ne i j none rest h = refl
full_of-add_ne i j (some full) rest h = rw h refl

pub full_of-add :
    (i : ℕ) (o : Option FullMergeRequest) (rest : List (ℕ × FullMergeRequest))
    → (o ≡ none → full_of i rest ≡ none)
    → full_of i (add_full i o rest) ≡ o
full_of-add i none rest h = h refl
full_of-add i (some full) rest h = ground arith

abbrev pub is_read : Option FullMergeRequest → Bool
is_read none = false
is_read (some full) = true

abbrev pub status_passes : Option Bytes → Bool
status_passes none = false
status_passes (some status) = bytes_eq status success

abbrev pub passes : Option FullMergeRequest → Bool
passes none = false
passes (some full) = status_passes full.pipeline

pub judge_status-allow :
    (status : Option Bytes) → (judge_status status).allow ≡ status_passes status
judge_status-allow none = refl
judge_status-allow (some status) = if_allow (bytes_eq status success) _

pub judge_first-allow :
    (rest : StepResponse) (o : Option FullMergeRequest)
    → (judge_first rest o).allow ≡ (if is_read o then passes o else rest.allow)
judge_first-allow rest none = refl
judge_first-allow rest (some full) = judge_status-allow full.pipeline

pub check_pipeline_passed-judge :
    (fd : List (ℕ × FullMergeRequest)) (mrs : List MergeRequest)
    → (check_pipeline_passed fd mrs).allow ≡ (judge_pipelines fd mrs).allow
unfolding check_pipeline_passed judge_pipelines
check_pipeline_passed-judge fd [] = refl
check_pipeline_passed-judge fd (mr ∷ mrs) = refl

abbrev pub diffs_touch : Bytes → Option Compare → Bool
diffs_touch file none = false
diffs_touch file (some c) = any (touches file) c.diffs

abbrev pub is_empty : List Bytes → Bool
is_empty [] = true
is_empty (m ∷ ms) = false

abbrev pub commits_conventional : Option Compare → Bool
commits_conventional none = false
commits_conventional (some c) = not (is_empty c.commits) && all is_conventional_message c.commits

pub judge_branch_commits-allow :
    (ms : List Bytes)
    → (judge_branch_commits ms).allow ≡ (not (is_empty ms) && all is_conventional_message ms)
judge_branch_commits-allow [] = refl
judge_branch_commits-allow (m ∷ ms) = judge_commits-allow (m ∷ ms)

-- An answer's verdict.
pub judge_diffs-allow :
    (file : Bytes) (o : Option Compare) (r : StepResponse)
    → judge_diffs file o ≡ answered r
    → r.allow ≡ diffs_touch file o
judge_diffs-allow file none r h = cc h
judge_diffs-allow file (some c) r h = ap verdict (sym h) ∙ if_allow (any (touches file) c.diffs) _

pub judge_branch-allow :
    (o : Option Compare) (r : StepResponse)
    → judge_branch o ≡ answered r
    → r.allow ≡ commits_conventional o
unfolding judge_branch
judge_branch-allow none r h = cc h
judge_branch-allow (some c) r h = ap verdict (sym h) ∙ judge_branch_commits-allow c.commits

pub outcome_some :
    (o : Option Bool) (r : StepResponse) → conventional_outcome o ≡ answered r → o ≡ some r.allow
outcome_some none r h = cc h
outcome_some (some b) r h = ap some (sym (if_allow b _) ∙ ap verdict h)

pub find_named :
    (p : Branch → Bool) (bs : List Branch) (b : Branch)
    → IsNamed bs
    → find p bs ≡ some b
    → bytes_eq b.name [] ≡ false
find_named p [] b n h = cc h
find_named p (a ∷ bs) b n h = elim (Bool-cases (p a)) [
  | inl e ↦ let same : a ≡ b = ground arith in ap (λ x. bytes_eq x.name []) (sym same) ∙ n.0
  | inr e ↦ find_named p bs b n.1 (ground arith)
]

-- A check that looks at the first branch with the prefix.
abbrev pub at_branch : Violation → (Bytes → Outcome) → Bytes → Outcome
at_branch v k name = if bytes_eq name [] then answered (denied v) else k name

pub at_branch-allow :
    (bs : List Branch) (pattern : Bytes) (v : Violation) (k : Bytes → Outcome)
    (holds : Option Branch → Bool) (r : StepResponse)
    → IsNamed bs
    → holds none ≡ false
    → ((b : Branch) → k b.name ≡ answered r → r.allow ≡ holds (some b))
    → at_branch v k (branch_by_pattern bs pattern) ≡ answered r
    → r.allow ≡ holds (find (has_prefix pattern) bs)
unfolding name_of
at_branch-allow bs pattern v k holds r n no_branch_holds each h =
    let found = branch_by_pattern-find bs pattern in
    elim (Option-cases (find (has_prefix pattern) bs)) [
      | inl e ↦
          let name = found ∙ ap name_of e in
          ap verdict (sym h)
          ∙ ap (λ x. verdict (at_branch v k x)) name
          ∙ sym no_branch_holds
          ∙ ap holds (sym e)
      | inr (b, e) ↦
          let name = found ∙ ap name_of e in
          let step : at_branch v k b.name ≡ k b.name =
            rw (find_named (has_prefix pattern) bs b n e) refl in
          each b (sym step ∙ sym (ap (at_branch v k) name) ∙ h) ∙ ap holds (sym e)
    ]

abbrev pub own_only : Bool → Outcome → Outcome
own_only own o = if own then o else answered (denied foreign_project)
