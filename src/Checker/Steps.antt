-- ===== src/Checker/Steps.antt =====
-- The step checks of checker-service/internal/checker/step.go. The GitLab client is a parameter, a
-- record of the calls that the code makes; none is a call that failed. A violation is a constructor
-- with what its French message names. mrFullData is a table; pipelineStatus is written and never
-- read.
use elearning_platform.Prelude.{
  ℕ, zero, suc, Bool, true, false, not, ◌&&◌, ◌||◌, List, [], ◌∷◌, ◌++◌, Option, none, some, String,
  Assoc, lookup, if◌then◌else◌, ◌==◌, any, all, find, keep, length,
}
use elearning_platform.Prelude.Bytes.{Bytes, bytes_eq, starts_with}
use elearning_platform.Checker.Conventional.{is_conventional_message, first_line}
use elearning_platform.Checker.Pages.{Page, Listing, listed, refused, unfinished, list_all}
pub mod Dispatch
pub mod Verdicts
pub mod Found
pub mod Conditions
pub mod Termination

pub record Branch : Type 0 where
  pub name : Bytes
  pub has_commit : Bool

-- A merge request of a listing: the author's name, when there is an author.
pub record MergeRequest : Type 0 where
  pub iid : ℕ
  pub author : Option Bytes

-- The head pipeline's status, when the full merge request has one.
pub record FullMergeRequest : Type 0 where
  pub pipeline : Option Bytes

pub record Diff : Type 0 where
  pub new_path : Bytes
  pub old_path : Bytes

-- The commits by their messages.
pub record Compare : Type 0 where
  pub commits : List Bytes
  pub diffs : List Diff

pub record GitLab : Type 0 where
  pub list_branches : Bytes → ℕ → Option (Page Branch)
  pub list_open_mrs : Bytes → ℕ → Option (Page MergeRequest)
  pub get_merge_request : Bytes → ℕ → Option FullMergeRequest
  pub list_commits : Bytes → ℕ → ℕ → Option (Page Bytes)
  pub compare_branches : Bytes → Bytes → Bytes → Option Compare

-- A value of `map[string]any`: a text, or something that is none.
pub data Param : Type 0 where
  text : Bytes → Param
  other : Param

pub data CheckType : Type 0 where
  gitlab_branch : CheckType
  gitlab_mr_open : CheckType
  gitlab_conventional_commit : CheckType
  gitlab_pipeline_passed : CheckType
  gitlab_commit_on_branch : CheckType
  gitlab_file_on_branch : CheckType
  gitlab_conventional_commit_on_branch : CheckType
  unknown_type : Bytes → CheckType

pub record StepRequest : Type 0 where
  pub username : Bytes
  pub project : Bytes
  pub check_type : CheckType
  pub check_params : Assoc Param

pub data Violation : Type 0 where
  foreign_project : Violation
  unknown_check : Bytes → Violation
  no_branch : Bytes → Violation
  no_open_mr : Violation
  no_conventional_commit : Violation
  no_pipeline : Violation
  pipeline_not_passed : Bytes → Violation
  pipeline_unreadable : Violation
  no_commit_on_branch : Bytes → Violation
  file_untouched : Bytes → Violation
  no_commit : Violation
  unconventional : Bytes → Violation

pub record StepResponse : Type 0 where
  pub allow : Bool
  pub violations : List Violation

abbrev pub allowed : StepResponse
allowed = record { allow = true; violations = [] }

abbrev pub denied : Violation → StepResponse
denied v = record { allow = false; violations = v ∷ [] }

-- A step that answered, whose error goes back to the caller, or that wants more rounds of a listing.
pub data Outcome : Type 0 where
  answered : StepResponse → Outcome
  errored : Outcome
  more : Outcome

-- The last of strings.Split(project, "/").
unfoldable pub last_part : Bytes → Bytes
last_part [] = []
last_part (c ∷ s) =
    let rest = last_part s in
    if any (λ d. d == b'/') s then rest else if c == b'/' then s else c ∷ s

unfoldable pub str_param : String → Assoc Param → Bytes
str_param key params = elim (lookup key params) [
  | none ↦ []
  | some p ↦ elim p [ text s ↦ s | other ↦ [] ]
]

unfoldable pub str_param_or : Bytes → String → Assoc Param → Bytes
unfolding str_param
str_param_or default key params =
    let s = str_param key params in if bytes_eq s [] then default else s

abbrev pub by_author : Bytes → MergeRequest → Bool
by_author username mr = elim mr.author [ none ↦ false | some a ↦ bytes_eq a username ]

unfoldable pub mrs_by_author : List MergeRequest → Bytes → List MergeRequest
mrs_by_author mrs username = keep (by_author username) mrs

-- The name of the first branch with the prefix, or "".
unfoldable pub branch_by_pattern : List Branch → Bytes → Bytes
branch_by_pattern [] pattern = []
branch_by_pattern (b ∷ bs) pattern =
    let rest = branch_by_pattern bs pattern in if starts_with pattern b.name then b.name else rest

unfoldable pub check_branch : StepRequest → List Branch → StepResponse
unfolding branch_by_pattern str_param
check_branch req branches =
    let pattern = str_param "pattern" req.check_params in
    if bytes_eq (branch_by_pattern branches pattern) [] then denied (no_branch pattern) else allowed

unfoldable pub check_mr_open : List MergeRequest → StepResponse
check_mr_open [] = denied no_open_mr
check_mr_open (mr ∷ mrs) = allowed

abbrev pub base_branch : Bytes
base_branch = b'm' ∷ b'a' ∷ b'i' ∷ b'n' ∷ []

abbrev pub feature_prefix : Bytes
feature_prefix = b'f' ∷ b'e' ∷ b'a' ∷ b't' ∷ b'u' ∷ b'r' ∷ b'e' ∷ b'/' ∷ []

abbrev pub success : Bytes
success = b's' ∷ b'u' ∷ b'c' ∷ b'c' ∷ b'e' ∷ b's' ∷ b's' ∷ []

unfoldable pub check_commit_on_branch : StepRequest → List Branch → StepResponse
unfolding str_param_or
check_commit_on_branch req branches =
    let pattern = str_param_or feature_prefix "pattern" req.check_params in
    if any (λ b. starts_with pattern b.name && b.has_commit) branches
    then allowed
    else denied (no_commit_on_branch pattern)

abbrev pub touches : Bytes → Diff → Bool
touches file d = bytes_eq d.new_path file || bytes_eq d.old_path file

-- The first message that is not conventional.
unfoldable pub judge_commits : List Bytes → StepResponse
judge_commits [] = allowed
judge_commits (msg ∷ msgs) =
    let rest = judge_commits msgs in
    if is_conventional_message msg then rest else denied (unconventional (first_line msg))
