-- ===== src/Checker/Steps/Dispatch.antt =====
-- The checks that call GitLab, and CheckStep: checker-service/internal/checker/step.go. `fuel` bounds
-- the rounds of each listing.
use elearning_platform.Prelude.{
  ℕ, Bool, true, false, List, [], ◌∷◌, Option, none, some, if◌then◌else◌, ◌==◌, any,
}
use elearning_platform.Prelude.Bytes.{Bytes, bytes_eq}
use elearning_platform.Checker.Conventional.{is_conventional_message}
use elearning_platform.Checker.Pages.{Listing, listed, refused, unfinished, list_all}
use elearning_platform.Checker.Steps.{
  Branch, MergeRequest, FullMergeRequest, Compare, GitLab, StepRequest, StepResponse, gitlab_branch,
  gitlab_mr_open, gitlab_conventional_commit, gitlab_pipeline_passed, gitlab_commit_on_branch,
  gitlab_file_on_branch, gitlab_conventional_commit_on_branch, unknown_type, foreign_project,
  unknown_check, no_branch, no_open_mr, no_conventional_commit, no_pipeline, pipeline_not_passed,
  pipeline_unreadable, file_untouched, no_commit, allowed, denied, Outcome, answered, errored, more,
  last_part, str_param, str_param_or, mrs_by_author, branch_by_pattern, check_branch, check_mr_open,
  check_commit_on_branch, base_branch, success, touches, judge_commits,
}

-- The verdict on the first merge request whose full data is there.
abbrev pub judge_status : Option Bytes → StepResponse
judge_status none = denied no_pipeline
judge_status (some status) =
    if bytes_eq status success then allowed else denied (pipeline_not_passed status)

abbrev pub judge_pipeline : FullMergeRequest → StepResponse
judge_pipeline full = judge_status full.pipeline

abbrev pub full_of : ℕ → List (ℕ × FullMergeRequest) → Option FullMergeRequest
full_of iid [] = none
full_of iid ((i, full) ∷ data_of) = if i == iid then some full else full_of iid data_of

abbrev pub judge_first : StepResponse → Option FullMergeRequest → StepResponse
judge_first rest none = rest
judge_first rest (some full) = judge_pipeline full

unfoldable pub judge_pipelines : List (ℕ × FullMergeRequest) → List MergeRequest → StepResponse
judge_pipelines full_data [] = denied pipeline_unreadable
judge_pipelines full_data (mr ∷ mrs) =
    judge_first (judge_pipelines full_data mrs) (full_of mr.iid full_data)

unfoldable pub check_pipeline_passed :
    List (ℕ × FullMergeRequest) → List MergeRequest → StepResponse
unfolding judge_pipelines
check_pipeline_passed full_data [] = denied no_open_mr
check_pipeline_passed full_data (mr ∷ mrs) = judge_pipelines full_data (mr ∷ mrs)

abbrev pub judge_diffs : Bytes → Option Compare → Outcome
judge_diffs file none = errored
judge_diffs file (some c) =
    answered (if any (touches file) c.diffs then allowed else denied (file_untouched file))

abbrev pub judge_branch_commits : List Bytes → StepResponse
judge_branch_commits [] = denied no_commit
judge_branch_commits (m ∷ ms) = judge_commits (m ∷ ms)

unfoldable pub judge_branch : Option Compare → Outcome
judge_branch none = errored
judge_branch (some c) = answered (judge_branch_commits c.commits)

-- The scan of one merge request's commits; a listing that fails is passed over.
abbrev pub scan_commits : Option Bool → Listing Bytes → Option Bool
scan_commits rest (listed commits) = if any is_conventional_message commits then some true else rest
scan_commits rest refused = rest
scan_commits rest unfinished = none

abbrev pub conventional_outcome : Option Bool → Outcome
conventional_outcome none = more
conventional_outcome (some found) =
    answered (if found then allowed else denied no_conventional_commit)

abbrev pub add_full :
    ℕ → Option FullMergeRequest → List (ℕ × FullMergeRequest) → List (ℕ × FullMergeRequest)
add_full iid none rest = rest
add_full iid (some full) rest = (iid, full) ∷ rest

module _ (gitlab : GitLab) (fuel : ℕ) where
  unfoldable pub has_conventional : Bytes → List MergeRequest → Option Bool
  has_conventional project [] = some false
  has_conventional project (mr ∷ mrs) =
      scan_commits (has_conventional project mrs)
        (list_all (gitlab.list_commits project mr.iid) fuel 1 [])

  unfoldable pub check_conventional_commit : StepRequest → List MergeRequest → Outcome
  unfolding has_conventional
  check_conventional_commit req [] = answered (denied no_open_mr)
  check_conventional_commit req (mr ∷ mrs) =
      conventional_outcome (has_conventional req.project (mr ∷ mrs))

  -- mrFullData, filled for every open merge request of the project.
  unfoldable pub full_data : Bytes → List MergeRequest → List (ℕ × FullMergeRequest)
  full_data project [] = []
  full_data project (mr ∷ mrs) =
      add_full mr.iid (gitlab.get_merge_request project mr.iid) (full_data project mrs)

  unfoldable pub check_file_on_branch : StepRequest → List Branch → Outcome
  unfolding branch_by_pattern str_param str_param_or
  check_file_on_branch req branches =
      let pattern = str_param "pattern" req.check_params in
      let file = str_param "file" req.check_params in
      let base = str_param_or base_branch "base" req.check_params in
      let branch = branch_by_pattern branches pattern in
      if bytes_eq branch []
      then answered (denied (no_branch pattern))
      else judge_diffs file (gitlab.compare_branches req.project base branch)

  unfoldable pub check_conventional_commit_on_branch : StepRequest → List Branch → Outcome
  unfolding branch_by_pattern str_param str_param_or judge_branch
  check_conventional_commit_on_branch req branches =
      let pattern = str_param "pattern" req.check_params in
      let base = str_param_or base_branch "base" req.check_params in
      let branch = branch_by_pattern branches pattern in
      if bytes_eq branch []
      then answered (denied (no_branch pattern))
      else judge_branch (gitlab.compare_branches req.project base branch)

  -- The switch of CheckStep, on the branches, the full data and the user's merge requests.
  unfoldable pub dispatch :
      StepRequest → List Branch → List (ℕ × FullMergeRequest) → List MergeRequest → Outcome
  unfolding check_branch check_mr_open check_conventional_commit check_pipeline_passed
      check_commit_on_branch check_file_on_branch check_conventional_commit_on_branch
  dispatch req branches full mrs = elim req.check_type [
    | gitlab_branch ↦ answered (check_branch req branches)
    | gitlab_mr_open ↦ answered (check_mr_open mrs)
    | gitlab_conventional_commit ↦ check_conventional_commit req mrs
    | gitlab_pipeline_passed ↦ answered (check_pipeline_passed full mrs)
    | gitlab_commit_on_branch ↦ answered (check_commit_on_branch req branches)
    | gitlab_file_on_branch ↦ check_file_on_branch req branches
    | gitlab_conventional_commit_on_branch ↦ check_conventional_commit_on_branch req branches
    | unknown_type t ↦ answered (denied (unknown_check t))
  ]

  -- What fetchStepState leaves for the switch, or its error.
  unfoldable pub with_state : StepRequest → Listing Branch → Listing MergeRequest → Outcome
  unfolding dispatch full_data mrs_by_author
  with_state req (listed branches) (listed mrs) =
      dispatch req branches (full_data req.project mrs) (mrs_by_author mrs req.username)
  with_state req (listed branches) refused = errored
  with_state req (listed branches) unfinished = more
  with_state req refused mrs = errored
  with_state req unfinished mrs = more

  unfoldable pub check_step : StepRequest → Outcome
  unfolding with_state last_part
  check_step req =
      if bytes_eq (last_part req.project) req.username
      then with_state req (list_all (gitlab.list_branches req.project) fuel 1 [])
          (list_all (gitlab.list_open_mrs req.project) fuel 1 [])
      else answered (denied foreign_project)
