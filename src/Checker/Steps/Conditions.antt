-- ===== src/Checker/Steps/Conditions.antt =====
-- When CheckStep (checker-service/internal/checker/step.go) allows: one condition for each type of
-- check, on the listings themselves.
use elearning_platform.Prelude.{
  ℕ, Bool, false, not, ◌&&◌, List, [], ◌∷◌, Option, none, some, any, find, keep, ◌≡◌, inl, inr,
  refl, sym, ap, ◌∙◌, Bool-cases,
}
use elearning_platform.Prelude.Bytes.{bytes_eq}
use elearning_platform.Checker.Pages.{listed, list_all}
use elearning_platform.Checker.Steps.{
  Branch, MergeRequest, Compare, GitLab, StepRequest, StepResponse, CheckType, gitlab_branch,
  gitlab_mr_open, gitlab_conventional_commit, gitlab_pipeline_passed, gitlab_commit_on_branch,
  gitlab_file_on_branch, gitlab_conventional_commit_on_branch, unknown_type, answered, last_part,
  str_param, str_param_or, mrs_by_author, by_author, branch_by_pattern, check_branch,
  check_commit_on_branch, base_branch, feature_prefix,
}
use elearning_platform.Checker.Steps.Verdicts.{
  IsNamed, at_branch-allow, branch_by_pattern_none, check_mr_open-keep, commits_conventional,
  diffs_touch, has_prefix, if_allow, if_deny, is_read, judge_branch-allow, judge_diffs-allow,
  not-not, outcome_some, own_only, verdict,
}
use elearning_platform.Checker.Steps.Dispatch.{
  full_data, judge_diffs, judge_branch, has_conventional, check_conventional_commit,
  check_file_on_branch, check_conventional_commit_on_branch, dispatch, with_state, check_step,
}
use elearning_platform.Checker.Steps.Found.{
  conventional_mr, found_passes, full_call, has_conventional-any, own_full,
}

module _ (gitlab : GitLab) (fuel : ℕ) where
  -- The branch that a check looks at, compared with its base.
  abbrev pub compared : StepRequest → Branch → Option Compare
  compared req b =
      gitlab.compare_branches req.project (str_param_or base_branch "base" req.check_params) b.name

  abbrev pub found_touches : StepRequest → Option Branch → Bool
  found_touches req none = false
  found_touches req (some b) = diffs_touch (str_param "file" req.check_params) (compared req b)

  abbrev pub found_conventional : StepRequest → Option Branch → Bool
  found_conventional req none = false
  found_conventional req (some b) = commits_conventional (compared req b)

  -- What each check asks of the project's branches and open merge requests.
  unfoldable pub meets : StepRequest → CheckType → List Branch → List MergeRequest → Bool
  meets req gitlab_branch bs mrs = any (has_prefix (str_param "pattern" req.check_params)) bs
  meets req gitlab_mr_open bs mrs = any (by_author req.username) mrs
  meets req gitlab_conventional_commit bs mrs =
      any (λ mr. by_author req.username mr && conventional_mr gitlab fuel req.project mr) mrs
  meets req gitlab_pipeline_passed bs mrs =
      found_passes gitlab fuel req.project (
        find (λ mr. by_author req.username mr && is_read (full_call gitlab fuel req.project mr))
          mrs)
  meets req gitlab_commit_on_branch bs mrs =
      any
        (λ b. has_prefix (str_param_or feature_prefix "pattern" req.check_params) b && b.has_commit)
        bs
  meets req gitlab_file_on_branch bs mrs =
      found_touches req (find (has_prefix (str_param "pattern" req.check_params)) bs)
  meets req gitlab_conventional_commit_on_branch bs mrs =
      found_conventional req (find (has_prefix (str_param "pattern" req.check_params)) bs)
  meets req (unknown_type t) bs mrs = false

  check_conventional_commit-some :
      (req : StepRequest) (mrs : List MergeRequest) (r : StepResponse)
      → check_conventional_commit gitlab fuel req mrs ≡ answered r
      → has_conventional gitlab fuel req.project mrs ≡ some r.allow
  unfolding check_conventional_commit has_conventional
  check_conventional_commit-some req [] r h = ap (λ o. some (verdict o)) h
  check_conventional_commit-some req (mr ∷ mrs) r h =
      outcome_some (has_conventional gitlab fuel req.project (mr ∷ mrs)) r h

  dispatch-allow :
      (req : StepRequest) (bs : List Branch) (mrs : List MergeRequest) (r : StepResponse)
      → IsNamed bs
      → (c : CheckType)
      → dispatch gitlab fuel
          (record req { check_type = c })
          bs
          (full_data gitlab fuel req.project mrs)
          (mrs_by_author mrs req.username)
        ≡ answered r
      → r.allow ≡ meets req c bs mrs
  unfolding dispatch meets check_branch check_commit_on_branch check_file_on_branch
      check_conventional_commit_on_branch mrs_by_author
  dispatch-allow req bs mrs r n gitlab_branch h =
      ap verdict (sym h)
      ∙ if_deny (bytes_eq (branch_by_pattern bs (str_param "pattern" req.check_params)) []) _
      ∙ ap not (branch_by_pattern_none bs (str_param "pattern" req.check_params) n)
      ∙ not-not (any (has_prefix (str_param "pattern" req.check_params)) bs)
  dispatch-allow req bs mrs r n gitlab_mr_open h =
      ap verdict (sym h) ∙ check_mr_open-keep (by_author req.username) mrs
  dispatch-allow req bs mrs r n gitlab_conventional_commit h =
      has_conventional-any gitlab fuel req.project (by_author req.username) mrs r.allow (
        check_conventional_commit-some (record req { check_type = gitlab_conventional_commit })
          (keep (by_author req.username) mrs) r h)
  dispatch-allow req bs mrs r n gitlab_pipeline_passed h =
      ap verdict (sym h) ∙ own_full gitlab fuel req mrs
  dispatch-allow req bs mrs r n gitlab_commit_on_branch h =
      ap verdict (sym h)
      ∙ if_allow
          (any
            (λ b.
              has_prefix (str_param_or feature_prefix "pattern" req.check_params) b && b.has_commit)
            bs)
          _
  dispatch-allow req bs mrs r n gitlab_file_on_branch h =
      at_branch-allow bs (str_param "pattern" req.check_params) _
        (λ name. judge_diffs (str_param "file" req.check_params) (
          gitlab.compare_branches req.project (str_param_or base_branch "base" req.check_params)
            name))
        (found_touches req) r n refl
        (λ b e. judge_diffs-allow (str_param "file" req.check_params) (compared req b) r e) h
  dispatch-allow req bs mrs r n gitlab_conventional_commit_on_branch h =
      at_branch-allow bs (str_param "pattern" req.check_params) _
        (λ name. judge_branch (
          gitlab.compare_branches req.project (str_param_or base_branch "base" req.check_params)
            name))
        (found_conventional req) r n refl (λ b e. judge_branch-allow (compared req b) r e) h
  dispatch-allow req bs mrs r n (unknown_type t) h = ap verdict (sym h)

  -- CheckStep answers a request, given its listings: it allows exactly if the project's last part is
  -- the user's name and the branches and merge requests meet the check's condition. A branch has a
  -- name.
  pub check_step-allow :
      (req : StepRequest) (bs : List Branch) (mrs : List MergeRequest) (r : StepResponse)
      → IsNamed bs
      → list_all (gitlab.list_branches req.project) fuel 1 [] ≡ listed bs
      → list_all (gitlab.list_open_mrs req.project) fuel 1 [] ≡ listed mrs
      → check_step gitlab fuel req ≡ answered r
      → r.allow ≡ (bytes_eq (last_part req.project) req.username && meets req req.check_type bs mrs)
  unfolding check_step with_state
  check_step-allow req bs mrs r n b m h =
      let state =
        ap
          (λ l.
            with_state gitlab fuel req l (list_all (gitlab.list_open_mrs req.project) fuel 1 []))
          b
        ∙ ap (with_state gitlab fuel req (listed bs)) m in
      let start =
        with_state gitlab fuel req (list_all (gitlab.list_branches req.project) fuel 1 [])
          (list_all (gitlab.list_open_mrs req.project) fuel 1 []) in
      elim (Bool-cases (bytes_eq (last_part req.project) req.username)) [
        | inl e ↦ rw e (
            dispatch-allow req bs mrs r n req.check_type
              (sym state ∙ sym (ap (λ c. own_only c start) e) ∙ h))
        | inr e ↦ rw e (ap verdict (sym h) ∙ ap (λ c. verdict (own_only c start)) e)
      ]
