-- ===== src/Checker/Steps/Termination.antt =====
-- CheckStep ends, whatever GitLab answers, if each listing's pages advance.
use elearning_platform.Prelude.{
  ℕ, ◌≤◌, Bool, true, false, List, [], ◌∷◌, Option, none, some, ◌≢◌, inl, inr, arith, subst,
  if◌then◌else◌, any, Bool-cases,
}
use elearning_platform.Prelude.Bytes.{Bytes, bytes_eq}
use elearning_platform.Checker.Conventional.{is_conventional_message}
use elearning_platform.Checker.Pages.{Page, Listing, listed, refused, unfinished, list_all}
use elearning_platform.Checker.Pages.Termination.{Advances, list_all-total}
use elearning_platform.Checker.Steps.{
  Branch, MergeRequest, FullMergeRequest, Compare, GitLab, StepRequest, Outcome, answered, errored,
  more, last_part, mrs_by_author, denied, no_branch, str_param, str_param_or, base_branch,
  branch_by_pattern, foreign_project, gitlab_branch, gitlab_mr_open, gitlab_conventional_commit,
  gitlab_pipeline_passed, gitlab_commit_on_branch, gitlab_file_on_branch,
  gitlab_conventional_commit_on_branch, unknown_type, CheckType,
}
use elearning_platform.Checker.Steps.Dispatch.{
  scan_commits, conventional_outcome, judge_diffs, judge_branch, has_conventional,
  check_conventional_commit, check_file_on_branch, check_conventional_commit_on_branch, dispatch,
  with_state, check_step, full_data,
}

-- An outcome that is there.
abbrev IsSettled : Outcome → Type 0
IsSettled (answered r) = Unit
IsSettled errored = Unit
IsSettled more = ⊥

abbrev IsFinished {ℓ} : {A : Type ℓ} → Listing A → Type 0
IsFinished (listed xs) = Unit
IsFinished refused = Unit
IsFinished unfinished = ⊥

abbrev IsSome : Option Bool → Type 0
IsSome none = ⊥
IsSome (some b) = Unit

finished :
    {A : Type 0} (call : ℕ → Option (Page A)) (last fuel : ℕ)
    → Advances call last
    → 1 ≤ last
    → last ≤ fuel
    → IsFinished (list_all call fuel 1 [])
finished call last fuel adv one enough =
    elim (list_all-total call last fuel 1 [] adv one (omega arith)) [
      | inl (ps, s, h) ↦ rw h tt
      | inr h ↦ rw h tt
    ]

if_IsSettled :
    (b : Bool) (x y : Outcome) → IsSettled x → IsSettled y → IsSettled (if b then x else y)
if_IsSettled true x y p q = p
if_IsSettled false x y p q = q

judge_diffs-IsSettled : (file : Bytes) (o : Option Compare) → IsSettled (judge_diffs file o)
judge_diffs-IsSettled file none = tt
judge_diffs-IsSettled file (some c) = tt

judge_branch-IsSettled : (o : Option Compare) → IsSettled (judge_branch o)
unfolding judge_branch
judge_branch-IsSettled none = tt
judge_branch-IsSettled (some c) = tt

scan_commits-IsSome :
    (rest : Option Bool) (l : Listing Bytes)
    → IsSome rest
    → IsFinished l
    → IsSome (scan_commits rest l)
scan_commits-IsSome rest (listed cs) r f = elim (Bool-cases (any is_conventional_message cs)) [
  | inl e ↦ rw e tt
  | inr e ↦ rw e r
]
scan_commits-IsSome rest refused r f = r
scan_commits-IsSome rest unfinished r f = absurd f

conventional_outcome-IsSettled : (o : Option Bool) → IsSome o → IsSettled (conventional_outcome o)
conventional_outcome-IsSettled none s = absurd s
conventional_outcome-IsSettled (some b) s = tt

module _ (gitlab : GitLab) (fuel : ℕ) where
  -- Each listing's pages go up to a last one, within the rounds.
  abbrev pub PagesEnd : Type 0
  PagesEnd =
      (project : Bytes)
      → ((last : ℕ) × (1 ≤ last) × (last ≤ fuel) × Advances (gitlab.list_branches project) last)
        × ((last : ℕ) × (1 ≤ last) × (last ≤ fuel) × Advances (gitlab.list_open_mrs project) last)
        × ((iid : ℕ)
            → (last : ℕ) × (1 ≤ last)
              × (last ≤ fuel)
              × Advances (gitlab.list_commits project iid) last)

  has_conventional-IsSome :
      PagesEnd
      → (project : Bytes) (mrs : List MergeRequest)
      → IsSome (has_conventional gitlab fuel project mrs)
  unfolding has_conventional
  has_conventional-IsSome ends project [] = tt
  has_conventional-IsSome ends project (mr ∷ mrs) =
      let (last, one, enough, adv) = (ends project).2 mr.iid in
      scan_commits-IsSome (has_conventional gitlab fuel project mrs)
        (list_all (gitlab.list_commits project mr.iid) fuel 1 [])
        (has_conventional-IsSome ends project mrs)
        (finished (gitlab.list_commits project mr.iid) last fuel adv one enough)

  check_conventional_commit-IsSettled :
      PagesEnd
      → (req : StepRequest) (mrs : List MergeRequest)
      → IsSettled (check_conventional_commit gitlab fuel req mrs)
  unfolding check_conventional_commit
  check_conventional_commit-IsSettled ends req [] = tt
  check_conventional_commit-IsSettled ends req (mr ∷ mrs) =
      conventional_outcome-IsSettled (has_conventional gitlab fuel req.project (mr ∷ mrs))
        (has_conventional-IsSome ends req.project (mr ∷ mrs))

  dispatch-IsSettled :
      PagesEnd
      → (req : StepRequest) (bs : List Branch) (full : List (ℕ × FullMergeRequest))
        (mrs : List MergeRequest) (c : CheckType)
      → IsSettled (dispatch gitlab fuel (record req { check_type = c }) bs full mrs)
  unfolding dispatch check_file_on_branch check_conventional_commit_on_branch
  dispatch-IsSettled ends req bs full mrs gitlab_branch = tt
  dispatch-IsSettled ends req bs full mrs gitlab_mr_open = tt
  dispatch-IsSettled ends req bs full mrs gitlab_conventional_commit =
      check_conventional_commit-IsSettled ends
        (record req { check_type = gitlab_conventional_commit }) mrs
  dispatch-IsSettled ends req bs full mrs gitlab_pipeline_passed = tt
  dispatch-IsSettled ends req bs full mrs gitlab_commit_on_branch = tt
  dispatch-IsSettled ends req bs full mrs gitlab_file_on_branch =
      let pattern = str_param "pattern" req.check_params in
      let branch = branch_by_pattern bs pattern in
      let base = str_param_or base_branch "base" req.check_params in
      let compare = gitlab.compare_branches req.project base branch in
      let file = str_param "file" req.check_params in
      if_IsSettled (bytes_eq branch []) (answered (denied (no_branch pattern)))
        (judge_diffs file compare) tt (judge_diffs-IsSettled file compare)
  dispatch-IsSettled ends req bs full mrs gitlab_conventional_commit_on_branch =
      let pattern = str_param "pattern" req.check_params in
      let branch = branch_by_pattern bs pattern in
      let base = str_param_or base_branch "base" req.check_params in
      let compare = gitlab.compare_branches req.project base branch in
      if_IsSettled (bytes_eq branch []) (answered (denied (no_branch pattern)))
        (judge_branch compare) tt (judge_branch-IsSettled compare)
  dispatch-IsSettled ends req bs full mrs (unknown_type t) = tt

  with_state-IsSettled :
      PagesEnd
      → (req : StepRequest) (b : Listing Branch) (m : Listing MergeRequest) → IsFinished b
      → IsFinished m
      → IsSettled (with_state gitlab fuel req b m)
  unfolding with_state
  with_state-IsSettled ends req (listed bs) (listed ms) f g =
      dispatch-IsSettled ends req bs (full_data gitlab fuel req.project ms)
        (mrs_by_author ms req.username) req.check_type
  with_state-IsSettled ends req (listed bs) refused f g = tt
  with_state-IsSettled ends req (listed bs) unfinished f g = absurd g
  with_state-IsSettled ends req refused m f g = tt
  with_state-IsSettled ends req unfinished m f g = absurd f

  -- CheckStep ends, with an answer or with an error, for every request, if each listing of the client
  -- goes on to a later page up to a last one, and that many rounds are allowed.
  pub check_step-total : PagesEnd → (req : StepRequest) → check_step gitlab fuel req ≢ more
  unfolding check_step
  check_step-total ends req =
      let (bl, b_one, b_enough, b_adv) = (ends req.project).0 in
      let (ml, m_one, m_enough, m_adv) = (ends req.project).1 in
      let branches = list_all (gitlab.list_branches req.project) fuel 1 [] in
      let mrs = list_all (gitlab.list_open_mrs req.project) fuel 1 [] in
      let settled =
        if_IsSettled (bytes_eq (last_part req.project) req.username)
          (with_state gitlab fuel req branches mrs) (answered (denied foreign_project))
          (with_state-IsSettled ends req branches mrs
            (finished (gitlab.list_branches req.project) bl fuel b_adv b_one b_enough)
            (finished (gitlab.list_open_mrs req.project) ml fuel m_adv m_one m_enough))
          tt in
      λ h. subst IsSettled h settled
