-- ===== src/Checker/Steps/Found.antt =====
-- What the checks of checker-service/internal/checker/step.go find among the open merge requests: a
-- conventional commit, and the pipeline of the first merge request that can be read.
use elearning_platform.Prelude.{
  ℕ, Bool, false, ◌&&◌, List, [], ◌∷◌, Option, none, some, if◌then◌else◌, ◌==◌, any, find, keep,
  ◌≡◌, inl, inr, refl, sym, ap, ◌∙◌, arith, Bool-cases,
}
use elearning_platform.Prelude.Bytes.{Bytes}
use elearning_platform.Prelude.Members.{Member}
use elearning_platform.Checker.Pages.{list_all}
use elearning_platform.Checker.Steps.{
  MergeRequest, FullMergeRequest, GitLab, StepRequest, mrs_by_author, by_author,
}
use elearning_platform.Checker.Steps.Verdicts.{
  check_pipeline_passed-judge, full_of-add, full_of-add_ne, is_read, judge_first-allow,
  listing_conventional, passes, scan_commits-or,
}
use elearning_platform.Checker.Steps.Dispatch.{
  full_of, full_data, judge_pipelines, judge_first, add_full, check_pipeline_passed,
  has_conventional,
}

module _ (gitlab : GitLab) (fuel : ℕ) where
  -- A merge request with a conventional commit, if its commits can be listed.
  abbrev pub conventional_mr : Bytes → MergeRequest → Bool
  conventional_mr project mr =
      listing_conventional (list_all (gitlab.list_commits project mr.iid) fuel 1 [])

  pub has_conventional-any :
      (project : Bytes) (p : MergeRequest → Bool) (mrs : List MergeRequest) (b : Bool)
      → has_conventional gitlab fuel project (keep p mrs) ≡ some b
      → b ≡ any (λ mr. p mr && conventional_mr project mr) mrs
  unfolding has_conventional
  has_conventional-any project p [] b h = ground arith
  has_conventional-any project p (mr ∷ mrs) b h = elim (Bool-cases (p mr)) [
    | inl e ↦ rw e (
        scan_commits-or (list_all (gitlab.list_commits project mr.iid) fuel 1 [])
          (has_conventional gitlab fuel project (keep p mrs)) b
          (any (λ r. p r && conventional_mr project r) mrs) (has_conventional-any project p mrs)
          (sym (
              ap
                (λ x.
                  has_conventional gitlab fuel project (if x then mr ∷ keep p mrs else keep p mrs))
                e)
            ∙ h))
    | inr e ↦ rw e (
        has_conventional-any project p mrs b (
          sym (
            ap
              (λ x.
                has_conventional gitlab fuel project (if x then mr ∷ keep p mrs else keep p mrs))
              e)
          ∙ h))
  ]

  full_of-absent :
      (project : Bytes) (mrs : List MergeRequest) (i : ℕ)
      → gitlab.get_merge_request project i ≡ none
      → full_of i (full_data gitlab fuel project mrs) ≡ none
  unfolding full_data
  full_of-absent project [] i h = refl
  full_of-absent project (mr ∷ mrs) i h =
      let later = full_of-absent project mrs i h in
      elim (Bool-cases (mr.iid == i)) [
        | inl e ↦
            let same : mr.iid ≡ i = ground arith in
            ap
              (λ j. full_of i (
                add_full j (gitlab.get_merge_request project j)
                  (full_data gitlab fuel project mrs)))
              same
            ∙ full_of-add i (gitlab.get_merge_request project i) (full_data gitlab fuel project mrs)
                (λ n. later)
            ∙ h
        | inr e ↦
            full_of-add_ne i mr.iid (gitlab.get_merge_request project mr.iid)
              (full_data gitlab fuel project mrs) e
            ∙ later
      ]

  -- The table holds what the call gives for each of the listed merge requests.
  full_of-full_data :
      (project : Bytes) (mrs : List MergeRequest) (mr : MergeRequest)
      → Member mr mrs
      → full_of mr.iid (full_data gitlab fuel project mrs) ≡ gitlab.get_merge_request project mr.iid
  unfolding full_data
  full_of-full_data project [] mr m = absurd m
  full_of-full_data project (r ∷ mrs) mr m = elim (Bool-cases (r.iid == mr.iid)) [
    | inl e ↦
        let same : r.iid ≡ mr.iid = ground arith in
        ap
          (λ j.
            full_of mr.iid
              (add_full j (gitlab.get_merge_request project j) (full_data gitlab fuel project mrs)))
          same
        ∙ full_of-add mr.iid (gitlab.get_merge_request project mr.iid)
            (full_data gitlab fuel project mrs) (full_of-absent project mrs mr.iid)
    | inr e ↦ elim m [
      | inl here ↦ let same : r.iid ≡ mr.iid = ap (λ x. x.iid) here in absurd (ground arith)
      | inr later ↦
          full_of-add_ne mr.iid r.iid (gitlab.get_merge_request project r.iid)
            (full_data gitlab fuel project mrs) e
          ∙ full_of-full_data project mrs mr later
    ]
  ]

  abbrev pub full_call : Bytes → MergeRequest → Option FullMergeRequest
  full_call project mr = gitlab.get_merge_request project mr.iid

  -- The pipeline of the first found merge request.
  abbrev pub found_passes : Bytes → Option MergeRequest → Bool
  found_passes project none = false
  found_passes project (some mr) = passes (full_call project mr)

  judge_pipelines-find :
      (project : Bytes) (p : MergeRequest → Bool) (fd : List (ℕ × FullMergeRequest))
      (mrs : List MergeRequest)
      → ((mr : MergeRequest) → Member mr mrs → full_of mr.iid fd ≡ full_call project mr)
      → (judge_pipelines fd (keep p mrs)).allow
        ≡ found_passes project (find (λ mr. p mr && is_read (full_call project mr)) mrs)
  unfolding judge_pipelines
  judge_pipelines-find project p fd [] same = refl
  judge_pipelines-find project p fd (mr ∷ mrs) same =
      let rest = judge_pipelines-find project p fd mrs (λ r m. same r (inr m)) in
      elim (Bool-cases (p mr)) [
        | inl e ↦ rw e (
            ap (λ o. (judge_first (judge_pipelines fd (keep p mrs)) o).allow) (same mr (inl refl))
            ∙ judge_first-allow (judge_pipelines fd (keep p mrs)) (full_call project mr)
            ∙ (elim (Bool-cases (is_read (full_call project mr))) [
              | inl h ↦ rw h refl
              | inr h ↦ rw h rest
            ]))
        | inr e ↦ rw e rest
      ]

  -- The open merge requests that the checks see.
  pub own_full :
      (req : StepRequest) (mrs : List MergeRequest)
      → (check_pipeline_passed
          (full_data gitlab fuel req.project mrs)
          (mrs_by_author mrs req.username)).allow
        ≡ found_passes req.project
            (find (λ mr. by_author req.username mr && is_read (full_call req.project mr)) mrs)
  unfolding check_pipeline_passed mrs_by_author
  own_full req mrs =
      check_pipeline_passed-judge (full_data gitlab fuel req.project mrs)
        (keep (by_author req.username) mrs)
      ∙ judge_pipelines-find req.project (by_author req.username)
          (full_data gitlab fuel req.project mrs) mrs (full_of-full_data req.project mrs)
