-- ===== src/Checker/Pages.antt =====
-- The listings of checker-service/internal/checker/step.go, page after page: listAllBranches,
-- listAllOpenMRs and listAllMRCommits run one loop over three calls of the GitLab client.
use elearning_platform.Prelude.{
  ℕ, zero, suc, ◌+◌, ◌-◌, ◌≤◌, ◌<◌, List, [], ◌∷◌, ◌++◌, Option, none, some, ◌≡◌, ◌⊎◌, inl, inr,
  refl, sym, ap, ◌∙◌, arith, length, ◌==◌, if◌then◌else◌, get_elem?, Option-cases, Bool, true,
  false, Bool-cases,
}
pub mod Termination

-- The client's call at a page: none is an error, and next page 0 says that there is no other.
pub record Page {ℓ} (A : Type ℓ) : Type ℓ where
  pub items : List A
  pub next_page : ℕ

-- A listing that returned, that failed, or that wants more rounds.
pub data Listing {ℓ} (A : Type ℓ) : Type ℓ where
  listed : List A → Listing A
  refused : Listing A
  unfinished : Listing A

module _ {ℓ} {A : Type ℓ} where
  -- One round, on the call's result; `again` is the loop at the next page.
  abbrev pub list_round : (ℕ → List A → Listing A) → List A → Option (Page A) → Listing A
  list_round again all none = refused
  list_round again all (some p) =
      if p.next_page == 0 then listed (all ++ p.items) else again p.next_page (all ++ p.items)

  unfoldable pub list_all : (ℕ → Option (Page A)) → ℕ → ℕ → List A → Listing A
  list_all call zero page all = unfinished
  list_all call (suc fuel) page all = list_round (list_all call fuel) all (call page)

  -- countMergedMRs of fetch.go: an error ends the count where it stands.
  abbrev pub count_round : (ℕ → ℕ → Option ℕ) → ℕ → Option (Page A) → Option ℕ
  count_round again total none = some total
  count_round again total (some p) =
      if p.next_page == 0
      then some (total + length p.items)
      else again p.next_page (total + length p.items)

  unfoldable pub count_all : (ℕ → Option (Page A)) → ℕ → ℕ → ℕ → Option ℕ
  count_all call zero page total = none
  count_all call (suc fuel) page total = count_round (count_all call fuel) total (call page)
