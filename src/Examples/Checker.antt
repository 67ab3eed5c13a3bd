-- ===== src/Examples/Checker.antt =====
-- A project with two pages of branches and one merge request.
use elearning_platform.Prelude.{
  ℕ, true, ◌&&◌, List, [], ◌∷◌, ◌++◌, Option, none, some, ◌≡◌, ◌≢◌, ◌⊎◌, ◌↔◌, inl, inr, refl, sym,
  ap, ◌∙◌, arith, ◌==◌, if◌then◌else◌, Bool-cases, lookup,
}
use elearning_platform.Prelude.Bytes.{Bytes, bytes_eq}
use elearning_platform.Checker.Conventional.{is_conventional_message, first_line}
use elearning_platform.Checker.Conventional.Format.{IsConventional, is_conventional_message_iff}
use elearning_platform.Checker.Pages.{Page, listed, refused, list_all}
use elearning_platform.Checker.Pages.Termination.{Advances, concat, Serves, list_all-total}
use elearning_platform.Checker.Steps.{
  Branch, MergeRequest, GitLab, StepRequest, gitlab_conventional_commit_on_branch, text, allowed,
  more, last_part, judge_commits,
}
use elearning_platform.Checker.Steps.Dispatch.{check_step}
use elearning_platform.Checker.Steps.Conditions.{check_step-allow, meets}
use elearning_platform.Checker.Steps.Termination.{PagesEnd, check_step-total}

abbrev ann : Bytes
ann = b'a' ∷ b'n' ∷ b'n' ∷ []

-- "lab/ann"
abbrev project : Bytes
project = b'l' ∷ b'a' ∷ b'b' ∷ b'/' ∷ ann

-- "fix: it"
abbrev message : Bytes
message = b'f' ∷ b'i' ∷ b'x' ∷ b':' ∷ b' ' ∷ b'i' ∷ b't' ∷ []

abbrev main : Branch
main = record { name = b'm' ∷ []; has_commit = true }

abbrev feature : Branch
feature = record { name = b'f' ∷ b'/' ∷ b'x' ∷ []; has_commit = true }

abbrev open_mr : MergeRequest
open_mr = record { iid = 7; author = some ann }

abbrev branch_page : ℕ → Option (Page Branch)
branch_page n =
    if n == 1
    then some (record { items = main ∷ []; next_page = 2 })
    else if n == 2
    then some (record { items = feature ∷ []; next_page = 0 })
    else none

abbrev gitlab : GitLab
gitlab = record {
  list_branches = λ p. branch_page;
  list_open_mrs = λ p n. some (record { items = open_mr ∷ []; next_page = 0 });
  get_merge_request = λ p i. some (record { pipeline = none });
  list_commits = λ p i n. some (record { items = message ∷ []; next_page = 0 });
  compare_branches = λ p base b. some (record { commits = message ∷ []; diffs = [] });
}

abbrev request : StepRequest
request = record {
  username = ann;
  project = project;
  check_type = gitlab_conventional_commit_on_branch;
  check_params = ("pattern", text (b'f' ∷ b'/' ∷ [])) ∷ [];
}

next_of : {A : Type 0} → Option (Page A) → ℕ
next_of none = 0
next_of (some p) = p.next_page

branch_pages-Advances : Advances branch_page 2
unfolding next_of
branch_pages-Advances page p h = elim (Bool-cases (page == 1)) [
  | inl e ↦ let next : p.next_page ≡ 2 = sym (ap next_of h) ∙ rw e refl in inr (ground arith)
  | inr e ↦ elim (Bool-cases (page == 2)) [
    | inl k ↦ inl (sym (ap next_of h) ∙ rw (e, k) refl)
    | inr k ↦ inl (sym (ap next_of h) ∙ rw (e, k) refl)
  ]
]

pages_end : PagesEnd gitlab 2
unfolding next_of
pages_end p = (
  (2, omega arith, omega arith, branch_pages-Advances),
  (1, omega arith, omega arith, λ n q h. inl (sym (ap next_of h))),
  λ i. (1, omega arith, omega arith, λ n q h. inl (sym (ap next_of h))),
)

is_conventional_message_iff_example :
    (is_conventional_message (message ++ b'\n' ∷ b'x' ∷ []) ≡ true) ↔ IsConventional message
unfolding first_line
is_conventional_message_iff_example = is_conventional_message_iff (message ++ b'\n' ∷ b'x' ∷ [])

list_all-total_example :
    ((ps : List (Page Branch)) × Serves branch_page 1 ps
      × (list_all branch_page 2 1 [] ≡ listed ([] ++ concat branch_page ps)))
    ⊎ (list_all branch_page 2 1 [] ≡ refused)
list_all-total_example =
    list_all-total branch_page 2 2 1 [] branch_pages-Advances (omega arith) (omega arith)

check_step-total_example : check_step gitlab 2 request ≢ more
check_step-total_example = check_step-total gitlab 2 pages_end request

check_step-allow_example : true ≡ (
    bytes_eq (last_part project) ann
    && meets gitlab 2 request gitlab_conventional_commit_on_branch
        (main ∷ feature ∷ [])
        (open_mr ∷ []))
unfolding list_all check_step lookup judge_commits is_conventional_message
check_step-allow_example =
    check_step-allow gitlab 2 request (main ∷ feature ∷ []) (open_mr ∷ []) allowed
      (refl, (refl, tt)) refl refl refl
