-- ===== src/Checker/Pages/Termination.antt =====
-- The paged loops end, with every page's items in order.
use elearning_platform.Prelude.{
  ℕ, zero, suc, ◌+◌, ◌≤◌, ◌<◌, List, [], ◌∷◌, ◌++◌, Option, some, ◌≡◌, ◌≢◌, ◌⊎◌, inl, inr, refl, ap,
  ◌∙◌, arith, length, ◌==◌, Option-cases, false,
}
use elearning_platform.Checker.Pages.{
  Page, listed, refused, list_all, count_all, list_round, count_round,
}

append_assoc {ℓ} : {A : Type ℓ} (a b c : List A) → (a ++ b) ++ c ≡ a ++ (b ++ c)
append_assoc [] b c = refl
append_assoc (x ∷ a) b c = ap (λ s. x ∷ s) (append_assoc a b c)

append_nil {ℓ} : {A : Type ℓ} (a : List A) → a ++ [] ≡ a
append_nil [] = refl
append_nil (x ∷ a) = ap (λ s. x ∷ s) (append_nil a)

module _ {A : Type 0} (call : ℕ → Option (Page A)) where
  -- The server's pagination: the next page of a page is a later one, up to the last, or 0.
  abbrev pub Advances : ℕ → Type 0
  Advances last =
      (page : ℕ) (p : Page A)
      → call page ≡ some p
      → (p.next_page ≡ 0) ⊎ ((page < p.next_page) × (p.next_page ≤ last))

  abbrev pub concat : List (Page A) → List A
  concat [] = []
  concat (p ∷ ps) = p.items ++ concat ps

  -- The pages from a number on, as the client's calls give them.
  abbrev pub Serves : ℕ → List (Page A) → Type 0
  Serves page [] = ⊥
  Serves page (p ∷ []) = (call page ≡ some p) × (p.next_page ≡ 0)
  Serves page (p ∷ q ∷ ps) = (call page ≡ some p) × (p.next_page ≢ 0) × Serves p.next_page (q ∷ ps)

  Serves-more :
      (page : ℕ) (p : Page A) (ps : List (Page A))
      → call page ≡ some p
      → p.next_page ≢ 0
      → Serves p.next_page ps
      → Serves page (p ∷ ps)
  Serves-more page p [] c n s = absurd s
  Serves-more page p (q ∷ ps) c n s = (c, n, s)

  -- With one round for each number from the first page to the last, a listing ends: either every
  -- call succeeds, and the result is the items of all pages in order, or one fails.
  pub list_all-total :
      (last fuel page : ℕ) (all : List A)
      → Advances last
      → page ≤ last
      → last < fuel + page
      → ((ps : List (Page A)) × Serves page ps
          × (list_all call fuel page all ≡ listed (all ++ concat ps)))
        ⊎ (list_all call fuel page all ≡ refused)
  unfolding list_all
  list_all-total last zero page all adv within enough = absurd (omega arith)
  list_all-total last (suc fuel) page all adv within enough = elim (Option-cases (call page)) [
    | inl e ↦ inr (ap (list_round (list_all call fuel) all) e)
    | inr (p, e) ↦
        let round = ap (list_round (list_all call fuel) all) e in
        elim (adv page p e) [
          | inl done ↦ inl (p ∷ [], (e, done), round ∙ rw (done, append_nil p.items) refl)
          | inr ahead ↦
              let nonzero : p.next_page ≢ 0 = omega arith in
              let step : (p.next_page == 0) ≡ false = ground arith in
              let next = all ++ p.items in
              elim (list_all-total last fuel p.next_page next adv ahead.1 (omega arith)) [
                | inl (ps, s, h) ↦ inl (
                  p ∷ ps,
                  Serves-more page p ps e nonzero s,
                  round ∙ rw step (h ∙ ap listed (append_assoc all p.items (concat ps))),
                )
                | inr h ↦ inr (round ∙ rw step h)
              ]
        ]
  ]

  -- countMergedMRs ends under the same condition, with a number.
  pub count_all-total :
      (last fuel page total : ℕ)
      → Advances last
      → page ≤ last
      → last < fuel + page
      → (n : ℕ) × (count_all call fuel page total ≡ some n) × (total ≤ n)
  unfolding count_all
  count_all-total last zero page total adv within enough = absurd (omega arith)
  count_all-total last (suc fuel) page total adv within enough = elim (Option-cases (call page)) [
    | inl e ↦ (total, ap (count_round (count_all call fuel) total) e, omega arith)
    | inr (p, e) ↦
        let round = ap (count_round (count_all call fuel) total) e in
        elim (adv page p e) [
          | inl done ↦ (total + length p.items, round ∙ rw done refl, omega arith)
          | inr ahead ↦
              let step : (p.next_page == 0) ≡ false = ground arith in
              let next = total + length p.items in
              let (n, h, le) =
                count_all-total last fuel p.next_page next adv ahead.1 (omega arith) in
              (n, round ∙ rw step h, omega arith)
        ]
  ]
