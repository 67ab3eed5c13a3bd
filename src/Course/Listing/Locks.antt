-- ===== src/Course/Listing/Locks.antt =====
-- What the locks of the module list mean, and what they hide: `ListModules` and `buildModuleListEntry`
-- of course-service/internal/handlers/modules.go.
use elearning_platform.Prelude.{
  ℕ, suc, ◌≡◌, refl, ◌↔◌, ◌⊎◌, String, Bool, true, false, not, ◌&&◌, ◌||◌, List, [], ◌∷◌, ◌++◌,
  some, arith, contains, All, get_elem?, length, if◌then◌else◌,
}
use elearning_platform.Prelude.Float64.{Float64}
use elearning_platform.Content.Slug.{Unicode}
use elearning_platform.Content.Module.{Module, slug}
use elearning_platform.Course.View.{CourseProgress}
use elearning_platform.Course.Listing.{
  ModuleResponse, is_locked, build_module_list_entry, list_entries,
}

is_locked-false_iff :
    (prereqs done : List String)
    → (is_locked prereqs done ≡ false) ↔ All (λ s. contains done s ≡ true) prereqs
unfolding is_locked
is_locked-false_iff [] done = (λ h. tt, λ h. refl)
is_locked-false_iff (s ∷ rest) done =
    let (to, from) = is_locked-false_iff rest done in
    (λ h. (ground arith, to (ground arith)), λ h. ground (arith, from h.1))

module _ {f : Float64} (u : Unicode) where
  -- The last module that is not inline, among those before a position, is done; so is the start.
  abbrev pub PreviousDone : List String → Bool → List (Module f) → Type 0
  PreviousDone done start [] = start ≡ true
  PreviousDone done start (m ∷ rest) =
      PreviousDone done (if m.inline then start else contains done (slug u m)) rest

  -- Where the list splits at a module, its entry is unlocked for a learner exactly when the module's
  -- prerequisites are done and it is inline or the last module before it that is not inline is done.
  pub list_entries-unlocked_iff :
      (done : List String) (progress : CourseProgress) (idx : ℕ) (start : Bool)
      (before after : List (Module f)) (m : Module f)
      → (e : ModuleResponse) × (get_elem?
            (list_entries u false done progress idx start (before ++ m ∷ after))
            (length before)
          ≡ some e)
        × (e.slug ≡ slug u m)
        × ((e.locked ≡ false) ↔ (
            All (λ s. contains done s ≡ true) m.prerequisites
            × ((m.inline ≡ true) ⊎ PreviousDone done start before)))
  unfolding list_entries
  list_entries-unlocked_iff done progress idx start [] after m =
      let (to, from) = is_locked-false_iff m.prerequisites done in
      let locked = is_locked m.prerequisites done || not m.inline && not start in
      (
        build_module_list_entry u m idx false locked progress.viewed progress.modules,
        refl,
        unfold build_module_list_entry in refl,
        unfold build_module_list_entry in
            (λ h. (to (ground arith), ground arith), λ h. ground (arith, from h.0)),
      )
  list_entries-unlocked_iff done progress idx start (b ∷ before) after m =
      list_entries-unlocked_iff done progress (suc idx)
        (if b.inline then start else contains done (slug u b)) before after m
