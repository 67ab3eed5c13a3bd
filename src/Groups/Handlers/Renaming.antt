-- ===== src/Groups/Handlers/Renaming.antt =====
-- Renaming a group keeps the table well placed.
use elearning_platform.Prelude.{
  String, ◌∷◌, ◌++◌, some, ◌≡◌, inl, inr, refl, sym, ap, subst, ◌∙◌, arith, if◌then◌else◌, map,
  Bool-cases,
}
use elearning_platform.Prelude.Int.{pos, ◌+ℤ◌, ◌≤ℤ◌}
use elearning_platform.Prelude.Bytes.{Bytes}
use elearning_platform.Prelude.Members.{Member-map}
use elearning_platform.Groups.Store.{
  Group, Groups, Faults, ok, update_group, is_local, group_max_depth, get,
}
use elearning_platform.Groups.Hierarchy.{slash}
use elearning_platform.Groups.Hierarchy.Placement.{WellPlaced, Placed, root, child, IsRow, get-map}

rename : Bytes → String → Group → Group
rename id name g = if is_local id g then record g { name = name } else g

rename_fields :
    (id : Bytes) (name : String) (g : Group)
    → ((rename id name g).id ≡ g.id)
      × ((rename id name g).parent_id ≡ g.parent_id)
      × ((rename id name g).depth ≡ g.depth)
      × ((rename id name g).path ≡ g.path)
unfolding rename
rename_fields id name g = elim (Bool-cases (is_local id g)) [
  | inl e ↦ rw e (refl, refl, refl, refl)
  | inr e ↦ rw e (refl, refl, refl, refl)
]

rename-IsRow :
    (id : Bytes) (name : String) (t : Groups) (g : Group)
    → IsRow t g
    → IsRow (map (rename id name) t) (rename id name g)
unfolding rename
rename-IsRow id name t g r =
    let (same, _, _, _) = rename_fields id name g in
    rw same (get-map (rename id name) (λ k. (rename_fields id name k).0) g.id t g r.0, r.1)

Placed-rename :
    (id : Bytes) (name : String) (t : Groups) {g : Group}
    → Placed t g
    → Placed (map (rename id name) t) (rename id name g)
Placed-rename id name t {g} (root r p d e) =
    let (i, q, n, s) = rename_fields id name g in
    root (rename-IsRow id name t g r) (q ∙ p) (n ∙ d) (s ∙ e ∙ sym i)
Placed-rename id name t {g} (child {p = k} c r p d e) =
    let (i, q, n, s) = rename_fields id name g in
    let (j, _, l, o) = rename_fields id name k in
    child (Placed-rename id name t c) (rename-IsRow id name t g r) (q ∙ p ∙ ap some (sym j))
      (n ∙ d ∙ ap (λ x. x +ℤ pos 1) (sym l))
      (s
        ∙ e
        ∙ ap (λ x. x ++ slash ∷ g.id) (sym o)
        ∙ ap (λ x. (rename id name k).path ++ slash ∷ x) (sym i))

rename-WellPlaced :
    (id : Bytes) (name : String) (t : Groups) → WellPlaced t → WellPlaced (map (rename id name) t)
rename-WellPlaced id name t w =
    let renamed = map (rename id name) t in
    record {
      keyed = λ k m.
          let (j, n, e) = Member-map (rename id name) k t m in
          subst (λ x. get x.id renamed ≡ some x) e
            (ap (λ i. get i renamed) (rename_fields id name j).0
              ∙ get-map (rename id name) (λ x. (rename_fields id name x).0) j.id t j (w.keyed j n));
      placed = λ k m.
          let (j, n, e) = Member-map (rename id name) k t m in
          subst (Placed renamed) e (Placed-rename id name t (w.placed j n));
      shallow = λ k m.
          let (j, n, e) = Member-map (rename id name) k t m in
          subst (λ x. x.depth ≤ℤ group_max_depth) e
            (subst (λ d. d ≤ℤ group_max_depth) (sym (rename_fields id name j).2) (w.shallow j n));
    }

pub update_group-WellPlaced :
    (f : Faults) (id : Bytes) (name : String) (t t' : Groups)
    → WellPlaced t
    → update_group f id name t ≡ ok t'
    → WellPlaced t'
unfolding update_group rename
update_group-WellPlaced f id name t t' w h =
    let renamed : map (rename id name) t ≡ t' = ground arith in
    subst WellPlaced renamed (rename-WellPlaced id name t w)
