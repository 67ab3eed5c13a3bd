-- ===== src/Groups/Hierarchy/Subtrees.antt =====
-- The subtree that a path finds is the rows below by the parents' ids, and the cycle check of
-- MoveGroup refuses exactly the group and that subtree.
use elearning_platform.Prelude.{
  ◌≡◌, ◌⊎◌, inl, inr, refl, sym, ◌∙◌, ap, ◌↔◌, true, [], ◌∷◌, Option, none, some, arith, length,
  length-append, keep,
}
use elearning_platform.Prelude.Bytes.{
  Bytes, starts_with, starts_with-length, starts_with-extension, starts_with-append,
  starts_with_whole, starts_with-append_of_length, append_nil,
}
use elearning_platform.Prelude.Members.{Member, Member-keep}
use elearning_platform.Groups.Store.{
  Group, Groups, get, get_text, Uuids, Faults, ok, failed, own_descendant, group_not_found,
}
use elearning_platform.Groups.Hierarchy.{slash, like_below, get_descendants, get_ancestors, attach}
use elearning_platform.Groups.Hierarchy.Placement.{
  WellPlaced, Placed, root, child, Below, direct, deeper, Placed-measure, Placed-path_inj,
  get-Member, find_by,
}
use elearning_platform.Groups.Hierarchy.Prefixes.{
  like_below-Below, Below-like_below, Below-get, le_cases,
}

row-Placed : {t : Groups} → WellPlaced t → (k : Group) → get k.id t ≡ some k → Placed t k
row-Placed {t} w k r = w.placed k (get-Member k.id t k r)

found_ok :
    (u : Uuids) (text : Bytes) (t : Groups) (g : Group)
    → u.cast text ≡ some g.id
    → get g.id t ≡ some g
    → get_text u text t ≡ some g
found_ok u text t g cast row = ap (find_by t) cast ∙ row

-- GetDescendants of a group in a well-placed table returns exactly the rows of the table that are
-- below it by the chain of parents, and it does not fail.
pub get_descendants-Below :
    (u : Uuids) (text : Bytes) (t : Groups) (g : Group)
    → WellPlaced t
    → u.cast text ≡ some g.id
    → get g.id t ≡ some g
    → (rows : Groups) × (get_descendants u text t ≡ ok rows)
      × ((h : Group) → Member h rows ↔ Below t g h)
unfolding get_descendants
get_descendants-Below u text t g w cast row = (
  keep (λ h. like_below g.path h.path) t,
  ap
      (λ o. elim o [
        | none ↦ failed group_not_found
        | some group ↦ ok (keep (λ k. like_below group.path k.path) t)
      ])
      (found_ok u text t g cast row),
  λ h. (
    λ m.
        let (old, under) = (Member-keep (λ k. like_below g.path k.path) h t).0 m in
        like_below-Below (row-Placed w g row) (w.placed h old) under,
    λ b.
        (Member-keep (λ k. like_below g.path k.path) h t).1 (
          get-Member h.id t h (Below-get b),
          Below-like_below (row-Placed w) (row-Placed w g row) b,
        ),
  ),
)

-- GetAncestors of a group in a well-placed table returns exactly the rows of the table that it is
-- below by the chain of parents, and it does not fail.
pub get_ancestors-Below :
    (u : Uuids) (text : Bytes) (t : Groups) (g : Group)
    → WellPlaced t
    → u.cast text ≡ some g.id
    → get g.id t ≡ some g
    → (rows : Groups) × (get_ancestors u text t ≡ ok rows)
      × ((h : Group) → Member h rows ↔ (Member h t × Below t h g))
unfolding get_ancestors
get_ancestors-Below u text t g w cast row = (
  keep (λ h. like_below h.path g.path) t,
  ap
      (λ o. elim o [
        | none ↦ failed group_not_found
        | some group ↦ ok (keep (λ k. like_below k.path group.path) t)
      ])
      (found_ok u text t g cast row),
  λ h. (
    λ m.
        let (old, under) = (Member-keep (λ k. like_below k.path g.path) h t).0 m in
        (old, like_below-Below (w.placed h old) (row-Placed w g row) under),
    λ b.
        (Member-keep (λ k. like_below k.path g.path) h t).1
          (b.0, Below-like_below (row-Placed w) (w.placed h b.0) b.1),
  ),
)

-- A prefix of a path is the path itself or belongs to a row above.
starts_with-above :
    {t : Groups} {g p : Group}
    → Placed t g
    → Placed t p
    → starts_with g.path p.path ≡ true
    → (g ≡ p) ⊎ Below t g p
starts_with-above {t} {g} {p} a (root r q d e) h =
    let (_, m) = Placed-measure a in
    let bound = starts_with-length g.path p.path h in
    let whole = ap length e in
    inl (Placed-path_inj a (root r q d e) (starts_with_whole g.path p.path h (omega (arith, r.1))))
starts_with-above {t} {g} {p} a (child {p = k} c r q d e) h =
    let (_, m) = Placed-measure a in
    let (_, n) = Placed-measure (child c r q d e) in
    let (_, l) = Placed-measure c in
    let whole = ap length e in
    let sum = length-append k.path (slash ∷ p.id) in
    elim (le_cases (length g.path) (length p.path) (starts_with-length g.path p.path h)) [
      | inl same ↦
          inl (Placed-path_inj a (child c r q d e) (starts_with_whole g.path p.path h same))
      | inr longer ↦
          let fits =
            starts_with-append_of_length g.path k.path (slash ∷ p.id) (omega (arith, r.1)) in
          elim (starts_with-above a c (sym fits ∙ sym (ap (starts_with g.path) e) ∙ h)) [
            | inl parent ↦ inr (direct r.0 (q ∙ ap (λ x. some x.id) (sym parent)))
            | inr above ↦ inr (deeper above r.0 q)
          ]
    ]

above-starts_with :
    {t : Groups} {g p : Group}
    → WellPlaced t
    → get g.id t ≡ some g
    → (g ≡ p) ⊎ Below t g p
    → starts_with g.path p.path ≡ true
above-starts_with {t} {g} {p} w row (inl same) =
    rw (sym same) (sym (ap (starts_with g.path) (append_nil g.path)) ∙ starts_with-append g.path [])
above-starts_with {t} {g} {p} w row (inr below) =
    starts_with-extension g.path (slash ∷ []) p.path
      (Below-like_below (row-Placed w) (row-Placed w g row) below)

-- In a well-placed table with rows for the group and for the new parent, MoveGroup to that parent fails
-- with "cannot move group under one of its own descendants" exactly if the new parent is the group
-- itself or is below it by the chain of parents.
pub attach-own_descendant_iff :
    (f : Faults) (text : Bytes) (parsed : Option Bytes) (t : Groups) (g p : Group)
    → WellPlaced t
    → get g.id t ≡ some g
    → get p.id t ≡ some p
    → (attach f text g parsed t (some p) ≡ failed own_descendant) ↔ ((g ≡ p) ⊎ Below t g p)
unfolding attach
attach-own_descendant_iff f text parsed t g p w row parent = (
  λ h. starts_with-above (row-Placed w g row) (row-Placed w p parent) (ground (arith)),
  λ h. rw (above-starts_with w row h) refl,
)
