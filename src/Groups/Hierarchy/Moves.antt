-- ===== src/Groups/Hierarchy/Moves.antt =====
-- MoveGroup (group_hierarchy.go of user-service/internal/repository) keeps the table well placed.
use elearning_platform.Prelude.{
  ◌≡◌, inl, inr, refl, sym, ◌∙◌, ap, subst, false, [], ◌∷◌, ◌++◌, Option, none, some, arith,
  Bool-cases, Option-cases,
}
use elearning_platform.Prelude.Int.{pos, ◌+ℤ◌, ◌-ℤ◌, +ℤ_parts, -ℤ_parts, ltb_ℤ}
use elearning_platform.Prelude.Bytes.{
  Bytes, bytes_eq, starts_with, starts_with-append, starts_with-extension, append_nil,
}
use elearning_platform.Groups.Store.{
  Group, Groups, group_max_depth, get, get_text, Uuids, Faults, ok, failed, parent_not_found,
  group_not_found,
}
use elearning_platform.Groups.Hierarchy.{
  slash, like_below, rewrite, max_descendant_depth, move_group, move_found, attach, move_to_root,
}
use elearning_platform.Groups.Hierarchy.Placement.{
  WellPlaced, Placed, root, child, Placed-IsRow, Placed-measure, get-Member, get_text-row,
}
use elearning_platform.Groups.Hierarchy.Prefixes.{same_row}
use elearning_platform.Groups.Hierarchy.Depths.{
  max_descendant_depth_bound, max_descendant_depth_nonneg,
}
use elearning_platform.Groups.Hierarchy.Rewrites.{image_self, Placed-outside}
use elearning_platform.Groups.Hierarchy.Rewritten.{rewrite_row, own_row, rewrite-WellPlaced}

-- The cycle check refuses the moved row and every row that moves with it.
not_own :
    (t : Groups) (g p : Group)
    → get g.id t ≡ some g
    → get p.id t ≡ some p
    → starts_with g.path p.path ≡ false
    → (bytes_eq p.id g.id ≡ false) × (like_below g.path p.path ≡ false)
not_own t g p row parent h =
    let longer = starts_with-extension g.path (slash ∷ []) p.path in
    let own = sym (ap (starts_with g.path) (append_nil g.path)) ∙ starts_with-append g.path [] in
    let same = same_row t g p row parent in
    (
      elim (Bool-cases (bytes_eq p.id g.id)) [
        | inl e ↦ cc (sym h ∙ ap (λ x. starts_with g.path x.path) (sym (same e)) ∙ own)
        | inr n ↦ n
      ],
      elim (Bool-cases (like_below g.path p.path)) [ inl e ↦ cc (sym h ∙ longer e) | inr n ↦ n ],
    )

move_to_root-WellPlaced :
    (f : Faults) (t t' : Groups) (g : Group)
    → WellPlaced t
    → get g.id t ≡ some g
    → move_to_root f g.id g t ≡ ok t'
    → WellPlaced t'
unfolding move_to_root
move_to_root-WellPlaced f t t' g w row h =
    let here = w.placed g (get-Member g.id t g row) in
    let moved : rewrite g none (pos 0) g.id t ≡ t' = ground arith in
    subst WellPlaced moved (
      rewrite-WellPlaced t g none (pos 0) g.id w row
        (subst (Placed (rewrite g none (pos 0) g.id t)) (sym (image_self g none (pos 0) g.id))
          (root (own_row t g none (pos 0) g.id row, (Placed-IsRow here).1) refl refl refl))
        (omega arith)
        (λ k m u. ground (
          arith,
          Placed-measure here,
          w.shallow k m,
          +ℤ_parts k.depth (pos 0 -ℤ g.depth),
          -ℤ_parts (pos 0) g.depth,
        )))

-- A row under a parent that the checks let through.
under_parent :
    (t : Groups) (g p : Group)
    → WellPlaced t
    → get g.id t ≡ some g
    → get p.id t ≡ some p
    → starts_with g.path p.path ≡ false
    → ltb_ℤ group_max_depth (p.depth +ℤ pos 1 +ℤ max_descendant_depth g.path t) ≡ false
    → WellPlaced (rewrite g (some p.id) (p.depth +ℤ pos 1) (p.path ++ slash ∷ g.id) t)
under_parent t g p w row parent cycle fits =
    let depth = p.depth +ℤ pos 1 in
    let path = p.path ++ slash ∷ g.id in
    let t' = rewrite g (some p.id) depth path t in
    let here = w.placed g (get-Member g.id t g row) in
    let there = w.placed p (get-Member p.id t p parent) in
    let (other, outside) = not_own t g p row parent cycle in
    let deepest = max_descendant_depth g.path t in
    let sums = +ℤ_parts depth deepest in
    let sum = +ℤ_parts p.depth (pos 1) in
    let nonneg = max_descendant_depth_nonneg g.path t (λ k m. (Placed-measure (w.placed k m)).0) in
    rewrite-WellPlaced t g (some p.id) depth path w row
      (subst (Placed t') (sym (image_self g (some p.id) depth path)) (
        child
          (Placed-outside g (some p.id) depth path t t' row here
            (rewrite_row t g (some p.id) depth path) there other outside)
          (own_row t g (some p.id) depth path row, (Placed-IsRow here).1) refl refl refl))
      (ground arith)
      (λ k m u. ground (
        arith,
        Placed-measure here,
        max_descendant_depth_bound g.path t k m u,
        +ℤ_parts k.depth (depth -ℤ g.depth),
        -ℤ_parts depth g.depth,
      ))

attach-none :
    (f : Faults) (text : Bytes) (g : Group) (parsed : Option Bytes) (t : Groups)
    → attach f text g parsed t none ≡ failed parent_not_found
unfolding attach
attach-none f text g parsed t = refl

move_found-none :
    (u : Uuids) (f : Faults) (text : Bytes) (parent : Option Bytes) (t : Groups)
    → move_found u f text parent t none ≡ failed group_not_found
unfolding move_found
move_found-none u f text parent t = refl

attach-WellPlaced :
    (f : Faults) (t t' : Groups) (g p : Group)
    → WellPlaced t
    → get g.id t ≡ some g
    → get p.id t ≡ some p
    → attach f g.id g (some p.id) t (some p) ≡ ok t'
    → WellPlaced t'
unfolding attach
attach-WellPlaced f t t' g p w row parent h =
    let depth = p.depth +ℤ pos 1 in
    let attached : rewrite g (some p.id) depth (p.path ++ slash ∷ g.id) t ≡ t' = ground arith in
    subst WellPlaced attached (under_parent t g p w row parent (ground arith) (ground arith))

move_found-WellPlaced :
    (u : Uuids) (f : Faults) (parent : Option Bytes) (t t' : Groups) (g : Group)
    → ((text : Bytes) → parent ≡ some text → u.cast text ≡ u.parse text)
    → WellPlaced t
    → get g.id t ≡ some g
    → move_found u f g.id parent t (some g) ≡ ok t'
    → WellPlaced t'
unfolding move_found
move_found-WellPlaced u f none t t' g same w row h = move_to_root-WellPlaced f t t' g w row h
move_found-WellPlaced u f (some text) t t' g same w row h =
    elim (Option-cases (get_text u text t)) [
      | inl e ↦
          cc (
            sym (ap (attach f g.id g (u.parse text) t) e) ∙ h,
            attach-none f g.id g (u.parse text) t,
          )
      | inr (p, found) ↦
          let (cast, row') = get_text-row u text t p found in
          let parsed = sym (same text refl) ∙ cast in
          attach-WellPlaced f t t' g p w row row' (
            sym (ap (λ o. attach f g.id g o t (some p)) parsed)
            ∙ sym (ap (attach f g.id g (u.parse text) t) found)
            ∙ h)
    ]

-- MoveGroup keeps a table of groups well placed, to a new parent or to the root, if the request
-- spells the group's UUID canonically and the two readings of the parent's text agree.
pub move_group-WellPlaced :
    (u : Uuids) (f : Faults) (text : Bytes) (parent : Option Bytes) (t t' : Groups)
    → u.cast text ≡ some text
    → ((p : Bytes) → parent ≡ some p → u.cast p ≡ u.parse p)
    → WellPlaced t
    → move_group u f text parent t ≡ ok t'
    → WellPlaced t'
unfolding move_group
move_group-WellPlaced u f text parent t t' canonical same w h =
    elim (Option-cases (get_text u text t)) [
      | inl e ↦
          cc (sym (ap (move_found u f text parent t) e) ∙ h, move_found-none u f text parent t)
      | inr (g, found) ↦
          let (cast, row) = get_text-row u text t g found in
          let key : g.id ≡ text = ground (arith, sym cast ∙ canonical) in
          move_found-WellPlaced u f parent t t' g same w row (
            ap (λ i. move_found u f i parent t (some g)) key
            ∙ sym (ap (move_found u f text parent t) found)
            ∙ h)
    ]
