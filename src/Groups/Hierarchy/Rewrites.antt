-- ===== src/Groups/Hierarchy/Rewrites.antt =====
-- What the two updates of MoveGroup make of each row, and that a placed row stays placed.
use elearning_platform.Prelude.{
  ℕ, ◌≤◌, ◌≡◌, ◌⊎◌, inl, inr, refl, sym, ◌∙◌, ap, subst, Bool, true, false, ◌∷◌, ◌++◌, Option, some,
  arith, length, Bool-cases,
}
use elearning_platform.Prelude.Int.{ℤ, pos, ◌+ℤ◌, ◌-ℤ◌, +ℤ_parts, -ℤ_parts, eq_of_parts}
use elearning_platform.Prelude.Bytes.{
  Bytes, bytes_eq, bytes_eq_iff, drop, drop_all, drop-append_of_length, append_assoc, append_nil,
}
use elearning_platform.Groups.Store.{Group, Groups, get}
use elearning_platform.Groups.Hierarchy.{slash, like_below, move_row, place_row}
use elearning_platform.Groups.Hierarchy.Placement.{IsRow, Placed, root, child, Placed-IsRow}
use elearning_platform.Groups.Hierarchy.Prefixes.{
  like_below_step, like_below-length, like_below_root, like_below_irrefl, extend_same, extend_below,
  same_row,
}

clash : (b : Bool) → b ≡ true → b ≡ false → ⊥
clash b h k = cc (sym h ∙ k)

shift_depth : (k q delta : ℤ) → k ≡ q +ℤ pos 1 → k +ℤ delta ≡ (q +ℤ delta) +ℤ pos 1
shift_depth k q delta e = rw e (
    ground (
      arith,
      eq_of_parts ((q +ℤ pos 1) +ℤ delta) ((q +ℤ delta) +ℤ pos 1),
      +ℤ_parts (q +ℤ pos 1) delta,
      +ℤ_parts q (pos 1),
      +ℤ_parts (q +ℤ delta) (pos 1),
      +ℤ_parts q delta,
    ))

split_path :
    (path : Bytes) (n : ℕ) (s r : Bytes)
    → n ≤ length s
    → path ++ drop n (s ++ r) ≡ (path ++ drop n s) ++ r
split_path path n s r h =
    ap (λ x. path ++ x) (drop-append_of_length n s r h) ∙ sym (append_assoc path (drop n s) r)

module _ (g : Group) (parent : Option Bytes) (depth : ℤ) (path : Bytes) where
  -- What the two updates make of a row.
  abbrev pub image : Group → Group
  image k = place_row g.id parent depth path (move_row g.path path (depth -ℤ g.depth) k)

  pub image_outside :
      (k : Group) → bytes_eq k.id g.id ≡ false → like_below g.path k.path ≡ false → image k ≡ k
  image_outside k n o = rw (o, n) refl

  pub image_below :
      (k : Group)
      → bytes_eq k.id g.id ≡ false
      → like_below g.path k.path ≡ true
      → image k ≡ record k {
        path = path ++ drop (length g.path) k.path;
        depth = k.depth +ℤ (depth -ℤ g.depth);
      }
  image_below k n o = rw (o, n) refl

  pub image-id : (k : Group) → (image k).id ≡ k.id
  image-id k = ground arith

  pub image_self : image g ≡ record g { parent_id = parent; depth = depth; path = path }
  image_self = ground (arith, bytes_eq_iff g.id g.id)

  module _ (t t' : Groups) (row : get g.id t ≡ some g) (placed : Placed t g)
      (rows : (k : Group) → get k.id t ≡ some k → get k.id t' ≡ some (image k)) where
    outside-IsRow :
        {k : Group}
        → IsRow t k
        → bytes_eq k.id g.id ≡ false
        → like_below g.path k.path ≡ false
        → IsRow t' k
    outside-IsRow {k} r n o = (rows k r.0 ∙ ap some (image_outside k n o), r.1)

    image-IsRow : {k : Group} → IsRow t k → IsRow t' (image k)
    image-IsRow {k} r = rw (image-id k) (rows k r.0, r.1)

    -- The parent of a row that is neither the moved one nor below it is such a row too.
    parent_outside :
        (k : Group) {q : Group}
        → Placed t q
        → k.path ≡ q.path ++ slash ∷ k.id
        → like_below g.path k.path ≡ false
        → (bytes_eq q.id g.id ≡ false) × (like_below g.path q.path ≡ false)
    parent_outside k {q} c e o = elim (Bool-cases (bytes_eq q.id g.id)) [
      | inl same ↦ absurd (
          clash (like_below g.path k.path)
            (ap (like_below g.path) (
                e
                ∙ ap (λ x. x.path ++ slash ∷ k.id)
                    (sym (same_row t g q row (Placed-IsRow c).0 same)))
              ∙ extend_same g.path k.id)
            o)
      | inr n ↦ elim (Bool-cases (like_below g.path q.path)) [
        | inl under ↦ absurd (
            clash (like_below g.path k.path)
              (ap (like_below g.path) e ∙ extend_below g.path q.path k.id under) o)
        | inr out ↦ (n, out)
      ]
    ]

    pub Placed-outside :
        {k : Group}
        → Placed t k
        → bytes_eq k.id g.id ≡ false
        → like_below g.path k.path ≡ false
        → Placed t' k
    Placed-outside {k} (root r p d e) n o = root (outside-IsRow r n o) p d e
    Placed-outside {k} (child {p = q} c r p d e) n o =
        let (m, out) = parent_outside k c e o in
        child (Placed-outside c m out) (outside-IsRow r n o) p d e

    -- The moved row and the rows below it.
    abbrev IsInside : Group → Type 0
    IsInside q = (g ≡ q) ⊎ (like_below g.path q.path ≡ true)

    pub below_other :
        (q : Group) → IsRow t q → like_below g.path q.path ≡ true → bytes_eq q.id g.id ≡ false
    below_other q r under = elim (Bool-cases (bytes_eq q.id g.id)) [
      | inl same ↦ absurd (
          clash (like_below g.path g.path)
            (ap (λ x. like_below g.path x.path) (same_row t g q row r.0 same) ∙ under)
            (like_below_irrefl g.path))
      | inr n ↦ n
    ]

    inside_length : (q : Group) → IsInside q → length g.path ≤ length q.path
    inside_length q (inl same) = omega (arith, ap (λ x. length x.path) same)
    inside_length q (inr under) = omega (arith, like_below-length g.path q.path under)

    image-path_inside :
        (q : Group) → IsRow t q → IsInside q → (image q).path ≡ path ++ drop (length g.path) q.path
    image-path_inside q r (inl same) =
        rw (sym same, image_self, drop_all g.path) (sym (append_nil path))
    image-path_inside q r (inr under) = rw (image_below q (below_other q r under) under) refl

    image-depth_inside :
        (q : Group) → IsRow t q → IsInside q → (image q).depth ≡ q.depth +ℤ (depth -ℤ g.depth)
    image-depth_inside q r (inl same) =
        rw (sym same, image_self)
          (ground (
            arith,
            eq_of_parts depth (g.depth +ℤ (depth -ℤ g.depth)),
            +ℤ_parts g.depth (depth -ℤ g.depth),
            -ℤ_parts depth g.depth,
          ))
    image-depth_inside q r (inr under) = rw (image_below q (below_other q r under) under) refl

    Placed-below :
        {k q : Group}
        → Placed t q
        → IsRow t k
        → k.parent_id ≡ some q.id
        → k.depth ≡ q.depth +ℤ pos 1
        → k.path ≡ q.path ++ slash ∷ k.id
        → like_below g.path k.path ≡ true
        → IsInside q
        → Placed t' (image q)
        → Placed t' (image k)
    Placed-below {k} {q} c r p d e under inside placed' =
        let shape = image_below k (below_other k r under) under in
        let qr = Placed-IsRow c in
        child placed' (image-IsRow r) (ap (λ x. x.parent_id) shape ∙ p ∙ ap some (sym (image-id q)))
          (ap (λ x. x.depth) shape
            ∙ shift_depth k.depth q.depth (depth -ℤ g.depth) d
            ∙ ap (λ x. x +ℤ pos 1) (sym (image-depth_inside q qr inside)))
          (ap (λ x. x.path) shape
            ∙ rw e (split_path path (length g.path) q.path (slash ∷ k.id) (inside_length q inside))
            ∙ ap (λ x. x ++ slash ∷ k.id) (sym (image-path_inside q qr inside))
            ∙ ap (λ x. (image q).path ++ slash ∷ x) (sym (image-id k)))

    Placed-under :
        Placed t' (image g)
        → {k : Group} → Placed t k
        → like_below g.path k.path ≡ true
        → Placed t' (image k)
    Placed-under own {k} (root r p d e) under = absurd (
        clash (like_below g.path k.path) under
          (ap (like_below g.path) e ∙ like_below_root k.id placed r.1))
    Placed-under own {k} (child {p = q} c r p d e) under =
        elim (like_below_step k.id placed c r.1 (sym (ap (like_below g.path) e) ∙ under)) [
          | inl same ↦
              Placed-below c r p d e under (inl same) (subst (λ x. Placed t' (image x)) same own)
          | inr above ↦ Placed-below c r p d e under (inr above) (Placed-under own c above)
        ]

    -- Every row, once the moved one has its place.
    pub Placed-image : Placed t' (image g) → {k : Group} → Placed t k → Placed t' (image k)
    Placed-image own {k} a = elim (Bool-cases (bytes_eq k.id g.id)) [
      | inl same ↦ subst (λ x. Placed t' (image x)) (same_row t g k row (Placed-IsRow a).0 same) own
      | inr n ↦ elim (Bool-cases (like_below g.path k.path)) [
        | inl under ↦ Placed-under own a under
        | inr out ↦ rw (image_outside k n out) (Placed-outside a n out)
      ]
    ]
