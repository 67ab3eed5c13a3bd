-- ===== src/Groups/Hierarchy/Rewritten.antt =====
-- A rewrite of a subtree (group_hierarchy.go of user-service/internal/repository) keeps the table well
-- placed, if the moved row has a place.
use elearning_platform.Prelude.{
  ◌≡◌, inl, inr, sym, ◌∙◌, ap, subst, true, Option, some, arith, Bool-cases, map,
}
use elearning_platform.Prelude.Int.{ℤ, ◌+ℤ◌, ◌-ℤ◌, ◌≤ℤ◌}
use elearning_platform.Prelude.Bytes.{Bytes, bytes_eq}
use elearning_platform.Prelude.Members.{Member, Member-map}
use elearning_platform.Groups.Store.{Group, Groups, group_max_depth, get}
use elearning_platform.Groups.Hierarchy.{like_below, move_row, place_row, rewrite}
use elearning_platform.Groups.Hierarchy.Placement.{WellPlaced, Placed, get-map, get-Member}
use elearning_platform.Groups.Hierarchy.Prefixes.{same_row}
use elearning_platform.Groups.Hierarchy.Rewrites.{
  image, image-id, image_self, image_outside, image_below, Placed-image,
}

pub rewrite_row :
    (t : Groups) (g : Group) (parent : Option Bytes) (depth : ℤ) (path : Bytes) (k : Group)
    → get k.id t ≡ some k
    → get k.id (rewrite g parent depth path t) ≡ some (image g parent depth path k)
unfolding rewrite
rewrite_row t g parent depth path k h =
    get-map (place_row g.id parent depth path) (λ j. ground arith) k.id
      (map (move_row g.path path (depth -ℤ g.depth)) t) (move_row g.path path (depth -ℤ g.depth) k)
      (get-map (move_row g.path path (depth -ℤ g.depth)) (λ j. ground arith) k.id t k h)

pub own_row :
    (t : Groups) (g : Group) (parent : Option Bytes) (depth : ℤ) (path : Bytes)
    → get g.id t ≡ some g
    → get g.id (rewrite g parent depth path t)
      ≡ some (record g { parent_id = parent; depth = depth; path = path })
own_row t g parent depth path row =
    rewrite_row t g parent depth path g row ∙ ap some (image_self g parent depth path)

rewrite-Member :
    (t : Groups) (g : Group) (parent : Option Bytes) (depth : ℤ) (path : Bytes) (k : Group)
    → Member k (rewrite g parent depth path t)
    → (j : Group) × Member j t × (image g parent depth path j ≡ k)
unfolding rewrite
rewrite-Member t g parent depth path k m =
    let (i, n, e) =
      Member-map (place_row g.id parent depth path) k
        (map (move_row g.path path (depth -ℤ g.depth)) t) m in
    let (j, o, h) = Member-map (move_row g.path path (depth -ℤ g.depth)) i t n in
    (j, o, ap (place_row g.id parent depth path) h ∙ e)

image_shallow :
    (t : Groups) (g : Group) (parent : Option Bytes) (depth : ℤ) (path : Bytes)
    → WellPlaced t
    → get g.id t ≡ some g
    → depth ≤ℤ group_max_depth
    → ((k : Group)
        → Member k t
        → like_below g.path k.path ≡ true
        → k.depth +ℤ (depth -ℤ g.depth) ≤ℤ group_max_depth)
    → (k : Group) → Member k t
    → (image g parent depth path k).depth ≤ℤ group_max_depth
image_shallow t g parent depth path w row top under k m = elim (Bool-cases (bytes_eq k.id g.id)) [
  | inl same ↦
      subst (λ x. (image g parent depth path x).depth ≤ℤ group_max_depth)
        (same_row t g k row (w.keyed k m) same)
        (subst (λ x. x.depth ≤ℤ group_max_depth) (sym (image_self g parent depth path)) top)
  | inr n ↦ elim (Bool-cases (like_below g.path k.path)) [
    | inl u ↦
        subst (λ x. x.depth ≤ℤ group_max_depth) (sym (image_below g parent depth path k n u))
          (under k m u)
    | inr o ↦
        subst (λ x. x.depth ≤ℤ group_max_depth) (sym (image_outside g parent depth path k n o))
          (w.shallow k m)
  ]
]

-- A rewrite keeps the table well placed, if the moved row has a place in the new table and no row
-- gets too deep.
pub rewrite-WellPlaced :
    (t : Groups) (g : Group) (parent : Option Bytes) (depth : ℤ) (path : Bytes)
    → WellPlaced t
    → get g.id t ≡ some g
    → Placed (rewrite g parent depth path t) (image g parent depth path g)
    → depth ≤ℤ group_max_depth
    → ((k : Group)
        → Member k t
        → like_below g.path k.path ≡ true
        → k.depth +ℤ (depth -ℤ g.depth) ≤ℤ group_max_depth)
    → WellPlaced (rewrite g parent depth path t)
rewrite-WellPlaced t g parent depth path w row own top under = record {
  keyed = λ k m.
      let (j, n, e) = rewrite-Member t g parent depth path k m in
      subst (λ x. get x.id (rewrite g parent depth path t) ≡ some x) e
        (ap (λ i. get i (rewrite g parent depth path t)) (image-id g parent depth path j)
          ∙ rewrite_row t g parent depth path j (w.keyed j n));
  placed = λ k m.
      let (j, n, e) = rewrite-Member t g parent depth path k m in
      subst (Placed (rewrite g parent depth path t)) e (
        Placed-image g parent depth path t (rewrite g parent depth path t) row
          (w.placed g (get-Member g.id t g row)) (rewrite_row t g parent depth path) own
          (w.placed j n));
  shallow = λ k m.
      let (j, n, e) = rewrite-Member t g parent depth path k m in
      subst (λ x. x.depth ≤ℤ group_max_depth) e
        (image_shallow t g parent depth path w row top under j n);
}
