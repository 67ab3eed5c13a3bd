-- ===== src/Groups/Hierarchy/Creation.antt =====
-- Inserting a group keeps the table well placed.
use elearning_platform.Prelude.{
  ◌≡◌, inl, inr, refl, sym, ◌∙◌, ap, subst, false, ◌||◌, [], ◌∷◌, ◌++◌, none, some, arith, String,
  Bool-cases, Option-cases, str_eq,
}
use elearning_platform.Prelude.Int.{pos, ◌≤ℤ◌, +ℤ_parts, leb_ℤ}
use elearning_platform.Prelude.Bytes.{Bytes, bytes_eq, bytes_eq_iff}
use elearning_platform.Prelude.Members.{Member, any-false}
use elearning_platform.Groups.Store.{
  Group, Groups, group_max_depth, get, get_text, Uuids, Faults, ok, failed, parent_not_found,
  create, conflicts, set_path, new_group,
}
use elearning_platform.Groups.Hierarchy.{slash, create_subgroup, subgroup_of, with_parent}
use elearning_platform.Groups.Hierarchy.Placement.{
  IsUuid, WellPlaced, Placed, root, child, Placed-IsRow, get-Member, get_text-row,
}

bytes_eq_sym : (a b : Bytes) → bytes_eq a b ≡ false → bytes_eq b a ≡ false
bytes_eq_sym a b h = ground (arith, bytes_eq_iff a b, bytes_eq_iff b a)

-- Rows that stay where they are stay placed.
Placed-transport :
    {t t' : Groups} {g : Group}
    → ((k : Group) → get k.id t ≡ some k → get k.id t' ≡ some k)
    → Placed t g
    → Placed t' g
Placed-transport {t} {t'} {g} s (root r p d e) = root (s g r.0, r.1) p d e
Placed-transport {t} {t'} {g} s (child c r p d e) =
    child (Placed-transport s c) (s g r.0, r.1) p d e

IsFresh : Bytes → Groups → Type 0
IsFresh id t = (k : Group) → Member k t → bytes_eq k.id id ≡ false

insert_row :
    (n : Group) (t : Groups)
    → IsFresh n.id t
    → (k : Group) → get k.id t ≡ some k
    → get k.id (n ∷ t) ≡ some k
unfolding IsFresh
insert_row n t fresh k h = rw (bytes_eq_sym k.id n.id (fresh k (get-Member k.id t k h))) h

insert-WellPlaced :
    (n : Group) (t : Groups)
    → IsFresh n.id t
    → WellPlaced t
    → Placed (n ∷ t) n
    → n.depth ≤ℤ group_max_depth
    → WellPlaced (n ∷ t)
insert-WellPlaced n t fresh w own top = record {
  keyed = λ k m. elim m [
    | inl e ↦ subst (λ x. get x.id (n ∷ t) ≡ some x) e (Placed-IsRow own).0
    | inr old ↦ insert_row n t fresh k (w.keyed k old)
  ];
  placed = λ k m. elim m [
    | inl e ↦ subst (Placed (n ∷ t)) e own
    | inr old ↦ Placed-transport (insert_row n t fresh) (w.placed k old)
  ];
  shallow = λ k m. elim m [
    | inl e ↦ subst (λ x. x.depth ≤ℤ group_max_depth) e top
    | inr old ↦ w.shallow k old
  ];
}

conflicts-IsFresh :
    (id : Bytes) (name : String) (t : Groups) → conflicts id name t ≡ false → IsFresh id t
unfolding IsFresh
conflicts-IsFresh id name t h k m =
    let one = any-false (λ g. bytes_eq g.id id || str_eq g.name name) k t h m in ground arith

set_path_fresh : (id path : Bytes) (t : Groups) → IsFresh id t → set_path id path t ≡ t
unfolding IsFresh
set_path_fresh id path [] f = refl
set_path_fresh id path (k ∷ t) f =
    rw (f k (inl refl), set_path_fresh id path t (λ j m. f j (inr m))) refl

-- The row that an insert leaves.
inserted :
    (n : Group) (path : Bytes) (t : Groups)
    → IsFresh n.id t
    → set_path n.id path (n ∷ t) ≡ record n { path = path } ∷ t
inserted n path t f = rw ((bytes_eq_iff n.id n.id).1 refl, set_path_fresh n.id path t f) refl

own_get : (n : Group) (t : Groups) → get n.id (n ∷ t) ≡ some n
own_get n t = rw ((bytes_eq_iff n.id n.id).1 refl) refl

-- Creating a root group keeps a table of groups well placed, whether a row is inserted or the name
-- is taken, if the generated id has the length of a UUID.
pub create-WellPlaced :
    (f : Faults) (id : Bytes) (name : String) (t t' : Groups) (created : Bytes)
    → IsUuid id
    → WellPlaced t
    → create f id name t ≡ ok (t', created)
    → WellPlaced t'
unfolding create
create-WellPlaced f id name t t' created uuid w h = elim (Bool-cases (conflicts id name t)) [
  | inl taken ↦ let same : t ≡ t' = ground arith in subst WellPlaced same w
  | inr free ↦
      let fresh = conflicts-IsFresh id name t free in
      let n = record (new_group id name) { path = id } in
      let row : set_path id id (new_group id name ∷ t) ≡ t' = ground arith in
      subst WellPlaced (sym (inserted (new_group id name) id t fresh) ∙ row)
        (insert-WellPlaced n t fresh w (root (own_get n t, uuid) refl refl refl) (omega arith))
]

subgroup_of-WellPlaced :
    (f : Faults) (id : Bytes) (name : String) (t t' : Groups) (p : Group) (created : Bytes)
    → IsUuid id
    → WellPlaced t
    → get p.id t ≡ some p
    → subgroup_of f id name t (some p) ≡ ok (t', created)
    → WellPlaced t'
unfolding subgroup_of
subgroup_of-WellPlaced f id name t t' p created uuid w parent h =
    let free : conflicts id name t ≡ false = ground arith in
    let room : leb_ℤ group_max_depth p.depth ≡ false = ground arith in
    let fresh = conflicts-IsFresh id name t free in
    let path = p.path ++ slash ∷ id in
    let empty = with_parent p [] (new_group id name) in
    let n = record empty { path = path } in
    let row : set_path id path (empty ∷ t) ≡ t' = ground arith in
    let sum = +ℤ_parts p.depth (pos 1) in
    let above = Placed-transport (insert_row n t fresh) (w.placed p (get-Member p.id t p parent)) in
    subst WellPlaced (sym (inserted empty path t fresh) ∙ row) (
      insert-WellPlaced n t fresh w (child above (own_get n t, uuid) refl refl refl) (ground arith))

subgroup_of-none :
    (f : Faults) (id : Bytes) (name : String) (t : Groups)
    → subgroup_of f id name t none ≡ failed parent_not_found
unfolding subgroup_of
subgroup_of-none f id name t = refl

-- Creating a subgroup keeps a table of groups well placed, if the generated id has the length of a
-- UUID.
pub create_subgroup-WellPlaced :
    (u : Uuids) (f : Faults) (id : Bytes) (name : String) (text : Bytes) (t t' : Groups)
    (created : Bytes)
    → IsUuid id
    → WellPlaced t
    → create_subgroup u f id name text t ≡ ok (t', created)
    → WellPlaced t'
unfolding create_subgroup
create_subgroup-WellPlaced u f id name text t t' created uuid w h =
    elim (Option-cases (get_text u text t)) [
      | inl e ↦ cc (sym (ap (subgroup_of f id name t) e) ∙ h, subgroup_of-none f id name t)
      | inr (p, found) ↦
          subgroup_of-WellPlaced f id name t t' p created uuid w (get_text-row u text t p found).1
            (sym (ap (subgroup_of f id name t) found) ∙ h)
    ]
