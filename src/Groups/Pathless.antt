-- ===== src/Groups/Pathless.antt =====
-- Groups that no administrator creates: CreateAndJoin inserts its group without a path.
use elearning_platform.Prelude.{String, ◌∷◌, Option, some, ◌≡◌, refl, subst, arith}
use elearning_platform.Prelude.Bytes.{Bytes, bytes_eq_iff}
use elearning_platform.Groups.Store.{
  Group, Groups, UserGroups, Faults, ok, failed, own_descendant, create_and_join, get, new_group,
}
use elearning_platform.Groups.Hierarchy.{attach}
use elearning_platform.Groups.Hierarchy.Placement.{Placed, Placed-measure}

-- The row that CreateAndJoin leaves.
create_and_join-row :
    (f : Faults) (id : Bytes) (name owner : String) (t t' : Groups) (m m' : UserGroups)
    (joined : Bytes)
    → create_and_join f id name owner t m ≡ ok ((t', m'), joined)
    → new_group id name ∷ t ≡ t'
unfolding create_and_join
create_and_join-row f id name owner t t' m m' joined h = ground arith

-- A group that CreateAndJoin creates is found by its id, has no place in the tree of paths, and a
-- move of it under any group, related or not, fails as a move under one of its own descendants.
pub create_and_join-unplaced :
    (f : Faults) (id : Bytes) (name owner : String) (t t' : Groups) (m m' : UserGroups)
    (joined : Bytes)
    → create_and_join f id name owner t m ≡ ok ((t', m'), joined)
    → (get id t' ≡ some (new_group id name))
      × ¬ Placed t' (new_group id name)
      × ((g : Faults) (text : Bytes) (parsed : Option Bytes) (p : Group)
          → attach g text (new_group id name) parsed t' (some p) ≡ failed own_descendant)
unfolding attach
create_and_join-unplaced f id name owner t t' m m' joined h =
    let row = create_and_join-row f id name owner t t' m m' joined h in
    (
      subst (λ x. get id x ≡ some (new_group id name)) row (rw ((bytes_eq_iff id id).1 refl) refl),
      λ placed. (let (_, l) = Placed-measure placed in omega arith),
      λ g text parsed p. refl,
    )
