-- ===== src/Groups/Hierarchy.antt =====
-- The tree of groups: user-service/internal/repository/group_hierarchy.go. A row keeps the path from
-- its root, and the statements find a subtree with `path LIKE prefix || '/%'`. The paths are UUIDs
-- and slashes, so the pattern has no wildcard but its last.
-- The rows come without the counts of members and in the order of the table.
use elearning_platform.Prelude.{
  ℕ, suc, ◌+◌, Bool, false, ◌&&◌, ◌||◌, String, List, [], ◌∷◌, ◌++◌, map, Option, none, some,
  if◌then◌else◌, keep, length,
}
use elearning_platform.Prelude.Int.{ℤ, pos, ◌+ℤ◌, ◌-ℤ◌, leb_ℤ, ltb_ℤ}
use elearning_platform.Prelude.Bytes.{Bytes, bytes_eq, starts_with, drop}
use elearning_platform.Groups.Store.{
  Group, Groups, Uuids, Result, ok, failed, Faults, group_max_depth, get, get_text, conflicts,
  new_group, set_path, group_not_found, parent_not_found, depth_exceeded, own_descendant,
  invalid_parent, create_failed, update_failed,
}
pub mod Placement
pub mod Prefixes
pub mod Creation
pub mod Deletion
pub mod Subtrees
pub mod Rewrites
pub mod Depths
pub mod Rewritten
pub mod Moves

abbrev pub slash : ℕ
slash = b'/'

-- `path LIKE prefix || '/%'`
abbrev pub like_below : Bytes → Bytes → Bool
like_below prefix path = starts_with (prefix ++ slash ∷ []) path

abbrev pub with_parent : Group → Bytes → Group → Group
with_parent parent path g = record g {
  parent_id = some parent.id;
  depth = parent.depth +ℤ pos 1;
  path = path;
}

-- The row is inserted with an empty path, and then gets the path of its new UUID.
unfoldable pub subgroup_of :
    Faults → Bytes → String → Groups → Option Group → Result (Groups × Bytes)
subgroup_of f id name t none = failed parent_not_found
subgroup_of f id name t (some parent) =
    if leb_ℤ group_max_depth parent.depth
    then failed depth_exceeded
    else if f.create || conflicts id name t
    then failed create_failed
    else if f.update
    then failed update_failed
    else ok (
      set_path id (parent.path ++ slash ∷ id) (with_parent parent [] (new_group id name) ∷ t),
      id,
    )

unfoldable pub create_subgroup :
    Uuids → Faults → Bytes → String → Bytes → Groups → Result (Groups × Bytes)
unfolding subgroup_of
create_subgroup u f id name parent_text t = subgroup_of f id name t (get_text u parent_text t)

abbrev pub max_ℤ : ℤ → ℤ → ℤ
max_ℤ a b = if leb_ℤ a b then b else a

abbrev pub larger : ℤ → Option ℤ → ℤ
larger d none = d
larger d (some e) = max_ℤ d e

-- `MAX(depth)` of the rows below the prefix, NULL when there is none.
unfoldable pub max_depth : Bytes → Groups → Option ℤ
max_depth prefix [] = none
max_depth prefix (g ∷ t) =
    let rest = max_depth prefix t in
    if like_below prefix g.path then some (larger g.depth rest) else rest

-- `COALESCE(…, 0)`
abbrev pub coalesce : Option ℤ → ℤ
coalesce none = pos 0
coalesce (some d) = d

unfoldable pub max_descendant_depth : Bytes → Groups → ℤ
unfolding max_depth
max_descendant_depth prefix t = coalesce (max_depth prefix t)

-- The descendants' rows: the new prefix before what follows the old one, and the depth moved.
abbrev pub move_row : Bytes → Bytes → ℤ → Group → Group
move_row old_prefix new_path delta g =
    if like_below old_prefix g.path
    then record g { path = new_path ++ drop (length old_prefix) g.path; depth = g.depth +ℤ delta }
    else g

-- The moved group's own row.
abbrev pub place_row : Bytes → Option Bytes → ℤ → Bytes → Group → Group
place_row id parent_id depth path g =
    if bytes_eq g.id id then record g { parent_id = parent_id; depth = depth; path = path } else g

-- Both updates of the transaction.
unfoldable pub rewrite : Group → Option Bytes → ℤ → Bytes → Groups → Groups
rewrite group parent_id depth path t =
    map (place_row group.id parent_id depth path)
      (map (move_row group.path path (depth -ℤ group.depth)) t)

unfoldable pub move_to_root : Faults → Bytes → Group → Groups → Result Groups
unfolding rewrite
move_to_root f group_text group t =
    if f.update then failed update_failed else ok (rewrite group none (pos 0) group_text t)

-- `parsed` is uuid.Parse of the parent's text, called after the first update.
unfoldable pub attach :
    Faults → Bytes → Group → Option Bytes → Groups → Option Group → Result Groups
unfolding rewrite max_descendant_depth
attach f group_text group parsed t none = failed parent_not_found
attach f group_text group parsed t (some parent) =
    if starts_with group.path parent.path
    then failed own_descendant
    else if ltb_ℤ group_max_depth (parent.depth +ℤ pos 1 +ℤ max_descendant_depth group.path t)
    then failed depth_exceeded
    else if f.update
    then failed update_failed
    else elim parsed [
      | none ↦ failed invalid_parent
      | some id ↦
          ok (rewrite group (some id) (parent.depth +ℤ pos 1) (parent.path ++ slash ∷ group_text) t)
    ]

unfoldable pub move_found :
    Uuids → Faults → Bytes → Option Bytes → Groups → Option Group → Result Groups
unfolding move_to_root attach
move_found u f group_text parent t none = failed group_not_found
move_found u f group_text none t (some group) = move_to_root f group_text group t
move_found u f group_text (some parent_text) t (some group) =
    attach f group_text group (u.parse parent_text) t (get_text u parent_text t)

-- The new paths take the group's id as the request spells it.
unfoldable pub move_group : Uuids → Faults → Bytes → Option Bytes → Groups → Result Groups
unfolding move_found
move_group u f group_text parent t = move_found u f group_text parent t (get_text u group_text t)

unfoldable pub get_subgroups : Bytes → Groups → Groups
get_subgroups parent_id t =
    keep (λ g. elim g.parent_id [ none ↦ false | some p ↦ bytes_eq p parent_id ]) t

-- The group's own path is matched against each row's.
unfoldable pub get_ancestors : Uuids → Bytes → Groups → Result Groups
get_ancestors u text t = elim (get_text u text t) [
  | none ↦ failed group_not_found
  | some group ↦ ok (keep (λ g. like_below g.path group.path) t)
]

unfoldable pub get_descendants : Uuids → Bytes → Groups → Result Groups
get_descendants u text t = elim (get_text u text t) [
  | none ↦ failed group_not_found
  | some group ↦ ok (keep (λ g. like_below group.path g.path) t)
]
