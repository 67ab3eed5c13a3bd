-- ===== src/Groups/Handlers/Requests.antt =====
-- The tables that the administrators' requests make are well placed. The requests are those of
-- user-service/internal/handlers/router.go that can change the groups.
use elearning_platform.Prelude.{
  String, Bool, true, false, All, List, [], ◌∷◌, Option, none, some, ◌≡◌, refl, ap, if◌then◌else◌,
  str_eq,
}
use elearning_platform.Prelude.Bytes.{Bytes}
use elearning_platform.Groups.Store.{
  Groups, UserGroups, Uuids, Faults, Result, ok, failed, create, delete, update_group, has_children,
  has_members,
}
use elearning_platform.Groups.Hierarchy.{create_subgroup, move_group}
use elearning_platform.Groups.Hierarchy.Placement.{WellPlaced, IsUuid}
use elearning_platform.Groups.Hierarchy.Creation.{create-WellPlaced, create_subgroup-WellPlaced}
use elearning_platform.Groups.Hierarchy.Deletion.{delete-WellPlaced}
use elearning_platform.Groups.Handlers.Renaming.{update_group-WellPlaced}
use elearning_platform.Groups.Hierarchy.Moves.{move_group-WellPlaced}
use elearning_platform.Groups.Handlers.{
  Reply, CountFaults, create_group_handler, create_subgroup_handler, update_group_handler,
  move_group_handler, delete_group_handler, created_reply, subgroup_reply, moved_reply,
  updated_reply, deleted_reply,
}

-- A request of an administrator that can change the groups, with the IDs that the database generates,
-- the statements that it refuses, and the memberships at the time of a deletion.
pub data Request : Type 0 where
  created : Faults → Bytes → Option String → Request
  nested : Faults → Bytes → Bytes → Option String → Request
  renamed : Faults → Bytes → Option String → Request
  reparented : Faults → Bytes → Option (Option Bytes) → Request
  deleted : CountFaults → Faults → Bytes → UserGroups → Request

-- The route of the request, and the table that its handler leaves.
unfoldable pub serve : Uuids → Request → Groups → Groups
unfolding create_group_handler create_subgroup_handler update_group_handler move_group_handler
    delete_group_handler
serve u (created f id name) t = (create_group_handler f id name t).groups
serve u (nested f id parent name) t = (create_subgroup_handler u f id parent name t).groups
serve u (renamed f id name) t = (update_group_handler f id name t).groups
serve u (reparented f text parent) t = (move_group_handler u f text parent t).groups
serve u (deleted c f id m) t = (delete_group_handler c f id t m).groups

unfoldable pub serve_all : Uuids → List Request → Groups → Groups
unfolding serve
serve_all u [] t = t
serve_all u (r ∷ rs) t = serve_all u rs (serve u r t)

-- Generated IDs have a UUID's length; a request that moves a group spells the group's UUID canonically,
-- and PostgreSQL and the program read the text of its new parent alike.
abbrev pub IsPlain : Uuids → Request → Type 0
IsPlain u (created f id name) = IsUuid id
IsPlain u (nested f id parent name) = IsUuid id
IsPlain u (renamed f id name) = Unit
IsPlain u (reparented f text parent) =
    (u.cast text ≡ some text) × ((p : Bytes) → parent ≡ some (some p) → u.cast p ≡ u.parse p)
IsPlain u (deleted c f id m) = Unit

-- A reply that keeps the old table, or takes the result's.
created_case :
    (t : Groups) (r : Result (Groups × Bytes))
    → WellPlaced t
    → ((t' : Groups) (id : Bytes) → r ≡ ok (t', id) → WellPlaced t')
    → WellPlaced (created_reply t r).groups
created_case t (failed e) w h = w
created_case t (ok (t', [])) w h = w
created_case t (ok (t', b ∷ id)) w h = h t' (b ∷ id) refl

subgroup_case :
    (t : Groups) (r : Result (Groups × Bytes))
    → WellPlaced t
    → ((t' : Groups) (id : Bytes) → r ≡ ok (t', id) → WellPlaced t')
    → WellPlaced (subgroup_reply t r).groups
subgroup_case t (failed e) w h = w
subgroup_case t (ok (t', id)) w h = h t' id refl

updated_case :
    (t : Groups) (r : Result Groups)
    → WellPlaced t
    → ((t' : Groups) → r ≡ ok t' → WellPlaced t')
    → WellPlaced (updated_reply t r).groups
updated_case t (failed e) w h = w
updated_case t (ok t') w h = h t' refl

moved_case :
    (t : Groups) (r : Result Groups)
    → WellPlaced t
    → ((t' : Groups) → r ≡ ok t' → WellPlaced t')
    → WellPlaced (moved_reply t r).groups
moved_case t (failed e) w h = w
moved_case t (ok t') w h = h t' refl

deleted_case :
    (t : Groups) (r : Result (Groups × Bool))
    → WellPlaced t
    → ((t' : Groups) (d : Bool) → r ≡ ok (t', d) → WellPlaced t')
    → WellPlaced (deleted_reply t r).groups
deleted_case t (failed e) w h = w
deleted_case t (ok (t', true)) w h = h t' true refl
deleted_case t (ok (t', false)) w h = h t' false refl

if_case :
    (b : Bool) (x y : Reply)
    → WellPlaced x.groups
    → WellPlaced y.groups
    → WellPlaced (if b then x else y).groups
if_case true x y h k = h
if_case false x y h k = k

serve-WellPlaced :
    (u : Uuids) (r : Request) (t : Groups) → IsPlain u r → WellPlaced t → WellPlaced (serve u r t)
unfolding serve
serve-WellPlaced u (created f id none) t uuid w = w
serve-WellPlaced u (created f id (some name)) t uuid w = if_case (str_eq name "") _ _ w (
    created_case t (create f id name t) w
      (λ t' made h. create-WellPlaced f id name t t' made uuid w h))
serve-WellPlaced u (nested f id parent none) t uuid w = w
serve-WellPlaced u (nested f id parent (some name)) t uuid w = if_case (str_eq name "") _ _ w (
    subgroup_case t (create_subgroup u f id name parent t) w
      (λ t' made h. create_subgroup-WellPlaced u f id name parent t t' made uuid w h))
serve-WellPlaced u (renamed f id none) t plain w = w
serve-WellPlaced u (renamed f id (some name)) t plain w = if_case (str_eq name "") _ _ w (
    updated_case t (update_group f id name t) w
      (λ t' h. update_group-WellPlaced f id name t t' w h))
serve-WellPlaced u (reparented f text none) t plain w = w
serve-WellPlaced u (reparented f text (some parent)) t (canonical, same) w =
    moved_case t (move_group u f text parent t) w
      (λ t' h. move_group-WellPlaced u f text parent t t' canonical (λ p e. same p (ap some e)) w h)
serve-WellPlaced u (deleted c f id m) t plain w = if_case c.children _ _ w (
    if_case (has_children id t) _ _ w (
      if_case c.members _ _ w (
        if_case (has_members id m) _ _ w
          (deleted_case t (delete f id t) w (λ t' d h. delete-WellPlaced f id t t' d w h)))))

pub no_groups-WellPlaced : WellPlaced []
no_groups-WellPlaced = record {
  keyed = λ g m. absurd m;
  placed = λ g m. absurd m;
  shallow = λ g m. absurd m;
}

served-WellPlaced :
    (u : Uuids) (rs : List Request) (t : Groups)
    → All (IsPlain u) rs
    → WellPlaced t
    → WellPlaced (serve_all u rs t)
unfolding serve_all
served-WellPlaced u [] t plain w = w
served-WellPlaced u (r ∷ rs) t plain w =
    served-WellPlaced u rs (serve u r t) plain.1 (serve-WellPlaced u r t plain.0 w)

-- Every table of groups that the administrators' requests make of the empty one is well placed: each
-- id finds its row, each row's path and depth follow its chain of parents to a root, and no row is
-- deeper than the maximum. The generated IDs have a UUID's length; a request that moves a group
-- spells the group's UUID canonically, and PostgreSQL and the program read the text of its new
-- parent alike.
pub serve_all-WellPlaced :
    (u : Uuids) (rs : List Request) → All (IsPlain u) rs → WellPlaced (serve_all u rs [])
serve_all-WellPlaced u rs plain = served-WellPlaced u rs [] plain no_groups-WellPlaced
