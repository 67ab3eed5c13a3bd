-- ===== src/Examples/Groups.antt =====
-- Three groups in a line, and the requests on them.
use elearning_platform.Prelude.{
  lookup, ℕ, zero, suc, String, true, false, [], ◌∷◌, ◌++◌, Option, none, some, ◌≡◌, ◌⊎◌, ◌↔◌, refl,
  length, ◌==◌, if◌then◌else◌,
}
use elearning_platform.Prelude.Int.{pos, ◌+ℤ◌, ◌-ℤ◌}
use elearning_platform.Prelude.Bytes.{Bytes}
use elearning_platform.Prelude.Members.{Member}
use elearning_platform.Groups.Store.{
  Group, Groups, Uuids, Faults, ok, failed, own_descendant, create, get, new_group, create_and_join,
  add_link, has_children, has_members,
}
use elearning_platform.Groups.Hierarchy.{
  slash, create_subgroup, subgroup_of, move_group, move_found, attach, rewrite, max_depth,
  max_descendant_depth, get_descendants,
}
use elearning_platform.Groups.Hierarchy.Placement.{WellPlaced, Placed, Below}
use elearning_platform.Groups.Hierarchy.Creation.{create-WellPlaced, create_subgroup-WellPlaced}
use elearning_platform.Groups.Hierarchy.Moves.{move_group-WellPlaced}
use elearning_platform.Groups.Hierarchy.Subtrees.{get_descendants-Below, attach-own_descendant_iff}
use elearning_platform.Groups.Handlers.{delete_group_handler, delete_group_handler_lem, answer}
use elearning_platform.Groups.Handlers.Requests.{
  created, reparented, nested, serve_all, no_groups-WellPlaced, serve_all-WellPlaced,
}
use elearning_platform.Groups.Pathless.{create_and_join-unplaced}
use elearning_platform.Groups.Roles.{
  apply_roles, role_after, mapping, derive_role, derive_role-admin_iff,
}

repeat : ℕ → ℕ → Bytes
repeat zero b = []
repeat (suc n) b = b ∷ repeat n b

abbrev uuid : ℕ → Bytes
uuid b = repeat 36 b

abbrev uuids : Uuids
uuids = record {
  cast = λ s. if length s == 36 then some s else none;
  parse = λ s. if length s == 36 then some s else none;
}

abbrev no_faults : Faults
no_faults = record { create = false; update = false; delete = false }

abbrev row : ℕ → String → Option Bytes → ℕ → Bytes → Group
row b name parent depth path = record {
  id = uuid b;
  name = name;
  source = "local";
  parent_id = parent;
  depth = pos depth;
  path = path;
}

abbrev school : Group
school = row 97 "school" none 0 (uuid 97)

abbrev year : Group
year = row 98 "year" (some (uuid 97)) 1 (uuid 97 ++ slash ∷ uuid 98)

abbrev class : Group
class = row 99 "class" (some (uuid 98)) 2 ((uuid 97 ++ slash ∷ uuid 98) ++ slash ∷ uuid 99)

abbrev other : Group
other = row 100 "other" none 0 (uuid 100)

abbrev roots : Groups
roots = other ∷ school ∷ []

abbrev with_year : Groups
with_year = year ∷ roots

abbrev four : Groups
four = class ∷ with_year

school-WellPlaced : WellPlaced (school ∷ [])
unfolding repeat create
school-WellPlaced =
    create-WellPlaced no_faults (uuid 97) "school" [] (school ∷ []) (uuid 97) refl
      no_groups-WellPlaced refl

roots-WellPlaced : WellPlaced roots
unfolding repeat create
roots-WellPlaced =
    create-WellPlaced no_faults (uuid 100) "other" (school ∷ []) roots (uuid 100) refl
      school-WellPlaced refl

with_year-WellPlaced : WellPlaced with_year
unfolding repeat create_subgroup subgroup_of ◌+ℤ◌
with_year-WellPlaced =
    create_subgroup-WellPlaced uuids no_faults (uuid 98) "year" (uuid 97) roots with_year (uuid 98)
      refl roots-WellPlaced refl

four-WellPlaced : WellPlaced four
unfolding repeat create_subgroup subgroup_of ◌+ℤ◌
four-WellPlaced =
    create_subgroup-WellPlaced uuids no_faults (uuid 99) "class" (uuid 98) with_year four (uuid 99)
      refl with_year-WellPlaced refl

-- The year and its class, under the other root.
abbrev moved : Groups
moved =
    row 99 "class" (some (uuid 98)) 2 ((uuid 100 ++ slash ∷ uuid 98) ++ slash ∷ uuid 99)
    ∷ row 98 "year" (some (uuid 100)) 1 (uuid 100 ++ slash ∷ uuid 98)
    ∷ roots

move_group-WellPlaced_example : WellPlaced moved
unfolding repeat move_group move_found attach rewrite max_descendant_depth max_depth ◌+ℤ◌ ◌-ℤ◌
move_group-WellPlaced_example =
    move_group-WellPlaced uuids no_faults (uuid 98) (some (uuid 100)) four moved refl (λ p e. refl)
      four-WellPlaced refl

get_descendants-Below_example :
    (rows : Groups) × (get_descendants uuids (uuid 97) four ≡ ok rows)
    × ((h : Group) → Member h rows ↔ Below four school h)
unfolding repeat
get_descendants-Below_example =
    get_descendants-Below uuids (uuid 97) four school four-WellPlaced refl refl

attach-own_descendant_iff_example :
    (attach no_faults (uuid 97) school (some (uuid 99)) four (some class) ≡ failed own_descendant)
    ↔ ((school ≡ class) ⊎ Below four school class)
unfolding repeat
attach-own_descendant_iff_example =
    attach-own_descendant_iff no_faults (uuid 97) (some (uuid 99)) four school class four-WellPlaced
      refl refl

delete_group_handler_lem_example :
    delete_group_handler (record { children = false; members = false }) no_faults (uuid 98) four []
    ≡ answer 409 four
unfolding repeat has_children has_members
delete_group_handler_lem_example =
    delete_group_handler_lem (record { children = false; members = false }) no_faults (uuid 98) four
      [] refl refl refl

serve_all-WellPlaced_example : WellPlaced (
    serve_all uuids
      (created no_faults (uuid 97) (some "school")
        ∷ nested no_faults (uuid 98) (uuid 97) (some "year")
        ∷ reparented no_faults (uuid 98) (some none)
        ∷ [])
      [])
unfolding repeat
serve_all-WellPlaced_example =
    serve_all-WellPlaced uuids
      (created no_faults (uuid 97) (some "school")
        ∷ nested no_faults (uuid 98) (uuid 97) (some "year")
        ∷ reparented no_faults (uuid 98) (some none)
        ∷ [])
      (refl, (refl, ((refl, λ p h. refl), tt)))

create_and_join-unplaced_example :
    (get (uuid 97) (new_group (uuid 97) "club" ∷ []) ≡ some (new_group (uuid 97) "club"))
    × ¬ Placed (new_group (uuid 97) "club" ∷ []) (new_group (uuid 97) "club")
    × ((g : Faults) (text : Bytes) (parsed : Option Bytes) (p : Group)
        → attach g text
            (new_group (uuid 97) "club")
            parsed
            (new_group (uuid 97) "club" ∷ [])
            (some p)
          ≡ failed own_descendant)
unfolding repeat create_and_join add_link
create_and_join-unplaced_example =
    create_and_join-unplaced no_faults (uuid 97) "club" "ann" [] (new_group (uuid 97) "club" ∷ [])
      [] (record { user_id = "ann"; group_id = uuid 97 } ∷ []) (uuid 97) refl

derive_role-admin_iff_example :
    (derive_role (("staff", "manager") ∷ ("ops", "admin") ∷ []) ("ops" ∷ "staff" ∷ []) "student"
      ≡ "admin")
    ↔ (true ≡ true)
unfolding mapping lookup
derive_role-admin_iff_example =
    derive_role-admin_iff (("staff", "manager") ∷ ("ops", "admin") ∷ []) ("ops" ∷ "staff" ∷ [])
      "student"

-- Of two mapped roles below "admin", the later group's counts.
later_role :
    derive_role
      (("staff", "manager") ∷ ("class", "student") ∷ [])
      ("staff" ∷ "class" ∷ [])
      "student"
    ≡ "student"
unfolding derive_role apply_roles role_after mapping lookup
later_role = refl
