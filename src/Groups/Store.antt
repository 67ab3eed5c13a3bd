-- ===== src/Groups/Store.antt =====
-- The tables groups and user_groups: user-service/internal/models/group.go, and the statements of
-- user-service/internal/repository/group.go and group_members.go on one group.
-- A UUID is its canonical text. Two functions that the code calls are parameters: PostgreSQL's cast
-- `?::uuid` and uuid.Parse, each from a text to the UUID it spells.
use elearning_platform.Prelude.{
  String, Bool, true, false, ◌&&◌, ◌||◌, List, [], ◌∷◌, map, Option, none, some, if◌then◌else◌,
  str_eq, any, find, keep,
}
use elearning_platform.Prelude.Int.{ℤ, pos}
use elearning_platform.Prelude.Bytes.{Bytes, bytes_eq}

abbrev pub group_max_depth : ℤ
group_max_depth = pos 10

-- Without the description and the times, which no statement here reads.
pub record Group : Type 0 where
  pub id : Bytes
  pub name : String
  pub source : String
  pub parent_id : Option Bytes
  pub depth : ℤ
  pub path : Bytes

abbrev pub Groups : Type 0
Groups = List Group

pub record UserGroup : Type 0 where
  pub user_id : String
  pub group_id : Bytes

abbrev pub UserGroups : Type 0
UserGroups = List UserGroup

pub record Uuids : Type 0 where
  pub cast : Bytes → Option Bytes
  pub parse : Bytes → Option Bytes

-- What a call of the repository returns beside the tables, or why its transaction is rolled back.
pub data GroupError : Type 0 where
  group_not_found : GroupError
  parent_not_found : GroupError
  depth_exceeded : GroupError
  own_descendant : GroupError
  invalid_parent : GroupError
  create_failed : GroupError
  update_failed : GroupError
  delete_failed : GroupError

pub data Result {ℓ} (A : Type ℓ) : Type ℓ where
  ok : A → Result A
  failed : GroupError → Result A

-- Which writes the database refuses for a reason of its own.
pub record Faults : Type 0 where
  pub create : Bool
  pub update : Bool
  pub delete : Bool

-- The row of a UUID.
abbrev pub get : Bytes → Groups → Option Group
get id t = find (λ g. bytes_eq g.id id) t

-- `WHERE id = ?::uuid`, as the text of a request gives it.
abbrev pub get_text : Uuids → Bytes → Groups → Option Group
get_text u text t = elim (u.cast text) [ none ↦ none | some id ↦ get id t ]

-- The unique index on the name.
abbrev pub has_name : String → Groups → Bool
has_name name t = any (λ g. str_eq g.name name) t

abbrev pub local : String
local = "local"

-- The primary key and the unique name: whether an insert of the row conflicts.
abbrev pub conflicts : Bytes → String → Groups → Bool
conflicts id name t = any (λ g. bytes_eq g.id id || str_eq g.name name) t

abbrev pub new_group : Bytes → String → Group
new_group id name = record {
  id = id;
  name = name;
  source = local;
  parent_id = none;
  depth = pos 0;
  path = [];
}

-- `UPDATE groups SET path = ? WHERE id = ?`
abbrev pub set_path : Bytes → Bytes → Groups → Groups
set_path id path t = map (λ g. if bytes_eq g.id id then record g { path = path } else g) t

-- `id` is the UUID that the database generates.
unfoldable pub create : Faults → Bytes → String → Groups → Result (Groups × Bytes)
create f id name t =
    if f.create
    then failed create_failed
    else if conflicts id name t
    then ok (t, [])
    else if f.update
    then failed update_failed
    else ok (set_path id id (new_group id name ∷ t), id)

-- The link is written once for each pair.
unfoldable pub add_link : String → Bytes → UserGroups → UserGroups
add_link user group m =
    if any (λ l. str_eq l.user_id user && bytes_eq l.group_id group) m
    then m
    else record { user_id = user; group_id = group } ∷ m

unfoldable pub create_and_join :
    Faults → Bytes → String → String → Groups → UserGroups → Result ((Groups × UserGroups) × Bytes)
unfolding add_link
create_and_join f id name owner t m =
    if f.create || conflicts id name t
    then failed create_failed
    else if f.update
    then failed update_failed
    else ok ((new_group id name ∷ t, add_link owner id m), id)

abbrev pub is_local : Bytes → Group → Bool
is_local id g = bytes_eq g.id id && str_eq g.source local

unfoldable pub has_children : Bytes → Groups → Bool
has_children id t = any (λ g. elim g.parent_id [ none ↦ false | some p ↦ bytes_eq p id ]) t

unfoldable pub has_members : Bytes → UserGroups → Bool
has_members id m = any (λ l. bytes_eq l.group_id id) m

-- The foreign key parent_id restricts the delete; the one of user_groups cascades.
unfoldable pub delete : Faults → Bytes → Groups → Result (Groups × Bool)
unfolding has_children
delete f id t =
    if f.delete || (any (is_local id) t && has_children id t)
    then failed delete_failed
    else ok (keep (λ g. if is_local id g then false else true) t, any (is_local id) t)

unfoldable pub update_group : Faults → Bytes → String → Groups → Result Groups
update_group f id name t =
    if f.update
    then failed update_failed
    else if any (is_local id) t
    then (if any (λ g. str_eq g.name name && (if bytes_eq g.id id then false else true)) t
        then failed update_failed
        else ok (map (λ g. if is_local id g then record g { name = name } else g) t))
    else failed group_not_found
