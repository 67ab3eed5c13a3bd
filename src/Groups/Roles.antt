-- ===== src/Groups/Roles.antt =====
-- Login-time membership and the platform role that groups imply:
-- user-service/internal/repository/group_sync.go.
use elearning_platform.Prelude.{
  String, Bool, true, false, ◌&&◌, ◌||◌, not, List, [], ◌∷◌, map, Option, none, some, ◌≡◌, inl, inr,
  refl, sym, ap, ◌∙◌, ◌↔◌, arith, if◌then◌else◌, str_eq, any, find, keep, Bool-cases, eq_iff, Assoc,
  lookup,
}
use elearning_platform.Prelude.Bytes.{Bytes, bytes_eq}
use elearning_platform.Groups.Store.{
  Group, Groups, UserGroups, Result, ok, failed, Faults, new_group, add_link, create_failed,
}

abbrev pub default_group : String
default_group = "everyone"

abbrev pub role_admin : String
role_admin = "admin"

abbrev by_name : String → Groups → Option Group
by_name name t = find (λ g. str_eq g.name name) t

-- `INSERT … ON CONFLICT (name) DO UPDATE`, which returns the id of the row. A new row has the source
-- and no path.
unfoldable pub upsert_group : Bytes → String → String → Bool → Groups → Groups × Bytes
upsert_group id name source overwrite t = elim (by_name name t) [
  | none ↦ (record (new_group id name) { source = source } ∷ t, id)
  | some g ↦ (
    if overwrite
        then map (λ k. if str_eq k.name name then record k { source = source } else k) t
        else t,
    g.id,
  )
]

unfoldable pub add_to_default :
    Faults → Bytes → String → Groups → UserGroups → Result (Groups × UserGroups)
unfolding upsert_group add_link
add_to_default f id user t m =
    let (t', group) = upsert_group id default_group "local" false t in
    if f.create
    then failed create_failed
    else if f.update
    then failed create_failed
    else ok (t', add_link user group m)

-- The role after one group, and whether a mapping applied. `mapped` is "" when there is no row.
unfoldable pub role_after : String → String → String × Bool
role_after mapped role =
    if str_eq mapped ""
    then (role, false)
    else if str_eq mapped role_admin
    then (role_admin, true)
    else if str_eq role role_admin
    then (role, true)
    else (mapped, true)

unfoldable pub mapping : String → Assoc String → String
mapping name mappings = elim (lookup name mappings) [ none ↦ "" | some role ↦ role ]

-- What syncGroupMembership leaves of the tables.
unfoldable pub sync_tables :
    Bytes → String → String → String → Groups → UserGroups → Groups × UserGroups
unfolding upsert_group add_link
sync_tables id user name source t m =
    let (t', group) = upsert_group id name source true t in (t', add_link user group m)

-- The role of applyGroupMemberships, over the groups that the IdP names.
unfoldable pub apply_roles : Assoc String → List String → String → Bool → String × Bool
unfolding role_after mapping
apply_roles mappings [] role mapped = (role, mapped)
apply_roles mappings (name ∷ names) role mapped =
    let (next, hit) = role_after (mapping name mappings) role in
    let rest = apply_roles mappings names next (mapped || hit) in
    let skipped = apply_roles mappings names role mapped in if str_eq name "" then skipped else rest

-- The role written back: the user's own unless a mapping applied.
unfoldable pub derive_role : Assoc String → List String → String → String
unfolding apply_roles
derive_role mappings names db_role =
    (apply_roles mappings names (if str_eq db_role "" then "student" else db_role) false).0

-- Whether a named group is mapped to the role.
abbrev pub maps_to : Assoc String → String → String → Bool
maps_to mappings role name = not (str_eq name "") && str_eq (mapping name mappings) role

-- The memberships of the login's own source go first; local ones stay.
unfoldable pub clear_source : String → String → Groups → UserGroups → UserGroups
clear_source user source t m =
    keep
      (λ l.
        not (
          str_eq l.user_id user && any (λ g. bytes_eq g.id l.group_id && str_eq g.source source) t))
      m

-- The tables after applyGroupMemberships; `ids` is the UUID that a new row of a name gets.
unfoldable pub sync_all :
    (String → Bytes) → String → String → List String → Groups → UserGroups → Groups × UserGroups
unfolding sync_tables
sync_all ids user source [] t m = (t, m)
sync_all ids user source (name ∷ names) t m =
    let (t', m') = sync_tables (ids name) user name source t m in
    let rest = sync_all ids user source names t' m' in
    let skipped = sync_all ids user source names t m in if str_eq name "" then skipped else rest

-- SyncGroupsAndDeriveRole, when no statement fails; a failure rolls all of it back.
unfoldable pub sync_groups_and_derive_role :
    (String → Bytes)
    → Assoc String
    → String
    → String
    → List String
    → String
    → Groups
    → UserGroups
    → (Groups × UserGroups) × String
unfolding sync_all clear_source derive_role
sync_groups_and_derive_role ids mappings user db_role names source t m = (
  sync_all ids user source names t (clear_source user source t m),
  derive_role mappings names db_role,
)

empty_role : (role : String) → str_eq role "" ≡ true → str_eq role role_admin ≡ false
empty_role role h = ap (λ r. str_eq r role_admin) ((eq_iff role "").0 h)

start_role :
    (db_role : String)
    → str_eq (if str_eq db_role "" then "student" else db_role) role_admin
      ≡ str_eq db_role role_admin
start_role db_role = elim (Bool-cases (str_eq db_role "")) [
  | inl e ↦ rw (e, empty_role db_role e) refl
  | inr e ↦ rw e refl
]

role_after-admin :
    (mapped role : String)
    → str_eq (role_after mapped role).0 role_admin
      ≡ (str_eq role role_admin || str_eq mapped role_admin)
unfolding role_after
role_after-admin mapped role = elim (Bool-cases (str_eq mapped "")) [
  | inl e ↦ rw (e, empty_role mapped e) (ground arith)
  | inr e ↦ elim (Bool-cases (str_eq mapped role_admin)) [
    | inl h ↦ rw (e, h) (ground arith)
    | inr h ↦ elim (Bool-cases (str_eq role role_admin)) [
      | inl k ↦ rw (e, h, k) k
      | inr k ↦ rw (e, h, k) h
    ]
  ]
]

or_assoc : (a b c : Bool) → ((a || b) || c) ≡ (a || (b || c))
or_assoc true b c = refl
or_assoc false b c = refl

apply_roles-admin :
    (mappings : Assoc String) (names : List String) (role : String) (mapped : Bool)
    → str_eq (apply_roles mappings names role mapped).0 role_admin
      ≡ (str_eq role role_admin || any (maps_to mappings role_admin) names)
unfolding apply_roles
apply_roles-admin mappings [] role mapped = ground arith
apply_roles-admin mappings (name ∷ names) role mapped =
    let after = role_after (mapping name mappings) role in
    let one = role_after-admin (mapping name mappings) role in
    elim (Bool-cases (str_eq name "")) [
      | inl e ↦ rw e (apply_roles-admin mappings names role mapped)
      | inr e ↦ rw e (
          apply_roles-admin mappings names after.0 (mapped || after.1)
          ∙ rw one (
              or_assoc (str_eq role role_admin) (str_eq (mapping name mappings) role_admin)
                (any (maps_to mappings role_admin) names)))
    ]

-- The role that SyncGroupsAndDeriveRole returns, where its statements succeed, is "admin" exactly if the
-- user's row says so already or one of the IdP's groups with a name is mapped to "admin". Its caller
-- can replace that role.
pub derive_role-admin_iff :
    (mappings : Assoc String) (names : List String) (db_role : String)
    → (derive_role mappings names db_role ≡ role_admin)
      ↔ ((str_eq db_role role_admin || any (maps_to mappings role_admin) names) ≡ true)
unfolding derive_role
derive_role-admin_iff mappings names db_role =
    let start = if str_eq db_role "" then "student" else db_role in
    let whole = apply_roles-admin mappings names start false in
    let first = ap (λ b. b || any (maps_to mappings role_admin) names) (start_role db_role) in
    let same = eq_iff (apply_roles mappings names start false).0 role_admin in
    (λ h. sym (whole ∙ first) ∙ same.1 h, λ h. same.0 (whole ∙ first ∙ h))
