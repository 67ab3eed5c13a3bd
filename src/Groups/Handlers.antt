-- ===== src/Groups/Handlers.antt =====
-- The administrator's requests on groups: user-service/internal/handlers/groups.go.
-- A handler answers with a status, and leaves a table. A body that does not decode is `none`.
use elearning_platform.Prelude.{
  ℕ, String, Bool, true, false, ◌&&◌, ◌||◌, List, [], ◌∷◌, Option, none, some, ◌≡◌, ◌≢◌, inl, inr,
  refl, sym, ap, arith, if◌then◌else◌, str_eq, any, keep, Bool-cases,
}
use elearning_platform.Prelude.Bytes.{Bytes, bytes_eq}
use elearning_platform.Groups.Store.{
  Group, Groups, UserGroups, Uuids, Faults, Result, ok, failed, GroupError, group_not_found, create,
  delete, update_group, is_local, has_children, has_members,
}
use elearning_platform.Groups.Hierarchy.{create_subgroup, move_group}
pub mod Renaming
pub mod Requests

pub record Reply : Type 0 where
  pub status : ℕ
  pub groups : Groups

abbrev pub answer : ℕ → Groups → Reply
answer status t = record { status = status; groups = t }

abbrev is_empty : Bytes → Bool
is_empty [] = true
is_empty (b ∷ s) = false

abbrev pub created_reply : Groups → Result (Groups × Bytes) → Reply
created_reply t (failed e) = answer 409 t
created_reply t (ok r) = if is_empty r.1 then answer 409 t else answer 201 r.0

unfoldable pub create_group_handler : Faults → Bytes → Option String → Groups → Reply
create_group_handler f id none t = answer 400 t
create_group_handler f id (some name) t =
    if str_eq name "" then answer 400 t else created_reply t (create f id name t)

abbrev pub subgroup_reply : Groups → Result (Groups × Bytes) → Reply
subgroup_reply t (failed e) = answer 409 t
subgroup_reply t (ok r) = answer 201 r.0

unfoldable pub create_subgroup_handler :
    Uuids → Faults → Bytes → Bytes → Option String → Groups → Reply
create_subgroup_handler u f id parent none t = answer 400 t
create_subgroup_handler u f id parent (some name) t =
    if str_eq name "" then answer 400 t else subgroup_reply t (create_subgroup u f id name parent t)

-- "not found" stands in the error's text.
abbrev pub update_status : GroupError → ℕ
update_status group_not_found = 404
update_status e = 409

abbrev pub updated_reply : Groups → Result Groups → Reply
updated_reply t (failed e) = answer (update_status e) t
updated_reply t (ok t') = answer 200 t'

unfoldable pub update_group_handler : Faults → Bytes → Option String → Groups → Reply
update_group_handler f id none t = answer 400 t
update_group_handler f id (some name) t =
    if str_eq name "" then answer 400 t else updated_reply t (update_group f id name t)

abbrev pub moved_reply : Groups → Result Groups → Reply
moved_reply t (failed e) = answer 400 t
moved_reply t (ok t') = answer 200 t'

-- The body's `parentId`, when the body decodes.
unfoldable pub move_group_handler : Uuids → Faults → Bytes → Option (Option Bytes) → Groups → Reply
move_group_handler u f text none t = answer 400 t
move_group_handler u f text (some parent) t = moved_reply t (move_group u f text parent t)

-- Which of the two counts fails.
pub record CountFaults : Type 0 where
  pub children : Bool
  pub members : Bool

abbrev pub deleted_reply : Groups → Result (Groups × Bool) → Reply
deleted_reply t (failed e) = answer 500 t
deleted_reply t (ok r) = if r.1 then answer 200 r.0 else answer 404 r.0

unfoldable pub delete_group_handler : CountFaults → Faults → Bytes → Groups → UserGroups → Reply
delete_group_handler c f id t m =
    if c.children
    then answer 500 t
    else if has_children id t
    then answer 409 t
    else if c.members
    then answer 500 t
    else if has_members id m
    then answer 409 t
    else deleted_reply t (delete f id t)

delete_alone :
    (f : Faults) (id : Bytes) (t : Groups)
    → f.delete ≡ false
    → has_children id t ≡ false
    → delete f id t ≡ ok (keep (λ g. if is_local id g then false else true) t, any (is_local id) t)
unfolding delete
delete_alone f id t h k = elim (Bool-cases (any (is_local id) t)) [
  | inl e ↦ rw (h, k, e) refl
  | inr e ↦ rw (h, k, e) refl
]

-- DeleteGroup, when no statement fails, never meets the foreign key: it answers 409 exactly if the
-- group has subgroups or members, and otherwise removes the local group with 200, or answers 404
-- if there is none.
pub delete_group_handler_lem :
    (c : CountFaults) (f : Faults) (id : Bytes) (t : Groups) (m : UserGroups)
    → c.children ≡ false
    → c.members ≡ false
    → f.delete ≡ false
    → delete_group_handler c f id t m ≡ (
        if has_children id t || has_members id m
        then answer 409 t
        else answer
            (if any (is_local id) t then 200 else 404)
            (keep (λ g. if is_local id g then false else true) t))
unfolding delete_group_handler
delete_group_handler_lem c f id t m a b d = elim (Bool-cases (has_children id t)) [
  | inl e ↦ rw (a, e) refl
  | inr e ↦ elim (Bool-cases (has_members id m)) [
    | inl k ↦ rw (a, e, b, k) refl
    | inr k ↦ elim (Bool-cases (any (is_local id) t)) [
      | inl l ↦ rw (a, e, b, k, delete_alone f id t d e, l) refl
      | inr l ↦ rw (a, e, b, k, delete_alone f id t d e, l) refl
    ]
  ]
]
