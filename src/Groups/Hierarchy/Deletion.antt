-- ===== src/Groups/Hierarchy/Deletion.antt =====
-- Deleting a group keeps the table well placed.
use elearning_platform.Prelude.{
  ◌≡◌, inl, inr, refl, sym, ◌∙◌, ap, subst, Bool, true, false, [], ◌∷◌, none, some, arith,
  Bool-cases, if◌then◌else◌, keep, any,
}
use elearning_platform.Prelude.Bytes.{Bytes, bytes_eq}
use elearning_platform.Prelude.Members.{Member, Member-keep, find-keep, any-false}
use elearning_platform.Groups.Store.{Group, Groups, Faults, ok, delete, is_local, has_children}
use elearning_platform.Groups.Hierarchy.Placement.{WellPlaced, Placed, root, child, get-Member}

-- A parent is no deleted row.
kept : Bytes → Group → Bool
kept id g = if is_local id g then false else true

Placed-keep :
    {t : Groups} {g : Group} (id : Bytes)
    → ((k : Group) → Member k t → (p : Bytes) → k.parent_id ≡ some p → bytes_eq p id ≡ false)
    → Placed t g
    → kept id g ≡ true
    → Placed (keep (kept id) t) g
unfolding kept
Placed-keep {t} {g} id none_under (root r p d e) k =
    root (find-keep (λ x. bytes_eq x.id g.id) (kept id) g t r.0 k, r.1) p d e
Placed-keep {t} {g} id none_under (child {p = q} c r p d e) k =
    let other = none_under g (get-Member g.id t g r.0) q.id p in
    child (Placed-keep id none_under c (rw other refl))
      (find-keep (λ x. bytes_eq x.id g.id) (kept id) g t r.0 k, r.1) p d e

keep_all :
    (p : Group → Bool) (t : Groups)
    → any p t ≡ false
    → keep (λ g. if p g then false else true) t ≡ t
keep_all p [] h = refl
keep_all p (g ∷ t) h = ground (arith, keep_all p t)

no_children :
    (id : Bytes) (t : Groups)
    → has_children id t ≡ false
    → (k : Group) → Member k t
    → (p : Bytes) → k.parent_id ≡ some p
    → bytes_eq p id ≡ false
unfolding has_children
no_children id t h k m p e =
    let one = any-false (λ g. elim g.parent_id [ none ↦ false | some q ↦ bytes_eq q id ]) k t h m in
    sym (ap (λ o. elim o [ none ↦ false | some q ↦ bytes_eq q id ]) e) ∙ one

keep-WellPlaced :
    (id : Bytes) (t : Groups)
    → has_children id t ≡ false
    → WellPlaced t
    → WellPlaced (keep (kept id) t)
keep-WellPlaced id t h w =
    let into = λ (k : Group) (m : Member k (keep (kept id) t)). (Member-keep (kept id) k t).0 m in
    record {
      keyed = λ k m.
          find-keep (λ x. bytes_eq x.id k.id) (kept id) k t (w.keyed k (into k m).0) (into k m).1;
      placed = λ k m. Placed-keep id (no_children id t h) (w.placed k (into k m).0) (into k m).1;
      shallow = λ k m. w.shallow k (into k m).0;
    }

-- Deleting a group keeps a table of groups well placed: the foreign key keeps every parent.
pub delete-WellPlaced :
    (f : Faults) (id : Bytes) (t t' : Groups) (deleted : Bool)
    → WellPlaced t
    → delete f id t ≡ ok (t', deleted)
    → WellPlaced t'
unfolding delete kept
delete-WellPlaced f id t t' deleted w h = elim (Bool-cases (any (is_local id) t)) [
  | inl there ↦
      let alone : has_children id t ≡ false = ground arith in
      let rest : keep (kept id) t ≡ t' = ground arith in
      subst WellPlaced rest (keep-WellPlaced id t alone w)
  | inr absent ↦
      let rest : keep (kept id) t ≡ t' = ground arith in
      subst WellPlaced (sym (keep_all (is_local id) t absent) ∙ rest) w
]
