-- ===== src/Groups/Hierarchy/Prefixes.antt =====
-- The pattern `path || '/%'` against the parents' ids.
use elearning_platform.Prelude.{
  ℕ, ◌+◌, ◌≤◌, ◌<◌, ◌≡◌, ◌⊎◌, inl, inr, refl, sym, ◌∙◌, ap, true, false, [], ◌∷◌, ◌++◌, Option,
  some, arith, length, length-append, Bool-cases,
}
use elearning_platform.Prelude.Bytes.{
  Bytes, bytes_eq, bytes_eq_iff, starts_with-length, starts_with-append_of_length,
  starts_with-append_of_eq_length,
}
use elearning_platform.Groups.Store.{Group, Groups, get}
use elearning_platform.Groups.Hierarchy.{slash, like_below}
use elearning_platform.Groups.Hierarchy.Placement.{
  IsRow, Placed, root, child, Below, direct, deeper, Placed-IsRow, Placed-measure, Placed-path_inj,
}

pub le_cases : (a b : ℕ) → a ≤ b → (a ≡ b) ⊎ (a < b)
le_cases a b h = omega arith

pub like_below-length : (p s : Bytes) → like_below p s ≡ true → length p + 1 ≤ length s
like_below-length p s h =
    omega (arith, starts_with-length (p ++ slash ∷ []) s h, length-append p (slash ∷ []))

-- Three lengths of a path against the parent's.
like_below_same :
    (p q id : Bytes) → length p ≡ length q → like_below p (q ++ slash ∷ id) ≡ bytes_eq q p
like_below_same p q id h = starts_with-append_of_eq_length p q id slash h

like_below_shorter :
    (p q id : Bytes) → length p < length q → like_below p (q ++ slash ∷ id) ≡ like_below p q
like_below_shorter p q id h =
    starts_with-append_of_length (p ++ slash ∷ []) q (slash ∷ id)
      (omega (arith, length-append p (slash ∷ [])))

-- A row below another has that one for a parent, or a parent below it.
pub like_below_step :
    {t : Groups} {g q : Group} (id : Bytes)
    → Placed t g
    → Placed t q
    → length id ≡ 36
    → like_below g.path (q.path ++ slash ∷ id) ≡ true
    → (g ≡ q) ⊎ (like_below g.path q.path ≡ true)
like_below_step {t} {g} {q} id a b l h =
    let (_, m) = Placed-measure a in
    let (_, n) = Placed-measure b in
    let bound = like_below-length g.path (q.path ++ slash ∷ id) h in
    let whole = length-append q.path (slash ∷ id) in
    elim (le_cases (length g.path) (length q.path) (omega arith)) [
      | inl same ↦ inl (
          Placed-path_inj a b (
            sym ((bytes_eq_iff q.path g.path).0 (sym (like_below_same g.path q.path id same) ∙ h))))
      | inr shorter ↦ inr (sym (like_below_shorter g.path q.path id shorter) ∙ h)
    ]

pub like_below-Below :
    {t : Groups} {g h : Group}
    → Placed t g
    → Placed t h
    → like_below g.path h.path ≡ true
    → Below t g h
like_below-Below {t} {g} {h} a (root r p d e) b =
    let (_, m) = Placed-measure a in
    let bound = like_below-length g.path h.path b in
    let whole = ap length e in absurd (omega (arith, r.1))
like_below-Below {t} {g} {h} a (child {p = q} c r p d e) b =
    elim (like_below_step h.id a c r.1 (sym (ap (like_below g.path) e) ∙ b)) [
      | inl same ↦ direct r.0 (p ∙ ap (λ x. some x.id) (sym same))
      | inr under ↦ deeper (like_below-Below a c under) r.0 p
    ]

-- A parent's id names one row.
pub parent_unique :
    (t : Groups) (g q : Group) (id : Option Bytes)
    → get g.id t ≡ some g
    → get q.id t ≡ some q
    → id ≡ some q.id
    → id ≡ some g.id
    → q ≡ g
parent_unique t g q id r s a b =
    let ids : q.id ≡ g.id = ground (arith, sym a ∙ b) in
    ground (arith, sym s ∙ ap (λ i. get i t) ids ∙ r)

pub same_row :
    (t : Groups) (g q : Group)
    → get g.id t ≡ some g
    → get q.id t ≡ some q
    → bytes_eq q.id g.id ≡ true
    → g ≡ q
same_row t g q r s e =
    sym (parent_unique t g q (some q.id) r s refl (ap some ((bytes_eq_iff q.id g.id).0 e)))

-- A root's path is too short to be below another.
pub like_below_root :
    {t : Groups} {g : Group} (id : Bytes)
    → Placed t g
    → length id ≡ 36
    → like_below g.path id ≡ false
like_below_root {t} {g} id a l = elim (Bool-cases (like_below g.path id)) [
  | inl b ↦
      let (_, m) = Placed-measure a in
      let bound = like_below-length g.path id b in absurd (omega arith)
  | inr n ↦ n
]

pub like_below_irrefl : (p : Bytes) → like_below p p ≡ false
like_below_irrefl p = elim (Bool-cases (like_below p p)) [
  | inl b ↦ absurd (omega (arith, like_below-length p p b))
  | inr n ↦ n
]

-- What hangs under a row, or under a row below it, is below.
pub extend_same : (p id : Bytes) → like_below p (p ++ slash ∷ id) ≡ true
extend_same p id = like_below_same p p id refl ∙ (bytes_eq_iff p p).1 refl

pub extend_below : (p q id : Bytes) → like_below p q ≡ true → like_below p (q ++ slash ∷ id) ≡ true
extend_below p q id h =
    starts_with-append_of_length (p ++ slash ∷ []) q (slash ∷ id)
      (starts_with-length (p ++ slash ∷ []) q h)
    ∙ h

-- A placed row with a parent's id that a row has is that row's child.
pub Placed-parent :
    {t : Groups} {g h : Group}
    → IsRow t g
    → Placed t h
    → h.parent_id ≡ some g.id
    → h.path ≡ g.path ++ slash ∷ h.id
Placed-parent {t} {g} {h} r (root s p d e) q = cc (sym p ∙ q)
Placed-parent {t} {g} {h} r (child {p = k} c s p d e) q =
    rw (sym (parent_unique t g k h.parent_id r.0 (Placed-IsRow c).0 p q)) e

pub Below-get : {t : Groups} {g h : Group} → Below t g h → get h.id t ≡ some h
Below-get (direct r p) = r
Below-get (deeper b r p) = r

pub Below-like_below :
    {t : Groups} {g h : Group}
    → ((k : Group) → get k.id t ≡ some k → Placed t k)
    → Placed t g
    → Below t g h
    → like_below g.path h.path ≡ true
Below-like_below {t} {g} {h} w a (direct r p) =
    rw (Placed-parent (Placed-IsRow a) (w h r) p) (extend_same g.path h.id)
Below-like_below {t} {g} {h} w a (deeper {p = k} b r p) =
    rw (Placed-parent (Placed-IsRow (w k (Below-get b))) (w h r) p)
      (extend_below g.path k.path h.id (Below-like_below w a b))
