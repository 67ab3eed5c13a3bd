-- ===== src/Groups/Hierarchy/Placement.antt =====
-- The shape of a sound table of groups: each row is a root or hangs under another row, and its path
-- and depth say where.
use elearning_platform.Prelude.{
  ◌+◌, ◌*◌, ◌≡◌, refl, sym, ◌∙◌, ap, [], ◌∷◌, ◌++◌, Option, none, some, arith, map, length,
  length-append, Bool-cases, Option-cases, inl, inr, if◌then◌else◌,
}
use elearning_platform.Prelude.Int.{pos, pos_part, neg_part, ◌+ℤ◌, ◌≤ℤ◌, +ℤ_parts}
use elearning_platform.Prelude.Bytes.{
  Bytes, bytes_eq, bytes_eq_iff, append_eq_of_length, append_assoc,
}
use elearning_platform.Prelude.Members.{Member, find-Member}
use elearning_platform.Groups.Store.{Group, Groups, group_max_depth, get, get_text, Uuids}
use elearning_platform.Groups.Hierarchy.{slash}

-- The text of a UUID.
abbrev pub IsUuid : Bytes → Type 0
IsUuid id = length id ≡ 36

-- A row that its id finds.
abbrev pub IsRow : Groups → Group → Type 0
IsRow t g = (get g.id t ≡ some g) × IsUuid g.id

pub data Placed (t : Groups) : Group → Type 0 where
  root : {g : Group} → IsRow t g → g.parent_id ≡ none → g.depth ≡ pos 0 → g.path ≡ g.id → Placed t g
  child :
      {g p : Group}
      → Placed t p
      → IsRow t g
      → g.parent_id ≡ some p.id
      → g.depth ≡ p.depth +ℤ pos 1
      → g.path ≡ p.path ++ slash ∷ g.id
      → Placed t g

-- The id finds its row, every row is placed, and none is too deep.
pub record WellPlaced (t : Groups) : Type 0 where
  pub keyed : (g : Group) → Member g t → get g.id t ≡ some g
  pub placed : (g : Group) → Member g t → Placed t g
  pub shallow : (g : Group) → Member g t → g.depth ≤ℤ group_max_depth

-- The descendants by the parents' ids.
pub data Below (t : Groups) (g : Group) : Group → Type 0 where
  direct : {h : Group} → get h.id t ≡ some h → h.parent_id ≡ some g.id → Below t g h
  deeper : {p h : Group} → Below t g p → get h.id t ≡ some h → h.parent_id ≡ some p.id → Below t g h

pub Placed-IsRow : {t : Groups} {g : Group} → Placed t g → IsRow t g
Placed-IsRow (root r p d e) = r
Placed-IsRow (child q r p d e) = r

-- A UUID for each level, and a slash between two.
pub Placed-measure :
    {t : Groups} {g : Group}
    → Placed t g
    → (neg_part g.depth ≡ 0) × (length g.path ≡ 36 + 37 * pos_part g.depth)
Placed-measure {t} {g} (root r p d e) = rw (d, e) (refl, r.1)
Placed-measure {t} {g} (child {p = q} c r p d e) =
    let (n, l) = Placed-measure c in
    ground (arith, +ℤ_parts q.depth (pos 1), length-append q.path (slash ∷ g.id), ap length e)

-- A path ends in the row's id.
Placed-path_end : {t : Groups} {g : Group} → Placed t g → (front : Bytes) × (g.path ≡ front ++ g.id)
Placed-path_end (root r p d e) = ([], e)
Placed-path_end {t} {g} (child {p = q} c r p d e) =
    (q.path ++ slash ∷ [], e ∙ sym (append_assoc q.path (slash ∷ []) g.id))

-- The same path is the same row.
pub Placed-path_inj : {t : Groups} {g h : Group} → Placed t g → Placed t h → g.path ≡ h.path → g ≡ h
Placed-path_inj {t} {g} {h} a b e =
    let (r, i) = Placed-path_end a in
    let (s, j) = Placed-path_end b in
    let (gr, gl) = Placed-IsRow a in
    let (hr, hl) = Placed-IsRow b in
    let split = sym i ∙ e ∙ j in
    let fronts : length r ≡ length s =
      ground (arith, ap length split, length-append r g.id, length-append s h.id) in
    let ids = (append_eq_of_length r s g.id h.id fronts split).1 in
    ground (arith, ap (λ id. get id t) ids)

pub get-id : (id : Bytes) (t : Groups) (g : Group) → get id t ≡ some g → g.id ≡ id
get-id id [] g h = cc
get-id id (k ∷ t) g h = ground (arith, get-id id t g, bytes_eq_iff k.id id)

pub get-Member : (id : Bytes) (t : Groups) (g : Group) → get id t ≡ some g → Member g t
get-Member id t g h = find-Member (λ k. bytes_eq k.id id) g t h

pub get-map :
    (f : Group → Group)
    → ((g : Group) → (f g).id ≡ g.id)
    → (id : Bytes) (t : Groups) (g : Group) → get id t ≡ some g
    → get id (map f t) ≡ some (f g)
get-map f same id [] g h = cc
get-map f same id (k ∷ t) g h = elim (Bool-cases (bytes_eq k.id id)) [
  | inl e ↦ rw (ap (λ x. bytes_eq x id) (same k) ∙ e) (
      ap (λ o. elim o [ none ↦ none | some x ↦ some (f x) ])
        (sym (ap (λ b. if b then some k else get id t) e) ∙ h))
  | inr n ↦
      rw (ap (λ x. bytes_eq x id) (same k) ∙ n)
        (get-map f same id t g (sym (ap (λ b. if b then some k else get id t) n) ∙ h))
]

abbrev pub find_by : Groups → Option Bytes → Option Group
find_by t o = elim o [ none ↦ none | some id ↦ get id t ]

-- What a text finds.
pub get_text-row :
    (u : Uuids) (text : Bytes) (t : Groups) (p : Group)
    → get_text u text t ≡ some p
    → (u.cast text ≡ some p.id) × (get p.id t ≡ some p)
get_text-row u text t p h = elim (Option-cases (u.cast text)) [
  | inl e ↦ cc (sym (ap (find_by t) e) ∙ h)
  | inr (id, cast) ↦
      let found = sym (ap (find_by t) cast) ∙ h in
      let key = get-id id t p found in (cast ∙ ap some (sym key), ap (λ i. get i t) key ∙ found)
]
