-- ===== src/Groups/Hierarchy/Depths.antt =====
-- The deepest row below a path bounds every row below it.
use elearning_platform.Prelude.{
  ◌≡◌, inl, inr, refl, sym, ◌∙◌, ap, true, [], ◌∷◌, Option, none, some, arith, Bool-cases,
}
use elearning_platform.Prelude.Int.{ℤ, neg_part, ◌≤ℤ◌}
use elearning_platform.Prelude.Bytes.{Bytes}
use elearning_platform.Prelude.Members.{Member}
use elearning_platform.Groups.Store.{Group, Groups}
use elearning_platform.Groups.Hierarchy.{
  like_below, max_depth, max_descendant_depth, larger, coalesce,
}

abbrev AtMost : ℤ → Option ℤ → Type 0
AtMost d none = ⊥
AtMost d (some e) = d ≤ℤ e

larger_bound : (d e : ℤ) (o : Option ℤ) → d ≡ e → d ≤ℤ larger e o
larger_bound d e none h = ground arith
larger_bound d e (some m) h = ground arith

larger_AtMost : (d e : ℤ) (o : Option ℤ) → AtMost d o → d ≤ℤ larger e o
larger_AtMost d e none h = absurd h
larger_AtMost d e (some m) h = ground arith

max_depth_bound :
    (prefix : Bytes) (t : Groups) (k : Group)
    → Member k t
    → like_below prefix k.path ≡ true
    → AtMost k.depth (max_depth prefix t)
unfolding max_depth
max_depth_bound prefix [] k m h = absurd m
max_depth_bound prefix (g ∷ t) k (inl e) h =
    rw (ap (λ x. like_below prefix x.path) e ∙ h)
      (larger_bound k.depth g.depth (max_depth prefix t) (ap (λ x. x.depth) (sym e)))
max_depth_bound prefix (g ∷ t) k (inr m) h = elim (Bool-cases (like_below prefix g.path)) [
  | inl u ↦
      rw u (larger_AtMost k.depth g.depth (max_depth prefix t) (max_depth_bound prefix t k m h))
  | inr n ↦ rw n (max_depth_bound prefix t k m h)
]

coalesce_bound : (d : ℤ) (o : Option ℤ) → AtMost d o → d ≤ℤ coalesce o
coalesce_bound d none h = absurd h
coalesce_bound d (some e) h = h

pub max_descendant_depth_bound :
    (prefix : Bytes) (t : Groups) (k : Group)
    → Member k t
    → like_below prefix k.path ≡ true
    → k.depth ≤ℤ max_descendant_depth prefix t
unfolding max_descendant_depth
max_descendant_depth_bound prefix t k m h =
    coalesce_bound k.depth (max_depth prefix t) (max_depth_bound prefix t k m h)

abbrev IsNonneg : Option ℤ → Type 0
IsNonneg none = Unit
IsNonneg (some d) = neg_part d ≡ 0

larger_nonneg : (d : ℤ) (o : Option ℤ) → neg_part d ≡ 0 → IsNonneg o → neg_part (larger d o) ≡ 0
larger_nonneg d none h n = h
larger_nonneg d (some e) h n = ground arith

max_depth-IsNonneg :
    (prefix : Bytes) (t : Groups)
    → ((k : Group) → Member k t → neg_part k.depth ≡ 0)
    → IsNonneg (max_depth prefix t)
unfolding max_depth
max_depth-IsNonneg prefix [] h = tt
max_depth-IsNonneg prefix (g ∷ t) h =
    let rest = max_depth-IsNonneg prefix t (λ k m. h k (inr m)) in
    elim (Bool-cases (like_below prefix g.path)) [
      | inl u ↦ rw u (larger_nonneg g.depth (max_depth prefix t) (h g (inl refl)) rest)
      | inr n ↦ rw n rest
    ]

coalesce_nonneg : (o : Option ℤ) → IsNonneg o → neg_part (coalesce o) ≡ 0
coalesce_nonneg none n = refl
coalesce_nonneg (some d) n = n

pub max_descendant_depth_nonneg :
    (prefix : Bytes) (t : Groups)
    → ((k : Group) → Member k t → neg_part k.depth ≡ 0)
    → neg_part (max_descendant_depth prefix t) ≡ 0
unfolding max_descendant_depth
max_descendant_depth_nonneg prefix t h =
    coalesce_nonneg (max_depth prefix t) (max_depth-IsNonneg prefix t h)
