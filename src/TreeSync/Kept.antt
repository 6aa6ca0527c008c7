-- ===== src/TreeSync/Kept.antt =====
-- Loops over a path, and the filters of what stands beside its nodes.
use mls4rn.Prelude.Options.{◌>>=◌}
use mls4rn.Prelude.{
  ℕ, zero, suc, ◌≡◌, refl, ap, inl, inr, false, Bool-cases, Option, some, List, [], ◌∷◌, length,
  get_elem?, All, arith,
}
use mls4rn.Prelude.Equality.{contains, nat_Eq}
use mls4rn.TreeMath.Index.{LeafNodeIndex, TreeNodeIndex}
use mls4rn.TreeSync.Nodes.{blank_node}
use mls4rn.TreeMath.Shape.{node}
use mls4rn.TreeSync.Resolution.{
  NodeReference, Resolution, try_map, is_empty, beside_full, without, filter_resolutions,
}
use mls4rn.TreeSync.Resolved.{Reaches}

module _ {A B : Type 0} (f : A → Option B) where
  -- The results of a loop that gives a result for every item.
  pub record Mapped (xs : List A) (ys : List B) : Type 0 where
    pub given : try_map f xs ≡ some ys
    pub as_long : length ys ≡ length xs
    pub each :
        (n : ℕ) (x : A)
        → get_elem? xs n ≡ some x
        → (y : B) × (get_elem? ys n ≡ some y) × (f x ≡ some y)

  pub try_map-Mapped :
      (xs : List A) → All (λ x. (y : B) × (f x ≡ some y)) xs → (ys : List B) × Mapped xs ys
  unfolding try_map
  try_map-Mapped [] all = ([], record { given = refl; as_long = refl; each = λ n x h. cc })
  try_map-Mapped (x ∷ xs) all =
      let (y, is) = all.0 in
      let (ys, rest) = try_map-Mapped xs all.1 in
      (
        y ∷ ys,
        record {
          given = rw (is, ◌>>=◌, rest.given) refl;
          as_long = ap suc rest.as_long;
          each = each-cons x xs y ys is rest.each;
        },
      )
    where
      each-cons :
          (x : A) (xs : List A) (y : B) (ys : List B)
          → f x ≡ some y
          → ((n : ℕ) (z : A)
              → get_elem? xs n ≡ some z
              → (w : B) × (get_elem? ys n ≡ some w) × (f z ≡ some w))
          → (n : ℕ) (z : A) → get_elem? (x ∷ xs) n ≡ some z
          → (w : B) × (get_elem? (y ∷ ys) n ≡ some w) × (f z ≡ some w)
      each-cons x xs y ys is rest zero z h = let same : x ≡ z = cc in (y, refl, rw (← same) is)
      each-cons x xs y ys is rest (suc n) z h = rest n z h

module _ {LeafNode : Type 0} where
  pub without-Reaches :
      (excluded : List LeafNodeIndex) (m : LeafNodeIndex) (r : Resolution LeafNode)
      → contains excluded m ≡ false
      → Reaches m r
      → Reaches m (without excluded r)
  unfolding without
  without-Reaches excluded m [] out h = h
  without-Reaches excluded m ((TreeNodeIndex.parent i, n) ∷ r) out (inl over) = inl over
  without-Reaches excluded m ((TreeNodeIndex.parent i, n) ∷ r) out (inr later) =
      inr (without-Reaches excluded m r out later)
  without-Reaches excluded m ((TreeNodeIndex.leaf i, n) ∷ r) out (inl (inl e)) =
      let same : i ≡ m = cc in
      let kept : contains excluded i ≡ false = rw same out in rw kept (inl (inl e))
  without-Reaches excluded m ((TreeNodeIndex.leaf i, n) ∷ r) out
        (inl (inr (k, j, content, e, c, merged))) =
      absurd (
        let x : TreeNodeIndex.leaf i ≡ TreeNodeIndex.parent (node k j) =
          ap (λ (p : TreeNodeIndex × NodeReference LeafNode). p.0) e in
        cc)
  without-Reaches excluded m ((TreeNodeIndex.leaf i, n) ∷ r) out (inr later) =
      elim (Bool-cases (contains excluded i)) [
        | inl dropped ↦ rw dropped (without-Reaches excluded m r out later)
        | inr kept ↦ rw kept (inr (without-Reaches excluded m r out later))
      ]

  pub Reaches-full :
      (m : LeafNodeIndex) (r : Resolution LeafNode) → Reaches m r → is_empty r ≡ false
  Reaches-full m [] h = absurd h
  Reaches-full m (e ∷ r) h = refl

  module _ {A : Type 0} (excluded : List LeafNodeIndex) where
    -- What stands beside a resolution that is not empty is kept with it.
    pub beside_full-kept :
        (xs : List A) (rs : List (Resolution LeafNode)) (n : ℕ) (x : A) (r : Resolution LeafNode)
        → get_elem? xs n ≡ some x
        → get_elem? rs n ≡ some r
        → is_empty r ≡ false
        → (n' : ℕ) × (get_elem? (beside_full xs rs) n' ≡ some x)
          × (get_elem? (filter_resolutions excluded rs) n' ≡ some (without excluded r))
    unfolding beside_full filter_resolutions
    beside_full-kept [] rs n x r at_x at_r full = cc
    beside_full-kept (y ∷ xs) [] n x r at_x at_r full = cc
    beside_full-kept (y ∷ xs) (s ∷ rs) zero x r at_x at_r full =
        let r=s : s ≡ r = cc in rw (r=s, full) (zero, at_x, refl)
    beside_full-kept (y ∷ xs) (s ∷ rs) (suc n) x r at_x at_r full =
        let (n', kept_x, kept_r) = beside_full-kept xs rs n x r at_x at_r full in
        elim (Bool-cases (is_empty s)) [
          | inl empty ↦ rw empty (n', kept_x, kept_r)
          | inr other ↦ rw other (suc n', kept_x, kept_r)
        ]

    pub length-beside_full :
        (xs : List A) (rs : List (Resolution LeafNode))
        → length rs ≡ length xs
        → length (beside_full xs rs) ≡ length (filter_resolutions excluded rs)
    unfolding beside_full filter_resolutions
    length-beside_full [] [] e = refl
    length-beside_full [] (r ∷ rs) e = absurd (omega (arith, e))
    length-beside_full (x ∷ xs) [] e = absurd (omega (arith, e))
    length-beside_full (x ∷ xs) (r ∷ rs) e =
        let rest = length-beside_full xs rs (omega (arith, e)) in
        elim (Bool-cases (is_empty r)) [
          | inl empty ↦ rw empty rest
          | inr full ↦ rw full (ap suc rest)
        ]
