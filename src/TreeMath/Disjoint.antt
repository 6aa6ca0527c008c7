-- ===== src/TreeMath/Disjoint.antt =====
-- treemath.rs: the nodes of a copath stand apart.
use mls4rn.Prelude.{
  ℕ, zero, suc, ◌-◌, ◌/◌, ◌%◌, ◌^◌, ◌≤◌, ◌<◌, ◌≡◌, ◌≢◌, refl, sym, ap, ◌∙◌, arith, some, List,
  get_elem?, get_elem?-bound,
}
use mls4rn.TreeMath.Index.{TreeNodeIndex, LeafNodeIndex}
use mls4rn.TreeMath.Paths.{copath}
use mls4rn.TreeMath.Family.{beside}
use mls4rn.TreeMath.Shape.{node, at, node-above, node-half, node-odd, node-even}
use mls4rn.TreeMath.Copath.{
  Covers, sides, copath-sides, length-sides, get_elem?-copath, covering_unique, beside-ne,
}

even-odd : (a b : ℕ) → a % 2 ≡ 0 → b % 2 ≡ 1 → a ≢ b
even-odd a b even odd e = absurd (omega (arith, even, odd, e))

-- A node has one level and one offset.
node-level : (k j k' j' : ℕ) → node k j ≡ node k' j' → k ≡ k'
node-level zero j zero j' e = refl
node-level zero j (suc k') j' e =
    absurd (even-odd (node 0 j) (node (suc k') j') (node-even j) (node-odd k' j') e)
node-level (suc k) j zero j' e =
    absurd (even-odd (node 0 j') (node (suc k) j) (node-even j') (node-odd k j) (sym e))
node-level (suc k) j (suc k') j' e =
    let halves : node k j ≡ node k' j' =
      sym (node-half k j) ∙ ap (λ (x : ℕ). x / 2) e ∙ node-half k' j' in
    ap suc (node-level k j k' j' halves)

at-level : (k j k' j' : ℕ) → at k j ≡ at k' j' → k ≡ k'
at-level zero j zero j' e = refl
at-level zero j (suc k') j' e = absurd (cc)
at-level (suc k) j zero j' e = absurd (cc)
at-level (suc k) j (suc k') j' e =
    let same : node k j ≡ node k' j' = cc in ap suc (node-level k j k' j' same)

pub at_injective : (k j j' : ℕ) → at k j ≡ at k j' → j ≡ j'
at_injective zero j j' e = cc
at_injective (suc k) j j' e =
    let same : node k j ≡ node k j' = cc in
    sym (node-above k j) ∙ ap (λ (x : ℕ). x / 2 ^ suc k) same ∙ node-above k j'

-- The entry at a position is the neighbour of that level.
entry_beside :
    (h n k j : ℕ) (i : LeafNodeIndex)
    → get_elem? (sides h 0 i) n ≡ some (at k j)
    → (k ≡ n) × (j ≡ beside (i / 2 ^ n))
entry_beside h n k j i e =
    let lt : n < h = omega (arith, get_elem?-bound (sides h 0 i) n e, length-sides h 0 i) in
    let there = get_elem?-copath h n i lt in
    let same : at k j ≡ at n (beside (i / 2 ^ n)) = cc in
    let level : k ≡ n = at-level k j n (beside (i / 2 ^ n)) same in
    let same' : at n j ≡ at n (beside (i / 2 ^ n)) = ap (λ (l : ℕ). at l j) (sym level) ∙ same in
    (level, at_injective n j (beside (i / 2 ^ n)) same')

-- A node of a copath that is above `m`, as the neighbour of its level.
entry-Covers :
    (h n k j : ℕ) (i m : LeafNodeIndex)
    → get_elem? (sides h 0 i) n ≡ some (at k j)
    → Covers k j m
    → Covers n (beside (i / 2 ^ n)) m
entry-Covers h n k j i m e c =
    let (level, offset) = entry_beside h n k j i e in
    ap (λ (l : ℕ). m / 2 ^ l) (sym level) ∙ c ∙ offset

-- In a full tree with more than one leaf, no leaf is under the nodes at two positions of the copath of
-- a leaf `i`, whatever nodes these are, and the leaf `i` itself is under none.
pub copath_disjoint :
    (h n p k j k' j' : ℕ) (i m : LeafNodeIndex) (path : List TreeNodeIndex)
    → 0 < h
    → h ≤ 30
    → i < 2 ^ h
    → copath i (2 ^ suc h - 1) ≡ some path
    → get_elem? path n ≡ some (at k j)
    → get_elem? path p ≡ some (at k' j')
    → Covers k j m
    → Covers k' j' m
    → (n ≡ p) × (m ≢ i)
copath_disjoint h n p k j k' j' i m path pos small b found at_n at_p c c' =
    let is : path ≡ sides h 0 i = let known = copath-sides h i pos small b in cc in
    let first = entry-Covers h n k j i m (rw is at at_n) c in
    (
      covering_unique n p i m first (entry-Covers h p k' j' i m (rw is at at_p) c'),
      λ e. beside-ne (i / 2 ^ n) (sym first ∙ ap (λ (l : ℕ). l / 2 ^ n) e),
    )
