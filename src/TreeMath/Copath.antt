-- ===== src/TreeMath/Copath.antt =====
-- treemath.rs: the copath of a leaf, and how it divides the other leaves.

use mls4rn.Prelude.{
  ℕ, zero, suc, ◌+◌, ◌-◌, ◌/◌, ◌^◌, ◌≤◌, ◌<◌, ◌≡◌, ◌≢◌, refl, sym, ap, ap₂, ◌∙◌, inl, inr, ◌==◌,
  Bool-cases, ltb, ltb→lt, ltb→le, ==→≢, arith, some, List, [], ◌∷◌, map, length, get_elem?, All,
}
use mls4rn.Prelude.Powers.{two_pow_suc, div-two_pow-half, div-two_pow_suc}
use mls4rn.TreeMath.Index.{TreeNodeIndex, LeafNodeIndex}
use mls4rn.TreeMath.Navigation.{sibling}
use mls4rn.TreeMath.Paths.{copath, pop}
use mls4rn.TreeMath.Inside.{Inside, Inside-parent}
use mls4rn.TreeMath.Family.{beside, sibling-node}
use mls4rn.TreeMath.DirectPath.{ancestors, direct_path-ancestors}
use mls4rn.TreeMath.Shape.{node, at}

-- The node of level `k` and offset `j` and the `d` nodes above it, and the neighbours of those.
climb : ℕ → ℕ → ℕ → List TreeNodeIndex
climb zero k j = []
climb (suc d) k j = at k j ∷ climb d (suc k) (j / 2)

pub sides : ℕ → ℕ → ℕ → List TreeNodeIndex
sides zero k j = []
sides (suc d) k j = at k (beside j) ∷ sides d (suc k) (j / 2)

pop-ancestors : (d k j : ℕ) → pop (ancestors (suc d) k j) ≡ ancestors d k j
unfolding ancestors
pop-ancestors zero k j = refl
pop-ancestors (suc d) k j = ap (◌∷◌ (node k (j / 2))) (pop-ancestors d (suc k) (j / 2))

map-ancestors : (d k j : ℕ) → map TreeNodeIndex.parent (ancestors d k j) ≡ climb d (suc k) (j / 2)
unfolding ancestors climb
map-ancestors zero k j = refl
map-ancestors (suc d) k j = ap (◌∷◌ (at (suc k) (j / 2))) (map-ancestors d (suc k) (j / 2))

module _ (h : ℕ) (small : h ≤ 30) where
  map-sibling-climb :
      (d k j : ℕ) → Inside h k j → k + d ≤ h → map sibling (climb d k j) ≡ sides d k j
  unfolding climb sides
  map-sibling-climb zero k j i le = refl
  map-sibling-climb (suc d) k j i le =
      ap₂ ◌∷◌ (sibling-node h k j small i (omega arith))
        (map-sibling-climb d (suc k) (j / 2) (Inside-parent h k j (omega arith) i) (omega arith))

-- What holds for every node of a tree holds for the neighbours of a path.
Inside-beside : (h k j : ℕ) → k < h → Inside h k j → Inside h k (beside j)
Inside-beside h k j lt (zero, e, b) = absurd (omega arith)
Inside-beside h k j lt (suc d, e, b) = (suc d, e, ground (arith, two_pow_suc d))

Inside-ancestor : (h n i : ℕ) → n ≤ h → i < 2 ^ h → Inside h n (i / 2 ^ n)
Inside-ancestor h zero i le b = (h, omega arith, omega (arith, b))
Inside-ancestor h (suc n) i le b =
    rw (div-two_pow_suc i n)
      (Inside-parent h n (i / 2 ^ n) (omega arith) (Inside-ancestor h n i (omega arith) b))

pub Inside-neighbour : (h n i : ℕ) → n < h → i < 2 ^ h → Inside h n (beside (i / 2 ^ n))
Inside-neighbour h n i lt b =
    Inside-beside h n (i / 2 ^ n) lt (Inside-ancestor h n i (omega arith) b)

pub All-sides :
    (P : TreeNodeIndex → Type 0) (h : ℕ)
    → ((k j : ℕ) → Inside h k j → P (at k j))
    → (d k j : ℕ) → Inside h k j
    → k + d ≤ h
    → All P (sides d k j)
unfolding sides
All-sides P h holds zero k j i le = tt
All-sides P h holds (suc d) k j i le = (
  holds k (beside j) (Inside-beside h k j (omega arith) i),
  All-sides P h holds d (suc k) (j / 2) (Inside-parent h k j (omega arith) i) (omega arith),
)

pub length-sides : (d k j : ℕ) → length (sides d k j) ≡ d
unfolding sides
length-sides zero k j = refl
length-sides (suc d) k j = ap suc (length-sides d (suc k) (j / 2))

get_elem?-sides :
    (d k j n : ℕ) → n < d → get_elem? (sides d k j) n ≡ some (at (k + n) (beside (j / 2 ^ n)))
unfolding sides
get_elem?-sides zero k j n lt = absurd (omega arith)
get_elem?-sides (suc d) k j zero lt =
    ap₂ (λ (a b : ℕ). some (at a (beside b))) (omega arith) (omega arith)
get_elem?-sides (suc d) k j (suc n) lt =
    get_elem?-sides d (suc k) (j / 2) n (omega arith)
    ∙ ap₂ (λ (a b : ℕ). some (at a (beside b))) (omega arith) (sym (div-two_pow-half j n))

pub copath-sides :
    (h : ℕ) (i : LeafNodeIndex)
    → 0 < h
    → h ≤ 30
    → i < 2 ^ h
    → copath i (2 ^ suc h - 1) ≡ some (sides h 0 i)
unfolding copath climb
copath-sides zero i pos small b = absurd (omega arith)
copath-sides (suc h) i pos small b =
    rw (direct_path-ancestors (suc h) small i b, pop-ancestors h 0 i, map-ancestors h 0 i)
      (ap some (map-sibling-climb (suc h) small (suc h) 0 i (suc h, omega arith, b) (omega arith)))

-- The subtree of level `n` and offset `j` holds the leaf `m`.
abbrev pub Covers : ℕ → ℕ → LeafNodeIndex → Type 0
Covers n j m = m / 2 ^ n ≡ j

-- Of any other leaf, exactly one of the neighbours along the path of `i` is an ancestor.
pub covering :
    (d i m : ℕ)
    → i < 2 ^ d
    → m < 2 ^ d
    → i ≢ m
    → (n : ℕ) × (n < d) × Covers n (beside (i / 2 ^ n)) m
covering zero i m a b ne = absurd (ne (omega arith))
covering (suc d) i m a b ne = elim (Bool-cases (i / 2 == m / 2)) [
  | inl e ↦ (0, omega arith, ground arith)
  | inr e ↦
      let (n, lt, c) =
        covering d (i / 2) (m / 2) (omega (arith, two_pow_suc d)) (omega (arith, two_pow_suc d))
          (==→≢ (i / 2) (m / 2) e) in
      (suc n, omega arith, div-two_pow-half m n ∙ c ∙ ap beside (sym (div-two_pow-half i n)))
]

beside-half : (a : ℕ) → beside a / 2 ≡ a / 2
beside-half a = ground arith

pub beside-ne : (a : ℕ) → beside a ≢ a
beside-ne a = ground arith

-- At the level above a neighbour that covers `m` the paths of `i` and `m` are one.
pub joined : (n i m : ℕ) → Covers n (beside (i / 2 ^ n)) m → m / 2 ^ suc n ≡ i / 2 ^ suc n
joined n i m c =
    div-two_pow_suc m n
    ∙ ap (λ (a : ℕ). a / 2) c
    ∙ beside-half (i / 2 ^ n)
    ∙ sym (div-two_pow_suc i n)

joined_above : (n p i m : ℕ) → n < p → Covers n (beside (i / 2 ^ n)) m → m / 2 ^ p ≡ i / 2 ^ p
joined_above n zero i m lt c = absurd (omega arith)
joined_above n (suc p) i m lt c = elim (Bool-cases (ltb n p)) [
  | inl below ↦
      div-two_pow_suc m p
      ∙ ap (λ (a : ℕ). a / 2) (joined_above n p i m (ltb→lt n p below) c)
      ∙ sym (div-two_pow_suc i p)
  | inr here ↦ let e : p ≡ n = omega (arith, ltb→le n p here) in rw e (joined n i m c)
]

covering_below :
    (n p i m : ℕ) → Covers n (beside (i / 2 ^ n)) m → Covers p (beside (i / 2 ^ p)) m → ¬ (n < p)
covering_below n p i m c c' lt = beside-ne (i / 2 ^ p) (sym c' ∙ joined_above n p i m lt c)

pub covering_unique :
    (n p i m : ℕ) → Covers n (beside (i / 2 ^ n)) m → Covers p (beside (i / 2 ^ p)) m → n ≡ p
covering_unique n p i m c c' =
    let a = covering_below n p i m c c' in
    let b = covering_below p n i m c' c in omega (arith, a, b)

pub get_elem?-copath :
    (h n : ℕ) (i : LeafNodeIndex)
    → n < h
    → get_elem? (sides h 0 i) n ≡ some (at n (beside (i / 2 ^ n)))
get_elem?-copath h n i lt =
    get_elem?-sides h 0 i n lt ∙ ap (λ (a : ℕ). some (at a (beside (i / 2 ^ n)))) (omega arith)

-- In a full tree with more than one leaf, the copath of a leaf `i` has one node for each level below
-- the root, and any other leaf of the tree is under a node of the copath.
pub copath_complete :
    (h : ℕ) (i m : LeafNodeIndex)
    → 0 < h
    → h ≤ 30
    → i < 2 ^ h
    → m < 2 ^ h
    → i ≢ m
    → (path : List TreeNodeIndex) × (n j : ℕ) × (copath i (2 ^ suc h - 1) ≡ some path)
      × (length path ≡ h)
      × (get_elem? path n ≡ some (at n j))
      × Covers n j m
copath_complete h i m pos small b mb ne =
    let (n, lt, c) = covering h i m b mb ne in
    (
      sides h 0 i,
      n,
      beside (i / 2 ^ n),
      copath-sides h i pos small b,
      length-sides h 0 i,
      get_elem?-copath h n i lt,
      c,
    )
