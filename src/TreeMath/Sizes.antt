-- ===== src/TreeMath/Sizes.antt =====
-- treemath.rs: `log2` and the sizes of full trees.
use mls4rn.Prelude.{
  ℕ, zero, suc, ◌+◌, ◌-◌, ◌*◌, ◌/◌, ◌^◌, ◌≤◌, ◌<◌, ◌≡◌, refl, ap, inl, inr, ltb, ltb→lt, ltb→le,
  Bool-cases, ≢→==, arith, sub32, ◌<<◌, <<_lem, pow-le-of_le,
}
use mls4rn.Prelude.Powers.{two_pow_suc, two_pow_pos}
use mls4rn.TreeMath.Size.{
  bit_length, log2, leading_zeros, tree_size, leaf_count, parent_count, inc, dec,
}
use mls4rn.TreeMath.Navigation.{root}
use mls4rn.TreeMath.Inside.{IsFull}
use mls4rn.TreeMath.Shape.{node, at, tree_node-node}

bit_length-zero : (rounds : ℕ) → bit_length rounds 0 ≡ 0
unfolding bit_length
bit_length-zero zero = refl
bit_length-zero (suc rounds) = refl

bit_length_lem :
    (rounds x n : ℕ) → n < rounds → 2 ^ n ≤ x → x < 2 ^ suc n → bit_length rounds x ≡ suc n
unfolding bit_length
bit_length_lem zero x n r lo hi = absurd (omega arith)
bit_length_lem (suc rounds) x zero r lo hi =
    let e : x ≡ 1 = omega arith in rw e (ap suc (bit_length-zero rounds))
bit_length_lem (suc rounds) x (suc n) r lo hi = rw (≢→== x 0 (omega (arith, two_pow_pos (suc n)))) (
    ap suc (
      bit_length_lem rounds (x / 2) n (omega arith) (omega (arith, two_pow_suc n))
        (omega (arith, two_pow_suc (suc n)))))

pub log2_lem : (x n : ℕ) → n < 32 → 2 ^ n ≤ x → x < 2 ^ suc n → log2 x ≡ n
unfolding log2 leading_zeros
log2_lem x n b lo hi =
    rw (≢→== x 0 (omega (arith, two_pow_pos n)), bit_length_lem 32 x n b lo hi) (omega arith)

-- Every positive number lies between two powers of two.
pub between_powers :
    (b x : ℕ) → 0 < x → x < 2 ^ b → (n : ℕ) × (n < b) × (2 ^ n ≤ x) × (x < 2 ^ suc n)
between_powers zero x p h = absurd (omega arith)
between_powers (suc b) x p h = elim (Bool-cases (ltb x (2 ^ b))) [
  | inl e ↦
      let (n, r, lo, hi) = between_powers b x p (ltb→lt x (2 ^ b) e) in (n, omega arith, lo, hi)
  | inr e ↦ (b, omega arith, ltb→le x (2 ^ b) e, h)
]

-- The root of a full tree of height `h`.
pub root-full : (h : ℕ) → h ≤ 30 → root (2 ^ suc h - 1) ≡ at h 0
unfolding root
root-full h small =
    let top : 1 * 2 ^ h < 2 ^ 32 = omega (arith, pow-le-of_le {k = h} {m = 30} small) in
    let one : sub32 (1 << h) 1 ≡ node h 0 =
      rw (<<_lem 1 h (omega arith) top) (omega (arith, two_pow_pos h)) in
    rw
      (
        log2_lem (2 ^ suc h - 1) h (omega arith) (omega (arith, two_pow_suc h, two_pow_pos h))
            (omega (arith, two_pow_pos (suc h))),
        one,
      )
      (tree_node-node h 0 (omega arith))

tree_size_lem :
    (nodes n : ℕ) → n ≤ 30 → 2 ^ n ≤ nodes → nodes < 2 ^ suc n → tree_size nodes ≡ 2 ^ suc n - 1
unfolding tree_size
tree_size_lem nodes n b lo hi =
    let next : n + 1 ≡ suc n = omega arith in
    let top : 1 * 2 ^ suc n < 2 ^ 32 =
      omega (arith, pow-le-of_le {k = suc n} {m = 31} (omega arith)) in
    rw (log2_lem nodes n (omega arith) lo hi, next, <<_lem 1 (suc n) (omega arith) top)
      (omega (arith, two_pow_pos (suc n)))

least : (nodes n h : ℕ) → 2 ^ n ≤ nodes → nodes ≤ 2 ^ suc h - 1 → 2 ^ suc n - 1 ≤ 2 ^ suc h - 1
least nodes n h lo fit = elim (Bool-cases (ltb h n)) [
  | inl lower ↦
      absurd
        (omega (arith, pow-le-of_le {k = suc h} {m = n} (ltb→lt h n lower), two_pow_pos (suc h)))
  | inr higher ↦
      omega (arith, pow-le-of_le {k = suc n} {m = suc h} (omega (arith, ltb→le h n higher)))
]

-- For a number of nodes that is positive and below 2 ^ 31, `tree_size` is the size of a full tree, is
-- at least that number, and is no more than the size of any full tree that holds so many nodes.
pub tree_size_smallest :
    (nodes h' : ℕ)
    → 0 < nodes
    → nodes < 2 ^ 31
    → nodes ≤ 2 ^ suc h' - 1
    → ((h : ℕ) × IsFull h (tree_size nodes))
      × (nodes ≤ tree_size nodes)
      × (tree_size nodes ≤ 2 ^ suc h' - 1)
tree_size_smallest nodes h' p b fit =
    let (n, r, lo, hi) = between_powers 31 nodes p b in
    rw (tree_size_lem nodes n (omega arith) lo hi)
      ((n, (omega arith, refl)), omega arith, least nodes n h' lo fit)

-- A full tree has one leaf more than parents, and growing and shrinking it moves between the full
-- trees of neighbouring heights.
pub full_counts :
    (h : ℕ)
    → h < 30
    → let s = 2 ^ suc h - 1 in
      let t = 2 ^ suc (suc h) - 1 in
      (leaf_count s ≡ 2 ^ h) × (parent_count s ≡ 2 ^ h - 1) × (inc s ≡ t) × (dec t ≡ s)
unfolding inc dec
full_counts h small =
    let top : 2 ^ suc (suc h) ≤ 2 ^ 31 = pow-le-of_le {k = suc (suc h)} {m = 31} (omega arith) in
    let one = two_pow_suc h in
    let two = two_pow_suc (suc h) in
    let pos = two_pow_pos h in
    (
      omega (arith, one, pos),
      omega (arith, one, pos),
      omega (arith, two, pos, top),
      ground (arith, one, two, pos),
    )
