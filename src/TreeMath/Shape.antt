-- ===== src/TreeMath/Shape.antt =====
-- The node of level `k` and offset `j`, counted from the left, has the index `node k j`: the digits
-- of `j`, a zero and `k` ones. The functions of treemath.rs are read in this form.
use Prim.Native.Nat.{bit_and, bit_or, bit_xor}
use native.Mathlib.Nat.{mod-eq_of_lt, mul-add-div_right, div-eq_of_lt, mul-le-mul_right}
use mls4rn.Prelude.{
  ℕ, zero, suc, ◌+◌, ◌-◌, ◌*◌, ◌/◌, ◌%◌, ◌^◌, ◌≤◌, ◌<◌, ◌≡◌, refl, ◌∙◌, ap, inl, inr, Bool-cases,
  ◌==◌, ltb, ltb→lt, ltb→le, arith, ◌<<◌, ◌>>◌, <<_lem, >>_lem, pow-le-of_le,
}
use mls4rn.Prelude.Powers.{two_pow_suc, two_pow_pos, mul-two_pow_suc, div-two_pow_suc}
use mls4rn.Prelude.Bits.{
  bit_and-one, bit_or-one, bit_xor-low, bit_xor_four_one, bit_xor_four_three, bit_xor_field,
  bit_or_field,
}
use mls4rn.TreeMath.Index.{
  TreeNodeIndex, parent_to_tree_index, parent_from_tree_index, tree_node, node_u32,
}
use mls4rn.TreeMath.Navigation.{level_loop, level, left, right, parent}

abbrev pub node : ℕ → ℕ → ℕ
node k j = j * 2 ^ suc k + (2 ^ k - 1)

-- Every number has the form.
pub node_form_fuel : (n x : ℕ) → x < n → (k j : ℕ) × (x ≡ node k j)
node_form_fuel zero x h = absurd (omega arith)
node_form_fuel (suc n) x h = elim (Bool-cases (x % 2 == 0)) [
  | inl e ↦ (0, x / 2, ground arith)
  | inr e ↦
      let (k, j, eq) = node_form_fuel n (x / 2) (ground arith) in
      (suc k, j, ground (arith, two_pow_suc k, two_pow_pos k, mul-two_pow_suc j (suc k)))
]

pub node_form : (x : ℕ) → (k j : ℕ) × (x ≡ node k j)
node_form x = node_form_fuel (suc x) x (omega arith)

-- One digit at a time.
pub node-half : (k j : ℕ) → node (suc k) j / 2 ≡ node k j
node-half k j = omega (arith, mul-two_pow_suc j (suc k), two_pow_suc k, two_pow_pos k)

pub node-odd : (k j : ℕ) → node (suc k) j % 2 ≡ 1
node-odd k j = omega (arith, mul-two_pow_suc j (suc k), two_pow_suc k, two_pow_pos k)

pub node-even : (j : ℕ) → node 0 j % 2 ≡ 0
node-even j = omega arith

level_loop-node :
    (m fuel x i j : ℕ) → m < fuel → i + m < 32 → x / 2 ^ i ≡ node m j → level_loop fuel x i ≡ i + m
unfolding level_loop
level_loop-node m zero x i j h b e = absurd (omega arith)
level_loop-node zero (suc fuel) x i j h b e =
    rw (>>_lem x i (omega arith), e, bit_and-one, node-even j) (omega arith)
level_loop-node (suc m) (suc fuel) x i j h b e =
    let next : i + 1 ≡ suc i = omega arith in
    rw (>>_lem x i (omega arith), e, bit_and-one, node-odd m j)
      (level_loop-node m fuel x (i + 1) j (omega arith) (omega arith)
          (rw (next, div-two_pow_suc x i, e) (node-half m j))
        ∙ omega arith)

-- The level of a node is read off its index.
pub level-node : (k j : ℕ) → k < 32 → level (node k j) ≡ k
unfolding level
level-node zero j h = rw (bit_and-one, node-even j) refl
level-node (suc k) j h =
    rw (bit_and-one, node-odd k j)
      (level_loop-node (suc k) 32 (node (suc k) j) 0 j (omega arith) (omega arith) (omega arith)
        ∙ omega arith)

-- A node as an index of the source: a leaf `j`, or a parent, whose number is its shape one level
-- down.
abbrev pub at : ℕ → ℕ → TreeNodeIndex
at zero j = TreeNodeIndex.leaf j
at (suc k) j = TreeNodeIndex.parent (node k j)

pub node-suc : (k j : ℕ) → node (suc k) j ≡ node k j * 2 + 1
node-suc k j = omega (arith, mul-two_pow_suc j (suc k), two_pow_suc k, two_pow_pos k)

-- `node k j` at a level below the last zero of the digit of level `k`.
node-split : (k j : ℕ) → node (suc k) j ≡ (j * 4 + 1) * 2 ^ k + (2 ^ k - 1)
node-split k j =
    omega (arith, mul-two_pow_suc j (suc k), mul-two_pow_suc j k, two_pow_suc k, two_pow_pos k)

pub level-lt-of_node : (k j n : ℕ) → node k j < 2 ^ n - 1 → k < n
level-lt-of_node k j n h = elim (Bool-cases (ltb k n)) [
  | inl e ↦ ltb→lt k n e
  | inr e ↦ absurd (omega (arith, pow-le-of_le {k = n} {m = k} (ltb→le k n e)))
]

pub node_u32-at : (k j : ℕ) → node k j < 2 ^ 32 → node_u32 (at k j) ≡ node k j
node_u32-at zero j h = mod-eq_of_lt (omega arith) ∙ omega arith
node_u32-at (suc k) j h = rw (← node-suc k j) (mod-eq_of_lt h)

pub parent_from_tree_index-node :
    (k j : ℕ) → node (suc k) j < 2 ^ 32 → parent_from_tree_index (node (suc k) j) ≡ node k j
parent_from_tree_index-node k j h = omega (arith, node-suc k j)

pub tree_node-node : (k j : ℕ) → node k j < 2 ^ 32 → tree_node (node k j) ≡ at k j
unfolding tree_node
tree_node-node zero j h =
    let e : node 0 j / 2 ≡ j = omega arith in rw (node-even j) (ap TreeNodeIndex.leaf e)
tree_node-node (suc k) j h =
    rw (node-odd k j) (ap TreeNodeIndex.parent (parent_from_tree_index-node k j h))

module _ (k j : ℕ) (h : node (suc k) j < 2 ^ 31 - 1) where
  pub parent_to_tree_index-node : parent_to_tree_index (node k j) ≡ node (suc k) j
  parent_to_tree_index-node = rw (← node-suc k j) (mod-eq_of_lt (omega arith))

  level-parent : level (node (suc k) j) - 1 ≡ k
  level-parent =
      rw (level-node (suc k) j (omega (arith, level-lt-of_node (suc k) j 31 h))) (omega arith)

  level-lt : suc k < 32
  level-lt = omega (arith, level-lt-of_node (suc k) j 31 h)

  shifted_fits : (m : ℕ) → m ≤ 3 → m * 2 ^ k < 2 ^ 32
  shifted_fits m le =
      let q : 2 ^ k ≤ 2 ^ 30 = pow-le-of_le {k = k} {m = 30} (omega (arith, level-lt)) in
      grind arith

  left-bits : bit_xor (node (suc k) j) (1 << k) ≡ node k (j * 2)
  left-bits =
      rw (<<_lem 1 k (omega (arith, level-lt)) (shifted_fits 1 (omega arith)), node-split k j)
        (bit_xor_field k (j * 4 + 1) (2 ^ k - 1) 1 (omega (arith, two_pow_pos k))
          ∙ ap (λ (q : ℕ). q * 2 ^ k + (2 ^ k - 1)) (bit_xor_four_one j)
          ∙ omega (arith, mul-two_pow_suc (j * 2) k))

  right-bits : bit_xor (node (suc k) j) (3 << k) ≡ node k (j * 2 + 1)
  right-bits =
      rw (<<_lem 3 k (omega (arith, level-lt)) (shifted_fits 3 (omega arith)), node-split k j)
        (bit_xor_field k (j * 4 + 1) (2 ^ k - 1) 3 (omega (arith, two_pow_pos k))
          ∙ ap (λ (q : ℕ). q * 2 ^ k + (2 ^ k - 1)) (bit_xor_four_three j)
          ∙ omega (arith, mul-two_pow_suc (j * 2) k, two_pow_suc k))

  left_fits : node k (j * 2) < 2 ^ 32
  left_fits = omega (arith, mul-two_pow_suc j (suc k), two_pow_suc k, two_pow_pos k)

  right_fits : node k (j * 2 + 1) < 2 ^ 32
  right_fits =
      let e : (j * 2 + 1) * 2 ^ suc k ≡ j * 2 ^ suc (suc k) + 2 ^ suc k =
        omega (arith, mul-two_pow_suc j (suc k)) in
      omega (arith, e, two_pow_suc k, two_pow_pos k)

  pub left-node : left (node k j) ≡ at k (j * 2)
  unfolding left
  left-node =
      rw (parent_to_tree_index-node, level-parent, left-bits) (tree_node-node k (j * 2) left_fits)

  pub right-node : right (node k j) ≡ at k (j * 2 + 1)
  unfolding right
  right-node =
      rw (parent_to_tree_index-node, level-parent, right-bits)
        (tree_node-node k (j * 2 + 1) right_fits)

-- The offset is what stands above the ones.
pub node-above : (k j : ℕ) → node k j / 2 ^ suc k ≡ j
node-above k j =
    mul-add-div_right (two_pow_pos (suc k)) j (2 ^ k - 1)
    ∙ ap (λ (q : ℕ). j + q) (div-eq_of_lt (omega (arith, two_pow_suc k, two_pow_pos k)))
    ∙ omega arith

module _ (k j : ℕ) (h : node k j < 2 ^ 31 - 1) where
  low_level : k < 31
  low_level = level-lt-of_node k j 31 h

  or-bits : bit_or (node k j) (1 << k) ≡ j * 2 ^ suc k + (2 ^ suc k - 1)
  or-bits =
      let one : 1 * 2 ^ k < 2 ^ 32 =
        omega (arith, pow-le-of_le {k = k} {m = 31} (omega (arith, low_level))) in
      let split : node k j ≡ (j * 2) * 2 ^ k + (2 ^ k - 1) = omega (arith, mul-two_pow_suc j k) in
      rw (<<_lem 1 k (omega (arith, low_level)) one, split)
        (bit_or_field k (j * 2) (2 ^ k - 1) 1 (omega (arith, two_pow_pos k))
          ∙ ap (λ (q : ℕ). q * 2 ^ k + (2 ^ k - 1)) (bit_or-one j)
          ∙ omega (arith, mul-two_pow_suc j k, two_pow_suc k, two_pow_pos k))

  carry : bit_and (node k j >> (k + 1)) 1 ≡ j % 2
  carry =
      let top : k + 1 ≡ suc k = omega arith in
      rw (>>_lem (node k j) (k + 1) (omega (arith, low_level)), top, bit_and-one, node-above k j)
        refl

  carry_fits : (j % 2) * 2 ^ (k + 1) < 2 ^ 32
  carry_fits =
      let q : 2 ^ (k + 1) ≤ 2 ^ 31 = pow-le-of_le {k = k + 1} {m = 31} (omega (arith, low_level)) in
      grind arith

  parent-bits :
      bit_xor (j * 2 ^ suc k + (2 ^ suc k - 1)) ((j % 2) << (k + 1)) ≡ node (suc k) (j / 2)
  parent-bits =
      let top : k + 1 ≡ suc k = omega arith in
      rw (<<_lem (j % 2) (k + 1) (omega (arith, low_level)) carry_fits, top)
        (bit_xor_field (suc k) j (2 ^ suc k - 1) (j % 2) (omega (arith, two_pow_pos (suc k)))
          ∙ ap (λ (q : ℕ). q * 2 ^ suc k + (2 ^ suc k - 1)) (bit_xor-low j)
          ∙ omega (arith, mul-two_pow_suc (j / 2) (suc k)))

  pub parent_fits : node (suc k) (j / 2) < 2 ^ 32
  parent_fits =
      let q : j / 2 * 2 * 2 ^ suc k ≤ j * 2 ^ suc k = mul-le-mul_right (2 ^ suc k) (omega arith) in
      omega (
        arith,
        mul-two_pow_suc (j / 2) (suc k),
        two_pow_suc k,
        pow-le-of_le {k = suc k} {m = 31} (omega (arith, low_level)),
      )

  pub parent-node : parent (at k j) ≡ node k (j / 2)
  unfolding parent
  parent-node =
      rw
        (
          node_u32-at k j (omega arith),
          level-node k j (omega (arith, low_level)),
          or-bits,
          carry,
          parent-bits,
        )
        (parent_from_tree_index-node k (j / 2) parent_fits)
