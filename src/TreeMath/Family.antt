-- ===== src/TreeMath/Family.antt =====
-- treemath.rs: children, parents and siblings invert one another.
use Prim.Native.Nat.{compare, Ordering}
use mls4rn.Prelude.{
  ℕ, suc, ◌+◌, ◌-◌, ◌*◌, ◌/◌, ◌%◌, ◌^◌, ◌≤◌, ◌<◌, ◌≡◌, ◌≢◌, ap, ◌∙◌, inl, inr, ◌==◌, if◌then◌else◌,
  Bool-cases, arith, ==→≡, ==→≢,
}
use mls4rn.Prelude.Powers.{two_pow_suc, two_pow_pos, mul-two_pow_suc}
use mls4rn.TreeMath.Index.{ParentNodeIndex, parent_to_tree_index, node_u32}
use mls4rn.TreeMath.Navigation.{left, right, parent, sibling}
use mls4rn.TreeMath.Inside.{
  Inside, Inside-fits, Inside-parent, Inside-of_node, Inside-left, Inside-right,
}
use mls4rn.TreeMath.Shape.{
  node, at, node_form, node-suc, node_u32-at, parent_to_tree_index-node, left-node, right-node,
  parent-node,
}

-- The offset of the sibling: the neighbour under the same parent.
abbrev pub beside : ℕ → ℕ
beside j = if j % 2 == 0 then j + 1 else j - 1

lt-parent : (k j : ℕ) → j % 2 ≡ 0 → node k j < node (suc k) (j / 2)
lt-parent k j e =
    let a : j / 2 * 2 * 2 ^ suc k ≡ j * 2 ^ suc k = ap (λ (q : ℕ). q * 2 ^ suc k) (omega arith) in
    omega (arith, a, mul-two_pow_suc (j / 2) (suc k), two_pow_suc k, two_pow_pos k)

parent-lt : (k j : ℕ) → j % 2 ≢ 0 → node (suc k) (j / 2) < node k j
parent-lt k j e =
    let a : (j / 2 * 2 + 1) * 2 ^ suc k ≡ j * 2 ^ suc k =
      ap (λ (q : ℕ). q * 2 ^ suc k) (omega arith) in
    omega (arith, a, mul-two_pow_suc (j / 2) (suc k), two_pow_suc k, two_pow_pos k)

compare-lt : (a b : ℕ) → a < b → compare a b ≡ Ordering.lt
compare-lt a b h = ground arith

compare-gt : (a b : ℕ) → b < a → compare a b ≡ Ordering.gt
compare-gt a b h = ground arith

module _ (h k j : ℕ) (small : h ≤ 30) (i : Inside h k j) (below : k < h) where
  fits : node k j < 2 ^ 31 - 1
  fits = Inside-fits h k j small i

  above_fits : node (suc k) (j / 2) < 2 ^ 31 - 1
  above_fits = Inside-fits h (suc k) (j / 2) small (Inside-parent h k j below i)

  -- A node other than the root has its neighbour for a sibling.
  pub sibling-node : sibling (at k j) ≡ at k (beside j)
  unfolding sibling
  sibling-node = elim (Bool-cases (j % 2 == 0)) [
    | inl e ↦
        let up : j / 2 * 2 + 1 ≡ j + 1 = ground arith in
        rw
          (
            node_u32-at k j (omega (arith, fits)),
            parent-node k j fits,
            parent_to_tree_index-node k (j / 2) above_fits,
            compare-lt (node k j) (node (suc k) (j / 2)) (lt-parent k j (==→≡ _ _ e)),
            e,
          )
          (right-node k (j / 2) above_fits ∙ ap (at k) up)
    | inr e ↦
        let up : j / 2 * 2 ≡ j - 1 = ground arith in
        rw
          (
            node_u32-at k j (omega (arith, fits)),
            parent-node k j fits,
            parent_to_tree_index-node k (j / 2) above_fits,
            compare-gt (node k j) (node (suc k) (j / 2)) (parent-lt k j (==→≢ _ _ e)),
            e,
          )
          (left-node k (j / 2) above_fits ∙ ap (at k) up)
  ]

module _ (k j : ℕ) (h : node (suc k) j < 2 ^ 31 - 1) where
  inside : Inside 30 (suc k) j
  inside = Inside-of_node 30 (suc k) j h

  below_root : k < 30
  below_root = omega (arith, inside.1)

  left_in_tree : Inside 30 k (j * 2)
  left_in_tree = Inside-left 30 k j inside

  right_in_tree : Inside 30 k (j * 2 + 1)
  right_in_tree = Inside-right 30 k j inside

  left_fits : node k (j * 2) < 2 ^ 31 - 1
  left_fits = Inside-fits 30 k (j * 2) (omega arith) left_in_tree

  right_fits : node k (j * 2 + 1) < 2 ^ 31 - 1
  right_fits = Inside-fits 30 k (j * 2 + 1) (omega arith) right_in_tree

  half_even : j * 2 / 2 ≡ j
  half_even = omega arith

  half_odd : (j * 2 + 1) / 2 ≡ j
  half_odd = omega arith

  parent-left : parent (left (node k j)) ≡ node k j
  parent-left = rw (left-node k j h) (parent-node k (j * 2) left_fits ∙ ap (node k) half_even)

  parent-right : parent (right (node k j)) ≡ node k j
  parent-right = rw (right-node k j h) (parent-node k (j * 2 + 1) right_fits ∙ ap (node k) half_odd)

  sibling-left : sibling (left (node k j)) ≡ right (node k j)
  sibling-left =
      rw (left-node k j h, right-node k j h)
        (sibling-node 30 k (j * 2) (omega arith) left_in_tree below_root ∙ ap (at k) (ground arith))

  sibling-right : sibling (right (node k j)) ≡ left (node k j)
  sibling-right =
      rw (left-node k j h, right-node k j h)
        (sibling-node 30 k (j * 2 + 1) (omega arith) right_in_tree below_root
          ∙ ap (at k) (ground arith))

  left-lt : node_u32 (left (node k j)) < parent_to_tree_index (node k j)
  left-lt =
      rw
        (
          left-node k j h,
          node_u32-at k (j * 2) (omega (arith, left_fits)),
          parent_to_tree_index-node k j h,
        )
        (omega (arith, lt-parent k (j * 2) (omega arith), ap (node (suc k)) half_even))

  lt-right : parent_to_tree_index (node k j) < node_u32 (right (node k j))
  lt-right =
      rw
        (
          right-node k j h,
          node_u32-at k (j * 2 + 1) (omega (arith, right_fits)),
          parent_to_tree_index-node k j h,
        )
        (omega (arith, parent-lt k (j * 2 + 1) (omega arith), ap (node (suc k)) half_odd))

-- For every parent index in the range of a tree: its two children have it for a parent, each child
-- is the sibling of the other, and the parent stands between them in the array.
pub family :
    (p : ParentNodeIndex)
    → p < 2 ^ 30 - 1
    → (parent (left p) ≡ p)
      × (parent (right p) ≡ p)
      × (sibling (left p) ≡ right p)
      × (sibling (right p) ≡ left p)
      × (node_u32 (left p) < parent_to_tree_index p)
      × (parent_to_tree_index p < node_u32 (right p))
family p small =
    let (k, j, e) = node_form p in
    let h : node (suc k) j < 2 ^ 31 - 1 = omega (arith, e, node-suc k j) in
    rw e (
      parent-left k j h,
      parent-right k j h,
      sibling-left k j h,
      sibling-right k j h,
      left-lt k j h,
      lt-right k j h,
    )
