-- ===== src/TreeMath/Inside.antt =====
-- The nodes of a full tree of height `h`: those of level `k` and offset below `2 ^ (h - k)`.
use native.Mathlib.Nat.{mul-le-mul_right}
use mls4rn.Prelude.{
  ℕ, zero, suc, ◌+◌, ◌-◌, ◌*◌, ◌/◌, ◌^◌, ◌≤◌, ◌<◌, ◌≡◌, ap, inl, inr, ltb, ltb→lt, ltb→le,
  Bool-cases, arith, pow-le-of_le,
}
use mls4rn.Prelude.Powers.{two_pow_suc, two_pow_pos, two_pow-add}
use mls4rn.TreeMath.Size.{TreeSize}
use mls4rn.TreeMath.Shape.{node, level-lt-of_node}

abbrev pub Inside : ℕ → ℕ → ℕ → Type 0
Inside h k j = (d : ℕ) × (k + d ≡ h) × (j < 2 ^ d)

-- A size is that of a full tree of height `h` in the range of the source: `max_tree_size` bounds
-- the number of nodes by 2 ^ 30.
abbrev pub IsFull : ℕ → TreeSize → Type 0
IsFull h s = (h ≤ 30) × (s ≡ 2 ^ suc h - 1)

module _ (h k j : ℕ) where
  pub Inside-node : Inside h k j → node k j < 2 ^ suc h - 1
  Inside-node (d, e, lt) =
      let a : (j + 1) * 2 ^ suc k ≤ 2 ^ d * 2 ^ suc k =
        mul-le-mul_right (2 ^ suc k) (omega arith) in
      let b : suc h ≡ d + suc k = omega arith in
      rw b (omega (arith, two_pow-add d (suc k), a, two_pow_suc k, two_pow_pos k))

  pub Inside-fits : h ≤ 30 → Inside h k j → node k j < 2 ^ 31 - 1
  Inside-fits le i = omega (arith, Inside-node i, pow-le-of_le {k = suc h} {m = 31} (omega arith))

  pub Inside-parent : k < h → Inside h k j → Inside h (suc k) (j / 2)
  Inside-parent lt (suc d, e, b) = (d, omega arith, omega (arith, two_pow_suc d))
  Inside-parent lt (zero, e, b) = absurd (omega arith)

  -- The bound on the index leaves no other node.
  pub Inside-of_node : node k j < 2 ^ suc h - 1 → Inside h k j
  Inside-of_node b =
      let lt = level-lt-of_node k j (suc h) b in
      let d = h - k in
      let a : suc h ≡ d + suc k = omega arith in
      let c : j * 2 ^ suc k < 2 ^ d * 2 ^ suc k =
        omega (arith, two_pow-add d (suc k), ap (λ (n : ℕ). 2 ^ n) a, two_pow_pos k) in
      elim (Bool-cases (ltb j (2 ^ d))) [
        | inl in_range ↦ (d, omega arith, ltb→lt j (2 ^ d) in_range)
        | inr out ↦ absurd (omega (arith, c, mul-le-mul_right (2 ^ suc k) (ltb→le j (2 ^ d) out)))
      ]

module _ (h k j : ℕ) where
  pub Inside-left : Inside h (suc k) j → Inside h k (j * 2)
  Inside-left (d, e, b) = (suc d, omega arith, omega (arith, two_pow_suc d))

  pub Inside-right : Inside h (suc k) j → Inside h k (j * 2 + 1)
  Inside-right (d, e, b) = (suc d, omega arith, omega (arith, two_pow_suc d))
