-- ===== src/TreeMath/Ancestor.antt =====
-- treemath.rs: the lowest common ancestor of two leaves, and their common direct path.

use native.Mathlib.Nat.{div-lt_iff_lt-mul, mod-eq_of_lt}
use mls4rn.Prelude.{
  ℕ, zero, suc, ◌+◌, ◌-◌, ◌*◌, ◌/◌, ◌^◌, ◌≤◌, ◌<◌, ◌≡◌, ◌≢◌, sym, ap, ap₂, ◌∙◌, ≡→==, ≢→==, arith,
  u32, sub32, ◌<<◌, ◌>>◌, <<_lem, >>_lem, pow-le-of_le,
}
use mls4rn.Prelude.Powers.{two_pow_suc, two_pow_pos, two_pow-add, div-two_pow-half, div-two_pow_suc}
use mls4rn.TreeMath.Index.{leaf_to_tree_index}
use mls4rn.TreeMath.Navigation.{level}
use mls4rn.TreeMath.Paths.{ancestor_loop, lowest_common_ancestor}
use mls4rn.TreeMath.Inside.{Inside, Inside-fits}
use mls4rn.TreeMath.Family.{beside}
use mls4rn.TreeMath.Copath.{Covers, covering, joined, beside-ne}
use mls4rn.TreeMath.Shape.{node, level-node, parent_from_tree_index-node}

-- Level `n` is the last at which the paths of the two leaves are apart.
pub record Splits (i j n : ℕ) : Type 0 where
  pub apart : (p : ℕ) → p ≤ n → i / 2 ^ p ≢ j / 2 ^ p
  pub meet : i / 2 ^ suc n ≡ j / 2 ^ suc n

meet_above : (p d i j : ℕ) → i / 2 ^ p ≡ j / 2 ^ p → i / 2 ^ (d + p) ≡ j / 2 ^ (d + p)
meet_above p zero i j e = let z : 0 + p ≡ p = omega arith in rw z e
meet_above p (suc d) i j e =
    let s : suc d + p ≡ suc (d + p) = omega arith in
    rw s (
      div-two_pow_suc i (d + p)
      ∙ ap (λ (a : ℕ). a / 2) (meet_above p d i j e)
      ∙ sym (div-two_pow_suc j (d + p)))

Covers-Splits : (n i j : ℕ) → Covers n (beside (i / 2 ^ n)) j → Splits i j n
Covers-Splits n i j c = record {
  apart = λ p le e.
      let at_n : n - p + p ≡ n = omega arith in
      beside-ne (i / 2 ^ n) (sym c ∙ sym (rw at_n at (meet_above p (n - p) i j e)));
  meet = sym (joined n i j c);
}

-- Two leaves split somewhere below the root.
pub split_level : (h i j : ℕ) → i < 2 ^ h → j < 2 ^ h → i ≢ j → (n : ℕ) × (n < h) × Splits i j n
split_level h i j bi bj ne =
    let (n, lt, c) = covering h i j bi bj ne in (n, lt, Covers-Splits n i j c)

ancestor_loop_lem :
    (m fuel x y k : ℕ)
    → m ≤ fuel
    → ((p : ℕ) → p < m → x / 2 ^ p ≢ y / 2 ^ p)
    → x / 2 ^ m ≡ y / 2 ^ m
    → ancestor_loop fuel x y k ≡ (x / 2 ^ m, k + m)
unfolding ancestor_loop
ancestor_loop_lem zero zero x y k f ne e = ap₂ (λ (a b : ℕ). (a, b)) (omega arith) (omega arith)
ancestor_loop_lem zero (suc fuel) x y k f ne e =
    rw (≡→== x y (omega arith)) (ap₂ (λ (a b : ℕ). (a, b)) (omega arith) (omega arith))
ancestor_loop_lem (suc m) zero x y k f ne e = absurd (omega arith)
ancestor_loop_lem (suc m) (suc fuel) x y k f ne e =
    let half_x : x >> 1 ≡ x / 2 = >>_lem x 1 (omega arith) in
    let half_y : y >> 1 ≡ y / 2 = >>_lem y 1 (omega arith) in
    let rest =
      ancestor_loop_lem m fuel (x / 2) (y / 2) (k + 1) (omega arith)
        (λ p lt same.
          ne (suc p) (omega arith) (div-two_pow-half x p ∙ same ∙ sym (div-two_pow-half y p)))
        (sym (div-two_pow-half x m) ∙ e ∙ div-two_pow-half y m) in
    rw (≢→== x y (λ same. ne 0 (omega arith) (ap (λ (a : ℕ). a / 1) same)), half_x, half_y)
      (rest ∙ ap₂ (λ (a b : ℕ). (a, b)) (sym (div-two_pow-half x m)) (omega arith))

double-shift : (i p : ℕ) → i * 2 / 2 ^ suc p ≡ i / 2 ^ p
double-shift i p = div-two_pow-half (i * 2) p ∙ ap (λ (a : ℕ). a / 2 ^ p) (omega arith)

Inside-above : (h k i : ℕ) → k ≤ h → i < 2 ^ h → Inside h k (i / 2 ^ k)
Inside-above h k i le b =
    let sum : h ≡ h - k + k = omega arith in
    let bound : i < 2 ^ (h - k) * 2 ^ k =
      omega (arith, ap (λ (n : ℕ). 2 ^ n) sum, two_pow-add (h - k) k) in
    (h - k, omega arith, (div-lt_iff_lt-mul (two_pow_pos k)).1 bound)

module _ (h i j n : ℕ) (small : h ≤ 30) (bi : i < 2 ^ h) (bj : j < 2 ^ h) (lt : n < h)
    (s : Splits i j n) where
  word : (l : ℕ) → l < 2 ^ h → leaf_to_tree_index l ≡ l * 2
  word l b = mod-eq_of_lt (omega (arith, pow-le-of_le {k = h} {m = 30} small))

  level-word : (l : ℕ) → level (l * 2) ≡ 0
  level-word l = let e : l * 2 ≡ node 0 l = omega arith in rw e (level-node 0 l (omega arith))

  shift-word : (l : ℕ) → (l * 2) >> 1 ≡ l
  shift-word l = >>_lem (l * 2) 1 (omega arith) ∙ omega arith

  leaves_apart : i ≢ j
  leaves_apart e = s.apart 0 (omega arith) (ap (λ (a : ℕ). a / 2 ^ 0) e)

  words_apart : (p : ℕ) → p < suc (suc n) → i * 2 / 2 ^ p ≢ j * 2 / 2 ^ p
  words_apart zero b e = leaves_apart (omega arith)
  words_apart (suc p) b e = s.apart p (omega arith) (sym (double-shift i p) ∙ e ∙ double-shift j p)

  top : ℕ
  top = i / 2 ^ suc n

  loop : ancestor_loop 32 (i * 2) (j * 2) 0 ≡ (top, suc (suc n))
  unfolding top
  loop =
      ancestor_loop_lem (suc (suc n)) 32 (i * 2) (j * 2) 0 (omega arith) words_apart
        (double-shift i (suc n) ∙ s.meet ∙ sym (double-shift j (suc n)))
      ∙ ap₂ (λ (a b : ℕ). (a, b)) (double-shift i (suc n)) (omega arith)

  top_fits : node (suc n) top < 2 ^ 31 - 1
  unfolding top
  top_fits = Inside-fits h (suc n) (i / 2 ^ suc n) small (Inside-above h (suc n) i (omega arith) bi)

  index : sub32 (u32 ((top << suc (suc n)) + (1 << suc n))) 1 ≡ node (suc n) top
  index =
      let wide : 1 * 2 ^ suc n < 2 ^ 32 =
        omega (arith, pow-le-of_le {k = suc n} {m = 30} (omega arith)) in
      let fits = top_fits in
      let pos = two_pow_pos (suc n) in
      rw
        (
          <<_lem top (suc (suc n)) (omega arith) (omega (arith, fits)),
          <<_lem 1 (suc n) (omega arith) wide,
        )
        (omega (arith, fits, pos, two_pow_suc (suc n)))

  one_less : suc (suc n) - 1 ≡ suc n
  one_less = omega arith

  pub lowest_common_ancestor-Splits : lowest_common_ancestor i j ≡ node n (i / 2 ^ suc n)
  unfolding lowest_common_ancestor top
  lowest_common_ancestor-Splits =
      rw
        (
          word i bi,
          word j bj,
          level-word i,
          level-word j,
          shift-word i,
          shift-word j,
          ≢→== i j leaves_apart,
          loop,
          one_less,
          index,
        )
        (parent_from_tree_index-node n (i / 2 ^ suc n) (omega (arith, top_fits)))
