-- ===== src/TreeMath/CommonPath.antt =====
-- treemath.rs: the common direct path starts at the lowest common ancestor.
use mathlib.Core.List.{reverse-append, reverse-reverse, append-nil, reverse}
use mls4rn.Prelude.{
  ℕ, zero, suc, ◌+◌, ◌-◌, ◌/◌, ◌^◌, ◌≤◌, ◌<◌, ◌≡◌, ◌≢◌, refl, sym, ap, ap₂, ◌∙◌, ≡→==, ≢→==, arith,
  some, List, [], ◌∷◌, ◌++◌,
}
use mls4rn.Prelude.Powers.{div-two_pow-half, div-two_pow_suc}
use mls4rn.TreeMath.Index.{LeafNodeIndex, ParentNodeIndex}
use mls4rn.TreeMath.Paths.{lowest_common_ancestor, common_prefix, common_direct_path}
use mls4rn.TreeMath.DirectPath.{ancestors, direct_path-ancestors}
use mls4rn.TreeMath.Ancestor.{Splits, split_level, lowest_common_ancestor-Splits}
use mls4rn.TreeMath.Shape.{node, node-above}

ancestors-append :
    (a b k j : ℕ) → ancestors (a + b) k j ≡ ancestors a k j ++ ancestors b (k + a) (j / 2 ^ a)
unfolding ancestors
ancestors-append zero b k j =
    ap₂ (λ (n m : ℕ). ancestors n m j) (omega arith) (omega arith)
    ∙ ap (λ (m : ℕ). ancestors b (k + 0) m) (omega arith)
ancestors-append (suc a) b k j =
    let step : suc a + b ≡ suc (a + b) = omega arith in
    rw step (
      ap (◌∷◌ (node k (j / 2))) (
        ancestors-append a b (suc k) (j / 2)
        ∙ ap (◌++◌ (ancestors a (suc k) (j / 2)))
            (ap₂ (λ (n m : ℕ). ancestors b n m) (omega arith) (sym (div-two_pow-half j a)))))

-- Two starts with the same parent have the same ancestors.
ancestors_same : (b k j j' : ℕ) → j / 2 ≡ j' / 2 → ancestors b k j ≡ ancestors b k j'
unfolding ancestors
ancestors_same zero k j j' e = refl
ancestors_same (suc b) k j j' e = rw e refl

common_prefix-append :
    (r xs ys : List ParentNodeIndex) → common_prefix (r ++ xs) (r ++ ys) ≡ r ++ common_prefix xs ys
unfolding common_prefix
common_prefix-append [] xs ys = refl
common_prefix-append (x ∷ r) xs ys = rw (≡→== x x refl) (ap (◌∷◌ x) (common_prefix-append r xs ys))

reverse-ancestors :
    (n i : ℕ) → reverse (ancestors (suc n) 0 i) ≡ node n (i / 2 ^ suc n) ∷ reverse (ancestors n 0 i)
unfolding ancestors
reverse-ancestors n i =
    ap (λ (m : ℕ). reverse (ancestors m 0 i)) {x = suc n} {y = n + 1} (omega arith)
    ∙ ap reverse (ancestors-append n 1 0 i)
    ∙ reverse-append (ancestors n 0 i) (ancestors 1 (0 + n) (i / 2 ^ n))
    ∙ ap₂ (λ (k m : ℕ). node k m ∷ reverse (ancestors n 0 i)) (omega arith)
        (sym (div-two_pow_suc i n))

node_apart : (k a b : ℕ) → a ≢ b → node k a ≢ node k b
node_apart k a b ne e = ne (sym (node-above k a) ∙ ap (λ (x : ℕ). x / 2 ^ suc k) e ∙ node-above k b)

-- Below the split the two paths have no node in common.
common_prefix-apart :
    (n i j : ℕ)
    → ((p : ℕ) → p ≤ n → i / 2 ^ p ≢ j / 2 ^ p)
    → common_prefix (reverse (ancestors n 0 i)) (reverse (ancestors n 0 j)) ≡ []
unfolding common_prefix
common_prefix-apart zero i j ne = unfold ancestors in refl
common_prefix-apart (suc n) i j ne =
    rw
      (
        reverse-ancestors n i,
        reverse-ancestors n j,
        ≢→== (node n (i / 2 ^ suc n)) (node n (j / 2 ^ suc n))
            (node_apart n (i / 2 ^ suc n) (j / 2 ^ suc n) (ne (suc n) (omega arith))),
      )
      refl

module _ (h i j n : ℕ) (lt : n < h) (s : Splits i j n) where
  shared : List ParentNodeIndex
  shared = ancestors (h - n) n (i / 2 ^ n)

  path-shared : ancestors h 0 i ≡ ancestors n 0 i ++ shared
  unfolding shared
  path-shared =
      ap (λ (m : ℕ). ancestors m 0 i) {x = h} {y = n + (h - n)} (omega arith)
      ∙ ancestors-append n (h - n) 0 i
      ∙ ap (λ (m : ℕ). ancestors n 0 i ++ ancestors (h - n) m (i / 2 ^ n)) (omega arith)

  other-shared : ancestors h 0 j ≡ ancestors n 0 j ++ shared
  unfolding shared
  other-shared =
      ap (λ (m : ℕ). ancestors m 0 j) {x = h} {y = n + (h - n)} (omega arith)
      ∙ ancestors-append n (h - n) 0 j
      ∙ ap (λ (m : ℕ). ancestors n 0 j ++ ancestors (h - n) m (j / 2 ^ n)) (omega arith)
      ∙ ap (◌++◌ (ancestors n 0 j)) (
          ancestors_same (h - n) n (j / 2 ^ n) (i / 2 ^ n)
            (sym (div-two_pow_suc j n) ∙ sym s.meet ∙ div-two_pow_suc i n))

  prefix-shared :
      reverse (common_prefix (reverse (ancestors h 0 i)) (reverse (ancestors h 0 j))) ≡ shared
  prefix-shared =
      rw
        (
          path-shared,
          other-shared,
          reverse-append (ancestors n 0 i) shared,
          reverse-append (ancestors n 0 j) shared,
          common_prefix-append (reverse shared),
          common_prefix-apart n i j s.apart,
          append-nil (reverse shared),
        )
        (reverse-reverse shared)

-- For two distinct leaves of a full tree there is a level `n` at which their ancestors differ and
-- above which they are the same; the lowest common ancestor is the node of the level `n + 1` over
-- both, and the common direct path is the list of the ancestors from that node to the root.
pub common_ancestor :
    (h : ℕ) (i j : LeafNodeIndex)
    → h ≤ 30
    → i < 2 ^ h
    → j < 2 ^ h
    → i ≢ j
    → (n : ℕ) × (n < h)
      × (i / 2 ^ n ≢ j / 2 ^ n)
      × (i / 2 ^ suc n ≡ j / 2 ^ suc n)
      × (lowest_common_ancestor i j ≡ node n (i / 2 ^ suc n))
      × (common_direct_path i j (2 ^ suc h - 1) ≡ some (ancestors (h - n) n (i / 2 ^ n)))
unfolding common_direct_path shared
common_ancestor h i j small bi bj ne =
    let (n, lt, s) = split_level h i j bi bj ne in
    (
      n,
      lt,
      s.apart n (omega arith),
      s.meet,
      lowest_common_ancestor-Splits h i j n small bi bj lt s,
      rw (direct_path-ancestors h small i bi, direct_path-ancestors h small j bj)
          (ap some (prefix-shared h i j n lt s)),
    )
