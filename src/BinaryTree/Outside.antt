-- ===== src/BinaryTree/Outside.antt =====
-- The iterators of a diff list nothing outside of the tree.

use mls4rn.Prelude.{
  ℕ, zero, suc, ◌+◌, ◌^◌, ◌≤◌, ◌<◌, ◌≡◌, refl, inl, inr, Bool-cases, ◌==◌, ==→≢, ≢→==, u32, Option,
  none, List, [], ◌∷◌, length, arith,
}
use mls4rn.SortedIter.{SortedIter, next, next_item, collect, cons_item}
use mls4rn.SortedIter.Step.{Ascending, no_more, one_more, order}
use mls4rn.BinaryTree.Map.{BTreeMap, key, get, Ascending-le}
use mls4rn.BinaryTree.Tree.{enumerate}

module _ {A : Type 0} where
  -- The merge when `c` items are out: the vector is at index `c`, the map not below it.
  abbrev iter_at : ℕ → ℕ → BTreeMap A → List A → SortedIter (ℕ × A)
  iter_at c n m xs = record { a = m; b = enumerate c xs; size = n; counter = c }

  head-lt : (n j : ℕ) (a : A) (m : BTreeMap A) → (n ≤ j → get j ((j, a) ∷ m) ≡ none) → j < n
  unfolding get
  head-lt n j a m bound = ground arith

  tail_bounded :
      (n j : ℕ) (a : A) (m : BTreeMap A)
      → j < n
      → ((k : ℕ) → n ≤ k → get k ((j, a) ∷ m) ≡ none)
      → (k : ℕ) → n ≤ k
      → get k m ≡ none
  unfolding get
  tail_bounded n j a m lt bound k le = ground (arith, bound k le)

  abbrev rest_of : ℕ → ℕ → ℕ → List (ℕ × A) × List (ℕ × A) × Option (ℕ × A) → List (ℕ × A)
  rest_of fuel c n out =
      cons_item key out.2
        (collect key fuel (record { a = out.0; b = out.1; size = n; counter = c + 1 }))

  -- One item, if the items after it are all in the tree.
  item-outside :
      (fuel c n k : ℕ) (m : BTreeMap A) (xs : List A)
      → Ascending key c m
      → ((i : ℕ) → n ≤ i → get i m ≡ none)
      → c + length xs ≤ 2 ^ 32
      → c < n
      → n ≤ k
      → n ≤ 2 ^ 32
      → ((m' : BTreeMap A) (xs' : List A)
          → Ascending key (c + 1) m'
          → ((i : ℕ) → n ≤ i → get i m' ≡ none)
          → c + 1 + length xs' ≤ 2 ^ 32
          → get k (collect key fuel (iter_at (c + 1) n m' xs')) ≡ none)
      → get k (rest_of fuel c n (next_item key m (enumerate c xs))) ≡ none
  unfolding next_item enumerate get
  item-outside fuel c n k [] [] asc bound fits lt out small ih = refl
  item-outside fuel c n k ((j, a) ∷ m) [] (one_more above asc) bound fits lt out small ih =
      let in_tree = head-lt n j a m (bound j) in
      rw (≢→== j k (omega (arith, in_tree, out))) (
        ih m [] (Ascending-le (suc j) (c + 1) m (omega (arith, above)) asc)
          (tail_bounded n j a m in_tree bound) (omega arith))
  item-outside fuel c n k [] (x ∷ xs) asc bound fits lt out small ih =
      let e : u32 c ≡ c = omega arith in
      rw (e, ≢→== c k (omega (arith, lt, out))) (ih [] xs no_more bound (omega arith))
  item-outside fuel c n k ((j, a) ∷ m) (x ∷ xs) (one_more above asc) bound fits lt out small ih =
      let e : u32 c ≡ c = omega arith in
      let in_tree = head-lt n j a m (bound j) in
      elim (order j c) [
        | inl (less, _) ↦ absurd (omega (arith, less, above))
        | inr (inl (same, eq)) ↦
            rw (e, eq, next_item, ≢→== j k (omega (arith, in_tree, out)))
              (ih m xs (Ascending-le (suc j) (c + 1) m (omega (arith, same)) asc)
                (tail_bounded n j a m in_tree bound) (omega arith))
        | inr (inr (more, gt)) ↦
            rw (e, gt, next_item, e, ≢→== c k (omega (arith, lt, out)))
              (ih ((j, a) ∷ m) xs (one_more (omega (arith, more)) asc) bound (omega arith))
      ]

  pub iterated-outside :
      (fuel c n k : ℕ) (m : BTreeMap A) (xs : List A)
      → Ascending key c m
      → ((i : ℕ) → n ≤ i → get i m ≡ none)
      → c + length xs ≤ 2 ^ 32
      → c ≤ n
      → n ≤ k
      → n ≤ 2 ^ 32
      → get k (collect key fuel (iter_at c n m xs)) ≡ none
  unfolding collect next get
  iterated-outside zero c n k m xs asc bound fits le out small = refl
  iterated-outside (suc fuel) c n k m xs asc bound fits le out small = elim (Bool-cases (c == n)) [
    | inl full ↦ rw full refl
    | inr more ↦
        let ne = ==→≢ c n more in
        let lt : c < n = omega (arith, le, ne) in
        rw more (
          item-outside fuel c n k m xs asc bound fits lt out small (λ m' xs' asc' bound' fits'.
            iterated-outside fuel (c + 1) n k m' xs' asc' bound' fits' (omega (arith, lt)) out
              small))
  ]
