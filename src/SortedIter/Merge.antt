-- ===== src/SortedIter/Merge.antt =====
-- The merge of two ascending lists: its order, and what it finds under a key.

use mls4rn.Prelude.{
  ℕ, zero, suc, ◌+◌, ◌≤◌, ◌<◌, ◌≡◌, refl, sym, inl, inr, Bool-cases, ◌==◌, ==→≡, Option, none, List,
  [], ◌∷◌, length, arith,
}
use mls4rn.SortedIter.{SortedIter, next_item, next, collect, cons_item}
use mls4rn.SortedIter.Step.{
  Ascending, no_more, one_more, find, or_else, Step, finished, item, next_item-Step,
}

module _ {ℓ} {A : Type ℓ} (cmp : A → ℕ) where
  rest-Ascending :
      (low fuel size counter : ℕ) (xs ys : List A) (out : List A × List A × Option A)
      → Step cmp low xs ys out
      → ((low' : ℕ)
          → Ascending cmp low' out.0
          → Ascending cmp low' out.1
          → Ascending cmp low'
              (collect cmp fuel (record { a = out.0; b = out.1; size = size; counter = counter })))
      → Ascending cmp low (
          cons_item cmp out.2
            (collect cmp fuel (record { a = out.0; b = out.1; size = size; counter = counter })))
  rest-Ascending low fuel size counter xs ys out finished later = no_more
  rest-Ascending low fuel size counter xs ys out (item i) later =
      one_more i.from (later _ i.left i.right)

  -- The merge of two ascending lists is ascending, whatever the size and the number of calls.
  pub collect-Ascending :
      (fuel low : ℕ) (it : SortedIter A)
      → Ascending cmp low it.a
      → Ascending cmp low it.b
      → Ascending cmp low (collect cmp fuel it)
  unfolding collect next
  collect-Ascending zero low it ax ay = no_more
  collect-Ascending (suc fuel) low it ax ay = elim (Bool-cases (it.counter == it.size)) [
    | inl h ↦ rw h no_more
    | inr h ↦ rw h (
        rest-Ascending low fuel it.size (it.counter + 1) it.a it.b (next_item cmp it.a it.b)
          (next_item-Step cmp low it.a it.b ax ay)
          (λ low' ax' ay'. collect-Ascending fuel low' _ ax' ay'))
  ]

  find_nothing :
      (k : ℕ) (xs ys : List A)
      → length xs + length ys ≤ 0
      → or_else cmp (find cmp k xs) (find cmp k ys) ≡ none
  unfolding find
  find_nothing k [] [] none_left = refl
  find_nothing k [] (y ∷ ys) none_left = absurd (omega arith)
  find_nothing k (x ∷ xs) ys none_left = absurd (omega arith)

  rest-find :
      (low fuel size counter k : ℕ) (xs ys : List A) (out : List A × List A × Option A)
      → Step cmp low xs ys out
      → ((low' : ℕ)
          → Ascending cmp low' out.0
          → Ascending cmp low' out.1
          → length out.0 + length out.1 < length xs + length ys
          → find cmp k
              (collect cmp fuel (record { a = out.0; b = out.1; size = size; counter = counter }))
            ≡ or_else cmp (find cmp k out.0) (find cmp k out.1))
      → find cmp k (
          cons_item cmp out.2
            (collect cmp fuel (record { a = out.0; b = out.1; size = size; counter = counter })))
        ≡ or_else cmp (find cmp k xs) (find cmp k ys)
  unfolding find
  rest-find low fuel size counter k xs ys out finished later = refl
  rest-find low fuel size counter k xs ys out (item i) later =
      let ih = later _ i.left i.right i.fewer in let at_k = i.found k in rw ih (sym at_k)

  -- The merge of two ascending lists finds under every key what the first list has, or else what the
  -- second has, if the size leaves room for all items and there is a call of `next` for each.
  pub collect-find :
      (fuel low k : ℕ) (it : SortedIter A)
      → Ascending cmp low it.a
      → Ascending cmp low it.b
      → it.counter + (length it.a + length it.b) ≤ it.size
      → length it.a + length it.b ≤ fuel
      → find cmp k (collect cmp fuel it) ≡ or_else cmp (find cmp k it.a) (find cmp k it.b)
  unfolding collect next find
  collect-find zero low k it ax ay room enough = sym (find_nothing k it.a it.b enough)
  collect-find (suc fuel) low k it ax ay room enough = elim (Bool-cases (it.counter == it.size)) [
    | inl h ↦ rw h (sym (find_nothing k it.a it.b (omega (arith, room, ==→≡ it.counter it.size h))))
    | inr h ↦ rw h (
        rest-find low fuel it.size (it.counter + 1) k it.a it.b (next_item cmp it.a it.b)
          (next_item-Step cmp low it.a it.b ax ay)
          (λ low' ax' ay' fewer.
            collect-find fuel low' k _ ax' ay' (omega (arith, room, fewer))
              (omega (arith, enough, fewer))))
  ]
