-- ===== src/SortedIter/Prefix.antt =====
-- The merge of two ascending lists below its size.
use mls4rn.Prelude.{
  ℕ, zero, suc, ◌+◌, ◌≤◌, ◌<◌, ◌≡◌, refl, sym, inl, inr, Bool-cases, ◌==◌, ==→≡, Option, none, List,
  arith,
}
use mls4rn.SortedIter.{SortedIter, next_item, next, collect, cons_item}
use mls4rn.SortedIter.Step.{
  Ascending, find, or_else, Step, finished, item, next_item-Step, find-below, Ascending-le,
}

module _ {ℓ} {A : Type ℓ} (cmp : A → ℕ) where
  nothing_below :
      (low k : ℕ) (xs ys : List A)
      → Ascending cmp low xs
      → Ascending cmp low ys
      → k < low
      → or_else cmp (find cmp k xs) (find cmp k ys) ≡ none
  nothing_below low k xs ys ax ay lt =
      rw (find-below cmp low k xs ax lt) (find-below cmp low k ys ay lt)

  rest-find_below :
      (low fuel size counter k : ℕ) (xs ys : List A) (out : List A × List A × Option A)
      → Step cmp low xs ys out
      → ((low' : ℕ)
          → low < low'
          → Ascending cmp low' out.0
          → Ascending cmp low' out.1
          → find cmp k
              (collect cmp fuel (record { a = out.0; b = out.1; size = size; counter = counter }))
            ≡ or_else cmp (find cmp k out.0) (find cmp k out.1))
      → find cmp k (
          cons_item cmp out.2
            (collect cmp fuel (record { a = out.0; b = out.1; size = size; counter = counter })))
        ≡ or_else cmp (find cmp k xs) (find cmp k ys)
  unfolding find
  rest-find_below low fuel size counter k xs ys out finished later = refl
  rest-find_below low fuel size counter k xs ys out (item i) later =
      let ih = later _ (omega (arith, i.from)) i.left i.right in
      let at_k = i.found k in rw ih (sym at_k)

  -- No key is passed over: where the keys from `counter` on are still to come, the merge finds every
  -- key below the size, though it stops when the counter meets the size.
  pub collect-find_below :
      (fuel k : ℕ) (it : SortedIter A)
      → Ascending cmp it.counter it.a
      → Ascending cmp it.counter it.b
      → k < it.size
      → it.size ≤ it.counter + fuel
      → find cmp k (collect cmp fuel it) ≡ or_else cmp (find cmp k it.a) (find cmp k it.b)
  unfolding collect next find
  collect-find_below zero k it ax ay lt enough =
      sym (nothing_below it.counter k it.a it.b ax ay (omega (arith, lt, enough)))
  collect-find_below (suc fuel) k it ax ay lt enough = elim (Bool-cases (it.counter == it.size)) [
    | inl h ↦ rw h (
        sym (
          nothing_below it.counter k it.a it.b ax ay
            (omega (arith, lt, ==→≡ it.counter it.size h))))
    | inr h ↦ rw h (
        rest-find_below it.counter fuel it.size (it.counter + 1) k it.a it.b
          (next_item cmp it.a it.b) (next_item-Step cmp it.counter it.a it.b ax ay)
          (λ low' above ax' ay'.
            collect-find_below fuel k _
              (Ascending-le cmp low' (it.counter + 1) _ (omega (arith, above)) ax')
              (Ascending-le cmp low' (it.counter + 1) _ (omega (arith, above)) ay') lt
              (omega (arith, enough))))
  ]
