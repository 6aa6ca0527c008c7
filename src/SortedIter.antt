-- ===== src/SortedIter.antt =====
-- openmls/openmls/src/binary_tree/array_representation/sorted_iter.rs: the merge of two sorted
-- iterators. The key of an item is a number, as the node indices of the callers are.
pub mod Step
pub mod Merge
pub mod Prefix
mod Tests
use Prim.Native.Nat.{compare, Ordering}
use mls4rn.Prelude.{ℕ, zero, suc, ◌+◌, ◌==◌, if◌then◌else◌, Option, none, some, List, [], ◌∷◌}

pub record SortedIter {ℓ} (A : Type ℓ) : Type ℓ where
  pub a : List A
  pub b : List A
  pub size : ℕ
  pub counter : ℕ

abbrev pub sorted_iter {ℓ} : {A : Type ℓ} → List A → List A → ℕ → SortedIter A
sorted_iter a b size = record { a = a; b = b; size = size; counter = 0 }

module _ {ℓ} {A : Type ℓ} (cmp : A → ℕ) where
  -- The `match` on what the two iterators have next: what is left of them, and the item.
  unfoldable pub next_item : List A → List A → List A × List A × Option A
  next_item [] [] = ([], [], none)
  next_item (x ∷ xs) [] = (xs, [], some x)
  next_item [] (y ∷ ys) = ([], ys, some y)
  next_item (x ∷ xs) (y ∷ ys) = elim (compare (cmp x) (cmp y)) [
    | Ordering.lt ↦ (xs, y ∷ ys, some x)
    | Ordering.eq ↦ (xs, ys, some x)
    | Ordering.gt ↦ (x ∷ xs, ys, some y)
  ]

  unfoldable pub next : SortedIter A → SortedIter A × Option A
  next it =
      let (xs, ys, item) = next_item it.a it.b in
      if it.counter == it.size
      then (it, none)
      else (record it { a = xs; b = ys; counter = it.counter + 1 }, item)

  abbrev pub cons_item : Option A → List A → List A
  cons_item none rest = []
  cons_item (some x) rest = x ∷ rest

  -- `collect`: the items up to the first `None`, for at most `fuel` calls of `next`.
  unfoldable pub collect : ℕ → SortedIter A → List A
  collect zero it = []
  collect (suc fuel) it = let rest = collect fuel (next it).0 in cons_item (next it).1 rest
