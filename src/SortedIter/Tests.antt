-- ===== src/SortedIter/Tests.antt =====
-- Runs of the merge.
use mls4rn.Prelude.{ℕ, ◌≡◌, refl, List, [], ◌∷◌, arith}
use mls4rn.SortedIter.{sorted_iter, collect, next, next_item}
use mls4rn.SortedIter.Step.{Ascending, no_more, one_more, find, or_else}
use mls4rn.SortedIter.Merge.{collect-Ascending, collect-find}

abbrev key : ℕ × ℕ → ℕ
key item = item.0

abbrev old_items : List (ℕ × ℕ)
old_items = (1, 10) ∷ (3, 30) ∷ []

abbrev new_items : List (ℕ × ℕ)
new_items = (1, 11) ∷ (2, 21) ∷ []

merged : collect key 5 (sorted_iter new_items old_items 4) ≡ (1, 11) ∷ (2, 21) ∷ (3, 30) ∷ []
unfolding collect next next_item
merged = refl

old-Ascending : Ascending key 0 old_items
old-Ascending = one_more (omega arith) (one_more (omega arith) no_more)

new-Ascending : Ascending key 0 new_items
new-Ascending = one_more (omega arith) (one_more (omega arith) no_more)

collect-Ascending_example : Ascending key 0 (collect key 2 (sorted_iter new_items old_items 4))
collect-Ascending_example =
    collect-Ascending key 2 0 (sorted_iter new_items old_items 4) new-Ascending old-Ascending

collect-find_example :
    find key 2 (collect key 5 (sorted_iter new_items old_items 4))
    ≡ or_else key (find key 2 new_items) (find key 2 old_items)
collect-find_example =
    collect-find key 5 0 2 (sorted_iter new_items old_items 4) new-Ascending old-Ascending
      (omega arith) (omega arith)
