-- ===== src/BinaryTree/Map.antt =====
-- `BTreeMap` with number keys, as the list of its entries in the order of the keys.
use Prim.Native.Nat.{compare, Ordering}
use mls4rn.Prelude.{
  ℕ, suc, ◌≤◌, ◌<◌, ◌≡◌, refl, inl, inr, Bool, Bool-cases, ◌==◌, if◌then◌else◌, Option, none, some,
  List, [], ◌∷◌, arith,
}
use mls4rn.SortedIter.Step.{Ascending, no_more, one_more, order}

abbrev pub BTreeMap : Type 0 → Type 0
BTreeMap V = List (ℕ × V)

module _ {V : Type 0} where
  abbrev pub key : ℕ × V → ℕ
  key entry = entry.0

  unfoldable pub get : ℕ → BTreeMap V → Option V
  get k [] = none
  get k ((j, v) ∷ m) = if j == k then some v else get k m

  unfoldable pub insert : ℕ → V → BTreeMap V → BTreeMap V
  insert new value [] = (new, value) ∷ []
  insert new value ((j, w) ∷ m) = elim (compare new j) [
    | Ordering.lt ↦ (new, value) ∷ (j, w) ∷ m
    | Ordering.eq ↦ (new, value) ∷ m
    | Ordering.gt ↦ (j, w) ∷ insert new value m
  ]

  unfoldable pub retain : (ℕ → Bool) → BTreeMap V → BTreeMap V
  retain keep [] = []
  retain keep ((k, v) ∷ m) = let rest = retain keep m in if keep k then (k, v) ∷ rest else rest

  pub get-insert :
      (k j : ℕ) (v : V) (m : BTreeMap V)
      → get j (insert k v m) ≡ (if k == j then some v else get j m)
  unfolding get insert
  get-insert k j v [] = refl
  get-insert k j v ((i, w) ∷ m) = ground (arith, get-insert k j v m)

  pub get-retain :
      (keep : ℕ → Bool) (j : ℕ) (m : BTreeMap V)
      → get j (retain keep m) ≡ (if keep j then get j m else none)
  unfolding get retain
  get-retain keep j [] = ground arith
  get-retain keep j ((i, w) ∷ m) = ground (arith, get-retain keep j m)

  pub Ascending-le :
      (low low' : ℕ) (m : BTreeMap V) → low' ≤ low → Ascending key low m → Ascending key low' m
  Ascending-le low low' [] le no_more = no_more
  Ascending-le low low' (e ∷ m) le (one_more above asc) = one_more (omega (arith, le, above)) asc

  pub insert-Ascending :
      (low k : ℕ) (v : V) (m : BTreeMap V)
      → low ≤ k
      → Ascending key low m
      → Ascending key low (insert k v m)
  unfolding insert
  insert-Ascending low k v [] le no_more = one_more le no_more
  insert-Ascending low k v ((j, w) ∷ m) le (one_more above asc) = elim (order k j) [
    | inl (lt, e) ↦ rw (e, insert) (one_more le (one_more lt asc))
    | inr (inl (same, e)) ↦ rw (e, insert) (one_more le (rw same asc))
    | inr (inr (gt, e)) ↦ rw (e, insert) (one_more above (insert-Ascending (suc j) k v m gt asc))
  ]

  pub retain-Ascending :
      (low : ℕ) (keep : ℕ → Bool) (m : BTreeMap V)
      → Ascending key low m
      → Ascending key low (retain keep m)
  unfolding retain
  retain-Ascending low keep [] no_more = no_more
  retain-Ascending low keep ((j, w) ∷ m) (one_more above asc) = elim (Bool-cases (keep j)) [
    | inl kept ↦ rw kept (one_more above (retain-Ascending (suc j) keep m asc))
    | inr gone ↦
        rw gone
          (retain-Ascending low keep m (Ascending-le (suc j) low m (omega (arith, above)) asc))
  ]

  pub get-below : (low k : ℕ) (m : BTreeMap V) → Ascending key low m → k < low → get k m ≡ none
  unfolding get
  get-below low k [] no_more lt = refl
  get-below low k ((j, w) ∷ m) (one_more above asc) lt = ground (arith, get-below (suc j) k m asc)
