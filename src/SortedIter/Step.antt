-- ===== src/SortedIter/Step.antt =====
-- One step of the merge of two ascending lists.
use Prim.Native.Nat.{compare, Ordering}
use mls4rn.Prelude.{
  ℕ, suc, ◌+◌, ◌≤◌, ◌<◌, ◌≡◌, refl, ◌⊎◌, ◌∙◌, ap, inl, inr, Bool, true, false, Bool-cases, ◌==◌,
  ==→≡, ≢→==, if◌then◌else◌, Option, none, some, List, [], ◌∷◌, length, arith,
}
use mls4rn.SortedIter.{next_item}

-- The three outcomes of a comparison.
pub order :
    (m n : ℕ)
    → ((m < n) × (compare m n ≡ Ordering.lt))
      ⊎ (((m ≡ n) × (compare m n ≡ Ordering.eq)) ⊎ ((n < m) × (compare m n ≡ Ordering.gt)))
order m n = ground arith

module _ {ℓ} {A : Type ℓ} (cmp : A → ℕ) where
  -- Keys that grow along the list, all from `low` on.
  pub data Ascending : ℕ → List A → Type ℓ where
    no_more : {low : ℕ} → Ascending low []
    one_more :
        {low : ℕ} {x : A} {xs : List A}
        → low ≤ cmp x
        → Ascending (suc (cmp x)) xs
        → Ascending low (x ∷ xs)

  pub Ascending-le :
      (low low' : ℕ) (xs : List A) → low' ≤ low → Ascending low xs → Ascending low' xs
  Ascending-le low low' [] le no_more = no_more
  Ascending-le low low' (x ∷ xs) le (one_more lx asc) = one_more (omega (arith, le, lx)) asc

  Ascending-above :
      (low low' : ℕ) (x : A) (xs : List A)
      → low' ≤ cmp x
      → Ascending low (x ∷ xs)
      → Ascending low' (x ∷ xs)
  Ascending-above low low' x xs le (one_more lx asc) = one_more le asc

  -- The first item with a key.
  unfoldable pub find : ℕ → List A → Option A
  find k [] = none
  find k (x ∷ xs) = if cmp x == k then some x else find k xs

  abbrev pub or_else : Option A → Option A → Option A
  or_else (some x) o = some x
  or_else none o = o

  pub find-below : (low k : ℕ) (xs : List A) → Ascending low xs → k < low → find k xs ≡ none
  unfolding find
  find-below low k [] asc lt = refl
  find-below low k (x ∷ xs) (one_more lx asc) lt =
      rw (≢→== (cmp x) k (λ e. omega (arith, e, lx, lt)))
        (find-below (suc (cmp x)) k xs asc (omega (arith, lx, lt)))

  -- The next item `x` of the merge of `xs` and `ys` from `low` on, and what is left.
  pub record Item (low : ℕ) (xs ys : List A) (x : A) (xs' ys' : List A) : Type ℓ where
    pub from : low ≤ cmp x
    pub left : Ascending (suc (cmp x)) xs'
    pub right : Ascending (suc (cmp x)) ys'
    pub fewer : length xs' + length ys' < length xs + length ys
    pub found :
        (k : ℕ)
        → or_else (find k xs) (find k ys)
          ≡ (if cmp x == k then some x else or_else (find k xs') (find k ys'))

  pub data Step (low : ℕ) : List A → List A → List A × List A × Option A → Type ℓ where
    finished : Step low [] [] ([], [], none)
    item :
        {xs ys xs' ys' : List A} {x : A}
        → Item low xs ys x xs' ys'
        → Step low xs ys (xs', ys', some x)

  or_else-if :
      (t : Bool) (x : A) (o o' : Option A)
      → or_else (if t then some x else o) o' ≡ (if t then some x else or_else o o')
  or_else-if true x o o' = refl
  or_else-if false x o o' = refl

  or_else-none : (o : Option A) → or_else o none ≡ o
  or_else-none (some x) = refl
  or_else-none none = refl

  only_left :
      (low : ℕ) (x : A) (xs : List A) → Ascending low (x ∷ xs) → Item low (x ∷ xs) [] x xs []
  unfolding find
  only_left low x xs (one_more lx asc) = record {
    from = lx;
    left = asc;
    right = no_more;
    fewer = omega arith;
    found = λ k. or_else-if (cmp x == k) x (find k xs) none;
  }

  only_right :
      (low : ℕ) (y : A) (ys : List A) → Ascending low (y ∷ ys) → Item low [] (y ∷ ys) y [] ys
  unfolding find
  only_right low y ys (one_more ly asc) = record {
    from = ly;
    left = no_more;
    right = asc;
    fewer = omega arith;
    found = λ k. refl;
  }

  take_left :
      (low : ℕ) (x y : A) (xs ys : List A)
      → Ascending low (x ∷ xs)
      → Ascending low (y ∷ ys)
      → cmp x < cmp y
      → Item low (x ∷ xs) (y ∷ ys) x xs (y ∷ ys)
  unfolding find
  take_left low x y xs ys (one_more lx asc) ay lt = record {
    from = lx;
    left = asc;
    right = Ascending-above low (suc (cmp x)) y ys lt ay;
    fewer = omega arith;
    found = λ k. or_else-if (cmp x == k) x (find k xs) (find k (y ∷ ys));
  }

  take_both :
      (low : ℕ) (x y : A) (xs ys : List A)
      → Ascending low (x ∷ xs)
      → Ascending low (y ∷ ys)
      → cmp x ≡ cmp y
      → Item low (x ∷ xs) (y ∷ ys) x xs ys
  unfolding find
  take_both low x y xs ys (one_more lx asc) (one_more ly asc') e = record {
    from = lx;
    left = asc;
    right = rw e asc';
    fewer = omega arith;
    found = λ k. or_else-if (cmp x == k) x (find k xs) (find k (y ∷ ys)) ∙ same k (cmp x == k) refl;
  }
    where
      same :
          (k : ℕ) (t : Bool)
          → (cmp x == k) ≡ t
          → (if t then some x else or_else (find k xs) (find k (y ∷ ys)))
            ≡ (if t then some x else or_else (find k xs) (find k ys))
      same k true h = refl
      same k false h = rw (← e, h) refl

  take_right :
      (low : ℕ) (x y : A) (xs ys : List A)
      → Ascending low (x ∷ xs)
      → Ascending low (y ∷ ys)
      → cmp y < cmp x
      → Item low (x ∷ xs) (y ∷ ys) y (x ∷ xs) ys
  unfolding find
  take_right low x y xs ys ax (one_more ly asc) lt = record {
    from = ly;
    left = above;
    right = asc;
    fewer = omega arith;
    found = λ k. elim (Bool-cases (cmp y == k)) [
      | inl h ↦
          let none_left : find k (x ∷ xs) ≡ none =
            find-below (suc (cmp y)) k (x ∷ xs) above (omega (arith, ==→≡ (cmp y) k h)) in
          ap (λ o. or_else o (find k (y ∷ ys))) none_left ∙ (rw h refl)
      | inr h ↦ rw h refl
    ];
  }
    where
      above : Ascending (suc (cmp y)) (x ∷ xs)
      above = Ascending-above low (suc (cmp y)) x xs lt ax

  pub next_item-Step :
      (low : ℕ) (xs ys : List A)
      → Ascending low xs
      → Ascending low ys
      → Step low xs ys (next_item cmp xs ys)
  unfolding next_item
  next_item-Step low [] [] ax ay = finished
  next_item-Step low (x ∷ xs) [] ax ay = item (only_left low x xs ax)
  next_item-Step low [] (y ∷ ys) ax ay = item (only_right low y ys ay)
  next_item-Step low (x ∷ xs) (y ∷ ys) ax ay = elim (order (cmp x) (cmp y)) [
    | inl (lt, e) ↦ rw (e, next_item) (item (take_left low x y xs ys ax ay lt))
    | inr (inl (same, e)) ↦ rw (e, next_item) (item (take_both low x y xs ys ax ay same))
    | inr (inr (gt, e)) ↦ rw (e, next_item) (item (take_right low x y xs ys ax ay gt))
  ]
