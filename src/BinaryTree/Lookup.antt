-- ===== src/BinaryTree/Lookup.antt =====
-- What is read after each of the writes to vectors and diffs.
use mls4rn.Prelude.{
  ℕ, zero, suc, ◌+◌, ◌-◌, ◌^◌, ◌≤◌, ◌<◌, ◌≡◌, refl, ◌∙◌, ap, inl, inr, Bool, true, false,
  Bool-cases, ◌==◌, ==→≡, ==→≢, ≢→==, ltb, if◌then◌else◌, u32, Option, none, some, List, [], ◌∷◌,
  length, get_elem?, set, take, replicate, arith, length-set, take_all, get_elem?-set_self,
  get_elem?-set_ne, length-append, length-take, length-replicate,
}
use mls4rn.SortedIter.Step.{Ascending, no_more, one_more, find}
use mls4rn.BinaryTree.Map.{BTreeMap, key, get, get-below}
use mls4rn.BinaryTree.Tree.{Default, default, enumerate, resize_with}
use mls4rn.BinaryTree.Diff.{overwrite}

module _ {A : Type 0} where
  abbrev pub or_else : Option A → Option A → Option A
  or_else (some a) o = some a
  or_else none o = o

  get_elem?-set :
      (xs : List A) (i j : ℕ) (a : A)
      → i < length xs
      → get_elem? (set xs i a) j ≡ (if i == j then some a else get_elem? xs j)
  get_elem?-set xs i j a h = elim (Bool-cases (i == j)) [
    | inl same ↦ rw (same, ← ==→≡ i j same) (get_elem?-set_self xs i a h)
    | inr other ↦ rw other (get_elem?-set_ne xs i j a (==→≢ i j other))
  ]

  -- A map whose keys are in range, and are all different, is written to the vector whole.
  pub get_elem?-overwrite :
      (low : ℕ) (m : BTreeMap A) (xs : List A) (j : ℕ)
      → Ascending key low m
      → ((k : ℕ) → length xs ≤ k → get k m ≡ none)
      → get_elem? (overwrite m xs) j ≡ or_else (get j m) (get_elem? xs j)
  unfolding overwrite get
  get_elem?-overwrite low [] xs j asc bound = refl
  get_elem?-overwrite low ((i, a) ∷ m) xs j (one_more above asc) bound =
      get_elem?-overwrite (suc i) m (set xs i a) j asc later
      ∙ (rw (get_elem?-set xs i j a in_range) (here (i == j) refl))
    where
      in_range : i < length xs
      in_range = ground (arith, bound i)

      later : (k : ℕ) → length (set xs i a) ≤ k → get k m ≡ none
      later k h = ground (arith, length-set xs i a, bound k)

      here :
          (t : Bool)
          → (i == j) ≡ t
          → or_else (get j m) (if t then some a else get_elem? xs j)
            ≡ or_else (if t then some a else get j m) (get_elem? xs j)
      here true e = rw (get-below (suc i) j m asc (omega (arith, ==→≡ i j e))) refl
      here false e = refl

  pub length-overwrite : (m : BTreeMap A) (xs : List A) → length (overwrite m xs) ≡ length xs
  unfolding overwrite
  length-overwrite [] xs = refl
  length-overwrite ((i, a) ∷ m) xs = length-overwrite m (set xs i a) ∙ length-set xs i a

  pub length-resize_with : ⦃d : Default A⦄ (n : ℕ) (xs : List A) → length (resize_with n xs) ≡ n
  unfolding resize_with
  length-resize_with n xs = omega (
    arith,
    length-append (take n xs) (replicate (n - length xs) default),
    length-take n xs,
    length-replicate (n - length xs) default,
  )

  get_elem?-replicate_all :
      (n j : ℕ) (a : A) → get_elem? (replicate n a) j ≡ (if ltb j n then some a else none)
  get_elem?-replicate_all zero j a = ground arith
  get_elem?-replicate_all (suc n) zero a = ground arith
  get_elem?-replicate_all (suc n) (suc j) a = ground (arith, get_elem?-replicate_all n j a)

  pub get_elem?-resize_with :
      ⦃d : Default A⦄ (n j : ℕ) (xs : List A)
      → get_elem? (resize_with n xs) j
        ≡ (if ltb j n then or_else (get_elem? xs j) (some default) else none)
  unfolding resize_with
  get_elem?-resize_with n j [] =
      let all : n - 0 ≡ n = omega arith in
      (rw (take_all {A = A} n [] (omega arith), all) (get_elem?-replicate_all n j default))
  get_elem?-resize_with zero j (x ∷ xs) =
      let no_more : 0 - suc (length xs) ≡ 0 = omega arith in rw no_more (ground arith)
  get_elem?-resize_with (suc n) zero (x ∷ xs) = ground arith
  get_elem?-resize_with (suc n) (suc j) (x ∷ xs) =
      let same : suc n - suc (length xs) ≡ n - length xs = omega arith in
      rw same (ground (arith, get_elem?-resize_with n j xs))

  abbrev pub value_of : Option (ℕ × A) → Option A
  value_of none = none
  value_of (some e) = some e.1

  pub get-find : (k : ℕ) (m : BTreeMap A) → get k m ≡ value_of (find key k m)
  unfolding get find
  get-find k [] = refl
  get-find k ((j, a) ∷ m) = ground (arith, get-find k m)

  pub enumerate-Ascending :
      (i : ℕ) (xs : List A) → i + length xs ≤ 2 ^ 32 → Ascending key i (enumerate i xs)
  unfolding enumerate
  enumerate-Ascending i [] fits = no_more
  enumerate-Ascending i (x ∷ xs) fits =
      let e : u32 i ≡ i = omega arith in
      rw e (
        one_more (omega arith) (
          let next : suc i ≡ i + 1 = omega arith in
          rw next (enumerate-Ascending (i + 1) xs (omega arith))))

  pub get-enumerate :
      (i k : ℕ) (xs : List A)
      → i + length xs ≤ 2 ^ 32
      → get (i + k) (enumerate i xs) ≡ get_elem? xs k
  unfolding enumerate get
  get-enumerate i k [] fits = refl
  get-enumerate i zero (x ∷ xs) fits = ground arith
  get-enumerate i (suc k) (x ∷ xs) fits =
      let e : u32 i ≡ i = omega arith in
      let next : i + suc k ≡ (i + 1) + k = omega arith in
      rw (e, ≢→== i (i + suc k) (omega arith))
        (ap (λ (n : ℕ). get n (enumerate (i + 1) xs)) next
          ∙ get-enumerate (i + 1) k xs (omega arith))
