-- ===== src/Prelude/Drops.antt =====
-- `drop`, `take` and `reverse` across `++`, and the latest entries of a list.
use Prim.Native.Nat.{ℕ, zero, suc, ◌+◌, ◌-◌, ◌≤◌}
use mathlib.Core.Path.{◌≡◌, refl, sym, ◌∙◌, ap}
use mathlib.Core.List.{List, [], ◌∷◌, ◌++◌}
use native.Mathlib.Omega.{arith}
use mls4rn.Prelude.Lists.{length, take, drop, length-append, length-drop, drop_all}

module _ {ℓ} {A : Type ℓ} where
  -- The last `n` entries.
  unfoldable pub latest : ℕ → List A → List A
  latest n xs = drop (length xs - n) xs

  pub take-append : (xs ys : List A) → take (length xs) (xs ++ ys) ≡ xs
  take-append [] ys = refl
  take-append (x ∷ xs) ys = ap (◌∷◌ x) (take-append xs ys)

  pub drop-append : (n : ℕ) (xs ys : List A) → n ≤ length xs → drop n (xs ++ ys) ≡ drop n xs ++ ys
  drop-append zero xs ys h = refl
  drop-append (suc n) [] ys h = absurd (omega arith)
  drop-append (suc n) (x ∷ xs) ys h = drop-append n xs ys (omega arith)

  pub drop-drop : (n m : ℕ) (xs : List A) → drop n (drop m xs) ≡ drop (m + n) xs
  drop-drop n zero xs = let e : n ≡ 0 + n = omega arith in ap (λ k. drop k xs) e
  drop-drop n (suc m) [] = drop_all n [] (omega arith) ∙ sym (drop_all (suc m + n) [] (omega arith))
  drop-drop n (suc m) (x ∷ xs) =
      let e : suc (m + n) ≡ suc m + n = omega arith in
      drop-drop n m xs ∙ ap (λ k. drop k (x ∷ xs)) e

  -- What is dropped early is not among the latest.
  pub latest-append : (n : ℕ) (xs ys : List A) → latest n (latest n xs ++ ys) ≡ latest n (xs ++ ys)
  unfolding latest
  latest-append n xs ys =
      let d = length xs - n in
      let joined : drop d xs ++ ys ≡ drop d (xs ++ ys) = sym (drop-append d xs ys (omega arith)) in
      rw joined (
        drop-drop (length (drop d (xs ++ ys)) - n) d (xs ++ ys)
        ∙ ap (λ k. drop k (xs ++ ys))
            (omega (arith, length-drop d (xs ++ ys), length-append xs ys)))

  pub latest_all : (n : ℕ) (xs : List A) → length xs ≤ n → latest n xs ≡ xs
  unfolding latest
  latest_all n xs h = let e : length xs - n ≡ 0 = omega arith in ap (λ k. drop k xs) e

  pub length-latest : (n : ℕ) (xs : List A) → length (latest n xs) ≤ n
  unfolding latest
  length-latest n xs = omega (arith, length-drop (length xs - n) xs)

  -- Rotating a list by `d` and cutting it to the rest drops the first `d`.
  pub take-rotated :
      (d n : ℕ) (xs : List A) → n + d ≡ length xs → take n (drop d xs ++ take d xs) ≡ drop d xs
  take-rotated d n xs h =
      let size : n ≡ length (drop d xs) = omega (arith, length-drop d xs, h) in
      rw size (take-append (drop d xs) (take d xs))
