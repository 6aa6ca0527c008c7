-- ===== src/PastSecrets/Cuts.antt =====
-- Cutting a list behind the last entry that a test finds.
use mls4rn.Prelude.{
  ℕ, zero, suc, ◌+◌, ◌≤◌, ◌<◌, ◌≡◌, refl, sym, ◌∙◌, ap, inl, inr, ◌⊎◌, Bool, true, false,
  Bool-cases, Option-cases, List, [], ◌∷◌, ◌++◌, reverse, length, drop, get_elem?, arith,
  length-reverse, drop_all, length-append, some, none, Option,
}
use mathlib.Core.List.{reverse-cons, reverse-reverse}
use mls4rn.Prelude.Drops.{drop-append}
use mls4rn.PastSecrets.{any, find_last, drain_found}

-- `kept` is `all` without its first entries: no entry with `f` is left, and no more was cut than up to
-- the last entry with `f`, unless all may go.
pub record Cut {ℓ} {A : Type ℓ} (may_go : Bool) (f : A → Bool) (all kept : List A) : Type ℓ where
  pub count : ℕ
  pub suffix : kept ≡ drop count all
  pub clean : any f kept ≡ false
  pub least :
      (count ≡ 0)
      ⊎ ((may_go ≡ true)
          ⊎ ((m : ℕ) × (x : A) × (count ≡ suc m) × (get_elem? all m ≡ some x) × (f x ≡ true)))

module _ {ℓ} {A : Type ℓ} (f : A → Bool) where
  any-append : (xs ys : List A) → any f xs ≡ false → any f ys ≡ false → any f (xs ++ ys) ≡ false
  any-append [] ys hx hy = hy
  any-append (x ∷ xs) ys hx hy = elim (Bool-cases (f x)) [
    | inl h ↦ let bad : true ≡ false = rw h at hx in cc
    | inr h ↦ rw h (any-append xs ys (rw h at hx) hy)
  ]

  get_elem?-front :
      (xs : List A) (ys : List A) (i : ℕ) {a : A}
      → get_elem? xs i ≡ some a
      → get_elem? (xs ++ ys) i ≡ some a
  get_elem?-front [] ys i e = cc
  get_elem?-front (x ∷ xs) ys zero e = e
  get_elem?-front (x ∷ xs) ys (suc i) e = get_elem?-front xs ys i e

  get_elem?-last : (xs : List A) (y : A) → get_elem? (xs ++ y ∷ []) (length xs) ≡ some y
  get_elem?-last [] y = refl
  get_elem?-last (x ∷ xs) y = get_elem?-last xs y

  find_last-found :
      (ys : List A) (i : ℕ)
      → find_last f ys ≡ some i
      → (x : A) × (i < length ys) × (get_elem? (reverse ys) i ≡ some x) × (f x ≡ true)
  find_last-found [] i e = cc
  find_last-found (y ∷ ys) i e = elim (Bool-cases (f y)) [
    | inl h ↦
        let here : some (length ys) ≡ some i = rw h at e in
        let at_end : length ys ≡ i = cc in
        let place : get_elem? (reverse ys ++ y ∷ []) (length ys) ≡ some y =
          ap (get_elem? (reverse ys ++ y ∷ [])) (sym (length-reverse ys))
          ∙ get_elem?-last (reverse ys) y in
        (y, omega (arith, at_end), rw (reverse-cons y ys, ← at_end) place, h)
    | inr h ↦
        let (x, lt, m, fx) = find_last-found ys i (rw h at e) in
        (
          x,
          omega (arith, lt),
          rw (reverse-cons y ys) (get_elem?-front (reverse ys) (y ∷ []) i m),
          fx,
        )
  ]

  abbrev cut_of : Option ℕ → ℕ
  cut_of none = 0
  cut_of (some i) = suc i

  cut_of-bound : (ys : List A) → cut_of (find_last f ys) ≤ length ys
  cut_of-bound ys = elim (Option-cases (find_last f ys)) [
    | inl h ↦ rw h (omega arith)
    | inr (i, h) ↦ let (x, lt, _, _) = find_last-found ys i h in rw h (omega (arith, lt))
  ]

  clean_after : (ys : List A) → any f (drop (cut_of (find_last f ys)) (reverse ys)) ≡ false
  clean_after [] = refl
  clean_after (y ∷ ys) = elim (Bool-cases (f y)) [
    | inl h ↦
        rw
          (
            h,
            reverse-cons y ys,
            drop_all (suc (length ys)) (reverse ys ++ y ∷ [])
                (omega (arith, length-append (reverse ys) (y ∷ []), length-reverse ys)),
          )
          refl
    | inr h ↦
        let k = cut_of (find_last f ys) in
        let inside : k ≤ length (reverse ys) = omega (arith, cut_of-bound ys, length-reverse ys) in
        rw (h, reverse-cons y ys, drop-append k (reverse ys) (y ∷ []) inside)
          (any-append (drop k (reverse ys)) (y ∷ []) (clean_after ys) (rw h refl))
  ]

  pub drain_found-Cut :
      (b : Bool) (xs : List A) → Cut b f xs (drain_found (find_last f (reverse xs)) xs)
  drain_found-Cut b xs = elim (Option-cases (find_last f (reverse xs))) [
    | inl h ↦ rw h (record {
      count = 0;
      suffix = refl;
      clean = ap (any f) (sym (reverse-reverse xs)) ∙ (rw h at (clean_after (reverse xs)));
      least = inl refl;
    })
    | inr (i, h) ↦
        let (x, lt, m, fx) = find_last-found (reverse xs) i h in
        let next : i + 1 ≡ suc i = omega arith in
        rw (h, next)
          (record {
            count = suc i;
            suffix = refl;
            clean =
                ap (λ zs. any f (drop (suc i) zs)) (sym (reverse-reverse xs))
                ∙ (rw h at (clean_after (reverse xs)));
            least =
                inr
                  (inr (i, x, refl, ap (λ zs. get_elem? zs i) (sym (reverse-reverse xs)) ∙ m, fx));
          })
  ]

  pub clear-Cut : (b : Bool) (xs : List A) → b ≡ true → Cut b f xs []
  clear-Cut b xs e = record {
    count = length xs;
    suffix = sym (drop_all (length xs) xs (omega arith));
    clean = refl;
    least = inr (inl e);
  }
