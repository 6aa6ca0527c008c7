-- ===== src/Prelude/Equality.antt =====
-- Types with `Eq`, and hash maps over them: the entries in the order in which the keys came.
use mathlib.Core.Path.{◌≡◌, refl, sym, ◌∙◌}
use mathlib.Core.Logic.{◌↔◌, ◌≢◌, inl, inr}
use mathlib.Core.Bool.{Bool, true, false, ◌||◌}
use mathlib.Core.List.{List, [], ◌∷◌, ◌++◌}
use mathlib.Core.Option.{Option, none, some}
use native.Mathlib.Omega.{arith}
use Prim.Native.Nat.{ℕ}
use mls4rn.Prelude.Tests.{if◌then◌else◌, Bool-cases, ◌==◌ as nat_eq}

pub record Eq (A : Type 0) : Type 0 where
  pub eq : A → A → Bool
  pub eq_iff : (a b : A) → (eq a b ≡ true) ↔ (a ≡ b)

infix 50 ◌==◌
abbrev pub ◌==◌ : {A : Type 0} ⦃e : Eq A⦄ → A → A → Bool
◌==◌ ⦃e⦄ = e.eq

pub nat_eq_iff : (a b : ℕ) → ((nat_eq a b) ≡ true) ↔ (a ≡ b)
nat_eq_iff a b = (λ h. ground arith, λ h. ground arith)

instance abbrev pub nat_Eq : Eq ℕ
nat_Eq = record { eq = nat_eq; eq_iff = nat_eq_iff }

module _ {A : Type 0} ⦃e : Eq A⦄ where
  pub eq_refl : (a : A) → (a == a) ≡ true
  eq_refl a = (e.eq_iff a a).1 refl

  pub eq_true : (a b : A) → (a == b) ≡ true → a ≡ b
  eq_true a b h = (e.eq_iff a b).0 h

  pub eq_false : (a b : A) → (a == b) ≡ false → a ≢ b
  eq_false a b h same = false_true (sym h ∙ (e.eq_iff a b).1 same)
    where
      false_true : false ≡ true → ⊥
      false_true x = cc

  pub eq_sym_false : (a b : A) → (a == b) ≡ false → (b == a) ≡ false
  eq_sym_false a b h = elim (Bool-cases (b == a)) [
    | inl same ↦ absurd (eq_false a b h (sym (eq_true b a same)))
    | inr other ↦ other
  ]

  abbrev pub contains : List A → A → Bool
  contains [] a = false
  contains (x ∷ xs) a = x == a || contains xs a

module _ {A : Type 0} ⦃e : Eq A⦄ where
  -- Nothing twice.
  abbrev pub Distinct : List A → Type 0
  Distinct [] = Unit
  Distinct (x ∷ xs) = (contains xs x ≡ false) × Distinct xs

  pub contains-append :
      (xs : List A) (y a : A) → contains (xs ++ y ∷ []) a ≡ (contains xs a || y == a)
  contains-append [] y a = right_false (y == a)
    where
      right_false : (t : Bool) → (t || false) ≡ t
      right_false true = refl
      right_false false = refl
  contains-append (x ∷ xs) y a = elim (Bool-cases (x == a)) [
    | inl same ↦ rw same refl
    | inr other ↦ rw other (contains-append xs y a)
  ]

  pub Distinct-append :
      (xs : List A) (y : A) → contains xs y ≡ false → Distinct xs → Distinct (xs ++ y ∷ [])
  Distinct-append [] y new d = (refl, tt)
  Distinct-append (x ∷ xs) y new d = elim (Bool-cases (x == y)) [
    | inl same ↦ let both : true ≡ false = (rw same at new) in absurd (true_false both)
    | inr apart ↦ (
      contains-append xs y x ∙ (rw (d.0, eq_sym_false x y apart) refl),
      Distinct-append xs y (rw apart at new) d.1,
    )
  ]
    where
      true_false : true ≡ false → ⊥
      true_false h = cc

abbrev pub HashMap : Type 0 → Type 0 → Type 0
HashMap K V = List (K × V)

module _ {K V : Type 0} ⦃e : Eq K⦄ where
  unfoldable pub lookup : K → HashMap K V → Option V
  lookup wanted [] = none
  lookup wanted ((key, value) ∷ rest) = if key == wanted then some value else lookup wanted rest

  -- `insert`: a key that is there keeps its place.
  unfoldable pub insert : K → V → HashMap K V → HashMap K V
  insert new value [] = (new, value) ∷ []
  insert new value ((key, old) ∷ rest) =
      if key == new then (key, value) ∷ rest else (key, old) ∷ insert new value rest

  module _ (new wanted : K) (value : V) where
    shadow :
        (t : Bool) (old : V) (o : Option V)
        → (if t then some value else o) ≡ (if t then some value else if t then some old else o)
    shadow true old o = refl
    shadow false old o = refl

    apart :
        (key : K) (s t : Bool) (old : V) (o : Option V)
        → (key == new) ≡ false
        → (key == wanted) ≡ s
        → (new == wanted) ≡ t
        → (if s then some old else if t then some value else o)
          ≡ (if t then some value else if s then some old else o)
    apart key true true old o r p q =
        absurd (eq_false key new r (eq_true key wanted p ∙ sym (eq_true new wanted q)))
    apart key true false old o r p q = refl
    apart key false true old o r p q = refl
    apart key false false old o r p q = refl

    -- What a map has under a key after an insertion.
    after_insert :
        (entries : HashMap K V)
        → lookup wanted (insert new value entries)
          ≡ (if new == wanted then some value else lookup wanted entries)
    unfolding lookup insert
    after_insert [] = refl
    after_insert ((key, old) ∷ rest) = elim (Bool-cases (key == new)) [
      | inl same ↦
          let key=new = eq_true key new same in
          rw (same, key=new) (shadow (new == wanted) old (lookup wanted rest))
      | inr other ↦
          rw (other, after_insert rest)
            (apart key (key == wanted) (new == wanted) old (lookup wanted rest) other refl refl)
    ]

  pub lookup-insert :
      (new wanted : K) (value : V) (entries : HashMap K V)
      → lookup wanted (insert new value entries)
        ≡ (if new == wanted then some value else lookup wanted entries)
  lookup-insert new wanted value entries = after_insert new wanted value entries
