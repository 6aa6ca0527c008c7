-- ===== src/Prelude/Actions.antt =====
-- Methods on `&mut self` that return a `Result`: the state goes on from call to call, also past an
-- error.
use mls4rn.Prelude.Results.{Result, ok, err}

abbrev pub Action {ℓ κ μ} : Type ℓ → Type κ → Type μ → Type (ℓ ⊔ κ ⊔ μ)
Action S E A = S → S × Result E A

module _ {ℓ κ} {S : Type ℓ} {E : Type κ} where
  abbrev pub continue {μ ν} :
      {A : Type μ} {B : Type ν} → S × Result E A → (A → Action S E B) → S × Result E B
  continue (s, ok a) f = f a s
  continue (s, err e) f = (s, err e)

  infixl 5 ◌>>=◌
  abbrev pub ◌>>=◌ {μ ν} :
      {A : Type μ} {B : Type ν} → Action S E A → (A → Action S E B) → Action S E B
  (m >>= f) s = continue (m s) f

  abbrev pub return {μ} : {A : Type μ} → A → Action S E A
  return a s = (s, ok a)

  abbrev pub fail {μ} : {A : Type μ} → E → Action S E A
  fail e s = (s, err e)

  -- A result that does not depend on the state, and one that only reads it.
  abbrev pub lift {μ} : {A : Type μ} → Result E A → Action S E A
  lift r s = (s, r)

  abbrev pub read {μ} : {A : Type μ} → (S → Result E A) → Action S E A
  read f s = (s, f s)
