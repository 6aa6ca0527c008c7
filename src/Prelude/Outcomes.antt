-- ===== src/Prelude/Outcomes.antt =====
-- What an action keeps of the state and what it tells of its result.
use mathlib.Core.Path.{◌≡◌, refl}
use mls4rn.Prelude.Results.{Result, ok, err}
use mls4rn.Prelude.Actions.{Action, ◌>>=◌, continue, return, fail, lift, read}

module _ {ℓ κ μ} {S : Type ℓ} {E : Type κ} (Keeps : S → Type μ) where
  pub record Outcome {ν ξ} {A : Type ν} (Gives : A → Type ξ) (out : S × Result E A)
      : Type (κ ⊔ μ ⊔ ν ⊔ ξ) where
    pub keeps : Keeps out.0
    pub gives : (a : A) → out.1 ≡ ok a → Gives a

  abbrev pub Does {ν ξ} : {A : Type ν} → (A → Type ξ) → Action S E A → Type (ℓ ⊔ κ ⊔ μ ⊔ ν ⊔ ξ)
  Does Gives m = (s : S) → Keeps s → Outcome Gives (m s)

  continue-Outcome {ν ξ ν' ξ'} :
      {A : Type ν} {B : Type ν'} {Gives : A → Type ξ} {Then : B → Type ξ'} (out : S × Result E A)
      (f : A → Action S E B)
      → Outcome Gives out
      → ((a : A) → Gives a → Does Then (f a))
      → Outcome Then (continue out f)
  continue-Outcome (s, ok a) f o next = next a (o.gives a refl) s o.keeps
  continue-Outcome (s, err e) f o next = record { keeps = o.keeps; gives = λ b x. cc }

  pub bind-Does {ν ξ ν' ξ'} :
      {A : Type ν} {B : Type ν'} (Gives : A → Type ξ) {Then : B → Type ξ'} (m : Action S E A)
      (f : A → Action S E B)
      → Does Gives m
      → ((a : A) → Gives a → Does Then (f a))
      → Does Then (m >>= f)
  bind-Does Gives m f does next s k = continue-Outcome (m s) f (does s k) next

  pub lift-Does {ν ξ} :
      {A : Type ν} (Gives : A → Type ξ) (r : Result E A)
      → ((a : A) → r ≡ ok a → Gives a)
      → Does Gives (lift r)
  lift-Does Gives r told s k = record { keeps = k; gives = told }

  pub read-Does {ν ξ} :
      {A : Type ν} (Gives : A → Type ξ) (f : S → Result E A)
      → ((s : S) (a : A) → Keeps s → f s ≡ ok a → Gives a)
      → Does Gives (read f)
  read-Does Gives f told s k = record { keeps = k; gives = λ a e. told s a k e }

  pub return-Does {ν ξ} :
      {A : Type ν} (Gives : A → Type ξ) (a : A) → Gives a → Does Gives (return a)
  return-Does Gives a told s k = record {
    keeps = k;
    gives = λ b e. let same : a ≡ b = cc in rw same at told;
  }

  pub fail-Does {ν ξ} : {A : Type ν} (Gives : A → Type ξ) (e : E) → Does Gives (fail e)
  fail-Does Gives e s k = record { keeps = k; gives = λ b x. cc }
