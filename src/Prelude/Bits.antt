-- ===== src/Prelude/Bits.antt =====
-- The bit operations at variables: one equation for the lowest digit, and fields as sums.
use Prim.Native.Nat.{ℕ, zero, suc, ◌+◌, ◌-◌, ◌*◌, ◌/◌, ◌%◌, ◌^◌, ◌≤◌, ◌<◌, max}
use Prim.Native.Nat.{bit_and, bit_or, bit_xor, digits, bitwise, differ}
use Prim.Native.Nat.{bit_or-bitwise, bit_xor-bitwise, bit_and-bitwise, min}
use mathlib.Core.Path.{◌≡◌, refl, ap, ap₂, ◌∙◌}
use mls4rn.Prelude.Powers.{two_pow_suc, mul-two_pow_suc}
use native.Mathlib.Omega.{arith}

module _ (rest : ℕ → ℕ) (op : ℕ → ℕ → ℕ) where
  -- Fuel beyond the first operand changes nothing.
  more_fuel : (k n x y : ℕ) → x ≤ n → digits rest op (n + k) x y ≡ digits rest op n x y
  more_fuel zero n x y enough =
      let same : n + zero ≡ n = omega arith in ap (λ m. digits rest op m x y) same
  more_fuel (suc k) zero zero y enough =
      let some_fuel : zero + suc k ≡ suc k = omega arith in rw some_fuel refl
  more_fuel (suc k) zero (suc x) y enough = absurd (omega arith)
  more_fuel (suc k) (suc n) zero y enough =
      let some_fuel : suc n + suc k ≡ suc (n + suc k) = omega arith in rw some_fuel refl
  more_fuel (suc k) (suc n) (suc x) y enough =
      let some_fuel : suc n + suc k ≡ suc (n + suc k) = omega arith in
      rw some_fuel (
        ap (λ q. q * 2 + op (suc x % 2) (y % 2))
          (more_fuel (suc k) n (suc x / 2) (y / 2) (omega arith)))

  lowest_digit :
      (x y : ℕ)
      → bitwise rest op (suc x) y ≡ bitwise rest op (suc x / 2) (y / 2) * 2 + op (suc x % 2) (y % 2)
  lowest_digit x y =
      let half = suc x / 2 in
      let split : x ≡ half + (x - half) = omega arith in
      ap (λ q. q * 2 + op (suc x % 2) (y % 2))
        (ap (λ m. digits rest op m half (y / 2)) split
          ∙ more_fuel (x - half) half half (y / 2) (omega arith))

pub bit_xor_step : (a b : ℕ) → bit_xor a b ≡ bit_xor (a / 2) (b / 2) * 2 + differ (a % 2) (b % 2)
bit_xor_step zero b = simp bit_xor-bitwise (omega arith)
bit_xor_step (suc a) b = simp bit_xor-bitwise (lowest_digit (λ y. y) differ a b)

pub bit_or_step : (x y : ℕ) → bit_or x y ≡ bit_or (x / 2) (y / 2) * 2 + max (x % 2) (y % 2)
bit_or_step zero y = simp bit_or-bitwise (omega arith)
bit_or_step (suc x) y = simp bit_or-bitwise (lowest_digit (λ q. q) max x y)

pub bit_and_step : (x y : ℕ) → bit_and x y ≡ bit_and (x / 2) (y / 2) * 2 + min (x % 2) (y % 2)
bit_and_step zero y = simp bit_and-bitwise (omega arith)
bit_and_step (suc x) y = simp bit_and-bitwise (lowest_digit (λ q. 0) min x y)

-- A field above a word's lowest `k` digits: the lower digits pass through.
module _ (f : ℕ → ℕ → ℕ) (d : ℕ → ℕ → ℕ) (d-zero : (x : ℕ) → d x 0 ≡ x)
    (f_step : (a b : ℕ) → f a b ≡ f (a / 2) (b / 2) * 2 + d (a % 2) (b % 2)) where
  bitwise_field : (k q r m : ℕ) → r < 2 ^ k → f (q * 2 ^ k + r) (m * 2 ^ k) ≡ f q m * 2 ^ k + r
  bitwise_field zero q r m h =
      let e : r ≡ 0 = omega arith in
      let a : q * 2 ^ zero + r ≡ q = omega arith in
      let b : m * 2 ^ zero ≡ m = omega arith in rw (a, b) (omega arith)
  bitwise_field (suc k) q r m h =
      let hq = mul-two_pow_suc q k in
      let hm = mul-two_pow_suc m k in
      let a : (q * 2 ^ suc k + r) / 2 ≡ q * 2 ^ k + r / 2 = omega arith in
      let b : (m * 2 ^ suc k) / 2 ≡ m * 2 ^ k = omega arith in
      let c : (q * 2 ^ suc k + r) % 2 ≡ r % 2 = omega arith in
      let e : (m * 2 ^ suc k) % 2 ≡ 0 = omega arith in
      rw (f_step, a, b, c, e, d-zero, bitwise_field k q (r / 2) m (omega (arith, two_pow_suc k)))
        (omega (arith, mul-two_pow_suc (f q m) k))

differ-zero : (x : ℕ) → differ x 0 ≡ x
differ-zero zero = refl
differ-zero (suc x) = refl

pub bit_xor_field :
    (k q r m : ℕ) → r < 2 ^ k → bit_xor (q * 2 ^ k + r) (m * 2 ^ k) ≡ bit_xor q m * 2 ^ k + r
bit_xor_field = bitwise_field bit_xor differ differ-zero bit_xor_step

pub bit_or_field :
    (k q r m : ℕ) → r < 2 ^ k → bit_or (q * 2 ^ k + r) (m * 2 ^ k) ≡ bit_or q m * 2 ^ k + r
bit_or_field = bitwise_field bit_or max (λ x. omega arith) bit_or_step

-- The lowest digits of a word, read, set and cleared.
module _ (f : ℕ → ℕ → ℕ) (d : ℕ → ℕ → ℕ) (d-zero : (x : ℕ) → d x 0 ≡ x) (zero_zero : f 0 0 ≡ 0)
    (f_step : (a b : ℕ) → f a b ≡ f (a / 2) (b / 2) * 2 + d (a % 2) (b % 2)) where
  zero_below : (bound x : ℕ) → x < bound → f x 0 ≡ x
  zero_below zero x lt = absurd (omega arith)
  zero_below (suc bound) zero lt = zero_zero
  zero_below (suc bound) (suc x) lt =
      f_step (suc x) 0
      ∙ ap₂ (λ (p q : ℕ). p * 2 + q) (zero_below bound (suc x / 2) (omega arith))
          (d-zero (suc x % 2))
      ∙ omega arith

  bitwise-zero : (x : ℕ) → f x 0 ≡ x
  bitwise-zero x = zero_below (suc x) x (omega arith)

bit_xor-zero : (a : ℕ) → bit_xor a 0 ≡ a
bit_xor-zero = bitwise-zero bit_xor differ differ-zero refl bit_xor_step

bit_or-zero : (a : ℕ) → bit_or a 0 ≡ a
bit_or-zero = bitwise-zero bit_or max (λ x. omega arith) refl bit_or_step

nothing_common : (bound x : ℕ) → x < bound → bit_and x 0 ≡ 0
nothing_common zero x lt = absurd (omega arith)
nothing_common (suc bound) zero lt = refl
nothing_common (suc bound) (suc x) lt =
    bit_and_step (suc x) 0
    ∙ ap (λ (p : ℕ). p * 2 + min (suc x % 2) 0) (nothing_common bound (suc x / 2) (omega arith))
    ∙ omega arith

pub bit_and-one : (x : ℕ) → bit_and x 1 ≡ x % 2
bit_and-one x = omega (arith, bit_and_step x 1, nothing_common (suc (x / 2)) (x / 2) (omega arith))

pub bit_or-one : (q : ℕ) → bit_or (q * 2) 1 ≡ q * 2 + 1
bit_or-one q =
    let a : q * 2 / 2 ≡ q = omega arith in
    let b : q * 2 % 2 ≡ 0 = omega arith in rw (bit_or_step, a, b, bit_or-zero) refl

differ_self : (x : ℕ) → differ x x ≡ 0
differ_self zero = refl
differ_self (suc x) = differ_self x

-- Clearing the lowest digit by an exclusive or with itself.
pub bit_xor-low : (j : ℕ) → bit_xor j (j % 2) ≡ j / 2 * 2
bit_xor-low j =
    let a : j % 2 / 2 ≡ 0 = omega arith in
    let b : j % 2 % 2 ≡ j % 2 = omega arith in
    rw (bit_xor_step j (j % 2), a, b, bit_xor-zero, differ_self) (omega arith)

bit_xor_two_one : (q : ℕ) → bit_xor (q * 2) 1 ≡ q * 2 + 1
bit_xor_two_one q =
    let a : q * 2 / 2 ≡ q = omega arith in
    let b : q * 2 % 2 ≡ 0 = omega arith in rw (bit_xor_step, a, b, bit_xor-zero) refl

pub bit_xor_four_one : (q : ℕ) → bit_xor (q * 4 + 1) 1 ≡ q * 4
bit_xor_four_one q =
    let a : (q * 4 + 1) / 2 ≡ q * 2 = omega arith in
    let b : (q * 4 + 1) % 2 ≡ 1 = omega arith in rw (bit_xor_step, a, b, bit_xor-zero) (omega arith)

pub bit_xor_four_three : (q : ℕ) → bit_xor (q * 4 + 1) 3 ≡ q * 4 + 2
bit_xor_four_three q =
    let a : (q * 4 + 1) / 2 ≡ q * 2 = omega arith in
    let b : (q * 4 + 1) % 2 ≡ 1 = omega arith in
    rw (bit_xor_step, a, b, bit_xor_two_one) (omega arith)
