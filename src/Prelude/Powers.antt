-- ===== src/Prelude/Powers.antt =====
-- Powers of two over the native numbers.
use Prim.Native.Nat.{ℕ, zero, suc, ◌+◌, ◌*◌, ◌/◌, ◌^◌, ◌<◌}
use mathlib.Core.Path.{◌≡◌, ap, sym}
use native.Mathlib.Nat.{pow-suc, div-div-eq-div-mul, one-le-pow, add-zero}
use native.Mathlib.Omega.{arith}

pub two_pow_suc : (k : ℕ) → 2 ^ suc k ≡ 2 * 2 ^ k
two_pow_suc k = omega (arith, pow-suc 2 k)

pub two_pow_pos : (k : ℕ) → 0 < 2 ^ k
two_pow_pos k = one-le-pow k 2 (omega arith)

pub mul-two_pow_suc : (q k : ℕ) → q * 2 ^ suc k ≡ 2 * (q * 2 ^ k)
mul-two_pow_suc q k = omega (arith, ap (λ (t : ℕ). q * t) (two_pow_suc k))

pub two_pow-add : (a b : ℕ) → 2 ^ (a + b) ≡ 2 ^ a * 2 ^ b
two_pow-add a zero = rw add-zero (omega arith)
two_pow-add a (suc b) =
    let e : a + suc b ≡ suc (a + b) = omega arith in
    rw e (omega (arith, two_pow_suc (a + b), two_pow-add a b, mul-two_pow_suc (2 ^ a) b))

pub div-two_pow_suc : (x i : ℕ) → x / 2 ^ suc i ≡ x / 2 ^ i / 2
div-two_pow_suc x i = rw (pow-suc 2 i) (sym (div-div-eq-div-mul x (2 ^ i) 2))

pub div-two_pow-half : (x i : ℕ) → x / 2 ^ suc i ≡ x / 2 / 2 ^ i
div-two_pow-half x i =
    let e : 2 ^ suc i ≡ 2 * 2 ^ i = two_pow_suc i in rw e (sym (div-div-eq-div-mul x 2 (2 ^ i)))

pub div-two_pow-add : (x a b : ℕ) → x / 2 ^ a / 2 ^ b ≡ x / 2 ^ (a + b)
div-two_pow-add x a b = rw (two_pow-add a b) (div-div-eq-div-mul x (2 ^ a) (2 ^ b))
