-- ===== src/Prelude/Words.antt =====
-- Machine words as native numbers: `u32` with its wraps written out, and shifts, whose count is
-- taken modulo the width, as in a build without overflow checks.
use Prim.Native.Nat.{ℕ, ◌+◌, ◌*◌, ◌/◌, ◌%◌, ◌-◌, ◌^◌, ◌≤◌, ◌<◌}
use mathlib.Core.Path.{◌≡◌}
use native.Mathlib.Nat.{pow-le-pow_right, mod-eq_of_lt}
use native.Mathlib.Omega.{arith}

abbrev pub u32_max : ℕ
u32_max = 2 ^ 32 - 1

abbrev pub u32 : ℕ → ℕ
u32 n = n % 2 ^ 32

abbrev pub sub32 : ℕ → ℕ → ℕ
sub32 a b = (a + 2 ^ 32 - b) % 2 ^ 32

infixl 75 ◌<<◌ ◌>>◌
unfoldable pub ◌<<◌ : ℕ → ℕ → ℕ
x << k = u32 (x * 2 ^ (k % 32))

unfoldable pub ◌>>◌ : ℕ → ℕ → ℕ
x >> k = x / 2 ^ (k % 32)

pub <<_lem : (x k : ℕ) → k < 32 → x * 2 ^ k < 2 ^ 32 → x << k ≡ x * 2 ^ k
unfolding ◌<<◌
<<_lem x k h b = rw (mod-eq_of_lt h) (mod-eq_of_lt b)

pub >>_lem : (x k : ℕ) → k < 32 → x >> k ≡ x / 2 ^ k
unfolding ◌>>◌
>>_lem x k h = rw (mod-eq_of_lt h)

-- The powers that a word holds.
pub pow-le-of_le : {k m : ℕ} → k ≤ m → 2 ^ k ≤ 2 ^ m
pow-le-of_le h = pow-le-pow_right (omega arith) h
