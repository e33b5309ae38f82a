-- ===== src/Prelude/Powers.antt =====
-- Powers of two, and Go's shifts by them.
use Prim.Native.Nat.{ℕ, zero, suc, ◌*◌, ◌/◌, ◌^◌, ◌<◌}
use mathlib.Core.Path.{◌≡◌}
use native.Mathlib.Nat.{pow-suc, mul-div_left}
use native.Mathlib.Omega.{arith}

pub two_pow-suc : (n : ℕ) → 2 ^ suc n ≡ 2 * 2 ^ n
two_pow-suc n = omega (arith, pow-suc 2 n)

pub two_pow_pos : (n : ℕ) → 0 < 2 ^ n
two_pow_pos zero = omega arith
two_pow_pos (suc n) = omega (arith, two_pow-suc n, two_pow_pos n)

pub lt-two_pow : (n : ℕ) → n < 2 ^ n
lt-two_pow zero = omega arith
lt-two_pow (suc n) = omega (arith, two_pow-suc n, lt-two_pow n)

-- x << k
abbrev pub shl : ℕ → ℕ → ℕ
shl x k = x * 2 ^ k

-- x >> k
abbrev pub shr : ℕ → ℕ → ℕ
shr x k = x / 2 ^ k

pub shr-shl : (x k : ℕ) → shr (x * 2 ^ k) k ≡ x
shr-shl x k = mul-div_left x (two_pow_pos k)
