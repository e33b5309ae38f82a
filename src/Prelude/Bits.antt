-- ===== src/Prelude/Bits.antt =====
-- Go's `x & y` where the Merkle tree uses it, and `bits.Len64`.
use Prim.Native.Nat.{
  ℕ, zero, suc, ◌+◌, ◌-◌, ◌*◌, ◌/◌, ◌%◌, ◌^◌, ◌≤◌, ◌<◌, min, bit_and, digits, bit_and-bitwise,
}
use mathlib.Core.Path.{◌≡◌, refl, sym, ap, ◌∙◌}
use mathlib.Core.Logic.{◌⊎◌, inl, inr}
use otvoren_vot.Prelude.Powers.{two_pow-suc, two_pow_pos, lt-two_pow}
use otvoren_vot.Prelude.Tests.{◌==◌, if◌then◌else◌}
use native.Mathlib.Omega.{arith}

-- The recursion that the native operation stands for, with its fuel.
abbrev conj : ℕ → ℕ → ℕ → ℕ
conj = digits (λ y. zero) min

conj-none : (fuel y : ℕ) → conj fuel 0 y ≡ 0
conj-none zero y = refl
conj-none (suc fuel) y = refl

conj-nil : (fuel x : ℕ) → conj fuel x 0 ≡ 0
conj-nil zero x = refl
conj-nil (suc fuel) zero = refl
conj-nil (suc fuel) (suc x) = omega (arith, conj-nil fuel (suc x / 2))

conj_same : (fuel x : ℕ) → x ≤ fuel → conj fuel x x ≡ x
conj_same zero x small = omega arith
conj_same (suc fuel) zero small = refl
conj_same (suc fuel) (suc x) small = omega (arith, conj_same fuel (suc x / 2) (omega arith))

-- Fuel beyond x changes nothing.
conj_spare : (spare fuel x y : ℕ) → x ≤ fuel → conj (spare + fuel) x y ≡ conj fuel x y
conj_spare spare fuel zero y small = conj-none (spare + fuel) y ∙ sym (conj-none fuel y)
conj_spare spare zero (suc x) y small = absurd (omega arith)
conj_spare spare (suc fuel) (suc x) y small =
    let inner = conj_spare spare fuel (suc x / 2) (y / 2) (omega arith) in
    let out : spare + suc fuel ≡ suc (spare + fuel) = omega arith in
    ap (λ (n : ℕ). conj n (suc x) y) out ∙ ap (λ (t : ℕ). t * 2 + min (suc x % 2) (y % 2)) inner

conj_exact : (fuel x y : ℕ) → x ≤ fuel → conj fuel x y ≡ bit_and x y
conj_exact fuel x y small =
    let whole : fuel - x + x ≡ fuel = omega arith in
    ap (λ (n : ℕ). conj n x y) (sym whole)
    ∙ conj_spare (fuel - x) x x y (omega arith)
    ∙ sym (bit_and-bitwise x y)

-- The lowest digit of a conjunction.
bit_and_step : (x y : ℕ) → bit_and x y ≡ bit_and (x / 2) (y / 2) * 2 + min (x % 2) (y % 2)
bit_and_step zero y = omega (arith, bit_and-bitwise 0 y, bit_and-bitwise 0 (y / 2))
bit_and_step (suc x) y =
    omega (arith, bit_and-bitwise (suc x) y, conj_exact x (suc x / 2) (y / 2) (omega arith))

bit_and-nil : (x : ℕ) → bit_and x 0 ≡ 0
bit_and-nil x = bit_and-bitwise x 0 ∙ conj-nil x x

bit_and_same : (x : ℕ) → bit_and x x ≡ x
bit_and_same x = bit_and-bitwise x x ∙ conj_same x x (omega arith)

-- n & (n - 1) is 0 at a power of two,
pub bit_and-two_pow : (k : ℕ) → bit_and (2 ^ k) (2 ^ k - 1) ≡ 0
bit_and-two_pow zero = refl
bit_and-two_pow (suc k) =
    let e : 2 ^ suc k / 2 ≡ 2 ^ k = omega (arith, two_pow-suc k) in
    let d : (2 ^ suc k - 1) / 2 ≡ 2 ^ k - 1 = omega (arith, two_pow-suc k, two_pow_pos k) in
    let step : bit_and (2 ^ suc k / 2) ((2 ^ suc k - 1) / 2) ≡ 0 = rw (e, d) (bit_and-two_pow k) in
    omega (arith, bit_and_step (2 ^ suc k) (2 ^ suc k - 1), two_pow-suc k)

-- and not between two of them.
pub bit_and_between : (k n : ℕ) → 2 ^ k < n → n < 2 ^ suc k → 0 < bit_and n (n - 1)
bit_and_between zero n p q = absurd (omega arith)
bit_and_between (suc k) n p q = elim (even_odd n) [
  | inl e ↦
      let d : (n - 1) / 2 ≡ n / 2 - 1 = omega (arith, two_pow-suc k, two_pow_pos k) in
      let ih : 0 < bit_and (n / 2) ((n - 1) / 2) = rw d (
        bit_and_between k (n / 2) (omega (arith, two_pow-suc k))
          (omega (arith, two_pow-suc k, two_pow-suc (suc k)))) in
      omega (arith, bit_and_step n (n - 1))
  | inr o ↦
      let d : (n - 1) / 2 ≡ n / 2 = omega arith in
      let self : bit_and (n / 2) ((n - 1) / 2) ≡ n / 2 = rw d (bit_and_same (n / 2)) in
      omega (arith, bit_and_step n (n - 1), two_pow-suc k, two_pow_pos k)
]
  where
    even_odd : (m : ℕ) → (m % 2 ≡ 0) ⊎ (m % 2 ≡ 1)
    even_odd m = ground arith

-- A multiple of 2^k has no bit below k.
pub bit_and_multiple : (k a : ℕ) → bit_and (a * 2 ^ k) (2 ^ k - 1) ≡ 0
bit_and_multiple zero a = bit_and-nil (a * 2 ^ 0)
bit_and_multiple (suc k) a =
    let e : a * 2 ^ suc k / 2 ≡ a * 2 ^ k = omega (arith, ap (λ (t : ℕ). a * t) (two_pow-suc k)) in
    let d : (2 ^ suc k - 1) / 2 ≡ 2 ^ k - 1 = omega (arith, two_pow-suc k, two_pow_pos k) in
    let step : bit_and (a * 2 ^ suc k / 2) ((2 ^ suc k - 1) / 2) ≡ 0 =
      rw (e, d) (bit_and_multiple k a) in
    omega
      (arith, bit_and_step (a * 2 ^ suc k) (2 ^ suc k - 1), ap (λ (t : ℕ). a * t) (two_pow-suc k))

-- math/bits Len64: the number of bits of x. `fuel` bounds the bits looked at; x of them suffice.
unfoldable pub len64_from : ℕ → ℕ → ℕ
len64_from zero x = 0
len64_from (suc fuel) x = let rest = len64_from fuel (x / 2) in if x == 0 then 0 else suc rest

unfoldable pub len64 : ℕ → ℕ
unfolding len64_from
len64 x = len64_from x x

-- math/bits TrailingZeros64 of a positive x.
unfoldable pub trailing_zeros64_from : ℕ → ℕ → ℕ
trailing_zeros64_from zero x = 0
trailing_zeros64_from (suc fuel) x =
    let rest = trailing_zeros64_from fuel (x / 2) in if x % 2 == 1 then 0 else suc rest

unfoldable pub trailing_zeros64 : ℕ → ℕ
unfolding trailing_zeros64_from
trailing_zeros64 x = trailing_zeros64_from x x

len64_from_lem : (f k x : ℕ) → k < f → 2 ^ k ≤ x → x < 2 ^ suc k → len64_from f x ≡ suc k
unfolding len64_from
len64_from_lem zero k x h p q = absurd (omega arith)
len64_from_lem (suc zero) zero x h p q = let e : x ≡ 1 = omega arith in rw e
len64_from_lem (suc (suc f)) zero x h p q = let e : x ≡ 1 = omega arith in rw e
len64_from_lem (suc f) (suc k) x h p q = ground (
  arith,
  two_pow_pos k,
  two_pow-suc k,
  len64_from_lem f k (x / 2) (omega arith) (omega (arith, two_pow-suc k))
      (omega (arith, two_pow-suc (suc k))),
)

pub len64_lem : (k x : ℕ) → 2 ^ k ≤ x → x < 2 ^ suc k → len64 x ≡ suc k
unfolding len64
len64_lem k x p q = len64_from_lem x k x (omega (arith, lt-two_pow k)) p q

trailing_zeros64_from_lem : (f k : ℕ) → k < f → trailing_zeros64_from f (2 ^ k) ≡ k
unfolding trailing_zeros64_from
trailing_zeros64_from_lem zero k h = absurd (omega arith)
trailing_zeros64_from_lem (suc f) zero h = refl
trailing_zeros64_from_lem (suc f) (suc k) h =
    let e : 2 ^ suc k / 2 ≡ 2 ^ k = omega (arith, two_pow-suc k) in
    rw e (ground (arith, two_pow-suc k, trailing_zeros64_from_lem f k (omega arith)))

pub trailing_zeros64-two_pow : (k : ℕ) → trailing_zeros64 (2 ^ k) ≡ k
unfolding trailing_zeros64
trailing_zeros64-two_pow k = trailing_zeros64_from_lem (2 ^ k) k (lt-two_pow k)
