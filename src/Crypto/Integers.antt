-- ===== src/Crypto/Integers.antt =====
-- The calls of ristretto255 at the integers, which have inverses: a scalar is a number and acts by repeated
-- addition. The examples of decryption run on it.
use mathlib.Core.Int.{ℤ, pos, negsuc, ◌+ℤ◌, neg_ℤ, suc_ℤ, +ℤ_assoc, +ℤ_comm, +ℤ_invr}
use mathlib.Core.Nat as M
use native.Mathlib.Bridge.{from_ℕ}
use otvoren_vot.Prelude.{
  ℕ, zero, suc, ◌+◌, ◌-◌, ◌*◌, ◌/◌, ◌^◌, ◌<◌, ◌≡◌, refl, sym, ap, ◌∙◌, [], ◌∷◌, ◌++◌, none, some,
  Bytes, arith, ◌==◌, bytes_eq, u64le, repeat,
}
use otvoren_vot.Crypto.Group.{Ristretto}
use otvoren_vot.Crypto.Logarithm.{GroupLaws, Multiples, times}
use otvoren_vot.Crypto.Homomorphic.{ScalarLaws}

abbrev unary : ℕ → M.ℕ
unary zero = M.zero
unary (suc n) = M.suc (unary n)

from_ℕ-unary : (n : ℕ) → from_ℕ (unary n) ≡ n
from_ℕ-unary zero = refl
from_ℕ-unary (suc n) = ap suc (from_ℕ-unary n)

-- A number from its bytes, the lowest first.
abbrev little_endian : Bytes → ℕ
little_endian [] = 0
little_endian (b ∷ bytes) = b + 256 * little_endian bytes

abbrev pub encode : ℤ → Bytes
encode (pos n) = from_ℕ n ∷ []
encode (negsuc n) = from_ℕ n ∷ 0 ∷ []

abbrev pub act : ℕ → ℤ → ℤ
act zero a = pos M.zero
act (suc n) a = a +ℤ act n a

abbrev pub one : ℤ
one = pos (M.suc M.zero)

abbrev pub integers : Ristretto ℕ ℤ
integers = record {
  zero_scalar = 0;
  add_scalar = λ a b. a + b;
  sub_scalar = λ a b. a - b;
  mul_scalar = λ a b. a * b;
  invert = λ a. a;
  scalar_bytes = λ a. a ∷ [];
  scalar_equal = λ a b. a == b;
  set_canonical_scalar = λ b. some (little_endian b);
  set_uniform = little_endian;
  identity = pos M.zero;
  generator = one;
  add = λ a b. a +ℤ b;
  subtract = λ a b. a +ℤ neg_ℤ b;
  negate = neg_ℤ;
  scalar_mult = act;
  scalar_base_mult = λ n. act n one;
  multi_scalar_mult = λ scalars elements. one;
  element_bytes = encode;
  equal = λ a b. bytes_eq (encode a) (encode b);
  set_canonical_element = λ b. none;
  sha512 = λ b. b;
}

pub integers-GroupLaws : GroupLaws integers
integers-GroupLaws = record {
  add_assoc = +ℤ_assoc;
  add_comm = +ℤ_comm;
  add_identity = λ a. refl;
  add_negate = +ℤ_invr;
}

times-pos : (n : ℕ) → times integers n ≡ pos (unary n)
unfolding times
times-pos zero = refl
times-pos (suc n) = ap suc_ℤ (times-pos n)

act-one : (n : ℕ) → act n one ≡ pos (unary n)
act-one zero = refl
act-one (suc n) = +ℤ_comm one (act n one) ∙ ap suc_ℤ (act-one n)

act-add : (n : ℕ) (a b : ℤ) → act n (a +ℤ b) ≡ act n a +ℤ act n b
act-add zero a b = refl
act-add (suc n) a b =
    ap (λ x. (a +ℤ b) +ℤ x) (act-add n a b)
    ∙ +ℤ_assoc a b (act n a +ℤ act n b)
    ∙ ap (λ x. a +ℤ x)
        (sym (+ℤ_assoc b (act n a) (act n b))
          ∙ ap (λ x. x +ℤ act n b) (+ℤ_comm b (act n a))
          ∙ +ℤ_assoc (act n a) b (act n b))
    ∙ sym (+ℤ_assoc a (act n a) (b +ℤ act n b))

act-zero : (n : ℕ) → act n (pos M.zero) ≡ pos M.zero
act-zero zero = refl
act-zero (suc n) = ap (λ x. pos M.zero +ℤ x) (act-zero n)

act_swap : (x k : ℕ) (a : ℤ) → act k (act x a) ≡ act x (act k a)
act_swap zero k a = act-zero k
act_swap (suc x) k a = act-add k a (act x a) ∙ ap (λ y. act k a +ℤ y) (act_swap x k a)

pub integers-ScalarLaws : ScalarLaws integers
integers-ScalarLaws = record { mult_add = act-add; mult_swap = λ x k. act_swap x k one }

little_endian-zeros : (n : ℕ) → little_endian (repeat n 0) ≡ 0
unfolding repeat
little_endian-zeros zero = refl
little_endian-zeros (suc n) = omega (arith, little_endian-zeros n)

little_endian-u64le :
    (width n : ℕ) → n < 256 ^ width → little_endian (u64le width n ++ repeat 24 0) ≡ n
unfolding u64le
little_endian-u64le zero n h = omega (arith, little_endian-zeros 24)
little_endian-u64le (suc width) n h =
    omega (arith, little_endian-u64le width (n / 256) (omega arith))

pub integers-Multiples : Multiples integers 4_294_967_296
integers-Multiples = record {
  distinct = λ i j p q h.
      sym (from_ℕ-unary i)
      ∙ first (sym (ap encode (times-pos i)) ∙ h ∙ ap encode (times-pos j))
      ∙ from_ℕ-unary j;
  small = λ n p. (
    little_endian (u64le 8 n ++ repeat 24 0),
    refl,
    ap (λ m. act m one) (little_endian-u64le 8 n (omega arith)) ∙ act-one n ∙ sym (times-pos n),
  );
}
  where
    first : {a b : ℕ} → a ∷ [] ≡ b ∷ [] → a ≡ b
    first h = cc
