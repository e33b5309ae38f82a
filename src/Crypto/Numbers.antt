-- ===== src/Crypto/Numbers.antt =====
-- The calls of ristretto255 at the natural numbers: addition for the group operation, multiplication by
-- a scalar for the exponent. The examples run the program's code on it.
use Prim.Native.Nat.{◌*◌, ◌-◌}
use native.Mathlib.Nat.{add-mul, mul_assoc, mul_comm, mul-add}
use otvoren_vot.Prelude.{
  ℕ, ◌+◌, ◌≤◌, List, [], ◌∷◌, Option, none, some, Bytes, ◌==◌, ==_iff, ◌≡◌, refl, ap, u64le, ◌∙◌,
  arith,
}
use otvoren_vot.Crypto.Group.{Ristretto, ok, scalar_from_int}
use otvoren_vot.Crypto.Complete.{Laws}
use otvoren_vot.Crypto.Shares.{RingLaws, IntegerLaws}

abbrev first_byte : Bytes → Option ℕ
first_byte [] = none
first_byte (b ∷ bs) = some b

abbrev sum_bytes : Bytes → ℕ
sum_bytes [] = 0
sum_bytes (b ∷ bs) = b + sum_bytes bs

abbrev dot : List ℕ → List ℕ → ℕ
dot [] elements = 0
dot (a ∷ scalars) [] = 0
dot (a ∷ scalars) (e ∷ elements) = a * e + dot scalars elements

abbrev pub numbers : Ristretto ℕ ℕ
numbers = record {
  zero_scalar = 0;
  add_scalar = λ a b. a + b;
  sub_scalar = λ a b. a - b;
  mul_scalar = λ a b. a * b;
  invert = λ a. a;
  scalar_bytes = λ a. a ∷ [];
  scalar_equal = λ a b. a == b;
  set_canonical_scalar = first_byte;
  set_uniform = sum_bytes;
  identity = 0;
  generator = 1;
  add = λ a b. a + b;
  subtract = λ a b. a - b;
  negate = λ a. a;
  scalar_mult = λ a b. a * b;
  scalar_base_mult = λ a. a;
  multi_scalar_mult = dot;
  element_bytes = λ a. a ∷ [];
  equal = λ a b. a == b;
  set_canonical_element = first_byte;
  sha512 = λ b. b;
}

pub numbers-Laws : Laws numbers
numbers-Laws = record {
  equal_refl = λ a. (==_iff a a).1 refl;
  base_mult = λ x. omega arith;
  response = λ e x k g. add-mul (e * x) k g ∙ omega (arith, mul_assoc e x g);
}

pub numbers-RingLaws : RingLaws numbers
numbers-RingLaws = record {
  add_comm = λ a b. omega arith;
  add_assoc = λ a b c. omega arith;
  zero_add = λ a. omega arith;
  mul_comm = mul_comm;
  mul_assoc = mul_assoc;
  mul_add = mul-add;
  mul_zero = λ a. omega arith;
  base_zero = refl;
  base_add = λ a b. refl;
  mult_base = λ a b. refl;
  multi_nil = refl;
  multi_cons = λ a scalars e elements. refl;
  equal_refl = λ e. (==_iff e e).1 refl;
}

pub scalar_from_int-byte : (n : ℕ) → n ≤ 255 → scalar_from_int numbers n ≡ ok n
unfolding scalar_from_int u64le
scalar_from_int-byte n h = ap ok (omega arith)

abbrev pub numbers-IntegerLaws : IntegerLaws numbers 255
numbers-IntegerLaws = record {
  scalar_of = λ n. n;
  from_int = scalar_from_int-byte;
  one_mul = λ a. omega arith;
}
