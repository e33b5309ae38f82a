-- ===== src/Crypto/Parity.antt =====
-- The calls of ristretto255 at the field of two elements, which is its own group: every law is checked on
-- its cases. The examples of ballot proofs run on it.
use otvoren_vot.Prelude.{
  ◌≡◌, refl, sym, ap, ◌∙◌, Bool, true, false, not, some, [], ◌∷◌, Bytes, ◌==◌,
}
use otvoren_vot.Crypto.Group.{Ristretto}
use otvoren_vot.Crypto.Complete.{Laws}
use otvoren_vot.Crypto.Logarithm.{GroupLaws}
use otvoren_vot.Crypto.Honest.{SubtractionLaws}

abbrev differ : Bool → Bool → Bool
differ true b = not b
differ false b = b

abbrev same_bit : Bool → Bool → Bool
same_bit a b = not (differ a b)

abbrev both : Bool → Bool → Bool
both true b = b
both false b = false

abbrev bit_byte : Bool → Bytes
bit_byte true = 1 ∷ []
bit_byte false = 0 ∷ []

abbrev byte_bit : Bytes → Bool
byte_bit [] = false
byte_bit (b ∷ bytes) = b == 1

abbrev pub parity : Ristretto Bool Bool
parity = record {
  zero_scalar = false;
  add_scalar = differ;
  sub_scalar = differ;
  mul_scalar = both;
  invert = λ a. a;
  scalar_bytes = bit_byte;
  scalar_equal = same_bit;
  set_canonical_scalar = λ b. some (byte_bit b);
  set_uniform = byte_bit;
  identity = false;
  generator = true;
  add = differ;
  subtract = differ;
  negate = λ a. a;
  scalar_mult = both;
  scalar_base_mult = λ a. a;
  multi_scalar_mult = λ scalars elements. false;
  element_bytes = bit_byte;
  equal = same_bit;
  set_canonical_element = λ b. some (byte_bit b);
  sha512 = λ b. b;
}

same_refl : (a : Bool) → same_bit a a ≡ true
same_refl true = refl
same_refl false = refl

differ_assoc : (a b c : Bool) → differ (differ a b) c ≡ differ a (differ b c)
differ_assoc true true true = refl
differ_assoc true true false = refl
differ_assoc true false c = refl
differ_assoc false b c = refl

differ_comm : (a b : Bool) → differ a b ≡ differ b a
differ_comm true true = refl
differ_comm true false = refl
differ_comm false true = refl
differ_comm false false = refl

differ_same : (a : Bool) → differ a a ≡ false
differ_same true = refl
differ_same false = refl

differ_false : (a : Bool) → differ a false ≡ a
differ_false true = refl
differ_false false = refl

both-true : (a : Bool) → a ≡ both a true
both-true true = refl
both-true false = refl

respond : (e x k g : Bool) → both (differ (both e x) k) g ≡ differ (both k g) (both e (both x g))
respond true true true true = refl
respond true true true false = refl
respond true true false g = refl
respond true false true g = sym (differ_false g)
respond true false false g = refl
respond false x true g = sym (differ_false g)
respond false x false g = refl

distribute : (x y e : Bool) → both (differ x y) e ≡ differ (both x e) (both y e)
distribute true true true = refl
distribute true true false = refl
distribute true false e = sym (differ_false e)
distribute false y e = refl

cancel_after : (e f : Bool) → differ (differ e f) f ≡ e
cancel_after e f = differ_assoc e f f ∙ ap (differ e) (differ_same f) ∙ differ_false e

pub parity-Laws : Laws parity
parity-Laws = record { equal_refl = same_refl; base_mult = both-true; response = respond }

pub parity-GroupLaws : GroupLaws parity
parity-GroupLaws = record {
  add_assoc = differ_assoc;
  add_comm = differ_comm;
  add_identity = differ_false;
  add_negate = differ_same;
}

pub parity-SubtractionLaws : SubtractionLaws parity
parity-SubtractionLaws = record {
  subtract_negate = λ a b. refl;
  mult_subtract = distribute;
  scalar_equal_refl = same_refl;
  minus_plus = cancel_after;
  plus_minus = λ e f. differ_comm f (differ e f) ∙ cancel_after e f;
}
