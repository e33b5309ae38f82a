-- ===== src/Crypto/Group.antt =====
-- crypto/group/group.go and crypto/internal/scalar.go. The package gtank/ristretto255 and SHA-512 are
-- parameters: the record of the calls the code makes. Pointers that every construction in the program
-- sets are not optional here, so the code's nil checks on them have no counterpart.
use otvoren_vot.Prelude.{
  ℕ, Bool, true, false, List, [], ◌∷◌, ◌++◌, Option, none, some, Bytes, length, ◌==◌, u64le,
  length_prefixed, repeat,
}

pub data Error : Type 0 where
  wrong_length non_canonical is_identity malformed invalid_proof bad_index duplicate_index
        unknown_trustee partial_count plaintext_out_of_range invalid_public_key invalid_randomness
        no_shares share_count bad_position bad_threshold invalid_share shape_mismatch no_ballots :
      Error

pub data Result {ℓ} (A : Type ℓ) : Type ℓ where
  ok : A → Result A
  err : Error → Result A

infixl 5 ◌>>=◌
abbrev pub ◌>>=◌ {ℓ κ} : {A : Type ℓ} {B : Type κ} → Result A → (A → Result B) → Result B
ok a >>= f = f a
err e >>= f = err e

-- What the code calls of ristretto255, for scalars S and elements E.
pub record Ristretto (S E : Type 0) : Type 0 where
  pub zero_scalar : S
  pub add_scalar : S → S → S
  pub sub_scalar : S → S → S
  pub mul_scalar : S → S → S
  pub invert : S → S
  pub scalar_bytes : S → Bytes
  pub scalar_equal : S → S → Bool
  pub set_canonical_scalar : Bytes → Option S
  pub set_uniform : Bytes → S
  pub identity : E
  pub generator : E
  pub add : E → E → E
  pub subtract : E → E → E
  pub negate : E → E
  pub scalar_mult : S → E → E
  pub scalar_base_mult : S → E
  pub multi_scalar_mult : List S → List E → E
  pub element_bytes : E → Bytes
  pub equal : E → E → Bool
  pub set_canonical_element : Bytes → Option E
  pub sha512 : Bytes → Bytes

-- The fields that `FiatShamir` hashes after the domain, each behind its length.
unfoldable pub prefixed_fields : List Bytes → Bytes
unfolding length_prefixed
prefixed_fields [] = []
prefixed_fields (f ∷ fs) = length_prefixed f ++ prefixed_fields fs

module _ {S E : Type 0} (r : Ristretto S E) where
  decoded_element : Option E → Result E
  decoded_element none = err non_canonical
  decoded_element (some e) = elim (r.equal e r.identity) [ true ↦ err is_identity | false ↦ ok e ]

  unfoldable pub decode_element : Bytes → Result E
  unfolding decoded_element
  decode_element b = elim (length b == 32) [
    | true ↦ decoded_element (r.set_canonical_element b)
    | false ↦ err wrong_length
  ]

  unfoldable pub decode_scalar : Bytes → Result S
  decode_scalar b = elim (length b == 32) [
    | true ↦ elim (r.set_canonical_scalar b) [ none ↦ err non_canonical | some s ↦ ok s ]
    | false ↦ err wrong_length
  ]

  -- `ScalarFromInt` of a number that is not negative.
  unfoldable pub scalar_from_int : ℕ → Result S
  scalar_from_int n = elim (r.set_canonical_scalar (u64le 8 n ++ repeat 24 0)) [
    | none ↦ err non_canonical
    | some s ↦ ok s
  ]

  unfoldable pub fiat_shamir : Bytes → List Bytes → S
  unfolding prefixed_fields length_prefixed
  fiat_shamir domain fields =
      r.set_uniform (r.sha512 (length_prefixed domain ++ prefixed_fields fields))

  -- The loop of `SumScalars`.
  unfoldable pub sum_scalars_from : S → List S → S
  sum_scalars_from sum [] = sum
  sum_scalars_from sum (s ∷ scalars) = sum_scalars_from (r.add_scalar sum s) scalars
