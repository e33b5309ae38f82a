-- ===== src/Crypto/Elgamal.antt =====
-- crypto/elgamal/elgamal.go and crypto/internal/bsgs.go. Randomness is an argument.
use otvoren_vot.Prelude.{
  ℕ, zero, suc, ◌+◌, ◌*◌, ◌/◌, true, false, List, [], ◌∷◌, ◌++◌, Option, none, some, Bytes, length,
  take, drop, ltb, leb, ◌==◌, if◌then◌else◌, lookup, insert, bytes_Eq,
}
use otvoren_vot.Crypto.Group.{
  Ristretto, Result, ok, err, ◌>>=◌, wrong_length, invalid_public_key, invalid_randomness,
  decode_element, scalar_from_int,
}

pub record Ciphertext (E : Type 0) : Type 0 where
  pub c1 : E
  pub c2 : E

abbrev pub max_decrypt : ℕ
max_decrypt = 5_000_000

-- step := 1; for step*step < max { step++ }: with `max` rounds of fuel, since max*max >= max.
unfoldable pub step_from : ℕ → ℕ → ℕ → ℕ
step_from zero step max = step
step_from (suc fuel) step max =
    let rest = step_from fuel (suc step) max in if ltb (step * step) max then rest else step

module _ {S E : Type 0} (r : Ristretto S E) where
  unfoldable pub key_pair_from_secret : S → S × E
  key_pair_from_secret x = (x, r.scalar_base_mult x)

  unfoldable pub scalar_base_mult_int : ℕ → Result E
  unfolding scalar_from_int
  scalar_base_mult_int m = scalar_from_int r m >>= λ s. ok (r.scalar_base_mult s)

  unfoldable pub encrypt_with_randomness : E → ℕ → S → Result (Ciphertext E)
  unfolding scalar_base_mult_int
  encrypt_with_randomness public_key m k = elim (r.equal public_key r.identity) [
    | true ↦ err invalid_public_key
    | false ↦ elim (r.scalar_equal k r.zero_scalar) [
      | true ↦ err invalid_randomness
      | false ↦ scalar_base_mult_int m >>= λ gm.
          ok (record { c1 = r.scalar_base_mult k; c2 = r.add (r.scalar_mult k public_key) gm })
    ]
  ]

  -- The loop of `HomomorphicAdd` after the first ciphertext.
  unfoldable pub add_ciphertexts_from : Ciphertext E → List (Ciphertext E) → Ciphertext E
  add_ciphertexts_from sum [] = sum
  add_ciphertexts_from sum (ct ∷ cts) =
      add_ciphertexts_from (record { c1 = r.add sum.c1 ct.c1; c2 = r.add sum.c2 ct.c2 }) cts

  unfoldable pub homomorphic_add : List (Ciphertext E) → Option (Ciphertext E)
  unfolding add_ciphertexts_from
  homomorphic_add [] = none
  homomorphic_add (ct ∷ cts) = some (add_ciphertexts_from ct cts)

  unfoldable pub ciphertext_bytes : Ciphertext E → Bytes
  ciphertext_bytes ct = r.element_bytes ct.c1 ++ r.element_bytes ct.c2

  unfoldable pub ciphertext_from_bytes : Bytes → Result (Ciphertext E)
  ciphertext_from_bytes bytes = elim (length bytes == 64) [
    | false ↦ err wrong_length
    | true ↦ decode_element r (take 32 bytes) >>= λ c1.
        decode_element r (drop 32 bytes) >>= λ c2. ok (record { c1 = c1; c2 = c2 })
  ]

  -- The baby steps j, j+1, ..., `count` of them, from the element `current`.
  unfoldable pub baby_steps : ℕ → ℕ → E → List (Bytes × ℕ) → List (Bytes × ℕ)
  baby_steps zero j current table = table
  baby_steps (suc count) j current table =
      baby_steps count (suc j) (r.add current r.generator)
        (insert (r.element_bytes current) j table)

  -- The giant steps from the i-th on, `count` of them at most; none is the result -1.
  unfoldable pub giant_steps : ℕ → ℕ → ℕ → ℕ → E → E → List (Bytes × ℕ) → Option ℕ
  giant_steps zero i step max giant gamma table = none
  giant_steps (suc count) i step max giant gamma table =
      let rest = giant_steps count (suc i) step max giant (r.add gamma giant) table in
      elim (lookup (r.element_bytes gamma) table) [
        | some j ↦ if leb (i * step + j) max then some (i * step + j) else none
        | none ↦ rest
      ]

  -- The conversion of `step`, which is small, does not fail; where it did, the code would panic.
  unfoldable pub baby_step_giant_step : E → ℕ → Option ℕ
  unfolding step_from baby_steps giant_steps scalar_from_int
  baby_step_giant_step target max =
      let step = step_from max 1 max in
      elim (scalar_from_int r step) [
        | err e ↦ none
        | ok s ↦
            giant_steps (max / step + 2) 0 step max (r.negate (r.scalar_base_mult s)) target
              (baby_steps step 0 r.identity [])
      ]

  unfoldable pub decrypt : S → Ciphertext E → Option ℕ
  unfolding baby_step_giant_step
  decrypt private_key ct =
      baby_step_giant_step (r.add ct.c2 (r.negate (r.scalar_mult private_key ct.c1))) max_decrypt
