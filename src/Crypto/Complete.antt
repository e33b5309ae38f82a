-- ===== src/Crypto/Complete.antt =====
-- Completeness of the proofs of crypto/proof and crypto/threshold: what an honest party makes verifies.
use otvoren_vot.Prelude.{
  ℕ, ◌≤◌, true, List, Bytes, length, ◌==◌, ==_iff, le→ltb, ◌≡◌, refl, ◌≢◌, inl, inr, Bool-cases,
}
use otvoren_vot.Crypto.Group.{Ristretto, ok}
use otvoren_vot.Crypto.Elgamal.{Ciphertext}
use otvoren_vot.Crypto.Proof.{cp_challenge, prove_chaum_pedersen, verify_chaum_pedersen}
use otvoren_vot.Crypto.Feldman.{check_index, max_uint32}
use otvoren_vot.Crypto.Threshold.{
  SlotContext, Partial, check_slot, partial_context, partial_decrypt, verify_partial,
}

-- What the proofs rely on of ristretto255: a module over the scalars, and equality of elements.
pub record Laws {S E : Type 0} (r : Ristretto S E) : Type 0 where
  pub equal_refl : (a : E) → r.equal a a ≡ true
  pub base_mult : (x : S) → r.scalar_base_mult x ≡ r.scalar_mult x r.generator
  pub response :
      (e x k : S) (g : E)
      → r.scalar_mult (r.add_scalar (r.mul_scalar e x) k) g
        ≡ r.add (r.scalar_mult k g) (r.scalar_mult e (r.scalar_mult x g))

module _ {S E : Type 0} (r : Ristretto S E) (laws : Laws r) where
  -- An honest Chaum-Pedersen proof verifies, for every statement of equal discrete logarithms, every
  -- context and every choice of the prover's randomness.
  pub verify-prove :
      (context : List Bytes) (g h : E) (x k : S)
      → verify_chaum_pedersen r context g h
          (r.scalar_mult x g)
          (r.scalar_mult x h)
          (prove_chaum_pedersen r context g h (r.scalar_mult x g) (r.scalar_mult x h) x k)
        ≡ ok tt
  unfolding prove_chaum_pedersen verify_chaum_pedersen
  verify-prove context g h x k =
      let e =
        cp_challenge r context g h (r.scalar_mult x g) (r.scalar_mult x h) (r.scalar_mult k g)
          (r.scalar_mult k h) in
      rw (equation g e, verify_chaum_pedersen) (rw (equation h e) refl)
    where
      equation :
          (b : E) (e : S)
          → r.equal
              (r.scalar_mult (r.add_scalar (r.mul_scalar e x) k) b)
              (r.add (r.scalar_mult k b) (r.scalar_mult e (r.scalar_mult x b)))
            ≡ true
      equation b e = rw (laws.response e x k b) (laws.equal_refl _)

  slot_checked : (sc : SlotContext) → length sc.election_id ≢ 0 → check_slot sc ≡ ok tt
  unfolding check_slot
  slot_checked sc n = elim (Bool-cases (length sc.election_id == 0)) [
    | inl e ↦ absurd (n ((==_iff (length sc.election_id) 0).0 e))
    | inr e ↦ rw (e, check_slot) refl
  ]

  index_checked : (i : ℕ) → 1 ≤ i → i ≤ max_uint32 → check_index i ≡ ok tt
  unfolding check_index
  index_checked i a b = rw (le→ltb i 1 a, check_index) (rw (le→ltb max_uint32 i b) refl)

  -- A trustee's partial decryption succeeds and verifies under the key of the trustee's share, for every
  -- slot of an election that has an identifier and every trustee index that fits in 32 bits.
  pub verify_partial-partial_decrypt :
      (sc : SlotContext) (trustee : ℕ) (share k : S) (ct : Ciphertext E)
      → length sc.election_id ≢ 0
      → 1 ≤ trustee
      → trustee ≤ max_uint32
      → (p : Partial S E) × (partial_decrypt r sc trustee share ct k ≡ ok p)
        × (verify_partial r sc ct p (r.scalar_base_mult share) ≡ ok tt)
  unfolding partial_decrypt verify_partial
  verify_partial-partial_decrypt sc trustee share k ct n a b = (
    honest,
    rw (slot_checked sc n, partial_decrypt) (rw (index_checked trustee a b) refl),
    rw (slot_checked sc n, verify_partial)
        (rw (index_checked trustee a b) (
          rw (laws.base_mult share)
            (verify-prove (partial_context r sc trustee ct.c2) r.generator ct.c1 share k))),
  )
    where
      honest : Partial S E
      honest = record {
        trustee_index = trustee;
        d = r.scalar_mult share ct.c1;
        proof =
            prove_chaum_pedersen r (partial_context r sc trustee ct.c2) r.generator ct.c1
              (r.scalar_base_mult share) (r.scalar_mult share ct.c1) share k;
      }
