-- ===== src/Crypto/Threshold.antt =====
-- crypto/threshold/decrypt.go: partial decryptions and their combination.
use otvoren_vot.Prelude.{
  ℕ, suc, true, false, List, [], ◌∷◌, none, some, Bytes, ascii, length, map, ltb, ◌==◌, lookup,
  nat_Eq, u32be,
}
use otvoren_vot.Crypto.Group.{
  Ristretto, Result, ok, err, ◌>>=◌, malformed, bad_threshold, partial_count, unknown_trustee,
  plaintext_out_of_range, prefixed_fields,
}
use otvoren_vot.Crypto.Elgamal.{Ciphertext, ciphertext_bytes, baby_step_giant_step}
use otvoren_vot.Crypto.Proof.{ChaumPedersenProof, prove_chaum_pedersen, verify_chaum_pedersen}
use otvoren_vot.Crypto.Feldman.{check_index, check_indices, lagrange_at}

pub record SlotContext : Type 0 where
  pub election_id : Bytes
  pub slot_index : ℕ
  pub tally_digest : Bytes
  pub set_commitment : Bytes
  pub sealed_head : Bytes

pub record Partial (S E : Type 0) : Type 0 where
  pub trustee_index : ℕ
  pub d : E
  pub proof : ChaumPedersenProof S E

abbrev pub tally_vector_domain : Bytes
tally_vector_domain = ascii "otvoren-vot.tally-vector"

unfoldable pub check_slot : SlotContext → Result (Unit {0})
check_slot sc = elim (length sc.election_id == 0) [ true ↦ err malformed | false ↦ ok tt ]

module _ {S E : Type 0} (r : Ristretto S E) where
  unfoldable pub tally_digest_of : (Bytes → Bytes) → List (Ciphertext E) → Bytes
  unfolding prefixed_fields
  tally_digest_of sha256 cts =
      sha256 (prefixed_fields (tally_vector_domain ∷ map (ciphertext_bytes r) cts))

  unfoldable pub partial_context : SlotContext → ℕ → E → List Bytes
  partial_context sc trustee c2 =
      sc.election_id
      ∷ u32be trustee
      ∷ u32be sc.slot_index
      ∷ r.element_bytes c2
      ∷ sc.tally_digest
      ∷ sc.set_commitment
      ∷ sc.sealed_head
      ∷ []

  -- `PartialDecrypt`, with the proof's random scalar.
  unfoldable pub partial_decrypt : SlotContext → ℕ → S → Ciphertext E → S → Result (Partial S E)
  unfolding check_slot partial_context
  partial_decrypt sc trustee share ct k = check_slot sc >>= λ u. check_index trustee >>= λ v.
      ok (record {
        trustee_index = trustee;
        d = r.scalar_mult share ct.c1;
        proof =
            prove_chaum_pedersen r (partial_context sc trustee ct.c2) r.generator ct.c1
              (r.scalar_base_mult share) (r.scalar_mult share ct.c1) share k;
      })

  unfoldable pub verify_partial : SlotContext → Ciphertext E → Partial S E → E → Result (Unit {0})
  unfolding check_slot partial_context
  verify_partial sc ct p key = check_slot sc >>= λ u. check_index p.trustee_index >>= λ v.
      verify_chaum_pedersen r (partial_context sc p.trustee_index ct.c2) r.generator ct.c1 key p.d
        p.proof

  -- The loops of `Combine`, in its order.
  unfoldable pub known_trustees : List (ℕ × E) → List ℕ → Result (Unit {0})
  known_trustees keys [] = ok tt
  known_trustees keys (i ∷ indices) = elim (lookup i keys) [
    | none ↦ err unknown_trustee
    | some key ↦ known_trustees keys indices
  ]

  unfoldable pub verify_partials :
      SlotContext → Ciphertext E → List (ℕ × E) → List (Partial S E) → Result (Unit {0})
  verify_partials sc ct keys [] = ok tt
  verify_partials sc ct keys (p ∷ partials) = elim (lookup p.trustee_index keys) [
    | none ↦ err malformed
    | some key ↦ verify_partial sc ct p key >>= λ u. verify_partials sc ct keys partials
  ]

  unfoldable pub lambdas_from : List ℕ → ℕ → List (Partial S E) → Result (List S)
  lambdas_from indices i [] = ok []
  lambdas_from indices i (p ∷ partials) = lagrange_at r indices i >>= λ lambda.
      lambdas_from indices (suc i) partials >>= λ rest. ok (lambda ∷ rest)

  unfoldable pub indices_of : List (Partial S E) → List ℕ
  indices_of partials = map (λ p. p.trustee_index) partials

  unfoldable pub solve : Ciphertext E → List S → List E → ℕ → Result ℕ
  solve ct lambdas ds max_plaintext =
      elim (baby_step_giant_step r (r.subtract ct.c2 (r.multi_scalar_mult lambdas ds))
        max_plaintext) [ none ↦ err plaintext_out_of_range | some m ↦ ok m ]

  unfoldable pub combine :
      SlotContext → Ciphertext E → List (Partial S E) → List (ℕ × E) → ℕ → ℕ → Result ℕ
  unfolding known_trustees verify_partials lambdas_from indices_of solve
  combine sc ct partials keys threshold max_plaintext = elim (ltb threshold 1) [
    | true ↦ err bad_threshold
    | false ↦ elim (length partials == threshold) [
      | false ↦ err partial_count
      | true ↦ check_indices (indices_of partials) >>= λ u.
          known_trustees keys (indices_of partials) >>= λ v.
          verify_partials sc ct keys partials >>= λ w.
          lambdas_from (indices_of partials) 0 partials >>= λ lambdas.
          solve ct lambdas (map (λ p. p.d) partials) max_plaintext
    ]
  ]
