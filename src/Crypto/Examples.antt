-- ===== src/Crypto/Examples.antt =====
-- The theorems on crypto at the natural numbers, or the parities where elements have inverses, in place
-- of ristretto255.
use otvoren_vot.Prelude.{ℕ, Bool, true, false, [], ◌∷◌, ◌≡◌, refl, arith}
use otvoren_vot.Crypto.Group.{ok}
use otvoren_vot.Crypto.Elgamal.{Ciphertext, homomorphic_add}
use otvoren_vot.Crypto.Logarithm.{times}
use otvoren_vot.Crypto.Ballot.{
  prove_consistency, verify_consistency, Context, BinaryProof, SumOneProof, binary_domain, validate,
  check_public_key, check_binary_statement, prove_binary_with_domain, verify_binary_with_domain,
  prove_sum_one, verify_sum_one,
}
use otvoren_vot.Crypto.Honest.{verify_binary-prove_binary, verify_sum_one-prove_sum_one}
use otvoren_vot.Crypto.Consistent.{verify_consistency-prove_consistency}
use otvoren_vot.Crypto.Parity.{parity, parity-Laws, parity-GroupLaws, parity-SubtractionLaws}
use otvoren_vot.Crypto.Threshold.{SlotContext, Partial, partial_decrypt, verify_partial}
use otvoren_vot.Crypto.Numbers.{numbers, numbers-Laws}
use otvoren_vot.Crypto.Complete.{verify_partial-partial_decrypt}

abbrev slot : SlotContext
slot = record {
  election_id = 1 ∷ [];
  slot_index = 0;
  tally_digest = [];
  set_commitment = [];
  sealed_head = [];
}

abbrev sums : Ciphertext ℕ
sums = record { c1 = 5; c2 = 9 }

verify_partial-partial_decrypt_example :
    (p : Partial ℕ ℕ) × (partial_decrypt numbers slot 2 3 sums 4 ≡ ok p)
    × (verify_partial numbers slot sums p 3 ≡ ok tt)
verify_partial-partial_decrypt_example =
    verify_partial-partial_decrypt numbers numbers-Laws slot 2 3 4 sums (λ e. cc (e)) (omega arith)
      (omega arith)

abbrev ballot_context : Context
ballot_context = record { election_id = 1 ∷ []; ballot_id = 2 ∷ []; index = 0 }

context_checked : check_binary_statement parity ballot_context true ≡ ok tt
unfolding check_binary_statement validate check_public_key
context_checked = refl

-- 1 encrypted with the randomness 1 under the key 1.
abbrev one_encrypted : Ciphertext Bool
one_encrypted = record { c1 = true; c2 = false }

-- 0 encrypted with the randomness 0.
abbrev zero_encrypted : Ciphertext Bool
zero_encrypted = record { c1 = false; c2 = false }

verify_binary-prove_binary_example :
    (p : BinaryProof Bool Bool) × (prove_binary_with_domain parity binary_domain ballot_context true
        one_encrypted 1 true false true true
      ≡ ok p)
    × (verify_binary_with_domain parity binary_domain ballot_context true one_encrypted p ≡ ok tt)
unfolding times
verify_binary-prove_binary_example =
    verify_binary-prove_binary parity parity-Laws parity-GroupLaws parity-SubtractionLaws
      binary_domain ballot_context true one_encrypted 1 true false true true context_checked
      (omega arith) (refl, refl)

verify_sum_one-prove_sum_one_example :
    (p : SumOneProof Bool Bool) × (prove_sum_one parity ballot_context true
        (zero_encrypted ∷ one_encrypted ∷ [])
        true
        true
      ≡ ok p)
    × (verify_sum_one parity ballot_context true (zero_encrypted ∷ one_encrypted ∷ []) p ≡ ok tt)
unfolding times homomorphic_add
verify_sum_one-prove_sum_one_example =
    verify_sum_one-prove_sum_one parity parity-Laws parity-GroupLaws parity-SubtractionLaws
      ballot_context true (zero_encrypted ∷ one_encrypted ∷ []) one_encrypted true true
      context_checked refl (refl, refl)

verify_consistency-prove_consistency_example :
    (p : BinaryProof Bool Bool) × (prove_consistency parity ballot_context true one_encrypted
        zero_encrypted 1 true false true true
      ≡ ok p)
    × (verify_consistency parity ballot_context true one_encrypted zero_encrypted p ≡ ok tt)
unfolding times
verify_consistency-prove_consistency_example =
    verify_consistency-prove_consistency parity parity-Laws parity-GroupLaws parity-SubtractionLaws
      ballot_context true one_encrypted zero_encrypted 1 0 true false false true true
      context_checked (omega arith) (omega arith) (refl, refl) (refl, refl)
