-- ===== src/Tally/OneSlot.antt =====
-- The theorem on the states of tally at a ceremony with one party, in which a trustee's partial decryption
-- is decoded and verified. The group is that of the natural numbers, with the challenge 1.
use otvoren_vot.Prelude.{
  ℕ, true, List, [], ◌∷◌, ◌++◌, Option, none, some, Bytes, bytes_eq, repeat, lookup, insert, nat_Eq,
  hex_encode, hex_decode, ◌≡◌, refl,
}
use otvoren_vot.Crypto.Group.{Ristretto, decode_element, decode_scalar, fiat_shamir}
use otvoren_vot.Crypto.Elgamal.{ciphertext_from_bytes}
use otvoren_vot.Crypto.Proof.{verify_chaum_pedersen}
use otvoren_vot.Crypto.Threshold.{verify_partial}
use otvoren_vot.Crypto.Numbers.{numbers}
use otvoren_vot.Tally.State.{
  State, TallyResult, new_state, tallying, awaiting_trustees, marshal, marshal_trustees,
  marshal_partials, decode_proof_hex,
}
use otvoren_vot.Tally.Compute.{SerializedBallot, compute_tally, add_ballots, add_vector, empty_sums}
use otvoren_vot.Tally.Submission.{
  Submission, decode_partials, slot_contexts, slot_contexts_from, all_set, verify_slots,
}
use otvoren_vot.Tally.Journal.{World, save, store_state, set_phase, named}
use otvoren_vot.Tally.Start.{
  handle_start, start_sealed, start_saved, in_progress, run_tally_fetched, run_tally_summed,
  ballots_to_tally, active_only,
}
use otvoren_vot.Tally.Handler.{
  submit, verify_submission, accept, decrypt_locked, handle_partial_decryption,
}
use otvoren_vot.Tally.Lifecycle.{IsValid}
use otvoren_vot.Tally.Reach.{
  starts, fetches, sums, submits, Reaches, initial, moves, Reaches-IsValid,
}

abbrev same : Bytes → Bytes
same bytes = bytes

abbrev group : Ristretto ℕ ℕ
group = record numbers { sha512 = λ b. 1 ∷ [] }

abbrev keys : List (ℕ × ℕ)
keys = (1, 11) ∷ []

abbrev encoded : ℕ → Bytes
encoded n = n ∷ repeat 31 0

abbrev one_party : Bytes → Option (List Bytes)
one_party bytes = some (hex_encode (encoded 3 ++ encoded 9) ∷ [])

abbrev started : State ℕ ℕ
started = record (new_state (7 ∷ []) (1 ∷ []) 100) { active_set = (9 ∷ []) ∷ [] }

abbrev before : World ℕ ℕ
before = record { ceremony = none; journal = none }

abbrev w1 : World ℕ ℕ
w1 =
    (handle_start group before (1 ∷ []) (7 ∷ []) 100 (some ((9 ∷ []) ∷ [])) (some true) true true).0

abbrev ballots : List SerializedBallot
ballots = record { ballot_id = 9 ∷ []; encrypted_ballot = [] } ∷ []

abbrev w2 : World ℕ ℕ
w2 = (run_tally_fetched group w1 started (some ballots) true).0

abbrev counted : State ℕ ℕ
counted = record started { ballot_count = 1; phase = tallying }

abbrev w3 : World ℕ ℕ
w3 = run_tally_summed group w2 counted (compute_tally group one_party ballots) true

abbrev submission : Option Submission
submission = some (record {
  trustee_index = 1;
  partials =
      record {
        party_index = 0;
        point = hex_encode (encoded 33);
        proof = some (record {
          u = hex_encode (encoded 2);
          v = hex_encode (encoded 6);
          z = hex_encode (encoded 13);
        });
      }
      ∷ [];
})

abbrev sums_held : TallyResult ℕ
sums_held = record {
  encrypted_sums = some (record { c1 = 3; c2 = 9 }) ∷ [];
  num_ballots = 1;
  num_parties = 1;
}

abbrev submitted_once : State ℕ ℕ
submitted_once = record {
  id = 7 ∷ [];
  phase = awaiting_trustees;
  election_id = 1 ∷ [];
  active_set = (9 ∷ []) ∷ [];
  ballot_count = 1;
  party_count = 1;
  partials =
      (1, some (record { trustee_index = 1; d = 33; proof = record { u = 2; v = 6; z = 13 } }) ∷ [])
      ∷ [];
  trustee_order = 1 ∷ [];
  results = [];
  started_at = 100;
  decrypted_at = none;
  tally_result = some sums_held;
}

abbrev w4 : World ℕ ℕ
w4 = (handle_partial_decryption group same w3 keys (7 ∷ []) submission 200 true true).0

w1-started : w1.ceremony ≡ some started
unfolding bytes_eq lookup insert repeat named new_state handle_start start_sealed start_saved
    in_progress save marshal marshal_trustees marshal_partials run_tally_fetched ballots_to_tally
    active_only store_state set_phase run_tally_summed compute_tally add_ballots add_vector
    empty_sums handle_partial_decryption submit verify_submission accept decode_partials
    slot_contexts slot_contexts_from all_set verify_slots decrypt_locked
w1-started = refl

w2-counted : w2.ceremony ≡ some counted
unfolding bytes_eq lookup insert repeat named new_state handle_start start_sealed start_saved
    in_progress save marshal marshal_trustees marshal_partials run_tally_fetched ballots_to_tally
    active_only store_state set_phase run_tally_summed compute_tally add_ballots add_vector
    empty_sums handle_partial_decryption submit verify_submission accept decode_partials
    slot_contexts slot_contexts_from all_set verify_slots decrypt_locked
w2-counted = refl

w4-submitted : w4.ceremony ≡ some submitted_once
unfolding bytes_eq lookup insert repeat named new_state handle_start start_sealed start_saved
    in_progress save marshal marshal_trustees marshal_partials run_tally_fetched ballots_to_tally
    active_only store_state set_phase run_tally_summed compute_tally add_ballots add_vector
    empty_sums handle_partial_decryption submit verify_submission accept decode_partials
    slot_contexts slot_contexts_from all_set verify_slots decrypt_locked hex_decode hex_encode
    otvoren_vot.Tally.State.value_of ciphertext_from_bytes decode_element decode_proof_hex
    decode_scalar verify_partial otvoren_vot.Crypto.Feldman.check_index verify_chaum_pedersen
    fiat_shamir
w4-submitted = refl

Reaches-four : Reaches group same keys one_party w4
unfolding new_state
Reaches-four =
    moves w3 w4
      (moves w2 w3
        (moves w1 w2
          (moves before w1 initial
            (starts before (1 ∷ []) (7 ∷ []) 100 (some ((9 ∷ []) ∷ [])) (some true) true true))
          (fetches w1 started (some ballots) true w1-started refl))
        (sums w2 counted ballots true w2-counted refl))
      (submits w3 (7 ∷ []) submission 200 true true)

Reaches-IsValid_example : IsValid group same keys submitted_once
Reaches-IsValid_example =
    Reaches-IsValid group same keys one_party w4 submitted_once sums_held Reaches-four w4-submitted
      refl
