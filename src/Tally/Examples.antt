-- ===== src/Tally/Examples.antt =====
-- The theorems on tally at a ceremony of five trustees over a ballot without parties, run from the start.
use otvoren_vot.Prelude.{
  ℕ, true, List, [], ◌∷◌, Option, none, some, Bytes, bytes_eq, repeat, lookup, insert, nat_Eq,
  success, failure, ◌≡◌, refl, arith,
}
use otvoren_vot.Crypto.Numbers.{numbers}
use otvoren_vot.Tally.State.{
  tallying, decrypted, finalized, State, StateJson, TallyResult, new_state, marshal,
  marshal_trustees, marshal_partials,
}
use otvoren_vot.Tally.Compute.{
  SerializedBallot, compute_tally, add_ballots, add_vector, empty_sums, decrypt_tally,
  decrypt_slots,
}
use otvoren_vot.Tally.Submission.{
  Submission, decode_partials, slot_contexts, slot_contexts_from, all_set, verify_slots,
}
use otvoren_vot.Tally.Journal.{World, save, store_state, set_phase, named}
use otvoren_vot.Tally.Start.{
  handle_start, start_sealed, start_saved, in_progress, run_tally_fetched, run_tally_summed,
  ballots_to_tally, active_only,
}
use otvoren_vot.Tally.Handler.{
  submit, verify_submission, accept, decrypt_locked, handle_partial_decryption, handle_finalize,
  handle_results,
}
use otvoren_vot.Tally.Lifecycle.{IsValid}
use otvoren_vot.Tally.Reach.{
  starts, fetches, sums, submits, Reaches, initial, moves, Reaches-IsValid,
}
use otvoren_vot.Tally.Answers.{refusal-keeps, finalize-decrypted}

abbrev same : Bytes → Bytes
same bytes = bytes

abbrev keys : List (ℕ × ℕ)
keys = (1, 11) ∷ (2, 12) ∷ (3, 13) ∷ (4, 14) ∷ (5, 15) ∷ []

abbrev no_parties : Bytes → Option (List Bytes)
no_parties bytes = some []

abbrev started : State ℕ ℕ
started = record (new_state (7 ∷ []) (1 ∷ []) 100) { active_set = (9 ∷ []) ∷ [] }

abbrev before : World ℕ ℕ
before = record { ceremony = none; journal = none }

abbrev w1 : World ℕ ℕ
w1 =
    (handle_start numbers before (1 ∷ []) (7 ∷ []) 100 (some ((9 ∷ []) ∷ [])) (some true) true
      true).0

w1-started : w1.ceremony ≡ some started
unfolding handle_start start_sealed start_saved in_progress save marshal marshal_trustees new_state
w1-started = refl

abbrev ballots : List SerializedBallot
ballots = record { ballot_id = 9 ∷ []; encrypted_ballot = [] } ∷ []

abbrev w2 : World ℕ ℕ
w2 = (run_tally_fetched numbers w1 started (some ballots) true).0

abbrev counted : State ℕ ℕ
counted = record started { ballot_count = 1; phase = tallying }

w2-counted : w2.ceremony ≡ some counted
unfolding run_tally_fetched ballots_to_tally active_only store_state new_state bytes_eq
w2-counted = refl

abbrev w3 : World ℕ ℕ
w3 = run_tally_summed numbers w2 counted (compute_tally numbers no_parties ballots) true

abbrev submission : ℕ → Option Submission
submission trustee = some (record { trustee_index = trustee; partials = [] })

abbrev submits_next : World ℕ ℕ → ℕ → World ℕ ℕ
submits_next w trustee =
    (handle_partial_decryption numbers same w keys (7 ∷ []) (submission trustee) 200 true true).0

abbrev w8 : World ℕ ℕ
w8 = submits_next (submits_next (submits_next (submits_next (submits_next w3 1) 2) 3) 4) 5

Reaches-three : Reaches numbers same keys no_parties w3
unfolding new_state
Reaches-three =
    moves w2 w3
      (moves w1 w2
        (moves before w1 initial
          (starts before (1 ∷ []) (7 ∷ []) 100 (some ((9 ∷ []) ∷ [])) (some true) true true))
        (fetches w1 started (some ballots) true w1-started refl))
      (sums w2 counted ballots true w2-counted refl)

submits-Reaches :
    (w : World ℕ ℕ) (trustee : ℕ)
    → Reaches numbers same keys no_parties w
    → Reaches numbers same keys no_parties (submits_next w trustee)
submits-Reaches w trustee p =
    moves w (submits_next w trustee) p (submits w (7 ∷ []) (submission trustee) 200 true true)

Reaches-eight : Reaches numbers same keys no_parties w8
Reaches-eight = submits-Reaches _ 5 (
    submits-Reaches _ 4
      (submits-Reaches _ 3 (submits-Reaches _ 2 (submits-Reaches w3 1 Reaches-three))))

abbrev no_sums : TallyResult ℕ
no_sums = record { encrypted_sums = []; num_ballots = 1; num_parties = 0 }

abbrev decided : State ℕ ℕ
decided = record {
  id = 7 ∷ [];
  phase = decrypted;
  election_id = 1 ∷ [];
  active_set = (9 ∷ []) ∷ [];
  ballot_count = 1;
  party_count = 0;
  partials = (1, []) ∷ (2, []) ∷ (3, []) ∷ (4, []) ∷ (5, []) ∷ [];
  trustee_order = 1 ∷ 2 ∷ 3 ∷ 4 ∷ 5 ∷ [];
  results = [];
  started_at = 100;
  decrypted_at = some 200;
  tally_result = some no_sums;
}

w8-decided : w8.ceremony ≡ some decided
unfolding bytes_eq lookup insert repeat named new_state handle_start start_sealed start_saved
    in_progress save marshal marshal_trustees marshal_partials run_tally_fetched ballots_to_tally
    active_only store_state set_phase run_tally_summed compute_tally add_ballots add_vector
    empty_sums handle_partial_decryption submit verify_submission accept decode_partials
    slot_contexts slot_contexts_from all_set verify_slots decrypt_locked decrypt_tally decrypt_slots
w8-decided = refl

published : handle_results w8 (7 ∷ []) ≡ success []
unfolding bytes_eq lookup insert repeat named new_state handle_start start_sealed start_saved
    in_progress save marshal marshal_trustees marshal_partials run_tally_fetched ballots_to_tally
    active_only store_state set_phase run_tally_summed compute_tally add_ballots add_vector
    empty_sums handle_partial_decryption submit verify_submission accept decode_partials
    slot_contexts slot_contexts_from all_set verify_slots decrypt_locked decrypt_tally decrypt_slots
    handle_results
published = refl

w8-IsValid : IsValid numbers same keys decided
w8-IsValid =
    Reaches-IsValid numbers same keys no_parties w8 decided no_sums Reaches-eight w8-decided refl

-- A submission of a trustee that has no key.
unknown :
    (handle_partial_decryption numbers same w3 keys (7 ∷ []) (submission 6) 200 true true).1
    ≡ failure 400 "unknown_trustee"
unfolding bytes_eq lookup insert repeat named new_state handle_start start_sealed start_saved
    in_progress save marshal marshal_trustees marshal_partials run_tally_fetched ballots_to_tally
    active_only store_state set_phase run_tally_summed compute_tally add_ballots add_vector
    empty_sums handle_partial_decryption submit verify_submission accept decode_partials
    slot_contexts slot_contexts_from all_set verify_slots decrypt_locked decrypt_tally decrypt_slots
unknown = refl

refusal-keeps_example :
    (handle_partial_decryption numbers same w3 keys (7 ∷ []) (submission 6) 200 true true).0 ≡ w3
refusal-keeps_example =
    refusal-keeps numbers same keys w3 (7 ∷ []) (submission 6) 200 true true 400 "unknown_trustee"
      unknown (omega arith)

final : (handle_finalize numbers w8 (7 ∷ []) true).1 ≡ success tt
unfolding bytes_eq lookup insert repeat named new_state handle_start start_sealed start_saved
    in_progress save marshal marshal_trustees marshal_partials run_tally_fetched ballots_to_tally
    active_only store_state set_phase run_tally_summed compute_tally add_ballots add_vector
    empty_sums handle_partial_decryption submit verify_submission accept decode_partials
    slot_contexts slot_contexts_from all_set verify_slots decrypt_locked decrypt_tally decrypt_slots
    handle_finalize
final = refl

finalize-decrypted_example :
    (cs : State ℕ ℕ) × (saved : StateJson) × (w8.ceremony ≡ some cs)
    × (cs.id ≡ 7 ∷ [])
    × (cs.phase ≡ decrypted)
    × (marshal numbers (record cs { phase = finalized }) ≡ some saved)
    × ((handle_finalize numbers w8 (7 ∷ []) true).0
        ≡ record { ceremony = some (record cs { phase = finalized }); journal = some saved })
finalize-decrypted_example = finalize-decrypted numbers same keys w8 (7 ∷ []) true final
