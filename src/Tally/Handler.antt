-- ===== src/Tally/Handler.antt =====
-- tally/handler.go: the endpoints of a running ceremony. Each handler holds the mutex while it reads and
-- changes the ceremony, so it is one step. The clock and whether a write of the journal succeeds are
-- arguments. A request that does not parse is none.
use otvoren_vot.Prelude.{
  ℕ, Bool, true, false, ◌||◌, List, [], ◌∷◌, ◌++◌, Option, none, some, Bytes, length, take, repeat,
  ltb, leb, ◌==◌, if◌then◌else◌, lookup, insert, nat_Eq, bytes_Eq, Reply, success, failure,
}
use otvoren_vot.Crypto.Group.{Ristretto}
use otvoren_vot.Crypto.Threshold.{Partial}
use otvoren_vot.Tally.State.{Phase, awaiting_trustees, decrypted, finalized, State}
use otvoren_vot.Tally.Compute.{decrypt_tally}
use otvoren_vot.Tally.Submission.{
  Submission, decoded, refused, decode_partials, slot_contexts, verify_slots,
}
use otvoren_vot.Tally.Journal.{World, phase_is, named, Step, store_state, set_phase}

-- decryptionThreshold
abbrev pub decryption_threshold : ℕ
decryption_threshold = 5

pub data Answer : Type 0 where
  accepted already_submitted : Answer

module _ {S E : Type 0} (r : Ristretto S E) where
  -- `decryptLocked`; the Boolean says that there was no error.
  unfoldable pub decrypt_locked :
      (Bytes → Bytes) → World S E → State S E → List (ℕ × E) → ℕ → Bool → World S E × Bool
  unfolding set_phase
  decrypt_locked sha256 w cs keys now written = elim (slot_contexts r sha256 cs) [
    | none ↦ (w, false)
    | some (contexts, sums) ↦ elim (ltb (length cs.trustee_order) decryption_threshold) [
      | true ↦ (w, false)
      | false ↦
          elim (decrypt_tally r sums contexts cs.partials
            (take decryption_threshold cs.trustee_order) keys decryption_threshold) [
              | none ↦ (w, false)
              | some results ↦
                  set_phase r w (record cs { results = results; decrypted_at = some now }) decrypted
                    written
            ]
    ]
  ]

  -- The submission that verified: stored, and the tally decrypted when it completes the quorum.
  unfoldable pub accept :
      (Bytes → Bytes)
      → World S E
      → State S E
      → List (ℕ × E)
      → ℕ
      → List (Option (Partial S E))
      → ℕ
      → Bool
      → Bool
      → Step S E Answer
  unfolding store_state decrypt_locked
  accept sha256 w cs keys trustee pds now written decrypt_written =
      let cs' : State S E = record cs {
        partials = insert trustee pds cs.partials;
        trustee_order = cs.trustee_order ++ trustee ∷ [];
      } in
      let (w', saved) = store_state r w cs' written in
      elim saved [
        | false ↦ (w', failure 500 "state_error")
        | true ↦ elim (leb decryption_threshold (length cs'.partials)) [
          | false ↦ (w', success accepted)
          | true ↦
              let (w'', decrypted_ok) = decrypt_locked sha256 w' cs' keys now decrypt_written in
              (w'', if decrypted_ok then success accepted else failure 500 "decrypt_error")
        ]
      ]

  -- The submission that decoded.
  unfoldable pub verify_submission :
      (Bytes → Bytes)
      → World S E
      → State S E
      → List (ℕ × E)
      → E
      → ℕ
      → List (Option (Partial S E))
      → ℕ
      → Bool
      → Bool
      → Step S E Answer
  verify_submission sha256 w cs keys key trustee pds now written decrypt_written =
      elim (slot_contexts r sha256 cs) [
        | none ↦ (w, failure 503 "tally_unavailable")
        | some (contexts, sums) ↦ elim (verify_slots r contexts sums key pds) [
          | false ↦ (w, failure 422 "invalid_partial_proof")
          | true ↦ accept sha256 w cs keys trustee pds now written decrypt_written
        ]
      ]

  unfoldable pub submit :
      (Bytes → Bytes)
      → World S E
      → List (ℕ × E)
      → Submission
      → ℕ
      → Bool
      → Bool
      → State S E
      → Step S E Answer
  submit sha256 w keys req now written decrypt_written cs =
      elim (phase_is cs.phase awaiting_trustees) [
        | false ↦ (w, failure 409 "wrong_phase")
        | true ↦ elim (lookup req.trustee_index keys) [
          | none ↦ (w, failure 400 "unknown_trustee")
          | some key ↦ elim (lookup req.trustee_index cs.partials) [
            | some old ↦ (w, success already_submitted)
            | none ↦ elim (length req.partials == cs.party_count) [
              | false ↦ (w, failure 400 "wrong_party_count")
              | true ↦
                  elim (decode_partials r req.trustee_index cs.party_count
                    (repeat cs.party_count none) req.partials) [
                      | refused code ↦ (w, failure 400 code)
                      | decoded pds ↦
                          verify_submission sha256 w cs keys key req.trustee_index pds now written
                            decrypt_written
                    ]
            ]
          ]
        ]
      ]

  -- `handlePartialDecryption`, with the trustees' keys.
  unfoldable pub handle_partial_decryption :
      (Bytes → Bytes)
      → World S E
      → List (ℕ × E)
      → Bytes
      → Option Submission
      → ℕ
      → Bool
      → Bool
      → Step S E Answer
  unfolding named submit
  handle_partial_decryption sha256 w keys id none now written decrypt_written =
      (w, failure 400 "invalid_body")
  handle_partial_decryption sha256 w keys id (some req) now written decrypt_written =
      named w.ceremony id (w, failure 404 "not_found")
        (submit sha256 w keys req now written decrypt_written)

  unfoldable pub handle_finalize : World S E → Bytes → Bool → Step S E (Unit {0})
  unfolding named set_phase
  handle_finalize w id written =
      named w.ceremony id (w, failure 404 "not_found")
        (λ cs. elim (phase_is cs.phase decrypted) [
          | false ↦ (w, failure 409 "wrong_phase")
          | true ↦
              let (w', saved) = set_phase r w cs finalized written in
              (w', if saved then success tt else failure 500 "state_error")
        ])

-- `handleResults`: the results.
unfoldable pub handle_results : {S E : Type 0} → World S E → Bytes → Reply (List ℕ)
unfolding named
handle_results w id = named w.ceremony id (failure 404 "not_found") (λ cs.
    elim (phase_is cs.phase decrypted || phase_is cs.phase finalized) [
      | true ↦ success cs.results
      | false ↦ failure 409 "not_decrypted"
    ])

-- `handleStatus`: the phase, the number of trustees who have submitted and the results.
unfoldable pub handle_status : {S E : Type 0} → World S E → Bytes → Reply (Phase × ℕ × List ℕ)
unfolding named
handle_status w id =
    named w.ceremony id (failure 404 "not_found")
      (λ cs. success (cs.phase, length cs.partials, cs.results))
