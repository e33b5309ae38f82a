-- ===== src/Tally/Reach.antt =====
-- The states that the ceremony of tally/handler.go reaches.
use otvoren_vot.Prelude.{
  ℕ, Bool, true, false, List, [], Option, none, some, Bytes, length, ◌==◌, nat_Eq, ◌≡◌, refl, subst,
  inl, inr, Bool-cases,
}
use otvoren_vot.Crypto.Group.{Ristretto}
use otvoren_vot.Tally.State.{
  fetching, tallying, decrypted, finalized, failed, State, TallyResult, new_state,
}
use otvoren_vot.Tally.Compute.{SerializedBallot, compute_tally}
use otvoren_vot.Tally.Submission.{Submission}
use otvoren_vot.Tally.Journal.{
  World, Step, phase_is, store_state, set_phase, save, new_ceremony_handler,
}
use otvoren_vot.Tally.Start.{
  handle_start, run_tally_fetched, run_tally_summed, start_sealed, start_saved, in_progress,
  ballots_to_tally,
}
use otvoren_vot.Tally.Handler.{handle_partial_decryption, handle_finalize, accept}
use otvoren_vot.Tally.Cases.{phase_is_sound, handle_partial_decryption_cases, named_cases}
use otvoren_vot.Tally.Lifecycle.{
  is_decided, IsValid, empty-IsValid, submitted-IsValid, accept-OnCeremony,
}
use otvoren_vot.Tally.Recovered.{
  IsCovered, Covered, covers, phase-IsCovered, no_contexts, restarted-Covered,
}

module _ {S E : Type 0} (r : Ristretto S E) (sha256 : Bytes → Bytes) (keys : List (ℕ × E))
    (parse_ballot : Bytes → Option (List Bytes)) where
  -- One request, one of the two steps of `runTally` on the ceremony that it was started for, or a restart
  -- of the service, which recovers the ceremony of the journal without its encrypted sums.
  pub data Moves : World S E → World S E → Type 0 where
    starts :
        (w : World S E) (election_id id : Bytes) (now : ℕ) (active : Option (List Bytes))
        (board : Option Bool) (a b : Bool)
        → Moves w (handle_start r w election_id id now active board a b).0
    fetches :
        (w : World S E) (cs : State S E) (ballots : Option (List SerializedBallot)) (a : Bool)
        → w.ceremony ≡ some cs
        → cs.phase ≡ fetching
        → Moves w (run_tally_fetched r w cs ballots a).0
    sums :
        (w : World S E) (cs : State S E) (ballots : List SerializedBallot) (a : Bool)
        → w.ceremony ≡ some cs
        → cs.phase ≡ tallying
        → Moves w (run_tally_summed r w cs (compute_tally r parse_ballot ballots) a)
    submits :
        (w : World S E) (id : Bytes) (request : Option Submission) (now : ℕ) (a b : Bool)
        → Moves w (handle_partial_decryption r sha256 w keys id request now a b).0
    finalizes : (w : World S E) (id : Bytes) (a : Bool) → Moves w (handle_finalize r w id a).0
    restarts :
        (w v : World S E) (readable : Bool)
        → new_ceremony_handler r w.journal readable ≡ some v
        → Moves w v

  pub data Reaches : World S E → Type 0 where
    initial : Reaches (record { ceremony = none; journal = none })
    moves : (w v : World S E) → Reaches w → Moves w v → Reaches v

  fetched-Covered :
      (w : World S E) (cs : State S E) (ballots : Option (List SerializedBallot)) (a : Bool)
      → cs.phase ≡ fetching
      → IsCovered r sha256 keys cs
      → Covered r sha256 keys (run_tally_fetched r w cs ballots a).0.ceremony
  unfolding run_tally_fetched set_phase store_state
  fetched-Covered w cs none a p v =
      phase-IsCovered r sha256 keys cs failed cs.ballot_count v (λ h. cc)
  fetched-Covered w cs (some ballots) a p v =
      elim (Bool-cases (length (ballots_to_tally cs.active_set ballots) == 0)) [
        | inl e ↦
            rw (e, run_tally_fetched)
              (phase-IsCovered r sha256 keys cs failed cs.ballot_count v (λ h. cc))
        | inr e ↦
            rw (e, run_tally_fetched)
              (phase-IsCovered r sha256 keys cs tallying
                (length (ballots_to_tally cs.active_set ballots)) v (λ h. cc))
      ]

  summed-Covered :
      (w : World S E) (cs : State S E) (tr : Option (TallyResult E)) (a : Bool)
      → IsCovered r sha256 keys cs
      → Covered r sha256 keys (run_tally_summed r w cs tr a).ceremony
  unfolding run_tally_summed set_phase store_state
  summed-Covered w cs none a v = phase-IsCovered r sha256 keys cs failed cs.ballot_count v (λ h. cc)
  summed-Covered w cs (some tr) a v = inr (empty-IsValid r sha256 keys _ refl refl refl)

  saved-Covered :
      (w : World S E) (cs : State S E) (active : List Bytes) (a b : Bool)
      → Covered r sha256 keys w.ceremony
      → cs.partials ≡ []
      → cs.trustee_order ≡ []
      → is_decided cs.phase ≡ false
      → Covered r sha256 keys (start_saved r w cs active a b).0.ceremony
  unfolding start_saved
  saved-Covered w cs active a b u p o d = elim (Bool-cases (save r cs w.journal a).1) [
    | inr s ↦ rw (s, start_saved) u
    | inl s ↦
        elim (Bool-cases
          (save r (record cs { active_set = active }) (save r cs w.journal a).0 b).1) [
            | inr t ↦ rw (s, start_saved) (rw (t) u)
            | inl t ↦
                rw (s, start_saved)
                  (rw (t)
                    (inr (empty-IsValid r sha256 keys (record cs { active_set = active }) p o d)))
          ]
  ]

  sealed-Covered :
      (w : World S E) (election_id id : Bytes) (now : ℕ) (active : List Bytes) (board : Option Bool)
      (a b : Bool)
      → Covered r sha256 keys w.ceremony
      → Covered r sha256 keys (start_sealed r w election_id id now active board a b).0.ceremony
  unfolding start_sealed new_state
  sealed-Covered w election_id id now active none a b u = u
  sealed-Covered w election_id id now active (some false) a b u = u
  sealed-Covered w election_id id now active (some true) a b u =
      saved-Covered w (new_state id election_id now) active a b u refl refl refl

  start-Covered :
      (w : World S E) (election_id id : Bytes) (now : ℕ) (active : Option (List Bytes))
      (board : Option Bool) (a b : Bool)
      → Covered r sha256 keys w.ceremony
      → Covered r sha256 keys (handle_start r w election_id id now active board a b).0.ceremony
  unfolding handle_start
  start-Covered w election_id id now none board a b u = u
  start-Covered w election_id id now (some active) board a b u =
      elim (Bool-cases (length active == 0)) [
        | inl e ↦ rw (e, handle_start) u
        | inr e ↦ elim (Bool-cases (in_progress w.ceremony)) [
          | inl q ↦ rw (e, handle_start) (rw (q) u)
          | inr q ↦
              rw (e, handle_start) (rw (q) (sealed-Covered w election_id id now active board a b u))
        ]
      ]

  ceremony-IsCovered :
      (w : World S E) (cs : State S E)
      → Covered r sha256 keys w.ceremony
      → w.ceremony ≡ some cs
      → IsCovered r sha256 keys cs
  ceremony-IsCovered w cs u e = subst (λ o. Covered r sha256 keys o) e u

  finalize-Covered :
      (w : World S E) (id : Bytes) (a : Bool)
      → Covered r sha256 keys w.ceremony
      → Covered r sha256 keys (handle_finalize r w id a).0.ceremony
  unfolding handle_finalize set_phase store_state
  finalize-Covered w id a u =
      named_cases {A = Step S E (Unit {0})} (λ x. Covered r sha256 keys x.0.ceremony) w.ceremony id
        _ _ u
        (λ cs e. elim (Bool-cases (phase_is cs.phase decrypted)) [
          | inr p ↦ rw (p) u
          | inl p ↦ rw (p) (
              phase-IsCovered r sha256 keys cs finalized cs.ballot_count
                (ceremony-IsCovered w cs u e) (λ h. rw (phase_is_sound cs.phase decrypted p) refl))
        ])

  submit-Covered :
      (w : World S E) (id : Bytes) (request : Option Submission) (now : ℕ) (a b : Bool)
      → Covered r sha256 keys w.ceremony
      → Covered r sha256 keys
          (handle_partial_decryption r sha256 w keys id request now a b).0.ceremony
  submit-Covered w id request now a b u =
      handle_partial_decryption_cases r sha256 keys (λ x. Covered r sha256 keys x.0.ceremony) w id
        request now a b (λ c code h. u) (λ cs req old e h. u)
        (λ cs req key pds contexts sums e p k n s v. elim (ceremony-IsCovered w cs u e) [
          | inl none_kept ↦ absurd (no_contexts r sha256 keys cs (contexts, sums) none_kept s)
          | inr valid ↦
              covers r sha256 keys
                (accept r sha256 w cs keys req.trustee_index pds now a b).0.ceremony
                (accept-OnCeremony r sha256 keys w cs req.trustee_index pds now a b (
                  submitted-IsValid r sha256 keys cs req.trustee_index key pds contexts sums valid p
                    k n s v))
        ])

  moves-Covered :
      (w v : World S E)
      → Moves w v
      → Covered r sha256 keys w.ceremony
      → Covered r sha256 keys v.ceremony
  moves-Covered _ _ (starts w election_id id now active board a b) u =
      start-Covered w election_id id now active board a b u
  moves-Covered _ _ (fetches w cs ballots a e p) u =
      fetched-Covered w cs ballots a p (ceremony-IsCovered w cs u e)
  moves-Covered _ _ (sums w cs ballots a e p) u =
      summed-Covered w cs (compute_tally r parse_ballot ballots) a (ceremony-IsCovered w cs u e)
  moves-Covered _ _ (submits w id request now a b) u = submit-Covered w id request now a b u
  moves-Covered _ _ (finalizes w id a) u = finalize-Covered w id a u
  moves-Covered _ _ (restarts w v readable h) u =
      restarted-Covered r sha256 keys w.journal readable v h

  Reaches-Covered : (w : World S E) → Reaches w → Covered r sha256 keys w.ceremony
  Reaches-Covered _ initial = tt
  Reaches-Covered _ (moves w v p m) = moves-Covered w v m (Reaches-Covered w p)

  -- In every state that the service reaches, restarts from the journal included, a ceremony that holds
  -- encrypted sums is valid: the trustees that submitted are distinct and one for each entry of the
  -- partials, every stored partial was verified slot by slot under its trustee's key, and once the phase
  -- is decrypted or finalized, at least five trustees submitted and the results are the decryption of the
  -- first five trustees' partials.
  pub Reaches-IsValid :
      (w : World S E) (cs : State S E) (tr : TallyResult E)
      → Reaches w
      → w.ceremony ≡ some cs
      → cs.tally_result ≡ some tr
      → IsValid r sha256 keys cs
  Reaches-IsValid w cs tr p e holds = elim (ceremony-IsCovered w cs (Reaches-Covered w p) e) [
    | inl none_kept ↦ cc
    | inr v ↦ v
  ]
