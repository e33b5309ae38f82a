-- ===== src/Tally/Start.antt =====
-- tally/handler.go: `handleStart`, and `runTally`, which holds the mutex twice and so is two steps. The
-- clock, the board's answers and whether a write of the journal succeeds are arguments.
use otvoren_vot.Prelude.{
  ℕ, Bool, true, false, not, ◌&&◌, ◌||◌, List, [], ◌∷◌, Option, none, some, Bytes, length, ◌==◌,
  bytes_eq, if◌then◌else◌, nat_Eq, bytes_Eq, success, failure,
}
use otvoren_vot.Crypto.Group.{Ristretto}
use otvoren_vot.Tally.State.{
  tallying, awaiting_trustees, finalized, failed, State, TallyResult, new_state,
}
use otvoren_vot.Tally.Compute.{SerializedBallot}
use otvoren_vot.Tally.Journal.{World, phase_is, Step, save, store_state, set_phase}

-- The filter of `runTally`.
unfoldable pub active_only : List Bytes → List SerializedBallot → List SerializedBallot
active_only ids [] = []
active_only ids (b ∷ ballots) =
    let rest = active_only ids ballots in if contains b.ballot_id ids then b ∷ rest else rest
  where
    contains : Bytes → List Bytes → Bool
    contains id [] = false
    contains id (x ∷ xs) = bytes_eq x id || contains id xs

unfoldable pub ballots_to_tally : List Bytes → List SerializedBallot → List SerializedBallot
unfolding active_only
ballots_to_tally active ballots = elim (length active == 0) [
  | true ↦ ballots
  | false ↦ active_only active ballots
]

-- The guard against a second start.
unfoldable pub in_progress : {S E : Type 0} → Option (State S E) → Bool
in_progress none = false
in_progress (some cs) = not (phase_is cs.phase failed) && not (phase_is cs.phase finalized)

module _ {S E : Type 0} (r : Ristretto S E) where
  -- The two writes of the journal: in `NewCeremonyState`, and with the active set.
  unfoldable pub start_saved : World S E → State S E → List Bytes → Bool → Bool → Step S E Bytes
  unfolding save
  start_saved w cs active created written =
      let (journal, ok1) = save r cs w.journal created in
      let with_set : State S E = record cs { active_set = active } in
      let (journal', ok2) = save r with_set journal written in
      if not ok1
      then (record w { journal = journal }, failure 500 "state_error")
      else if not ok2
      then (record w { journal = journal' }, failure 500 "state_error")
      else (record { ceremony = some with_set; journal = journal' }, success cs.id)

  unfoldable pub start_sealed :
      World S E → Bytes → Bytes → ℕ → List Bytes → Option Bool → Bool → Bool → Step S E Bytes
  unfolding start_saved
  start_sealed w election_id id now active none created written = (w, failure 502 "bb_unavailable")
  start_sealed w election_id id now active (some false) created written =
      (w, failure 409 "board_not_sealed")
  start_sealed w election_id id now active (some true) created written =
      start_saved w (new_state id election_id now) active created written

  -- `handleStart`, for the election and the fresh id: the request's active set, the board's answer.
  unfoldable pub handle_start :
      World S E
      → Bytes
      → Bytes
      → ℕ
      → Option (List Bytes)
      → Option Bool
      → Bool
      → Bool
      → Step S E Bytes
  unfolding start_sealed
  handle_start w election_id id now none board created written = (w, failure 400 "invalid_body")
  handle_start w election_id id now (some active) board created written =
      elim (length active == 0) [
        | true ↦ (w, failure 400 "empty_active_set")
        | false ↦ elim (in_progress w.ceremony) [
          | true ↦ (w, failure 409 "ceremony_in_progress")
          | false ↦ start_sealed w election_id id now active board created written
        ]
      ]

  -- `runTally` up to the tally: the error phase, or the ballots that it goes on with.
  unfoldable pub run_tally_fetched :
      World S E
      → State S E
      → Option (List SerializedBallot)
      → Bool
      → World S E × Option (List SerializedBallot)
  unfolding set_phase store_state ballots_to_tally
  run_tally_fetched w cs none written = ((set_phase r w cs failed written).0, none)
  run_tally_fetched w cs (some ballots) written =
      let active = ballots_to_tally cs.active_set ballots in
      elim (length active == 0) [
        | true ↦ ((set_phase r w cs failed written).0, none)
        | false ↦ (
          (store_state r w (record cs { ballot_count = length active; phase = tallying })
              written).0,
          some active,
        )
      ]

  -- `runTally` after the tally.
  unfoldable pub run_tally_summed :
      World S E → State S E → Option (TallyResult E) → Bool → World S E
  unfolding set_phase
  run_tally_summed w cs none written = (set_phase r w cs failed written).0
  run_tally_summed w cs (some tr) written =
      (set_phase r w
        (record cs {
          tally_result = some tr;
          party_count = tr.num_parties;
          partials = [];
          trustee_order = [];
        })
        awaiting_trustees written).0
