-- ===== src/Collection/Replays.antt =====
-- collection/store/postgres.go against votermap.go: each call, and every database that calls lead to.
use otvoren_vot.Prelude.{
  ℕ, [], Bytes, bytes_Eq, lookup, length, ◌≡◌, refl, sym, ap, subst, ◌∙◌, true,
}
use otvoren_vot.Collection.Votermap.{
  Channel, MemoryStore, new_memory_store, history_of, record_vote, get_active_ballot_id,
  get_override_history, has_voted, active_set, store_size, ballot_ids,
}
use otvoren_vot.Collection.Chains.{
  Reaches, started, voted, Reaches-IsValid_store, history_of-Verified,
}
use otvoren_vot.Collection.Audit.{verify_entries, verify_hash_chain}
use otvoren_vot.Collection.Postgres.{
  Database, PostgresStore, Outcome, committed, rolled_back, answer_lost, answer_of, stored,
  select_voter, select_history, order_by_seq, record_ballot, active_ballot, exists_voter,
  select_active_set, count_voters, override_history,
}
use otvoren_vot.Collection.Rows.{
  mapping_of, select_voter_lem, ballots_of_lem, count_voters_lem, order_by_seq_numbered,
}
use otvoren_vot.Collection.Refines.{Refines, after_vote, record_ballot_lem, after_vote-Refines}

-- The memory store after a call of `Record`.
abbrev pub replayed : Outcome → MemoryStore → MemoryStore → MemoryStore
replayed committed before after = after
replayed rolled_back before after = before
replayed answer_lost before after = after

module _ (hmac : Bytes → Bytes → Bytes) (s : PostgresStore) where
  -- A call of `Record` on tables that hold a memory store goes through, answers with the ballot that the
  -- memory store's `Record` gives where the commit is answered, and leaves the memory store after that
  -- call, or the one before where the transaction is rolled back.
  pub record_ballot-Refines :
      (db : Database) (ms : MemoryStore) (egn ballot : Bytes) (channel : Channel) (at : ℕ)
      (outcome : Outcome)
      → Refines s db ms
      → ((record_ballot hmac s db egn ballot channel at outcome).1
          ≡ answer_of outcome (record_vote hmac ms egn ballot channel at).1)
        × Refines s
            (record_ballot hmac s db egn ballot channel at outcome).0
            (replayed outcome ms (record_vote hmac ms egn ballot channel at).0)
  record_ballot-Refines db ms egn ballot channel at outcome refines =
      let step = record_ballot_lem hmac s egn ballot channel at db ms outcome refines in
      (
        ap (λ p. p.1) step ∙ (unfold record_vote in refl),
        subst
            (λ p. Refines s p.0 (replayed outcome ms (record_vote hmac ms egn ballot channel at).0))
            (sym step) (kept outcome),
      )
    where
      kept :
          (o : Outcome)
          → Refines s
              (stored o db (after_vote hmac s egn ballot channel at db ms))
              (replayed o ms (record_vote hmac ms egn ballot channel at).0)
      kept committed = after_vote-Refines hmac s egn ballot channel at db ms refines
      kept rolled_back = refines
      kept answer_lost = after_vote-Refines hmac s egn ballot channel at db ms refines

  -- The databases that calls of `Record` lead to from one without a row of the election.
  pub data Runs : Database → Type 0 where
    opened :
        (db : Database)
        → mapping_of s.election_id db.voters ≡ []
        → ((egn : Bytes) → select_history egn s.election_id db.history ≡ [])
        → Runs db
    recorded :
        (db : Database) (egn ballot : Bytes) (channel : Channel) (at : ℕ) (outcome : Outcome)
        → Runs db
        → Runs (record_ballot hmac s db egn ballot channel at outcome).0

  abbrev pub Simulated : Database → Type 0
  Simulated db = (ms : MemoryStore) × Reaches hmac s.history_hmac_key ms × Refines s db ms

  Simulated-recorded :
      (db : Database) (egn ballot : Bytes) (channel : Channel) (at : ℕ) (outcome : Outcome)
      → Simulated db
      → Simulated (record_ballot hmac s db egn ballot channel at outcome).0
  Simulated-recorded db egn ballot channel at outcome (ms, reached, refines) = (
    replayed outcome ms (record_vote hmac ms egn ballot channel at).0,
    reaches outcome,
    (record_ballot-Refines db ms egn ballot channel at outcome refines).1,
  )
    where
      reaches :
          (o : Outcome)
          → Reaches hmac s.history_hmac_key
              (replayed o ms (record_vote hmac ms egn ballot channel at).0)
      reaches committed = voted ms egn ballot channel at reached
      reaches rolled_back = reached
      reaches answer_lost = voted ms egn ballot channel at reached

  pub Runs-Simulated : {db : Database} → Runs db → Simulated db
  Runs-Simulated (opened db voters history) = (
    new_memory_store s.history_hmac_key,
    started,
    unfold new_memory_store history_of lookup in
        record {
          same_key = refl;
          same_mapping = voters;
          same_history = history;
          numbered = λ egn. tt;
        },
  )
  Runs-Simulated (recorded db egn ballot channel at outcome run) =
      Simulated-recorded db egn ballot channel at outcome (Runs-Simulated run)

  -- The reads answer as those of the memory store.
  abbrev pub ReadsAlike : Database → MemoryStore → Type 0
  ReadsAlike db ms =
      ((egn : Bytes)
        → (active_ballot s db egn ≡ get_active_ballot_id ms egn)
          × (override_history s db egn ≡ get_override_history ms egn)
          × (exists_voter s db egn ≡ has_voted ms egn))
      × (select_active_set s db ≡ active_set ms)
      × (count_voters s db ≡ store_size ms)

  select_voter-Refines :
      (db : Database) (ms : MemoryStore) (egn : Bytes)
      → Refines s db ms
      → select_voter egn s.election_id db.voters ≡ lookup egn ms.mapping
  select_voter-Refines db ms egn refines =
      select_voter_lem egn s.election_id db.voters ∙ ap (lookup egn) refines.same_mapping

  override_history-Refines :
      (db : Database) (ms : MemoryStore) (egn : Bytes)
      → Refines s db ms
      → override_history s db egn ≡ history_of ms egn
  unfolding override_history
  override_history-Refines db ms egn refines =
      ap order_by_seq (refines.same_history egn)
      ∙ order_by_seq_numbered 1 (history_of ms egn) (refines.numbered egn)

  Refines-ReadsAlike : (db : Database) (ms : MemoryStore) → Refines s db ms → ReadsAlike db ms
  unfolding active_ballot get_active_ballot_id exists_voter has_voted get_override_history
      select_active_set active_set count_voters store_size
  Refines-ReadsAlike db ms refines = (
    λ egn.
        let voter = select_voter-Refines db ms egn refines in
        (
          rw (active_ballot, voter, get_active_ballot_id),
          override_history-Refines db ms egn refines,
          rw (exists_voter, voter, has_voted),
        ),
    ballots_of_lem s db.voters ∙ ap ballot_ids refines.same_mapping,
    count_voters_lem s db.voters ∙ ap length refines.same_mapping,
  )

  -- Every database that calls of `Record` lead to, with commits, roll-backs and lost answers in any order,
  -- stands for a memory store that votes lead to: the reads of each voter's active ballot, history and
  -- whether the voter has voted, of the active set in the order of the table and of the number of voters
  -- answer as that store's, and the audit accepts every voter's history.
  pub Runs-ReadsAlike :
      (db : Database)
      → Runs db
      → (ms : MemoryStore) × Reaches hmac s.history_hmac_key ms
        × ReadsAlike db ms
        × ((egn : Bytes)
            → verify_hash_chain hmac s.history_hmac_key
                (record { egn_hash = egn; submissions = override_history s db egn })
              ≡ true)
  unfolding verify_hash_chain
  Runs-ReadsAlike db run =
      let (ms, reached, refines) = Runs-Simulated run in
      let (same_key, all, agrees) = Reaches-IsValid_store hmac s.history_hmac_key ms reached in
      (
        ms,
        reached,
        Refines-ReadsAlike db ms refines,
        λ egn.
            ap (verify_entries hmac s.history_hmac_key egn [])
              (override_history-Refines db ms egn refines)
            ∙ history_of-Verified hmac s.history_hmac_key egn ms all,
      )
