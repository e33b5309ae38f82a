-- ===== src/Collection/TableExamples.antt =====
-- The theorems on store/postgres.go at two votes of one voter, the second with a lost answer.
use otvoren_vot.Prelude.{true, some, [], ◌∷◌, Bytes, bytes_eq, lookup, ◌≡◌, refl}
use otvoren_vot.Collection.Votermap.{
  MemoryStore, online, in_person, new_memory_store, history_of, record_vote,
}
use otvoren_vot.Collection.Audit.{verify_hash_chain}
use otvoren_vot.Collection.Chains.{Reaches}
use otvoren_vot.Collection.Postgres.{
  Database, PostgresStore, committed, answer_lost, answer_of, record_ballot, active_ballot,
  override_history, select_history,
}
use otvoren_vot.Collection.Refines.{Refines}
use otvoren_vot.Collection.Replays.{
  replayed, opened, recorded, ReadsAlike, record_ballot-Refines, Runs-ReadsAlike,
}
use otvoren_vot.Collection.Examples.{checksum, voter}

abbrev table_store : PostgresStore
table_store = record { election_id = 1 ∷ []; history_hmac_key = [] }

abbrev no_rows : Database
no_rows = record { voters = []; history = [] }

abbrev first_vote : Database
first_vote = (record_ballot checksum table_store no_rows voter (1 ∷ []) online 10 committed).0

abbrev second_vote : Database
second_vote =
    (record_ballot checksum table_store first_vote voter (2 ∷ []) in_person 20 answer_lost).0

second_vote_active : active_ballot table_store second_vote voter ≡ some (2 ∷ [])
unfolding active_ballot record_ballot bytes_eq
second_vote_active = refl

no_rows-Refines : Refines table_store no_rows (new_memory_store [])
unfolding new_memory_store history_of lookup select_history
no_rows-Refines = record {
  same_key = refl;
  same_mapping = refl;
  same_history = λ egn. refl;
  numbered = λ egn. tt;
}

record_ballot-Refines_example :
    ((record_ballot checksum table_store no_rows voter (1 ∷ []) online 10 committed).1
      ≡ answer_of committed (record_vote checksum (new_memory_store []) voter (1 ∷ []) online 10).1)
    × Refines table_store first_vote (
        replayed committed
          (new_memory_store [])
          (record_vote checksum (new_memory_store []) voter (1 ∷ []) online 10).0)
record_ballot-Refines_example =
    record_ballot-Refines checksum table_store no_rows (new_memory_store []) voter (1 ∷ []) online
      10 committed no_rows-Refines

Runs-ReadsAlike_example :
    (ms : MemoryStore) × Reaches checksum [] ms
    × ReadsAlike checksum table_store second_vote ms
    × ((egn : Bytes)
        → verify_hash_chain checksum []
            (record { egn_hash = egn; submissions = override_history table_store second_vote egn })
          ≡ true)
Runs-ReadsAlike_example = Runs-ReadsAlike checksum table_store second_vote (
    recorded first_vote voter (2 ∷ []) in_person 20 answer_lost (
      recorded no_rows voter (1 ∷ []) online 10 committed
        (opened no_rows refl (λ egn. unfold select_history in refl))))
