-- ===== src/Collection/Postgres.antt =====
-- collection/store/postgres.go over the tables of store/migrations. A transaction holds the voter's advisory
-- lock from its first statement, so it is one step. ORDER BY is a sort, and LIMIT 1 of a descending order
-- is the last row of the ascending one.
use otvoren_vot.Prelude.{
  ℕ, ◌+◌, Bool, true, false, ◌&&◌, Option, none, some, List, [], ◌∷◌, ◌++◌, Bytes, bytes_eq, leb,
  ◌==◌, if◌then◌else◌, length,
}
use otvoren_vot.Collection.Votermap.{
  Channel, HistoryEntry, Entry, last_of, hash_of, prev_ballot, compute_row_hash,
}

-- A row of `voters`: its key and the rest.
pub record VoterRow : Type 0 where
  pub egn_hash : Bytes
  pub election_id : Bytes
  pub entry : Entry

-- A row of `voter_ballot_history`.
pub record HistoryRow : Type 0 where
  pub egn_hash : Bytes
  pub election_id : Bytes
  pub entry : HistoryEntry

pub record Database : Type 0 where
  pub voters : List VoterRow
  pub history : List HistoryRow

-- The store's fields but for the pool.
pub record PostgresStore : Type 0 where
  pub election_id : Bytes
  pub history_hmac_key : Bytes

-- The row of a voter in an election.
unfoldable pub is_voter : Bytes → Bytes → VoterRow → Bool
is_voter egn election row = bytes_eq row.egn_hash egn && bytes_eq row.election_id election

unfoldable pub is_history : Bytes → Bytes → HistoryRow → Bool
is_history egn election row = bytes_eq row.egn_hash egn && bytes_eq row.election_id election

-- WHERE egn_hash = $1 AND election_id = $2, on voters.
unfoldable pub select_voter : Bytes → Bytes → List VoterRow → Option Entry
unfolding is_voter
select_voter egn election [] = none
select_voter egn election (row ∷ rows) =
    let rest = select_voter egn election rows in
    if is_voter egn election row then some row.entry else rest

-- The same on the history.
unfoldable pub select_history : Bytes → Bytes → List HistoryRow → List HistoryEntry
unfolding is_history
select_history egn election [] = []
select_history egn election (row ∷ rows) =
    let rest = select_history egn election rows in
    if is_history egn election row then row.entry ∷ rest else rest

-- ORDER BY seq
unfoldable pub insert_by_seq : HistoryEntry → List HistoryEntry → List HistoryEntry
insert_by_seq e [] = e ∷ []
insert_by_seq e (first ∷ entries) =
    let rest = insert_by_seq e entries in
    if leb e.seq first.seq then e ∷ (first ∷ entries) else first ∷ rest

unfoldable pub order_by_seq : List HistoryEntry → List HistoryEntry
unfolding insert_by_seq
order_by_seq [] = []
order_by_seq (e ∷ entries) = insert_by_seq e (order_by_seq entries)

-- INSERT … ON CONFLICT (egn_hash, election_id) DO UPDATE
unfoldable pub upsert_voter : VoterRow → List VoterRow → List VoterRow
unfolding is_voter
upsert_voter new [] = new ∷ []
upsert_voter new (row ∷ rows) =
    let rest = upsert_voter new rows in
    if is_voter new.egn_hash new.election_id row then new ∷ rows else row ∷ rest

-- A row of the history with the same primary key.
unfoldable pub has_seq : ℕ → List HistoryEntry → Bool
has_seq seq [] = false
has_seq seq (e ∷ entries) = if e.seq == seq then true else has_seq seq entries

-- What becomes of the transaction: it commits, fails before the commit, or commits without an answer.
pub data Outcome : Type 0 where
  committed rolled_back answer_lost : Outcome

-- `Record` answers with the previous ballot, none where there is an error.
abbrev pub answer_of : Outcome → Bytes → Option Bytes
answer_of committed prev = some prev
answer_of rolled_back prev = none
answer_of answer_lost prev = none

abbrev pub stored : Outcome → Database → Database → Database
stored committed before after = after
stored rolled_back before after = before
stored answer_lost before after = after

unfoldable pub next_seq : Option HistoryEntry → ℕ
next_seq none = 1
next_seq (some e) = e.seq + 1

-- The statement RT3: it fails where the history has the key already.
unfoldable pub upsert_and_insert : Database → VoterRow → HistoryRow → Option (Database × Bytes)
unfolding select_voter select_history upsert_voter has_seq prev_ballot
upsert_and_insert db voter row =
    elim (has_seq row.entry.seq (select_history row.egn_hash row.election_id db.history)) [
      | true ↦ none
      | false ↦ some (
        record { voters = upsert_voter voter db.voters; history = db.history ++ row ∷ [] },
        prev_ballot (select_voter voter.egn_hash voter.election_id db.voters),
      )
    ]

unfoldable pub finished : Outcome → Database → Option (Database × Bytes) → Database × Option Bytes
finished outcome db none = (db, none)
finished outcome db (some (after, prev)) = (stored outcome db after, answer_of outcome prev)

module _ (hmac : Bytes → Bytes → Bytes) (s : PostgresStore) where
  -- The row that RT3 inserts after the latest row of the voter, RT2.
  unfoldable pub new_row : Option HistoryEntry → Bytes → Bytes → Channel → ℕ → HistoryEntry
  unfolding next_seq hash_of compute_row_hash
  new_row latest egn_hash ballot_id channel submitted_at = record {
    ballot_id = ballot_id;
    channel = channel;
    submitted_at = submitted_at;
    seq = next_seq latest;
    row_hash =
        compute_row_hash hmac s.history_hmac_key (hash_of latest) egn_hash ballot_id
          (next_seq latest);
  }

  -- `Record`
  unfoldable pub record_ballot :
      Database → Bytes → Bytes → Channel → ℕ → Outcome → Database × Option Bytes
  unfolding new_row upsert_and_insert finished select_history order_by_seq last_of
  record_ballot db egn_hash ballot_id channel submitted_at outcome =
      let latest = last_of (order_by_seq (select_history egn_hash s.election_id db.history)) in
      finished outcome db (
        upsert_and_insert db
          (record {
            egn_hash = egn_hash;
            election_id = s.election_id;
            entry = record {
              ballot_id = ballot_id;
              channel = channel;
              submitted_at = submitted_at;
            };
          })
          (record {
            egn_hash = egn_hash;
            election_id = s.election_id;
            entry = new_row latest egn_hash ballot_id channel submitted_at;
          }))

-- SELECT ballot_id
unfoldable pub ballots_of : List VoterRow → List Bytes
ballots_of [] = []
ballots_of (row ∷ rows) = row.entry.ballot_id ∷ ballots_of rows

module _ (s : PostgresStore) where
  -- `GetActiveBallotID`
  unfoldable pub active_ballot : Database → Bytes → Option Bytes
  unfolding select_voter
  active_ballot db egn_hash = elim (select_voter egn_hash s.election_id db.voters) [
    | none ↦ none
    | some e ↦ some e.ballot_id
  ]

  -- `HasVoted`
  unfoldable pub exists_voter : Database → Bytes → Bool
  unfolding select_voter
  exists_voter db egn_hash = elim (select_voter egn_hash s.election_id db.voters) [
    | none ↦ false
    | some e ↦ true
  ]

  -- WHERE election_id = $1
  unfoldable pub voters_of : List VoterRow → List VoterRow
  voters_of [] = []
  voters_of (row ∷ rows) =
      let rest = voters_of rows in
      if bytes_eq row.election_id s.election_id then row ∷ rest else rest

  -- `ActiveSet` and `Size`
  unfoldable pub select_active_set : Database → List Bytes
  unfolding voters_of ballots_of
  select_active_set db = ballots_of (voters_of db.voters)

  unfoldable pub count_voters : Database → ℕ
  unfolding voters_of
  count_voters db = length (voters_of db.voters)

  -- `GetOverrideHistory`
  unfoldable pub override_history : Database → Bytes → List HistoryEntry
  unfolding select_history order_by_seq
  override_history db egn_hash = order_by_seq (select_history egn_hash s.election_id db.history)
