-- ===== src/Collection/Rows.antt =====
-- collection/store/postgres.go: the rows of one election, and the numbers of a voter's history.
use otvoren_vot.Prelude.{
  ℕ, suc, ◌+◌, ◌≤◌, false, List, [], ◌∷◌, ◌++◌, Bytes, bytes_eq, bytes_eq_refl, bytes_eq_iff,
  bytes_Eq, if◌then◌else◌, length, lookup, insert, ◌≡◌, refl, ap, ◌∙◌, arith,
}
use otvoren_vot.Collection.Votermap.{HistoryEntry, Entry, last_of, ballot_ids}
use otvoren_vot.Collection.Postgres.{
  VoterRow, HistoryRow, is_voter, is_history, select_voter, select_history, insert_by_seq,
  order_by_seq, upsert_voter, has_seq, next_seq, ballots_of, PostgresStore, voters_of,
}

-- The entries are numbered upwards from n.
abbrev pub AreNumbered : ℕ → List HistoryEntry → Type 0
AreNumbered n [] = Unit {0}
AreNumbered n (e ∷ entries) = (e.seq ≡ n) × AreNumbered (suc n) entries

insert_by_seq_first :
    (n : ℕ) (e : HistoryEntry) (entries : List HistoryEntry)
    → AreNumbered n (e ∷ entries)
    → insert_by_seq e entries ≡ e ∷ entries
unfolding insert_by_seq
insert_by_seq_first n e [] h = refl
insert_by_seq_first n e (first ∷ entries) (at, (next, h)) = ground arith

pub order_by_seq_numbered :
    (n : ℕ) (entries : List HistoryEntry) → AreNumbered n entries → order_by_seq entries ≡ entries
unfolding order_by_seq
order_by_seq_numbered n [] h = refl
order_by_seq_numbered n (e ∷ entries) (at, h) =
    ap (insert_by_seq e) (order_by_seq_numbered (suc n) entries h)
    ∙ insert_by_seq_first n e entries (at, h)

next_seq_from :
    (n : ℕ) (e : HistoryEntry) (entries : List HistoryEntry)
    → AreNumbered n (e ∷ entries)
    → next_seq (last_of (e ∷ entries)) ≡ n + length (e ∷ entries)
unfolding next_seq last_of
next_seq_from n e [] (at, h) = omega arith
next_seq_from n e (next ∷ entries) (at, h) = omega (arith, next_seq_from (suc n) next entries h)

pub next_seq_lem :
    (entries : List HistoryEntry)
    → AreNumbered 1 entries
    → next_seq (last_of entries) ≡ length entries + 1
unfolding next_seq last_of
next_seq_lem [] h = refl
next_seq_lem (e ∷ entries) h = omega (arith, next_seq_from 1 e entries h)

pub has_seq_new :
    (n k : ℕ) (entries : List HistoryEntry)
    → AreNumbered n entries
    → n + length entries ≤ k
    → has_seq k entries ≡ false
unfolding has_seq
has_seq_new n k [] h le = refl
has_seq_new n k (e ∷ entries) (at, h) le = ground (arith, has_seq_new (suc n) k entries h)

pub AreNumbered-append :
    (n : ℕ) (entries : List HistoryEntry) (e : HistoryEntry)
    → AreNumbered n entries
    → e.seq ≡ n + length entries
    → AreNumbered n (entries ++ e ∷ [])
AreNumbered-append n [] e h at = (omega arith, tt)
AreNumbered-append n (first ∷ entries) e (here, h) at =
    (here, AreNumbered-append (suc n) entries e h (omega arith))

pub select_history-append :
    (egn election : Bytes) (rows : List HistoryRow) (row : HistoryRow)
    → select_history egn election (rows ++ row ∷ []) ≡ (
        if is_history egn election row
        then select_history egn election rows ++ row.entry ∷ []
        else select_history egn election rows)
unfolding select_history
select_history-append egn election [] row = ground arith
select_history-append egn election (first ∷ rows) row =
    ground (arith, select_history-append egn election rows row)

-- The rows of an election as the map of a store in memory.
abbrev pub mapping_of : Bytes → List VoterRow → List (Bytes × Entry)
mapping_of election [] = []
mapping_of election (row ∷ rows) =
    if bytes_eq row.election_id election
    then (row.egn_hash, row.entry) ∷ mapping_of election rows
    else mapping_of election rows

pub select_voter_lem :
    (egn election : Bytes) (rows : List VoterRow)
    → select_voter egn election rows ≡ lookup egn (mapping_of election rows)
unfolding select_voter lookup is_voter
select_voter_lem egn election [] = refl
select_voter_lem egn election (row ∷ rows) = ground (arith, select_voter_lem egn election rows)

pub mapping_of-upsert :
    (new : VoterRow) (rows : List VoterRow)
    → mapping_of new.election_id (upsert_voter new rows)
      ≡ insert new.egn_hash new.entry (mapping_of new.election_id rows)
unfolding upsert_voter insert is_voter
mapping_of-upsert new [] = rw (bytes_eq_refl new.election_id) refl
mapping_of-upsert new (row ∷ rows) = ground (
  arith,
  mapping_of-upsert new rows,
  bytes_eq_refl new.election_id,
  bytes_eq_iff row.election_id new.election_id,
)

pub ballots_of_lem :
    (s : PostgresStore) (rows : List VoterRow)
    → ballots_of (voters_of s rows) ≡ ballot_ids (mapping_of s.election_id rows)
unfolding ballots_of voters_of ballot_ids
ballots_of_lem s [] = refl
ballots_of_lem s (row ∷ rows) = ground (arith, ballots_of_lem s rows)

pub count_voters_lem :
    (s : PostgresStore) (rows : List VoterRow)
    → length (voters_of s rows) ≡ length (mapping_of s.election_id rows)
unfolding voters_of
count_voters_lem s [] = refl
count_voters_lem s (row ∷ rows) = ground (arith, count_voters_lem s rows)
