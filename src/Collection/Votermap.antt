-- ===== src/Collection/Votermap.antt =====
-- collection/votermap/votermap.go. HMAC-SHA256 is a parameter: key, then data. Times are numbers. A method
-- holds the store's mutex, so it is one step.
use otvoren_vot.Prelude.{
  ℕ, zero, suc, ◌+◌, ◌/◌, ◌%◌, Bool, true, false, Option, none, some, List, [], ◌∷◌, ◌++◌, Bytes,
  ltb, if◌then◌else◌, length, lookup, insert, bytes_Eq, hex_encode,
}

pub data Channel : Type 0 where
  online in_person : Channel

pub record HistoryEntry : Type 0 where
  pub ballot_id : Bytes
  pub channel : Channel
  pub submitted_at : ℕ
  pub seq : ℕ
  pub row_hash : Bytes

pub record OverrideChain : Type 0 where
  pub egn_hash : Bytes
  pub submissions : List HistoryEntry

pub record Entry : Type 0 where
  pub ballot_id : Bytes
  pub channel : Channel
  pub submitted_at : ℕ

pub record MemoryStore : Type 0 where
  pub mapping : List (Bytes × Entry)
  pub history : List (Bytes × List HistoryEntry)
  pub history_hmac_key : Bytes

-- The last of the entries, if any.
unfoldable pub last_of : List HistoryEntry → Option HistoryEntry
last_of [] = none
last_of (e ∷ []) = some e
last_of (e ∷ next ∷ entries) = last_of (next ∷ entries)

unfoldable pub active_ballot_of : Option HistoryEntry → Bytes
active_ballot_of none = []
active_ballot_of (some e) = e.ballot_id

unfoldable pub active_ballot_id : OverrideChain → Bytes
unfolding active_ballot_of last_of
active_ballot_id c = active_ballot_of (last_of c.submissions)

-- The decimal digits of n: one for each round until n is below ten, and n rounds are enough.
unfoldable pub digits_from : ℕ → ℕ → Bytes → Bytes
digits_from zero n rest = (n % 10 + b'0') ∷ rest
digits_from (suc fuel) n rest =
    let more = digits_from fuel (n / 10) ((n % 10 + b'0') ∷ rest) in
    if ltb n 10 then (n + b'0') ∷ rest else more

unfoldable pub decimal : ℕ → Bytes
unfolding digits_from
decimal n = digits_from n n []

-- "%s\x00%s\x00%s\x00%d"
unfoldable pub row_data : Bytes → Bytes → Bytes → ℕ → Bytes
row_data prev_hash egn_hash ballot_id seq =
    prev_hash ++ 0 ∷ (egn_hash ++ 0 ∷ (ballot_id ++ 0 ∷ decimal seq))

unfoldable pub new_memory_store : Bytes → MemoryStore
new_memory_store key = record { mapping = []; history = []; history_hmac_key = key }

unfoldable pub history_of : MemoryStore → Bytes → List HistoryEntry
history_of ms egn_hash = elim (lookup egn_hash ms.history) [ none ↦ [] | some entries ↦ entries ]

unfoldable pub prev_ballot : Option Entry → Bytes
prev_ballot none = []
prev_ballot (some e) = e.ballot_id

unfoldable pub hash_of : Option HistoryEntry → Bytes
hash_of none = []
hash_of (some e) = e.row_hash

module _ (hmac : Bytes → Bytes → Bytes) where
  unfoldable pub hash_egn : Bytes → Bytes → Bytes
  hash_egn egn key = hex_encode (hmac key egn)

  unfoldable pub compute_row_hash : Bytes → Bytes → Bytes → Bytes → ℕ → Bytes
  unfolding row_data
  compute_row_hash key prev_hash egn_hash ballot_id seq =
      hex_encode (hmac key (row_data prev_hash egn_hash ballot_id seq))

  -- The entry that `Record` appends to the voter's history.
  unfoldable pub next_entry : Bytes → List HistoryEntry → Bytes → Bytes → Channel → ℕ → HistoryEntry
  unfolding compute_row_hash hash_of last_of
  next_entry key entries egn_hash ballot_id channel submitted_at =
      let next_seq = length entries + 1 in
      record {
        ballot_id = ballot_id;
        channel = channel;
        submitted_at = submitted_at;
        seq = next_seq;
        row_hash = compute_row_hash key (hash_of (last_of entries)) egn_hash ballot_id next_seq;
      }

  -- `Record`: the new store, and the ballot that was active before, empty where there was none.
  unfoldable pub record_vote : MemoryStore → Bytes → Bytes → Channel → ℕ → MemoryStore × Bytes
  unfolding next_entry prev_ballot history_of
  record_vote ms egn_hash ballot_id channel submitted_at =
      let entries = history_of ms egn_hash in
      (
        record ms {
          mapping =
              insert egn_hash
                (record { ballot_id = ballot_id; channel = channel; submitted_at = submitted_at })
                ms.mapping;
          history =
              insert egn_hash
                (entries
                  ++ next_entry ms.history_hmac_key entries egn_hash ballot_id channel submitted_at
                    ∷ [])
                ms.history;
        },
        prev_ballot (lookup egn_hash ms.mapping),
      )

-- `GetOverrideHistory`
unfoldable pub get_override_history : MemoryStore → Bytes → List HistoryEntry
unfolding history_of
get_override_history ms egn_hash = history_of ms egn_hash

-- `GetAllOverrideChains`: the chains that the callback is called with, in the order of the map.
unfoldable pub chains_from : List (Bytes × List HistoryEntry) → List OverrideChain
chains_from [] = []
chains_from ((egn_hash, entries) ∷ history) =
    let rest = chains_from history in
    if ltb (length entries) 2
    then rest
    else record { egn_hash = egn_hash; submissions = entries } ∷ rest

unfoldable pub get_all_override_chains : MemoryStore → List OverrideChain
unfolding chains_from
get_all_override_chains ms = chains_from ms.history

-- `GetActiveBallotID`: none where the voter has not voted.
unfoldable pub get_active_ballot_id : MemoryStore → Bytes → Option Bytes
get_active_ballot_id ms egn_hash = elim (lookup egn_hash ms.mapping) [
  | none ↦ none
  | some e ↦ some e.ballot_id
]

unfoldable pub ballot_ids : List (Bytes × Entry) → List Bytes
ballot_ids [] = []
ballot_ids ((egn_hash, e) ∷ mapping) = e.ballot_id ∷ ballot_ids mapping

-- `ActiveSet`, `Size` and `HasVoted`
unfoldable pub active_set : MemoryStore → List Bytes
unfolding ballot_ids
active_set ms = ballot_ids ms.mapping

unfoldable pub store_size : MemoryStore → ℕ
store_size ms = length ms.mapping

unfoldable pub has_voted : MemoryStore → Bytes → Bool
has_voted ms egn_hash = elim (lookup egn_hash ms.mapping) [ none ↦ false | some e ↦ true ]
