-- ===== src/Collection/Refines.antt =====
-- collection/store/postgres.go implements the store that votermap.go describes in memory: what the tables hold
-- of an election is the state of a `MemoryStore`, and the calls answer alike.
use otvoren_vot.Prelude.{
  ℕ, ◌+◌, Bool, true, false, ◌&&◌, some, List, [], ◌∷◌, ◌++◌, Bytes, bytes_eq, bytes_eq_refl,
  bytes_eq_sound, bytes_Eq, if◌then◌else◌, length, lookup, insert, Bool-cases, inl, inr, ◌⊎◌, ◌≡◌,
  refl, sym, ap, subst, ◌∙◌, arith,
}
use otvoren_vot.Collection.Votermap.{
  Channel, HistoryEntry, MemoryStore, last_of, history_of, prev_ballot, next_entry, record_vote,
}
use otvoren_vot.Collection.Chains.{history_after}
use otvoren_vot.Collection.Postgres.{
  VoterRow, HistoryRow, Database, PostgresStore, Outcome, answer_of, stored, is_history,
  select_voter, select_history, order_by_seq, upsert_voter, has_seq, upsert_and_insert, finished,
  new_row, record_ballot,
}
use otvoren_vot.Collection.Rows.{
  AreNumbered, order_by_seq_numbered, next_seq_lem, has_seq_new, AreNumbered-append,
  select_history-append, mapping_of, select_voter_lem, mapping_of-upsert,
}

-- What the tables hold of the store's election is the memory store.
pub record Refines (s : PostgresStore) (db : Database) (ms : MemoryStore) : Type 0 where
  pub same_key : ms.history_hmac_key ≡ s.history_hmac_key
  pub same_mapping : mapping_of s.election_id db.voters ≡ ms.mapping
  pub same_history : (egn : Bytes) → select_history egn s.election_id db.history ≡ history_of ms egn
  pub numbered : (egn : Bytes) → AreNumbered 1 (history_of ms egn)

module _ (hmac : Bytes → Bytes → Bytes) (s : PostgresStore) (egn ballot : Bytes) (channel : Channel)
    (at : ℕ) where
  abbrev pub voter_row : VoterRow
  voter_row = record {
    egn_hash = egn;
    election_id = s.election_id;
    entry = record { ballot_id = ballot; channel = channel; submitted_at = at };
  }

  abbrev pub history_row : MemoryStore → HistoryRow
  history_row ms = record {
    egn_hash = egn;
    election_id = s.election_id;
    entry = next_entry hmac s.history_hmac_key (history_of ms egn) egn ballot channel at;
  }

  abbrev pub after_vote : Database → MemoryStore → Database
  after_vote db ms = record {
    voters = upsert_voter voter_row db.voters;
    history = db.history ++ history_row ms ∷ [];
  }

  -- The row that the transaction inserts is the entry that the memory store appends.
  new_row_lem :
      (entries : List HistoryEntry)
      → AreNumbered 1 entries
      → new_row hmac s (last_of entries) egn ballot channel at
        ≡ next_entry hmac s.history_hmac_key entries egn ballot channel at
  unfolding new_row next_entry
  new_row_lem entries h = rw (next_seq_lem entries h) refl

  -- The statement finds no row with the new key, since the history is numbered.
  upsert_and_insert_lem :
      (db : Database) (ms : MemoryStore)
      → Refines s db ms
      → upsert_and_insert db voter_row (history_row ms)
        ≡ some (after_vote db ms, prev_ballot (lookup egn ms.mapping))
  unfolding upsert_and_insert next_entry
  upsert_and_insert_lem db ms refines =
      let entries = history_of ms egn in
      let new : has_seq (length entries + 1) (select_history egn s.election_id db.history) ≡ false =
        ap (has_seq (length entries + 1)) (refines.same_history egn)
        ∙ has_seq_new 1 (length entries + 1) entries (refines.numbered egn) (omega arith) in
      let prev : prev_ballot (select_voter egn s.election_id db.voters)
          ≡ prev_ballot (lookup egn ms.mapping) =
        ap prev_ballot
          (select_voter_lem egn s.election_id db.voters ∙ ap (lookup egn) refines.same_mapping) in
      rw (upsert_and_insert, new, prev)

  -- The transaction goes through, whatever becomes of its commit.
  pub record_ballot_lem :
      (db : Database) (ms : MemoryStore) (outcome : Outcome)
      → Refines s db ms
      → record_ballot hmac s db egn ballot channel at outcome ≡ (
        stored outcome db (after_vote db ms),
        answer_of outcome (prev_ballot (lookup egn ms.mapping)),
      )
  unfolding record_ballot
  record_ballot_lem db ms outcome refines =
      let entries = history_of ms egn in
      let rows = select_history egn s.election_id db.history in
      let latest : last_of (order_by_seq rows) ≡ last_of entries =
        ap (λ x. last_of (order_by_seq x)) (refines.same_history egn)
        ∙ ap last_of (order_by_seq_numbered 1 entries (refines.numbered egn)) in
      let row : new_row hmac s (last_of (order_by_seq rows)) egn ballot channel at
          ≡ next_entry hmac s.history_hmac_key entries egn ballot channel at =
        ap (λ x. new_row hmac s x egn ballot channel at) latest
        ∙ new_row_lem entries (refines.numbered egn) in
      let inserted : upsert_and_insert db voter_row (history_row ms)
          ≡ some (after_vote db ms, prev_ballot (lookup egn ms.mapping)) =
        upsert_and_insert_lem db ms refines in
      ap
        (λ x. finished outcome db (
          upsert_and_insert db voter_row
            (record { egn_hash = egn; election_id = s.election_id; entry = x })))
        row
      ∙ ap (finished outcome db) inserted
      ∙ (unfold finished in refl)

  is_history_eq :
      (ms : MemoryStore) (other : Bytes)
      → is_history other s.election_id (history_row ms) ≡ bytes_eq egn other
  unfolding is_history
  is_history_eq ms other = rw (bytes_eq_refl s.election_id) (and_true (bytes_eq egn other))
    where
      and_true : (b : Bool) → (b && true) ≡ b
      and_true true = refl
      and_true false = refl

  history_after_vote :
      (ms : MemoryStore) (other : Bytes)
      → ms.history_hmac_key ≡ s.history_hmac_key
      → history_of (record_vote hmac ms egn ballot channel at).0 other ≡ (
          if bytes_eq egn other
          then history_of ms egn ++ (history_row ms).entry ∷ []
          else history_of ms other)
  history_after_vote ms other key =
      history_after hmac ms egn other ballot channel at
      ∙ ap
          (λ k.
            if bytes_eq egn other
            then history_of ms egn
              ++ next_entry hmac k (history_of ms egn) egn ballot channel at ∷ []
            else history_of ms other)
          key

  select_after_vote :
      (db : Database) (ms : MemoryStore) (other : Bytes)
      → Refines s db ms
      → select_history other s.election_id (after_vote db ms).history ≡ (
          if bytes_eq egn other
          then history_of ms egn ++ (history_row ms).entry ∷ []
          else history_of ms other)
  select_after_vote db ms other refines =
      select_history-append other s.election_id db.history (history_row ms)
      ∙ rw (is_history_eq ms other)
          (rw (refines.same_history other) (own (Bool-cases (bytes_eq egn other))))
    where
      own :
          (bytes_eq egn other ≡ true) ⊎ (bytes_eq egn other ≡ false)
          → (if bytes_eq egn other
              then history_of ms other ++ (history_row ms).entry ∷ []
              else history_of ms other)
            ≡ (if bytes_eq egn other
                then history_of ms egn ++ (history_row ms).entry ∷ []
                else history_of ms other)
      own (inl same) =
          ap
            (λ x.
              if bytes_eq egn other
              then history_of ms x ++ (history_row ms).entry ∷ []
              else history_of ms other)
            (sym (bytes_eq_sound egn other same))
      own (inr differs) = rw differs refl

  numbered_after_vote :
      (db : Database) (ms : MemoryStore) (other : Bytes)
      → Refines s db ms
      → AreNumbered 1 (
          if bytes_eq egn other
          then history_of ms egn ++ (history_row ms).entry ∷ []
          else history_of ms other)
  numbered_after_vote db ms other refines = elim (Bool-cases (bytes_eq egn other)) [
    | inl same ↦ rw same (
        AreNumbered-append 1 (history_of ms egn) (history_row ms).entry (refines.numbered egn)
          (unfold next_entry in omega arith))
    | inr differs ↦ rw differs (refines.numbered other)
  ]

  -- The tables after the vote hold what the memory store holds after it.
  pub after_vote-Refines :
      (db : Database) (ms : MemoryStore)
      → Refines s db ms
      → Refines s (after_vote db ms) (record_vote hmac ms egn ballot channel at).0
  after_vote-Refines db ms refines = record {
    same_key = unfold record_vote in refines.same_key;
    same_mapping =
        unfold record_vote in
        mapping_of-upsert voter_row db.voters
        ∙ ap (insert egn voter_row.entry) refines.same_mapping;
    same_history = λ other.
        select_after_vote db ms other refines ∙ sym (history_after_vote ms other refines.same_key);
    numbered = λ other.
        subst (AreNumbered 1) (sym (history_after_vote ms other refines.same_key))
          (numbered_after_vote db ms other refines);
  }
