-- ===== src/Board/Inserts.antt =====
-- bulletin-board/store/postgres.go, `InsertBallot`, and the loop of attempts of `AppendBallot`: what they do
-- to a table whose rows are numbered from 1.
use otvoren_vot.Prelude.{
  ℕ, zero, suc, ◌+◌, ◌≡◌, refl, ap, none, some, [], ◌∷◌, ◌++◌, Bytes, arith, length, append-nil,
  Bool-cases, ◌&&◌, not, Option-cases, ◌⊎◌, inl, inr, ◌==◌,
}
use otvoren_vot.Board.Store.{
  BallotRecord, Database, Postgres, Failure, Write, not_run, answered, unanswered, database,
  position_conflict, Outcome, returned, failed, get_record, insert_row, insert_stored,
  insert_ballot, violation,
}
use otvoren_vot.Board.Service.{Attempt, insert_attempts, retries, placed, attempt_insert}
use otvoren_vot.Board.Valid.{Numbered, get_max_position_lem, position_taken_free}

-- A text that the database gives back as it was, where it takes it at all.
abbrev pub Canonical : Postgres → Bytes → Type 0
Canonical pg text = (stored : Bytes) → pg.jsonb text ≡ some stored → stored ≡ text

-- No other process writes to the table.
abbrev pub Alone : (ℕ → Attempt) → Type 0
Alone attempts = (n : ℕ) → (attempts n).others ≡ []

abbrev pub next_record : Database → Bytes → Bytes → Bytes → BallotRecord
next_record db ballot_id encrypted_ballot zk_proofs = record {
  ballot_id = ballot_id;
  encrypted_ballot = encrypted_ballot;
  zk_proofs = zk_proofs;
  position = length db.ballots + 1;
  merkle_root_sha = [];
}

abbrev pub with_row : Database → BallotRecord → Database
with_row db rec = record db { ballots = db.ballots ++ rec ∷ [] }

-- No row has the identifier.
abbrev pub Fresh : Database → Bytes → Type 0
Fresh db id = get_record id db.ballots ≡ none

module _ (pg : Postgres) where
  insert_row-cases :
      (db : Database) (rec : BallotRecord)
      → Numbered 0 db.ballots
      → rec.position ≡ length db.ballots + 1
      → ((insert_row pg db rec ≡ (with_row db rec, returned tt)) × Fresh db rec.ballot_id)
        ⊎ ((f : Failure) × (insert_row pg db rec ≡ (db, failed f)))
  unfolding insert_row
  insert_row-cases db rec v p = elim (Option-cases (get_record rec.ballot_id db.ballots)) [
    | inr (old, e) ↦ inr (violation pg.primary_key_name, rw (insert_row, e))
    | inl e ↦
        inl (rw (insert_row, e, position_taken_free 0 rec.position db.ballots v (omega arith)), e)
  ]

  -- The row is new and in the table, or nothing changes, or the INSERT's answer is lost, and the new row
  -- is in the table though an error is returned.
  abbrev pub Ends :
      {A : Type 0} → Database → BallotRecord → A → Type 0 → Database × Outcome A → Type 0
  Ends db rec value lost x =
      ((x ≡ (with_row db rec, returned value)) × Fresh db rec.ballot_id)
      ⊎ (((f : Failure) × (x ≡ (db, failed f)))
          ⊎ ((x ≡ (with_row db rec, failed database)) × Fresh db rec.ballot_id × lost))

  unanswered-Ends :
      (db : Database) (rec : BallotRecord) (x : Database × Outcome (Unit {0}))
      → ((x ≡ (with_row db rec, returned tt)) × Fresh db rec.ballot_id)
        ⊎ ((f : Failure) × (x ≡ (db, failed f)))
      → Ends db rec tt (unanswered ≡ unanswered) (x.0, failed database)
  unanswered-Ends db rec x (inl (e, fresh)) =
      inr (inr (ap (λ y. (y.0, failed database)) e, fresh, refl))
  unanswered-Ends db rec x (inr (f, e)) = inr (inl (database, ap (λ y. (y.0, failed database)) e))

  insert_stored-cases :
      (db : Database) (rec : BallotRecord)
      → Numbered 0 db.ballots
      → rec.position ≡ length db.ballots + 1
      → Canonical pg rec.encrypted_ballot
      → Canonical pg rec.zk_proofs
      → ((insert_stored pg db rec (pg.jsonb rec.encrypted_ballot) (pg.jsonb rec.zk_proofs)
            ≡ (with_row db rec, returned tt))
          × Fresh db rec.ballot_id)
        ⊎ ((f : Failure) × (insert_stored pg db rec
                (pg.jsonb rec.encrypted_ballot)
                (pg.jsonb rec.zk_proofs)
              ≡ (db, failed f)))
  unfolding insert_stored
  insert_stored-cases db rec v p c d = elim (Option-cases (pg.jsonb rec.encrypted_ballot)) [
    | inl e ↦ inr (database, rw e)
    | inr (ballot, e) ↦ elim (Option-cases (pg.jsonb rec.zk_proofs)) [
      | inl g ↦ inr (database, rw (e, g))
      | inr (proofs, g) ↦ rw (e, g, c ballot e, d proofs g) (insert_row-cases db rec v p)
    ]
  ]

  insert_ballot-cases :
      (db : Database) (rec : BallotRecord) (writes : Write)
      → Numbered 0 db.ballots
      → rec.position ≡ length db.ballots + 1
      → Canonical pg rec.encrypted_ballot
      → Canonical pg rec.zk_proofs
      → Ends db rec tt (writes ≡ unanswered) (insert_ballot pg db rec writes)
  unfolding insert_ballot
  insert_ballot-cases db rec not_run v p c d = inr (inl (database, refl))
  insert_ballot-cases db rec answered v p c d = elim (insert_stored-cases db rec v p c d) [
    | inl done ↦ inl done
    | inr refused ↦ inr (inl refused)
  ]
  insert_ballot-cases db rec unanswered v p c d =
      unanswered-Ends db rec _ (insert_stored-cases db rec v p c d)

  placed-cases :
      (n : ℕ) (db : Database) (rec : BallotRecord) (lost : Type 0)
      (x : Database × Outcome (Unit {0}))
      → Ends db rec tt lost x
      → Ends db rec n lost (placed n x)
  unfolding placed
  placed-cases n db rec lost x (inl (e, fresh)) = inl (ap (placed n) e, fresh)
  placed-cases n db rec lost x (inr (inl (f, e))) = inr (inl (f, ap (placed n) e))
  placed-cases n db rec lost x (inr (inr (e, fresh, l))) = inr (inr (ap (placed n) e, fresh, l))

  attempt_insert-cases :
      (now : Attempt) (db : Database) (id ballot proofs : Bytes)
      → Numbered 0 db.ballots
      → Canonical pg ballot
      → Canonical pg proofs
      → now.others ≡ []
      → Ends db
          (next_record db id ballot proofs)
          (length db.ballots + 1)
          (now.writes ≡ unanswered)
          (attempt_insert pg now db id ballot proofs)
  unfolding attempt_insert
  attempt_insert-cases now db id ballot proofs v c d alone = elim (Bool-cases now.reads) [
    | inr e ↦ inr (inl (database, rw e))
    | inl e ↦
        let most = get_max_position_lem db.ballots v in
        rw (e, alone, append-nil db.ballots, most)
          (placed-cases (length db.ballots + 1) db (next_record db id ballot proofs)
            (now.writes ≡ unanswered) _
            (insert_ballot-cases db (next_record db id ballot proofs) now.writes v refl c d))
  ]

  -- The attempts insert the next record, or leave the table as it was, or insert it and lose the answer.
  pub insert_attempts-cases :
      (left : ℕ) (attempts : ℕ → Attempt) (db : Database) (id ballot proofs : Bytes)
      → Numbered 0 db.ballots
      → Canonical pg ballot
      → Canonical pg proofs
      → Alone attempts
      → Ends db
          (next_record db id ballot proofs)
          (length db.ballots + 1)
          ((n : ℕ) × ((attempts n).writes ≡ unanswered))
          (insert_attempts pg left attempts db id ballot proofs)
  unfolding insert_attempts retries
  insert_attempts-cases zero attempts db id ballot proofs v c d alone =
      inr (inl (position_conflict, refl))
  insert_attempts-cases (suc left) attempts db id ballot proofs v c d alone =
      elim (attempt_insert-cases (attempts (suc left)) db id ballot proofs v c d
        (alone (suc left))) [
          | inl (done, fresh) ↦ inl (rw (insert_attempts, done, done), fresh)
          | inr (inr (lost, fresh, cut)) ↦
              inr (inr (rw (insert_attempts, lost, lost), fresh, (suc left, cut)))
          | inr (inl (f, refused)) ↦ elim (Bool-cases (retries f && not (left == 0))) [
            | inr final ↦ inr (inl (f, rw (insert_attempts, refused, final, refused)))
            | inl again ↦
                rw (insert_attempts, refused, again, refused)
                  (insert_attempts-cases left attempts db id ballot proofs v c d alone)
          ]
        ]
