-- ===== src/Board/Races.antt =====
-- bulletin-board/store/postgres.go, `InsertBallot`, where another process takes the position first.
use otvoren_vot.Prelude.{
  ℕ, suc, ◌+◌, ◌≡◌, refl, sym, ap, ◌∙◌, true, false, ◌||◌, none, some, List, [], ◌∷◌, ◌++◌, Bytes,
  ascii, arith, ==_iff,
}
use otvoren_vot.Board.Store.{
  BallotRecord, Database, Postgres, duplicate_ballot, failed, get_record, get_max_position,
  position_taken, contains, violation, insert_row, insert_stored, insert_ballot, answered,
  encode_leaf,
}
use otvoren_vot.Board.Service.{
  World, Attempt, validated, placed, attempt_insert, insert_attempts, max_retries, inserted,
  append_ballot, retries,
}
use otvoren_vot.Board.Appends.{append_ballot-open}

position_taken_last :
    (rows : List BallotRecord) (row : BallotRecord)
    → position_taken row.position (rows ++ row ∷ []) ≡ true
unfolding position_taken
position_taken_last [] row = ap (λ b. b || false) ((==_iff row.position row.position).1 refl)
position_taken_last (first ∷ rows) row = ground (arith, position_taken_last rows row)

module _ (pg : Postgres) where
  taken_insert_ballot :
      (db : Database) (other rec : BallotRecord) (ballot proofs : Bytes)
      → get_record rec.ballot_id (db.ballots ++ other ∷ []) ≡ none
      → rec.position ≡ other.position
      → pg.jsonb rec.encrypted_ballot ≡ some ballot
      → pg.jsonb rec.zk_proofs ≡ some proofs
      → contains pg.position_key_name (ascii "ballot") ≡ true
      → insert_ballot pg (record db { ballots = db.ballots ++ other ∷ [] }) rec answered
        ≡ (record db { ballots = db.ballots ++ other ∷ [] }, failed duplicate_ballot)
  unfolding insert_ballot insert_stored insert_row violation
  taken_insert_ballot db other rec ballot proofs fresh same b p name =
      let taken : position_taken rec.position (db.ballots ++ other ∷ []) ≡ true =
        rw (same) (position_taken_last db.ballots other) in
      rw (insert_ballot, b, p, insert_stored, insert_row, fresh, taken, violation, name)

  lost_attempt :
      (now : Attempt) (db : Database) (other : BallotRecord) (id ballot proofs b p : Bytes)
      → now.reads ≡ true
      → now.writes ≡ answered
      → now.others ≡ other ∷ []
      → other.position ≡ get_max_position db.ballots + 1
      → get_record id (db.ballots ++ other ∷ []) ≡ none
      → pg.jsonb ballot ≡ some b
      → pg.jsonb proofs ≡ some p
      → contains pg.position_key_name (ascii "ballot") ≡ true
      → attempt_insert pg now db id ballot proofs
        ≡ (record db { ballots = db.ballots ++ other ∷ [] }, failed duplicate_ballot)
  unfolding attempt_insert placed
  lost_attempt now db other id ballot proofs b p reads writes others place fresh bs ps name =
      let rec : BallotRecord = record {
        ballot_id = id;
        encrypted_ballot = ballot;
        zk_proofs = proofs;
        position = get_max_position db.ballots + 1;
        merkle_root_sha = [];
      } in
      rw (attempt_insert, reads, writes, others)
        (ap (placed (get_max_position db.ballots + 1))
          (taken_insert_ballot db other rec b p fresh (sym place) bs ps name))

  lost_attempts :
      (left : ℕ) (attempts : ℕ → Attempt) (db db' : Database) (id ballot proofs : Bytes)
      → attempt_insert pg (attempts (suc left)) db id ballot proofs ≡ (db', failed duplicate_ballot)
      → insert_attempts pg (suc left) attempts db id ballot proofs ≡ (db', failed duplicate_ballot)
  unfolding insert_attempts retries
  lost_attempts left attempts db db' id ballot proofs lost = rw (insert_attempts, lost, lost)

  -- Where another process takes the next position between the two statements of the first attempt, and
  -- the name of the constraint on positions contains "ballot", `AppendBallot` answers that the
  -- identifier exists, without a second attempt, though no row has it.
  pub append_ballot-lost_race :
      (sha256 : Bytes → Bytes) (w : World) (id ballot proofs b p : Bytes) (attempts : ℕ → Attempt)
      (other : BallotRecord)
      → w.board.is_sealed ≡ false
      → validated w.board.validate_fn ballot proofs ≡ true
      → (attempts max_retries).reads ≡ true
      → (attempts max_retries).writes ≡ answered
      → (attempts max_retries).others ≡ other ∷ []
      → other.position ≡ get_max_position w.database_rows.ballots + 1
      → get_record id (w.database_rows.ballots ++ other ∷ []) ≡ none
      → pg.jsonb ballot ≡ some b
      → pg.jsonb proofs ≡ some p
      → contains pg.position_key_name (ascii "ballot") ≡ true
      → ((append_ballot sha256 pg w id ballot proofs attempts).1 ≡ failed duplicate_ballot)
        × (get_record id
              (append_ballot sha256 pg w id ballot proofs attempts).0.database_rows.ballots
            ≡ none)
  append_ballot-lost_race sha256 w id ballot proofs b p attempts other e g reads writes others place
        fresh bs ps name =
      let db = w.database_rows in
      let lost =
        lost_attempts 2 attempts db (record db { ballots = db.ballots ++ other ∷ [] }) id ballot
          proofs
          (lost_attempt (attempts max_retries) db other id ballot proofs b p reads writes others
            place fresh bs ps name) in
      let answer : append_ballot sha256 pg w id ballot proofs attempts ≡ (
        record {
          database_rows = record db { ballots = db.ballots ++ other ∷ [] };
          board = w.board;
        },
        failed duplicate_ballot,
      ) =
        append_ballot-open sha256 pg w id ballot proofs attempts e g
        ∙ ap (inserted sha256 w.board (encode_leaf id ballot proofs)) lost
        ∙ unfold inserted in refl in
      (ap (λ x. x.1) answer, ap (λ x. get_record id x.0.database_rows.ballots) answer ∙ fresh)
