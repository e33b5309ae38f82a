-- ===== src/Board/Stored.antt =====
-- bulletin-board: the JSON texts that `AppendBallot` hashes and those that the database gives back.
use otvoren_vot.Prelude.{
  ℕ, suc, ◌+◌, ◌≡◌, refl, ap, ◌∙◌, true, false, none, some, List, [], ◌∷◌, ◌++◌, map, Bytes,
  bytes_eq, ascii, arith, length, append-nil, hex_encode,
}
use otvoren_vot.Merkle.Hash.{Hash, ok, leaf_hash}
use otvoren_vot.Merkle.Tree.{new, root}
use otvoren_vot.Merkle.Spec.{mth}
use otvoren_vot.Merkle.Levels.{new-Holds, append-Holds}
use otvoren_vot.Merkle.Range.{root_lem}
use otvoren_vot.Board.Store.{
  BallotRecord, Database, Postgres, returned, insert_row, insert_stored, insert_ballot, answered,
  encode_leaf, leaf_data, get_board_state, get_all_leaf_data,
}
use otvoren_vot.Board.Service.{
  World, Attempt, validated, placed, attempt_insert, insert_attempts, max_retries, inserted, grown,
  append_result, append_ballot, with_tree, new_board,
}
use otvoren_vot.Board.Valid.{
  IsValid, Numbered, leaf_of, Numbered-append, get_max_position_lem, position_taken_free,
  in_order_lem, map-append,
}
use otvoren_vot.Board.Inserts.{Fresh, with_row, next_record}
use otvoren_vot.Board.Appends.{append_ballot-open}
use otvoren_vot.Board.Proofs.{append_all-Holds}

module _ (pg : Postgres) where
  stored_insert_ballot :
      (db : Database) (rec : BallotRecord) (ballot proofs : Bytes)
      → Numbered 0 db.ballots
      → rec.position ≡ length db.ballots + 1
      → Fresh db rec.ballot_id
      → pg.jsonb rec.encrypted_ballot ≡ some ballot
      → pg.jsonb rec.zk_proofs ≡ some proofs
      → insert_ballot pg db rec answered
        ≡ (with_row db (record rec { encrypted_ballot = ballot; zk_proofs = proofs }), returned tt)
  unfolding insert_ballot insert_stored insert_row
  stored_insert_ballot db rec ballot proofs v at fresh b p = rw (
    insert_ballot,
    b,
    p,
    insert_stored,
    insert_row,
    fresh,
    position_taken_free 0 rec.position db.ballots v (omega arith),
  )

  stored_attempt :
      (now : Attempt) (db : Database) (id ballot proofs stored_ballot stored_proofs : Bytes)
      → Numbered 0 db.ballots
      → Fresh db id
      → now.reads ≡ true
      → now.writes ≡ answered
      → now.others ≡ []
      → pg.jsonb ballot ≡ some stored_ballot
      → pg.jsonb proofs ≡ some stored_proofs
      → attempt_insert pg now db id ballot proofs ≡ (
        with_row db (next_record db id stored_ballot stored_proofs),
        returned (length db.ballots + 1),
      )
  unfolding attempt_insert placed
  stored_attempt now db id ballot proofs sb sp v fresh reads writes others b p =
      rw
        (
          attempt_insert,
          reads,
          writes,
          others,
          append-nil db.ballots,
          get_max_position_lem db.ballots v,
        )
        (ap (placed (length db.ballots + 1))
          (stored_insert_ballot db (next_record db id ballot proofs) sb sp v refl fresh b p))

  stored_attempts :
      (left n : ℕ) (attempts : ℕ → Attempt) (db db' : Database) (id ballot proofs : Bytes)
      → attempt_insert pg (attempts (suc left)) db id ballot proofs ≡ (db', returned n)
      → insert_attempts pg (suc left) attempts db id ballot proofs ≡ (db', returned n)
  unfolding insert_attempts
  stored_attempts left n attempts db db' id ballot proofs done = rw (insert_attempts, done, done)

  module _ (sha256 : Bytes → Bytes) where
    -- The leaf hashes of the table, and one more for this ballot.
    abbrev pub hashes_with : World → Bytes → Bytes → Bytes → List Hash
    hashes_with w id ballot proofs =
        map (leaf_of sha256) w.database_rows.ballots
        ++ leaf_hash sha256 (encode_leaf id ballot proofs) ∷ []

    grown_lem :
        (w : World) (db : Database) (id ballot proofs : Bytes) (n : ℕ)
        → IsValid sha256 w
        → ((inserted sha256 w.board (encode_leaf id ballot proofs) (db, returned n)).1
            ≡ returned (record {
              position = n;
              merkle_root = hex_encode (mth sha256 (hashes_with w id ballot proofs));
            }))
          × ((inserted sha256 w.board
                (encode_leaf id ballot proofs)
                (db, returned n)).0.database_rows
              ≡ db)
    unfolding inserted grown append_result
    grown_lem w db id ballot proofs n (numbered, holds, agreed) =
        let (t, grows, whole) =
          append-Holds sha256 w.board.tree (map (leaf_of sha256) w.database_rows.ballots)
            (encode_leaf id ballot proofs) holds in
        (rw (grows, root_lem sha256 t _ whole), rw (grows, root_lem sha256 t _ whole))

    restarted :
        (w : World) (id ballot proofs : Bytes)
        → IsValid sha256 w
        → (w' : World) × (new_board sha256
              (with_row w.database_rows (next_record w.database_rows id ballot proofs))
            ≡ returned w')
          × (root sha256 w'.board.tree ≡ ok (mth sha256 (hashes_with w id ballot proofs)))
    unfolding new_board with_tree get_all_leaf_data leaf_data
    restarted w id ballot proofs (numbered, holds, agreed) =
        let db = w.database_rows in
        let rec = next_record db id ballot proofs in
        let rows = db.ballots ++ rec ∷ [] in
        let longer : Numbered 0 rows = Numbered-append 0 db.ballots rec numbered (omega arith) in
        let (t, built, whole) = append_all-Holds sha256 new [] rows (new-Holds sha256) in
        (
          record {
            database_rows = with_row db rec;
            board = record {
              tree = t;
              is_sealed =
                  bytes_eq (get_board_state (with_row db rec) (ascii "sealed")) (ascii "true");
              validate_fn = none;
            };
          },
          rw (in_order_lem 0 rows longer, built),
          root_lem sha256 t _ whole
              ∙ ap (λ l. ok (mth sha256 l)) (map-append (leaf_of sha256) db.ballots (rec ∷ [])),
        )

    -- A new ballot that passes the checks is appended where its two JSON texts are stored in whatever
    -- form: the root in the answer is over the texts that were sent, and the root after a restart is over
    -- the texts that are stored.
    pub append_ballot-stored :
        (w : World) (id ballot proofs stored_ballot stored_proofs : Bytes) (attempts : ℕ → Attempt)
        → IsValid sha256 w
        → w.board.is_sealed ≡ false
        → validated w.board.validate_fn ballot proofs ≡ true
        → Fresh w.database_rows id
        → (attempts max_retries).reads ≡ true
        → (attempts max_retries).writes ≡ answered
        → (attempts max_retries).others ≡ []
        → pg.jsonb ballot ≡ some stored_ballot
        → pg.jsonb proofs ≡ some stored_proofs
        → ((append_ballot sha256 pg w id ballot proofs attempts).1
            ≡ returned (record {
              position = length w.database_rows.ballots + 1;
              merkle_root = hex_encode (mth sha256 (hashes_with w id ballot proofs));
            }))
          × ((w' : World) × (new_board sha256
                  (append_ballot sha256 pg w id ballot proofs attempts).0.database_rows
                ≡ returned w')
              × (root sha256 w'.board.tree
                  ≡ ok (mth sha256 (hashes_with w id stored_ballot stored_proofs))))
    append_ballot-stored w id ballot proofs sb sp attempts v e g fresh reads writes others b p =
        let db = w.database_rows in
        let db' = with_row db (next_record db id sb sp) in
        let done = stored_attempts 2 (length db.ballots + 1) attempts db db' id ballot proofs (
          stored_attempt (attempts max_retries) db id ballot proofs sb sp v.0 fresh reads writes
            others b p) in
        let whole =
          append_ballot-open sha256 pg w id ballot proofs attempts e g
          ∙ ap (inserted sha256 w.board (encode_leaf id ballot proofs)) done in
        let (answer, table) = grown_lem w db' id ballot proofs (length db.ballots + 1) v in
        let (w', starts, its_root) = restarted w id sb sp v in
        (
          ap (λ x. x.1) whole ∙ answer,
          (
            w',
            ap (λ x. new_board sha256 x.0.database_rows) whole
                ∙ ap (new_board sha256) table
                ∙ starts,
            its_root,
          ),
        )
