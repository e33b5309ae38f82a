-- ===== src/Board/Service.antt =====
-- bulletin-board/board/board.go. The methods hold the board's mutex, so each is one step. `GetBallot`
-- reads the table before it takes the mutex; the table only grows, so the record it found is still there.
use otvoren_vot.Prelude.{
  ℕ, zero, suc, ◌+◌, ◌-◌, Bool, true, false, not, ◌&&◌, ◌||◌, Option, none, some, List, [], ◌∷◌,
  ◌++◌, Bytes, bytes_eq, ltb, leb, ◌==◌, ascii, hex_encode,
}
use otvoren_vot.Merkle.Hash.{Hash, Result, ok, err, panic, ◌>>=◌}
use otvoren_vot.Merkle.Tree.{Tree, new, size, append, root, inclusion_proof}
use otvoren_vot.Board.Store.{
  BallotRecord, Database, Postgres, Failure, Write, board_sealed, duplicate_ballot,
  position_conflict, proof_validation, database, not_in_tree, Outcome, returned, failed, panicked,
  get_max_position, get_record, insert_ballot, encode_leaf, get_all_leaf_data, get_board_state,
  set_board_state,
}

pub record Board : Type 0 where
  pub tree : Tree
  pub is_sealed : Bool
  -- The proofs' check, none where none is set: true where it returns no error.
  pub validate_fn : Option (Bytes → Bytes → Bool)

-- The board with the database that it stands on.
pub record World : Type 0 where
  pub database_rows : Database
  pub board : Board

pub record AppendResult : Type 0 where
  pub position : ℕ
  pub merkle_root : Bytes

pub record Inclusion : Type 0 where
  pub proof : List Hash
  pub tree_size : ℕ
  pub tree_root : Hash

-- What the database does in one attempt to insert: whether the query runs, the rows that another process
-- commits after it, and what becomes of the INSERT.
pub record Attempt : Type 0 where
  pub reads : Bool
  pub others : List BallotRecord
  pub writes : Write

abbrev pub max_retries : ℕ
max_retries = 3

-- The proofs' check, where one is set.
unfoldable pub validated : Option (Bytes → Bytes → Bool) → Bytes → Bytes → Bool
validated none encrypted_ballot zk_proofs = true
validated (some validate) encrypted_ballot zk_proofs = validate encrypted_ballot zk_proofs

unfoldable pub retries : Failure → Bool
retries position_conflict = true
retries board_sealed = false
retries duplicate_ballot = false
retries proof_validation = false
retries database = false
retries not_in_tree = false

unfoldable pub placed : ℕ → Database × Outcome (Unit {0}) → Database × Outcome ℕ
placed position (db, returned u) = (db, returned position)
placed position (db, failed failure) = (db, failed failure)
placed position (db, panicked) = (db, panicked)

-- One attempt: the row goes after the highest position.
unfoldable pub attempt_insert :
    Postgres → Attempt → Database → Bytes → Bytes → Bytes → Database × Outcome ℕ
unfolding placed
attempt_insert pg now db ballot_id encrypted_ballot zk_proofs = elim now.reads [
  | false ↦ (db, failed database)
  | true ↦
      let position = get_max_position db.ballots + 1 in
      placed position (
        insert_ballot pg (record db { ballots = db.ballots ++ now.others })
          (record {
            ballot_id = ballot_id;
            encrypted_ballot = encrypted_ballot;
            zk_proofs = zk_proofs;
            position = position;
            merkle_root_sha = [];
          })
          now.writes)
]

-- The loop over the attempts, with the number that are left: the position of the row inserted. The first
-- clause is not reached, since the last attempt returns.
unfoldable pub insert_attempts :
    Postgres → ℕ → (ℕ → Attempt) → Database → Bytes → Bytes → Bytes → Database × Outcome ℕ
unfolding retries attempt_insert
insert_attempts pg zero attempts db ballot_id encrypted_ballot zk_proofs =
    (db, failed position_conflict)
insert_attempts pg (suc left) attempts db ballot_id encrypted_ballot zk_proofs =
    let (db', result) =
      attempt_insert pg (attempts (suc left)) db ballot_id encrypted_ballot zk_proofs in
    elim result [
      | returned position ↦ (db', returned position)
      | panicked ↦ (db', panicked)
      | failed failure ↦ elim (retries failure && not (left == 0)) [
        | false ↦ (db', failed failure)
        | true ↦ insert_attempts pg left attempts db' ballot_id encrypted_ballot zk_proofs
      ]
    ]

module _ (sha256 : Bytes → Bytes) where
  -- b.tree.Append for each leaf.
  unfoldable pub append_all : Tree → List Bytes → Result Tree
  append_all tree [] = ok tree
  append_all tree (leaf ∷ leaves) = append sha256 tree leaf >>= λ t. append_all t leaves

  unfoldable pub with_tree : Database → Board → Result Tree → Outcome World
  with_tree db board (ok t) =
      returned (record { database_rows = db; board = record board { tree = t } })
  with_tree db board (err e) = panicked
  with_tree db board panic = panicked

  -- `New`, where both reads of the database succeed: the tree is built from the table.
  unfoldable pub new_board : Database → Outcome World
  unfolding append_all with_tree
  new_board db =
      with_tree db
        (record {
          tree = new;
          is_sealed = bytes_eq (get_board_state db (ascii "sealed")) (ascii "true");
          validate_fn = none;
        })
        (append_all new (get_all_leaf_data db.ballots))

  -- The result of `AppendBallot` from the tree's root after the append.
  unfoldable pub append_result : World → ℕ → Result Hash → World × Outcome AppendResult
  append_result w position (ok h) =
      (w, returned (record { position = position; merkle_root = hex_encode h }))
  append_result w position (err e) = (w, panicked)
  append_result w position panic = (w, panicked)

  unfoldable pub grown : Database → Board → ℕ → Result Tree → World × Outcome AppendResult
  unfolding append_result
  grown db board position (ok t) =
      append_result (record { database_rows = db; board = record board { tree = t } }) position
        (root sha256 t)
  grown db board position (err e) = (record { database_rows = db; board = board }, panicked)
  grown db board position panic = (record { database_rows = db; board = board }, panicked)

  -- The tree is updated once the database has the row.
  unfoldable pub inserted : Board → Bytes → Database × Outcome ℕ → World × Outcome AppendResult
  unfolding grown
  inserted board leaf (db, returned position) =
      grown db board position (append sha256 board.tree leaf)
  inserted board leaf (db, failed failure) =
      (record { database_rows = db; board = board }, failed failure)
  inserted board leaf (db, panicked) = (record { database_rows = db; board = board }, panicked)

  unfoldable pub append_ballot :
      Postgres → World → Bytes → Bytes → Bytes → (ℕ → Attempt) → World × Outcome AppendResult
  unfolding inserted validated insert_attempts
  append_ballot pg w ballot_id encrypted_ballot zk_proofs attempts = elim w.board.is_sealed [
    | true ↦ (w, failed board_sealed)
    | false ↦ elim (validated w.board.validate_fn encrypted_ballot zk_proofs) [
      | false ↦ (w, failed proof_validation)
      | true ↦ inserted w.board (encode_leaf ballot_id encrypted_ballot zk_proofs) (
          insert_attempts pg max_retries attempts w.database_rows ballot_id encrypted_ballot
            zk_proofs)
    ]
  ]

  unfoldable pub inclusion_result :
      BallotRecord → ℕ → Result (List Hash) → Result Hash → Outcome (BallotRecord × Inclusion)
  inclusion_result rec n (ok proof) (ok h) =
      returned (rec, record { proof = proof; tree_size = n; tree_root = h })
  inclusion_result rec n (ok proof) (err e) = panicked
  inclusion_result rec n (ok proof) panic = panicked
  inclusion_result rec n (err e) r = failed not_in_tree
  inclusion_result rec n panic r = panicked

  -- The proof of a record against the tree.
  unfoldable pub inclusion_of : Board → BallotRecord → Outcome (BallotRecord × Inclusion)
  unfolding inclusion_result
  inclusion_of board rec =
      let n = size board.tree in
      elim (ltb rec.position 1 || leb n (rec.position - 1)) [
        | true ↦ failed not_in_tree
        | false ↦
            inclusion_result rec n (inclusion_proof sha256 board.tree (rec.position - 1) n)
              (root sha256 board.tree)
      ]

  -- `GetBallot`, where the query of the table runs: none where no ballot has the identifier.
  unfoldable pub get_ballot : World → Bytes → Option (Outcome (BallotRecord × Inclusion))
  unfolding inclusion_of
  get_ballot w ballot_id = elim (get_record ballot_id w.database_rows.ballots) [
    | none ↦ none
    | some rec ↦ some (inclusion_of w.board rec)
  ]

  -- `Root`: the hex text of the root, empty for the empty tree.
  unfoldable pub root_text : Board → Result Bytes
  root_text board = elim (size board.tree == 0) [
    | true ↦ ok []
    | false ↦ root sha256 board.tree >>= λ h. ok (hex_encode h)
  ]

-- `Seal`, with whether the statement runs.
unfoldable pub seal : World → Bool → World × Outcome (Unit {0})
seal w false = (w, failed database)
seal w true = (
  record {
    database_rows = set_board_state w.database_rows (ascii "sealed") (ascii "true");
    board = record w.board { is_sealed = true };
  },
  returned tt,
)
