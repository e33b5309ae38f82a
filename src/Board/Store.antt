-- ===== src/Board/Store.antt =====
-- bulletin-board/store/postgres.go, over the tables that store/migrations creates. The triggers forbid
-- updates and deletions, so `ballots` only grows. What PostgreSQL does of itself is the record
-- `Postgres`; whether a statement runs is an argument. Submission times and signed roots are left out.
use otvoren_vot.Prelude.{
  ℕ, Bool, true, false, ◌&&◌, ◌||◌, Option, none, some, List, [], ◌∷◌, ◌++◌, map, take, Bytes,
  bytes_eq, ltb, leb, ◌==◌, if◌then◌else◌, ascii, length_prefixed, lookup, insert, bytes_Eq,
}

pub record BallotRecord : Type 0 where
  pub ballot_id : Bytes
  pub encrypted_ballot : Bytes
  pub zk_proofs : Bytes
  pub position : ℕ
  pub merkle_root_sha : Bytes

pub record Database : Type 0 where
  pub ballots : List BallotRecord
  pub board_state : List (Bytes × Bytes)

-- The errors that the board tells apart. `database` is any other error of the driver.
pub data Failure : Type 0 where
  board_sealed duplicate_ballot position_conflict proof_validation database not_in_tree : Failure

-- What a call returns: a value, an error, or a run-time panic.
pub data Outcome {ℓ} (A : Type ℓ) : Type ℓ where
  returned : A → Outcome A
  failed : Failure → Outcome A
  panicked : Outcome A

-- `jsonb text` is the text that comes back for a JSONB value made from `text`, none where it is no JSON.
-- The names are those that the server gives the constraints of the table `ballots`.
pub record Postgres : Type 0 where
  pub jsonb : Bytes → Option Bytes
  pub primary_key_name : Bytes
  pub position_key_name : Bytes

unfoldable pub has_prefix : Bytes → Bytes → Bool
has_prefix bytes [] = true
has_prefix [] (p ∷ prefix) = false
has_prefix (b ∷ bytes) (p ∷ prefix) = b == p && has_prefix bytes prefix

-- strings.Contains
unfoldable pub contains : Bytes → Bytes → Bool
unfolding has_prefix
contains [] part = has_prefix [] part
contains (b ∷ bytes) part = has_prefix (b ∷ bytes) part || contains bytes part

-- SELECT MAX(position) FROM ballots, and 0 for the empty table.
unfoldable pub get_max_position : List BallotRecord → ℕ
get_max_position [] = 0
get_max_position (row ∷ rows) =
    let most = get_max_position rows in if ltb most row.position then row.position else most

-- SELECT ... FROM ballots WHERE ballot_id = $1
unfoldable pub get_record : Bytes → List BallotRecord → Option BallotRecord
get_record id [] = none
get_record id (row ∷ rows) = elim (bytes_eq row.ballot_id id) [
  | true ↦ some row
  | false ↦ get_record id rows
]

-- Whether the unique index on the position has an entry.
unfoldable pub position_taken : ℕ → List BallotRecord → Bool
position_taken n [] = false
position_taken n (row ∷ rows) = row.position == n || position_taken n rows

-- ORDER BY position ASC
unfoldable pub put_in_order : BallotRecord → List BallotRecord → List BallotRecord
put_in_order row [] = row ∷ []
put_in_order row (next ∷ rows) =
    let rest = put_in_order row rows in
    if leb row.position next.position then row ∷ next ∷ rows else next ∷ rest

unfoldable pub in_order : List BallotRecord → List BallotRecord
unfolding put_in_order
in_order [] = []
in_order (row ∷ rows) = put_in_order row (in_order rows)

-- WHERE position > $1
unfoldable pub after : ℕ → List BallotRecord → List BallotRecord
after n [] = []
after n (row ∷ rows) = let rest = after n rows in if ltb n row.position then row ∷ rest else rest

unfoldable pub list_ballots : ℕ → ℕ → List BallotRecord → List BallotRecord
unfolding after in_order
list_ballots after_position limit rows = take limit (in_order (after after_position rows))

-- The error of a violated constraint, by the name of the constraint.
unfoldable pub violation : Bytes → Failure
unfolding contains
violation name = if contains name (ascii "ballot") then duplicate_ballot else position_conflict

-- The row of an INSERT whose values the server accepts, against the two unique indexes.
unfoldable pub insert_row : Postgres → Database → BallotRecord → Database × Outcome (Unit {0})
unfolding violation get_record position_taken
insert_row pg db row = elim (get_record row.ballot_id db.ballots) [
  | some old ↦ (db, failed (violation pg.primary_key_name))
  | none ↦ elim (position_taken row.position db.ballots) [
    | true ↦ (db, failed (violation pg.position_key_name))
    | false ↦ (record db { ballots = db.ballots ++ row ∷ [] }, returned tt)
  ]
]

-- The row with its two JSONB columns as they are stored.
unfoldable pub insert_stored :
    Postgres → Database → BallotRecord → Option Bytes → Option Bytes → Database × Outcome (Unit {0})
unfolding insert_row
insert_stored pg db rec (some ballot) (some proofs) =
    insert_row pg db (record rec { encrypted_ballot = ballot; zk_proofs = proofs })
insert_stored pg db rec (some ballot) none = (db, failed database)
insert_stored pg db rec none proofs = (db, failed database)

-- What becomes of an INSERT: it is not run, it is run and answered, or it is run and the answer is lost,
-- in which case the driver returns an error of its own.
pub data Write : Type 0 where
  not_run answered unanswered : Write

unfoldable pub insert_ballot :
    Postgres → Database → BallotRecord → Write → Database × Outcome (Unit {0})
unfolding insert_stored
insert_ballot pg db rec not_run = (db, failed database)
insert_ballot pg db rec answered =
    insert_stored pg db rec (pg.jsonb rec.encrypted_ballot) (pg.jsonb rec.zk_proofs)
insert_ballot pg db rec unanswered = (
  (insert_stored pg db rec (pg.jsonb rec.encrypted_ballot) (pg.jsonb rec.zk_proofs)).0,
  failed database,
)

-- `board.EncodeLeaf`, and the same encoding in `GetAllLeafData`.
unfoldable pub encode_leaf : Bytes → Bytes → Bytes → Bytes
unfolding length_prefixed
encode_leaf ballot_id encrypted_ballot zk_proofs =
    length_prefixed ballot_id ++ (length_prefixed encrypted_ballot ++ length_prefixed zk_proofs)

unfoldable pub leaf_data : BallotRecord → Bytes
unfolding encode_leaf
leaf_data row = encode_leaf row.ballot_id row.encrypted_ballot row.zk_proofs

unfoldable pub get_all_leaf_data : List BallotRecord → List Bytes
unfolding leaf_data in_order
get_all_leaf_data rows = map leaf_data (in_order rows)

-- The empty string for a key that the table has not.
unfoldable pub get_board_state : Database → Bytes → Bytes
get_board_state db key = elim (lookup key db.board_state) [ none ↦ [] | some value ↦ value ]

unfoldable pub set_board_state : Database → Bytes → Bytes → Database
set_board_state db key value = record db { board_state = insert key value db.board_state }
