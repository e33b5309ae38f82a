-- ===== src/Board/Api.antt =====
-- bulletin-board/api/handlers_public.go and handlers_internal.go, and the pages that tally/bbclient.go
-- fetches. A cursor is the base64 text of a decimal position: its printing and its parsing are parameters.
use otvoren_vot.Prelude.{
  ℕ, zero, suc, Bool, true, false, ◌&&◌, Option, none, some, List, [], ◌∷◌, map, Bytes, ltb, leb,
  ◌==◌, if◌then◌else◌, length, Reply, success, failure, hex_encode,
}
use otvoren_vot.Merkle.Tree.{size}
use otvoren_vot.Tally.Compute.{SerializedBallot}
use otvoren_vot.Board.Store.{
  BallotRecord, Postgres, board_sealed, duplicate_ballot, position_conflict, proof_validation,
  database, not_in_tree, Outcome, returned, failed, panicked, list_ballots,
}
use otvoren_vot.Board.Service.{World, Attempt, AppendResult, Inclusion, append_ballot, get_ballot}

-- The query's cursor: none given, no base64, or the number that ParseInt gives (0 for no number).
pub data Cursor : Type 0 where
  no_cursor invalid_cursor : Cursor
  position_cursor : ℕ → Cursor

pub record Page : Type 0 where
  pub records : List BallotRecord
  pub next : Option ℕ
  pub total : ℕ

pub record BallotResponse : Type 0 where
  pub ballot : BallotRecord
  pub merkle_proof : List Bytes
  pub tree_size : ℕ
  pub root_sha256 : Bytes

pub record SubmitRequest : Type 0 where
  pub ballot_id : Bytes
  pub encrypted_ballot : Bytes
  pub zk_proofs : Bytes

-- The limit of the query, where it is a number: 100 for one out of range.
unfoldable pub page_limit : Option ℕ → ℕ
page_limit none = 100
page_limit (some parsed) = if ltb 0 parsed && leb parsed 1000 then parsed else 100

unfoldable pub last_position : List BallotRecord → Option ℕ
last_position [] = none
last_position (row ∷ []) = some row.position
last_position (row ∷ next ∷ rows) = last_position (next ∷ rows)

-- The position of the last record of a full page.
unfoldable pub next_cursor : ℕ → List BallotRecord → Option ℕ
unfolding last_position
next_cursor limit records = elim (length records == limit) [
  | true ↦ last_position records
  | false ↦ none
]

unfoldable pub page_of : World → ℕ → ℕ → Page
unfolding next_cursor
page_of w after_position limit =
    let records = list_ballots after_position limit w.database_rows.ballots in
    record { records = records; next = next_cursor limit records; total = size w.board.tree }

-- `handleListBallots`, with whether the query runs.
unfoldable pub handle_list_ballots : World → Cursor → Option ℕ → Bool → Reply Page
unfolding page_of page_limit
handle_list_ballots w invalid_cursor limit runs = failure 400 "invalid_cursor"
handle_list_ballots w no_cursor limit false = failure 500 "internal"
handle_list_ballots w no_cursor limit true = success (page_of w 0 (page_limit limit))
handle_list_ballots w (position_cursor n) limit false = failure 500 "internal"
handle_list_ballots w (position_cursor n) limit true = success (page_of w n (page_limit limit))

unfoldable pub ballot_response : Option (Outcome (BallotRecord × Inclusion)) → Reply BallotResponse
ballot_response none = failure 404 "ballot_not_found"
ballot_response (some (failed f)) = failure 500 "internal"
ballot_response (some panicked) = failure 500 "panic"
ballot_response (some (returned (rec, inc))) = success (record {
  ballot = rec;
  merkle_proof = map hex_encode inc.proof;
  tree_size = inc.tree_size;
  root_sha256 = hex_encode inc.tree_root;
})

unfoldable pub submit_reply : Outcome AppendResult → Reply AppendResult
submit_reply (returned a) = success a
submit_reply panicked = failure 500 "panic"
submit_reply (failed board_sealed) = failure 409 "board_sealed"
submit_reply (failed duplicate_ballot) = failure 409 "duplicate_ballot"
submit_reply (failed position_conflict) = failure 500 "internal"
submit_reply (failed proof_validation) = failure 500 "internal"
submit_reply (failed database) = failure 500 "internal"
submit_reply (failed not_in_tree) = failure 500 "internal"

module _ (sha256 : Bytes → Bytes) where
  -- `handleGetBallot`, where the query runs.
  unfoldable pub handle_get_ballot : World → Bytes → Reply BallotResponse
  unfolding ballot_response
  handle_get_ballot w ballot_id = elim (length ballot_id == 0) [
    | true ↦ failure 400 "missing_id"
    | false ↦ ballot_response (get_ballot sha256 w ballot_id)
  ]

  -- `handleSubmitBallot`; a body that does not parse is none.
  unfoldable pub handle_submit_ballot :
      Postgres → World → Option SubmitRequest → (ℕ → Attempt) → World × Reply AppendResult
  unfolding submit_reply
  handle_submit_ballot pg w none attempts = (w, failure 400 "invalid_body")
  handle_submit_ballot pg w (some req) attempts = elim (length req.ballot_id == 0) [
    | true ↦ (w, failure 400 "missing_ballot_id")
    | false ↦
        let (w', result) =
          append_ballot sha256 pg w req.ballot_id req.encrypted_ballot req.zk_proofs attempts in
        (w', submit_reply result)
  ]

-- What the client keeps of a record.
unfoldable pub serialized : BallotRecord → SerializedBallot
serialized row = record { ballot_id = row.ballot_id; encrypted_ballot = row.encrypted_ballot }

-- What the client makes of a page: how long its JSON is, the text of a cursor, and the cursor that the
-- board reads in that text.
pub record Wire : Type 0 where
  pub page_size : Page → ℕ
  pub cursor_text : ℕ → Bytes
  pub decode_cursor : Bytes → Cursor

-- The client reads 64 MiB of a response.
abbrev pub max_response : ℕ
max_response = 67_108_864

-- The page as `fetchPage` decodes it, with the cursor's text. A response that is no page, or is cut off
-- at the limit, is none.
unfoldable pub fetched : Wire → Reply Page → Option (List SerializedBallot × Bytes)
unfolding serialized
fetched wire (failure status code) = none
fetched wire (success page) = elim (leb (wire.page_size page) max_response) [
  | false ↦ none
  | true ↦ elim page.next [
    | none ↦ some (map serialized page.records, [])
    | some n ↦ some (map serialized page.records, wire.cursor_text n)
  ]
]

unfoldable pub cursor_after : Reply Page → Option ℕ
cursor_after (failure status code) = none
cursor_after (success page) = page.next

-- The answers to the client's requests, each with the cursor of the answer before: at most `fuel`.
unfoldable pub answers :
    Wire → World → ℕ → ℕ → Cursor → List (Option (List SerializedBallot × Bytes))
unfolding fetched cursor_after handle_list_ballots
answers wire w limit zero start = []
answers wire w limit (suc fuel) start =
    let reply = handle_list_ballots w start (some limit) true in
    fetched wire reply ∷ (elim (cursor_after reply) [
      | none ↦ []
      | some n ↦ answers wire w limit fuel (wire.decode_cursor (wire.cursor_text n))
    ])
