-- ===== src/Board/Examples.antt =====
-- The theorems on bulletin-board at a board of two ballots, with the identity in place of SHA-256 and a
-- database that stores every text as it is.
use otvoren_vot.Prelude.{
  ℕ, ◌⊎◌, length, length-take, ◌≤◌, ◌≡◌, refl, true, false, none, some, [], ◌∷◌, ◌++◌, map, Bytes,
  bytes_eq, ascii, arith, take, len64, trailing_zeros64, lookup, hex_encode,
}
use otvoren_vot.Merkle.Hash.{Hash, ok, leaf_hash, node_hash}
use otvoren_vot.Merkle.Tree.{append, root, split_point}
use otvoren_vot.Merkle.Verify.{verify_inclusion}
use otvoren_vot.Merkle.Spec.{mth}
use otvoren_vot.Merkle.Levels.{pairs}
use otvoren_vot.Tally.Compute.{fetch_all_ballots}
use otvoren_vot.Board.Store.{
  BallotRecord, Postgres, returned, failed, board_sealed, duplicate_ballot, get_record,
  get_max_position, list_ballots, in_order, after, insert_ballot, answered, unanswered, not_in_tree,
  leaf_data, encode_leaf, contains, has_prefix, get_board_state,
}
use otvoren_vot.Board.Service.{
  World, Attempt, Inclusion, append_ballot, get_ballot, new_board, seal, validated,
}
use otvoren_vot.Board.Api.{
  answers, Cursor, no_cursor, invalid_cursor, position_cursor, serialized, Wire, max_response,
  page_of,
}
use otvoren_vot.Board.Valid.{IsValid, leaf_of}
use otvoren_vot.Board.Inserts.{Canonical}
use otvoren_vot.Board.Appends.{Lost, append_ballot-IsValid}
use otvoren_vot.Board.Proofs.{get_ballot-verify_inclusion, new_board-IsValid, seal-new_board}
use otvoren_vot.Board.Recorded.{append_ballot-get_ballot, encode_leaf_inj}
use otvoren_vot.Board.Races.{append_ballot-lost_race}
use otvoren_vot.Board.Stored.{hashes_with, append_ballot-stored}
use otvoren_vot.Board.Paging.{fetch_all_ballots-answers}

abbrev same : Bytes → Bytes
same bytes = bytes

abbrev as_is : Postgres
as_is = record {
  jsonb = some;
  primary_key_name = ascii "ballots_pkey";
  position_key_name = ascii "ballots_position_key";
}

abbrev row_at : ℕ → BallotRecord
row_at n = record {
  ballot_id = n ∷ [];
  encrypted_ballot = 5 ∷ [];
  zk_proofs = 6 ∷ [];
  position = n;
  merkle_root_sha = [];
}

abbrev leaf_at : ℕ → Hash
leaf_at n = leaf_of same (row_at n)

abbrev two : World
two = record {
  database_rows = record { ballots = row_at 1 ∷ row_at 2 ∷ []; board_state = [] };
  board = record {
    tree = record {
      levels = (leaf_at 1 ∷ leaf_at 2 ∷ []) ∷ (node_hash same (leaf_at 1) (leaf_at 2) ∷ []) ∷ [];
    };
    is_sealed = false;
    validate_fn = none;
  };
}

two-IsValid : IsValid same two
unfolding pairs get_board_state lookup bytes_eq
two-IsValid = ((refl, (refl, tt)), (refl, omega arith, (refl, omega arith, refl)), refl)

abbrev runs : ℕ → Attempt
runs n = record { reads = true; others = []; writes = answered }

as_is-Canonical : (text : Bytes) → Canonical as_is text
as_is-Canonical text stored h = cc

abbrev cut_off : ℕ → Attempt
cut_off n = record { reads = true; others = []; writes = unanswered }

append_ballot-IsValid_example :
    IsValid same (append_ballot same as_is two (3 ∷ []) (5 ∷ []) (6 ∷ []) cut_off).0
    ⊎ Lost same as_is two (3 ∷ []) (5 ∷ []) (6 ∷ []) cut_off
append_ballot-IsValid_example =
    append_ballot-IsValid same as_is two (3 ∷ []) (5 ∷ []) (6 ∷ []) cut_off two-IsValid
      (as_is-Canonical (5 ∷ [])) (as_is-Canonical (6 ∷ [])) (λ n. refl)

-- After the call whose answer was lost, the board lists a ballot that it has no proof of.
lost_ballot :
    get_ballot same (append_ballot same as_is two (3 ∷ []) (5 ∷ []) (6 ∷ []) cut_off).0 (3 ∷ [])
    ≡ some (failed not_in_tree)
unfolding append_ballot insert_ballot bytes_eq get_max_position get_ballot
    otvoren_vot.Merkle.Tree.size
lost_ballot = refl

abbrev third_root : Hash
third_root = node_hash same (node_hash same (leaf_at 1) (leaf_at 2)) (leaf_at 3)

third_answer :
    (append_ballot same as_is two (3 ∷ []) (5 ∷ []) (6 ∷ []) runs).1
    ≡ returned (record { position = 3; merkle_root = hex_encode third_root })
unfolding append_ballot insert_ballot bytes_eq get_max_position append root split_point len64
    trailing_zeros64 leaf_data encode_leaf
third_answer = refl

append_ballot-get_ballot_example :
    (rec : BallotRecord) × (inc : Inclusion) × (get_ballot same
        (append_ballot same as_is two (3 ∷ []) (5 ∷ []) (6 ∷ []) runs).0
        (3 ∷ [])
      ≡ some (returned (rec, inc)))
    × (rec.position ≡ 3)
    × (hex_encode inc.tree_root ≡ hex_encode third_root)
    × (verify_inclusion same
          (leaf_hash same (encode_leaf (3 ∷ []) (5 ∷ []) (6 ∷ [])))
          2
          inc.tree_size
          inc.proof
          inc.tree_root
        ≡ ok tt)
append_ballot-get_ballot_example =
    append_ballot-get_ballot same as_is two (3 ∷ []) (5 ∷ []) (6 ∷ []) runs
      (record { position = 3; merkle_root = hex_encode third_root }) two-IsValid
      (as_is-Canonical (5 ∷ [])) (as_is-Canonical (6 ∷ [])) (λ n. refl) third_answer

get_ballot-verify_inclusion_example :
    (inc : Inclusion) × (get_ballot same two (2 ∷ []) ≡ some (returned (row_at 2, inc)))
    × (root same two.board.tree ≡ ok inc.tree_root)
    × (verify_inclusion same (leaf_at 2) 1 inc.tree_size inc.proof inc.tree_root ≡ ok tt)
get_ballot-verify_inclusion_example =
    get_ballot-verify_inclusion same two (2 ∷ []) (row_at 2) two-IsValid
      (unfold get_record bytes_eq in refl)

new_board-IsValid_example :
    (w' : World) × (new_board same two.database_rows ≡ returned w')
    × IsValid same w'
    × (w'.database_rows ≡ two.database_rows)
    × (w'.board.is_sealed ≡ false)
    × (root same w'.board.tree ≡ root same two.board.tree)
new_board-IsValid_example = new_board-IsValid same two two-IsValid

seal-new_board_example :
    IsValid same (seal two true).0
    × ((w' : World) × (new_board same (seal two true).0.database_rows ≡ returned w')
        × (append_ballot same as_is w' (3 ∷ []) (5 ∷ []) (6 ∷ []) runs ≡ (w', failed board_sealed)))
seal-new_board_example = seal-new_board same as_is two (3 ∷ []) (5 ∷ []) (6 ∷ []) runs two-IsValid

abbrev some_id : Bytes
some_id = 1 ∷ 2 ∷ []

abbrev no_bytes : Bytes
no_bytes = []

encode_leaf_inj_example : (some_id ≡ take 2 some_id) × (no_bytes ≡ no_bytes) × (some_id ≡ some_id)
encode_leaf_inj_example =
    encode_leaf_inj some_id no_bytes some_id (take 2 some_id) no_bytes some_id (omega arith)
      (omega arith) (omega arith) (omega arith) (omega arith) (omega arith) refl

abbrev raced : ℕ → Attempt
raced n = record { reads = true; others = row_at 3 ∷ []; writes = answered }

append_ballot-lost_race_example :
    ((append_ballot same as_is two (4 ∷ []) (5 ∷ []) (6 ∷ []) raced).1 ≡ failed duplicate_ballot)
    × (get_record
          (4 ∷ [])
          (append_ballot same as_is two (4 ∷ []) (5 ∷ []) (6 ∷ []) raced).0.database_rows.ballots
        ≡ none)
append_ballot-lost_race_example =
    append_ballot-lost_race as_is same two (4 ∷ []) (5 ∷ []) (6 ∷ []) (5 ∷ []) (6 ∷ []) raced
      (row_at 3) refl (unfold validated in refl) refl refl refl (unfold get_max_position in refl)
      (unfold get_record bytes_eq in refl) refl refl (unfold contains has_prefix in refl)

-- The cursor's text is its position alone, and a page is as long as it has records.
abbrev decode_number : Bytes → Cursor
decode_number (n ∷ []) = position_cursor n
decode_number _ = invalid_cursor

abbrev wire : Wire
wire = record {
  page_size = λ page. length page.records;
  cursor_text = λ n. n ∷ [];
  decode_cursor = decode_number;
}

-- A page of limit 1 has at most one record.
short_pages : (k : ℕ) → length (page_of two k 1).records ≤ max_response
unfolding page_of list_ballots
short_pages k = omega (arith, length-take 1 (in_order (after k two.database_rows.ballots)))

fetch_all_ballots-answers_example :
    fetch_all_ballots [] (answers wire two 1 3 no_cursor)
    ≡ some (map serialized two.database_rows.ballots)
fetch_all_ballots-answers_example =
    fetch_all_ballots-answers wire two 1 two-IsValid.0 (omega arith) (omega arith)
      (λ n. omega arith) (λ n. refl) short_pages 3 (omega arith)

-- A database that gives every text back with a space at its end.
abbrev spaced : Postgres
spaced = record as_is { jsonb = λ text. some (text ++ 32 ∷ []) }

append_ballot-stored_example :
    ((append_ballot same spaced two (3 ∷ []) (5 ∷ []) (6 ∷ []) runs).1
      ≡ returned (record {
        position = 3;
        merkle_root =
            hex_encode (mth same (hashes_with spaced same two (3 ∷ []) (5 ∷ []) (6 ∷ [])));
      }))
    × ((w' : World) × (new_board same
            (append_ballot same spaced two (3 ∷ []) (5 ∷ []) (6 ∷ []) runs).0.database_rows
          ≡ returned w')
        × (root same w'.board.tree
            ≡ ok (mth same (hashes_with spaced same two (3 ∷ []) (5 ∷ 32 ∷ []) (6 ∷ 32 ∷ [])))))
append_ballot-stored_example =
    append_ballot-stored spaced same two (3 ∷ []) (5 ∷ []) (6 ∷ []) (5 ∷ 32 ∷ []) (6 ∷ 32 ∷ []) runs
      two-IsValid refl (unfold validated in refl) (unfold get_record bytes_eq in refl) refl refl
      refl refl refl
