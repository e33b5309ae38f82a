-- ===== src/Collection/Examples.antt =====
-- The theorems on collection at two voters, with a checksum in place of HMAC-SHA256.
use otvoren_vot.Prelude.{
  ℕ, ◌+◌, ◌%◌, ◌≡◌, refl, true, false, ◌⊎◌, Option, none, some, List, [], ◌∷◌, Bytes, bytes_eq,
  AllBytes, success, failure, hex_encode, lookup, arith, if◌then◌else◌,
}
use otvoren_vot.Collection.Votermap.{
  MemoryStore, HistoryEntry, online, in_person, new_memory_store, record_vote, row_data, decimal,
  compute_row_hash, get_all_override_chains, get_override_history, get_active_ballot_id, hash_egn,
}
use otvoren_vot.Collection.Audit.{verify_chains, verify_hash_chain}
use otvoren_vot.Collection.Handler.{
  Claims, CollectionHandler, Credentials, AuthReply, unreachable, SubmitRequest, BoardAnswer,
  SubmitResponse, identify, is_valid_egn, handle_submit,
}
use otvoren_vot.Collection.Cast.{CastVote, submitted_ids, cast, cast-verify_chains}
use otvoren_vot.Collection.Tamper.{RowCollision, ballots, verify_hash_chain_sound}
use otvoren_vot.Collection.Submits.{is_given, handle_submit-success, handle_submit-board_error}

abbrev pub total : Bytes → ℕ
total [] = 0
total (b ∷ bytes) = b + total bytes

abbrev pub checksum : Bytes → Bytes → Bytes
checksum key text = (total text % 256) ∷ []

checksum-AllBytes : (text : Bytes) → AllBytes (checksum [] text)
checksum-AllBytes text = (omega arith, tt)

abbrev pub voter : Bytes
voter = 65 ∷ []

abbrev pub voted_once : MemoryStore
voted_once = (record_vote checksum (new_memory_store []) voter (1 ∷ []) online 10).0

abbrev pub voted_twice : MemoryStore
voted_twice = (record_vote checksum voted_once voter (2 ∷ []) in_person 20).0

abbrev both_votes : List CastVote
both_votes =
    record { egn_hash = voter; ballot_id = 1 ∷ []; channel = online; submitted_at = 10 }
    ∷ record { egn_hash = voter; ballot_id = 2 ∷ []; channel = in_person; submitted_at = 20 }
    ∷ []

cast-verify_chains_example :
    (verify_chains checksum []
        (get_all_override_chains (cast checksum (new_memory_store []) both_votes))
      ≡ true)
    × (get_active_ballot_id (cast checksum (new_memory_store []) both_votes) voter ≡ some (2 ∷ []))
    × (submitted_ids (get_override_history (cast checksum (new_memory_store []) both_votes) voter)
        ≡ (1 ∷ []) ∷ (2 ∷ []) ∷ [])
unfolding bytes_eq
cast-verify_chains_example = cast-verify_chains checksum [] both_votes voter

-- Two chains of one row: their ballots have the same bytes in another order, so the same checksum.
abbrev row_with : Bytes → HistoryEntry
row_with ballot = record {
  ballot_id = ballot;
  channel = online;
  submitted_at = 10;
  seq = 1;
  row_hash = hex_encode ((total (row_data [] voter (1 ∷ 2 ∷ []) 1) % 256) ∷ []);
}

row_verifies :
    verify_hash_chain checksum []
      (record { egn_hash = voter; submissions = row_with (1 ∷ 2 ∷ []) ∷ [] })
    ≡ true
unfolding verify_hash_chain bytes_eq compute_row_hash row_data decimal hex_encode
row_verifies = refl

other_verifies :
    verify_hash_chain checksum []
      (record { egn_hash = voter; submissions = row_with (2 ∷ 1 ∷ []) ∷ [] })
    ≡ true
unfolding verify_hash_chain bytes_eq compute_row_hash row_data decimal hex_encode
other_verifies = refl

abbrev swapped : List HistoryEntry
swapped = row_with (2 ∷ 1 ∷ []) ∷ []

abbrev straight : List HistoryEntry
straight = row_with (1 ∷ 2 ∷ []) ∷ []

verify_hash_chain_sound_example :
    (ballots checksum [] voter straight ≡ ballots checksum [] voter swapped)
    ⊎ RowCollision checksum [] voter [] straight [] swapped
verify_hash_chain_sound_example =
    verify_hash_chain_sound checksum [] voter checksum-AllBytes straight swapped row_verifies
      other_verifies refl refl

abbrev no_token : Bytes → Option Claims
no_token token = none

abbrev dev : CollectionHandler
dev = record { dev_auth = true; election_id = []; egn_hmac_key = [] }

abbrev ten_digits : Bytes
ten_digits = 49 ∷ 49 ∷ 49 ∷ 49 ∷ 49 ∷ 49 ∷ 49 ∷ 49 ∷ 49 ∷ 49 ∷ []

abbrev header : Credentials
header = record { voter_egn = ten_digits; authorization = []; session_cookie = none }

abbrev silent : Bytes → ℕ → AuthReply
silent id n = unreachable

abbrev request : SubmitRequest
request = record { ballot_id = 7 ∷ []; encrypted_ballot = []; zk_proofs = [] }

abbrev takes : SubmitRequest → Option BoardAnswer
takes req = some (record { position = 1; merkle_root = 9 ∷ [] })

abbrev refuses : SubmitRequest → Option BoardAnswer
refuses req = none

identified_dev : identify no_token dev header silent ≡ success ten_digits
unfolding identify is_valid_egn
identified_dev = refl

abbrev response : SubmitResponse
response = record { ballot_id = 7 ∷ []; position = 1; merkle_root = 9 ∷ []; is_override = false }

taken_request :
    (handle_submit no_token checksum dev
      (new_memory_store [])
      header
      silent
      5
      takes
      (some request)).1
    ≡ success response
unfolding handle_submit is_valid_egn record_vote new_memory_store lookup
taken_request = refl

handle_submit-success_example :
    (egn : Bytes) × (taken : BoardAnswer) × (identify no_token dev header silent ≡ success egn)
    × (takes request ≡ some taken)
    × (response ≡ record {
      ballot_id = 7 ∷ [];
      position = taken.position;
      merkle_root = taken.merkle_root;
      is_override =
          is_given (get_active_ballot_id (new_memory_store []) (hash_egn checksum egn []));
    })
    × ((other : Bytes)
        → get_active_ballot_id
            (handle_submit no_token checksum dev
              (new_memory_store [])
              header
              silent
              5
              takes
              (some request)).0
            other
          ≡ (if bytes_eq (hash_egn checksum egn []) other
              then some (7 ∷ [])
              else get_active_ballot_id (new_memory_store []) other))
handle_submit-success_example =
    handle_submit-success no_token checksum dev (new_memory_store []) header silent 5 takes request
      response taken_request

handle_submit-board_error_example :
    ((handle_submit no_token checksum dev
        (new_memory_store [])
        header
        silent
        5
        refuses
        (some request)).1
      ≡ failure 502 "board_error")
    × (get_active_ballot_id
          (handle_submit no_token checksum dev
            (new_memory_store [])
            header
            silent
            5
            refuses
            (some request)).0
          (hash_egn checksum ten_digits [])
        ≡ some (7 ∷ []))
handle_submit-board_error_example =
    handle_submit-board_error no_token checksum dev (new_memory_store []) header silent 5 refuses
      request ten_digits identified_dev (omega arith) refl
