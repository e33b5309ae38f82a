-- ===== src/Collection/Handler.antt =====
-- collection/handler.go: how a request is turned to a voter, and the submission of a ballot. JWT and the
-- clock are parameters; the answers of the auth service and of the bulletin board are arguments.
use otvoren_vot.Prelude.{
  ℕ, zero, suc, Bool, true, false, ◌&&◌, not, Option, none, some, List, [], ◌∷◌, Bytes, bytes_eq,
  leb, ◌==◌, if◌then◌else◌, length, Reply, success, failure, ascii,
}
use otvoren_vot.Collection.Votermap.{online, MemoryStore, hash_egn, record_vote, active_set}

pub record Claims : Type 0 where
  pub election_id : Bytes
  pub subject : Bytes

-- The configuration that the handler reads.
pub record CollectionHandler : Type 0 where
  pub dev_auth : Bool
  pub election_id : Bytes
  pub egn_hmac_key : Bytes

-- The headers of a request: the EGN header of dev mode, the Authorization header and the session cookie.
pub record Credentials : Type 0 where
  pub voter_egn : Bytes
  pub authorization : Bytes
  pub session_cookie : Option Bytes

-- The auth service's answer to one request.
pub data AuthReply : Type 0 where
  unreachable : AuthReply
  status : ℕ → AuthReply
  -- The body of a 200, none where it does not decode.
  body : Option Bytes → AuthReply

pub record SubmitRequest : Type 0 where
  pub ballot_id : Bytes
  pub encrypted_ballot : Bytes
  pub zk_proofs : Bytes

pub record BoardAnswer : Type 0 where
  pub position : ℕ
  pub merkle_root : Bytes

pub record SubmitResponse : Type 0 where
  pub ballot_id : Bytes
  pub position : ℕ
  pub merkle_root : Bytes
  pub is_override : Bool

unfoldable pub all_digits : Bytes → Bool
all_digits [] = true
all_digits (c ∷ cs) = leb b'0' c && leb c b'9' && all_digits cs

unfoldable pub is_valid_egn : Bytes → Bool
unfolding all_digits
is_valid_egn egn = if length egn == 10 then all_digits egn else false

-- strings.TrimPrefix(auth, "Bearer "), none where the prefix is another.
unfoldable pub after_prefix : Bytes → Bytes → Option Bytes
after_prefix [] bytes = some bytes
after_prefix (p ∷ prefix) [] = none
after_prefix (p ∷ prefix) (b ∷ bytes) = elim (p == b) [
  | true ↦ after_prefix prefix bytes
  | false ↦ none
]

unfoldable pub extract_token : Credentials → Option Bytes
unfolding after_prefix
extract_token c = elim (length c.authorization == 0) [
  | true ↦ c.session_cookie
  | false ↦ after_prefix (ascii "Bearer ") c.authorization
]

-- The loop of `resolveSession` over the attempts left: a service that does not answer is asked again.
unfoldable pub ask_auth : ℕ → (ℕ → AuthReply) → Option Bytes
ask_auth zero answer = none
ask_auth (suc left) answer = elim (answer (suc left)) [
  | unreachable ↦ ask_auth left answer
  | status code ↦ none
  | body egn ↦ egn
]

-- The request names the session, which the answers of the auth service depend on.
unfoldable pub resolve_session : Bytes → (Bytes → ℕ → AuthReply) → Option Bytes
unfolding ask_auth
resolve_session session_id answer = elim (length session_id == 36) [
  | false ↦ none
  | true ↦ ask_auth 2 (answer session_id)
]

module _ (verify_token : Bytes → Option Claims) where
  -- The EGN of the session that the claims name.
  unfoldable pub resolved : Option Bytes → Reply Bytes
  resolved none = failure 401 "session_error"
  resolved (some egn) = elim (is_valid_egn egn) [
    | false ↦ failure 502 "invalid_session"
    | true ↦ success egn
  ]

  unfoldable pub claimed : CollectionHandler → (Bytes → ℕ → AuthReply) → Option Claims → Reply Bytes
  unfolding resolved resolve_session
  claimed h answer none = failure 401 "invalid_token"
  claimed h answer (some claims) = elim (bytes_eq claims.election_id h.election_id) [
    | false ↦ failure 403 "wrong_election"
    | true ↦ resolved (resolve_session claims.subject answer)
  ]

  unfoldable pub tokened : CollectionHandler → (Bytes → ℕ → AuthReply) → Option Bytes → Reply Bytes
  unfolding claimed
  tokened h answer none = failure 401 "missing_token"
  tokened h answer (some token) = claimed h answer (verify_token token)

  -- The first part of `HandleSubmit`: who votes. A valid EGN has ten digits, so the later check for an
  -- empty one never fails.
  unfoldable pub identify : CollectionHandler → Credentials → (Bytes → ℕ → AuthReply) → Reply Bytes
  unfolding tokened is_valid_egn extract_token
  identify h c answer = elim h.dev_auth [
    | true ↦ elim (is_valid_egn c.voter_egn) [
      | false ↦ failure 400 "invalid_egn"
      | true ↦ success c.voter_egn
    ]
    | false ↦ tokened h answer (extract_token c)
  ]

  module _ (hmac : Bytes → Bytes → Bytes) where
    -- What is sent once the board has answered: none is any failure of the call.
    unfoldable pub board_reply : SubmitRequest → Bytes → Option BoardAnswer → Reply SubmitResponse
    board_reply req prev none = failure 502 "board_error"
    board_reply req prev (some answer) = success (record {
      ballot_id = req.ballot_id;
      position = answer.position;
      merkle_root = answer.merkle_root;
      is_override = not (length prev == 0);
    })

    -- The vote is recorded, then sent to the board. `board` is the answer to the ballot sent.
    unfoldable pub forwarded :
        CollectionHandler
        → MemoryStore
        → Bytes
        → ℕ
        → (SubmitRequest → Option BoardAnswer)
        → Option SubmitRequest
        → MemoryStore × Reply SubmitResponse
    unfolding board_reply
    forwarded h ms egn now board none = (ms, failure 400 "invalid_body")
    forwarded h ms egn now board (some req) = elim (length req.ballot_id == 0) [
      | true ↦ (ms, failure 400 "missing_ballot_id")
      | false ↦
          let (ms', prev) =
            record_vote hmac ms (hash_egn hmac egn h.egn_hmac_key) req.ballot_id online now in
          (ms', board_reply req prev (board req))
    ]

    -- `HandleSubmit` over the store in memory, which never fails to record.
    unfoldable pub handle_submit :
        CollectionHandler
        → MemoryStore
        → Credentials
        → (Bytes → ℕ → AuthReply)
        → ℕ
        → (SubmitRequest → Option BoardAnswer)
        → Option SubmitRequest
        → MemoryStore × Reply SubmitResponse
    unfolding identify forwarded
    handle_submit h ms c answer now board req = elim (identify h c answer) [
      | failure code text ↦ (ms, failure code text)
      | success egn ↦ forwarded h ms egn now board req
    ]

-- `HandleActiveSet`: the set and its size.
unfoldable pub handle_active_set : MemoryStore → Reply (List Bytes × ℕ)
handle_active_set ms = success (active_set ms, length (active_set ms))
