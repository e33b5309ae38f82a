-- ===== src/Verification/Handler.antt =====
-- verification/handler.go. Requests that do not parse are none; the random identifier, the clock and the
-- order in which Go walks the map of shares (here the order of insertion) are given. A decoded share is a
-- new scalar in memory. `dev_secret` is the address of the secret that dev mode holds.
use otvoren_vot.Prelude.{
  ℕ, suc, true, false, ◌||◌, List, Option, none, some, Bytes, length, map, ltb, ◌==◌, hex_decode,
  Reply, success, failure,
}
use otvoren_vot.Crypto.Group.{Ristretto, Result, ok, err, decode_scalar}
use otvoren_vot.Crypto.Feldman.{lagrange_interpolate}
use otvoren_vot.Verification.Codes.{generate_code_mapping, derive_return_code}
use otvoren_vot.Verification.Session.{
  Session, Store, Added, write, create, get, add_share, set_codes, mark_verified, wipe_shares,
}

-- VerificationHandler
pub record Config : Type 0 where
  pub parties : List Bytes
  pub threshold : ℕ
  pub dev_secret : Option ℕ

pub data Created : Type 0 where
  code_mapping : Bytes → List (Bytes × Bytes) → Created
  awaiting_shares : Bytes → Created

pub record ShareRequest : Type 0 where
  pub session_id : Bytes
  pub trustee_index : ℕ
  pub share : Bytes

pub record VerifyRequest : Type 0 where
  pub session_id : Bytes
  pub encrypted_ballot : Bytes

module _ {S E : Type 0} (r : Ristretto S E) (hmac : Bytes → Bytes → Bytes) where
  unfoldable pub created : Config → Store S → Session → Option ℕ → Store S × Reply Created
  created h s session none = (s, success (awaiting_shares session.id))
  created h s session (some p) =
      let codes = generate_code_mapping hmac session.id h.parties (r.scalar_bytes (s.heap p)) in
      (set_codes s session.id codes p, success (code_mapping session.id codes))

  unfoldable pub create_reply : Config → Store S × Option Session → Store S × Reply Created
  unfolding created
  create_reply h (s, none) = (s, failure 500 "failed to create session")
  create_reply h (s, some session) = created h s session h.dev_secret

  unfoldable pub handle_create_session :
      Config → Store S → Option Bytes → ℕ → Store S × Reply Created
  unfolding create_reply
  handle_create_session h s id now = create_reply h (create s id h.threshold now)

  -- The codes of a session whose threshold is met: the secret is interpolated into a new scalar and the
  -- shares that it was made of are zeroed.
  unfoldable pub reconstruct :
      Config → Store S → Bytes → Session → Added → Result S → Store S × Reply Added
  unfolding wipe_shares
  reconstruct h s id session added (err e) = (s, failure 500 "failed to reconstruct secret")
  reconstruct h s id session added (ok secret) =
      let p = s.fresh in
      let s1 : Store S = record s { heap = write s.heap p secret; fresh = suc p } in
      let codes = generate_code_mapping hmac id h.parties (r.scalar_bytes secret) in
      let s2 = set_codes s1 id codes p in
      (record s2 { heap = wipe_shares r.zero_scalar s2.heap session.shares }, success added)

  unfoldable pub share_met :
      Config → Store S → Bytes → Added → Option Session → Store S × Reply Added
  unfolding reconstruct
  share_met h s id added none = (s, failure 500 "session disappeared")
  share_met h s id added (some session) = elim session.codes [
    | some codes ↦ (s, success (record { received = added.received; met = true }))
    | none ↦
        reconstruct h s id session (record { received = added.received; met = true })
          (lagrange_interpolate r (map (λ x. s.heap x.1) session.shares)
            (map (λ x. x.0) session.shares))
  ]

  unfoldable pub share_added : Config → Bytes → ℕ → Store S × Option Added → Store S × Reply Added
  unfolding share_met
  share_added h id now (s, none) = (s, failure 404 "session not found")
  share_added h id now (s, some added) = elim added.met [
    | true ↦ share_met h s id added (get s id now)
    | false ↦ (s, success (record { received = added.received; met = false }))
  ]

  unfoldable pub share_decoded :
      Config → Store S → ShareRequest → ℕ → Result S → Store S × Reply Added
  unfolding share_added
  share_decoded h s req now (err e) = (s, failure 400 "invalid scalar: not canonical")
  share_decoded h s req now (ok share) =
      let s1 : Store S = record s { heap = write s.heap s.fresh share; fresh = suc s.fresh } in
      share_added h req.session_id now (add_share s1 req.session_id req.trustee_index s.fresh)

  unfoldable pub share_bytes :
      Config → Store S → ShareRequest → ℕ → Option Bytes → Store S × Reply Added
  unfolding share_decoded
  share_bytes h s req now none = (s, failure 400 "invalid share: must be 64 hex chars (32 bytes)")
  share_bytes h s req now (some bytes) = elim (length bytes == 32) [
    | false ↦ (s, failure 400 "invalid share: must be 64 hex chars (32 bytes)")
    | true ↦ share_decoded h s req now (decode_scalar r bytes)
  ]

  unfoldable pub handle_submit_share :
      Config → Store S → Option ShareRequest → ℕ → Store S × Reply Added
  unfolding share_bytes
  handle_submit_share h s none now = (s, failure 400 "invalid body")
  handle_submit_share h s (some req) now =
      elim (length req.session_id == 0 || (ltb req.trustee_index 1 || length req.share == 0)) [
        | true ↦ (s, failure 400 "missing required fields")
        | false ↦ share_bytes h s req now (hex_decode req.share)
      ]

  -- The return code, where the session has both its codes and its secret.
  unfoldable pub return_code :
      Store S → VerifyRequest → Option (List (Bytes × Bytes)) → Option ℕ → Reply Bytes
  return_code s req (some codes) (some p) =
      success
        (derive_return_code hmac (r.scalar_bytes (s.heap p)) req.session_id req.encrypted_ballot)
  return_code s req (some codes) none = failure 412 "threshold not yet met, codes unavailable"
  return_code s req none p = failure 412 "threshold not yet met, codes unavailable"

  unfoldable pub verify_session : Store S → VerifyRequest → Option Session → Reply Bytes
  unfolding return_code
  verify_session s req none = failure 404 "invalid session"
  verify_session s req (some session) = elim session.verified [
    | true ↦ failure 409 "session already verified"
    | false ↦ return_code s req session.codes session.master_secret
  ]

  -- `HandleVerify` up to `MarkVerified`: the session is looked up and checked, and the code derived.
  unfoldable pub verify_begins : Store S → Option VerifyRequest → ℕ → Reply Bytes
  unfolding verify_session
  verify_begins s none now = failure 400 "invalid body"
  verify_begins s (some req) now = verify_session s req (get s req.session_id now)

  -- The rest of `HandleVerify`: the session is marked and the code sent. Other requests may run between
  -- the two, since each call of the session store takes the lock for itself.
  unfoldable pub verify_ends : Store S → Option VerifyRequest → Reply Bytes → Store S × Reply Bytes
  verify_ends s (some req) (success code) = ((mark_verified s req.session_id).0, success code)
  verify_ends s none (success code) = (s, success code)
  verify_ends s req (failure status text) = (s, failure status text)

  -- `HandleVerify` with no other request in between.
  unfoldable pub handle_verify : Store S → Option VerifyRequest → ℕ → Store S × Reply Bytes
  unfolding verify_begins verify_ends
  handle_verify s req now = verify_ends s req (verify_begins s req now)
