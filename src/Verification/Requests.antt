-- ===== src/Verification/Requests.antt =====
-- verification/handler.go and session/session.go: what may happen between two requests for a session.
use otvoren_vot.Prelude.{
  ℕ, suc, ◌||◌, List, Option, none, some, Bytes, length, ltb, ◌==◌, hex_decode, Reply, success,
  failure, ◌≢◌, inl, inr, Bool-cases, Option-cases,
}
use otvoren_vot.Crypto.Group.{Ristretto, Result, ok, err, decode_scalar}
use otvoren_vot.Verification.Session.{
  Session, Store, Added, write, create, get, add_share, set_codes, close, remove_expired,
}
use otvoren_vot.Verification.Handler.{
  Config, ShareRequest, VerifyRequest, created, create_reply, handle_create_session, reconstruct,
  share_met, share_added, share_decoded, share_bytes, handle_submit_share, handle_verify,
  verify_begins, verify_ends,
}
use otvoren_vot.Verification.Spent.{
  AllSpent, set_codes-AllSpent, mark_verified-AllSpent, add_share-AllSpent, create-AllSpent,
  close-AllSpent, remove_expired-AllSpent,
}

module _ {S E : Type 0} (r : Ristretto S E) (hmac : Bytes → Bytes → Bytes) (h : Config) where
  -- A request, a sweep, or a single call of the session store that a request in progress makes. No new
  -- session gets the identifier `id`.
  pub data Happens (id : Bytes) : Store S → Store S → Type 0 where
    creates :
        (s : Store S) (new : Option Bytes) (now : ℕ)
        → new ≢ some id
        → Happens id s (handle_create_session r hmac h s new now).0
    submits :
        (s : Store S) (req : Option ShareRequest) (now : ℕ)
        → Happens id s (handle_submit_share r hmac h s req now).0
    verifies :
        (s : Store S) (req : Option VerifyRequest) (now : ℕ)
        → Happens id s (handle_verify r hmac s req now).0
    adds :
        (s : Store S) (k : Bytes) (trustee share : ℕ) → Happens id s (add_share s k trustee share).0
    sets :
        (s : Store S) (k : Bytes) (codes : List (Bytes × Bytes)) (secret : ℕ)
        → Happens id s (set_codes s k codes secret)
    ends :
        (s : Store S) (req : Option VerifyRequest) (reply : Reply Bytes)
        → Happens id s (verify_ends r hmac s req reply).0
    closes : (s : Store S) (k : Bytes) → Happens id s (close r.zero_scalar s k)
    sweeps : (s : Store S) (now : ℕ) → Happens id s (remove_expired r.zero_scalar s now)

  pub data Follows (id : Bytes) (s : Store S) : Store S → Type 0 where
    stays : Follows id s s
    follows : (t u : Store S) → Follows id s t → Happens id t u → Follows id s u

  reconstruct-AllSpent :
      (s : Store S) (k id : Bytes) (session : Session) (added : Added) (secret : Result S)
      → AllSpent id s.sessions
      → AllSpent id (reconstruct r hmac h s k session added secret).0.sessions
  unfolding reconstruct
  reconstruct-AllSpent s k id session added (err e) u = u
  reconstruct-AllSpent s k id session added (ok secret) u =
      set_codes-AllSpent (record s { heap = write s.heap s.fresh secret; fresh = suc s.fresh }) k id
        _ s.fresh u

  share_met-AllSpent :
      (s : Store S) (k id : Bytes) (added : Added) (o : Option Session)
      → AllSpent id s.sessions
      → AllSpent id (share_met r hmac h s k added o).0.sessions
  unfolding share_met
  share_met-AllSpent s k id added none u = u
  share_met-AllSpent s k id added (some session) u = elim (Option-cases session.codes) [
    | inr (codes, e) ↦ rw (e, share_met) u
    | inl e ↦ rw (e, share_met) (reconstruct-AllSpent s k id session _ _ u)
  ]

  share_added-AllSpent :
      (k id : Bytes) (now : ℕ) (s : Store S) (o : Option Added)
      → AllSpent id s.sessions
      → AllSpent id (share_added r hmac h k now (s, o)).0.sessions
  unfolding share_added
  share_added-AllSpent k id now s none u = u
  share_added-AllSpent k id now s (some added) u = elim (Bool-cases added.met) [
    | inr e ↦ rw (e, share_added) u
    | inl e ↦ rw (e, share_added) (share_met-AllSpent s k id added (get s k now) u)
  ]

  share_decoded-AllSpent :
      (s : Store S) (req : ShareRequest) (now : ℕ) (share : Result S) (id : Bytes)
      → AllSpent id s.sessions
      → AllSpent id (share_decoded r hmac h s req now share).0.sessions
  unfolding share_decoded
  share_decoded-AllSpent s req now (err e) id u = u
  share_decoded-AllSpent s req now (ok share) id u =
      let s1 : Store S = record s { heap = write s.heap s.fresh share; fresh = suc s.fresh } in
      let added = add_share s1 req.session_id req.trustee_index s.fresh in
      share_added-AllSpent req.session_id id now added.0 added.1
        (add_share-AllSpent s1 req.session_id id req.trustee_index s.fresh u)

  share_bytes-AllSpent :
      (s : Store S) (req : ShareRequest) (now : ℕ) (o : Option Bytes) (id : Bytes)
      → AllSpent id s.sessions
      → AllSpent id (share_bytes r hmac h s req now o).0.sessions
  unfolding share_bytes
  share_bytes-AllSpent s req now none id u = u
  share_bytes-AllSpent s req now (some bytes) id u = elim (Bool-cases (length bytes == 32)) [
    | inr e ↦ rw (e, share_bytes) u
    | inl e ↦ rw (e, share_bytes) (share_decoded-AllSpent s req now (decode_scalar r bytes) id u)
  ]

  submits-AllSpent :
      (s : Store S) (req : Option ShareRequest) (now : ℕ) (id : Bytes)
      → AllSpent id s.sessions
      → AllSpent id (handle_submit_share r hmac h s req now).0.sessions
  unfolding handle_submit_share
  submits-AllSpent s none now id u = u
  submits-AllSpent s (some req) now id u =
      elim (Bool-cases
        (length req.session_id == 0 || (ltb req.trustee_index 1 || length req.share == 0))) [
          | inl e ↦ rw (e, handle_submit_share) u
          | inr e ↦
              rw (e, handle_submit_share)
                (share_bytes-AllSpent s req now (hex_decode req.share) id u)
        ]

  ends-AllSpent :
      (s : Store S) (req : Option VerifyRequest) (reply : Reply Bytes) (id : Bytes)
      → AllSpent id s.sessions
      → AllSpent id (verify_ends r hmac s req reply).0.sessions
  unfolding verify_ends
  ends-AllSpent s (some req) (success code) id u = mark_verified-AllSpent s req.session_id id u
  ends-AllSpent s none (success code) id u = u
  ends-AllSpent s (some req) (failure status text) id u = u
  ends-AllSpent s none (failure status text) id u = u

  created-AllSpent :
      (s : Store S) (session : Session) (o : Option ℕ) (id : Bytes)
      → AllSpent id s.sessions
      → AllSpent id (created r hmac h s session o).0.sessions
  unfolding created
  created-AllSpent s session none id u = u
  created-AllSpent s session (some p) id u = set_codes-AllSpent s session.id id _ p u

  create_reply-AllSpent :
      (s : Store S) (o : Option Session) (id : Bytes)
      → AllSpent id s.sessions
      → AllSpent id (create_reply r hmac h (s, o)).0.sessions
  unfolding create_reply
  create_reply-AllSpent s none id u = u
  create_reply-AllSpent s (some session) id u = created-AllSpent s session h.dev_secret id u

  Happens-AllSpent :
      (id : Bytes) (s t : Store S)
      → Happens id s t
      → AllSpent id s.sessions
      → AllSpent id t.sessions
  unfolding handle_create_session handle_verify
  Happens-AllSpent id _ _ (creates s new now other) u =
      let made = create s new h.threshold now in
      create_reply-AllSpent made.0 made.1 id (create-AllSpent s new id h.threshold now other u)
  Happens-AllSpent id _ _ (submits s req now) u = submits-AllSpent s req now id u
  Happens-AllSpent id _ _ (verifies s req now) u =
      ends-AllSpent s req (verify_begins r hmac s req now) id u
  Happens-AllSpent id _ _ (adds s k trustee share) u = add_share-AllSpent s k id trustee share u
  Happens-AllSpent id _ _ (sets s k codes secret) u = set_codes-AllSpent s k id codes secret u
  Happens-AllSpent id _ _ (ends s req reply) u = ends-AllSpent s req reply id u
  Happens-AllSpent id _ _ (closes s k) u = close-AllSpent r.zero_scalar s k id u
  Happens-AllSpent id _ _ (sweeps s now) u = remove_expired-AllSpent r.zero_scalar s now id u

  pub Follows-AllSpent :
      (id : Bytes) (s t : Store S)
      → Follows id s t
      → AllSpent id s.sessions
      → AllSpent id t.sessions
  Follows-AllSpent id s _ stays u = u
  Follows-AllSpent id s _ (follows t v p step) u =
      Happens-AllSpent id t v step (Follows-AllSpent id s t p u)
