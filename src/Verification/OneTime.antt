-- ===== src/Verification/OneTime.antt =====
-- verification/handler.go, HandleVerify: how often a session gives its return code.
use otvoren_vot.Prelude.{
  ℕ, true, Option, none, some, Bytes, ltb, lookup, bytes_Eq, Reply, success, failure, ◌≡◌, refl,
  sym, subst, ◌≢◌, inl, inr, Bool-cases,
}
use otvoren_vot.Crypto.Group.{Ristretto}
use otvoren_vot.Verification.Session.{Session, Store, get, get_live, mark_verified, update_session}
use otvoren_vot.Verification.Handler.{
  Config, VerifyRequest, handle_verify, verify_begins, verify_ends, verify_session,
}
use otvoren_vot.Verification.Spent.{IsMap, AllSpent, lookup-AllSpent, marked-AllSpent}
use otvoren_vot.Verification.Requests.{Follows, Follows-AllSpent}

module _ {S E : Type 0} (r : Ristretto S E) (hmac : Bytes → Bytes → Bytes) where
  live-lookup :
      (o : Option Session) (now : ℕ) (session : Session)
      → get_live o now ≡ some session
      → o ≡ some session
  unfolding get_live
  live-lookup none now session = λ h. cc
  live-lookup (some x) now session = elim (Bool-cases (ltb x.expires_at now)) [
    | inl e ↦ rw (e, get_live) (λ h. cc)
    | inr e ↦ rw (e, get_live) (λ h. h)
  ]

  found_when_answered :
      (s : Store S) (req : VerifyRequest) (o : Option Session) (code : Bytes)
      → verify_session r hmac s req o ≡ success code
      → (session : Session) × (o ≡ some session)
  unfolding verify_session
  found_when_answered s req none code h = cc
  found_when_answered s req (some session) code h = (session, refl)

  refused_when_Spent :
      (s : Store S) (req : VerifyRequest) (o : Option Session) (code : Bytes)
      → ((session : Session) → o ≡ some session → session.verified ≡ true)
      → verify_session r hmac s req o ≢ success code
  unfolding verify_session
  refused_when_Spent s req none code f = λ h. cc
  refused_when_Spent s req (some session) code f = rw (f session refl, verify_session) (λ h. cc)

  answered :
      (s : Store S) (req : VerifyRequest) (reply : Reply Bytes) (code : Bytes)
      → (verify_ends r hmac s (some req) reply).1 ≡ success code
      → reply ≡ success code
  unfolding verify_ends
  answered s req (success c) code h = h
  answered s req (failure status text) code h = h

  ends-AllSpent :
      (s : Store S) (req : VerifyRequest) (reply : Reply Bytes) (code : Bytes) (session : Session)
      → IsMap s.sessions
      → lookup req.session_id s.sessions ≡ some session
      → reply ≡ success code
      → AllSpent req.session_id (verify_ends r hmac s (some req) reply).0.sessions
  unfolding verify_ends mark_verified update_session
  ends-AllSpent s req (success c) code session unique e h =
      rw (e, mark_verified)
        (marked-AllSpent req.session_id (record session { verified = true }) s.sessions unique refl)
  ends-AllSpent s req (failure status text) code session unique e h = cc

  handle_verify-AllSpent :
      (s : Store S) (req : VerifyRequest) (now : ℕ) (code : Bytes)
      → IsMap s.sessions
      → (handle_verify r hmac s (some req) now).1 ≡ success code
      → AllSpent req.session_id (handle_verify r hmac s (some req) now).0.sessions
  unfolding handle_verify verify_begins get
  handle_verify-AllSpent s req now code unique h =
      let begun = answered s req (verify_begins r hmac s (some req) now) code h in
      let (session, e) = found_when_answered s req (get s req.session_id now) code begun in
      ends-AllSpent s req (verify_begins r hmac s (some req) now) code session unique
        (live-lookup (lookup req.session_id s.sessions) now session e) begun

  begins_refused :
      (s : Store S) (again : VerifyRequest) (later : ℕ) (other : Bytes)
      → AllSpent again.session_id s.sessions
      → (handle_verify r hmac s (some again) later).1 ≢ success other
  unfolding handle_verify verify_begins get
  begins_refused s again later other spent h =
      refused_when_Spent s again (get s again.session_id later) other
        (λ session q.
          lookup-AllSpent again.session_id s.sessions session spent
            (live-lookup (lookup again.session_id s.sessions) later session q))
        (answered s again (verify_begins r hmac s (some again) later) other h)

  -- Once a session has given its return code, no request for that session that begins later succeeds,
  -- whatever the ballot, the time and what happens in between: other requests to create sessions, to
  -- submit shares and to verify, whole or one call of the session store at a time, closed sessions and
  -- sweeps of expired ones. No two sessions of the store have one identifier, and no new session gets
  -- that of this one.
  pub verify-once :
      (c : Config) (s t : Store S) (req again : VerifyRequest) (now later : ℕ) (code other : Bytes)
      → IsMap s.sessions
      → (handle_verify r hmac s (some req) now).1 ≡ success code
      → Follows r hmac c req.session_id (handle_verify r hmac s (some req) now).0 t
      → again.session_id ≡ req.session_id
      → (handle_verify r hmac t (some again) later).1 ≢ success other
  verify-once c s t req again now later code other unique h between e =
      begins_refused t again later other (
        subst (λ id. AllSpent id t.sessions) (sym e)
          (Follows-AllSpent r hmac c req.session_id (handle_verify r hmac s (some req) now).0 t
            between (handle_verify-AllSpent s req now code unique h)))

  ends_answers :
      (s : Store S) (req : VerifyRequest) (reply : Reply Bytes) (code : Bytes)
      → reply ≡ success code
      → (verify_ends r hmac s (some req) reply).1 ≡ success code
  unfolding verify_ends
  ends_answers s req (success c) code h = h
  ends_answers s req (failure status text) code h = h

  -- Two requests for one session that both begin before either ends are both answered with a return
  -- code, each that of its own ballot: nothing refuses the second, since the check and the mark are
  -- separate calls of the session store.
  pub verify-interleaved :
      (s : Store S) (req again : VerifyRequest) (now later : ℕ) (code other : Bytes)
      → (handle_verify r hmac s (some req) now).1 ≡ success code
      → (handle_verify r hmac s (some again) later).1 ≡ success other
      → (let first = verify_begins r hmac s (some req) now in
          let second = verify_begins r hmac s (some again) later in
          let s' = (verify_ends r hmac s (some req) first).0 in
          ((verify_ends r hmac s (some req) first).1 ≡ success code)
          × ((verify_ends r hmac s' (some again) second).1 ≡ success other))
  unfolding handle_verify
  verify-interleaved s req again now later code other h k = (
    h,
    ends_answers (verify_ends r hmac s (some req) (verify_begins r hmac s (some req) now)).0 again
        (verify_begins r hmac s (some again) later) other
        (answered s again (verify_begins r hmac s (some again) later) other k),
  )
