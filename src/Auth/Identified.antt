-- ===== src/Auth/Identified.antt =====
-- auth/login.go with collection/handler.go: the collection service takes the voter who logged in for the
-- holder of the EGN in the form.
use otvoren_vot.Prelude.{
  ℕ, ◌+◌, ◌≤◌, ◌<◌, lt→ltb, true, false, Option, some, [], Bytes, ◌++◌, bytes_eq, bytes_eq_refl,
  bytes_eq_iff, length, Reply, success, failure, ◌≡◌, refl, ◌∙◌, ap,
}
use otvoren_vot.Collection.Handler.{
  Claims, CollectionHandler, AuthReply, status, body, is_valid_egn, extract_token, ask_auth,
  resolve_session, resolved, claimed, tokened, identify,
}
use otvoren_vot.Auth.Redis.{Redis, RedisLaws}
use otvoren_vot.Auth.Replaced.{get_session-replace}
use otvoren_vot.Auth.Session.{session_ttl, session_prefix, replace_session, resolve, allow}
use otvoren_vot.Auth.Provider.{mock_authenticate}
use otvoren_vot.Auth.Handler.{
  SessionClaims, Environment, session_claims, handle_resolve_session, require_key,
}
use otvoren_vot.Auth.Login.{Libraries, LoginHandler, LoginForm, found, handle_post_login}
use otvoren_vot.Auth.LoggedIn.{login_checked_found}

-- The answer of `HandleResolveSession` as the collection service gets it.
abbrev pub auth_reply : Reply Bytes → AuthReply
auth_reply (success egn) = body (some egn)
auth_reply (failure code text) = status code

resolve-replace :
    {D : Type 0} (r : Redis D) (laws : RedisLaws r) (d : D) (t now : ℕ) (egn id : Bytes)
    → t ≤ now
    → now < t + session_ttl
    → length id ≡ 36
    → handle_resolve_session r (replace_session r d t egn id) now id true ≡ success egn
unfolding handle_resolve_session resolve
resolve-replace r laws d t now egn id h soon long =
    let there : r.get (replace_session r d t egn id) now (session_prefix ++ id) ≡ some egn =
      get_session-replace r laws d t egn id now id h
      ∙ rw (bytes_eq_refl id) (rw (lt→ltb now (t + session_ttl) soon) refl) in
    rw (handle_resolve_session, long, resolve, there)

identify_resolved :
    (verify : Bytes → Option Claims) (c : CollectionHandler) (token id election egn : Bytes)
    (answer : Bytes → ℕ → AuthReply)
    → c.dev_auth ≡ false
    → verify token ≡ some (record { election_id = election; subject = id })
    → bytes_eq election c.election_id ≡ true
    → length id ≡ 36
    → is_valid_egn egn ≡ true
    → answer id 2 ≡ body (some egn)
    → identify verify c
        (record { voter_egn = []; authorization = []; session_cookie = some token })
        answer
      ≡ success egn
unfolding identify tokened claimed resolved resolve_session ask_auth extract_token
identify_resolved verify c token id election egn answer live known same long valid answered = rw (
  identify, live, known, claimed, same, resolve_session, long, ask_auth, answered, resolved, valid,
)

-- A voter who logs in through the mock provider holds a token with which the collection service
-- identifies the EGN of the form, for thirty minutes in which nothing else is stored: where both
-- services have the same election and the same internal key, session identifiers have 36 bytes, and a token that was signed
-- verifies to its claims until they expire.
pub login-identify :
    (lib : Libraries) {D : Type 0} (r : Redis D) (laws : RedisLaws r) (h : LoginHandler) (d : D)
    (env : Environment) (random cookie : Option Bytes) (form : LoginForm) (location token : Bytes)
    (c : CollectionHandler) (verify : ℕ → Bytes → Option Claims) (now : ℕ) (key header : Bytes)
    → ((t : Bytes) → h.authenticate t ≡ some (mock_authenticate t))
    → ((claims : SessionClaims) (at : ℕ)
        → lib.sign claims ≡ some token
        → at < claims.expires_at
        → verify at token
          ≡ some (record { election_id = claims.election_id; subject = claims.subject }))
    → header ≡ key
    → length env.session_id ≡ 36
    → c.dev_auth ≡ false
    → h.election_id ≡ c.election_id
    → env.now ≤ now
    → now < env.now + session_ttl
    → (handle_post_login lib r h d env random cookie (some form)).1 ≡ found location token
    → identify
        (verify now)
        c
        (record { voter_egn = []; authorization = []; session_cookie = some token })
        (λ id attempt. auth_reply (
          require_key key header (
            handle_resolve_session r
              (handle_post_login lib r h d env random cookie (some form)).0
              now
              id
              true)))
      ≡ success form.egn
unfolding handle_post_login require_key
login-identify lib r laws h d env random cookie form location token c verify now key header provider
      jwt shared long live elections later soon e =
    let (csrf, given, allowed, (valid, passed, prefix, (signed, target, stored))) =
      login_checked_found lib r h env random form location token provider d cookie e in
    let limited = (allow r d env.now form.egn env.limiting).0 in
    let found_again =
      ap (λ x. handle_resolve_session r x now env.session_id true) stored
      ∙ resolve-replace r laws limited env.now now form.egn env.session_id later soon long in
    let admitted : (reply : Reply Bytes)
        → reply ≡ success form.egn
        → auth_reply (require_key key header reply) ≡ body (some form.egn) =
      λ reply e. rw (e) (rw ((bytes_eq_iff header key).1 shared, require_key) refl) in
    identify_resolved (verify now) c token env.session_id h.election_id form.egn _ live
      (jwt (session_claims h.election_id env.session_id env.now) now signed
        (unfold session_claims in soon))
      (ap (λ x. bytes_eq x c.election_id) elections ∙ bytes_eq_refl c.election_id) long valid
      (admitted _ found_again)
