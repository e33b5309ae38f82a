-- ===== src/Auth/Handler.antt =====
-- auth/handler.go, and `RequireKey` of pkg/middleware/apikey.go. Signing a JWT is a parameter; the clock,
-- the random session identifier and what becomes of the calls of Redis are arguments.
use otvoren_vot.Prelude.{
  ℕ, ◌+◌, Bool, true, false, Option, none, some, Bytes, bytes_eq, length, ◌==◌, Reply, success,
  failure,
}
use otvoren_vot.Auth.Redis.{Redis}
use otvoren_vot.Auth.Provider.{Identity}
use otvoren_vot.Auth.Session.{
  session_ttl, Delivery, Resolved, egn_of, session_not_found, resolve_failed, create, allow,
  resolve,
}

-- The claims but for the issuer and the audience, which are constants.
pub record SessionClaims : Type 0 where
  pub subject : Bytes
  pub issued_at : ℕ
  pub expires_at : ℕ
  pub election_id : Bytes

-- The provider gives none for an error and some none for the nil identity.
pub record AuthHandler : Type 0 where
  pub authenticate : Bytes → Option (Option Identity)
  pub provider_name : Bytes
  -- jwtauth.Sign with the handler's key.
  pub sign : SessionClaims → Option Bytes
  pub election_id : Bytes

pub record AuthResponse : Type 0 where
  pub session_token : Bytes
  pub provider : Bytes

-- What a request meets.
pub record Environment : Type 0 where
  pub now : ℕ
  pub session_id : Bytes
  pub limiting : Delivery
  pub creation : Delivery

unfoldable pub session_claims : Bytes → Bytes → ℕ → SessionClaims
session_claims election_id session_id now = record {
  subject = session_id;
  issued_at = now;
  expires_at = now + session_ttl;
  election_id = election_id;
}

unfoldable pub signed_reply : AuthHandler → Option Bytes → Reply AuthResponse
signed_reply h none = failure 500 "jwt_error"
signed_reply h (some token) = success (record { session_token = token; provider = h.provider_name })

module _ {D : Type 0} (r : Redis D) where
  -- From `sessions.Create` on.
  unfoldable pub session_created :
      AuthHandler → Environment → D × Option Bytes → D × Reply AuthResponse
  unfolding signed_reply session_claims
  session_created h env (d, none) = (d, failure 500 "session_error")
  session_created h env (d, some id) =
      (d, signed_reply h (h.sign (session_claims h.election_id id env.now)))

  -- From `rateLimiter.Allow` on.
  unfoldable pub rate_checked :
      AuthHandler → Environment → Bytes → D × Option Bool → D × Reply AuthResponse
  unfolding session_created
  rate_checked h env egn (d, none) = (d, failure 500 "rate_limit_error")
  rate_checked h env egn (d, some false) = (d, failure 429 "rate_limited")
  rate_checked h env egn (d, some true) =
      session_created h env (create r d env.now egn env.session_id env.creation)

  -- From `provider.Authenticate` on.
  unfoldable pub authenticated :
      AuthHandler → D → Environment → Option (Option Identity) → D × Reply AuthResponse
  unfolding rate_checked
  authenticated h d env none = (d, failure 500 "auth_error")
  authenticated h d env (some none) = (d, failure 401 "invalid_credentials")
  authenticated h d env (some (some identity)) = elim identity.is_eligible [
    | false ↦ (d, failure 403 "not_eligible")
    | true ↦ rate_checked h env identity.egn (allow r d env.now identity.egn env.limiting)
  ]

  -- `ServeHTTP`: whether the method is POST, and the token of a body that decodes.
  unfoldable pub serve_http :
      AuthHandler → D → Environment → Bool → Option Bytes → D × Reply AuthResponse
  unfolding authenticated
  serve_http h d env false body = (d, failure 405 "method not allowed")
  serve_http h d env true none = (d, failure 400 "invalid_body")
  serve_http h d env true (some token) = authenticated h d env (h.authenticate token)

  unfoldable pub resolved_reply : Resolved → Reply Bytes
  resolved_reply (egn_of egn) = success egn
  resolved_reply session_not_found = failure 404 "session_not_found"
  resolved_reply resolve_failed = failure 500 "resolve_error"

  -- `HandleResolveSession`; the Boolean says that Redis answers.
  unfoldable pub handle_resolve_session : D → ℕ → Bytes → Bool → Reply Bytes
  unfolding resolved_reply
  handle_resolve_session d now id available = elim (length id == 0) [
    | true ↦ failure 400 "missing_id"
    | false ↦ resolved_reply (resolve r d now id available)
  ]

-- `RequireKey` before a handler that would reply so.
unfoldable pub require_key {ℓ} : {A : Type ℓ} → Bytes → Bytes → Reply A → Reply A
require_key key header next = elim (bytes_eq header key) [
  | false ↦ failure 401 "unauthorized"
  | true ↦ next
]
