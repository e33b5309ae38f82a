-- ===== src/Auth/Login.antt =====
-- auth/login.go. The parsing of a URI, its query with the token added, and JWT are parameters. A message
-- on the page is a constructor; the page's HTML and fixed headers are left out.
use otvoren_vot.Prelude.{
  ℕ, Bool, true, false, ◌&&◌, not, List, Option, none, some, Bytes, ◌++◌, bytes_eq, hex_encode,
  ascii, String,
}
use otvoren_vot.Collection.Handler.{is_valid_egn}
use otvoren_vot.Auth.Redirect.{Url, is_empty, validate_redirect_uri}
use otvoren_vot.Auth.Redis.{Redis}
use otvoren_vot.Auth.Provider.{Identity}
use otvoren_vot.Auth.Session.{create, allow}
use otvoren_vot.Auth.Handler.{SessionClaims, Environment, session_claims}

pub data LoginError : Type 0 where
  invalid_request invalid_egn check_failed too_many_attempts authentication_failed not_eligible
        session_failed signing_failed :
      LoginError

-- Go's libraries for URIs and tokens, with the handler's keys.
pub record Libraries : Type 0 where
  pub parse : Bytes → Option Url
  pub equal_fold : Bytes → Bytes → Bool
  -- The URI with the token in its query, none where it does not parse.
  pub add_token : Bytes → Bytes → Option Bytes
  pub sign : SessionClaims → Option Bytes
  pub verify : Bytes → Option SessionClaims

pub record LoginHandler : Type 0 where
  pub authenticate : Bytes → Option (Option Identity)
  pub election_id : Bytes
  pub allowed_uris : List Bytes

pub record LoginForm : Type 0 where
  pub csrf_token : Bytes
  pub redirect_uri : Bytes
  pub egn : Bytes

pub data LoginAnswer : Type 0 where
  -- The status, the fresh CSRF token of cookie and form, the redirect URI and the message.
  page : ℕ → Bytes → Bytes → Option LoginError → LoginAnswer
  refused : ℕ → String → LoginAnswer
  -- The location and the session cookie.
  found : Bytes → Bytes → LoginAnswer
  -- The redirect URI does not parse, after the session cookie is set.
  not_parsed : Bytes → LoginAnswer

-- `generateCSRFToken`, with what the random source gives.
unfoldable pub generate_csrf_token : Option Bytes → Option Bytes
generate_csrf_token none = none
generate_csrf_token (some random) = some (hex_encode random)

unfoldable pub render_login : Option Bytes → ℕ → Bytes → Option LoginError → LoginAnswer
render_login none status redirect_uri message = refused 500 "csrf_error"
render_login (some token) status redirect_uri message = page status token redirect_uri message

-- The closure `rerender` of `HandlePostLogin`.
unfoldable pub rerender : Option Bytes → LoginForm → ℕ → LoginError → LoginAnswer
unfolding generate_csrf_token render_login
rerender random form status message =
    render_login (generate_csrf_token random) status form.redirect_uri (some message)

-- The cookie is there, is not empty and is the form's token.
unfoldable pub csrf_matches : Option Bytes → Bytes → Bool
unfolding is_empty
csrf_matches none token = false
csrf_matches (some cookie) token = not (is_empty cookie) && bytes_eq cookie token

module _ (lib : Libraries) where
  -- The redirect URI is there and is allowed.
  unfoldable pub redirect_allowed : LoginHandler → Bytes → Bool
  unfolding is_empty
  redirect_allowed h uri =
      not (is_empty uri) && validate_redirect_uri lib.parse lib.equal_fold uri h.allowed_uris

  unfoldable pub handle_get_login : LoginHandler → Option Bytes → Bytes → LoginAnswer
  unfolding redirect_allowed generate_csrf_token render_login
  handle_get_login h random uri = elim (redirect_allowed h uri) [
    | false ↦ refused 400 "invalid_redirect"
    | true ↦ render_login (generate_csrf_token random) 200 uri none
  ]

  -- From the redirect on.
  unfoldable pub redirected : Bytes → Option Bytes → LoginAnswer
  redirected token none = not_parsed token
  redirected token (some location) = found location token

  -- From the signature on.
  unfoldable pub token_signed : Option Bytes → LoginForm → Option Bytes → LoginAnswer
  unfolding redirected rerender
  token_signed random form none = rerender random form 500 signing_failed
  token_signed random form (some token) = redirected token (lib.add_token form.redirect_uri token)

  module _ {D : Type 0} (r : Redis D) where
    -- From `sessions.Create` on.
    unfoldable pub login_created :
        LoginHandler → Environment → Option Bytes → LoginForm → D × Option Bytes → D × LoginAnswer
    unfolding token_signed rerender session_claims
    login_created h env random form (d, none) = (d, rerender random form 500 session_failed)
    login_created h env random form (d, some id) =
        (d, token_signed random form (lib.sign (session_claims h.election_id id env.now)))

    -- From `provider.Authenticate` on.
    unfoldable pub login_authenticated :
        LoginHandler
        → D
        → Environment
        → Option Bytes
        → LoginForm
        → Option (Option Identity)
        → D × LoginAnswer
    unfolding login_created rerender
    login_authenticated h d env random form none =
        (d, rerender random form 500 authentication_failed)
    login_authenticated h d env random form (some none) = (d, rerender random form 400 invalid_egn)
    login_authenticated h d env random form (some (some identity)) = elim identity.is_eligible [
      | false ↦ (d, rerender random form 200 not_eligible)
      | true ↦
          login_created h env random form
            (create r d env.now identity.egn env.session_id env.creation)
    ]

    -- From `rateLimiter.Allow` on.
    unfoldable pub login_limited :
        LoginHandler → Environment → Option Bytes → LoginForm → D × Option Bool → D × LoginAnswer
    unfolding login_authenticated rerender
    login_limited h env random form (d, none) = (d, rerender random form 500 check_failed)
    login_limited h env random form (d, some false) =
        (d, rerender random form 429 too_many_attempts)
    login_limited h env random form (d, some true) =
        login_authenticated h d env random form (h.authenticate (ascii "mock-" ++ form.egn))

    -- From the check of the EGN on.
    unfoldable pub egn_checked :
        LoginHandler → D → Environment → Option Bytes → LoginForm → D × LoginAnswer
    unfolding login_limited is_valid_egn rerender
    egn_checked h d env random form = elim (is_valid_egn form.egn) [
      | false ↦ (d, rerender random form 400 invalid_egn)
      | true ↦ login_limited h env random form (allow r d env.now form.egn env.limiting)
    ]

    -- From the check of the redirect URI on.
    unfoldable pub redirect_checked :
        LoginHandler → D → Environment → Option Bytes → LoginForm → D × LoginAnswer
    unfolding egn_checked redirect_allowed
    redirect_checked h d env random form = elim (redirect_allowed h form.redirect_uri) [
      | false ↦ (d, refused 400 "invalid_redirect")
      | true ↦ egn_checked h d env random form
    ]

    -- The form once it is parsed.
    unfoldable pub login_checked :
        LoginHandler → D → Environment → Option Bytes → Option Bytes → LoginForm → D × LoginAnswer
    unfolding redirect_checked csrf_matches rerender
    login_checked h d env random cookie form = elim (csrf_matches cookie form.csrf_token) [
      | false ↦ (d, rerender random form 403 invalid_request)
      | true ↦ redirect_checked h d env random form
    ]

    -- `HandlePostLogin`, with the random bytes of the CSRF token, the CSRF cookie and the form.
    unfoldable pub handle_post_login :
        LoginHandler
        → D
        → Environment
        → Option Bytes
        → Option Bytes
        → Option LoginForm
        → D × LoginAnswer
    unfolding login_checked
    handle_post_login h d env random cookie none = (d, refused 400 "invalid_form")
    handle_post_login h d env random cookie (some form) = login_checked h d env random cookie form

  -- The origin that the CORS headers allow, if they are set.
  unfoldable pub allowed_origin : LoginHandler → Bytes → Option Bytes
  allowed_origin h origin =
      elim (validate_redirect_uri lib.parse lib.equal_fold origin h.allowed_uris) [
        | true ↦ some origin
        | false ↦ none
      ]

  -- The end of the session that a cookie's token names, none where it names none.
  unfoldable pub session_end : Option Bytes → Option ℕ
  session_end none = none
  session_end (some cookie) = elim (lib.verify cookie) [
    | none ↦ none
    | some claims ↦ some claims.expires_at
  ]

  -- `HandleSessionStatus`: the allowed origin, and the expiry of an authenticated session.
  unfoldable pub handle_session_status :
      LoginHandler → Bytes → Option Bytes → Option Bytes × Option ℕ
  unfolding allowed_origin session_end
  handle_session_status h origin cookie = (allowed_origin h origin, session_end cookie)

  -- `HandleSessionStatusOptions`
  unfoldable pub handle_session_status_options : LoginHandler → Bytes → Option Bytes
  unfolding allowed_origin
  handle_session_status_options h origin = allowed_origin h origin
