-- ===== src/Auth/LoginExamples.antt =====
-- Concrete runs of the sessions, the rate limiter and the login, over the store in memory.
use otvoren_vot.Prelude.{
  ℕ, true, false, [], ◌∷◌, Option, none, some, Bytes, ◌++◌, bytes_eq, bytes_eq_sound, repeat, ascii,
  success, if◌then◌else◌, ◌≡◌, refl, arith,
}
use Prim.Native.Nat.{min}
use otvoren_vot.Collection.Handler.{
  Claims, CollectionHandler, identify, after_prefix, all_digits, is_valid_egn,
}
use otvoren_vot.Auth.Redirect.{
  Url, is_empty, cut_at, cut_scheme, cut_port, strip_prefix, origin_of, split_port, split_rest,
  parse_pattern, allows, allows_parsed, matches_any, is_absolute, validate_parsed,
  validate_redirect_uri,
}
use otvoren_vot.Auth.Session.{
  answered, revoke, replace_session, create, allow, resolve, egn_of, session_not_found,
  rate_limit_max,
}
use otvoren_vot.Auth.Provider.{mock_authenticate, mock_identity, has_prefix}
use otvoren_vot.Auth.Handler.{
  SessionClaims, Environment, session_claims, handle_resolve_session, require_key,
}
use otvoren_vot.Auth.LoggedIn.{IsAdmitted, login_checked_found}
use otvoren_vot.Auth.Login.{
  Libraries, LoginHandler, LoginForm, found, csrf_matches, redirect_allowed, redirected,
  token_signed, login_created, login_authenticated, login_limited, egn_checked, redirect_checked,
  login_checked, handle_post_login,
}
use otvoren_vot.Auth.Memory.{Memory, no_entries, memory, memory_laws}
use otvoren_vot.Auth.OneSession.{started, created, resolve_unique}
use otvoren_vot.Auth.Limits.{Attempts, attempts_of, allowed_of, allowed_of_lem}
use otvoren_vot.Auth.Identified.{auth_reply, login-identify}

abbrev voter : Bytes
voter = ascii "8501011234"

abbrev other_voter : Bytes
other_voter = ascii "8501011235"

abbrev first_id : Bytes
first_id = repeat 36 b'a'

abbrev second_id : Bytes
second_id = repeat 36 b'b'

abbrev once : Memory
once = (create memory no_entries 10 voter first_id answered).0

abbrev twice : Memory
twice = (create memory once 20 voter second_id answered).0

first_session_revoked : resolve memory twice 30 first_id true ≡ session_not_found
unfolding resolve create replace_session revoke bytes_eq repeat
first_session_revoked = refl

second_session_found : resolve memory twice 30 second_id true ≡ egn_of voter
unfolding resolve create replace_session revoke bytes_eq repeat
second_session_found = refl

resolve_unique_example : second_id ≡ second_id
resolve_unique_example =
    resolve_unique memory memory_laws twice 20 30 second_id second_id voter
      (created 20 voter second_id answered (omega arith)
        (created 10 voter first_id answered (omega arith) (started no_entries 0 (λ now k. refl))))
      (omega arith) second_session_found second_session_found

abbrev attempts : Attempts
attempts =
    (100, voter)
    ∷ (200, voter)
    ∷ (300, other_voter)
    ∷ (700, voter)
    ∷ (1200, voter)
    ∷ (1300, voter)
    ∷ (1400, voter)
    ∷ (1900, voter)
    ∷ []

allowed_of_lem_example :
    allowed_of memory no_entries voter attempts ≡ min (attempts_of voter attempts) rate_limit_max
unfolding bytes_eq
allowed_of_lem_example =
    allowed_of_lem memory memory_laws no_entries voter 0 attempts (λ now h. refl) (omega arith)

abbrev election : Bytes
election = ascii "e1"

abbrev callback : Url
callback = record {
  scheme = ascii "h";
  host = ascii "a:9";
  has_user = false;
  hostname = ascii "a";
  port = ascii "9";
}

abbrev sign_claims : SessionClaims → Option Bytes
sign_claims claims = if bytes_eq claims.election_id election then some claims.subject else none

abbrev libraries : Libraries
libraries = record {
  parse = λ uri. some callback;
  equal_fold = bytes_eq;
  add_token = λ uri token. some (uri ++ token);
  sign = sign_claims;
  verify = λ token. none;
}

abbrev login_handler : LoginHandler
login_handler = record {
  authenticate = λ token. some (mock_authenticate token);
  election_id = election;
  allowed_uris = ascii "h://a:*" ∷ [];
}

abbrev collection : CollectionHandler
collection = record { dev_auth = false; election_id = election; egn_hmac_key = [] }

abbrev form : LoginForm
form = record { csrf_token = ascii "c"; redirect_uri = ascii "h://a:9/"; egn = voter }

abbrev arrival : Environment
arrival = record { now = 40; session_id = first_id; limiting = answered; creation = answered }

abbrev verify_at : ℕ → Bytes → Option Claims
verify_at now token = some (record { election_id = election; subject = token })

abbrev location : Bytes
location = ascii "h://a:9/" ++ first_id

signed_verifies :
    (claims : SessionClaims) (at : ℕ)
    → sign_claims claims ≡ some first_id
    → verify_at at first_id
      ≡ some (record { election_id = claims.election_id; subject = claims.subject })
signed_verifies claims at h = ground (arith, bytes_eq_sound claims.election_id election)

login_found :
    (handle_post_login libraries memory login_handler twice arrival none
      (some (ascii "c"))
      (some form)).1
    ≡ found location first_id
unfolding handle_post_login login_checked redirect_checked egn_checked login_limited
    login_authenticated login_created token_signed redirected csrf_matches redirect_allowed
    is_valid_egn all_digits after_prefix mock_authenticate mock_identity has_prefix session_claims
    allow create replace_session revoke bytes_eq repeat is_empty validate_redirect_uri
    validate_parsed matches_any allows_parsed is_absolute split_port split_rest parse_pattern allows
    origin_of cut_at cut_scheme cut_port strip_prefix
login_found = refl

login-identify_example :
    identify
      (verify_at 50)
      collection
      (record { voter_egn = []; authorization = []; session_cookie = some first_id })
      (λ id attempt. auth_reply (
        require_key (ascii "k") (ascii "k") (
          handle_resolve_session memory
            (handle_post_login libraries memory login_handler twice arrival none
              (some (ascii "c"))
              (some form)).0
            50
            id
            true)))
    ≡ success voter
unfolding repeat
login-identify_example =
    login-identify libraries memory memory_laws login_handler twice arrival none (some (ascii "c"))
      form location first_id collection verify_at 50 (ascii "k") (ascii "k") (λ t. refl)
      (λ claims at h soon. signed_verifies claims at h) refl refl refl refl (omega arith)
      (omega arith) login_found

login_checked_found_example :
    (some (ascii "c") ≡ some form.csrf_token)
    × (is_empty form.csrf_token ≡ false)
    × (redirect_allowed libraries login_handler form.redirect_uri ≡ true)
    × IsAdmitted libraries memory login_handler arrival none form location first_id
        (λ t. refl)
        twice
        (login_checked libraries memory login_handler twice arrival none (some (ascii "c")) form).0
login_checked_found_example =
    login_checked_found libraries memory login_handler arrival none form location first_id
      (λ t. refl) twice (some (ascii "c")) (unfold handle_post_login in login_found)
