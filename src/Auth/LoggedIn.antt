-- ===== src/Auth/LoggedIn.antt =====
-- auth/login.go and the calls behind it: what a login has checked, and whom the collection service then
-- takes the voter for.
use otvoren_vot.Prelude.{
  ℕ, Bool, true, false, Option, none, some, [], ◌∷◌, ◌≢◌, Bytes, ◌++◌, bytes_eq_sound, ascii, ◌≡◌,
  refl, sym, subst, ◌∙◌, ap, arith,
}
use otvoren_vot.Collection.Handler.{is_valid_egn, after_prefix}
use otvoren_vot.Auth.Redis.{Redis}
use otvoren_vot.Auth.Redirect.{is_empty}
use otvoren_vot.Auth.Session.{
  Delivery, answered, answer_lost, not_run, create, allow, replace_session,
}
use otvoren_vot.Auth.Provider.{Identity, has_prefix, mock_identity, mock_authenticate}
use otvoren_vot.Auth.Handler.{Environment, session_claims}
use otvoren_vot.Auth.Login.{
  Libraries, LoginHandler, LoginForm, LoginAnswer, LoginError, invalid_egn, not_eligible,
  check_failed, too_many_attempts, invalid_request, session_failed, signing_failed, found, rerender,
  generate_csrf_token, render_login, csrf_matches, redirect_allowed, redirected, token_signed,
  login_created, login_authenticated, login_limited, login_checked, egn_checked, redirect_checked,
  refused,
}

rerender-ne-found :
    (random : Option Bytes) (form : LoginForm) (status : ℕ) (message : LoginError) (l t : Bytes)
    → rerender random form status message ≢ found l t
unfolding rerender generate_csrf_token render_login
rerender-ne-found none form status message l t h = cc
rerender-ne-found (some random) form status message l t h = cc

csrf_matches_sound :
    (cookie : Option Bytes) (token : Bytes)
    → csrf_matches cookie token ≡ true
    → (cookie ≡ some token) × (is_empty token ≡ false)
unfolding csrf_matches is_empty
csrf_matches_sound none token h = cc
csrf_matches_sound (some []) token h = cc
csrf_matches_sound (some (x ∷ cookie)) token h =
    let same : x ∷ cookie ≡ token = bytes_eq_sound (x ∷ cookie) token h in
    (ap some same, ap is_empty (sym same))

mock_identity_eligible :
    (egn : Bytes) (identity : Identity)
    → mock_identity egn ≡ some identity
    → identity.is_eligible ≡ true
    → (identity.egn ≡ egn) × (has_prefix (ascii "00") egn ≡ false)
unfolding mock_identity
mock_identity_eligible egn identity h e = ground arith

-- The identity of the token that the handler makes of an EGN is that EGN's.
mock_authenticate_eligible :
    (egn : Bytes) (identity : Identity)
    → mock_authenticate (ascii "mock-" ++ egn) ≡ some identity
    → identity.is_eligible ≡ true
    → (identity.egn ≡ egn) × (has_prefix (ascii "00") egn ≡ false)
unfolding mock_authenticate after_prefix
mock_authenticate_eligible egn identity h e = mock_identity_eligible egn identity h e

redirected_found :
    (lib : Libraries) (signed location token : Bytes) (target : Option Bytes)
    → redirected lib signed target ≡ found location token
    → (signed ≡ token) × (target ≡ some location)
unfolding redirected
redirected_found lib signed location token none h = cc
redirected_found lib signed location token (some target) h = (cc, cc)

module _ (lib : Libraries) {D : Type 0} (r : Redis D) (h : LoginHandler) (env : Environment)
    (random : Option Bytes) (form : LoginForm) (location token : Bytes) where
  no_page :
      {P : Type 0} (status : ℕ) (message : LoginError)
      → rerender random form status message ≡ found location token
      → P
  no_page status message e = absurd (rerender-ne-found random form status message location token e)

  token_signed_found :
      (signed : Option Bytes)
      → token_signed lib random form signed ≡ found location token
      → (signed ≡ some token) × (lib.add_token form.redirect_uri token ≡ some location)
  unfolding token_signed
  token_signed_found none e = no_page 500 signing_failed e
  token_signed_found (some signed) e =
      let (same, target) =
        redirected_found lib signed location token (lib.add_token form.redirect_uri signed) e in
      (ap some same, ap (lib.add_token form.redirect_uri) (sym same) ∙ target)

  -- A check that leads to a page or a refusal where it fails.
  checked :
      (Q : D → Type 0) (b : Bool) (page done : D × LoginAnswer)
      → page.1 ≢ found location token
      → (b ≡ true → done.1 ≡ found location token → Q done.0)
      → (elim b as (λ x. D × LoginAnswer) [ false ↦ page | true ↦ done ]).1 ≡ found location token
      → Q (elim b as (λ x. D × LoginAnswer) [ false ↦ page | true ↦ done ]).0
  checked Q false page done blocked passed e = absurd (blocked e)
  checked Q true page done blocked passed e = passed refl e

  -- What a login that succeeds has checked, signed and stored.
  abbrev pub IsLogin : D → D → Type 0
  IsLogin d d' =
      (lib.sign (session_claims h.election_id env.session_id env.now) ≡ some token)
      × (lib.add_token form.redirect_uri token ≡ some location)
      × (d' ≡ replace_session r d env.now form.egn env.session_id)

  login_created_found :
      (d : D) (egn : Bytes) (creation : Delivery)
      → egn ≡ form.egn
      → (login_created lib r h env random form (create r d env.now egn env.session_id creation)).1
        ≡ found location token
      → IsLogin d
          (login_created lib r h env random form (create r d env.now egn env.session_id creation)).0
  unfolding login_created create
  login_created_found d egn answered same e =
      let (signed, target) =
        token_signed_found (lib.sign (session_claims h.election_id env.session_id env.now)) e in
      (signed, target, ap (λ x. replace_session r d env.now x env.session_id) same)
  login_created_found d egn answer_lost same e = no_page 500 session_failed e
  login_created_found d egn not_run same e = no_page 500 session_failed e

  login_authenticated_found :
      (d : D) (o : Option Identity)
      → mock_authenticate (ascii "mock-" ++ form.egn) ≡ o
      → (login_authenticated lib r h d env random form (some o)).1 ≡ found location token
      → (has_prefix (ascii "00") form.egn ≡ false)
        × IsLogin d (login_authenticated lib r h d env random form (some o)).0
  unfolding login_authenticated
  login_authenticated_found d none known e = no_page 400 invalid_egn e
  login_authenticated_found d (some identity) known e =
      checked (λ d'. (has_prefix (ascii "00") form.egn ≡ false) × IsLogin d d') identity.is_eligible
        (d, rerender random form 200 not_eligible)
        (login_created lib r h env random form
          (create r d env.now identity.egn env.session_id env.creation))
        (rerender-ne-found random form 200 not_eligible location token)
        (λ eligible e'.
          let (same, prefix) = mock_authenticate_eligible form.egn identity known eligible in
          (prefix, login_created_found d identity.egn env.creation same e'))
        e

  login_limited_found :
      (provider : (t : Bytes) → h.authenticate t ≡ some (mock_authenticate t)) (p : D × Option Bool)
      → (login_limited lib r h env random form p).1 ≡ found location token
      → (p.1 ≡ some true)
        × (has_prefix (ascii "00") form.egn ≡ false)
        × IsLogin p.0 (login_limited lib r h env random form p).0
  unfolding login_limited
  login_limited_found provider (d, none) e = no_page 500 check_failed e
  login_limited_found provider (d, some false) e = no_page 429 too_many_attempts e
  login_limited_found provider (d, some true) e =
      let id = mock_authenticate (ascii "mock-" ++ form.egn) in
      let known : h.authenticate (ascii "mock-" ++ form.egn) ≡ some id =
        provider (ascii "mock-" ++ form.egn) in
      let at = λ (o : Option (Option Identity)). login_authenticated lib r h d env random form o in
      let (prefix, login) =
        login_authenticated_found d id refl (sym (ap (λ o. (at o).1) known) ∙ e) in
      (refl, prefix, subst (λ o. IsLogin d (at o).0) (sym known) login)

  module _ (provider : (t : Bytes) → h.authenticate t ≡ some (mock_authenticate t)) (d : D) where
    -- The EGN has ten digits, does not begin with 00, and the rate limiter let it through.
    abbrev pub IsAdmitted : D → Type 0
    IsAdmitted d' =
        (is_valid_egn form.egn ≡ true)
        × ((allow r d env.now form.egn env.limiting).1 ≡ some true)
        × (has_prefix (ascii "00") form.egn ≡ false)
        × IsLogin (allow r d env.now form.egn env.limiting).0 d'

    egn_checked_found :
        (egn_checked lib r h d env random form).1 ≡ found location token
        → IsAdmitted (egn_checked lib r h d env random form).0
    unfolding egn_checked
    egn_checked_found =
        checked IsAdmitted (is_valid_egn form.egn) (d, rerender random form 400 invalid_egn)
          (login_limited lib r h env random form (allow r d env.now form.egn env.limiting))
          (rerender-ne-found random form 400 invalid_egn location token)
          (λ valid e.
            let (allowed, prefix, login) =
              login_limited_found provider (allow r d env.now form.egn env.limiting) e in
            (valid, allowed, prefix, login))

    redirect_checked_found :
        (redirect_checked lib r h d env random form).1 ≡ found location token
        → (redirect_allowed lib h form.redirect_uri ≡ true)
          × IsAdmitted (redirect_checked lib r h d env random form).0
    unfolding redirect_checked
    redirect_checked_found =
        checked (λ d'. (redirect_allowed lib h form.redirect_uri ≡ true) × IsAdmitted d')
          (redirect_allowed lib h form.redirect_uri) (d, refused 400 "invalid_redirect")
          (egn_checked lib r h d env random form) (λ e. cc)
          (λ allowed e. (allowed, egn_checked_found e))

    -- A login that redirects has passed every check: the CSRF cookie is the form's token and not empty, the redirect
    -- URI is allowed, the EGN has ten digits and does not begin with 00, and the rate limiter let it
    -- through. It has signed a token for the new session, leads to the redirect URI with that token, and
    -- has replaced the voter's session in what the rate limiter left.
    pub login_checked_found :
        (cookie : Option Bytes)
        → (login_checked lib r h d env random cookie form).1 ≡ found location token
        → (cookie ≡ some form.csrf_token)
          × (is_empty form.csrf_token ≡ false)
          × (redirect_allowed lib h form.redirect_uri ≡ true)
          × IsAdmitted (login_checked lib r h d env random cookie form).0
    unfolding login_checked
    login_checked_found cookie =
        checked
          (λ d'.
            (cookie ≡ some form.csrf_token)
            × (is_empty form.csrf_token ≡ false)
            × (redirect_allowed lib h form.redirect_uri ≡ true)
            × IsAdmitted d')
          (csrf_matches cookie form.csrf_token) (d, rerender random form 403 invalid_request)
          (redirect_checked lib r h d env random form)
          (rerender-ne-found random form 403 invalid_request location token)
          (λ csrf e.
            let (allowed, admitted) = redirect_checked_found e in
            let (same, given) = csrf_matches_sound cookie form.csrf_token csrf in
            (same, given, allowed, admitted))
