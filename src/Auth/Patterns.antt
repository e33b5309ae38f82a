-- ===== src/Auth/Patterns.antt =====
-- auth/redirect.go: the patterns "scheme://host:port" and the origins that they stand for.
use otvoren_vot.Prelude.{
  ℕ, Bool, true, false, not, ◌&&◌, ◌||◌, List, [], ◌∷◌, ◌++◌, map, Option, none, some, Bytes, ◌==◌,
  ◌≡◌, ◌≢◌, ◌↔◌, ◌⊎◌, inl, inr, ◌∙◌, bytes_eq_sound, bytes_eq_iff, refl, arith,
}
use otvoren_vot.Auth.Redirect.{
  Url, Origin, colon, separator, wildcard, is_empty, strip_prefix, cut_at, cut_scheme, cut_port,
  origin_of, split_port, split_rest, parse_pattern, allows, allows_parsed, matches_any, is_absolute,
  validate_parsed, validate_redirect_uri,
}

abbrev pub lacks_colon : Bytes → Bool
lacks_colon [] = true
lacks_colon (x ∷ xs) = not (x == colon) && lacks_colon xs

-- The text of a host with a port, which may be left out.
abbrev pub host_port : Bytes → Bytes → Bytes
host_port host [] = host
host_port host (x ∷ port) = host ++ (colon ∷ x ∷ port)

-- The text of an origin.
unfoldable pub format : Origin → Bytes
format o = o.scheme ++ (separator ++ host_port o.host o.port)

-- An origin whose text is a pattern for it.
abbrev pub IsPlain : Origin → Type 0
IsPlain o =
    (lacks_colon o.scheme ≡ true)
    × (is_empty o.scheme ≡ false)
    × (is_empty o.host ≡ false)
    × (lacks_colon o.port ≡ true)
    × (o.port ≡ [] → lacks_colon o.host ≡ true)

abbrev pub AllPlain : List Origin → Type 0
AllPlain [] = Unit
AllPlain (o ∷ os) = IsPlain o × AllPlain os

-- The origin stands for the URL's: the same scheme, an equal host, and the same port or the wildcard.
abbrev pub Matches : (Bytes → Bytes → Bool) → Url → Origin → Type 0
Matches equal_fold u o =
    (u.scheme ≡ o.scheme)
    × (equal_fold u.hostname o.host ≡ true)
    × ((o.port ≡ wildcard) ⊎ (o.port ≡ u.port))

abbrev pub AnyMatches : (Bytes → Bytes → Bool) → Url → List Origin → Type 0
AnyMatches equal_fold u [] = ⊥
AnyMatches equal_fold u (o ∷ os) = Matches equal_fold u o ⊎ AnyMatches equal_fold u os

head_lacks : (x : ℕ) (b : Bool) → not (x == colon) && b ≡ true → ((x == colon) ≡ false) × (b ≡ true)
head_lacks x false h = ground arith
head_lacks x true h = ground arith

strip_prefix-none :
    (x : ℕ) (xs : Bytes) → (x == colon) ≡ false → strip_prefix separator (x ∷ xs) ≡ none
unfolding strip_prefix
strip_prefix-none x xs differs = rw differs refl

cut_scheme-cons :
    (x : ℕ) (xs s rest : Bytes)
    → (x == colon) ≡ false
    → cut_scheme xs ≡ some (s, rest)
    → cut_scheme (x ∷ xs) ≡ some (x ∷ s, rest)
unfolding cut_scheme cut_at
cut_scheme-cons x xs s rest differs found = rw (strip_prefix-none x xs differs) (rw found refl)

cut_scheme-lem :
    (s rest : Bytes) → lacks_colon s ≡ true → cut_scheme (s ++ (separator ++ rest)) ≡ some (s, rest)
unfolding cut_scheme cut_at strip_prefix
cut_scheme-lem [] rest h = refl
cut_scheme-lem (x ∷ s) rest h =
    let (differs, h') = head_lacks x (lacks_colon s) h in
    cut_scheme-cons x (s ++ (separator ++ rest)) s rest differs (cut_scheme-lem s rest h')

cut_port-none : (p : Bytes) → lacks_colon p ≡ true → cut_port p ≡ none
unfolding cut_port
cut_port-none [] h = refl
cut_port-none (x ∷ p) h =
    let (differs, h') = head_lacks x (lacks_colon p) h in rw (cut_port-none p h') (rw differs refl)

cut_port-lem :
    (host p : Bytes) → lacks_colon p ≡ true → cut_port (host ++ (colon ∷ p)) ≡ some (host, p)
unfolding cut_port
cut_port-lem [] p h = rw (cut_port-none p h) refl
cut_port-lem (x ∷ host) p h = rw (cut_port-lem host p h) refl

split_port-format :
    (scheme host port : Bytes)
    → lacks_colon port ≡ true
    → (port ≡ [] → lacks_colon host ≡ true)
    → split_port scheme (host_port host port) (cut_port (host_port host port))
      ≡ origin_of scheme host port
unfolding split_port
split_port-format scheme host [] plain alone = rw (cut_port-none host (alone refl)) refl
split_port-format scheme host (x ∷ port) plain alone = rw (cut_port-lem host (x ∷ port) plain) refl

parse_pattern-format : (o : Origin) → IsPlain o → parse_pattern (format o) ≡ some o
unfolding split_rest parse_pattern format origin_of
parse_pattern-format o (scheme_plain, scheme_given, host_given, port_plain, alone) =
    rw (cut_scheme-lem o.scheme (host_port o.host o.port) scheme_plain) (
      split_port-format o.scheme o.host o.port port_plain alone
      ∙ rw scheme_given (rw host_given refl))

-- What a true conjunction and a true disjunction say.
and_iff : (a b : Bool) → (a && b ≡ true) ↔ ((a ≡ true) × (b ≡ true))
and_iff true b = (λ h. (refl, h), λ h. h.1)
and_iff false b = (λ h. cc, λ h. h.0)

or_iff : (a b : Bool) → (a || b ≡ true) ↔ ((a ≡ true) ⊎ (b ≡ true))
or_iff true b = (λ h. inl refl, λ h. refl)
or_iff false b = (λ h. inr h, λ h. elim h [ inl e ↦ cc | inr e ↦ e ])

allows_iff :
    (equal_fold : Bytes → Bytes → Bool) (u : Url) (o : Origin)
    → (allows equal_fold u o ≡ true) ↔ Matches equal_fold u o
unfolding allows
allows_iff equal_fold u o = (to, from)
  where
    to : allows equal_fold u o ≡ true → Matches equal_fold u o
    to h =
        let (scheme, rest) = (and_iff _ _).0 h in
        let (host, port) = (and_iff _ _).0 rest in
        (
          bytes_eq_sound u.scheme o.scheme scheme,
          host,
          elim ((or_iff _ _).0 port) [
            | inl e ↦ inl (bytes_eq_sound o.port wildcard e)
            | inr e ↦ inr (bytes_eq_sound o.port u.port e)
          ],
        )

    from : Matches equal_fold u o → allows equal_fold u o ≡ true
    from (scheme, host, port) = (and_iff _ _).1 (
      (bytes_eq_iff u.scheme o.scheme).1 scheme,
      (and_iff _ _).1 (
        host,
        (or_iff _ _).1 (elim port [
          | inl e ↦ inl ((bytes_eq_iff o.port wildcard).1 e)
          | inr e ↦ inr ((bytes_eq_iff o.port u.port).1 e)
        ]),
      ),
    )

matches_any_iff :
    (equal_fold : Bytes → Bytes → Bool) (u : Url) (os : List Origin)
    → AllPlain os
    → (matches_any equal_fold u (map format os) ≡ true) ↔ AnyMatches equal_fold u os
unfolding matches_any allows_parsed
matches_any_iff equal_fold u [] h = (λ e. cc, λ x. absurd x)
matches_any_iff equal_fold u (o ∷ os) (plain, h) =
    let (to, from) = matches_any_iff equal_fold u os h in
    rw (parse_pattern-format o plain) (
      λ e. elim ((or_iff _ _).0 e) [
        | inl first ↦ inl ((allows_iff equal_fold u o).0 first)
        | inr later ↦ inr (to later)
      ],
      λ m. (or_iff _ _).1 (elim m [
        | inl first ↦ inl ((allows_iff equal_fold u o).1 first)
        | inr later ↦ inr (from later)
      ]),
    )

given_iff : (xs : Bytes) → (not (is_empty xs) ≡ true) ↔ (xs ≢ [])
unfolding is_empty
given_iff [] = (λ h e. cc, λ h. absurd (h refl))
given_iff (x ∷ xs) = (λ h e. cc, λ h. refl)

not_iff : (b : Bool) → (not b ≡ true) ↔ (b ≡ false)
not_iff true = (λ h. cc, λ h. cc)
not_iff false = (λ h. refl, λ h. refl)

is_absolute_iff :
    (u : Url) → (is_absolute u ≡ true) ↔ ((u.scheme ≢ []) × (u.host ≢ []) × (u.has_user ≡ false))
unfolding is_absolute
is_absolute_iff u = (
  λ h.
      let (scheme, rest) = (and_iff _ _).0 h in
      let (host, user) = (and_iff _ _).0 rest in
      ((given_iff u.scheme).0 scheme, (given_iff u.host).0 host, (not_iff u.has_user).0 user),
  λ (scheme, host, user). (and_iff _ _).1 (
    (given_iff u.scheme).1 scheme,
    (and_iff _ _).1 ((given_iff u.host).1 host, (not_iff u.has_user).1 user),
  ),
)

-- For patterns that are the texts of origins with a scheme and a host, without a colon in scheme and
-- port, and without one in a host that has no port, `validateRedirectURI` accepts exactly the URLs that
-- have a scheme and a host and no user information, and that one of the origins stands for: the same
-- scheme, an equal host, and the same port or the wildcard.
pub validate_redirect_uri-format :
    (parse : Bytes → Option Url) (equal_fold : Bytes → Bytes → Bool) (uri : Bytes) (u : Url)
    (os : List Origin)
    → parse uri ≡ some u
    → AllPlain os
    → (validate_redirect_uri parse equal_fold uri (map format os) ≡ true)
      ↔ ((u.scheme ≢ []) × (u.host ≢ []) × (u.has_user ≡ false) × AnyMatches equal_fold u os)
unfolding validate_redirect_uri validate_parsed
validate_redirect_uri-format parse equal_fold uri u os parsed h =
    let (to, from) = matches_any_iff equal_fold u os h in
    let (absolute, given) = is_absolute_iff u in
    rw parsed (
      λ e.
          let (first, second) = (and_iff _ _).0 e in
          let (scheme, host, user) = absolute first in (scheme, host, user, to second),
      λ m. (and_iff _ _).1 (given (m.0, m.1, m.2), from m.3),
    )
