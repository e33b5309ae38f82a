-- ===== src/Auth/Examples.antt =====
-- Concrete runs of the redirect check: "h://a:*" against "h://a:9/".
use otvoren_vot.Prelude.{
  true, false, [], ◌∷◌, map, Option, none, some, Bytes, bytes_eq, ◌≡◌, ◌≢◌, ◌↔◌, refl,
}
use otvoren_vot.Auth.Redirect.{
  Url, Origin, wildcard, is_empty, cut_at, cut_scheme, cut_port, strip_prefix, origin_of,
  split_port, split_rest, parse_pattern, allows, allows_parsed, matches_any, is_absolute,
  validate_parsed, validate_redirect_uri,
}
use otvoren_vot.Auth.Patterns.{format, AnyMatches, validate_redirect_uri-format}

abbrev callback : Url
callback = record {
  scheme = 104 ∷ [];
  host = 97 ∷ 58 ∷ 57 ∷ [];
  has_user = false;
  hostname = 97 ∷ [];
  port = 57 ∷ [];
}

abbrev any_port : Origin
any_port = record { scheme = 104 ∷ []; host = 97 ∷ []; port = wildcard }

abbrev parse_callback : Bytes → Option Url
parse_callback uri = some callback

callback_accepted :
    validate_redirect_uri parse_callback bytes_eq
      (104 ∷ [])
      ((104 ∷ 58 ∷ 47 ∷ 47 ∷ 97 ∷ 58 ∷ 42 ∷ []) ∷ [])
    ≡ true
unfolding validate_redirect_uri validate_parsed allows_parsed matches_any is_absolute split_port
    split_rest parse_pattern allows origin_of cut_at cut_scheme cut_port strip_prefix is_empty
    bytes_eq
callback_accepted = refl

without_separator : parse_pattern (104 ∷ 58 ∷ 97 ∷ []) ≡ none
unfolding split_port split_rest parse_pattern cut_at cut_scheme strip_prefix
without_separator = refl

-- A pattern without a port.
abbrev no_port : Origin
no_port = record { scheme = 104 ∷ []; host = 98 ∷ []; port = [] }

validate_redirect_uri-format_example :
    (validate_redirect_uri parse_callback bytes_eq (104 ∷ []) (map format (no_port ∷ any_port ∷ []))
      ≡ true)
    ↔ ((callback.scheme ≢ [])
        × (callback.host ≢ [])
        × (callback.has_user ≡ false)
        × AnyMatches bytes_eq callback (no_port ∷ any_port ∷ []))
unfolding is_empty
validate_redirect_uri-format_example =
    validate_redirect_uri-format parse_callback bytes_eq (104 ∷ []) callback
      (no_port ∷ any_port ∷ []) refl
      ((refl, refl, refl, refl, λ e. refl), ((refl, refl, refl, refl, λ e. refl), tt))
