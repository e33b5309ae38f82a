-- ===== src/Auth/Redirect.antt =====
-- auth/redirect.go. `url.Parse` and `strings.EqualFold` are parameters; a string is its bytes.
use otvoren_vot.Prelude.{
  ℕ, Bool, true, false, not, ◌&&◌, ◌||◌, List, [], ◌∷◌, Option, none, some, Bytes, ◌==◌, bytes_eq,
  if◌then◌else◌,
}

-- What the code reads of a `url.URL`; `has_user` is User != nil.
pub record Url : Type 0 where
  pub scheme : Bytes
  pub host : Bytes
  pub has_user : Bool
  pub hostname : Bytes
  pub port : Bytes

-- The results of `parsePattern`.
pub record Origin : Type 0 where
  pub scheme : Bytes
  pub host : Bytes
  pub port : Bytes

abbrev pub colon : ℕ
colon = 58

abbrev pub separator : Bytes
separator = colon ∷ 47 ∷ 47 ∷ []

abbrev pub wildcard : Bytes
wildcard = 42 ∷ []

unfoldable pub is_empty : Bytes → Bool
is_empty [] = true
is_empty (x ∷ xs) = false

-- The rest of the text after a prefix.
unfoldable pub strip_prefix : Bytes → Bytes → Option Bytes
strip_prefix [] s = some s
strip_prefix (p ∷ ps) [] = none
strip_prefix (p ∷ ps) (x ∷ xs) = if x == p then strip_prefix ps xs else none

-- The cut at a byte, from what follows a separator there and the cut of the text after the byte.
unfoldable pub cut_at : ℕ → Option Bytes → Option (Bytes × Bytes) → Option (Bytes × Bytes)
cut_at x (some rest) later = some ([], rest)
cut_at x none none = none
cut_at x none (some (scheme, rest)) = some (x ∷ scheme, rest)

-- The text before the first "://" and after it.
unfoldable pub cut_scheme : Bytes → Option (Bytes × Bytes)
unfolding cut_at
cut_scheme [] = none
cut_scheme (x ∷ xs) = cut_at x (strip_prefix separator (x ∷ xs)) (cut_scheme xs)

-- The text before the last ":" and after it.
unfoldable pub cut_port : Bytes → Option (Bytes × Bytes)
cut_port [] = none
cut_port (x ∷ xs) = elim (cut_port xs) [
  | some (host, port) ↦ some (x ∷ host, port)
  | none ↦ if x == colon then some ([], xs) else none
]

unfoldable pub origin_of : Bytes → Bytes → Bytes → Option Origin
unfolding is_empty
origin_of scheme host port =
    if is_empty scheme || is_empty host
    then none
    else some (record { scheme = scheme; host = host; port = port })

-- The host and the port after the scheme.
unfoldable pub split_port : Bytes → Bytes → Option (Bytes × Bytes) → Option Origin
split_port scheme rest none = origin_of scheme rest []
split_port scheme rest (some (host, port)) = origin_of scheme host port

unfoldable pub split_rest : Option (Bytes × Bytes) → Option Origin
unfolding split_port
split_rest none = none
split_rest (some (scheme, rest)) = split_port scheme rest (cut_port rest)

unfoldable pub parse_pattern : Bytes → Option Origin
unfolding split_rest
parse_pattern pattern = split_rest (cut_scheme pattern)

-- The body of the loop over the patterns that parse.
unfoldable pub allows : (Bytes → Bytes → Bool) → Url → Origin → Bool
allows equal_fold u o =
    bytes_eq u.scheme o.scheme
    && (equal_fold u.hostname o.host && (bytes_eq o.port wildcard || bytes_eq o.port u.port))

-- A pattern that does not parse is skipped.
unfoldable pub allows_parsed : (Bytes → Bytes → Bool) → Url → Option Origin → Bool
allows_parsed equal_fold u none = false
allows_parsed equal_fold u (some o) = allows equal_fold u o

unfoldable pub matches_any : (Bytes → Bytes → Bool) → Url → List Bytes → Bool
matches_any equal_fold u [] = false
matches_any equal_fold u (pattern ∷ patterns) =
    allows_parsed equal_fold u (parse_pattern pattern) || matches_any equal_fold u patterns

unfoldable pub is_absolute : Url → Bool
unfolding is_empty
is_absolute u = not (is_empty u.scheme) && (not (is_empty u.host) && not u.has_user)

-- The URI once it is parsed.
unfoldable pub validate_parsed : (Bytes → Bytes → Bool) → Option Url → List Bytes → Bool
unfolding matches_any is_absolute
validate_parsed equal_fold none patterns = false
validate_parsed equal_fold (some u) patterns = is_absolute u && matches_any equal_fold u patterns

-- `validateRedirectURI`
unfoldable pub validate_redirect_uri :
    (Bytes → Option Url) → (Bytes → Bytes → Bool) → Bytes → List Bytes → Bool
unfolding validate_parsed
validate_redirect_uri parse equal_fold uri patterns =
    validate_parsed equal_fold (parse uri) patterns
