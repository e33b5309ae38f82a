-- ===== src/Verification/Codes.antt =====
-- verification/codes/codes.go. HMAC-SHA256 and the 32-byte encoding of a scalar are parameters.
use otvoren_vot.Prelude.{
  ℕ, zero, suc, ◌+◌, ◌*◌, ◌/◌, ◌%◌, List, [], ◌∷◌, ◌++◌, Option, none, some, Bytes, take, bytes_eq,
  if◌then◌else◌, ascii, insert, bytes_Eq,
}

-- binary.BigEndian.Uint64 of eight bytes.
unfoldable pub big_endian_from : ℕ → Bytes → ℕ
big_endian_from acc [] = acc
big_endian_from acc (b ∷ bs) = big_endian_from (acc * 256 + b) bs

-- The last `count` decimal digits of n, in ASCII, after those in `digits`.
unfoldable pub decimal_from : ℕ → ℕ → Bytes → Bytes
decimal_from zero n digits = digits
decimal_from (suc count) n digits = decimal_from count (n / 10) ((n % 10 + b'0') ∷ digits)

-- fmt.Sprintf("%08d", n % 100_000_000)
unfoldable pub eight_digits : ℕ → Bytes
unfolding decimal_from
eight_digits n = decimal_from 8 (n % 100_000_000) []

module _ (hmac : Bytes → Bytes → Bytes) where
  unfoldable pub code_of : Bytes → Bytes → Bytes → Bytes → Bytes
  unfolding eight_digits big_endian_from
  code_of domain secret session_id payload =
      eight_digits
        (big_endian_from 0 (take 8 (hmac secret (domain ++ 0 ∷ (session_id ++ 0 ∷ payload)))))

  unfoldable pub derive_code : Bytes → Bytes → Bytes → Bytes
  unfolding code_of
  derive_code secret session_id party =
      code_of (ascii "otvoren-vot.code-mapping") secret session_id party

  unfoldable pub derive_return_code : Bytes → Bytes → Bytes → Bytes
  unfolding code_of
  derive_return_code secret session_id ballot =
      code_of (ascii "otvoren-vot.return-code") secret session_id ballot

  -- The loop of `GenerateCodeMapping`, over the parties left.
  unfoldable pub code_mapping_from :
      Bytes → Bytes → List (Bytes × Bytes) → List Bytes → List (Bytes × Bytes)
  unfolding derive_code
  code_mapping_from secret session_id codes [] = codes
  code_mapping_from secret session_id codes (party ∷ parties) =
      code_mapping_from secret session_id (insert party (derive_code secret session_id party) codes)
        parties

  unfoldable pub generate_code_mapping : Bytes → List Bytes → Bytes → List (Bytes × Bytes)
  unfolding code_mapping_from
  generate_code_mapping session_id parties secret = code_mapping_from secret session_id [] parties

-- The party whose code is the one given: the first in the order of the map.
unfoldable pub verify_return_code : List (Bytes × Bytes) → Bytes → Option Bytes
verify_return_code [] return_code = none
verify_return_code ((party, code) ∷ codes) return_code =
    if bytes_eq code return_code then some party else verify_return_code codes return_code
