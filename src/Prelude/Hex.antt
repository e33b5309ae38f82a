-- ===== src/Prelude/Hex.antt =====
-- encoding/hex: EncodeToString and DecodeString, on bytes.
use Prim.Native.Nat.{ℕ, ◌+◌, ◌-◌, ◌*◌, ◌/◌, ◌%◌, ◌<◌}
use mathlib.Core.Path.{◌≡◌, refl, ap}
use mathlib.Core.Bool.{◌&&◌}
use mathlib.Core.Option.{Option, none, some}
use mathlib.Core.List.{[], ◌∷◌}
use native.Mathlib.Omega.{arith}
use otvoren_vot.Prelude.Tests.{Bytes, ltb, leb, if◌then◌else◌}

hex_digit : ℕ → ℕ
hex_digit n = if ltb n 10 then n + b'0' else n - 10 + b'a'

hex_value : ℕ → Option ℕ
hex_value c =
    if leb b'0' c && leb c b'9'
    then some (c - b'0')
    else if leb b'a' c && leb c b'f'
    then some (c - b'a' + 10)
    else if leb b'A' c && leb c b'F'
    then some (c - b'A' + 10)
    else none

unfoldable pub hex_encode : Bytes → Bytes
unfolding hex_digit
hex_encode [] = []
hex_encode (b ∷ bs) = hex_digit (b / 16) ∷ hex_digit (b % 16) ∷ hex_encode bs

join_digits : Option ℕ → Option ℕ → Option Bytes → Option Bytes
join_digits (some hi) (some lo) (some rest) = some ((hi * 16 + lo) ∷ rest)
join_digits (some hi) (some lo) none = none
join_digits (some hi) none rest = none
join_digits none lo rest = none

-- none is the error of an odd length or of a character that is no digit.
unfoldable pub hex_decode : Bytes → Option Bytes
unfolding hex_value join_digits
hex_decode [] = some []
hex_decode (c ∷ []) = none
hex_decode (c ∷ d ∷ cs) = join_digits (hex_value c) (hex_value d) (hex_decode cs)

hex_value-hex_digit : (n : ℕ) → n < 16 → hex_value (hex_digit n) ≡ some n
unfolding hex_value hex_digit
hex_value-hex_digit n h = ground arith

abbrev pub AllBytes : Bytes → Type 0
AllBytes [] = Unit {0}
AllBytes (b ∷ bs) = (b < 256) × AllBytes bs

-- No byte is zero.
abbrev pub HasNoZero : Bytes → Type 0
HasNoZero [] = Unit {0}
HasNoZero (b ∷ bs) = (0 < b) × HasNoZero bs

hex_digit_pos : (n : ℕ) → 0 < hex_digit n
unfolding hex_digit
hex_digit_pos n = ground arith

pub hex_encode-HasNoZero : (bs : Bytes) → HasNoZero (hex_encode bs)
unfolding hex_encode
hex_encode-HasNoZero [] = tt
hex_encode-HasNoZero (b ∷ bs) =
    (hex_digit_pos (b / 16), (hex_digit_pos (b % 16), hex_encode-HasNoZero bs))

hex_decode-digits :
    (b : ℕ) (bs : Bytes)
    → hex_value (hex_digit (b / 16)) ≡ some (b / 16)
    → hex_value (hex_digit (b % 16)) ≡ some (b % 16)
    → hex_decode (hex_encode bs) ≡ some bs
    → hex_decode (hex_encode (b ∷ bs)) ≡ some (b ∷ bs)
unfolding hex_encode hex_decode
hex_decode-digits b bs p q r = rw (p, q, r) (ap (λ n. some (n ∷ bs)) (omega arith))

pub hex_decode-hex_encode : (bs : Bytes) → AllBytes bs → hex_decode (hex_encode bs) ≡ some bs
hex_decode-hex_encode [] h = unfold hex_decode hex_encode in refl
hex_decode-hex_encode (b ∷ bs) (h, hs) =
    hex_decode-digits b bs (hex_value-hex_digit (b / 16) (omega arith))
      (hex_value-hex_digit (b % 16) (omega arith)) (hex_decode-hex_encode bs hs)
