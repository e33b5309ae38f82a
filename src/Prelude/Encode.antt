-- ===== src/Prelude/Encode.antt =====
-- encoding/binary: fixed-width integers as bytes. A wider number is truncated, as Go's conversions do.
use Prim.Native.Nat.{ℕ, zero, suc, ◌/◌, ◌%◌}
use mathlib.Core.List.{List, [], ◌∷◌, ◌++◌}
use otvoren_vot.Prelude.Tests.{Bytes}
use otvoren_vot.Prelude.Lists.{length}

-- binary.BigEndian.AppendUint32(nil, uint32(n))
unfoldable pub u32be : ℕ → Bytes
u32be n = n / 16_777_216 % 256 ∷ n / 65_536 % 256 ∷ n / 256 % 256 ∷ n % 256 ∷ []

-- binary.LittleEndian.PutUint64
unfoldable pub u64le : ℕ → ℕ → Bytes
u64le zero n = []
u64le (suc width) n = n % 256 ∷ u64le width (n / 256)

-- u32be(len(b)) || b
unfoldable pub length_prefixed : Bytes → Bytes
unfolding u32be
length_prefixed bytes = u32be (length bytes) ++ bytes

unfoldable pub repeat {ℓ} : {A : Type ℓ} → ℕ → A → List A
repeat zero x = []
repeat (suc n) x = x ∷ repeat n x
