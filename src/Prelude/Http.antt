-- ===== src/Prelude/Http.antt =====
-- What a handler of the services writes: a success with its body, or `writeError` and `http.Error`
-- with the status and the machine-readable code (the message, where there is no code). Human-readable
-- detail, headers and logs are left out.
use Prim.Native.Nat.{ℕ}
use Prim.Native.Char.{code}
use Prim.Native.String.{String}
use mathlib.Core.List.{[], ◌∷◌}
use otvoren_vot.Prelude.Tests.{Bytes}

pub data Reply {ℓ} (A : Type ℓ) : Type ℓ where
  success : A → Reply A
  failure : ℕ → String → Reply A

-- The bytes of an ASCII literal.
abbrev pub ascii : String → Bytes
ascii String.[] = []
ascii (String.◌∷◌ c s) = code c ∷ ascii s
