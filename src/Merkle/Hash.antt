-- ===== src/Merkle/Hash.antt =====
-- crypto/merkle/hash.go: the three hashes of the tree, over SHA-256 as a parameter, and the errors.
use otvoren_vot.Prelude.{ℕ, List, [], ◌∷◌, ◌++◌, none, some, Bytes, get_elem?}

-- A SHA-256 digest.
abbrev pub Hash : Type 0
Hash = Bytes

pub data Error : Type 0 where
  index_out_of_range size_out_of_range invalid_proof : Error

-- What a Go call gives: a value, an error value, or a run-time panic.
pub data Result {ℓ} (A : Type ℓ) : Type ℓ where
  ok : A → Result A
  err : Error → Result A
  panic : Result A

infixl 5 ◌>>=◌
abbrev pub ◌>>=◌ {ℓ κ} : {A : Type ℓ} {B : Type κ} → Result A → (A → Result B) → Result B
ok a >>= f = f a
err e >>= f = err e
panic >>= f = panic

-- xs[i]: an index out of range panics.
abbrev pub index {ℓ} : {A : Type ℓ} → List A → ℕ → Result A
index xs i = elim (get_elem? xs i) [ none ↦ panic | some x ↦ ok x ]

abbrev pub leaf_prefix : ℕ
leaf_prefix = 0

abbrev pub node_prefix : ℕ
node_prefix = 1

module _ (sha256 : Bytes → Bytes) where
  unfoldable pub leaf_hash : Bytes → Hash
  leaf_hash bytes = sha256 (leaf_prefix ∷ bytes)

  unfoldable pub node_hash : Hash → Hash → Hash
  node_hash left right = sha256 (node_prefix ∷ left ++ right)

  unfoldable pub empty_root : Hash
  empty_root = sha256 []
