-- ===== src/Merkle/Tree.antt =====
-- crypto/merkle/tree.go. `Tree.levels` is the source's field; a method that mutates the tree returns
-- the new one. Sizes and indices are uint64 in the source: a tree has fewer than 2^64 leaves, and a
-- range has lo <= hi, so no sum or difference below wraps.
use otvoren_vot.Prelude.{
  ℕ, zero, suc, ◌+◌, ◌-◌, ◌/◌, ◌%◌, bit_and, Bool, true, false, ◌||◌, List, [], ◌∷◌, ◌++◌, length,
  Bytes, ltb, leb, ◌==◌, if◌then◌else◌, shl, shr, len64, trailing_zeros64,
}
use otvoren_vot.Merkle.Hash.{
  Hash, Result, ok, err, panic, index_out_of_range, size_out_of_range, ◌>>=◌, index, leaf_hash,
  node_hash, empty_root,
}

pub record Tree : Type 0 where
  pub levels : List (List Hash)

unfoldable pub new : Tree
new = record { levels = [] }

-- len(t.levels[0]), and 0 with no level.
unfoldable pub size_of : List (List Hash) → ℕ
size_of [] = 0
size_of (row ∷ above) = length row

unfoldable pub size : Tree → ℕ
unfolding size_of
size t = size_of t.levels

-- k, the largest power of two strictly less than n, for n >= 2.
unfoldable pub split_point : ℕ → ℕ
split_point n = shl 1 (len64 (n - 1) - 1)

-- The row at the level reached, empty where `levels` has no such level yet.
unfoldable pub first_row : List (List Hash) → List Hash
first_row [] = []
first_row (row ∷ above) = row

unfoldable pub rows_above : List (List Hash) → List (List Hash)
rows_above [] = []
rows_above (row ∷ above) = above

module _ (sha256 : Bytes → Bytes) where
  -- The loop of `Append`, over the levels from the one reached upwards. Each round halves i, so
  -- suc i rounds suffice.
  unfoldable pub append_loop : ℕ → List (List Hash) → Hash → ℕ → Result (List (List Hash))
  unfolding first_row rows_above
  append_loop zero rows h i = panic
  append_loop (suc fuel) rows h i =
      let row = first_row rows ++ h ∷ [] in
      elim (i % 2 == 0) [
        | true ↦ ok (row ∷ rows_above rows)
        | false ↦ do
          left ← index row (i - 1)
          rest ← append_loop fuel (rows_above rows) (node_hash sha256 left h) (i / 2)
          ok (row ∷ rest)
      ]

  -- The new tree; the source also returns the index of the leaf, which is `size t`.
  unfoldable pub append : Tree → Bytes → Result Tree
  unfolding append_loop size
  append t bytes = do
    levels ← append_loop (suc (size t)) t.levels (leaf_hash sha256 bytes) (size t)
    ok (record { levels = levels })

  -- hashRange. The range gets shorter with each call, so hi - lo + 1 calls suffice.
  unfoldable pub hash_range_from : ℕ → List (List Hash) → ℕ → ℕ → Result Hash
  hash_range_from zero levels lo hi = panic
  hash_range_from (suc fuel) levels lo hi =
      let n = hi - lo in
      let k = split_point n in
      elim (n == 0) [
        | true ↦ ok (empty_root sha256)
        | false ↦ elim (bit_and n (n - 1) == 0) [
          | true ↦ elim (bit_and lo (n - 1) == 0) [
            | true ↦
                let level = trailing_zeros64 n in
                index levels level >>= λ row. index row (shr lo level)
            | false ↦ panic
          ]
          | false ↦ do
            left ← hash_range_from fuel levels lo (lo + k)
            right ← hash_range_from fuel levels (lo + k) hi
            ok (node_hash sha256 left right)
        ]
      ]

  unfoldable pub hash_range : List (List Hash) → ℕ → ℕ → Result Hash
  unfolding hash_range_from
  hash_range levels lo hi = hash_range_from (suc (hi - lo)) levels lo hi

  unfoldable pub root : Tree → Result Hash
  unfolding hash_range size
  root t = hash_range t.levels 0 (size t)

  unfoldable pub root_at : Tree → ℕ → Result Hash
  unfolding hash_range size
  root_at t n = if ltb (size t) n then err size_out_of_range else hash_range t.levels 0 n

  -- path: the audit path of leaf m of D[lo:hi], appended to `proof`.
  unfoldable pub path_from : ℕ → List (List Hash) → ℕ → ℕ → ℕ → List Hash → Result (List Hash)
  path_from zero levels m lo hi proof = panic
  path_from (suc fuel) levels m lo hi proof =
      let n = hi - lo in
      let k = split_point n in
      elim (n == 1) [
        | true ↦ ok proof
        | false ↦ elim (ltb m k) [
          | true ↦ do
            below ← path_from fuel levels m lo (lo + k) proof
            sibling ← hash_range levels (lo + k) hi
            ok (below ++ sibling ∷ [])
          | false ↦ do
            below ← path_from fuel levels (m - k) (lo + k) hi proof
            sibling ← hash_range levels lo (lo + k)
            ok (below ++ sibling ∷ [])
        ]
      ]

  unfoldable pub inclusion_proof : Tree → ℕ → ℕ → Result (List Hash)
  unfolding path_from size
  inclusion_proof t i n =
      if ltb (size t) n
      then err size_out_of_range
      else if leb n i
      then err index_out_of_range
      else path_from n t.levels i 0 n []

  -- subproof: SUBPROOF(m, D[lo:hi], whole), appended to `proof`.
  unfoldable pub subproof_from :
      ℕ → List (List Hash) → ℕ → ℕ → ℕ → Bool → List Hash → Result (List Hash)
  subproof_from zero levels m lo hi whole proof = panic
  subproof_from (suc fuel) levels m lo hi whole proof =
      let n = hi - lo in
      let k = split_point n in
      elim (m == n) [
        | true ↦ elim whole [
          | true ↦ ok proof
          | false ↦ hash_range levels lo hi >>= λ h. ok (proof ++ h ∷ [])
        ]
        | false ↦ elim (leb m k) [
          | true ↦ do
            below ← subproof_from fuel levels m lo (lo + k) whole proof
            sibling ← hash_range levels (lo + k) hi
            ok (below ++ sibling ∷ [])
          | false ↦ do
            below ← subproof_from fuel levels (m - k) (lo + k) hi false proof
            sibling ← hash_range levels lo (lo + k)
            ok (below ++ sibling ∷ [])
        ]
      ]

  unfoldable pub consistency_proof : Tree → ℕ → ℕ → Result (List Hash)
  unfolding subproof_from size
  consistency_proof t size1 size2 =
      if ltb (size t) size2 || ltb size2 size1
      then err size_out_of_range
      else if size1 == 0 || size1 == size2
      then ok []
      else subproof_from size2 t.levels size1 0 size2 true []
