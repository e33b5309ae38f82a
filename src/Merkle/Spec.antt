-- ===== src/Merkle/Spec.antt =====
-- RFC 9162 section 2.1, on lists of leaf hashes: what tree.go is meant to compute.
-- `tree_hash j` is MTH on at most 2^j leaves: with more than 2^(j-1) of them, 2^(j-1) is the largest
-- power of two below their number, where the RFC splits.
use otvoren_vot.Prelude.{
  ℕ, zero, suc, ◌+◌, ◌-◌, ◌^◌, ◌≤◌, ◌<◌, ◌≡◌, ap, sym, ◌∙◌, true, false, List, [], ◌∷◌, ◌++◌, arith,
  length, take, drop, Bytes, leb, ltb, le→leb, lt→leb, lt-two_pow, two_pow-suc, length-take,
  length-drop,
}
use otvoren_vot.Merkle.Hash.{Hash, node_hash, empty_root}

-- D[lo:hi]
abbrev pub slice {ℓ} : {A : Type ℓ} → ℕ → ℕ → List A → List A
slice lo hi xs = take (hi - lo) (drop lo xs)

pub length-slice {ℓ} :
    {A : Type ℓ} (lo hi : ℕ) (xs : List A) → hi ≤ length xs → length (slice lo hi xs) ≡ hi - lo
length-slice lo hi xs h = omega (arith, length-take (hi - lo) (drop lo xs), length-drop lo xs)

module _ (sha256 : Bytes → Bytes) where
  unfoldable pub tree_hash : ℕ → List Hash → Hash
  tree_hash zero [] = empty_root sha256
  tree_hash zero (x ∷ xs) = x
  tree_hash (suc j) xs = elim (leb (length xs) (2 ^ j)) [
    | true ↦ tree_hash j xs
    | false ↦ node_hash sha256 (tree_hash j (take (2 ^ j) xs)) (tree_hash j (drop (2 ^ j) xs))
  ]

  -- MTH(D[n])
  unfoldable pub mth : List Hash → Hash
  unfolding tree_hash
  mth xs = tree_hash (length xs) xs

  -- PATH(m, D[n]) for n <= 2^j leaves.
  unfoldable pub audit_path : ℕ → ℕ → List Hash → List Hash
  audit_path zero m xs = []
  audit_path (suc j) m xs = elim (leb (length xs) (2 ^ j)) [
    | true ↦ audit_path j m xs
    | false ↦ elim (ltb m (2 ^ j)) [
      | true ↦ audit_path j m (take (2 ^ j) xs) ++ tree_hash j (drop (2 ^ j) xs) ∷ []
      | false ↦ audit_path j (m - 2 ^ j) (drop (2 ^ j) xs) ++ tree_hash j (take (2 ^ j) xs) ∷ []
    ]
  ]

  pub tree_hash_small :
      (j : ℕ) (xs : List Hash) → length xs ≤ 2 ^ j → tree_hash (suc j) xs ≡ tree_hash j xs
  unfolding tree_hash
  tree_hash_small j xs h = rw (le→leb (length xs) (2 ^ j) h, tree_hash)

  pub tree_hash_split :
      (j : ℕ) (xs : List Hash)
      → 2 ^ j < length xs
      → tree_hash (suc j) xs
        ≡ node_hash sha256 (tree_hash j (take (2 ^ j) xs)) (tree_hash j (drop (2 ^ j) xs))
  unfolding tree_hash
  tree_hash_split j xs h = rw (lt→leb (length xs) (2 ^ j) h, tree_hash)

  -- The height does not matter once it is enough.
  tree_hash_raise :
      (k j : ℕ) (xs : List Hash) → length xs ≤ 2 ^ j → tree_hash (k + j) xs ≡ tree_hash j xs
  tree_hash_raise zero j xs h = ap (λ i. tree_hash i xs) zero_plus
    where
      zero_plus : 0 + j ≡ j
      zero_plus = omega arith
  tree_hash_raise (suc k) j xs h =
      ap (λ i. tree_hash i xs) suc_plus
      ∙ tree_hash_small (k + j) xs (le_raise k)
      ∙ tree_hash_raise k j xs h
    where
      suc_plus : suc k + j ≡ suc (k + j)
      suc_plus = omega arith

      le_raise : (i : ℕ) → length xs ≤ 2 ^ (i + j)
      le_raise zero = let e : 0 + j ≡ j = omega arith in rw e h
      le_raise (suc i) =
          let e : suc i + j ≡ suc (i + j) = omega arith in
          rw e (omega (arith, two_pow-suc (i + j), le_raise i))

  pub mth_lem : (j : ℕ) (xs : List Hash) → length xs ≤ 2 ^ j → tree_hash j xs ≡ mth xs
  unfolding mth
  mth_lem j xs h =
      sym (tree_hash_raise (length xs) j xs h)
      ∙ ap (λ i. tree_hash i xs) swap
      ∙ tree_hash_raise j (length xs) xs (omega (arith, lt-two_pow (length xs)))
    where
      swap : length xs + j ≡ j + length xs
      swap = omega arith
