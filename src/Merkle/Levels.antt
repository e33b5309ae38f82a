-- ===== src/Merkle/Levels.antt =====
-- What `Tree.levels` holds: the leaf hashes, and above each row the hashes of its complete pairs.
-- About `Append` of crypto/merkle/tree.go and the entries of the rows.
use otvoren_vot.Prelude.{
  ℕ, zero, suc, ◌-◌, ◌*◌, ◌/◌, ◌%◌, ◌^◌, ◌≤◌, ◌<◌, ◌≡◌, refl, ap, sym, subst, ◌∙◌, List, [], ◌∷◌,
  ◌++◌, arith, length, take, drop, get_elem?, Bytes, two_pow-suc, two_pow_pos, length-take,
  length-drop, length-append, some, ◌⊎◌, inl, inr,
}
use otvoren_vot.Merkle.Hash.{Hash, ok, ◌>>=◌, index, node_hash, leaf_hash}
use otvoren_vot.Merkle.Tree.{Tree, new, size, size_of, append_loop, append, first_row, rows_above}
use otvoren_vot.Merkle.Spec.{tree_hash, tree_hash_split, slice, length-slice}

module _ (sha256 : Bytes → Bytes) where
  -- The parents of the complete pairs of a row.
  unfoldable pub pairs : List Hash → List Hash
  pairs [] = []
  pairs (x ∷ []) = []
  pairs (x ∷ y ∷ xs) = node_hash sha256 x y ∷ pairs xs

  abbrev pub HasLevels : List (List Hash) → List Hash → Type 0
  HasLevels [] leaves = leaves ≡ []
  HasLevels (row ∷ above) leaves =
      (row ≡ leaves) × (0 < length leaves) × HasLevels above (pairs leaves)

  pub length-pairs : (xs : List Hash) → length (pairs xs) ≡ length xs / 2
  unfolding pairs
  length-pairs [] = refl
  length-pairs (x ∷ []) = refl
  length-pairs (x ∷ y ∷ xs) = omega (arith, length-pairs xs)

  take-pairs : (n : ℕ) (xs : List Hash) → take n (pairs xs) ≡ pairs (take (2 * n) xs)
  unfolding pairs
  take-pairs zero xs = refl
  take-pairs (suc n) [] = let e : 2 * suc n ≡ suc (suc (2 * n)) = omega arith in rw e
  take-pairs (suc n) (x ∷ []) = let e : 2 * suc n ≡ suc (suc (2 * n)) = omega arith in rw e
  take-pairs (suc n) (x ∷ y ∷ xs) =
      let e : 2 * suc n ≡ suc (suc (2 * n)) = omega arith in
      rw e (ap (◌∷◌ (node_hash sha256 x y)) (take-pairs n xs))

  drop-pairs : (n : ℕ) (xs : List Hash) → drop n (pairs xs) ≡ pairs (drop (2 * n) xs)
  unfolding pairs
  drop-pairs zero xs = refl
  drop-pairs (suc n) [] = let e : 2 * suc n ≡ suc (suc (2 * n)) = omega arith in rw e
  drop-pairs (suc n) (x ∷ []) = let e : 2 * suc n ≡ suc (suc (2 * n)) = omega arith in rw e
  drop-pairs (suc n) (x ∷ y ∷ xs) =
      let e : 2 * suc n ≡ suc (suc (2 * n)) = omega arith in rw e (drop-pairs n xs)

  -- A complete tree, hashed from below and from above.
  tree_hash-pairs :
      (j : ℕ) (xs : List Hash)
      → length xs ≡ 2 ^ suc j
      → tree_hash sha256 j (pairs xs) ≡ tree_hash sha256 (suc j) xs
  unfolding pairs
  tree_hash-pairs zero [] h = absurd (omega arith)
  tree_hash-pairs zero (x ∷ []) h = absurd (omega arith)
  tree_hash-pairs zero (x ∷ y ∷ []) h = unfold tree_hash in refl
  tree_hash-pairs zero (x ∷ y ∷ z ∷ xs) h = absurd (omega arith)
  tree_hash-pairs (suc j) xs h =
      tree_hash_split sha256 j (pairs xs)
        (omega (arith, length-pairs xs, two_pow-suc j, two_pow-suc (suc j), two_pow_pos j))
      ∙ rw (take-pairs (2 ^ j) xs, drop-pairs (2 ^ j) xs, ← two_pow-suc j)
          (rw
            (
              tree_hash-pairs j (take (2 ^ suc j) xs)
                  (omega (arith, length-take (2 ^ suc j) xs, two_pow-suc (suc j))),
              tree_hash-pairs j (drop (2 ^ suc j) xs)
                  (omega (arith, length-drop (2 ^ suc j) xs, two_pow-suc (suc j))),
            )
            (sym (
              tree_hash_split sha256 (suc j) xs
                (omega (arith, h, two_pow-suc (suc j), two_pow_pos (suc j))))))

  slice-pairs :
      (lo hi : ℕ) (xs : List Hash) → slice lo hi (pairs xs) ≡ pairs (slice (2 * lo) (2 * hi) xs)
  slice-pairs lo hi xs =
      let e : 2 * (hi - lo) ≡ 2 * hi - 2 * lo = omega arith in
      rw (drop-pairs lo xs, take-pairs (hi - lo) (drop (2 * lo) xs), e)

  tree_hash_one :
      (i : ℕ) (xs : List Hash)
      → i < length xs
      → index xs i ≡ ok (tree_hash sha256 0 (slice i (suc i) xs))
  unfolding tree_hash
  tree_hash_one i [] h = absurd (omega arith)
  tree_hash_one zero (x ∷ xs) h = refl
  tree_hash_one (suc i) (x ∷ xs) h =
      let e : suc (suc i) - suc i ≡ suc i - i = omega arith in
      rw e (tree_hash_one i xs (omega arith))

  -- Entry i of row j is the hash of the leaves from i * 2^j to (i + 1) * 2^j.
  pub entry :
      (j i : ℕ) (levels : List (List Hash)) (leaves : List Hash)
      → HasLevels levels leaves
      → suc i * 2 ^ j ≤ length leaves
      → (index levels j >>= λ row. index row i)
        ≡ ok (tree_hash sha256 j (slice (i * 2 ^ j) (suc i * 2 ^ j) leaves))
  entry j i [] leaves v h =
      absurd
        (omega (arith, ap length v, two_pow_pos j, ap (λ (t : ℕ). suc i * t) (refl {a = 2 ^ j})))
  entry zero i (row ∷ above) leaves v h =
      let e : i * 1 ≡ i = omega arith in
      let e' : suc i * 1 ≡ suc i = omega arith in
      rw (v.0, e, e') (tree_hash_one i leaves (omega arith))
  entry (suc j) i (row ∷ above) leaves v h =
      let double : (k : ℕ) → 2 * (k * 2 ^ j) ≡ k * 2 ^ suc j =
        λ k. omega (arith, ap (λ (t : ℕ). k * t) (two_pow-suc j)) in
      entry j i above (pairs leaves) v.2 (omega (arith, length-pairs leaves, double (suc i)))
      ∙ rw (slice-pairs (i * 2 ^ j) (suc i * 2 ^ j) leaves, double i, double (suc i))
          (ap ok (
            tree_hash-pairs j (slice (i * 2 ^ suc j) (suc i * 2 ^ suc j) leaves)
              (omega (arith, length-slice (i * 2 ^ suc j) (suc i * 2 ^ suc j) leaves h))))

  pairs-append_even :
      (xs : List Hash) (h : Hash) → length xs % 2 ≡ 0 → pairs (xs ++ h ∷ []) ≡ pairs xs
  unfolding pairs
  pairs-append_even [] h e = refl
  pairs-append_even (x ∷ []) h e = absurd (omega arith)
  pairs-append_even (x ∷ y ∷ xs) h e =
      ap (◌∷◌ (node_hash sha256 x y)) (pairs-append_even xs h (omega arith))

  pairs-append_odd :
      (xs : List Hash) (h : Hash)
      → length xs % 2 ≡ 1
      → (l : Hash) × (get_elem? (xs ++ h ∷ []) (length xs - 1) ≡ some l)
        × (pairs (xs ++ h ∷ []) ≡ pairs xs ++ node_hash sha256 l h ∷ [])
  unfolding pairs
  pairs-append_odd [] h e = absurd (omega arith)
  pairs-append_odd (x ∷ []) h e = (x, refl, refl)
  pairs-append_odd (x ∷ y ∷ xs) h e =
      let (l, found, paired) = pairs-append_odd xs h (omega arith) in
      let k : suc (suc (length xs)) - 1 ≡ suc (suc (length xs - 1)) = omega arith in
      (l, rw k found, ap (◌∷◌ (node_hash sha256 x y)) paired)

  first_row_lem :
      (rows : List (List Hash)) (xs : List Hash) → HasLevels rows xs → first_row rows ≡ xs
  unfolding first_row
  first_row_lem [] xs v = sym v
  first_row_lem (row ∷ above) xs v = v.0

  rows_above_lem :
      (rows : List (List Hash)) (xs : List Hash)
      → HasLevels rows xs
      → HasLevels (rows_above rows) (pairs xs)
  unfolding rows_above
  rows_above_lem [] xs v = rw v (unfold pairs in refl)
  rows_above_lem (row ∷ above) xs v = v.2

  append_loop_lem :
      (f : ℕ) (rows : List (List Hash)) (xs : List Hash) (h : Hash) (i : ℕ)
      → HasLevels rows xs
      → i ≡ length xs
      → i < f
      → (rows' : List (List Hash)) × (append_loop sha256 f rows h i ≡ ok rows')
        × HasLevels rows' (xs ++ h ∷ [])
  unfolding append_loop
  append_loop_lem zero rows xs h i v e lt = absurd (omega arith)
  append_loop_lem (suc f) rows xs h i v e lt = elim (parity i) [
    | inl even ↦ (
      (first_row rows ++ h ∷ []) ∷ rows_above rows,
      ground arith,
      (
        rw (first_row_lem rows xs v),
        omega (arith, length-append xs (h ∷ [])),
        rw (pairs-append_even xs h (omega arith)) (rows_above_lem rows xs v),
      ),
    )
    | inr odd ↦
        let (l, found, paired) = pairs-append_odd xs h (omega arith) in
        let (rest, done, good) =
          append_loop_lem f (rows_above rows) (pairs xs) (node_hash sha256 l h) (i / 2)
            (rows_above_lem rows xs v) (omega (arith, length-pairs xs)) (omega arith) in
        let found' : get_elem? (first_row rows ++ h ∷ []) (i - 1) ≡ some l =
          subst (λ r. get_elem? (r ++ h ∷ []) (i - 1) ≡ some l) (sym (first_row_lem rows xs v))
            (subst (λ k. get_elem? (xs ++ h ∷ []) (k - 1) ≡ some l) (sym e) found) in
        (
          (first_row rows ++ h ∷ []) ∷ rest,
          ground (arith, found', done),
          (rw (first_row_lem rows xs v), omega (arith, length-append xs (h ∷ [])), rw paired good),
        )
  ]
    where
      parity : (n : ℕ) → (n % 2 ≡ 0) ⊎ (n % 2 ≡ 1)
      parity n = ground arith

  size-HasLevels :
      (levels : List (List Hash)) (leaves : List Hash)
      → HasLevels levels leaves
      → size_of levels ≡ length leaves
  unfolding size_of
  size-HasLevels [] leaves v = rw v
  size-HasLevels (row ∷ above) leaves v = rw v.0

  -- The tree over these leaf hashes.
  abbrev pub Holds : Tree → List Hash → Type 0
  Holds t leaves = HasLevels t.levels leaves

  pub size-Holds : (t : Tree) (leaves : List Hash) → Holds t leaves → size t ≡ length leaves
  unfolding size
  size-Holds t leaves v = size-HasLevels t.levels leaves v

  pub new-Holds : Holds new []
  unfolding new
  new-Holds = refl

  -- `append` succeeds on every tree that holds some leaves, and adds the hash of the new leaf at the
  -- end of them.
  pub append-Holds :
      (t : Tree) (leaves : List Hash) (bytes : Bytes)
      → Holds t leaves
      → (t' : Tree) × (append sha256 t bytes ≡ ok t')
        × Holds t' (leaves ++ leaf_hash sha256 bytes ∷ [])
  unfolding append
  append-Holds t leaves bytes v =
      let (levels, done, good) =
        append_loop_lem (suc (size_of t.levels)) t.levels leaves (leaf_hash sha256 bytes)
          (size_of t.levels) v (size-HasLevels t.levels leaves v) (omega arith) in
      (record { levels = levels }, rw done, good)
