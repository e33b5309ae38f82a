-- ===== src/Merkle/Range.antt =====
-- crypto/merkle/tree.go, `hashRange`, `RootAt` and `Root`, and the RFC's tree head of the ranges that
-- the RFC's recursion visits: those that start at a multiple of a power of two not below their length.
use otvoren_vot.Prelude.{
  ℕ, zero, suc, ◌+◌, ◌-◌, ◌*◌, ◌^◌, ◌≤◌, ◌<◌, ◌≡◌, refl, ap, sym, subst, ◌∙◌, true, false, List, [],
  arith, length, take, drop, Bytes, ◌==◌, two_pow-suc, two_pow_pos, length-take, inl, inr, bit_and,
  len64_lem, shr, trailing_zeros64, trailing_zeros64-two_pow, bit_and-two_pow, bit_and_between,
  bit_and_multiple, shr-shl, le-cases, take-take, drop-take, drop-drop, lt-two_pow, take_all,
  le→ltb,
}
use otvoren_vot.Merkle.Hash.{Hash, ok, ◌>>=◌, index, node_hash, empty_root}
use otvoren_vot.Merkle.Tree.{Tree, size, split_point, hash_range_from, hash_range, root, root_at}
use otvoren_vot.Merkle.Spec.{
  tree_hash, mth, mth_lem, tree_hash_small, tree_hash_split, slice, length-slice,
}
use otvoren_vot.Merkle.Levels.{HasLevels, Holds, entry, size-Holds}

pub split_point_lem : (j n : ℕ) → 2 ^ j < n → n ≤ 2 ^ suc j → split_point n ≡ 2 ^ j
unfolding split_point
split_point_lem j n p q =
    let e : suc j - 1 ≡ j = omega arith in
    rw (len64_lem j (n - 1) (omega arith) (omega (arith, two_pow_pos j)), e) (omega arith)

pub take-slice {ℓ} :
    {A : Type ℓ} (k lo hi : ℕ) (xs : List A)
    → lo + k ≤ hi
    → take k (slice lo hi xs) ≡ slice lo (lo + k) xs
take-slice k lo hi xs h =
    let e : lo + k - lo ≡ k = omega arith in rw e (take-take k (hi - lo) (drop lo xs) (omega arith))

pub drop-slice {ℓ} :
    {A : Type ℓ} (k lo hi : ℕ) (xs : List A)
    → lo + k ≤ hi
    → drop k (slice lo hi xs) ≡ slice (lo + k) hi xs
drop-slice k lo hi xs h =
    let e : hi - lo ≡ k + (hi - (lo + k)) = omega arith in
    rw (e, drop-take k (hi - (lo + k)) (drop lo xs), drop-drop k lo xs)

module _ (sha256 : Bytes → Bytes) where
  tree_hash_nil : (j : ℕ) → tree_hash sha256 j [] ≡ empty_root sha256
  unfolding tree_hash
  tree_hash_nil zero = refl
  tree_hash_nil (suc j) =
      tree_hash_small sha256 j [] (omega (arith, two_pow_pos j)) ∙ tree_hash_nil j

  module _ (levels : List (List Hash)) (leaves : List Hash)
      (v : HasLevels sha256 levels leaves) where
    range_empty :
        (f lo hi : ℕ)
        → hi ≡ lo
        → hash_range_from sha256 (suc f) levels lo hi ≡ ok (empty_root sha256)
    unfolding hash_range_from
    range_empty f lo hi h = let e : hi - lo ≡ 0 = omega arith in rw (e, hash_range_from)

    range_complete :
        (j f a lo hi : ℕ)
        → lo ≡ a * 2 ^ j
        → hi ≡ lo + 2 ^ j
        → hi ≤ length leaves
        → hash_range_from sha256 (suc f) levels lo hi ≡ ok (tree_hash sha256 j (slice lo hi leaves))
    unfolding hash_range_from
    range_complete j f a lo hi p q h =
        let e : hi - lo ≡ 2 ^ j = omega arith in
        let z : (hi - lo == 0) ≡ false = ground (arith, two_pow_pos j) in
        let t : (bit_and (hi - lo) (hi - lo - 1) == 0) ≡ true = rw (e, bit_and-two_pow j) in
        let u : (bit_and lo (hi - lo - 1) == 0) ≡ true = rw (e, p, bit_and_multiple j a) in
        let level : trailing_zeros64 (hi - lo) ≡ j = rw e (trailing_zeros64-two_pow j) in
        let at : shr lo j ≡ a = rw p (shr-shl a j) in
        let end : suc a * 2 ^ j ≡ hi = omega arith in
        rw (z, hash_range_from)
          (rw t (
            rw u (
              rw (level, at)
                (subst
                  (λ x.
                    (index levels j >>= λ row. index row a)
                    ≡ ok (tree_hash sha256 j (slice x hi leaves)))
                  (sym p)
                  (subst
                    (λ x.
                      (index levels j >>= λ row. index row a)
                      ≡ ok (tree_hash sha256 j (slice (a * 2 ^ j) x leaves)))
                    end (entry sha256 j a levels leaves v (omega arith)))))))

    range_split :
        (j f lo hi : ℕ) (l r : Hash)
        → lo + 2 ^ j < hi
        → hi < lo + 2 ^ suc j
        → hash_range_from sha256 f levels lo (lo + 2 ^ j) ≡ ok l
        → hash_range_from sha256 f levels (lo + 2 ^ j) hi ≡ ok r
        → hash_range_from sha256 (suc f) levels lo hi ≡ ok (node_hash sha256 l r)
    unfolding hash_range_from
    range_split j f lo hi l r p q hl hr =
        let z : (hi - lo == 0) ≡ false = ground arith in
        let b : 0 < bit_and (hi - lo) (hi - lo - 1) =
          bit_and_between j (hi - lo) (omega arith) (omega arith) in
        let t : (bit_and (hi - lo) (hi - lo - 1) == 0) ≡ false = ground arith in
        rw (z, hash_range_from)
          (rw (t, split_point_lem j (hi - lo) (omega arith) (omega arith), hl, hr))

    range_lem :
        (j f a lo hi : ℕ)
        → lo ≡ a * 2 ^ j
        → lo ≤ hi
        → hi - lo < f
        → hi - lo ≤ 2 ^ j
        → hi ≤ length leaves
        → hash_range_from sha256 f levels lo hi ≡ ok (tree_hash sha256 j (slice lo hi leaves))
    range_lem j zero a lo hi p q r s h = absurd (omega arith)
    range_lem zero (suc f) a lo hi p q r s h = elim (le-cases hi lo) [
      | inl e ↦
          let n : hi - lo ≡ 0 = omega arith in
          range_empty f lo hi (omega arith) ∙ rw n (ap ok (sym (tree_hash_nil 0)))
      | inr l ↦ range_complete 0 f a lo hi p (omega arith) h
    ]
    range_lem (suc j) (suc f) a lo hi p q r s h =
        let lower : lo ≡ 2 * a * 2 ^ j = omega (arith, ap (λ (t : ℕ). a * t) (two_pow-suc j)) in
        let upper : lo + 2 ^ j ≡ (2 * a + 1) * 2 ^ j = omega arith in
        let double : 2 ^ suc j ≡ 2 * 2 ^ j = two_pow-suc j in
        elim (le-cases (hi - lo) (2 ^ j)) [
          | inl small ↦
              range_lem j (suc f) (2 * a) lo hi lower q r small h
              ∙ ap ok (
                  sym (
                    tree_hash_small sha256 j (slice lo hi leaves)
                      (omega (arith, length-slice lo hi leaves h))))
          | inr big ↦ elim (le-cases (2 ^ suc j) (hi - lo)) [
            | inl full ↦ range_complete (suc j) f a lo hi p (omega arith) h
            | inr part ↦
                range_split j f lo hi (tree_hash sha256 j (slice lo (lo + 2 ^ j) leaves))
                  (tree_hash sha256 j (slice (lo + 2 ^ j) hi leaves)) (omega arith) (omega arith)
                  (range_lem j f (2 * a) lo (lo + 2 ^ j) lower (omega arith) (omega arith)
                    (omega arith) (omega arith))
                  (range_lem j f (2 * a + 1) (lo + 2 ^ j) hi upper (omega arith)
                    (omega (arith, two_pow_pos j)) (omega arith) h)
                ∙ ap ok (
                    sym (
                      tree_hash_split sha256 j (slice lo hi leaves)
                        (omega (arith, length-slice lo hi leaves h))
                      ∙ rw (
                        take-slice (2 ^ j) lo hi leaves (omega arith),
                        drop-slice (2 ^ j) lo hi leaves (omega arith),
                      )))
          ]
        ]

    pub hash_range_lem :
        (j a lo hi : ℕ)
        → lo ≡ a * 2 ^ j
        → lo ≤ hi
        → hi - lo ≤ 2 ^ j
        → hi ≤ length leaves
        → hash_range sha256 levels lo hi ≡ ok (tree_hash sha256 j (slice lo hi leaves))
    unfolding hash_range
    hash_range_lem j a lo hi p q s h = range_lem j (suc (hi - lo)) a lo hi p q (omega arith) s h

    pub hash_range_prefix :
        (n : ℕ) → n ≤ length leaves → hash_range sha256 levels 0 n ≡ ok (mth sha256 (take n leaves))
    hash_range_prefix n h =
        let e : n - 0 ≡ n = omega arith in
        hash_range_lem n 0 0 n (omega arith) (omega arith) (omega (arith, lt-two_pow n)) h
        ∙ rw e (
            ap ok (
              mth_lem sha256 n (take n leaves) (omega (arith, length-take n leaves, lt-two_pow n))))

  -- `RootAt` gives the RFC tree head of the first n leaves for every size the tree has had.
  pub root_at_lem :
      (t : Tree) (leaves : List Hash) (n : ℕ)
      → Holds sha256 t leaves
      → n ≤ length leaves
      → root_at sha256 t n ≡ ok (mth sha256 (take n leaves))
  unfolding root_at
  root_at_lem t leaves n v h =
      rw (le→ltb (size t) n (omega (arith, size-Holds sha256 t leaves v)), root_at)
        (hash_range_prefix t.levels leaves v n h)

  root-hash_range : (t : Tree) → root sha256 t ≡ hash_range sha256 t.levels 0 (size t)
  unfolding root
  root-hash_range t = refl

  -- `Root` is the RFC tree head of all leaves.
  pub root_lem :
      (t : Tree) (leaves : List Hash)
      → Holds sha256 t leaves
      → root sha256 t ≡ ok (mth sha256 leaves)
  root_lem t leaves v =
      root-hash_range t
      ∙ ap (hash_range sha256 t.levels 0) (size-Holds sha256 t leaves v)
      ∙ hash_range_prefix t.levels leaves v (length leaves) (omega arith)
      ∙ ap (λ xs. ok (mth sha256 xs)) (take_all (length leaves) leaves (omega arith))
