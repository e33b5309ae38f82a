-- ===== src/Merkle/Walk.antt =====
-- crypto/merkle/verify.go: the walk of `VerifyInclusion` along the RFC's audit path.
use otvoren_vot.Prelude.{
  ℕ, zero, suc, ◌+◌, ◌-◌, ◌*◌, ◌/◌, ◌^◌, ◌≤◌, ◌<◌, ◌≡◌, refl, ap, subst, ◌∙◌, List, [], ◌∷◌, ◌++◌,
  some, arith, length, take, drop, get_elem?, Bytes, two_pow-suc, two_pow_pos, length-take,
  length-drop, inl, inr, le-cases, lt-two_pow, append_assoc, append-nil, get_elem?-take,
  get_elem?-drop, bytes_eq_refl, lt→leb,
}
use native.Mathlib.Nat.{zero-add, zero-mul, div-eq_of_lt-le}
use otvoren_vot.Merkle.Hash.{Hash, ok}
use otvoren_vot.Merkle.Tree.{Tree, inclusion_proof, root_at}
use otvoren_vot.Merkle.Range.{root_at_lem}
use otvoren_vot.Merkle.Spec.{tree_hash, mth, mth_lem, audit_path, tree_hash_small, tree_hash_split}
use otvoren_vot.Merkle.Verify.{inclusion_loop, verify_inclusion}
use otvoren_vot.Merkle.Rounds.{half_div, round_left, round_right, round_edge}
use otvoren_vot.Merkle.Levels.{Holds}
use otvoren_vot.Merkle.Path.{
  audit_path_small, audit_path_left, audit_path_right, inclusion_proof_lem,
}

module _ (sha256 : Bytes → Bytes) where
  tree_hash_single :
      (xs : List Hash) (m : ℕ) (r : Hash)
      → length xs ≡ 1
      → get_elem? xs m ≡ some r
      → tree_hash sha256 0 xs ≡ r
  unfolding tree_hash
  tree_hash_single [] m r n g = absurd (omega arith)
  tree_hash_single (x ∷ []) zero r n g = cc
  tree_hash_single (x ∷ []) (suc m) r n g = cc
  tree_hash_single (x ∷ y ∷ xs) m r n g = absurd (omega arith)

  -- A complete subtree with more leaves to its right.
  complete_walk :
      (j m a sn : ℕ) (xs : List Hash) (r : Hash) (rest : List Hash)
      → length xs ≡ 2 ^ j
      → m < 2 ^ j
      → get_elem? xs m ≡ some r
      → a < sn / 2 ^ j
      → inclusion_loop sha256 (a * 2 ^ j + m) sn r (audit_path sha256 j m xs ++ rest)
        ≡ inclusion_loop sha256 a (sn / 2 ^ j) (tree_hash sha256 j xs) rest
  complete_walk zero m a sn xs r rest n h g l =
      let e : a * 1 + m ≡ a = omega arith in
      let d : sn / 1 ≡ sn = omega arith in
      rw (e, d, tree_hash_single xs m r n g) (unfold audit_path in refl)
  complete_walk (suc j) m a sn xs r rest n h g l =
      let double : 2 ^ suc j ≡ 2 * 2 ^ j = two_pow-suc j in
      let half : sn / 2 ^ suc j ≡ sn / 2 ^ j / 2 = half_div sn j in
      let long : 2 ^ j < length xs = omega (arith, two_pow_pos j) in
      elim (le-cases (2 ^ j) m) [
        | inl right ↦
            let e : a * 2 ^ suc j + m ≡ (2 * a + 1) * 2 ^ j + (m - 2 ^ j) =
              omega (arith, ap (λ (t : ℕ). a * t) double) in
            let k : 2 ^ j + (m - 2 ^ j) ≡ m = omega arith in
            rw
              (
                e,
                audit_path_right sha256 j m xs long right,
                half,
                tree_hash_split sha256 j xs long,
                append_assoc (audit_path sha256 j (m - 2 ^ j) (drop (2 ^ j) xs)),
              )
              (complete_walk j (m - 2 ^ j) (2 * a + 1) sn (drop (2 ^ j) xs) r _
                  (omega (arith, length-drop (2 ^ j) xs)) (omega arith)
                  (get_elem?-drop (2 ^ j) xs (m - 2 ^ j) ∙ rw k g) (omega arith)
                ∙ round_right sha256 a (sn / 2 ^ j) _ _ rest (omega arith))
        | inr left ↦
            let e : a * 2 ^ suc j + m ≡ 2 * a * 2 ^ j + m =
              omega (arith, ap (λ (t : ℕ). a * t) double) in
            rw
              (
                e,
                audit_path_left sha256 j m xs long left,
                half,
                tree_hash_split sha256 j xs long,
                append_assoc (audit_path sha256 j m (take (2 ^ j) xs)),
              )
              (complete_walk j m (2 * a) sn (take (2 ^ j) xs) r _
                  (omega (arith, length-take (2 ^ j) xs)) left
                  (get_elem?-take (2 ^ j) xs m left ∙ g) (omega arith)
                ∙ round_left sha256 a (sn / 2 ^ j) _ _ rest (omega arith))
      ]

  Edge-small :
      (j m a : ℕ) (xs : List Hash) (r : Hash) (rest : List Hash)
      → length xs ≤ 2 ^ j
      → (s : ℕ) × (inclusion_loop sha256
            (2 * a * 2 ^ j + m)
            (2 * a * 2 ^ j + (length xs - 1))
            r
            (audit_path sha256 j m xs ++ rest)
          ≡ inclusion_loop sha256 (2 * a * 2 ^ s) (2 * a * 2 ^ s) (tree_hash sha256 j xs) rest)
      → (s : ℕ) × (inclusion_loop sha256
            (a * 2 ^ suc j + m)
            (a * 2 ^ suc j + (length xs - 1))
            r
            (audit_path sha256 (suc j) m xs ++ rest)
          ≡ inclusion_loop sha256 (a * 2 ^ s) (a * 2 ^ s) (tree_hash sha256 (suc j) xs) rest)
  Edge-small j m a xs r rest small (s, e) =
      let at : (k : ℕ) → a * 2 ^ suc k ≡ 2 * a * 2 ^ k =
        λ k. omega (arith, ap (λ (t : ℕ). a * t) (two_pow-suc k)) in
      (
        suc s,
        rw (at j, at s, audit_path_small sha256 j m xs small, tree_hash_small sha256 j xs small) e,
      )

  Edge-left :
      (j m a : ℕ) (xs : List Hash) (r : Hash) (rest : List Hash)
      → length xs ≤ 2 ^ suc j
      → 2 ^ j < length xs
      → m < 2 ^ j
      → get_elem? xs m ≡ some r
      → inclusion_loop sha256
          (a * 2 ^ suc j + m)
          (a * 2 ^ suc j + (length xs - 1))
          r
          (audit_path sha256 (suc j) m xs ++ rest)
        ≡ inclusion_loop sha256 (a * 1) (a * 1) (tree_hash sha256 (suc j) xs) rest
  Edge-left j m a xs r rest n long left g =
      let wide : a * 2 ^ suc j ≡ 2 * a * 2 ^ j =
        omega (arith, ap (λ (t : ℕ). a * t) (two_pow-suc j)) in
      let double : 2 ^ suc j ≡ 2 * 2 ^ j = two_pow-suc j in
      let q : (2 * a * 2 ^ j + (length xs - 1)) / 2 ^ j ≡ 2 * a + 1 =
        div-eq_of_lt-le {k = 2 * a + 1} (2 ^ j) (omega arith) (omega arith) in
      let half : (2 * a + 1) / 2 ≡ a * 1 = omega arith in
      let one : a ≡ a * 1 = omega arith in
      rw
        (
          wide,
          audit_path_left sha256 j m xs long left,
          tree_hash_split sha256 j xs long,
          append_assoc (audit_path sha256 j m (take (2 ^ j) xs)),
        )
        (complete_walk j m (2 * a) (2 * a * 2 ^ j + (length xs - 1)) (take (2 ^ j) xs) r _
            (omega (arith, length-take (2 ^ j) xs)) left (get_elem?-take (2 ^ j) xs m left ∙ g)
            (omega (arith, q))
          ∙ rw q (round_left sha256 a (2 * a + 1) _ _ rest (omega arith) ∙ rw half (rw (← one))))

  Edge-right :
      (j m a : ℕ) (xs : List Hash) (r : Hash) (rest : List Hash)
      → 2 ^ j < length xs
      → 2 ^ j ≤ m
      → (s : ℕ) × (inclusion_loop sha256
            ((2 * a + 1) * 2 ^ j + (m - 2 ^ j))
            ((2 * a + 1) * 2 ^ j + (length (drop (2 ^ j) xs) - 1))
            r
            (audit_path sha256 j (m - 2 ^ j) (drop (2 ^ j) xs)
              ++ tree_hash sha256 j (take (2 ^ j) xs) ∷ rest)
          ≡ inclusion_loop sha256
              ((2 * a + 1) * 2 ^ s)
              ((2 * a + 1) * 2 ^ s)
              (tree_hash sha256 j (drop (2 ^ j) xs))
              (tree_hash sha256 j (take (2 ^ j) xs) ∷ rest))
      → (s : ℕ) × (inclusion_loop sha256
            (a * 2 ^ suc j + m)
            (a * 2 ^ suc j + (length xs - 1))
            r
            (audit_path sha256 (suc j) m xs ++ rest)
          ≡ inclusion_loop sha256 (a * 2 ^ s) (a * 2 ^ s) (tree_hash sha256 (suc j) xs) rest)
  Edge-right j m a xs r rest long right (s, e) =
      let wide : a * 2 ^ suc j ≡ 2 * (a * 2 ^ j) =
        omega (arith, ap (λ (t : ℕ). a * t) (two_pow-suc j)) in
      let at : a * 2 ^ suc j + m ≡ (2 * a + 1) * 2 ^ j + (m - 2 ^ j) = omega arith in
      let end : a * 2 ^ suc j + (length xs - 1)
          ≡ (2 * a + 1) * 2 ^ j + (length (drop (2 ^ j) xs) - 1) =
        omega (arith, length-drop (2 ^ j) xs) in
      let one : a * 2 ^ 0 ≡ a = omega arith in
      (
        0,
        rw
            (
              at,
              end,
              one,
              audit_path_right sha256 j m xs long right,
              tree_hash_split sha256 j xs long,
              append_assoc (audit_path sha256 j (m - 2 ^ j) (drop (2 ^ j) xs)),
            )
            (e ∙ round_edge sha256 a s _ _ rest),
      )

  -- The last subtree of the tree: the walk ends at the left edge of it, some levels up.
  edge_walk :
      (j m a : ℕ) (xs : List Hash) (r : Hash) (rest : List Hash)
      → length xs ≤ 2 ^ j
      → m < length xs
      → get_elem? xs m ≡ some r
      → (s : ℕ) × (inclusion_loop sha256
            (a * 2 ^ j + m)
            (a * 2 ^ j + (length xs - 1))
            r
            (audit_path sha256 j m xs ++ rest)
          ≡ inclusion_loop sha256 (a * 2 ^ s) (a * 2 ^ s) (tree_hash sha256 j xs) rest)
  edge_walk zero m a xs r rest n h g =
      let e : a * 1 + m ≡ a * 1 = omega arith in
      let d : a * 1 + (length xs - 1) ≡ a * 1 = omega arith in
      (0, rw (e, d, tree_hash_single xs m r (omega arith) g) (unfold audit_path in refl))
  edge_walk (suc j) m a xs r rest n h g =
      let double : 2 ^ suc j ≡ 2 * 2 ^ j = two_pow-suc j in
      let below : 2 ^ j ≤ m → 2 ^ j + (m - 2 ^ j) ≡ m = λ b. omega arith in
      elim (le-cases (length xs) (2 ^ j)) [
        | inl small ↦ Edge-small j m a xs r rest small (edge_walk j m (2 * a) xs r rest small h g)
        | inr long ↦ elim (le-cases (2 ^ j) m) [
          | inl right ↦ Edge-right j m a xs r rest long right (
              edge_walk j (m - 2 ^ j) (2 * a + 1) (drop (2 ^ j) xs) r _
                (omega (arith, length-drop (2 ^ j) xs)) (omega (arith, length-drop (2 ^ j) xs))
                (get_elem?-drop (2 ^ j) xs (m - 2 ^ j) ∙ ap (get_elem? xs) (below right) ∙ g))
          | inr left ↦ (0, Edge-left j m a xs r rest n long left g)
        ]
      ]

  -- The walk along the audit path of leaf m reaches the tree head, with nothing left of sn.
  pub inclusion_walk :
      (j m : ℕ) (xs : List Hash) (r : Hash)
      → length xs ≤ 2 ^ j
      → m < length xs
      → get_elem? xs m ≡ some r
      → inclusion_loop sha256 m (length xs - 1) r (audit_path sha256 j m xs)
        ≡ ok (0, tree_hash sha256 j xs)
  inclusion_walk j m xs r n h g =
      let (s, e) = edge_walk j m 0 xs r [] n h g in
      (simp (zero-mul, zero-add, append-nil) at e) ∙ unfold inclusion_loop in refl

  verify_of_walk :
      (leaf : Hash) (i n : ℕ) (proof : List Hash) (root : Hash)
      → i < n
      → inclusion_loop sha256 i (n - 1) leaf proof ≡ ok (0, root)
      → verify_inclusion sha256 leaf i n proof root ≡ ok tt
  unfolding verify_inclusion
  verify_of_walk leaf i n proof root h e =
      rw (lt→leb n i h, verify_inclusion) (rw e (rw (bytes_eq_refl root)))

  -- For every tree built by appends, every size n it has had and every leaf i below n, the tree gives
  -- an audit path and a tree head, and `verify_inclusion` accepts the leaf hash with them.
  pub verify_inclusion-inclusion_proof :
      (t : Tree) (leaves : List Hash) (i n : ℕ) (leaf : Hash)
      → Holds sha256 t leaves
      → get_elem? leaves i ≡ some leaf
      → i < n
      → n ≤ length leaves
      → (proof : List Hash) × (head : Hash) × (inclusion_proof sha256 t i n ≡ ok proof)
        × (root_at sha256 t n ≡ ok head)
        × (verify_inclusion sha256 leaf i n proof head ≡ ok tt)
  verify_inclusion-inclusion_proof t leaves i n leaf v g h k =
      let size_n : length (take n leaves) ≡ n = omega (arith, length-take n leaves) in
      let fits : length (take n leaves) ≤ 2 ^ n = omega (arith, lt-two_pow n) in
      (
        audit_path sha256 n i (take n leaves),
        mth sha256 (take n leaves),
        inclusion_proof_lem sha256 t leaves i n v h k,
        root_at_lem sha256 t leaves n v k,
        verify_of_walk leaf i n _ _ h (
            subst
              (λ k.
                inclusion_loop sha256 i (k - 1) leaf (audit_path sha256 n i (take n leaves))
                ≡ ok (0, mth sha256 (take n leaves)))
              size_n
              (inclusion_walk n i (take n leaves) leaf fits (omega arith)
                  (get_elem?-take n leaves i h ∙ g)
                ∙ ap (λ r. ok (0, r)) (mth_lem sha256 n (take n leaves) fits))),
      )
