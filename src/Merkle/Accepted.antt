-- ===== src/Merkle/Accepted.antt =====
-- An accepted inclusion proof, at the right edge of the tree and for the whole of it.
use otvoren_vot.Prelude.{
  ℕ, zero, suc, ◌+◌, ◌-◌, ◌*◌, ◌/◌, ◌^◌, ◌≤◌, ◌<◌, ◌≡◌, refl, ap, sym, ◌∙◌, true, false, not, ◌||◌,
  List, [], ◌∷◌, some, arith, length, take, drop, get_elem?, Bytes, leb, ◌==◌, two_pow-suc,
  two_pow_pos, length-take, length-drop, ◌⊎◌, inl, inr, le-cases, lt-two_pow, bytes_eq,
  bytes_eq_sound, Bool, if◌then◌else◌,
}
use native.Mathlib.Nat.{div-eq_of_lt-le}
use otvoren_vot.Merkle.Hash.{
  Hash, Result, ok, err, panic, invalid_proof, index_out_of_range, ◌>>=◌, node_hash,
}
use otvoren_vot.Merkle.Spec.{mth, mth_lem, tree_hash_small}
use otvoren_vot.Merkle.Verify.{inclusion_loop, verify_inclusion}
use otvoren_vot.Merkle.Rounds.{round_left, round_edge}
use otvoren_vot.Merkle.Collision.{
  IsDigest, AllDigests, take-AllDigests, drop-AllDigests, NodeCollision, collision_lower,
  node_hash-IsDigest,
}
use otvoren_vot.Merkle.Sound.{
  Commits, Rejects, Climb, short, reach, stops, Commits-left, Commits-right, Commits-leaf,
  Climb-sound,
}

edge_quotient :
    (a j n : ℕ) → 2 ^ j < n → n ≤ 2 ^ suc j → (2 * a * 2 ^ j + (n - 1)) / 2 ^ j ≡ 2 * a + 1
edge_quotient a j n p q =
    div-eq_of_lt-le {k = 2 * a + 1} (2 ^ j) (omega arith) (omega (arith, two_pow-suc j))

module _ (sha256 : Bytes → Bytes) (sized : (b : Bytes) → IsDigest (sha256 b)) where
  -- The walk over the last subtree: rejected, or it reaches the subtree's head r'.
  data Edge (j m a : ℕ) (xs : List Hash) (r : Hash) (proof : List Hash) : Type 0 where
    rejected :
        Rejects sha256 sized (a * 2 ^ j + m) (a * 2 ^ j + (length xs - 1)) r proof
        → Edge j m a xs r proof
    arrived :
        (s : ℕ) (r' : Hash) (rest : List Hash)
        → inclusion_loop sha256 (a * 2 ^ j + m) (a * 2 ^ j + (length xs - 1)) r proof
          ≡ inclusion_loop sha256 (a * 2 ^ s) (a * 2 ^ s) r' rest
        → IsDigest r'
        → AllDigests rest
        → Commits sha256 sized j m xs r r'
        → Edge j m a xs r proof

  Edge-leaf :
      (m a : ℕ) (xs : List Hash) (r : Hash) (proof : List Hash)
      → length xs ≤ 1
      → m < length xs
      → IsDigest r
      → AllDigests proof
      → Edge 0 m a xs r proof
  Edge-leaf m a xs r proof n h dr dp =
      let e : a * 2 ^ 0 + m ≡ a * 2 ^ 0 = omega arith in
      let d : a * 2 ^ 0 + (length xs - 1) ≡ a * 2 ^ 0 = omega arith in
      arrived 0 r proof (rw (e, d)) dr dp
        (Commits-leaf sha256 sized m xs r (omega arith) (omega arith))

  Edge-small :
      (j m a : ℕ) (xs : List Hash) (r : Hash) (proof : List Hash)
      → length xs ≤ 2 ^ j
      → Edge j m (2 * a) xs r proof
      → Edge (suc j) m a xs r proof
  Edge-small j m a xs r proof small (rejected s) =
      let e : a * 2 ^ suc j ≡ 2 * a * 2 ^ j =
        omega (arith, ap (λ (t : ℕ). a * t) (two_pow-suc j)) in
      rejected (rw e s)
  Edge-small j m a xs r proof small (arrived s r' rest w dr dp c) =
      let at : (k : ℕ) → a * 2 ^ suc k ≡ 2 * a * 2 ^ k =
        λ k. omega (arith, ap (λ (t : ℕ). a * t) (two_pow-suc k)) in
      arrived (suc s) r' rest (rw (at j, at s) w) dr dp (λ e.
        elim (c (e ∙ tree_hash_small sha256 j xs small)) [
          | inl found ↦ inl found
          | inr collision ↦ inr (collision_lower sha256 j xs small collision)
        ])

  Edge-left :
      (j m a : ℕ) (xs : List Hash) (r : Hash) (proof : List Hash)
      → length xs ≤ 2 ^ suc j
      → 2 ^ j < length xs
      → m < 2 ^ j
      → AllDigests xs
      → Climb sha256 sized j m (2 * a) (2 * a * 2 ^ j + (length xs - 1)) (take (2 ^ j) xs) r proof
      → Edge (suc j) m a xs r proof
  Edge-left j m a xs r proof n long left d (short s) =
      let e : a * 2 ^ suc j ≡ 2 * a * 2 ^ j =
        omega (arith, ap (λ (t : ℕ). a * t) (two_pow-suc j)) in
      rejected (rw e s)
  Edge-left j m a xs r proof n long left d (reach r' rest w dr dp c) =
      let e : a * 2 ^ suc j ≡ 2 * a * 2 ^ j =
        omega (arith, ap (λ (t : ℕ). a * t) (two_pow-suc j)) in
      let q = edge_quotient a j (length xs) long n in edge_left_rest rest dp (rw (e, w, q))
    where
      edge_left_rest :
          (rest : List Hash)
          → AllDigests rest
          → inclusion_loop sha256 (a * 2 ^ suc j + m) (a * 2 ^ suc j + (length xs - 1)) r proof
            ≡ inclusion_loop sha256 (2 * a) (2 * a + 1) r' rest
          → Edge (suc j) m a xs r proof
      edge_left_rest [] ds w' =
          rejected (rw w' (stops sha256 sized (2 * a) (2 * a + 1) r' (omega arith)))
      edge_left_rest (p ∷ rest) (dp', ds) w' =
          let half : (2 * a + 1) / 2 ≡ a = omega arith in
          let one : a * 2 ^ 0 ≡ a = omega arith in
          arrived 0 (node_hash sha256 r' p) rest
            (w' ∙ round_left sha256 a (2 * a + 1) r' p rest (omega arith) ∙ rw (half, one))
            (node_hash-IsDigest sha256 sized _ _) ds
            (Commits-left sha256 sized j m xs r r' p long left d dr dp' c)

  Edge-right :
      (j m a : ℕ) (xs : List Hash) (r : Hash) (proof : List Hash)
      → 2 ^ j < length xs
      → 2 ^ j ≤ m
      → AllDigests xs
      → Edge j (m - 2 ^ j) (2 * a + 1) (drop (2 ^ j) xs) r proof
      → Edge (suc j) m a xs r proof
  Edge-right j m a xs r proof long right d edge =
      go edge (omega (arith, ap (λ (t : ℕ). a * t) (two_pow-suc j)))
        (omega (arith, ap (λ (t : ℕ). a * t) (two_pow-suc j), length-drop (2 ^ j) xs))
    where
      go :
          Edge j (m - 2 ^ j) (2 * a + 1) (drop (2 ^ j) xs) r proof
          → a * 2 ^ suc j + m ≡ (2 * a + 1) * 2 ^ j + (m - 2 ^ j)
          → a * 2 ^ suc j + (length xs - 1) ≡ (2 * a + 1) * 2 ^ j + (length (drop (2 ^ j) xs) - 1)
          → Edge (suc j) m a xs r proof
      go (rejected s) at end = rejected (rw (at, end) s)
      go (arrived s r' [] w dr dp c) at end = rejected (
          rw (at, end, w)
            (stops sha256 sized ((2 * a + 1) * 2 ^ s) ((2 * a + 1) * 2 ^ s) r'
              (omega (arith, two_pow_pos s))))
      go (arrived s r' (p ∷ rest) w dr (dp, ds) c) at end =
          let one : a * 2 ^ 0 ≡ a = omega arith in
          arrived 0 (node_hash sha256 p r') rest
            (rw (at, end, w, one) (round_edge sha256 a s r' p rest))
            (node_hash-IsDigest sha256 sized _ _) ds
            (Commits-right sha256 sized j m xs r r' p long right d dr dp c)

  Edge-sound :
      (j m a : ℕ) (xs : List Hash) (r : Hash) (proof : List Hash)
      → length xs ≤ 2 ^ j
      → m < length xs
      → AllDigests xs
      → IsDigest r
      → AllDigests proof
      → Edge j m a xs r proof
  Edge-sound zero m a xs r proof n h d dr dp = Edge-leaf m a xs r proof n h dr dp
  Edge-sound (suc j) m a xs r proof n h d dr dp = elim (le-cases (length xs) (2 ^ j)) [
    | inl small ↦
        Edge-small j m a xs r proof small (Edge-sound j m (2 * a) xs r proof small h d dr dp)
    | inr long ↦ elim (le-cases (2 ^ j) m) [
      | inl right ↦ Edge-right j m a xs r proof long right d (
          Edge-sound j (m - 2 ^ j) (2 * a + 1) (drop (2 ^ j) xs) r proof
            (omega (arith, two_pow-suc j, length-drop (2 ^ j) xs))
            (omega (arith, length-drop (2 ^ j) xs)) (drop-AllDigests (2 ^ j) xs d) dr dp)
      | inr left ↦ Edge-left j m a xs r proof n long left d (
          Climb-sound sha256 sized j m (2 * a) (2 * a * 2 ^ j + (length xs - 1)) (take (2 ^ j) xs) r
            proof (omega (arith, length-take (2 ^ j) xs)) left
            (omega (arith, edge_quotient a j (length xs) long n)) (take-AllDigests (2 ^ j) xs d) dr
            dp)
    ]
  ]

  loop_nil : (fn sn : ℕ) (r : Hash) → inclusion_loop sha256 fn sn r [] ≡ ok (sn, r)
  unfolding inclusion_loop
  loop_nil fn sn r = refl

  loop_exhausted :
      (fn : ℕ) (r p : Hash) (rest : List Hash)
      → inclusion_loop sha256 fn 0 r (p ∷ rest) ≡ err invalid_proof
  unfolding inclusion_loop
  loop_exhausted fn r p rest = refl

  -- The whole tree.
  walk_sound :
      (m : ℕ) (xs : List Hash) (r h : Hash) (proof : List Hash)
      → m < length xs
      → inclusion_loop sha256 m (length xs - 1) r proof ≡ ok (0, h)
      → h ≡ mth sha256 xs
      → AllDigests xs
      → IsDigest r
      → AllDigests proof
      → (get_elem? xs m ≡ some r) ⊎ NodeCollision sha256 (length xs) xs
  walk_sound m xs r h proof l e head d dr dp =
      finish
        (Edge-sound (length xs) m 0 xs r proof (omega (arith, lt-two_pow (length xs))) l d dr dp)
    where
      at : 0 * 2 ^ length xs + m ≡ m
      at = omega arith

      end : 0 * 2 ^ length xs + (length xs - 1) ≡ length xs - 1
      end = omega arith

      finish :
          Edge (length xs) m 0 xs r proof
          → (get_elem? xs m ≡ some r) ⊎ NodeCollision sha256 (length xs) xs
      finish (rejected s) = absurd (s h (rw (at, end) e))
      finish (arrived s r' [] w da db c) =
          let base : 0 * 2 ^ s ≡ 0 = omega arith in
          let q : ◌≡◌ {A = Result (ℕ × Hash)} (ok (0, h)) (ok (0, r')) =
            sym (rw (at, end) e) ∙ w ∙ rw base (loop_nil 0 0 r') in
          let same : r' ≡ h = cc q in
          c (
            same
            ∙ head
            ∙ sym (mth_lem sha256 (length xs) xs (omega (arith, lt-two_pow (length xs)))))
      finish (arrived s r' (p ∷ rest) w da db c) =
          let base : 0 * 2 ^ s ≡ 0 = omega arith in
          let q : ◌≡◌ {A = Result (ℕ × Hash)} (ok (0, h)) (err invalid_proof) =
            sym (rw (at, end) e) ∙ w ∙ rw base (loop_exhausted 0 r' p rest) in
          cc q

  accept_cases :
      (refused : Bool) (w : Result (ℕ × Hash)) (root : Hash)
      → ◌≡◌ {A = Result (Unit {0})}
          (if refused
            then err index_out_of_range
            else (w >>= λ (sn, r).
                if not (sn == 0) || not (bytes_eq r root) then err invalid_proof else ok tt))
          (ok tt)
      → (refused ≡ false) × (w ≡ ok (0, root))
  accept_cases true w root e = cc
  accept_cases false (err x) root e = cc
  accept_cases false panic root e = cc
  accept_cases false (ok (sn, r)) root e = (refl, ground (arith, bytes_eq_sound r root))

  -- The two things that acceptance means: the index is in range, and the walk ends at the root.
  accepted :
      (leaf : Hash) (i n : ℕ) (proof : List Hash) (root : Hash)
      → verify_inclusion sha256 leaf i n proof root ≡ ok tt
      → (i < n) × (inclusion_loop sha256 i (n - 1) leaf proof ≡ ok (0, root))
  unfolding verify_inclusion
  accepted leaf i n proof root e =
      let (l, w) = accept_cases (leb n i) (inclusion_loop sha256 i (n - 1) leaf proof) root e in
      (ground arith, w)

  -- Where SHA-256 gives 32 bytes, and the leaf hashes, the leaf hash offered and the proof have 32 bytes
  -- each: if `verify_inclusion` accepts a leaf hash at index i against the RFC tree head of some leaf
  -- hashes and their number, then it is the one at index i, or another pair of digests than the
  -- children of some node of that tree hashes to the same value as that node.
  pub verify_inclusion_sound :
      (leaves : List Hash) (i : ℕ) (leaf : Hash) (proof : List Hash)
      → AllDigests leaves
      → IsDigest leaf
      → AllDigests proof
      → verify_inclusion sha256 leaf i (length leaves) proof (mth sha256 leaves) ≡ ok tt
      → (get_elem? leaves i ≡ some leaf) ⊎ NodeCollision sha256 (length leaves) leaves
  verify_inclusion_sound leaves i leaf proof d dr dp e =
      let (l, w) = accepted leaf i (length leaves) proof (mth sha256 leaves) e in
      walk_sound i leaves leaf (mth sha256 leaves) proof l w refl d dr dp
