-- ===== src/Merkle/Sound.antt =====
-- What an accepted inclusion proof shows: the leaf is the one at that index, or the proof exhibits
-- a collision with a node of the tree.
use otvoren_vot.Prelude.{
  ℕ, zero, suc, ◌+◌, ◌-◌, ◌*◌, ◌/◌, ◌^◌, ◌≤◌, ◌<◌, ◌≡◌, ◌≢◌, refl, ap, sym, ◌∙◌, List, [], ◌∷◌,
  some, arith, length, take, drop, get_elem?, Bytes, two_pow-suc, two_pow_pos, length-take,
  length-drop, ◌⊎◌, inl, inr, le-cases, get_elem?-take, get_elem?-drop,
}
use otvoren_vot.Merkle.Hash.{Hash, ok, node_hash}
use otvoren_vot.Merkle.Spec.{tree_hash, tree_hash_split}
use otvoren_vot.Merkle.Collision.{
  IsDigest, AllDigests, take-AllDigests, drop-AllDigests, NodeCollision, top, node_hash-cases,
  collision_in_left, collision_in_right, node_hash-IsDigest, tree_hash-IsDigest,
}
use otvoren_vot.Merkle.Verify.{inclusion_loop}
use otvoren_vot.Merkle.Rounds.{half_div, round_left, round_right}

module _ (sha256 : Bytes → Bytes) (sized : (b : Bytes) → IsDigest (sha256 b)) where
  -- r' as the head of the subtree xs commits to r at index m of it.
  abbrev pub Commits : ℕ → ℕ → List Hash → Hash → Hash → Type 0
  Commits j m xs r r' =
      r' ≡ tree_hash sha256 j xs → (get_elem? xs m ≡ some r) ⊎ NodeCollision sha256 j xs

  -- A walk that never ends with sn = 0 is never accepted.
  abbrev pub Rejects : ℕ → ℕ → Hash → List Hash → Type 0
  Rejects fn sn r proof = (h : Hash) → inclusion_loop sha256 fn sn r proof ≢ ok (0, h)

  -- The walk over a complete subtree: rejected, or it reaches the subtree's head r'.
  pub data Climb (j m a sn : ℕ) (xs : List Hash) (r : Hash) (proof : List Hash) : Type 0 where
    short : Rejects (a * 2 ^ j + m) sn r proof → Climb j m a sn xs r proof
    reach :
        (r' : Hash) (rest : List Hash)
        → inclusion_loop sha256 (a * 2 ^ j + m) sn r proof
          ≡ inclusion_loop sha256 a (sn / 2 ^ j) r' rest
        → IsDigest r'
        → AllDigests rest
        → Commits j m xs r r'
        → Climb j m a sn xs r proof

  pub stops : (fn sn : ℕ) (r : Hash) → 0 < sn → Rejects fn sn r []
  unfolding inclusion_loop
  stops fn sn r h k e = ground arith

  pub Commits-left :
      (j m : ℕ) (xs : List Hash) (r r' p : Hash)
      → 2 ^ j < length xs
      → m < 2 ^ j
      → AllDigests xs
      → IsDigest r'
      → IsDigest p
      → Commits j m (take (2 ^ j) xs) r r'
      → Commits (suc j) m xs r (node_hash sha256 r' p)
  Commits-left j m xs r r' p long left d dr dp c e =
      elim (node_hash-cases sha256 (suc j) xs r' p _ _ (top j xs _ _ long refl refl)
        (
          tree_hash-IsDigest sha256 sized j (take (2 ^ j) xs) (take-AllDigests (2 ^ j) xs d),
          tree_hash-IsDigest sha256 sized j (drop (2 ^ j) xs) (drop-AllDigests (2 ^ j) xs d),
          dr,
          dp,
        )
        (e ∙ tree_hash_split sha256 j xs long)) [
          | inl same ↦ elim (c same.0) [
            | inl found ↦ inl (sym (get_elem?-take (2 ^ j) xs m left) ∙ found)
            | inr collision ↦ inr (collision_in_left sha256 j xs long collision)
          ]
          | inr collision ↦ inr collision
        ]

  pub Commits-right :
      (j m : ℕ) (xs : List Hash) (r r' p : Hash)
      → 2 ^ j < length xs
      → 2 ^ j ≤ m
      → AllDigests xs
      → IsDigest r'
      → IsDigest p
      → Commits j (m - 2 ^ j) (drop (2 ^ j) xs) r r'
      → Commits (suc j) m xs r (node_hash sha256 p r')
  Commits-right j m xs r r' p long right d dr dp c e =
      let k : 2 ^ j + (m - 2 ^ j) ≡ m = omega arith in
      elim (node_hash-cases sha256 (suc j) xs p r' _ _ (top j xs _ _ long refl refl)
        (
          tree_hash-IsDigest sha256 sized j (take (2 ^ j) xs) (take-AllDigests (2 ^ j) xs d),
          tree_hash-IsDigest sha256 sized j (drop (2 ^ j) xs) (drop-AllDigests (2 ^ j) xs d),
          dp,
          dr,
        )
        (e ∙ tree_hash_split sha256 j xs long)) [
          | inl same ↦ elim (c same.1) [
            | inl found ↦
                inl
                  (ap (get_elem? xs) (sym k) ∙ sym (get_elem?-drop (2 ^ j) xs (m - 2 ^ j)) ∙ found)
            | inr collision ↦ inr (collision_in_right sha256 j xs long collision)
          ]
          | inr collision ↦ inr collision
        ]

  pub Commits-leaf :
      (m : ℕ) (xs : List Hash) (r : Hash) → length xs ≡ 1 → m < 1 → Commits 0 m xs r r
  unfolding tree_hash
  Commits-leaf m [] r n h e = absurd (omega arith)
  Commits-leaf zero (x ∷ []) r n h e = inl (ap some (sym e))
  Commits-leaf (suc m) (x ∷ []) r n h e = absurd (omega arith)
  Commits-leaf m (x ∷ y ∷ xs) r n h e = absurd (omega arith)

  Climb-left :
      (j m a sn : ℕ) (xs : List Hash) (r : Hash) (proof : List Hash)
      → 2 ^ j < length xs
      → m < 2 ^ j
      → 2 * a + 1 < sn / 2 ^ j
      → AllDigests xs
      → Climb j m (2 * a) sn (take (2 ^ j) xs) r proof
      → Climb (suc j) m a sn xs r proof
  Climb-left j m a sn xs r proof long left l d (short s) =
      let e : a * 2 ^ suc j + m ≡ 2 * a * 2 ^ j + m =
        omega (arith, ap (λ (t : ℕ). a * t) (two_pow-suc j)) in
      short (rw e s)
  Climb-left j m a sn xs r proof long left l d (reach r' [] w dr dp c) =
      let e : a * 2 ^ suc j + m ≡ 2 * a * 2 ^ j + m =
        omega (arith, ap (λ (t : ℕ). a * t) (two_pow-suc j)) in
      short (rw (e, w) (stops (2 * a) (sn / 2 ^ j) r' (omega arith)))
  Climb-left j m a sn xs r proof long left l d (reach r' (p ∷ rest) w dr (dp, ds) c) =
      let e : a * 2 ^ suc j + m ≡ 2 * a * 2 ^ j + m =
        omega (arith, ap (λ (t : ℕ). a * t) (two_pow-suc j)) in
      reach (node_hash sha256 r' p) rest
        (rw (e, w, half_div sn j) (round_left sha256 a (sn / 2 ^ j) r' p rest (omega arith)))
        (node_hash-IsDigest sha256 sized _ _) ds (Commits-left j m xs r r' p long left d dr dp c)

  Climb-right :
      (j m a sn : ℕ) (xs : List Hash) (r : Hash) (proof : List Hash)
      → 2 ^ j < length xs
      → 2 ^ j ≤ m
      → 2 * a + 1 < sn / 2 ^ j
      → AllDigests xs
      → Climb j (m - 2 ^ j) (2 * a + 1) sn (drop (2 ^ j) xs) r proof
      → Climb (suc j) m a sn xs r proof
  Climb-right j m a sn xs r proof long right l d (short s) =
      let e : a * 2 ^ suc j + m ≡ (2 * a + 1) * 2 ^ j + (m - 2 ^ j) =
        omega (arith, ap (λ (t : ℕ). a * t) (two_pow-suc j)) in
      short (rw e s)
  Climb-right j m a sn xs r proof long right l d (reach r' [] w dr dp c) =
      let e : a * 2 ^ suc j + m ≡ (2 * a + 1) * 2 ^ j + (m - 2 ^ j) =
        omega (arith, ap (λ (t : ℕ). a * t) (two_pow-suc j)) in
      short (rw (e, w) (stops (2 * a + 1) (sn / 2 ^ j) r' (omega arith)))
  Climb-right j m a sn xs r proof long right l d (reach r' (p ∷ rest) w dr (dp, ds) c) =
      let e : a * 2 ^ suc j + m ≡ (2 * a + 1) * 2 ^ j + (m - 2 ^ j) =
        omega (arith, ap (λ (t : ℕ). a * t) (two_pow-suc j)) in
      reach (node_hash sha256 p r') rest
        (rw (e, w, half_div sn j) (round_right sha256 a (sn / 2 ^ j) r' p rest (omega arith)))
        (node_hash-IsDigest sha256 sized _ _) ds (Commits-right j m xs r r' p long right d dr dp c)

  pub Climb-sound :
      (j m a sn : ℕ) (xs : List Hash) (r : Hash) (proof : List Hash)
      → length xs ≡ 2 ^ j
      → m < 2 ^ j
      → a < sn / 2 ^ j
      → AllDigests xs
      → IsDigest r
      → AllDigests proof
      → Climb j m a sn xs r proof
  Climb-sound zero m a sn xs r proof n h l d dr dp =
      let e : a * 2 ^ 0 + m ≡ a = omega arith in
      let k : sn / 2 ^ 0 ≡ sn = omega arith in
      reach r proof (rw (e, k)) dr dp (Commits-leaf m xs r n h)
  Climb-sound (suc j) m a sn xs r proof n h l d dr dp =
      let double : 2 ^ suc j ≡ 2 * 2 ^ j = two_pow-suc j in
      let half : sn / 2 ^ suc j ≡ sn / 2 ^ j / 2 = half_div sn j in
      let long : 2 ^ j < length xs = omega (arith, two_pow_pos j) in
      elim (le-cases (2 ^ j) m) [
        | inl right ↦ Climb-right j m a sn xs r proof long right (omega arith) d (
            Climb-sound j (m - 2 ^ j) (2 * a + 1) sn (drop (2 ^ j) xs) r proof
              (omega (arith, length-drop (2 ^ j) xs)) (omega arith) (omega arith)
              (drop-AllDigests (2 ^ j) xs d) dr dp)
        | inr left ↦ Climb-left j m a sn xs r proof long left (omega arith) d (
            Climb-sound j m (2 * a) sn (take (2 ^ j) xs) r proof
              (omega (arith, length-take (2 ^ j) xs)) left (omega arith)
              (take-AllDigests (2 ^ j) xs d) dr dp)
      ]
