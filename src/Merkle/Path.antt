-- ===== src/Merkle/Path.antt =====
-- crypto/merkle/tree.go, `InclusionProof`, and the RFC's audit path.
use otvoren_vot.Prelude.{
  ℕ, zero, suc, ◌+◌, ◌-◌, ◌*◌, ◌^◌, ◌≤◌, ◌<◌, ◌≡◌, refl, ap, sym, ◌∙◌, false, List, [], ◌∷◌, ◌++◌,
  arith, length, take, drop, Bytes, ◌==◌, two_pow-suc, two_pow_pos, inl, inr, le-cases, lt-two_pow,
  le→ltb, lt→ltb, le→leb, lt→leb, append-nil, append_assoc,
}
use otvoren_vot.Merkle.Hash.{Hash, ok}
use otvoren_vot.Merkle.Tree.{Tree, size, hash_range, path_from, inclusion_proof}
use otvoren_vot.Merkle.Spec.{tree_hash, audit_path, slice, length-slice}
use otvoren_vot.Merkle.Levels.{HasLevels, Holds, size-Holds}
use otvoren_vot.Merkle.Range.{split_point_lem, take-slice, drop-slice, hash_range_lem}

module _ (sha256 : Bytes → Bytes) where
  pub audit_path_small :
      (j m : ℕ) (xs : List Hash)
      → length xs ≤ 2 ^ j
      → audit_path sha256 (suc j) m xs ≡ audit_path sha256 j m xs
  unfolding audit_path
  audit_path_small j m xs h = rw (le→leb (length xs) (2 ^ j) h, audit_path)

  pub audit_path_left :
      (j m : ℕ) (xs : List Hash)
      → 2 ^ j < length xs
      → m < 2 ^ j
      → audit_path sha256 (suc j) m xs
        ≡ audit_path sha256 j m (take (2 ^ j) xs) ++ tree_hash sha256 j (drop (2 ^ j) xs) ∷ []
  unfolding audit_path
  audit_path_left j m xs h l =
      rw (lt→leb (length xs) (2 ^ j) h, audit_path) (rw (lt→ltb m (2 ^ j) l))

  pub audit_path_right :
      (j m : ℕ) (xs : List Hash)
      → 2 ^ j < length xs
      → 2 ^ j ≤ m
      → audit_path sha256 (suc j) m xs
        ≡ audit_path sha256 j (m - 2 ^ j) (drop (2 ^ j) xs)
          ++ tree_hash sha256 j (take (2 ^ j) xs) ∷ []
  unfolding audit_path
  audit_path_right j m xs h l =
      rw (lt→leb (length xs) (2 ^ j) h, audit_path) (rw (le→ltb m (2 ^ j) l))

  module _ (levels : List (List Hash)) (leaves : List Hash)
      (v : HasLevels sha256 levels leaves) where
    path_one :
        (f m lo hi : ℕ) (proof : List Hash)
        → hi - lo ≡ 1
        → path_from sha256 (suc f) levels m lo hi proof ≡ ok proof
    unfolding path_from
    path_one f m lo hi proof e = rw (e, path_from)

    path_left :
        (j f m lo hi : ℕ) (proof below : List Hash) (h : Hash)
        → lo + 2 ^ j < hi
        → hi ≤ lo + 2 ^ suc j
        → m < 2 ^ j
        → path_from sha256 f levels m lo (lo + 2 ^ j) proof ≡ ok below
        → hash_range sha256 levels (lo + 2 ^ j) hi ≡ ok h
        → path_from sha256 (suc f) levels m lo hi proof ≡ ok (below ++ h ∷ [])
    unfolding path_from
    path_left j f m lo hi proof below h p q l hb hh =
        let z : (hi - lo == 1) ≡ false = ground (arith, two_pow_pos j) in
        let sp = split_point_lem j (hi - lo) (omega arith) (omega arith) in
        rw (z, path_from) (rw (sp, lt→ltb m (2 ^ j) l) (rw sp (rw (hb, hh))))

    path_right :
        (j f m lo hi : ℕ) (proof below : List Hash) (h : Hash)
        → lo + 2 ^ j < hi
        → hi ≤ lo + 2 ^ suc j
        → 2 ^ j ≤ m
        → path_from sha256 f levels (m - 2 ^ j) (lo + 2 ^ j) hi proof ≡ ok below
        → hash_range sha256 levels lo (lo + 2 ^ j) ≡ ok h
        → path_from sha256 (suc f) levels m lo hi proof ≡ ok (below ++ h ∷ [])
    unfolding path_from
    path_right j f m lo hi proof below h p q l hb hh =
        let z : (hi - lo == 1) ≡ false = ground (arith, two_pow_pos j) in
        let sp = split_point_lem j (hi - lo) (omega arith) (omega arith) in
        rw (z, path_from) (rw (sp, le→ltb m (2 ^ j) l) (rw sp (rw (hb, hh))))

    path_lem :
        (j f m a lo hi : ℕ) (proof : List Hash)
        → lo ≡ a * 2 ^ j
        → lo < hi
        → hi - lo ≤ f
        → hi - lo ≤ 2 ^ j
        → hi ≤ length leaves
        → path_from sha256 f levels m lo hi proof
          ≡ ok (proof ++ audit_path sha256 j m (slice lo hi leaves))
    path_lem j zero m a lo hi proof p q r s h = absurd (omega arith)
    path_lem zero (suc f) m a lo hi proof p q r s h =
        path_one f m lo hi proof (omega arith)
        ∙ ap ok (sym (append-nil proof) ∙ unfold audit_path in refl)
    path_lem (suc j) (suc f) m a lo hi proof p q r s h =
        let lower : lo ≡ 2 * a * 2 ^ j = omega (arith, ap (λ (t : ℕ). a * t) (two_pow-suc j)) in
        let upper : lo + 2 ^ j ≡ (2 * a + 1) * 2 ^ j = omega arith in
        let double : 2 ^ suc j ≡ 2 * 2 ^ j = two_pow-suc j in
        let xs = slice lo hi leaves in
        let n : length xs ≡ hi - lo = length-slice lo hi leaves h in
        elim (le-cases (hi - lo) (2 ^ j)) [
          | inl small ↦
              path_lem j (suc f) m (2 * a) lo hi proof lower q r small h
              ∙ ap (λ ys. ok (proof ++ ys)) (sym (audit_path_small j m xs (omega arith)))
          | inr big ↦
              let hl =
                hash_range_lem sha256 levels leaves v j (2 * a) lo (lo + 2 ^ j) lower (omega arith)
                  (omega arith) (omega arith) in
              let hr =
                hash_range_lem sha256 levels leaves v j (2 * a + 1) (lo + 2 ^ j) hi upper
                  (omega arith) (omega arith) h in
              let tk = take-slice (2 ^ j) lo hi leaves (omega arith) in
              let dr = drop-slice (2 ^ j) lo hi leaves (omega arith) in
              elim (le-cases (2 ^ j) m) [
                | inl right ↦
                    path_right j f m lo hi proof _ _ (omega arith) (omega arith) right
                      (path_lem j f (m - 2 ^ j) (2 * a + 1) (lo + 2 ^ j) hi proof upper
                        (omega arith) (omega (arith, two_pow_pos j)) (omega arith) h)
                      hl
                    ∙ ap ok (append_assoc proof _ _)
                    ∙ ap (λ ys. ok (proof ++ ys))
                        (sym (audit_path_right j m xs (omega arith) right ∙ rw (tk, dr)))
                | inr left ↦
                    path_left j f m lo hi proof _ _ (omega arith) (omega arith) left
                      (path_lem j f m (2 * a) lo (lo + 2 ^ j) proof lower
                        (omega (arith, two_pow_pos j)) (omega arith) (omega arith) (omega arith))
                      hr
                    ∙ ap ok (append_assoc proof _ _)
                    ∙ ap (λ ys. ok (proof ++ ys))
                        (sym (audit_path_left j m xs (omega arith) left ∙ rw (tk, dr)))
              ]
        ]

  -- The audit path of leaf i of the first n leaves, at any height that is enough.
  pub inclusion_proof_lem :
      (t : Tree) (leaves : List Hash) (i n : ℕ)
      → Holds sha256 t leaves
      → i < n
      → n ≤ length leaves
      → inclusion_proof sha256 t i n ≡ ok (audit_path sha256 n i (take n leaves))
  unfolding inclusion_proof
  inclusion_proof_lem t leaves i n v h k =
      let e : n - 0 ≡ n = omega arith in
      rw (le→ltb (size t) n (omega (arith, size-Holds sha256 t leaves v)), inclusion_proof)
        (rw (lt→leb n i h) (
          path_lem t.levels leaves v n n i 0 0 n [] (omega arith) (omega arith) (omega arith)
            (omega (arith, lt-two_pow n)) k
          ∙ rw e))
