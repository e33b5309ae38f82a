-- ===== src/Merkle/Verify.antt =====
-- crypto/merkle/verify.go. Indices and sizes are below 2^64; size - 1 is taken only when size > 0.
use otvoren_vot.Prelude.{
  ℕ, zero, suc, ◌-◌, ◌/◌, ◌%◌, bit_and, true, false, not, ◌&&◌, ◌||◌, List, [], ◌∷◌, length, Bytes,
  bytes_eq, ltb, leb, ◌==◌, if◌then◌else◌,
}
use otvoren_vot.Merkle.Hash.{
  Hash, Result, ok, err, index_out_of_range, size_out_of_range, invalid_proof, ◌>>=◌, node_hash,
  empty_root,
}

-- for fn&1 == 0 && fn != 0 { fn >>= 1; sn >>= 1 }: fn halves, so suc fn rounds suffice.
unfoldable pub climb_from : ℕ → ℕ → ℕ → ℕ × ℕ
climb_from zero fn sn = (fn, sn)
climb_from (suc fuel) fn sn =
    let rest = climb_from fuel (fn / 2) (sn / 2) in
    if fn % 2 == 0 && not (fn == 0) then rest else (fn, sn)

unfoldable pub climb : ℕ → ℕ → ℕ × ℕ
unfolding climb_from
climb fn sn = climb_from (suc fn) fn sn

-- for fn&1 == 1 { fn >>= 1; sn >>= 1 }
unfoldable pub skip_right_from : ℕ → ℕ → ℕ → ℕ × ℕ
skip_right_from zero fn sn = (fn, sn)
skip_right_from (suc fuel) fn sn =
    let rest = skip_right_from fuel (fn / 2) (sn / 2) in if fn % 2 == 1 then rest else (fn, sn)

unfoldable pub skip_right : ℕ → ℕ → ℕ × ℕ
unfolding skip_right_from
skip_right fn sn = skip_right_from (suc fn) fn sn

module _ (sha256 : Bytes → Bytes) where
  -- The loop of `VerifyInclusion` over the proof: the values of sn and r after it.
  unfoldable pub inclusion_loop : ℕ → ℕ → Hash → List Hash → Result (ℕ × Hash)
  inclusion_loop fn sn r [] = ok (sn, r)
  inclusion_loop fn sn r (p ∷ proof) = elim (sn == 0) [
    | true ↦ err invalid_proof
    | false ↦ elim (fn % 2 == 1 || fn == sn) [
      | true ↦
          let (fn', sn') = climb fn sn in
          inclusion_loop (fn' / 2) (sn' / 2) (node_hash sha256 p r) proof
      | false ↦ inclusion_loop (fn / 2) (sn / 2) (node_hash sha256 r p) proof
    ]
  ]

  unfoldable pub verify_inclusion : Hash → ℕ → ℕ → List Hash → Hash → Result (Unit {0})
  unfolding inclusion_loop climb
  verify_inclusion leaf i n proof root = if leb n i then err index_out_of_range else do
    (sn, r) ← inclusion_loop i (n - 1) leaf proof
    if not (sn == 0) || not (bytes_eq r root) then err invalid_proof else ok tt

  -- The loop of `VerifyConsistency`: the values of sn, fr and sr after it.
  unfoldable pub consistency_loop : ℕ → ℕ → Hash → Hash → List Hash → Result (ℕ × Hash × Hash)
  consistency_loop fn sn fr sr [] = ok (sn, fr, sr)
  consistency_loop fn sn fr sr (c ∷ rest) = elim (sn == 0) [
    | true ↦ err invalid_proof
    | false ↦ elim (fn % 2 == 1 || fn == sn) [
      | true ↦
          let (fn', sn') = climb fn sn in
          consistency_loop (fn' / 2) (sn' / 2) (node_hash sha256 c fr) (node_hash sha256 c sr) rest
      | false ↦ consistency_loop (fn / 2) (sn / 2) fr (node_hash sha256 sr c) rest
    ]
  ]

  -- Steps 2 to 7: `first` and `others` are the proof's head and tail.
  unfoldable pub consistency_walk : ℕ → ℕ → Hash → Hash → Hash → List Hash → Result (Unit {0})
  unfolding consistency_loop climb skip_right
  consistency_walk size1 size2 root1 root2 first others =
      let complete = bit_and size1 (size1 - 1) == 0 in
      let start = if complete then root1 else first in
      let rest = if complete then first ∷ others else others in
      let (fn, sn) = skip_right (size1 - 1) (size2 - 1) in
      consistency_loop fn sn start start rest >>= λ (sn', fr, sr).
      if not (bytes_eq fr root1) || not (bytes_eq sr root2) || not (sn' == 0)
      then err invalid_proof
      else ok tt

  unfoldable pub consistency_nonempty : ℕ → ℕ → Hash → Hash → List Hash → Result (Unit {0})
  unfolding consistency_walk
  consistency_nonempty size1 size2 root1 root2 [] = err invalid_proof
  consistency_nonempty size1 size2 root1 root2 (first ∷ others) =
      consistency_walk size1 size2 root1 root2 first others

  unfoldable pub verify_consistency : ℕ → ℕ → Hash → Hash → List Hash → Result (Unit {0})
  unfolding consistency_nonempty
  verify_consistency size1 size2 root1 root2 proof =
      if ltb size2 size1
      then err size_out_of_range
      else if size1 == 0 || size1 == size2
      then (if not (length proof == 0)
          then err invalid_proof
          else if size1 == 0 && not (bytes_eq root1 (empty_root sha256))
          then err invalid_proof
          else if size1 == size2 && not (bytes_eq root1 root2)
          then err invalid_proof
          else ok tt)
      else consistency_nonempty size1 size2 root1 root2 proof
