-- ===== src/Merkle/Rounds.antt =====
-- One round of the loop of `verify_inclusion`: at a left child with a right sibling, at a right
-- child, and at the right edge of the tree, where the inner loop climbs.
use otvoren_vot.Prelude.{
  ℕ, zero, suc, ◌+◌, ◌*◌, ◌/◌, ◌%◌, ◌^◌, ◌≤◌, ◌<◌, ◌≡◌, refl, ap, sym, ◌∙◌, true, false, not, ◌||◌,
  ◌&&◌, List, ◌∷◌, arith, Bytes, ◌==◌, two_pow-suc, two_pow_pos, lt-two_pow,
}
use native.Mathlib.Nat.{div-div-eq-div-mul}
use otvoren_vot.Merkle.Hash.{Hash, node_hash}
use otvoren_vot.Merkle.Verify.{climb_from, climb, inclusion_loop}

pub half_div : (n j : ℕ) → n / 2 ^ suc j ≡ n / 2 ^ j / 2
half_div n j =
    let e : 2 ^ suc j ≡ 2 ^ j * 2 = omega (arith, two_pow-suc j) in
    rw e (sym (div-div-eq-div-mul n (2 ^ j) 2))

climb_from_odd : (f b fn sn : ℕ) → fn % 2 ≡ 1 → climb_from f fn sn ≡ (fn, sn)
unfolding climb_from
climb_from_odd zero b fn sn h = refl
climb_from_odd (suc f) b fn sn h = rw (h, climb_from)

pub climb_odd : (fn sn : ℕ) → fn % 2 ≡ 1 → climb fn sn ≡ (fn, sn)
unfolding climb
climb_odd fn sn h = climb_from_odd (suc fn) 0 fn sn h

climb_from_double : (f y : ℕ) → 0 < y → climb_from (suc f) (2 * y) (2 * y) ≡ climb_from f y y
unfolding climb_from
climb_from_double f y h =
    let e : (2 * y % 2 == 0 && not (2 * y == 0)) ≡ true = ground arith in
    let d : 2 * y / 2 ≡ y = omega arith in rw (e, climb_from) (rw d)

climb_from_even :
    (s f b : ℕ)
    → s < f
    → climb_from f ((2 * b + 1) * 2 ^ s) ((2 * b + 1) * 2 ^ s) ≡ (2 * b + 1, 2 * b + 1)
climb_from_even s zero b h = absurd (omega arith)
climb_from_even zero (suc f) b h =
    let e : (2 * b + 1) * 2 ^ 0 ≡ 2 * b + 1 = omega arith in
    rw e (climb_from_odd (suc f) b (2 * b + 1) (2 * b + 1) (omega arith))
climb_from_even (suc s) (suc f) b h =
    let e : (2 * b + 1) * 2 ^ suc s ≡ 2 * ((2 * b + 1) * 2 ^ s) =
      omega (arith, ap (λ (t : ℕ). b * t) (two_pow-suc s), two_pow-suc s) in
    rw e (
      climb_from_double f ((2 * b + 1) * 2 ^ s) (omega (arith, two_pow_pos s))
      ∙ climb_from_even s f b (omega arith))

-- From the right edge at an even level, the inner loop climbs to the first odd one.
pub climb_even :
    (s b : ℕ) → climb ((2 * b + 1) * 2 ^ s) ((2 * b + 1) * 2 ^ s) ≡ (2 * b + 1, 2 * b + 1)
unfolding climb
climb_even s b = climb_from_even s (suc ((2 * b + 1) * 2 ^ s)) b (omega (arith, lt-two_pow s))

module _ (sha256 : Bytes → Bytes) where
  -- One round at a node with a right sibling, at a right child, and at the right edge.
  pub round_left :
      (b q : ℕ) (r p : Hash) (rest : List Hash)
      → 2 * b < q
      → inclusion_loop sha256 (2 * b) q r (p ∷ rest)
        ≡ inclusion_loop sha256 b (q / 2) (node_hash sha256 r p) rest
  unfolding inclusion_loop
  round_left b q r p rest h =
      let z : (q == 0) ≡ false = ground arith in
      let e : (2 * b % 2 == 1 || 2 * b == q) ≡ false = ground arith in
      let d : 2 * b / 2 ≡ b = omega arith in rw (z, inclusion_loop) (rw e (rw d))

  pub round_right :
      (b q : ℕ) (r p : Hash) (rest : List Hash)
      → 2 * b + 1 ≤ q
      → inclusion_loop sha256 (2 * b + 1) q r (p ∷ rest)
        ≡ inclusion_loop sha256 b (q / 2) (node_hash sha256 p r) rest
  unfolding inclusion_loop
  round_right b q r p rest h =
      let z : (q == 0) ≡ false = ground arith in
      let e : ((2 * b + 1) % 2 == 1 || 2 * b + 1 == q) ≡ true = ground arith in
      let d : (2 * b + 1) / 2 ≡ b = omega arith in
      rw (z, inclusion_loop) (rw e (rw (climb_odd (2 * b + 1) q (omega arith)) (rw d)))

  pub round_edge :
      (b s : ℕ) (r p : Hash) (rest : List Hash)
      → inclusion_loop sha256 ((2 * b + 1) * 2 ^ s) ((2 * b + 1) * 2 ^ s) r (p ∷ rest)
        ≡ inclusion_loop sha256 b b (node_hash sha256 p r) rest
  unfolding inclusion_loop
  round_edge b s r p rest =
      let z : ((2 * b + 1) * 2 ^ s == 0) ≡ false = ground (arith, two_pow_pos s) in
      let e : ((2 * b + 1) * 2 ^ s % 2 == 1 || (2 * b + 1) * 2 ^ s == (2 * b + 1) * 2 ^ s) ≡ true =
        ground arith in
      let d : (2 * b + 1) / 2 ≡ b = omega arith in
      rw (z, inclusion_loop) (rw e (rw (climb_even s b) (rw d)))
