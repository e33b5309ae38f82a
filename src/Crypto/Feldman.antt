-- ===== src/Crypto/Feldman.antt =====
-- crypto/threshold/feldman.go. The coefficients of a dealer's polynomial are an argument.
use otvoren_vot.Prelude.{
  ℕ, zero, suc, Bool, true, false, not, ◌||◌, List, [], ◌∷◌, none, some, length, ltb, ◌==◌,
  get_elem?, lookup, insert, nat_Eq,
}
use otvoren_vot.Crypto.Group.{
  Ristretto, Result, ok, err, ◌>>=◌, bad_index, bad_threshold, bad_position, duplicate_index,
  no_shares, share_count, scalar_from_int,
}

abbrev pub max_uint32 : ℕ
max_uint32 = 4_294_967_295

unfoldable pub check_index : ℕ → Result (Unit {0})
check_index i = elim (ltb i 1 || ltb max_uint32 i) [ true ↦ err bad_index | false ↦ ok tt ]

unfoldable pub each_index : List ℕ → Result (Unit {0})
unfolding check_index
each_index [] = ok tt
each_index (i ∷ indices) = check_index i >>= λ u. each_index indices

unfoldable pub distinct_from : List (ℕ × Bool) → List ℕ → Result (Unit {0})
distinct_from seen [] = ok tt
distinct_from seen (i ∷ indices) = elim (lookup i seen) [
  | some b ↦ err duplicate_index
  | none ↦ distinct_from (insert i true seen) indices
]

unfoldable pub check_indices : List ℕ → Result (Unit {0})
unfolding each_index distinct_from
check_indices indices = each_index indices >>= λ u. distinct_from [] indices

unfoldable pub check_threshold : ℕ → ℕ → Result (Unit {0})
unfolding check_index
check_threshold threshold parties = elim (ltb threshold 1 || ltb parties threshold) [
  | true ↦ err bad_threshold
  | false ↦ check_index parties
]

module _ {S E : Type 0} (r : Ristretto S E) where
  -- The loop of `evaluatePolynomial`, with the coefficients from the highest degree down.
  unfoldable pub horner : S → S → List S → S
  horner x result [] = result
  horner x result (a ∷ rest) = horner x (r.add_scalar (r.mul_scalar result x) a) rest

  unfoldable pub reverse_onto : List S → List S → List S
  reverse_onto [] acc = acc
  reverse_onto (x ∷ xs) acc = reverse_onto xs (x ∷ acc)

  unfoldable pub evaluate_polynomial : List S → ℕ → Result S
  unfolding horner reverse_onto
  evaluate_polynomial coefficients x =
      scalar_from_int r x >>= λ s. ok (horner s r.zero_scalar (reverse_onto coefficients []))

  -- f(i), f(i+1), ..., `count` of them.
  unfoldable pub shares_from : List S → ℕ → ℕ → Result (List S)
  unfolding evaluate_polynomial
  shares_from coefficients zero i = ok []
  shares_from coefficients (suc count) i = evaluate_polynomial coefficients i >>= λ s.
      shares_from coefficients count (suc i) >>= λ shares. ok (s ∷ shares)

  unfoldable pub commitments_of : List S → List E
  commitments_of [] = []
  commitments_of (a ∷ coefficients) = r.scalar_base_mult a ∷ commitments_of coefficients

  -- `NewDealer`, with its `threshold` random coefficients: the commitments and the shares.
  unfoldable pub new_dealer : ℕ → ℕ → List S → Result (List E × List S)
  unfolding commitments_of shares_from check_threshold
  new_dealer threshold parties coefficients = check_threshold threshold parties >>= λ u.
      shares_from coefficients parties 1 >>= λ shares. ok (commitments_of coefficients, shares)

  -- pow, pow*x, pow*x*x, ..., one for each commitment.
  unfoldable pub powers_from : S → S → List E → List S
  powers_from x pow [] = []
  powers_from x pow (c ∷ commitments) = pow ∷ powers_from x (r.mul_scalar pow x) commitments

  unfoldable pub share_matches : S → Result S → Result S → List E → Bool
  unfolding powers_from
  share_matches share (ok x) (ok one) commitments =
      r.equal (r.scalar_base_mult share)
        (r.multi_scalar_mult (powers_from x one commitments) commitments)
  share_matches share (ok x) (err e) commitments = false
  share_matches share (err e) one commitments = false

  unfoldable pub verify_share : S → ℕ → ℕ → List E → Bool
  unfolding check_index share_matches
  verify_share share i threshold commitments =
      elim (ltb threshold 1 || not (length commitments == threshold)) [
        | true ↦ false
        | false ↦ elim (check_index i) [
          | err e ↦ false
          | ok u ↦ share_matches share (scalar_from_int r i) (scalar_from_int r 1) commitments
        ]
      ]

  -- The loop of `lagrangeAt` from position j on: the numerator and the denominator.
  unfoldable pub lagrange_loop : S → ℕ → ℕ → List ℕ → S → S → Result (S × S)
  lagrange_loop xi pos j [] num den = ok (num, den)
  lagrange_loop xi pos j (i ∷ indices) num den = elim (j == pos) [
    | true ↦ lagrange_loop xi pos (suc j) indices num den
    | false ↦ scalar_from_int r i >>= λ xj.
        lagrange_loop xi pos (suc j) indices (r.mul_scalar num xj)
          (r.mul_scalar den (r.sub_scalar xj xi))
  ]

  -- `lagrangeAt`, given indices[pos].
  lagrange_for : List ℕ → ℕ → ℕ → Result S
  unfolding lagrange_loop
  lagrange_for indices pos i = scalar_from_int r i >>= λ xi. scalar_from_int r 1 >>= λ one.
      lagrange_loop xi pos 0 indices one one >>= λ fraction.
      ok (r.mul_scalar fraction.0 (r.invert fraction.1))

  unfoldable pub lagrange_at : List ℕ → ℕ → Result S
  unfolding lagrange_for
  lagrange_at indices pos = elim (get_elem? indices pos) [
    | none ↦ err bad_position
    | some i ↦ lagrange_for indices pos i
  ]

  unfoldable pub lagrange_coefficient : List ℕ → ℕ → Result S
  unfolding check_indices lagrange_at
  lagrange_coefficient indices pos = check_indices indices >>= λ u. lagrange_at indices pos

  -- The loop of `LagrangeInterpolate` from position i on.
  unfoldable pub interpolate_from : List ℕ → ℕ → S → List S → Result S
  unfolding lagrange_at
  interpolate_from indices i secret [] = ok secret
  interpolate_from indices i secret (s ∷ shares) = lagrange_at indices i >>= λ lambda.
      interpolate_from indices (suc i) (r.add_scalar secret (r.mul_scalar lambda s)) shares

  unfoldable pub lagrange_interpolate : List S → List ℕ → Result S
  unfolding interpolate_from check_indices
  lagrange_interpolate shares indices = elim (length shares == 0) [
    | true ↦ err no_shares
    | false ↦ elim (length shares == length indices) [
      | false ↦ err share_count
      | true ↦ check_indices indices >>= λ u. interpolate_from indices 0 r.zero_scalar shares
    ]
  ]
