-- ===== src/Crypto/Shares.antt =====
-- crypto/threshold/feldman.go: the shares that an honest dealer makes are accepted.
use otvoren_vot.Prelude.{
  ℕ, zero, suc, ◌+◌, ◌≤◌, true, false, not, ◌||◌, List, [], ◌∷◌, length, ltb, ◌==◌, ◌≡◌, refl, sym,
  ap, ◌∙◌, arith,
}
use otvoren_vot.Crypto.Group.{Ristretto, ok, ◌>>=◌, scalar_from_int}
use otvoren_vot.Crypto.Feldman.{
  max_uint32, check_index, check_threshold, horner, reverse_onto, evaluate_polynomial, shares_from,
  commitments_of, new_dealer, powers_from, share_matches, verify_share,
}

-- The scalars form a commutative ring, and ScalarBaseMult is additive and turns a product into a
-- multiple. MultiScalarMult is the sum of the multiples.
pub record RingLaws {S E : Type 0} (r : Ristretto S E) : Type 0 where
  pub add_comm : (a b : S) → r.add_scalar a b ≡ r.add_scalar b a
  pub add_assoc :
      (a b c : S) → r.add_scalar (r.add_scalar a b) c ≡ r.add_scalar a (r.add_scalar b c)
  pub zero_add : (a : S) → r.add_scalar r.zero_scalar a ≡ a
  pub mul_comm : (a b : S) → r.mul_scalar a b ≡ r.mul_scalar b a
  pub mul_assoc :
      (a b c : S) → r.mul_scalar (r.mul_scalar a b) c ≡ r.mul_scalar a (r.mul_scalar b c)
  pub mul_add :
      (a b c : S)
      → r.mul_scalar a (r.add_scalar b c) ≡ r.add_scalar (r.mul_scalar a b) (r.mul_scalar a c)
  pub mul_zero : (a : S) → r.mul_scalar a r.zero_scalar ≡ r.zero_scalar
  pub base_zero : r.scalar_base_mult r.zero_scalar ≡ r.identity
  pub base_add :
      (a b : S)
      → r.scalar_base_mult (r.add_scalar a b) ≡ r.add (r.scalar_base_mult a) (r.scalar_base_mult b)
  pub mult_base :
      (a b : S) → r.scalar_mult a (r.scalar_base_mult b) ≡ r.scalar_base_mult (r.mul_scalar a b)
  pub multi_nil : r.multi_scalar_mult [] [] ≡ r.identity
  pub multi_cons :
      (a : S) (scalars : List S) (e : E) (elements : List E)
      → r.multi_scalar_mult (a ∷ scalars) (e ∷ elements)
        ≡ r.add (r.scalar_mult a e) (r.multi_scalar_mult scalars elements)
  pub equal_refl : (e : E) → r.equal e e ≡ true

-- The numbers up to a bound are scalars, and 1 is the unit.
pub record IntegerLaws {S E : Type 0} (r : Ristretto S E) (bound : ℕ) : Type 0 where
  pub scalar_of : ℕ → S
  pub from_int : (n : ℕ) → n ≤ bound → scalar_from_int r n ≡ ok (scalar_of n)
  pub one_mul : (a : S) → r.mul_scalar (scalar_of 1) a ≡ a

module _ {S E : Type 0} (r : Ristretto S E) where
  -- The value of a polynomial, from the coefficient of degree 0 on.
  abbrev pub polynomial : S → List S → S
  polynomial x [] = r.zero_scalar
  polynomial x (a ∷ coefficients) = r.add_scalar (r.mul_scalar (polynomial x coefficients) x) a

  horner-reverse_onto :
      (x : S) (coefficients acc : List S)
      → horner r x r.zero_scalar (reverse_onto r coefficients acc)
        ≡ horner r x (polynomial x coefficients) acc
  unfolding horner reverse_onto
  horner-reverse_onto x [] acc = refl
  horner-reverse_onto x (a ∷ coefficients) acc = horner-reverse_onto x coefficients (a ∷ acc)

module _ {S E : Type 0} (r : Ristretto S E) (laws : RingLaws r) (bound : ℕ)
    (integers : IntegerLaws r bound) where
  pub evaluate_polynomial_lem :
      (coefficients : List S) (i : ℕ)
      → i ≤ bound
      → evaluate_polynomial r coefficients i ≡ ok (polynomial r (integers.scalar_of i) coefficients)
  unfolding evaluate_polynomial horner
  evaluate_polynomial_lem coefficients i h =
      ap (λ s. s >>= λ x. ok (horner r x r.zero_scalar (reverse_onto r coefficients [])))
        (integers.from_int i h)
      ∙ ap ok (horner-reverse_onto r (integers.scalar_of i) coefficients [])

  -- The values at i, i+1, …
  abbrev pub values_from : List S → ℕ → ℕ → List S
  values_from coefficients zero i = []
  values_from coefficients (suc count) i =
      polynomial r (integers.scalar_of i) coefficients ∷ values_from coefficients count (suc i)

  shares_from_lem :
      (coefficients : List S) (count i : ℕ)
      → count + i ≤ suc bound
      → shares_from r coefficients count i ≡ ok (values_from coefficients count i)
  unfolding shares_from
  shares_from_lem coefficients zero i h = refl
  shares_from_lem coefficients (suc count) i h =
      rw (evaluate_polynomial_lem coefficients i (omega arith))
        (rw (shares_from_lem coefficients count (suc i) (omega arith)) refl)

  pub check_threshold_lem :
      (threshold parties : ℕ)
      → 1 ≤ threshold
      → threshold ≤ parties
      → parties ≤ max_uint32
      → check_threshold threshold parties ≡ ok tt
  unfolding check_threshold check_index
  check_threshold_lem threshold parties one enough few = ground arith

  check_index_lem : (i : ℕ) → 1 ≤ i → i ≤ max_uint32 → check_index i ≡ ok tt
  unfolding check_index
  check_index_lem i one few = ground arith

  length-commitments_of :
      (coefficients : List S) → length (commitments_of r coefficients) ≡ length coefficients
  unfolding commitments_of
  length-commitments_of [] = refl
  length-commitments_of (a ∷ coefficients) = ap suc (length-commitments_of coefficients)

  -- An honest dealer's commitments and shares.
  pub new_dealer_lem :
      (threshold parties : ℕ) (coefficients : List S)
      → 1 ≤ threshold
      → threshold ≤ parties
      → parties ≤ max_uint32
      → parties ≤ bound
      → new_dealer r threshold parties coefficients
        ≡ ok (commitments_of r coefficients, values_from coefficients parties 1)
  unfolding new_dealer
  new_dealer_lem threshold parties coefficients one enough few fits =
      rw (check_threshold_lem threshold parties one enough few)
        (rw (shares_from_lem coefficients parties 1 (omega arith)) refl)

  distributed :
      (x p a v : S)
      → r.add_scalar (r.mul_scalar p a) (r.mul_scalar (r.mul_scalar p x) v)
        ≡ r.mul_scalar p (r.add_scalar (r.mul_scalar v x) a)
  distributed x p a v = cc (
    laws.mul_add p (r.mul_scalar v x) a,
    laws.add_comm (r.mul_scalar p a) (r.mul_scalar (r.mul_scalar p x) v),
    laws.mul_assoc p x v,
    laws.mul_comm x v,
  )

  multi_scalar_mult-powers_from :
      (x p : S) (coefficients : List S)
      → r.multi_scalar_mult
          (powers_from r x p (commitments_of r coefficients))
          (commitments_of r coefficients)
        ≡ r.scalar_base_mult (r.mul_scalar p (polynomial r x coefficients))
  unfolding powers_from commitments_of
  multi_scalar_mult-powers_from x p [] =
      laws.multi_nil ∙ sym (ap r.scalar_base_mult (laws.mul_zero p) ∙ laws.base_zero)
  multi_scalar_mult-powers_from x p (a ∷ coefficients) =
      laws.multi_cons p (powers_from r x (r.mul_scalar p x) (commitments_of r coefficients))
        (r.scalar_base_mult a) (commitments_of r coefficients)
      ∙ rw (laws.mult_base p a) (
          rw (multi_scalar_mult-powers_from x (r.mul_scalar p x) coefficients) (
            sym (
              laws.base_add (r.mul_scalar p a)
                (r.mul_scalar (r.mul_scalar p x) (polynomial r x coefficients)))
            ∙ ap r.scalar_base_mult (distributed x p a (polynomial r x coefficients))))

  share_matches_lem :
      (x : S) (coefficients : List S)
      → share_matches r
          (polynomial r x coefficients)
          (ok x)
          (ok (integers.scalar_of 1))
          (commitments_of r coefficients)
        ≡ true
  unfolding share_matches
  share_matches_lem x coefficients =
      rw (multi_scalar_mult-powers_from x (integers.scalar_of 1) coefficients, share_matches)
        (rw (integers.one_mul (polynomial r x coefficients)) (laws.equal_refl _))

  -- Whoever checks the value of the dealer's polynomial at i against the commitments accepts it.
  pub verify_share-new_dealer :
      (threshold i : ℕ) (coefficients : List S)
      → 1 ≤ threshold
      → length coefficients ≡ threshold
      → 1 ≤ i
      → i ≤ max_uint32
      → i ≤ bound
      → 1 ≤ bound
      → verify_share r
          (polynomial r (integers.scalar_of i) coefficients)
          i
          threshold
          (commitments_of r coefficients)
        ≡ true
  unfolding verify_share
  verify_share-new_dealer threshold i coefficients one whole first few fits unit =
      let guard : (ltb threshold 1 || not (length (commitments_of r coefficients) == threshold))
          ≡ false =
        ground (arith, length-commitments_of coefficients) in
      rw (guard, verify_share)
        (rw (check_index_lem i first few) (
          rw (integers.from_int i fits) (
            rw (integers.from_int 1 unit) (share_matches_lem (integers.scalar_of i) coefficients))))
