-- ===== src/Crypto/Honest.antt =====
-- crypto/proof/binary.go and sum.go: the proofs of honest voters.
use otvoren_vot.Prelude.{
  ℕ, zero, suc, ◌≤◌, ◌≡◌, sym, ap, subst, ◌∙◌, true, List, some, Bytes, arith,
}
use otvoren_vot.Crypto.Group.{Ristretto, ok}
use otvoren_vot.Crypto.Elgamal.{Ciphertext, homomorphic_add}
use otvoren_vot.Crypto.Complete.{Laws}
use otvoren_vot.Crypto.Logarithm.{GroupLaws, times, cancel_right}
use otvoren_vot.Crypto.Ballot.{
  Context, BinaryProof, SumOneProof, check_binary_statement, binary_challenge, prove_binary_real0,
  prove_binary_real1, prove_binary_with_domain, holds, verify_equations, verify_binary_with_domain,
  sum_challenge, prove_sum, prove_sum_one, verify_sum, verify_sum_one,
}

-- Subtraction, of elements and of scalars, and equality of scalars.
pub record SubtractionLaws {S E : Type 0} (r : Ristretto S E) : Type 0 where
  pub subtract_negate : (a b : E) → r.subtract a b ≡ r.add a (r.negate b)
  pub mult_subtract :
      (x y : S) (e : E)
      → r.scalar_mult (r.sub_scalar x y) e ≡ r.subtract (r.scalar_mult x e) (r.scalar_mult y e)
  pub scalar_equal_refl : (s : S) → r.scalar_equal s s ≡ true
  pub minus_plus : (e f : S) → r.add_scalar (r.sub_scalar e f) f ≡ e
  pub plus_minus : (e f : S) → r.add_scalar f (r.sub_scalar e f) ≡ e

module _ {S E : Type 0} (r : Ristretto S E) (laws : Laws r) (group : GroupLaws r)
    (subtraction : SubtractionLaws r) where
  -- The ciphertext encrypts m with the randomness x.
  abbrev pub Opens : E → S → ℕ → Ciphertext E → Type 0
  Opens pk x m ct =
      (ct.c1 ≡ r.scalar_base_mult x) × (ct.c2 ≡ r.add (r.scalar_mult x pk) (times r m))

  -- The equation of the branch that is proved.
  real_base :
      (x k e : S) (c : E)
      → c ≡ r.scalar_base_mult x
      → holds r (r.scalar_base_mult (r.add_scalar (r.mul_scalar e x) k)) (r.scalar_base_mult k) e c
        ≡ true
  unfolding holds
  real_base x k e c h =
      rw
        (
          h,
          laws.base_mult (r.add_scalar (r.mul_scalar e x) k),
          laws.base_mult k,
          laws.base_mult x,
          laws.response e x k r.generator,
        )
        (laws.equal_refl _)

  real_key :
      (x k e : S) (pk c : E)
      → c ≡ r.scalar_mult x pk
      → holds r (r.scalar_mult (r.add_scalar (r.mul_scalar e x) k) pk) (r.scalar_mult k pk) e c
        ≡ true
  unfolding holds
  real_key x k e pk c h = rw (h, laws.response e x k pk) (laws.equal_refl _)

  pub minus_plus_element : (a b : E) → r.add (r.subtract a b) b ≡ a
  minus_plus_element a b =
      ap (λ d. r.add d b) (subtraction.subtract_negate a b)
      ∙ group.add_assoc a (r.negate b) b
      ∙ ap (r.add a) (group.add_comm (r.negate b) b ∙ group.add_negate b)
      ∙ group.add_identity a

  -- The equation of the branch that is simulated.
  simulated : (lhs c : E) (e : S) → holds r lhs (r.subtract lhs (r.scalar_mult e c)) e c ≡ true
  unfolding holds
  simulated lhs c e =
      subst (λ d. r.equal lhs d ≡ true) (sym (minus_plus_element lhs (r.scalar_mult e c)))
        (laws.equal_refl lhs)

  without_generator :
      (pk : E) (x : S) (ct : Ciphertext E)
      → Opens pk x 1 ct
      → r.subtract ct.c2 r.generator ≡ r.scalar_mult x pk
  unfolding times
  without_generator pk x ct (p, q) =
      subtraction.subtract_negate ct.c2 r.generator
      ∙ ap (λ c. r.add c (r.negate r.generator))
          (q
            ∙ ap (r.add (r.scalar_mult x pk))
                (group.add_comm r.identity r.generator ∙ group.add_identity r.generator))
      ∙ cancel_right r group (r.scalar_mult x pk) r.generator

  verify_equations_lem :
      (domain : Bytes) (ctx : Context) (pk : E) (ct : Ciphertext E) (p : BinaryProof S E)
      → r.add_scalar p.e0 p.e1 ≡ binary_challenge r domain ctx pk ct p.a0 p.b0 p.a1 p.b1
      → holds r (r.scalar_base_mult p.z0) p.a0 p.e0 ct.c1 ≡ true
      → holds r (r.scalar_mult p.z0 pk) p.b0 p.e0 ct.c2 ≡ true
      → holds r (r.scalar_base_mult p.z1) p.a1 p.e1 ct.c1 ≡ true
      → holds r (r.scalar_mult p.z1 pk) p.b1 p.e1 (r.subtract ct.c2 r.generator) ≡ true
      → verify_equations r domain ctx pk ct p ≡ ok tt
  unfolding verify_equations
  verify_equations_lem domain ctx pk ct p challenge g0 h0 g1 h1 =
      let e = binary_challenge r domain ctx pk ct p.a0 p.b0 p.a1 p.b1 in
      let sum : r.scalar_equal (r.add_scalar p.e0 p.e1) e ≡ true =
        subst (λ s. r.scalar_equal s e ≡ true) (sym challenge) (subtraction.scalar_equal_refl e) in
      rw (verify_equations, sum, g0, h0, g1, h1)

  real0_verifies :
      (domain : Bytes) (ctx : Context) (pk : E) (ct : Ciphertext E) (x k e z : S)
      → Opens pk x 0 ct
      → verify_equations r domain ctx pk ct (prove_binary_real0 r domain ctx pk ct x k e z) ≡ ok tt
  unfolding prove_binary_real0
  real0_verifies domain ctx pk ct x k e z (p, q) =
      let c2 : ct.c2 ≡ r.scalar_mult x pk =
        q ∙ unfold times in group.add_identity (r.scalar_mult x pk) in
      verify_equations_lem domain ctx pk ct (prove_binary_real0 r domain ctx pk ct x k e z)
        (subtraction.minus_plus _ e) (real_base x k _ ct.c1 p) (real_key x k _ pk ct.c2 c2)
        (simulated (r.scalar_base_mult z) ct.c1 e)
        (simulated (r.scalar_mult z pk) (r.subtract ct.c2 r.generator) e)

  real1_verifies :
      (domain : Bytes) (ctx : Context) (pk : E) (ct : Ciphertext E) (x k e z : S)
      → Opens pk x 1 ct
      → verify_equations r domain ctx pk ct (prove_binary_real1 r domain ctx pk ct x k e z) ≡ ok tt
  unfolding prove_binary_real1
  real1_verifies domain ctx pk ct x k e z opens =
      verify_equations_lem domain ctx pk ct (prove_binary_real1 r domain ctx pk ct x k e z)
        (subtraction.plus_minus _ e) (simulated (r.scalar_base_mult z) ct.c1 e)
        (simulated (r.scalar_mult z pk) ct.c2 e) (real_base x k _ ct.c1 opens.0)
        (real_key x k _ pk (r.subtract ct.c2 r.generator) (without_generator pk x ct opens))

  -- A proof that a ciphertext encrypts 0 or 1 is made and verifies, for every such ciphertext, every
  -- context and every choice of the prover's random scalars, where the context and the key pass the
  -- checks.
  pub verify_binary-prove_binary :
      (domain : Bytes) (ctx : Context) (pk : E) (ct : Ciphertext E) (m : ℕ) (x k e z : S)
      → check_binary_statement r ctx pk ≡ ok tt
      → m ≤ 1
      → Opens pk x m ct
      → (p : BinaryProof S E) × (prove_binary_with_domain r domain ctx pk ct m x k e z ≡ ok p)
        × (verify_binary_with_domain r domain ctx pk ct p ≡ ok tt)
  unfolding prove_binary_with_domain verify_binary_with_domain
  verify_binary-prove_binary domain ctx pk ct zero x k e z checked small opens = (
    prove_binary_real0 r domain ctx pk ct x k e z,
    rw (prove_binary_with_domain, checked),
    rw (verify_binary_with_domain, checked) (real0_verifies domain ctx pk ct x k e z opens),
  )
  verify_binary-prove_binary domain ctx pk ct (suc zero) x k e z checked small opens = (
    prove_binary_real1 r domain ctx pk ct x k e z,
    rw (prove_binary_with_domain, checked),
    rw (verify_binary_with_domain, checked) (real1_verifies domain ctx pk ct x k e z opens),
  )
  verify_binary-prove_binary domain ctx pk ct (suc (suc m)) x k e z checked small opens =
      absurd (omega arith)

  -- A proof that ciphertexts encrypt values with the sum 1 is made and verifies, where their sum
  -- encrypts 1 with the randomness given and the context and the key pass the checks.
  pub verify_sum_one-prove_sum_one :
      (ctx : Context) (pk : E) (cts : List (Ciphertext E)) (sum : Ciphertext E) (x k : S)
      → check_binary_statement r ctx pk ≡ ok tt
      → homomorphic_add r cts ≡ some sum
      → Opens pk x 1 sum
      → (p : SumOneProof S E) × (prove_sum_one r ctx pk cts x k ≡ ok p)
        × (verify_sum_one r ctx pk cts p ≡ ok tt)
  unfolding prove_sum_one verify_sum_one prove_sum verify_sum
  verify_sum_one-prove_sum_one ctx pk cts sum x k checked added opens =
      let e = sum_challenge r ctx pk sum (r.scalar_base_mult k) (r.scalar_mult k pk) in
      (
        record {
          a = r.scalar_base_mult k;
          b = r.scalar_mult k pk;
          z = r.add_scalar (r.mul_scalar e x) k;
        },
        rw (prove_sum_one, checked, added),
        rw (
          verify_sum_one,
          checked,
          added,
          verify_sum,
          real_base x k e sum.c1 opens.0,
          real_key x k e pk (r.subtract sum.c2 r.generator) (without_generator pk x sum opens),
        ),
      )
