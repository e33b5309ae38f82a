-- ===== src/Crypto/Ballot.antt =====
-- crypto/proof/context.go, binary.go, sum.go and candidate.go: the proofs of a ballot. The prover's random scalars are
-- arguments. Pointers are never nil in the program, so the nil checks have no counterpart.
use otvoren_vot.Prelude.{
  ℕ, Bool, true, false, List, [], ◌∷◌, Option, none, some, Bytes, length, ◌==◌, ltb, ascii, u32be,
}
use otvoren_vot.Crypto.Group.{
  Ristretto, Result, ok, err, ◌>>=◌, malformed, invalid_proof, fiat_shamir,
}
use otvoren_vot.Crypto.Elgamal.{Ciphertext, homomorphic_add}

pub record Context : Type 0 where
  pub election_id : Bytes
  pub ballot_id : Bytes
  -- Below 2^32.
  pub index : ℕ

pub record BinaryProof (S E : Type 0) : Type 0 where
  pub a0 : E
  pub a1 : E
  pub b0 : E
  pub b1 : E
  pub e0 : S
  pub e1 : S
  pub z0 : S
  pub z1 : S

pub record SumOneProof (S E : Type 0) : Type 0 where
  pub a : E
  pub b : E
  pub z : S

abbrev pub binary_domain : Bytes
binary_domain = ascii "otvoren-vot.ballot-binary-proof"

abbrev pub sum_domain : Bytes
sum_domain = ascii "otvoren-vot.ballot-sum-proof"

abbrev pub candidate_sum_domain : Bytes
candidate_sum_domain = ascii "otvoren-vot.candidate-sum-01-proof"

abbrev pub consistency_domain : Bytes
consistency_domain = ascii "otvoren-vot.candidate-consistency-proof"

-- `Context.validate`
unfoldable pub validate : Context → Result (Unit {0})
validate ctx = elim (length ctx.election_id == 0) [
  | true ↦ err malformed
  | false ↦ elim (length ctx.ballot_id == 0) [ true ↦ err malformed | false ↦ ok tt ]
]

module _ {S E : Type 0} (r : Ristretto S E) where
  unfoldable pub ballot_challenge : Bytes → Context → List Bytes → S
  ballot_challenge domain ctx statement =
      fiat_shamir r domain (ctx.election_id ∷ ctx.ballot_id ∷ u32be ctx.index ∷ statement)

  unfoldable pub check_public_key : E → Result (Unit {0})
  check_public_key pk = elim (r.equal pk r.identity) [ true ↦ err malformed | false ↦ ok tt ]

  unfoldable pub check_binary_statement : Context → E → Result (Unit {0})
  unfolding validate check_public_key
  check_binary_statement ctx pk = validate ctx >>= λ u. check_public_key pk

  unfoldable pub binary_challenge : Bytes → Context → E → Ciphertext E → E → E → E → E → S
  unfolding ballot_challenge
  binary_challenge domain ctx pk ct a0 b0 a1 b1 = ballot_challenge domain ctx (
      r.element_bytes pk
      ∷ r.element_bytes ct.c1
      ∷ r.element_bytes ct.c2
      ∷ r.element_bytes a0
      ∷ r.element_bytes b0
      ∷ r.element_bytes a1
      ∷ r.element_bytes b1
      ∷ [])

  -- `proveBinaryReal0`: branch 1 is simulated with the challenge e1 and the response z1.
  unfoldable pub prove_binary_real0 :
      Bytes → Context → E → Ciphertext E → S → S → S → S → BinaryProof S E
  unfolding binary_challenge
  prove_binary_real0 domain ctx h ct x k e1 z1 =
      let a0 = r.scalar_base_mult k in
      let b0 = r.scalar_mult k h in
      let a1 = r.subtract (r.scalar_base_mult z1) (r.scalar_mult e1 ct.c1) in
      let b1 = r.subtract (r.scalar_mult z1 h) (r.scalar_mult e1 (r.subtract ct.c2 r.generator)) in
      let e0 = r.sub_scalar (binary_challenge domain ctx h ct a0 b0 a1 b1) e1 in
      record {
        a0 = a0;
        a1 = a1;
        b0 = b0;
        b1 = b1;
        e0 = e0;
        e1 = e1;
        z0 = r.add_scalar (r.mul_scalar e0 x) k;
        z1 = z1;
      }

  -- `proveBinaryReal1`: branch 0 is simulated with the challenge e0 and the response z0.
  unfoldable pub prove_binary_real1 :
      Bytes → Context → E → Ciphertext E → S → S → S → S → BinaryProof S E
  unfolding binary_challenge
  prove_binary_real1 domain ctx h ct x k e0 z0 =
      let a0 = r.subtract (r.scalar_base_mult z0) (r.scalar_mult e0 ct.c1) in
      let b0 = r.subtract (r.scalar_mult z0 h) (r.scalar_mult e0 ct.c2) in
      let a1 = r.scalar_base_mult k in
      let b1 = r.scalar_mult k h in
      let e1 = r.sub_scalar (binary_challenge domain ctx h ct a0 b0 a1 b1) e0 in
      record {
        a0 = a0;
        a1 = a1;
        b0 = b0;
        b1 = b1;
        e0 = e0;
        e1 = e1;
        z0 = z0;
        z1 = r.add_scalar (r.mul_scalar e1 x) k;
      }

  -- `proveBinaryWithDomain`, with the random scalars k, e and z of the branch.
  unfoldable pub prove_binary_with_domain :
      Bytes → Context → E → Ciphertext E → ℕ → S → S → S → S → Result (BinaryProof S E)
  unfolding check_binary_statement prove_binary_real0 prove_binary_real1
  prove_binary_with_domain domain ctx pk ct m x k e z = check_binary_statement ctx pk >>= λ u.
      elim (ltb 1 m) [
        | true ↦ err malformed
        | false ↦ elim (m == 0) [
          | true ↦ ok (prove_binary_real0 domain ctx pk ct x k e z)
          | false ↦ ok (prove_binary_real1 domain ctx pk ct x k e z)
        ]
      ]

  -- One of the equations: lhs == a + e*c.
  unfoldable pub holds : E → E → S → E → Bool
  holds lhs a e c = r.equal lhs (r.add a (r.scalar_mult e c))

  -- The checks of `verifyBinaryWithDomain` after those of the statement.
  unfoldable pub verify_equations :
      Bytes → Context → E → Ciphertext E → BinaryProof S E → Result (Unit {0})
  unfolding binary_challenge holds
  verify_equations domain ctx pk ct p =
      elim (r.scalar_equal (r.add_scalar p.e0 p.e1)
        (binary_challenge domain ctx pk ct p.a0 p.b0 p.a1 p.b1)) [
          | false ↦ err invalid_proof
          | true ↦ elim (holds (r.scalar_base_mult p.z0) p.a0 p.e0 ct.c1) [
            | false ↦ err invalid_proof
            | true ↦ elim (holds (r.scalar_mult p.z0 pk) p.b0 p.e0 ct.c2) [
              | false ↦ err invalid_proof
              | true ↦ elim (holds (r.scalar_base_mult p.z1) p.a1 p.e1 ct.c1) [
                | false ↦ err invalid_proof
                | true ↦
                    elim (holds (r.scalar_mult p.z1 pk) p.b1 p.e1 (r.subtract ct.c2 r.generator)) [
                      | false ↦ err invalid_proof
                      | true ↦ ok tt
                    ]
              ]
            ]
          ]
        ]

  unfoldable pub verify_binary_with_domain :
      Bytes → Context → E → Ciphertext E → BinaryProof S E → Result (Unit {0})
  unfolding check_binary_statement verify_equations
  verify_binary_with_domain domain ctx pk ct p =
      check_binary_statement ctx pk >>= λ u. verify_equations domain ctx pk ct p

  unfoldable pub sum_challenge : Context → E → Ciphertext E → E → E → S
  unfolding ballot_challenge
  sum_challenge ctx pk sum a b = ballot_challenge sum_domain ctx (
      r.element_bytes pk
      ∷ r.element_bytes sum.c1
      ∷ r.element_bytes sum.c2
      ∷ r.element_bytes a
      ∷ r.element_bytes b
      ∷ [])

  unfoldable pub prove_sum : Context → E → Option (Ciphertext E) → S → S → Result (SumOneProof S E)
  unfolding sum_challenge
  prove_sum ctx pk none x k = err malformed
  prove_sum ctx pk (some sum) x k =
      let a = r.scalar_base_mult k in
      let b = r.scalar_mult k pk in
      let e = sum_challenge ctx pk sum a b in
      ok (record { a = a; b = b; z = r.add_scalar (r.mul_scalar e x) k })

  -- `ProveSumOne`, with its random scalar k. An empty vector has no sum and is refused.
  unfoldable pub prove_sum_one :
      Context → E → List (Ciphertext E) → S → S → Result (SumOneProof S E)
  unfolding check_binary_statement prove_sum
  prove_sum_one ctx pk cts x k =
      check_binary_statement ctx pk >>= λ u. prove_sum ctx pk (homomorphic_add r cts) x k

  unfoldable pub verify_sum :
      Context → E → Option (Ciphertext E) → SumOneProof S E → Result (Unit {0})
  unfolding sum_challenge holds
  verify_sum ctx pk none p = err malformed
  verify_sum ctx pk (some sum) p =
      let e = sum_challenge ctx pk sum p.a p.b in
      elim (holds (r.scalar_base_mult p.z) p.a e sum.c1) [
        | false ↦ err invalid_proof
        | true ↦ elim (holds (r.scalar_mult p.z pk) p.b e (r.subtract sum.c2 r.generator)) [
          | false ↦ err invalid_proof
          | true ↦ ok tt
        ]
      ]

  unfoldable pub verify_sum_one :
      Context → E → List (Ciphertext E) → SumOneProof S E → Result (Unit {0})
  unfolding check_binary_statement verify_sum
  verify_sum_one ctx pk cts p =
      check_binary_statement ctx pk >>= λ u. verify_sum ctx pk (homomorphic_add r cts) p

  unfoldable pub homomorphic_subtract : Ciphertext E → Ciphertext E → Ciphertext E
  homomorphic_subtract a b = record { c1 = r.subtract a.c1 b.c1; c2 = r.subtract a.c2 b.c2 }

  -- `ProveConsistency`, with its random scalars. The statement is checked once more by the proof of the
  -- difference, with the same result.
  unfoldable pub prove_consistency :
      Context → E → Ciphertext E → Ciphertext E → ℕ → S → S → S → S → Result (BinaryProof S E)
  unfolding prove_binary_with_domain homomorphic_subtract
  prove_consistency ctx pk party sum diff x k e z =
      prove_binary_with_domain consistency_domain ctx pk (homomorphic_subtract party sum) diff x k e
        z

  unfoldable pub verify_consistency :
      Context → E → Ciphertext E → Ciphertext E → BinaryProof S E → Result (Unit {0})
  unfolding verify_binary_with_domain homomorphic_subtract
  verify_consistency ctx pk party sum p =
      verify_binary_with_domain consistency_domain ctx pk (homomorphic_subtract party sum) p
