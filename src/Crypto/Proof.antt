-- ===== src/Crypto/Proof.antt =====
-- crypto/proof/chaumpedersen.go. The prover's random scalar is an argument.
use otvoren_vot.Prelude.{true, false, List, [], ◌∷◌, ◌++◌, Bytes, ascii}
use otvoren_vot.Crypto.Group.{Ristretto, Result, ok, err, invalid_proof, fiat_shamir}

pub record ChaumPedersenProof (S E : Type 0) : Type 0 where
  pub u : E
  pub v : E
  pub z : S

abbrev pub cp_domain : Bytes
cp_domain = ascii "otvoren-vot.chaum-pedersen"

module _ {S E : Type 0} (r : Ristretto S E) where
  unfoldable pub cp_challenge : List Bytes → E → E → E → E → E → E → S
  cp_challenge context g h a b u v = fiat_shamir r cp_domain (
      context
      ++ r.element_bytes g
        ∷ r.element_bytes h
        ∷ r.element_bytes a
        ∷ r.element_bytes b
        ∷ r.element_bytes u
        ∷ r.element_bytes v
        ∷ [])

  unfoldable pub prove_chaum_pedersen : List Bytes → E → E → E → E → S → S → ChaumPedersenProof S E
  unfolding cp_challenge
  prove_chaum_pedersen context g h a b x k =
      let u = r.scalar_mult k g in
      let v = r.scalar_mult k h in
      let e = cp_challenge context g h a b u v in
      record { u = u; v = v; z = r.add_scalar (r.mul_scalar e x) k }

  unfoldable pub verify_chaum_pedersen :
      List Bytes → E → E → E → E → ChaumPedersenProof S E → Result (Unit {0})
  unfolding cp_challenge
  verify_chaum_pedersen context g h a b p =
      let e = cp_challenge context g h a b p.u p.v in
      elim (r.equal (r.scalar_mult p.z g) (r.add p.u (r.scalar_mult e a))) [
        | false ↦ err invalid_proof
        | true ↦ elim (r.equal (r.scalar_mult p.z h) (r.add p.v (r.scalar_mult e b))) [
          | false ↦ err invalid_proof
          | true ↦ ok tt
        ]
      ]
