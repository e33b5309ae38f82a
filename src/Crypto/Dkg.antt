-- ===== src/Crypto/Dkg.antt =====
-- crypto/threshold/dkg.go. The coefficients that each participant draws are an argument.
use otvoren_vot.Prelude.{ℕ, zero, suc, true, false, List, [], ◌∷◌, none, some, get_elem?}
use otvoren_vot.Crypto.Group.{
  Ristretto, Result, ok, err, ◌>>=◌, bad_position, invalid_share, sum_scalars_from,
}
use otvoren_vot.Crypto.Feldman.{check_threshold, new_dealer, verify_share}

-- A participant's dealer: its commitments and shares.
pub record DealerParts (S E : Type 0) : Type 0 where
  pub commitments : List E
  pub shares : List S

pub record DkgParticipant (S E : Type 0) : Type 0 where
  pub id : ℕ
  pub received_shares : List S
  pub combined_share : S
  pub verification_key : E

pub record DkgResult (S E : Type 0) : Type 0 where
  pub election_public_key : E
  pub participants : List (DkgParticipant S E)

module _ {S E : Type 0} (r : Ristretto S E) where
  -- Round 1: one dealer for each list of coefficients.
  unfoldable pub dealers_of : ℕ → ℕ → List (List S) → Result (List (DealerParts S E))
  dealers_of threshold parties [] = ok []
  dealers_of threshold parties (coefficients ∷ rest) =
      new_dealer r threshold parties coefficients >>= λ made.
      dealers_of threshold parties rest >>= λ dealers.
      ok (record { commitments = made.0; shares = made.1 } ∷ dealers)

  -- The shares that the participant at position i gets from the dealers. An index out of range, where
  -- the code would panic, is an error.
  unfoldable pub receive_from : ℕ → ℕ → List (DealerParts S E) → Result (List S)
  receive_from threshold i [] = ok []
  receive_from threshold i (dealer ∷ dealers) = elim (get_elem? dealer.shares i) [
    | none ↦ err bad_position
    | some share ↦ elim (verify_share r share (suc i) threshold dealer.commitments) [
      | false ↦ err invalid_share
      | true ↦ receive_from threshold i dealers >>= λ shares. ok (share ∷ shares)
    ]
  ]

  -- Round 2 from participant i on, `count` of them.
  unfoldable pub receive_all : ℕ → List (DealerParts S E) → ℕ → ℕ → Result (List (List S))
  unfolding receive_from
  receive_all threshold dealers zero i = ok []
  receive_all threshold dealers (suc count) i = receive_from threshold i dealers >>= λ shares.
      receive_all threshold dealers count (suc i) >>= λ rest. ok (shares ∷ rest)

  -- Round 3 from participant i on.
  unfoldable pub combine_from : ℕ → List (List S) → List (DkgParticipant S E)
  combine_from i [] = []
  combine_from i (shares ∷ rest) =
      let combined = sum_scalars_from r r.zero_scalar shares in
      record {
        id = suc i;
        received_shares = shares;
        combined_share = combined;
        verification_key = r.scalar_base_mult combined;
      }
      ∷ combine_from (suc i) rest

  -- The sum of the first commitments; a dealer without any, where the code would panic, is an error.
  unfoldable pub add_public_keys : E → List (DealerParts S E) → Result E
  add_public_keys sum [] = ok sum
  add_public_keys sum (dealer ∷ dealers) = elim dealer.commitments [
    | [] ↦ err bad_position
    | first ∷ rest ↦ add_public_keys (r.add sum first) dealers
  ]

  -- `RunDKG`, with the coefficients of each participant's polynomial: one list for each of the parties.
  unfoldable pub run_dkg : ℕ → ℕ → List (List S) → Result (DkgResult S E)
  unfolding dealers_of receive_all combine_from add_public_keys
  run_dkg threshold parties coefficients = check_threshold threshold parties >>= λ u.
      dealers_of threshold parties coefficients >>= λ dealers.
      receive_all threshold dealers parties 0 >>= λ received.
      add_public_keys r.identity dealers >>= λ key.
      ok (record { election_public_key = key; participants = combine_from 0 received })
