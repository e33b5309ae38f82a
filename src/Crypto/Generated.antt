-- ===== src/Crypto/Generated.antt =====
-- crypto/threshold/dkg.go: what a key generation among honest participants gives.
use otvoren_vot.Prelude.{
  ℕ, zero, suc, ◌+◌, ◌≤◌, ◌<◌, List, [], ◌∷◌, some, length, get_elem?, map, ◌≡◌, refl, sym, ap, ◌∙◌,
  arith,
}
use otvoren_vot.Crypto.Group.{Ristretto, ok}
use otvoren_vot.Crypto.Feldman.{max_uint32, commitments_of}
use otvoren_vot.Crypto.Dkg.{
  DealerParts, DkgParticipant, DkgResult, dealers_of, receive_from, receive_all, combine_from,
  add_public_keys, run_dkg,
}
use otvoren_vot.Crypto.Joint.{
  added, joint, AreDrawn, length-joint_some, polynomial-added, polynomial-joint, polynomial-zero,
}
use otvoren_vot.Crypto.Shares.{
  RingLaws, IntegerLaws, polynomial, values_from, check_threshold_lem, new_dealer_lem,
  verify_share-new_dealer,
}

module _ {S E : Type 0} (r : Ristretto S E) (laws : RingLaws r) (bound : ℕ)
    (integers : IntegerLaws r bound) where
  -- The dealers that participants with these coefficients make.
  abbrev made : ℕ → List (List S) → List (DealerParts S E)
  made parties [] = []
  made parties (coefficients ∷ rest) =
      record {
        commitments = commitments_of r coefficients;
        shares = values_from r laws bound integers coefficients parties 1;
      }
      ∷ made parties rest

  dealers_of_lem :
      (threshold parties : ℕ) (all : List (List S))
      → 1 ≤ threshold
      → threshold ≤ parties
      → parties ≤ max_uint32
      → parties ≤ bound
      → dealers_of r threshold parties all ≡ ok (made parties all)
  unfolding dealers_of
  dealers_of_lem threshold parties [] one enough few fits = refl
  dealers_of_lem threshold parties (coefficients ∷ rest) one enough few fits =
      rw (new_dealer_lem r laws bound integers threshold parties coefficients one enough few fits)
        (rw (dealers_of_lem threshold parties rest one enough few fits) refl)

  get_elem?-values_from :
      (coefficients : List S) (count n i : ℕ)
      → i < count
      → get_elem? (values_from r laws bound integers coefficients count n) i
        ≡ some (polynomial r (integers.scalar_of (i + n)) coefficients)
  get_elem?-values_from coefficients zero n i h = ground arith
  get_elem?-values_from coefficients (suc count) n zero h =
      ap (λ m. some (polynomial r (integers.scalar_of m) coefficients)) (omega arith)
  get_elem?-values_from coefficients (suc count) n (suc i) h =
      get_elem?-values_from coefficients count (suc n) i (omega arith)
      ∙ ap (λ m. some (polynomial r (integers.scalar_of m) coefficients)) (omega arith)

  -- The share at position i is the value at i + 1.
  get_elem?-shares :
      (coefficients : List S) (parties i : ℕ)
      → i < parties
      → get_elem? (values_from r laws bound integers coefficients parties 1) i
        ≡ some (polynomial r (integers.scalar_of (suc i)) coefficients)
  get_elem?-shares coefficients parties i h =
      get_elem?-values_from coefficients parties 1 i h
      ∙ ap (λ m. some (polynomial r (integers.scalar_of m) coefficients)) (omega arith)

  -- What the participant with this number receives.
  abbrev pub received : ℕ → List (List S) → List S
  received id all = map (polynomial r (integers.scalar_of id)) all

  -- What the participants from position i on receive.
  abbrev all_received : ℕ → ℕ → List (List S) → List (List S)
  all_received zero i all = []
  all_received (suc count) i all = received (suc i) all ∷ all_received count (suc i) all

  module _ (threshold parties : ℕ) (one : 1 ≤ threshold) (few : parties ≤ max_uint32)
      (fits : parties ≤ bound) where
    receive_from_lem :
        (i : ℕ) (all : List (List S))
        → i < parties
        → AreDrawn r threshold all
        → receive_from r threshold i (made parties all) ≡ ok (received (suc i) all)
    unfolding receive_from
    receive_from_lem i [] h drawn = refl
    receive_from_lem i (coefficients ∷ rest) h (whole, drawn) =
        rw (get_elem?-shares coefficients parties i h, receive_from)
          (rw
            (verify_share-new_dealer r laws bound integers threshold (suc i) coefficients one whole
              (omega arith) (omega arith) (omega arith) (omega arith))
            (rw (receive_from_lem i rest h drawn) refl))

    receive_all_lem :
        (count i : ℕ) (all : List (List S))
        → count + i ≤ parties
        → AreDrawn r threshold all
        → receive_all r threshold (made parties all) count i ≡ ok (all_received count i all)
    unfolding receive_all
    receive_all_lem zero i all h drawn = refl
    receive_all_lem (suc count) i all h drawn =
        rw (receive_from_lem i all (omega arith) drawn)
          (rw (receive_all_lem count (suc i) all (omega arith) drawn) refl)

  -- The participant with this number, its shares combined.
  abbrev pub combined_as : ℕ → List (List S) → S → DkgParticipant S E
  combined_as id all share = record {
    id = id;
    received_shares = received id all;
    combined_share = share;
    verification_key = r.scalar_base_mult share;
  }

  abbrev pub participant : ℕ → List (List S) → DkgParticipant S E
  participant id all = combined_as id all (polynomial r (integers.scalar_of id) (joint r [] all))

  get_elem?-combine_from :
      (all : List (List S)) (count n i : ℕ)
      → i < count
      → get_elem? (combine_from r n (all_received count n all)) i
        ≡ some (participant (suc (n + i)) all)
  unfolding combine_from
  get_elem?-combine_from all zero n i h = ground arith
  get_elem?-combine_from all (suc count) n zero h =
      ap (λ share. some (combined_as (suc n) all share))
        (polynomial-joint r laws (integers.scalar_of (suc n)) [] all)
      ∙ ap (λ m. some (participant (suc m) all)) (omega arith)
  get_elem?-combine_from all (suc count) n (suc i) h =
      get_elem?-combine_from all count (suc n) i (omega arith)
      ∙ ap (λ m. some (participant m all)) (omega arith)

  add_public_keys_lem :
      (threshold parties : ℕ) (acc : List S) (all : List (List S))
      → 1 ≤ threshold
      → AreDrawn r threshold all
      → add_public_keys r (r.scalar_base_mult (polynomial r r.zero_scalar acc)) (made parties all)
        ≡ ok (r.scalar_base_mult (polynomial r r.zero_scalar (joint r acc all)))
  unfolding add_public_keys commitments_of
  add_public_keys_lem threshold parties acc [] one drawn = refl
  add_public_keys_lem threshold parties acc ([] ∷ rest) one (whole, drawn) = ground arith
  add_public_keys_lem threshold parties acc ((a ∷ coefficients) ∷ rest) one (whole, drawn) =
      let sum : r.add (r.scalar_base_mult (polynomial r r.zero_scalar acc)) (r.scalar_base_mult a)
          ≡ r.scalar_base_mult (polynomial r r.zero_scalar (added r acc (a ∷ coefficients))) =
        sym (laws.base_add (polynomial r r.zero_scalar acc) a)
        ∙ ap r.scalar_base_mult (
            ap (r.add_scalar (polynomial r r.zero_scalar acc))
              (sym (polynomial-zero r laws a coefficients))
            ∙ sym (polynomial-added r laws r.zero_scalar acc (a ∷ coefficients))) in
      rw (sum)
        (add_public_keys_lem threshold parties (added r acc (a ∷ coefficients)) rest one drawn)

  -- Run by honest participants, the key generation succeeds. There is a polynomial with as many
  -- coefficients as the threshold, such that the election key is the multiple of its value at 0, and the
  -- participant at each position has its value at i + 1 as share and the multiple as verification key.
  pub run_dkg_lem :
      (threshold parties : ℕ) (all : List (List S))
      → 1 ≤ threshold
      → threshold ≤ parties
      → parties ≤ max_uint32
      → parties ≤ bound
      → length all ≡ parties
      → AreDrawn r threshold all
      → (result : DkgResult S E) × (f : List S) × (run_dkg r threshold parties all ≡ ok result)
        × (length f ≡ threshold)
        × (result.election_public_key ≡ r.scalar_base_mult (polynomial r r.zero_scalar f))
        × ((i : ℕ)
            → i < parties
            → (p : DkgParticipant S E) × (get_elem? result.participants i ≡ some p)
              × (p.id ≡ suc i)
              × (p.combined_share ≡ polynomial r (integers.scalar_of (suc i)) f)
              × (p.verification_key ≡ r.scalar_base_mult p.combined_share))
  unfolding run_dkg
  run_dkg_lem threshold parties all one enough few fits whole drawn = (
    record {
      election_public_key = r.scalar_base_mult (polynomial r r.zero_scalar (joint r [] all));
      participants = combine_from r 0 (all_received parties 0 all);
    },
    joint r [] all,
    rw (check_threshold_lem r laws bound integers threshold parties one enough few) (
        rw (dealers_of_lem threshold parties all one enough few fits) (
          rw (receive_all_lem threshold parties one few fits parties 0 all (omega arith) drawn) (
            rw (sym laws.base_zero)
              (rw (add_public_keys_lem threshold parties [] all one drawn) refl)))),
    length-joint_some r threshold all (omega arith) drawn,
    refl,
    λ i h. (
      participant (suc i) all,
      get_elem?-combine_from all parties 0 i h ∙ ap (λ m. some (participant m all)) (omega arith),
      refl,
      refl,
      refl,
    ),
  )
