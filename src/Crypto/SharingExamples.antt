-- ===== src/Crypto/SharingExamples.antt =====
-- The theorems on key generation and on ballots at concrete inputs.
use mathlib.Core.Int.{ℤ, ◌+ℤ◌}
use otvoren_vot.Prelude.{
  ℕ, suc, ◌<◌, List, [], ◌∷◌, none, some, length, get_elem?, map, bytes_eq, u64le, repeat, ◌≡◌, ◌≢◌,
  refl, arith,
}
use otvoren_vot.Crypto.Group.{ok, err, bad_position}
use otvoren_vot.Crypto.Dkg.{DkgParticipant, DkgResult, run_dkg}
use otvoren_vot.Crypto.Shares.{polynomial}
use otvoren_vot.Crypto.Generated.{run_dkg_lem}
use otvoren_vot.Crypto.Elgamal.{Ciphertext, encrypt_with_randomness, decrypt}
use otvoren_vot.Crypto.Vectors.{
  Ballot, encode_ballot_with_candidates, party_at, candidate_at, tally_ballots,
}
use otvoren_vot.Crypto.Shaped.{Voter, assembled}
use otvoren_vot.Crypto.Counted.{AreEncoded, count_of, votes_party, votes_candidate}
use otvoren_vot.Crypto.InRange.{tally_ballots-StaysIn}
use otvoren_vot.Crypto.Tallied.{tally_ballots_lem}
use otvoren_vot.Crypto.Integers.{
  integers, integers-GroupLaws, integers-ScalarLaws, integers-Multiples, act, one,
}
use otvoren_vot.Crypto.Numbers.{numbers, numbers-RingLaws, numbers-IntegerLaws}

-- The coefficients of three participants.
abbrev drawn : List (List ℕ)
drawn = (5 ∷ 1 ∷ []) ∷ (2 ∷ 3 ∷ []) ∷ (7 ∷ 4 ∷ []) ∷ []

run_dkg_lem_example :
    (result : DkgResult ℕ ℕ) × (f : List ℕ) × (run_dkg numbers 2 3 drawn ≡ ok result)
    × (length f ≡ 2)
    × (result.election_public_key ≡ polynomial numbers 0 f)
    × ((i : ℕ)
        → i < 3
        → (p : DkgParticipant ℕ ℕ) × (get_elem? result.participants i ≡ some p)
          × (p.id ≡ suc i)
          × (p.combined_share ≡ polynomial numbers (suc i) f)
          × (p.verification_key ≡ p.combined_share))
run_dkg_lem_example =
    run_dkg_lem numbers numbers-RingLaws 255 numbers-IntegerLaws 2 3 drawn (omega arith)
      (omega arith) (omega arith) (omega arith) refl (refl, (refl, (refl, tt)))

-- A voter for candidate 1 of party 0, and one who votes for nobody.
abbrev chooser : Voter ℕ
chooser = record {
  party = some 0;
  candidate = some 1;
  randomness = λ i. 2;
  candidate_randomness = λ p c. 4;
}

abbrev abstainer : Voter ℕ
abstainer = record {
  party = none;
  candidate = none;
  randomness = λ i. 5;
  candidate_randomness = λ p c. 1;
}

abbrev sealed_bit : ℕ → ℕ → Ciphertext ℤ
sealed_bit k m = record { c1 = act k one; c2 = act k (act 3 one) +ℤ act m one }

abbrev chosen_ballot : Ballot ℕ ℤ
chosen_ballot =
    assembled integers (act 3 one) 1 2 chooser (sealed_bit 2 1 ∷ [])
      ((sealed_bit 4 0 ∷ sealed_bit 4 1 ∷ []) ∷ [])

abbrev empty_ballot : Ballot ℕ ℤ
empty_ballot =
    assembled integers (act 3 one) 1 2 abstainer (sealed_bit 5 0 ∷ [])
      ((sealed_bit 1 0 ∷ sealed_bit 1 0 ∷ []) ∷ [])

ballots-AreEncoded :
    AreEncoded integers integers-GroupLaws integers-ScalarLaws 4_294_967_296 integers-Multiples 3 1
      2
      (chooser ∷ abstainer ∷ [])
      (chosen_ballot ∷ empty_ballot ∷ [])
unfolding encode_ballot_with_candidates encrypt_with_randomness u64le repeat bytes_eq
ballots-AreEncoded = (refl, (refl, tt))

tally_ballots_lem_example :
    (result : Ballot ℕ ℤ) × (tally_ballots integers (map some (chosen_ballot ∷ empty_ballot ∷ []))
      ≡ ok result)
    × ((i : ℕ)
        → i < 1
        → (ct : Ciphertext ℤ) × (party_at integers i (some result) ≡ some ct)
          × (decrypt integers 3 ct ≡ some (count_of (votes_party i) (chooser ∷ abstainer ∷ []))))
    × ((p c : ℕ)
        → p < 1
        → c < 2
        → (ct : Ciphertext ℤ) × (candidate_at integers p c (some result) ≡ some ct)
          × (decrypt integers 3 ct
              ≡ some (count_of (votes_candidate p c) (chooser ∷ abstainer ∷ []))))
tally_ballots_lem_example =
    tally_ballots_lem integers integers-GroupLaws integers-ScalarLaws 4_294_967_296
      integers-Multiples 3 1 2 chooser (abstainer ∷ []) chosen_ballot (empty_ballot ∷ [])
      ballots-AreEncoded (omega arith) (omega arith)

-- A ballot that says it has one party and has no ciphertext.
abbrev hollow_ballot : Ballot ℕ ℤ
hollow_ballot = assembled integers (act 3 one) 1 2 abstainer [] []

tally_ballots-StaysIn_example :
    tally_ballots integers (some chosen_ballot ∷ none ∷ some hollow_ballot ∷ []) ≢ err bad_position
tally_ballots-StaysIn_example =
    tally_ballots-StaysIn integers (some chosen_ballot ∷ none ∷ some hollow_ballot ∷ [])
