-- ===== src/Tally/Compute.antt =====
-- tally/ceremony/tally.go and tally/bbclient.go's pagination. JSON is a parameter: `parse_ballot` gives the
-- party vector of an encrypted ballot. The text of an error is not modelled: none is an error.
use otvoren_vot.Prelude.{
  ℕ, suc, ◌%◌, ◌^◌, true, false, List, [], ◌∷◌, ◌++◌, Option, none, some, Bytes, length, ◌==◌,
  get_elem?, lookup, nat_Eq, hex_decode,
}
use otvoren_vot.Crypto.Group.{Ristretto}
use otvoren_vot.Crypto.Elgamal.{Ciphertext, homomorphic_add, ciphertext_from_bytes, max_decrypt}
use otvoren_vot.Crypto.Threshold.{SlotContext, Partial, combine}
use otvoren_vot.Tally.State.{TallyResult, value_of, both}

pub record SerializedBallot : Type 0 where
  pub ballot_id : Bytes
  pub encrypted_ballot : Bytes

-- The loop of `FetchAllBallots`: `pages` are the answers of the board, each a page with the next
-- cursor or an error, the last of them the one where the loop ends.
unfoldable pub fetch_all_ballots :
    List SerializedBallot
    → List (Option (List SerializedBallot × Bytes))
    → Option (List SerializedBallot)
fetch_all_ballots acc [] = none
fetch_all_ballots acc (none ∷ pages) = none
fetch_all_ballots acc (some (page, cursor) ∷ pages) =
    let rest = fetch_all_ballots (acc ++ page) pages in
    elim (length cursor == 0) [ true ↦ some (acc ++ page) | false ↦ rest ]

module _ {S E : Type 0} (r : Ristretto S E) where
  unfoldable pub ciphertext_from_hex : Bytes → Option (Ciphertext E)
  ciphertext_from_hex text = both (hex_decode text) (λ b. value_of (ciphertext_from_bytes r b))

  add_to_slot : Option (Ciphertext E) → Ciphertext E → Option (Ciphertext E)
  add_to_slot none ct = some ct
  add_to_slot (some sum) ct = homomorphic_add r (sum ∷ ct ∷ [])

  -- The inner loop of `ComputeTally`; the vector and the sums have the same length.
  unfoldable pub add_vector :
      List (Option (Ciphertext E)) → List Bytes → Option (List (Option (Ciphertext E)))
  unfolding ciphertext_from_hex add_to_slot
  add_vector sums [] = some sums
  add_vector [] (text ∷ vector) = none
  add_vector (sum ∷ sums) (text ∷ vector) =
      both (ciphertext_from_hex text)
        (λ ct. both (add_vector sums vector) (λ rest. some (add_to_slot sum ct ∷ rest)))

  module _ (parse_ballot : Bytes → Option (List Bytes)) where
    -- The outer loop of `ComputeTally`.
    unfoldable pub add_ballots :
        ℕ
        → List (Option (Ciphertext E))
        → List SerializedBallot
        → Option (List (Option (Ciphertext E)))
    unfolding add_vector
    add_ballots parties sums [] = some sums
    add_ballots parties sums (b ∷ ballots) = both (parse_ballot b.encrypted_ballot) (λ vector.
        elim (length vector == parties) [
          | false ↦ none
          | true ↦ both (add_vector sums vector) (λ sums'. add_ballots parties sums' ballots)
        ])

    unfoldable pub empty_sums : List Bytes → List (Option (Ciphertext E))
    empty_sums [] = []
    empty_sums (x ∷ vector) = none ∷ empty_sums vector

    unfoldable pub compute_tally : List SerializedBallot → Option (TallyResult E)
    unfolding add_ballots empty_sums
    compute_tally [] = none
    compute_tally (first ∷ ballots) = both (parse_ballot first.encrypted_ballot) (λ vector.
        both (add_ballots (length vector) (empty_sums vector) (first ∷ ballots)) (λ sums.
          some (record {
            encrypted_sums = sums;
            num_ballots = length (first ∷ ballots);
            num_parties = length vector;
          })))

  -- partials[tidx][slot], or none where it is missing or nil.
  unfoldable pub stored_partial :
      List (ℕ × List (Option (Partial S E))) → ℕ → ℕ → Option (Partial S E)
  stored_partial partials trustee slot =
      both (lookup trustee partials) (λ tp. both (get_elem? tp slot) (λ p. p))

  -- The loop over the trustees of one slot.
  unfoldable pub slot_partials :
      List (ℕ × List (Option (Partial S E))) → ℕ → List ℕ → Option (List (Partial S E))
  unfolding stored_partial
  slot_partials partials slot [] = some []
  slot_partials partials slot (trustee ∷ trustees) =
      both (stored_partial partials trustee slot) (λ p. elim (p.trustee_index == trustee) [
        | false ↦ none
        | true ↦ both (slot_partials partials slot trustees) (λ rest. some (p ∷ rest))
      ])

  -- The loop over the slots, with the contexts and the sums of those left.
  unfoldable pub decrypt_slots :
      List (ℕ × List (Option (Partial S E)))
      → List ℕ
      → List (ℕ × E)
      → ℕ
      → ℕ
      → List SlotContext
      → List (Ciphertext E)
      → Option (List ℕ)
  unfolding slot_partials
  decrypt_slots partials trustees keys quorum slot [] sums = some []
  decrypt_slots partials trustees keys quorum slot (sc ∷ contexts) [] = some []
  decrypt_slots partials trustees keys quorum slot (sc ∷ contexts) (ct ∷ sums) =
      elim (sc.slot_index == slot % 2 ^ 32) [
        | false ↦ none
        | true ↦ both (slot_partials partials slot trustees) (λ ps.
            both (value_of (combine r sc ct ps keys quorum max_decrypt)) (λ m.
              both (decrypt_slots partials trustees keys quorum (suc slot) contexts sums)
                (λ results. some (m ∷ results))))
      ]

  unfoldable pub decrypt_tally :
      List (Ciphertext E)
      → List SlotContext
      → List (ℕ × List (Option (Partial S E)))
      → List ℕ
      → List (ℕ × E)
      → ℕ
      → Option (List ℕ)
  unfolding decrypt_slots
  decrypt_tally sums contexts partials trustees keys quorum =
      elim (length contexts == length sums) [
        | false ↦ none
        | true ↦ elim (length trustees == quorum) [
          | false ↦ none
          | true ↦ decrypt_slots partials trustees keys quorum 0 contexts sums
        ]
      ]
