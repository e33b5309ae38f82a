-- ===== src/Crypto/Tallied.antt =====
-- crypto/elgamal/ballot.go: the tally of the voters' ballots, and what it decrypts to.
use otvoren_vot.Prelude.{
  ℕ, suc, ◌≤◌, ◌<◌, Bool, List, [], ◌∷◌, Option, some, length, map, ◌≡◌, refl, sym, ap, ◌∙◌,
}
use otvoren_vot.Crypto.Group.{Ristretto, Result, ok}
use otvoren_vot.Crypto.Elgamal.{Ciphertext, decrypt, max_decrypt}
use otvoren_vot.Crypto.Logarithm.{GroupLaws, Multiples}
use otvoren_vot.Crypto.Homomorphic.{ScalarLaws}
use otvoren_vot.Crypto.Vectors.{
  Ballot, collect_from, party_at, candidate_at, entry_at, sum_column, sum_candidates, sum_ballots,
  tally_ballots,
}
use otvoren_vot.Crypto.Collected.{ok_inj, collect_from-all, collect_from-each}
use otvoren_vot.Crypto.Shaped.{
  Voter, IsEncoded, encoded-IsEncoded, check_first_lem, party_at_lem, candidate_at_lem,
}
use otvoren_vot.Crypto.Counted.{
  AreEncoded, count_of, votes_party, votes_candidate, check_shapes_lem, sum_column_lem,
}

module _ {S E : Type 0} (r : Ristretto S E) (group : GroupLaws r) (scalars : ScalarLaws r)
    (order : ℕ) (multiples : Multiples r order) (x : S) (parties candidates : ℕ) where
  -- The tally with these sums.
  abbrev summed : List (Ciphertext E) → List (List (Ciphertext E)) → Ballot S E
  summed cts rows = record {
    party_vector = cts;
    party_randomness = [];
    candidate_vectors = some rows;
    candidate_randomness = [];
    num_parties = parties;
    num_candidates = candidates;
  }

  sum_ballots_lem :
      (ballots : List (Option (Ballot S E))) (v : Voter S) (b : Ballot S E)
      (cts : List (Ciphertext E)) (rows : List (List (Ciphertext E)))
      → IsEncoded r (r.scalar_base_mult x) parties candidates v b
      → collect_from (λ i. sum_column r (party_at r i) ballots) parties 0 ≡ ok cts
      → collect_from
          (λ p. collect_from (λ c. sum_column r (candidate_at r p c) ballots) candidates 0)
          parties
          0
        ≡ ok rows
      → sum_ballots r ballots b ≡ ok (summed cts rows)
  unfolding sum_ballots sum_candidates
  sum_ballots_lem ballots v b cts rows (vector, vectors, made, made', same) h k =
      rw (sym same) (rw h (rw k refl))

  module _ (v : Voter S) (voters : List (Voter S)) (b : Ballot S E) (ballots : List (Ballot S E))
      (all : AreEncoded r group scalars order multiples x parties candidates
        (v ∷ voters)
        (b ∷ ballots))
      (small : length (v ∷ voters) ≤ max_decrypt) (bound : suc max_decrypt < order) where
    abbrev Counts : (Option (Ballot S E) → Option (Ciphertext E)) → (Voter S → Bool) → Type 0
    Counts at test =
        (sum : Ciphertext E) × (sum_column r at (map some (b ∷ ballots)) ≡ ok sum)
        × (decrypt r x sum ≡ some (count_of test (v ∷ voters)))

    party_Counts : (i : ℕ) → i < parties → Counts (party_at r i) (votes_party i)
    party_Counts i h =
        sum_column_lem r group scalars order multiples x parties candidates (party_at r i)
          (votes_party i) (λ w. w.randomness i)
          (party_at_lem r (r.scalar_base_mult x) parties candidates i h) v voters (b ∷ ballots) all
          small bound

    candidate_Counts :
        (p c : ℕ) → p < parties → c < candidates → Counts (candidate_at r p c) (votes_candidate p c)
    candidate_Counts p c h k =
        sum_column_lem r group scalars order multiples x parties candidates (candidate_at r p c)
          (votes_candidate p c) (λ w. w.candidate_randomness p c)
          (candidate_at_lem r (r.scalar_base_mult x) parties candidates p c h k) v voters
          (b ∷ ballots) all small bound

    Counts-decrypt :
        (at : Option (Ballot S E) → Option (Ciphertext E)) (test : Voter S → Bool)
        (ct : Ciphertext E)
        → Counts at test
        → sum_column r at (map some (b ∷ ballots)) ≡ ok ct
        → decrypt r x ct ≡ some (count_of test (v ∷ voters))
    Counts-decrypt at test ct (sum, added, gives) h =
        ap (decrypt r x) (ok_inj (sym h ∙ added)) ∙ gives

    -- The ballots of one voter or more, made by `EncodeBallotWithCandidates` for one public key, are
    -- tallied. The sum for a party decrypts to the number of voters who chose it, and the sum for a
    -- candidate of a party to the number of those who chose both, where the voters are within the bound
    -- of `Decrypt`.
    pub tally_ballots_lem :
        (result : Ballot S E) × (tally_ballots r (map some (b ∷ ballots)) ≡ ok result)
        × ((i : ℕ)
            → i < parties
            → (ct : Ciphertext E) × (party_at r i (some result) ≡ some ct)
              × (decrypt r x ct ≡ some (count_of (votes_party i) (v ∷ voters))))
        × ((p c : ℕ)
            → p < parties
            → c < candidates
            → (ct : Ciphertext E) × (candidate_at r p c (some result) ≡ some ct)
              × (decrypt r x ct ≡ some (count_of (votes_candidate p c) (v ∷ voters))))
    unfolding tally_ballots
    tally_ballots_lem =
        let sent = map some (b ∷ ballots) in
        let key = r.scalar_base_mult x in
        let first = encoded-IsEncoded r key parties candidates v b all.0 in
        let (cts, made) =
          collect_from-all (λ i. sum_column r (party_at r i) sent) parties
            (λ i h. let (sum, added, gives) = party_Counts i h in (sum, added)) in
        let row : ℕ → Result (List (Ciphertext E)) =
          λ p. collect_from (λ c. sum_column r (candidate_at r p c) sent) candidates 0 in
        let (rows, made') = collect_from-all row parties (λ p h.
          collect_from-all (λ c. sum_column r (candidate_at r p c) sent) candidates
            (λ c k. let (sum, added, gives) = candidate_Counts p c h k in (sum, added))) in
        (
          summed cts rows,
          rw (check_first_lem r key parties candidates v b first) (
              rw
                (check_shapes_lem r group scalars order multiples x parties candidates v b
                  (v ∷ voters) (b ∷ ballots) all.0 all)
                (sum_ballots_lem sent v b cts rows first made made')),
          λ i h.
              let (ct, at, added) =
                (collect_from-each (λ i. sum_column r (party_at r i) sent) parties cts made).1 i
                  h in
              (ct, at, Counts-decrypt (party_at r i) (votes_party i) ct (party_Counts i h) added),
          λ p c h k.
              let (vector, here, collected) = (collect_from-each row parties rows made').1 p h in
              let (ct, at, added) =
                (collect_from-each (λ c. sum_column r (candidate_at r p c) sent) candidates vector
                    collected).1
                  c k in
              (
                ct,
                ap (entry_at r c) here ∙ at,
                Counts-decrypt (candidate_at r p c) (votes_candidate p c) ct
                    (candidate_Counts p c h k) added,
              ),
        )
