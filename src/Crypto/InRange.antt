-- ===== src/Crypto/InRange.antt =====
-- crypto/elgamal/ballot.go: the checks of shapes keep every index of the tally in range.
use otvoren_vot.Prelude.{
  ℕ, ◌&&◌, List, [], ◌∷◌, Option, none, some, length, ◌==◌, ◌≡◌, ◌≢◌, refl, arith,
}
use otvoren_vot.Crypto.Group.{Ristretto, Result, ok, err, bad_position}
use otvoren_vot.Crypto.Elgamal.{Ciphertext}
use otvoren_vot.Crypto.Vectors.{
  Ballot, check_rows, check_grid, check_candidates, check_shape, check_shapes, check_first,
  party_at, candidate_at, sum_candidates, sum_ballots, tally_ballots,
}
use otvoren_vot.Crypto.Places.{
  StaysIn, bind-StaysIn, collect_from-StaysIn, guarded-StaysIn, party_Stands, candidate_Stands,
  sum_column-StaysIn,
}

module _ {S E : Type 0} (r : Ristretto S E) where
  check_rows-StaysIn :
      (candidates : ℕ) (rows : List (List (Ciphertext E))) → StaysIn (check_rows r candidates rows)
  unfolding check_rows
  check_rows-StaysIn candidates [] = λ e. cc
  check_rows-StaysIn candidates (row ∷ rows) =
      guarded-StaysIn (length row == candidates) (check_rows r candidates rows)
        (check_rows-StaysIn candidates rows)

  check_grid-StaysIn :
      (parties candidates : ℕ) (rows : List (List (Ciphertext E)))
      → StaysIn (check_grid r parties candidates rows)
  unfolding check_grid
  check_grid-StaysIn parties candidates rows =
      guarded-StaysIn (length rows == parties) (check_rows r candidates rows)
        (check_rows-StaysIn candidates rows)

  check_candidates-StaysIn :
      (ref b : Ballot S E) (o o' : Option (List (List (Ciphertext E))))
      → StaysIn (check_candidates r ref b o o')
  unfolding check_candidates
  check_candidates-StaysIn ref b none none = λ e. cc
  check_candidates-StaysIn ref b none (some rows) = λ e. cc
  check_candidates-StaysIn ref b (some reference) none = λ e. cc
  check_candidates-StaysIn ref b (some reference) (some rows) =
      guarded-StaysIn (b.num_candidates == ref.num_candidates)
        (check_grid r ref.num_parties ref.num_candidates rows)
        (check_grid-StaysIn ref.num_parties ref.num_candidates rows)

  check_shape-StaysIn : (ref : Ballot S E) (b : Option (Ballot S E)) → StaysIn (check_shape r ref b)
  unfolding check_shape
  check_shape-StaysIn ref none = λ e. cc
  check_shape-StaysIn ref (some b) =
      guarded-StaysIn (b.num_parties == ref.num_parties && length b.party_vector == ref.num_parties)
        (check_candidates r ref b ref.candidate_vectors b.candidate_vectors)
        (check_candidates-StaysIn ref b ref.candidate_vectors b.candidate_vectors)

  check_shapes-StaysIn :
      (ref : Ballot S E) (ballots : List (Option (Ballot S E)))
      → StaysIn (check_shapes r ref ballots)
  unfolding check_shapes
  check_shapes-StaysIn ref [] = λ e. cc
  check_shapes-StaysIn ref (b ∷ ballots) =
      bind-StaysIn (check_shape r ref b) _ (check_shape-StaysIn ref b)
        (λ u p. check_shapes-StaysIn ref ballots)

  -- The checks of the candidate vectors of the first ballot.
  abbrev first_candidates : Ballot S E → Option (List (List (Ciphertext E))) → Result (Unit {0})
  first_candidates first vectors = elim vectors [
    | none ↦ ok tt
    | some rows ↦ check_grid r first.num_parties first.num_candidates rows
  ]

  first_candidates-StaysIn :
      (first : Ballot S E) (vectors : Option (List (List (Ciphertext E))))
      → StaysIn (first_candidates first vectors)
  first_candidates-StaysIn first none = λ e. cc
  first_candidates-StaysIn first (some rows) =
      check_grid-StaysIn first.num_parties first.num_candidates rows

  check_first-StaysIn : (first : Ballot S E) → StaysIn (check_first r first)
  unfolding check_first
  check_first-StaysIn first =
      guarded-StaysIn (length first.party_vector == first.num_parties)
        (first_candidates first first.candidate_vectors)
        (first_candidates-StaysIn first first.candidate_vectors)

  sum_candidates-StaysIn :
      (ref : Ballot S E) (ballots : List (Option (Ballot S E)))
      (vectors : Option (List (List (Ciphertext E))))
      → ref.candidate_vectors ≡ vectors
      → check_shapes r ref ballots ≡ ok tt
      → StaysIn (sum_candidates r ballots ref vectors)
  unfolding sum_candidates
  sum_candidates-StaysIn ref ballots none g h = λ e. cc
  sum_candidates-StaysIn ref ballots (some rows) g h =
      bind-StaysIn _ _
        (collect_from-StaysIn _ ref.num_parties 0 (λ p i.
          collect_from-StaysIn _ ref.num_candidates 0 (λ c k.
            sum_column-StaysIn r ref (candidate_at r p c) ballots
              (candidate_Stands r ref rows p c g (omega arith) (omega arith)) h)))
        (λ sums p e. cc)

  sum_ballots-StaysIn :
      (ref : Ballot S E) (ballots : List (Option (Ballot S E)))
      → check_shapes r ref ballots ≡ ok tt
      → StaysIn (sum_ballots r ballots ref)
  unfolding sum_ballots
  sum_ballots-StaysIn ref ballots h =
      bind-StaysIn _ _
        (collect_from-StaysIn _ ref.num_parties 0 (λ i k.
          sum_column-StaysIn r ref (party_at r i) ballots (party_Stands r ref i (omega arith)) h))
        (λ cts p.
          bind-StaysIn _ _ (sum_candidates-StaysIn ref ballots ref.candidate_vectors refl h)
            (λ rows q e. cc))

  -- Whatever ballots it is given, nil ones and ones whose counts do not fit their slices included,
  -- `TallyBallots` never reads a slice out of its range.
  pub tally_ballots-StaysIn :
      (ballots : List (Option (Ballot S E))) → tally_ballots r ballots ≢ err bad_position
  unfolding tally_ballots
  tally_ballots-StaysIn [] = λ e. cc
  tally_ballots-StaysIn (none ∷ ballots) = λ e. cc
  tally_ballots-StaysIn (some first ∷ ballots) =
      bind-StaysIn (check_first r first) _ (check_first-StaysIn first) (λ u p.
        bind-StaysIn (check_shapes r first (some first ∷ ballots)) _
          (check_shapes-StaysIn first (some first ∷ ballots))
          (λ v q. sum_ballots-StaysIn first (some first ∷ ballots) q))
