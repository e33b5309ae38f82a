-- ===== src/Crypto/Vectors.antt =====
-- crypto/elgamal/ballot.go. The random scalars are an argument, a choice that is negative is none, and an
-- index out of range, where the code would panic, is an error.
use otvoren_vot.Prelude.{
  ℕ, zero, suc, Bool, true, false, ◌&&◌, List, [], ◌∷◌, Option, none, some, length, ◌==◌, get_elem?,
}
use otvoren_vot.Crypto.Group.{
  Ristretto, Result, ok, err, ◌>>=◌, bad_position, shape_mismatch, no_ballots,
}
use otvoren_vot.Crypto.Elgamal.{Ciphertext, encrypt_with_randomness, homomorphic_add}

pub record Ballot (S E : Type 0) : Type 0 where
  pub party_vector : List (Ciphertext E)
  pub party_randomness : List S
  pub candidate_vectors : Option (List (List (Ciphertext E)))
  pub candidate_randomness : List (List S)
  pub num_parties : ℕ
  pub num_candidates : ℕ

-- A loop that makes the elements of a slice from position i on, `count` of them.
unfoldable pub collect_from {ℓ} : {A : Type ℓ} → (ℕ → Result A) → ℕ → ℕ → Result (List A)
collect_from make zero i = ok []
collect_from make (suc count) i =
    make i >>= λ a. collect_from make count (suc i) >>= λ rest. ok (a ∷ rest)

abbrev pub drawn_from {ℓ} : {A : Type ℓ} → (ℕ → A) → ℕ → ℕ → List A
drawn_from random zero i = []
drawn_from random (suc count) i = random i ∷ drawn_from random count (suc i)

unfoldable pub is_chosen : Option ℕ → ℕ → Bool
is_chosen none i = false
is_chosen (some choice) i = i == choice

abbrev pub bit : Bool → ℕ
bit true = 1
bit false = 0

module _ {S E : Type 0} (r : Ristretto S E) where
  unfoldable pub encode_ballot : E → ℕ → Option ℕ → (ℕ → S) → Result (Ballot S E)
  unfolding collect_from is_chosen
  encode_ballot public_key num_parties party_choice random =
      collect_from
        (λ i. encrypt_with_randomness r public_key (bit (is_chosen party_choice i)) (random i))
        num_parties 0
      >>= λ cts. ok (record {
        party_vector = cts;
        party_randomness = drawn_from random num_parties 0;
        candidate_vectors = none;
        candidate_randomness = [];
        num_parties = num_parties;
        num_candidates = 0;
      })

  -- The candidate vector of party p.
  unfoldable pub encode_candidates :
      E → ℕ → Option ℕ → Option ℕ → (ℕ → ℕ → S) → ℕ → Result (List (Ciphertext E))
  unfolding collect_from is_chosen
  encode_candidates public_key num_candidates party_choice candidate_choice random p =
      collect_from
        (λ c.
          encrypt_with_randomness r public_key
            (bit (is_chosen party_choice p && is_chosen candidate_choice c)) (random p c))
        num_candidates 0

  unfoldable pub encode_ballot_with_candidates :
      E → ℕ → ℕ → Option ℕ → Option ℕ → (ℕ → S) → (ℕ → ℕ → S) → Result (Ballot S E)
  unfolding encode_ballot encode_candidates
  encode_ballot_with_candidates public_key num_parties num_candidates party_choice candidate_choice
        random candidate_random =
      encode_ballot public_key num_parties party_choice random >>= λ b.
      collect_from
        (encode_candidates public_key num_candidates party_choice candidate_choice candidate_random)
        num_parties 0
      >>= λ rows. ok (record {
        party_vector = b.party_vector;
        party_randomness = b.party_randomness;
        candidate_vectors = some rows;
        candidate_randomness =
            drawn_from (λ p. drawn_from (candidate_random p) num_candidates 0) num_parties 0;
        num_parties = b.num_parties;
        num_candidates = num_candidates;
      })

  unfoldable pub check_rows : ℕ → List (List (Ciphertext E)) → Result (Unit {0})
  check_rows num_candidates [] = ok tt
  check_rows num_candidates (row ∷ rows) = elim (length row == num_candidates) [
    | false ↦ err shape_mismatch
    | true ↦ check_rows num_candidates rows
  ]

  unfoldable pub check_grid : ℕ → ℕ → List (List (Ciphertext E)) → Result (Unit {0})
  unfolding check_rows
  check_grid num_parties num_candidates rows = elim (length rows == num_parties) [
    | false ↦ err shape_mismatch
    | true ↦ check_rows num_candidates rows
  ]

  -- The candidate vectors of `checkShape`: those of the reference, then those of the ballot.
  unfoldable pub check_candidates :
      Ballot S E
      → Ballot S E
      → Option (List (List (Ciphertext E)))
      → Option (List (List (Ciphertext E)))
      → Result (Unit {0})
  unfolding check_grid
  check_candidates ref b none none = ok tt
  check_candidates ref b none (some rows) = err shape_mismatch
  check_candidates ref b (some reference) none = err shape_mismatch
  check_candidates ref b (some reference) (some rows) =
      elim (b.num_candidates == ref.num_candidates) [
        | false ↦ err shape_mismatch
        | true ↦ check_grid ref.num_parties ref.num_candidates rows
      ]

  unfoldable pub check_shape : Ballot S E → Option (Ballot S E) → Result (Unit {0})
  unfolding check_candidates
  check_shape ref none = err shape_mismatch
  check_shape ref (some b) =
      elim (b.num_parties == ref.num_parties && length b.party_vector == ref.num_parties) [
        | false ↦ err shape_mismatch
        | true ↦ check_candidates ref b ref.candidate_vectors b.candidate_vectors
      ]

  unfoldable pub check_shapes : Ballot S E → List (Option (Ballot S E)) → Result (Unit {0})
  unfolding check_shape
  check_shapes ref [] = ok tt
  check_shapes ref (b ∷ ballots) = check_shape ref b >>= λ u. check_shapes ref ballots

  -- The checks of `TallyBallots` on the first ballot.
  unfoldable pub check_first : Ballot S E → Result (Unit {0})
  unfolding check_grid
  check_first first = elim (length first.party_vector == first.num_parties) [
    | false ↦ err shape_mismatch
    | true ↦ elim first.candidate_vectors [
      | none ↦ ok tt
      | some rows ↦ check_grid first.num_parties first.num_candidates rows
    ]
  ]

  abbrev pub party_at : ℕ → Option (Ballot S E) → Option (Ciphertext E)
  party_at i none = none
  party_at i (some b) = get_elem? b.party_vector i

  abbrev pub row_at : ℕ → Option (List (List (Ciphertext E))) → Option (List (Ciphertext E))
  row_at p none = none
  row_at p (some rows) = get_elem? rows p

  abbrev pub entry_at : ℕ → Option (List (Ciphertext E)) → Option (Ciphertext E)
  entry_at c none = none
  entry_at c (some row) = get_elem? row c

  abbrev pub candidate_at : ℕ → ℕ → Option (Ballot S E) → Option (Ciphertext E)
  candidate_at p c none = none
  candidate_at p c (some b) = entry_at c (row_at p b.candidate_vectors)

  -- The ciphertexts of all ballots at one place.
  unfoldable pub column :
      (Option (Ballot S E) → Option (Ciphertext E))
      → List (Option (Ballot S E))
      → Result (List (Ciphertext E))
  column at [] = ok []
  column at (b ∷ ballots) = elim (at b) [
    | none ↦ err bad_position
    | some ct ↦ column at ballots >>= λ cts. ok (ct ∷ cts)
  ]

  -- The sum of ciphertexts. That of none is nil in the code.
  abbrev pub required : Option (Ciphertext E) → Result (Ciphertext E)
  required none = err no_ballots
  required (some sum) = ok sum

  unfoldable pub sum_of : List (Ciphertext E) → Result (Ciphertext E)
  unfolding homomorphic_add
  sum_of cts = required (homomorphic_add r cts)

  unfoldable pub sum_column :
      (Option (Ballot S E) → Option (Ciphertext E))
      → List (Option (Ballot S E))
      → Result (Ciphertext E)
  unfolding column sum_of
  sum_column at ballots = column at ballots >>= λ cts. sum_of cts

  -- The sums of the candidate vectors, where the first ballot has them.
  unfoldable pub sum_candidates :
      List (Option (Ballot S E))
      → Ballot S E
      → Option (List (List (Ciphertext E)))
      → Result (Option (List (List (Ciphertext E))))
  unfolding collect_from sum_column
  sum_candidates ballots first none = ok none
  sum_candidates ballots first (some vectors) =
      collect_from
        (λ p. collect_from (λ c. sum_column (candidate_at p c) ballots) first.num_candidates 0)
        first.num_parties 0
      >>= λ rows. ok (some rows)

  abbrev pub counted : ℕ → Option (List (List (Ciphertext E))) → ℕ
  counted num_candidates none = 0
  counted num_candidates (some rows) = num_candidates

  -- `TallyBallots`, given the first ballot, after the checks.
  unfoldable pub sum_ballots : List (Option (Ballot S E)) → Ballot S E → Result (Ballot S E)
  unfolding sum_candidates
  sum_ballots ballots first =
      collect_from (λ i. sum_column (party_at i) ballots) first.num_parties 0 >>= λ cts.
      sum_candidates ballots first first.candidate_vectors >>= λ rows. ok (record {
        party_vector = cts;
        party_randomness = [];
        candidate_vectors = rows;
        candidate_randomness = [];
        num_parties = first.num_parties;
        num_candidates = counted first.num_candidates rows;
      })

  unfoldable pub tally_ballots : List (Option (Ballot S E)) → Result (Ballot S E)
  unfolding check_first check_shapes sum_ballots
  tally_ballots [] = err no_ballots
  tally_ballots (none ∷ ballots) = err shape_mismatch
  tally_ballots (some first ∷ ballots) = check_first first >>= λ u.
      check_shapes first (some first ∷ ballots) >>= λ v. sum_ballots (some first ∷ ballots) first
