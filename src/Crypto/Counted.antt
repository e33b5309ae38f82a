-- ===== src/Crypto/Counted.antt =====
-- crypto/elgamal/ballot.go: decrypting the tally of the voters' ballots counts their choices.
use otvoren_vot.Prelude.{
  ℕ, suc, ◌+◌, ◌≤◌, ◌<◌, ◌&&◌, Bool, true, false, List, [], ◌∷◌, Option, some, length, map, ◌≡◌,
  refl, ap, ◌∙◌, arith,
}
use otvoren_vot.Crypto.Group.{Ristretto, ok}
use otvoren_vot.Crypto.Elgamal.{Ciphertext, encrypt_with_randomness, decrypt, max_decrypt}
use otvoren_vot.Crypto.Logarithm.{GroupLaws, Multiples}
use otvoren_vot.Crypto.Homomorphic.{ScalarLaws, Vote, Encrypts, total, decrypt-homomorphic_add}
use otvoren_vot.Crypto.Vectors.{
  Ballot, is_chosen, bit, check_shapes, column, required, sum_of, sum_column,
}
use otvoren_vot.Crypto.Shaped.{Voter, IsEncoded, encoded, encoded-IsEncoded, check_shape_lem}

-- How many voters pass the test.
abbrev pub count_of : {S : Type 0} → (Voter S → Bool) → List (Voter S) → ℕ
count_of test [] = 0
count_of test (v ∷ voters) = bit (test v) + count_of test voters

count_of-length :
    {S : Type 0} (test : Voter S → Bool) (voters : List (Voter S))
    → count_of test voters ≤ length voters
count_of-length test [] = omega arith
count_of-length test (v ∷ voters) = omega (arith, bit_small (test v), count_of-length test voters)
  where
    bit_small : (b : Bool) → bit b ≤ 1
    bit_small true = omega arith
    bit_small false = omega arith

abbrev pub votes_party : {S : Type 0} → ℕ → Voter S → Bool
votes_party i v = is_chosen v.party i

abbrev pub votes_candidate : {S : Type 0} → ℕ → ℕ → Voter S → Bool
votes_candidate p c v = is_chosen v.party p && is_chosen v.candidate c

module _ {S E : Type 0} (r : Ristretto S E) (group : GroupLaws r) (scalars : ScalarLaws r)
    (order : ℕ) (multiples : Multiples r order) (x : S) (parties candidates : ℕ) where
  -- The ballots of the voters, in order.
  abbrev pub AreEncoded : List (Voter S) → List (Ballot S E) → Type 0
  AreEncoded [] [] = Unit {0}
  AreEncoded [] (b ∷ ballots) = ⊥
  AreEncoded (v ∷ voters) [] = ⊥
  AreEncoded (v ∷ voters) (b ∷ ballots) =
      (encoded r (r.scalar_base_mult x) parties candidates v ≡ ok b) × AreEncoded voters ballots

  pub check_shapes_lem :
      (w : Voter S) (ref : Ballot S E) (voters : List (Voter S)) (ballots : List (Ballot S E))
      → encoded r (r.scalar_base_mult x) parties candidates w ≡ ok ref
      → AreEncoded voters ballots
      → check_shapes r ref (map some ballots) ≡ ok tt
  unfolding check_shapes
  check_shapes_lem w ref [] [] h all = refl
  check_shapes_lem w ref [] (b ∷ ballots) h all = absurd all
  check_shapes_lem w ref (v ∷ voters) [] h all = absurd all
  check_shapes_lem w ref (v ∷ voters) (b ∷ ballots) h (made, all) =
      let key = r.scalar_base_mult x in
      rw
        (check_shape_lem r key parties candidates w v ref b
          (encoded-IsEncoded r key parties candidates w ref h)
          (encoded-IsEncoded r key parties candidates v b made))
        (check_shapes_lem w ref voters ballots h all)

  -- One place of the ballots, which encrypts the bit of a test.
  module _ (at : Option (Ballot S E) → Option (Ciphertext E)) (test : Voter S → Bool)
      (random : Voter S → S)
      (stands : (v : Voter S) (b : Ballot S E)
        → IsEncoded r (r.scalar_base_mult x) parties candidates v b
        → (ct : Ciphertext E) × (at (some b) ≡ some ct)
          × (encrypt_with_randomness r (r.scalar_base_mult x) (bit (test v)) (random v)
              ≡ ok ct)) where
    abbrev vote : Voter S → Vote S
    vote v = record { plaintext = bit (test v); randomness = random v }

    total-vote : (voters : List (Voter S)) → total (map vote voters) ≡ count_of test voters
    total-vote [] = refl
    total-vote (v ∷ voters) = ap (λ n. bit (test v) + n) (total-vote voters)

    column_lem :
        (voters : List (Voter S)) (ballots : List (Ballot S E))
        → AreEncoded voters ballots
        → (cts : List (Ciphertext E)) × (column r at (map some ballots) ≡ ok cts)
          × Encrypts r group scalars order multiples x (map vote voters) cts
    unfolding column
    column_lem [] [] all = ([], refl, tt)
    column_lem [] (b ∷ ballots) all = absurd all
    column_lem (v ∷ voters) [] all = absurd all
    column_lem (v ∷ voters) (b ∷ ballots) (made, all) =
        let (ct, here, encrypts) =
          stands v b (encoded-IsEncoded r (r.scalar_base_mult x) parties candidates v b made) in
        let (cts, rest, each) = column_lem voters ballots all in
        (ct ∷ cts, rw (here, column) (rw rest refl), (encrypts, each))

    decrypts :
        (v : Voter S) (voters : List (Voter S)) (cts : List (Ciphertext E))
        → Encrypts r group scalars order multiples x (map vote (v ∷ voters)) cts
        → length (v ∷ voters) ≤ max_decrypt
        → suc max_decrypt < order
        → (sum : Ciphertext E) × (sum_of r cts ≡ ok sum)
          × (decrypt r x sum ≡ some (count_of test (v ∷ voters)))
    unfolding sum_of
    decrypts v voters [] all small bound = absurd all
    decrypts v voters (ct ∷ cts) all small bound =
        let (sum, added, gives) =
          decrypt-homomorphic_add r group scalars order multiples x (vote v) (map vote voters) ct
            cts all (omega (arith, total-vote (v ∷ voters), count_of-length test (v ∷ voters)))
            bound in
        (sum, ap (required r) added, gives ∙ ap some (total-vote (v ∷ voters)))

    pub sum_column_lem :
        (v : Voter S) (voters : List (Voter S)) (ballots : List (Ballot S E))
        → AreEncoded (v ∷ voters) ballots
        → length (v ∷ voters) ≤ max_decrypt
        → suc max_decrypt < order
        → (sum : Ciphertext E) × (sum_column r at (map some ballots) ≡ ok sum)
          × (decrypt r x sum ≡ some (count_of test (v ∷ voters)))
    unfolding sum_column
    sum_column_lem v voters ballots all small bound =
        let (cts, gathered, each) = column_lem (v ∷ voters) ballots all in
        let (sum, added, gives) = decrypts v voters cts each small bound in
        (sum, rw (gathered, sum_column) added, gives)
