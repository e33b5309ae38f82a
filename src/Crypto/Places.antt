-- ===== src/Crypto/Places.antt =====
-- crypto/elgamal/ballot.go: a ballot that passes the checks of shapes has what the tally reads.
use otvoren_vot.Prelude.{
  ℕ, zero, suc, ◌+◌, ◌<◌, Bool, true, false, ◌&&◌, List, [], ◌∷◌, Option, none, some, length, ◌==◌,
  ==_iff, get_elem?, get_elem?-some, ◌≡◌, ◌≢◌, refl, sym, ap, ◌∙◌, arith,
}
use otvoren_vot.Crypto.Group.{
  Ristretto, Result, ok, err, ◌>>=◌, Error, bad_position, shape_mismatch,
}
use otvoren_vot.Crypto.Elgamal.{Ciphertext}
use otvoren_vot.Crypto.Vectors.{
  Ballot, collect_from, check_rows, check_grid, check_candidates, check_shape, check_shapes,
  party_at, candidate_at, row_at, entry_at, column, sum_of, sum_column,
}
use otvoren_vot.Crypto.Collected.{bind-ok}

-- The result is not that of an index out of range.
abbrev pub StaysIn {ℓ} : {A : Type ℓ} → Result A → Type ℓ
StaysIn m = m ≢ err bad_position

err_inj {ℓ} : {A : Type ℓ} {a b : Error} → ◌≡◌ {A = Result A} (err a) (err b) → a ≡ b
err_inj h = cc

pub bind-StaysIn {ℓ κ} :
    {A : Type ℓ} {B : Type κ} (m : Result A) (f : A → Result B)
    → StaysIn m
    → ((a : A) → m ≡ ok a → StaysIn (f a))
    → StaysIn (m >>= f)
bind-StaysIn (ok a) f first next h = next a refl h
bind-StaysIn (err e) f first next h = first (ap (λ x. err x) (err_inj h))

pub collect_from-StaysIn {ℓ} :
    {A : Type ℓ} (make : ℕ → Result A) (count i : ℕ)
    → ((k : ℕ) → k < i + count → StaysIn (make k))
    → StaysIn (collect_from make count i)
unfolding collect_from
collect_from-StaysIn make zero i each = λ h. cc
collect_from-StaysIn make (suc count) i each =
    bind-StaysIn (make i) _ (each i (omega arith)) (λ a p.
      bind-StaysIn (collect_from make count (suc i)) _
        (collect_from-StaysIn make count (suc i) (λ k h. each k (omega arith))) (λ rest q h. cc))

-- A test that refuses.
abbrev pub guarded {ℓ} : {A : Type ℓ} → Bool → Result A → Result A
guarded t m = elim t [ false ↦ err shape_mismatch | true ↦ m ]

guarded-ok {ℓ} :
    {A : Type ℓ} (t : Bool) (m : Result A) (a : A) → guarded t m ≡ ok a → (t ≡ true) × (m ≡ ok a)
guarded-ok true m a h = (refl, h)
guarded-ok false m a h = cc

pub guarded-StaysIn {ℓ} : {A : Type ℓ} (t : Bool) (m : Result A) → StaysIn m → StaysIn (guarded t m)
guarded-StaysIn true m h = h
guarded-StaysIn false m h = λ e. cc

module _ {S E : Type 0} (r : Ristretto S E) where
  row-whole :
      (candidates : ℕ) (rows : List (List (Ciphertext E))) (p : ℕ) (row : List (Ciphertext E))
      → check_rows r candidates rows ≡ ok tt
      → get_elem? rows p ≡ some row
      → length row ≡ candidates
  unfolding check_rows
  row-whole candidates [] p row h at = cc
  row-whole candidates (first ∷ rows) p row h at =
      let (whole, rest) =
        guarded-ok (length first == candidates) (check_rows r candidates rows) tt h in
      placed p at (ground arith) (λ q. row-whole candidates rows q row rest)
    where
      placed :
          (p : ℕ)
          → get_elem? (first ∷ rows) p ≡ some row
          → length first ≡ candidates
          → ((q : ℕ) → get_elem? rows q ≡ some row → length row ≡ candidates)
          → length row ≡ candidates
      placed zero at whole later = let e : first ≡ row = cc in ap length (sym e) ∙ whole
      placed (suc p) at whole later = later p at

  check_candidates-some :
      (ref b : Ballot S E) (reference : List (List (Ciphertext E)))
      (vectors : Option (List (List (Ciphertext E))))
      → check_candidates r ref b (some reference) vectors ≡ ok tt
      → (rows : List (List (Ciphertext E))) × (vectors ≡ some rows)
        × (length rows ≡ ref.num_parties)
        × (check_rows r ref.num_candidates rows ≡ ok tt)
  unfolding check_candidates check_grid
  check_candidates-some ref b reference none h = cc
  check_candidates-some ref b reference (some rows) h =
      let (counted, grid) =
        guarded-ok (b.num_candidates == ref.num_candidates)
          (check_grid r ref.num_parties ref.num_candidates rows) tt h in
      let (size, each) =
        guarded-ok (length rows == ref.num_parties) (check_rows r ref.num_candidates rows) tt
          grid in
      (rows, refl, (==_iff (length rows) ref.num_parties).0 size, each)

  -- A ballot of the shape of the first has a ciphertext at every place that the tally reads.
  abbrev pub Stands : Ballot S E → (Option (Ballot S E) → Option (Ciphertext E)) → Type 0
  Stands ref at =
      (b : Option (Ballot S E))
      → check_shape r ref b ≡ ok tt
      → (ct : Ciphertext E) × (at b ≡ some ct)

  pub party_Stands : (ref : Ballot S E) (i : ℕ) → i < ref.num_parties → Stands ref (party_at r i)
  unfolding check_shape
  party_Stands ref i h none checked = cc
  party_Stands ref i h (some b) checked =
      let (whole, rest) =
        guarded-ok (b.num_parties == ref.num_parties && length b.party_vector == ref.num_parties)
          (check_candidates r ref b ref.candidate_vectors b.candidate_vectors) tt checked in
      get_elem?-some b.party_vector i (ground arith)

  pub candidate_Stands :
      (ref : Ballot S E) (reference : List (List (Ciphertext E))) (p c : ℕ)
      → ref.candidate_vectors ≡ some reference
      → p < ref.num_parties
      → c < ref.num_candidates
      → Stands ref (candidate_at r p c)
  unfolding check_shape
  candidate_Stands ref reference p c g h k none checked = cc
  candidate_Stands ref reference p c g h k (some b) checked =
      let (whole, grid) =
        guarded-ok (b.num_parties == ref.num_parties && length b.party_vector == ref.num_parties)
          (check_candidates r ref b ref.candidate_vectors b.candidate_vectors) tt checked in
      let (rows, given, size, each) =
        check_candidates-some ref b reference b.candidate_vectors
          (ap (λ o. check_candidates r ref b o b.candidate_vectors) (sym g) ∙ grid) in
      let (row, here) = get_elem?-some rows p (omega (arith, size)) in
      let (ct, at) =
        get_elem?-some row c (omega (arith, row-whole ref.num_candidates rows p row each here)) in
      (ct, ap (λ o. entry_at r c (row_at r p o)) given ∙ ap (entry_at r c) here ∙ at)

  column-StaysIn :
      (ref : Ballot S E) (at : Option (Ballot S E) → Option (Ciphertext E))
      (ballots : List (Option (Ballot S E)))
      → Stands ref at
      → check_shapes r ref ballots ≡ ok tt
      → StaysIn (column r at ballots)
  unfolding column check_shapes
  column-StaysIn ref at [] stands h = λ e. cc
  column-StaysIn ref at (b ∷ ballots) stands h =
      let (u, checked, rest) = bind-ok (check_shape r ref b) _ tt h in
      let (ct, here) = stands b checked in
      rw (here, column)
        (bind-StaysIn (column r at ballots) _ (column-StaysIn ref at ballots stands rest)
          (λ cts p e. cc))

  sum_of-StaysIn : (cts : List (Ciphertext E)) → StaysIn (sum_of r cts)
  unfolding sum_of
  sum_of-StaysIn [] = λ e. cc
  sum_of-StaysIn (ct ∷ cts) = λ e. cc

  pub sum_column-StaysIn :
      (ref : Ballot S E) (at : Option (Ballot S E) → Option (Ciphertext E))
      (ballots : List (Option (Ballot S E)))
      → Stands ref at
      → check_shapes r ref ballots ≡ ok tt
      → StaysIn (sum_column r at ballots)
  unfolding sum_column
  sum_column-StaysIn ref at ballots stands h =
      bind-StaysIn (column r at ballots) _ (column-StaysIn ref at ballots stands h)
        (λ cts p. sum_of-StaysIn cts)
