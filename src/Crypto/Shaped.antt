-- ===== src/Crypto/Shaped.antt =====
-- crypto/elgamal/ballot.go: the ballots of voters and their shape.
use otvoren_vot.Prelude.{
  ℕ, suc, ◌<◌, ◌&&◌, true, List, [], ◌∷◌, Option, some, length, get_elem?, ◌==◌, ==_iff, ◌≡◌, refl,
  sym, ap, ◌∙◌, arith,
}
use otvoren_vot.Crypto.Group.{Ristretto, Result, ok}
use otvoren_vot.Crypto.Elgamal.{Ciphertext, encrypt_with_randomness}
use otvoren_vot.Crypto.Vectors.{
  Ballot, collect_from, drawn_from, is_chosen, bit, encode_ballot, encode_candidates,
  encode_ballot_with_candidates, check_rows, check_grid, check_candidates, check_shape, check_first,
  party_at, candidate_at, entry_at,
}
use otvoren_vot.Crypto.Collected.{ok_inj, bind-ok, collect_from-each}

pub record Voter (S : Type 0) : Type 0 where
  pub party : Option ℕ
  pub candidate : Option ℕ
  pub randomness : ℕ → S
  pub candidate_randomness : ℕ → ℕ → S

module _ {S E : Type 0} (r : Ristretto S E) (public_key : E) (parties candidates : ℕ) where
  -- What the voter encrypts for party i.
  abbrev pub party_bit : Voter S → ℕ → Result (Ciphertext E)
  party_bit v i = encrypt_with_randomness r public_key (bit (is_chosen v.party i)) (v.randomness i)

  abbrev pub row : Voter S → ℕ → Result (List (Ciphertext E))
  row v p = encode_candidates r public_key candidates v.party v.candidate v.candidate_randomness p

  abbrev pub candidate_bit : Voter S → ℕ → ℕ → Result (Ciphertext E)
  candidate_bit v p c =
      encrypt_with_randomness r public_key (bit (is_chosen v.party p && is_chosen v.candidate c))
        (v.candidate_randomness p c)

  abbrev pub encoded : Voter S → Result (Ballot S E)
  encoded v =
      encode_ballot_with_candidates r public_key parties candidates v.party v.candidate v.randomness
        v.candidate_randomness

  -- The ballot with these vectors.
  abbrev pub assembled : Voter S → List (Ciphertext E) → List (List (Ciphertext E)) → Ballot S E
  assembled v cts rows = record {
    party_vector = cts;
    party_randomness = drawn_from v.randomness parties 0;
    candidate_vectors = some rows;
    candidate_randomness =
        drawn_from (λ p. drawn_from (v.candidate_randomness p) candidates 0) parties 0;
    num_parties = parties;
    num_candidates = candidates;
  }

  abbrev with_candidates : Voter S → Ballot S E → List (List (Ciphertext E)) → Ballot S E
  with_candidates v b rows = record {
    party_vector = b.party_vector;
    party_randomness = b.party_randomness;
    candidate_vectors = some rows;
    candidate_randomness =
        drawn_from (λ p. drawn_from (v.candidate_randomness p) candidates 0) parties 0;
    num_parties = b.num_parties;
    num_candidates = candidates;
  }

  abbrev pub IsEncoded : Voter S → Ballot S E → Type 0
  IsEncoded v b =
      (cts : List (Ciphertext E)) × (rows : List (List (Ciphertext E))) × (collect_from
          (party_bit v) parties 0
        ≡ ok cts)
      × (collect_from (row v) parties 0 ≡ ok rows)
      × (assembled v cts rows ≡ b)

  pub encoded-IsEncoded : (v : Voter S) (b : Ballot S E) → encoded v ≡ ok b → IsEncoded v b
  unfolding encode_ballot_with_candidates encode_ballot
  encoded-IsEncoded v b h =
      let (voted, first, rest) = bind-ok _ _ b h in
      let (cts, made, same) = bind-ok _ _ voted first in
      let (rows, made', same') = bind-ok _ _ b rest in
      (cts, rows, made, made', ap (λ c. with_candidates v c rows) (ok_inj same) ∙ ok_inj same')

  row-length :
      (v : Voter S) (p : ℕ) (cts : List (Ciphertext E)) → row v p ≡ ok cts → length cts ≡ candidates
  unfolding encode_candidates
  row-length v p cts h = (collect_from-each (candidate_bit v p) candidates cts h).0

  check_rows_lem :
      (rows : List (List (Ciphertext E)))
      → ((k : ℕ)
          → k < length rows
          → (cts : List (Ciphertext E)) × (get_elem? rows k ≡ some cts) × (length cts ≡ candidates))
      → check_rows r candidates rows ≡ ok tt
  unfolding check_rows
  check_rows_lem [] h = refl
  check_rows_lem (cts ∷ rows) h =
      let (first, at, size) = h 0 (omega arith) in
      let same : cts ≡ first = cc in
      let whole : (length cts == candidates) ≡ true =
        (==_iff (length cts) candidates).1 (ap length same ∙ size) in
      rw (whole, check_rows) (check_rows_lem rows (λ k p. h (suc k) (omega arith)))

  pub check_grid_lem :
      (v : Voter S) (rows : List (List (Ciphertext E)))
      → collect_from (row v) parties 0 ≡ ok rows
      → check_grid r parties candidates rows ≡ ok tt
  unfolding check_grid
  check_grid_lem v rows h =
      let (size, each) = collect_from-each (row v) parties rows h in
      let whole : (length rows == parties) ≡ true = (==_iff (length rows) parties).1 size in
      rw (whole, check_grid)
        (check_rows_lem rows (λ k p.
          let (cts, at, made) = each k (omega (arith, size)) in (cts, at, row-length v k cts made)))

  pub check_first_lem : (v : Voter S) (b : Ballot S E) → IsEncoded v b → check_first r b ≡ ok tt
  unfolding check_first
  check_first_lem v b (cts, rows, made, made', same) =
      let whole : (length cts == parties) ≡ true =
        (==_iff (length cts) parties).1 (collect_from-each (party_bit v) parties cts made).0 in
      rw (sym same) (rw (whole, check_first) (check_grid_lem v rows made'))

  pub check_shape_lem :
      (v w : Voter S) (ref b : Ballot S E)
      → IsEncoded v ref
      → IsEncoded w b
      → check_shape r ref (some b) ≡ ok tt
  unfolding check_shape check_candidates
  check_shape_lem v w ref b (cts, rows, made, made', same) (cts', rows', more, more', same') =
      let whole : ((parties == parties) && (length cts' == parties)) ≡ true =
        ground (arith, (collect_from-each (party_bit w) parties cts' more).0) in
      let equal : (candidates == candidates) ≡ true = (==_iff candidates candidates).1 refl in
      rw (sym same) (
        rw (sym same')
          (rw (whole, check_shape) (rw (equal, check_candidates) (check_grid_lem w rows' more'))))

  -- Where the ciphertexts of a ballot stand, and what they encrypt.
  pub party_at_lem :
      (i : ℕ)
      → i < parties
      → (v : Voter S) (b : Ballot S E) → IsEncoded v b
      → (ct : Ciphertext E) × (party_at r i (some b) ≡ some ct) × (party_bit v i ≡ ok ct)
  party_at_lem i h v b (cts, rows, made, made', same) =
      let (ct, at, from) = (collect_from-each (party_bit v) parties cts made).1 i h in
      (ct, ap (λ c. get_elem? c.party_vector i) (sym same) ∙ at, from)

  pub candidate_at_lem :
      (p c : ℕ)
      → p < parties
      → c < candidates
      → (v : Voter S) (b : Ballot S E) → IsEncoded v b
      → (ct : Ciphertext E) × (candidate_at r p c (some b) ≡ some ct)
        × (candidate_bit v p c ≡ ok ct)
  unfolding encode_candidates
  candidate_at_lem p c h k v b (cts, rows, made, made', same) =
      let (vector, at, from) = (collect_from-each (row v) parties rows made').1 p h in
      let here : row v p ≡ ok vector = from in
      let (ct, at', from') = (collect_from-each (candidate_bit v p) candidates vector here).1 c k in
      (ct, ap (candidate_at r p c) (ap some (sym same)) ∙ ap (entry_at r c) at ∙ at', from')
