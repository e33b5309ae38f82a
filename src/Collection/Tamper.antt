-- ===== src/Collection/Tamper.antt =====
-- collection/votermap/votermap.go, `ComputeRowHash`, and collection/audit/audit.go, `verifyHashChain`: what
-- the last hash of a chain that verifies says of the ballots in it.
use otvoren_vot.Prelude.{
  ℕ, zero, suc, ◌+◌, ◌/◌, ◌%◌, ◌<◌, ◌≡◌, ◌≢◌, refl, sym, ap, subst, ◌∙◌, true, false, ◌⊎◌, inl, inr,
  List, [], ◌∷◌, ◌++◌, map, Bytes, bytes_eq, bytes_eq_refl, bytes_eq_sound, arith, length,
  Bool-cases, ltb, hex_encode, hex_decode, hex_decode-hex_encode, AllBytes, HasNoZero,
  hex_encode-HasNoZero,
}
use otvoren_vot.Collection.Votermap.{HistoryEntry, digits_from, decimal, row_data, compute_row_hash}
use otvoren_vot.Collection.Audit.{verify_entries, verify_hash_chain}

first_field :
    (xs ys r s : Bytes)
    → HasNoZero xs
    → HasNoZero ys
    → xs ++ 0 ∷ r ≡ ys ++ 0 ∷ s
    → (xs ≡ ys) × (r ≡ s)
first_field [] [] r s p q h = (refl, cc)
first_field [] (y ∷ ys) r s p (q, qs) h = let e : 0 ≡ y = cc in absurd (omega arith)
first_field (x ∷ xs) [] r s (p, ps) q h = let e : x ≡ 0 = cc in absurd (omega arith)
first_field (x ∷ xs) (y ∷ ys) r s (p, ps) (q, qs) h =
    let head : x ≡ y = cc in
    let tail : xs ++ 0 ∷ r ≡ ys ++ 0 ∷ s = cc in
    let (e, rest) = first_field xs ys r s ps qs tail in (cc, rest)

-- A field before the last one may hold zeros.
has_zero : (ys s : Bytes) → HasNoZero (ys ++ 0 ∷ s) → 0 < 0
has_zero [] s (p, ps) = p
has_zero (y ∷ ys) s (p, ps) = has_zero ys s ps

last_field :
    (xs ys r s : Bytes)
    → HasNoZero r
    → HasNoZero s
    → xs ++ 0 ∷ r ≡ ys ++ 0 ∷ s
    → (xs ≡ ys) × (r ≡ s)
last_field [] [] r s p q h = (refl, cc)
last_field [] (y ∷ ys) r s p q h =
    let tail : r ≡ ys ++ 0 ∷ s = cc in
    absurd (omega (arith, has_zero ys s (subst HasNoZero tail p)))
last_field (x ∷ xs) [] r s p q h =
    let tail : s ≡ xs ++ 0 ∷ r = cc in
    absurd (omega (arith, has_zero xs r (subst HasNoZero tail q)))
last_field (x ∷ xs) (y ∷ ys) r s p q h =
    let head : x ≡ y = cc in
    let tail : xs ++ 0 ∷ r ≡ ys ++ 0 ∷ s = cc in
    let (e, rest) = last_field xs ys r s p q tail in (cc, rest)

digits_from-HasNoZero :
    (fuel n : ℕ) (rest : Bytes) → HasNoZero rest → HasNoZero (digits_from fuel n rest)
unfolding digits_from
digits_from-HasNoZero zero n rest h = (omega arith, h)
digits_from-HasNoZero (suc fuel) n rest h = elim (Bool-cases (ltb n 10)) [
  | inl small ↦ rw (digits_from, small) (omega arith, h)
  | inr large ↦
      rw (digits_from, large)
        (digits_from-HasNoZero fuel (n / 10) ((n % 10 + b'0') ∷ rest) (omega arith, h))
]

decimal-HasNoZero : (n : ℕ) → HasNoZero (decimal n)
unfolding decimal
decimal-HasNoZero n = digits_from-HasNoZero n n [] tt

same_prefix : (xs r s : Bytes) → xs ++ r ≡ xs ++ s → r ≡ s
same_prefix [] r s h = h
same_prefix (x ∷ xs) r s h = let tail : xs ++ r ≡ xs ++ s = cc in same_prefix xs r s tail

-- The row's data determine the previous hash and the ballot.
row_data_inj :
    (prev prev' egn_hash ballot ballot' : Bytes) (seq seq' : ℕ)
    → HasNoZero prev
    → HasNoZero prev'
    → row_data prev egn_hash ballot seq ≡ row_data prev' egn_hash ballot' seq'
    → (prev ≡ prev') × (ballot ≡ ballot')
unfolding row_data
row_data_inj prev prev' egn_hash ballot ballot' seq seq' p q h =
    let (same, rest) = first_field prev prev' _ _ p q h in
    let inner = same_prefix egn_hash _ _ rest in
    let fields : ballot ++ 0 ∷ decimal seq ≡ ballot' ++ 0 ∷ decimal seq' = cc in
    let (ballots, seqs) =
      last_field ballot ballot' (decimal seq) (decimal seq') (decimal-HasNoZero seq)
        (decimal-HasNoZero seq') fields in
    (same, ballots)

module _ (hmac : Bytes → Bytes → Bytes) (key egn_hash : Bytes) where
  abbrev data_of : Bytes → HistoryEntry → Bytes
  data_of prev e = row_data prev egn_hash e.ballot_id e.seq

  -- At some place in two chains stand two rows whose data differ and have the same HMAC.
  abbrev pub RowCollision : Bytes → List HistoryEntry → Bytes → List HistoryEntry → Type 0
  RowCollision prev [] prev' others = ⊥
  RowCollision prev (e ∷ entries) prev' [] = ⊥
  RowCollision prev (e ∷ entries) prev' (other ∷ others) =
      ((data_of prev e ≢ data_of prev' other)
        × (hmac key (data_of prev e) ≡ hmac key (data_of prev' other)))
      ⊎ RowCollision e.row_hash entries other.row_hash others

  abbrev pub last_hash : Bytes → List HistoryEntry → Bytes
  last_hash prev [] = prev
  last_hash prev (e ∷ entries) = last_hash e.row_hash entries

  abbrev pub ballots : List HistoryEntry → List Bytes
  ballots entries = map (λ e. e.ballot_id) entries

  verify_entries-step :
      (prev : Bytes) (e : HistoryEntry) (entries : List HistoryEntry)
      → verify_entries hmac key egn_hash prev (e ∷ entries) ≡ true
      → (e.row_hash ≡ hex_encode (hmac key (data_of prev e)))
        × (verify_entries hmac key egn_hash e.row_hash entries ≡ true)
  unfolding verify_entries compute_row_hash
  verify_entries-step prev e entries h =
      elim (Bool-cases (bytes_eq e.row_hash (hex_encode (hmac key (data_of prev e))))) [
        | inl same ↦ (bytes_eq_sound e.row_hash _ same, sym (rw (verify_entries, same)) ∙ h)
        | inr other ↦
            let no_match : verify_entries hmac key egn_hash prev (e ∷ entries) ≡ false =
              rw (verify_entries, other) in
            absurd cc
      ]

  module _ (sized : (text : Bytes) → AllBytes (hmac key text)) where
    same_hmac :
        (a b : Bytes) → hex_encode (hmac key a) ≡ hex_encode (hmac key b) → hmac key a ≡ hmac key b
    same_hmac a b h =
        let left = hex_decode-hex_encode (hmac key a) (sized a) in
        let right = hex_decode-hex_encode (hmac key b) (sized b) in
        let both : hex_decode (hex_encode (hmac key a)) ≡ hex_decode (hex_encode (hmac key b)) =
          ap hex_decode h in
        cc

    chains_agree :
        (prev prev' : Bytes) (entries others : List HistoryEntry)
        → HasNoZero prev
        → HasNoZero prev'
        → length entries ≡ length others
        → verify_entries hmac key egn_hash prev entries ≡ true
        → verify_entries hmac key egn_hash prev' others ≡ true
        → last_hash prev entries ≡ last_hash prev' others
        → ((prev ≡ prev') × (ballots entries ≡ ballots others))
          ⊎ RowCollision prev entries prev' others
    chains_agree prev prev' [] [] p q n v w h = inl (h, refl)
    chains_agree prev prev' [] (other ∷ others) p q n v w h = absurd (omega arith)
    chains_agree prev prev' (e ∷ entries) [] p q n v w h = absurd (omega arith)
    chains_agree prev prev' (e ∷ entries) (other ∷ others) p q n v w h =
        let (row, v') = verify_entries-step prev e entries v in
        let (row', w') = verify_entries-step prev' other others w in
        let clean : HasNoZero e.row_hash =
          subst HasNoZero (sym row) (hex_encode-HasNoZero (hmac key (data_of prev e))) in
        let clean' : HasNoZero other.row_hash =
          subst HasNoZero (sym row') (hex_encode-HasNoZero (hmac key (data_of prev' other))) in
        elim (chains_agree e.row_hash other.row_hash entries others clean clean' (omega arith) v' w'
          h) [
            | inr below ↦ inr (inr below)
            | inl (hashes, tail) ↦
                let equal =
                  same_hmac (data_of prev e) (data_of prev' other) (sym row ∙ hashes ∙ row') in
                elim (Bool-cases (bytes_eq (data_of prev e) (data_of prev' other))) [
                  | inl same ↦
                      let rows = bytes_eq_sound (data_of prev e) (data_of prev' other) same in
                      let (prevs, ballot) =
                        row_data_inj prev prev' egn_hash e.ballot_id other.ballot_id e.seq other.seq
                          p q rows in
                      inl (prevs, cc)
                  | inr differ ↦
                      let apart : data_of prev e ≢ data_of prev' other = λ r. unequal r differ in
                      inr (inl (apart, equal))
                ]
          ]
      where
        unequal : {a b : Bytes} → a ≡ b → bytes_eq a b ≢ false
        unequal {a} {b} r d =
            let whole : bytes_eq a b ≡ true =
              subst (λ x. bytes_eq a x ≡ true) r (bytes_eq_refl a) in
            cc

    -- Two chains of one voter that both verify, have the same number of rows and end in the same hash
    -- hold the same ballots in the same order, or two of their rows at the same place have different data
    -- with the same HMAC. An HMAC is a list of bytes.
    pub verify_hash_chain_sound :
        (entries others : List HistoryEntry)
        → verify_hash_chain hmac key (record { egn_hash = egn_hash; submissions = entries }) ≡ true
        → verify_hash_chain hmac key (record { egn_hash = egn_hash; submissions = others }) ≡ true
        → length entries ≡ length others
        → last_hash [] entries ≡ last_hash [] others
        → (ballots entries ≡ ballots others) ⊎ RowCollision [] entries [] others
    unfolding verify_hash_chain
    verify_hash_chain_sound entries others v w n h =
        elim (chains_agree [] [] entries others tt tt n v w h) [
          | inl (prevs, same) ↦ inl same
          | inr collision ↦ inr collision
        ]
