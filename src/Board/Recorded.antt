-- ===== src/Board/Recorded.antt =====
-- bulletin-board/board/board.go: the ballot that `AppendBallot` accepts and what `GetBallot` then gives,
-- and the leaf's encoding.
use otvoren_vot.Prelude.{
  ℕ, ◌-◌, ◌/◌, ◌%◌, ◌<◌, ◌≡◌, ◌≢◌, refl, sym, ap, ◌∙◌, none, some, List, [], ◌∷◌, ◌++◌, Bytes,
  bytes_eq_refl, arith, length, hex_encode, inl, inr, u32be, length_prefixed, append_assoc,
}
use otvoren_vot.Merkle.Hash.{Hash, ok, leaf_hash}
use otvoren_vot.Merkle.Verify.{verify_inclusion}
use otvoren_vot.Merkle.Range.{root_lem}
use otvoren_vot.Board.Store.{
  BallotRecord, Postgres, returned, failed, database, Failure, get_record, encode_leaf, leaf_data,
}
use otvoren_vot.Board.Service.{World, Attempt, AppendResult, Inclusion, get_ballot, append_ballot}
use otvoren_vot.Board.Valid.{IsValid}
use otvoren_vot.Board.Inserts.{Canonical, Alone, next_record}
use otvoren_vot.Board.Appends.{with_ballot, appended, append_ballot-cases}
use otvoren_vot.Board.Proofs.{get_ballot-verify_inclusion}

get_record_last :
    (rows : List BallotRecord) (rec : BallotRecord)
    → get_record rec.ballot_id rows ≡ none
    → get_record rec.ballot_id (rows ++ rec ∷ []) ≡ some rec
unfolding get_record
get_record_last [] rec h = rw (get_record, bytes_eq_refl rec.ballot_id)
get_record_last (row ∷ rows) rec h = ground (arith, get_record_last rows rec)

module _ (sha256 : Bytes → Bytes) (pg : Postgres) where
  -- Where `AppendBallot` on a valid board answers with a position and a root, `GetBallot` for the same
  -- identifier then gives the ballot at that position, with that root and a proof that `VerifyInclusion`
  -- accepts for the hash of the ballot's leaf. The process is the only one that writes, and the database
  -- gives back the two JSON texts as they were.
  pub append_ballot-get_ballot :
      (w : World) (id ballot proofs : Bytes) (attempts : ℕ → Attempt) (a : AppendResult)
      → IsValid sha256 w
      → Canonical pg ballot
      → Canonical pg proofs
      → Alone attempts
      → (append_ballot sha256 pg w id ballot proofs attempts).1 ≡ returned a
      → (rec : BallotRecord) × (inc : Inclusion) × (get_ballot sha256
            (append_ballot sha256 pg w id ballot proofs attempts).0
            id
          ≡ some (returned (rec, inc)))
        × (rec.position ≡ a.position)
        × (hex_encode inc.tree_root ≡ a.merkle_root)
        × (verify_inclusion sha256
              (leaf_hash sha256 (encode_leaf id ballot proofs))
              (a.position - 1)
              inc.tree_size
              inc.proof
              inc.tree_root
            ≡ ok tt)
  append_ballot-get_ballot w id ballot proofs attempts a v c d alone answered =
      elim (append_ballot-cases sha256 pg w id ballot proofs attempts v c d alone) [
        | inr (inl (f, e)) ↦ absurd (returned-failed a f (sym answered ∙ ap (λ x. x.1) e))
        | inr (inr (e, cut)) ↦ absurd (returned-failed a database (sym answered ∙ ap (λ x. x.1) e))
        | inl (t, e, valid, fresh) ↦
            let rec = next_record w.database_rows id ballot proofs in
            let w' = with_ballot w rec t in
            let found = get_record_last w.database_rows.ballots rec fresh in
            let (inc, gives, head, accepted) =
              get_ballot-verify_inclusion sha256 w' id rec valid found in
            let answer : a ≡ appended sha256 w rec =
              returned_inj (sym answered ∙ ap (λ x. x.1) e) in
            let same_root = sym head ∙ root_lem sha256 t _ valid.1 in
            (
              rec,
              inc,
              ap (λ x. get_ballot sha256 x.0 id) e ∙ gives,
              sym (ap (λ x. x.position) answer),
              ap hex_encode (ok_inj same_root) ∙ sym (ap (λ x. x.merkle_root) answer),
              rw (answer) (unfold leaf_data in accepted),
            )
      ]
    where
      returned-failed : (a : AppendResult) (f : Failure) → returned a ≢ failed f
      returned-failed a f = λ h. cc

      returned_inj : {x y : AppendResult} → returned x ≡ returned y → x ≡ y
      returned_inj h = cc

      ok_inj : {x y : Hash} → ok x ≡ ok y → x ≡ y
      ok_inj h = cc

append_split : (xs ys r s : Bytes) → length xs ≡ length ys → xs ++ r ≡ ys ++ s → (xs ≡ ys) × (r ≡ s)
append_split [] [] r s n h = (refl, h)
append_split [] (y ∷ ys) r s n h = absurd (omega arith)
append_split (x ∷ xs) [] r s n h = absurd (omega arith)
append_split (x ∷ xs) (y ∷ ys) r s n h =
    let head : x ≡ y = cc in
    let tail : xs ++ r ≡ ys ++ s = cc in
    let (p, q) = append_split xs ys r s (omega arith) tail in (cc, q)

u32be_inj :
    (m n : ℕ) (r s : Bytes)
    → m < 4_294_967_296
    → n < 4_294_967_296
    → u32be m ++ r ≡ u32be n ++ s
    → (m ≡ n) × (r ≡ s)
unfolding u32be
u32be_inj m n r s p q h =
    let b3 : m / 16_777_216 % 256 ≡ n / 16_777_216 % 256 = cc in
    let b2 : m / 65_536 % 256 ≡ n / 65_536 % 256 = cc in
    let b1 : m / 256 % 256 ≡ n / 256 % 256 = cc in
    let b0 : m % 256 ≡ n % 256 = cc in (omega arith, cc)

length_prefixed_split :
    (xs ys r s : Bytes)
    → length xs < 4_294_967_296
    → length ys < 4_294_967_296
    → length_prefixed xs ++ r ≡ length_prefixed ys ++ s
    → (xs ≡ ys) × (r ≡ s)
unfolding length_prefixed
length_prefixed_split xs ys r s p q h =
    let (n, rest) =
      u32be_inj (length xs) (length ys) (xs ++ r) (ys ++ s) p q
        (sym (append_assoc (u32be (length xs)) xs r) ∙ h ∙ append_assoc (u32be (length ys)) ys s) in
    append_split xs ys r s n rest

-- Ballots whose three fields are shorter than 2^32 bytes and that have the same leaf are the same.
pub encode_leaf_inj :
    (id ballot proofs id' ballot' proofs' : Bytes)
    → length id < 4_294_967_296
    → length ballot < 4_294_967_296
    → length proofs < 4_294_967_296
    → length id' < 4_294_967_296
    → length ballot' < 4_294_967_296
    → length proofs' < 4_294_967_296
    → encode_leaf id ballot proofs ≡ encode_leaf id' ballot' proofs'
    → (id ≡ id') × (ballot ≡ ballot') × (proofs ≡ proofs')
unfolding encode_leaf
encode_leaf_inj id ballot proofs id' ballot' proofs' a b c a' b' c' h =
    let (ids, h1) = length_prefixed_split id id' _ _ a a' h in
    let (ballots, h2) = length_prefixed_split ballot ballot' _ _ b b' h1 in
    let (same, h3) = length_prefixed_split proofs proofs' [] [] c c' (ap (λ x. x ++ []) h2) in
    (ids, ballots, same)
