-- ===== src/Board/Appends.antt =====
-- bulletin-board/board/board.go, `AppendBallot`: what it does to a valid board, on every branch.
use otvoren_vot.Prelude.{
  ℕ, ◌+◌, ◌≡◌, refl, sym, ap, subst, ◌∙◌, true, false, [], ◌∷◌, ◌++◌, map, Bytes, arith, length,
  Bool-cases, ◌⊎◌, inl, inr, hex_encode,
}
use otvoren_vot.Merkle.Tree.{Tree}
use otvoren_vot.Merkle.Spec.{mth}
use otvoren_vot.Merkle.Levels.{Holds, append-Holds}
use otvoren_vot.Merkle.Range.{root_lem}
use otvoren_vot.Board.Store.{
  BallotRecord, Database, Postgres, Failure, unanswered, board_sealed, proof_validation, database,
  Outcome, returned, failed, encode_leaf, leaf_data, get_board_state,
}
use otvoren_vot.Board.Service.{
  World, Attempt, AppendResult, insert_attempts, max_retries, validated, append_ballot, inserted,
  grown, append_result,
}
use otvoren_vot.Board.Valid.{IsValid, leaf_of, Numbered-append, map-append}
use otvoren_vot.Board.Inserts.{
  Canonical, Alone, next_record, with_row, Fresh, insert_attempts-cases,
}

-- The world with the row in the table and the tree t.
abbrev pub with_ballot : World → BallotRecord → Tree → World
with_ballot w rec t = record {
  database_rows = with_row w.database_rows rec;
  board = record w.board { tree = t };
}

module _ (sha256 : Bytes → Bytes) where
  -- The answer: the position, and the root of the RFC's tree over all ballots in hex.
  abbrev pub appended : World → BallotRecord → AppendResult
  appended w rec = record {
    position = length w.database_rows.ballots + 1;
    merkle_root =
        hex_encode (mth sha256 (map (leaf_of sha256) (w.database_rows.ballots ++ rec ∷ [])));
  }

  -- The row is in the table: the tree takes its leaf and the answer is the new root.
  inserted_lem :
      (w : World) (rec : BallotRecord)
      → IsValid sha256 w
      → rec.position ≡ length w.database_rows.ballots + 1
      → (t : Tree) × (inserted sha256 w.board
            (leaf_data rec)
            (with_row w.database_rows rec, returned (length w.database_rows.ballots + 1))
          ≡ (with_ballot w rec t, returned (appended w rec)))
        × IsValid sha256 (with_ballot w rec t)
  unfolding inserted grown append_result get_board_state
  inserted_lem w rec (numbered, holds, agreed) p =
      let rows = w.database_rows.ballots in
      let (t, grows, whole) =
        append-Holds sha256 w.board.tree (map (leaf_of sha256) rows) (leaf_data rec) holds in
      let mapped : map (leaf_of sha256) (rows ++ rec ∷ [])
          ≡ map (leaf_of sha256) rows ++ leaf_of sha256 rec ∷ [] =
        map-append (leaf_of sha256) rows (rec ∷ []) in
      let after : Holds sha256 t (map (leaf_of sha256) (rows ++ rec ∷ [])) =
        subst (Holds sha256 t) (sym mapped) whole in
      (
        t,
        rw (grows, root_lem sha256 t _ after),
        (Numbered-append 0 rows rec numbered (omega arith), after, agreed),
      )

  module _ (pg : Postgres) where
    pub append_ballot-open :
        (w : World) (id ballot proofs : Bytes) (attempts : ℕ → Attempt)
        → w.board.is_sealed ≡ false
        → validated w.board.validate_fn ballot proofs ≡ true
        → append_ballot sha256 pg w id ballot proofs attempts
          ≡ inserted sha256 w.board
              (encode_leaf id ballot proofs)
              (insert_attempts pg max_retries attempts w.database_rows id ballot proofs)
    unfolding append_ballot
    append_ballot-open w id ballot proofs attempts e g = simp (append_ballot, e, g)

    -- The error of an INSERT whose answer was lost: the row is in the table, the tree is as before.
    abbrev pub Lost : World → Bytes → Bytes → Bytes → (ℕ → Attempt) → Type 0
    Lost w id ballot proofs attempts =
        (append_ballot sha256 pg w id ballot proofs attempts ≡ (
          record {
            database_rows = with_row w.database_rows (next_record w.database_rows id ballot proofs);
            board = w.board;
          },
          failed database,
        ))
        × ((n : ℕ) × ((attempts n).writes ≡ unanswered))

    -- The ballot is appended, or the call fails and nothing changes, or the INSERT's answer is lost.
    pub append_ballot-cases :
        (w : World) (id ballot proofs : Bytes) (attempts : ℕ → Attempt)
        → IsValid sha256 w
        → Canonical pg ballot
        → Canonical pg proofs
        → Alone attempts
        → ((t : Tree) × (append_ballot sha256 pg w id ballot proofs attempts ≡ (
          with_ballot w (next_record w.database_rows id ballot proofs) t,
          returned (appended w (next_record w.database_rows id ballot proofs)),
        ))
            × IsValid sha256 (with_ballot w (next_record w.database_rows id ballot proofs) t)
            × Fresh w.database_rows id)
          ⊎ (((f : Failure) × (append_ballot sha256 pg w id ballot proofs attempts ≡ (w, failed f)))
              ⊎ Lost w id ballot proofs attempts)
    unfolding append_ballot leaf_data inserted
    append_ballot-cases w id ballot proofs attempts v c d alone =
        elim (Bool-cases w.board.is_sealed) [
          | inl e ↦ inr (inl (board_sealed, simp (append_ballot, e)))
          | inr e ↦ elim (Bool-cases (validated w.board.validate_fn ballot proofs)) [
            | inr g ↦ inr (inl (proof_validation, simp (append_ballot, e, g)))
            | inl g ↦
                let opens = append_ballot-open w id ballot proofs attempts e g in
                let then : Database × Outcome ℕ → World × Outcome AppendResult =
                  inserted sha256 w.board (encode_leaf id ballot proofs) in
                elim (insert_attempts-cases pg max_retries attempts w.database_rows id ballot proofs
                  v.0 c d alone) [
                    | inr (inl (f, refused)) ↦ inr (inl (f, opens ∙ ap then refused))
                    | inr (inr (lost, fresh, cut)) ↦ inr (inr (opens ∙ ap then lost, cut))
                    | inl (done, fresh) ↦
                        let rec = next_record w.database_rows id ballot proofs in
                        let (t, answer, valid) = inserted_lem w rec v refl in
                        inl (t, opens ∙ ap then done ∙ answer, valid, fresh)
                  ]
          ]
        ]

    -- `AppendBallot` keeps the board valid on every branch but one, where the process is the only one
    -- that writes and the database gives back the two JSON texts as they were: the rows are numbered from
    -- 1 and the tree holds their leaf hashes. The branch left is that of an INSERT that is run and whose
    -- answer is lost: the call then returns the database's error, the table has the new row, and the
    -- board, its tree included, is as before.
    pub append_ballot-IsValid :
        (w : World) (id ballot proofs : Bytes) (attempts : ℕ → Attempt)
        → IsValid sha256 w
        → Canonical pg ballot
        → Canonical pg proofs
        → Alone attempts
        → IsValid sha256 (append_ballot sha256 pg w id ballot proofs attempts).0
          ⊎ Lost w id ballot proofs attempts
    append_ballot-IsValid w id ballot proofs attempts v c d alone =
        elim (append_ballot-cases w id ballot proofs attempts v c d alone) [
          | inl (t, e, valid, fresh) ↦ inl (subst (λ x. IsValid sha256 x.0) (sym e) valid)
          | inr (inl (f, e)) ↦ inl (subst (λ x. IsValid sha256 x.0) (sym e) v)
          | inr (inr lost) ↦ inr lost
        ]
