-- ===== src/Board/Proofs.antt =====
-- bulletin-board/board/board.go: what a voter and a restarted process get from a valid board.
use otvoren_vot.Prelude.{
  get_elem?-map, ℕ, suc, ◌-◌, ◌<◌, ◌≡◌, refl, sym, ap, subst, ◌∙◌, true, false, none, some, List,
  [], ◌∷◌, ◌++◌, map, Bytes, bytes_eq, bytes_eq_refl, ascii, arith, length, take_all, append-nil,
  append_assoc, ltb, get_elem?, lookup-insert_same, bytes_Eq, lt→leb, le→ltb,
}
use otvoren_vot.Merkle.Hash.{Hash, ok}
use otvoren_vot.Merkle.Tree.{Tree, new, root, root_at, size, inclusion_proof}
use otvoren_vot.Merkle.Verify.{verify_inclusion}
use otvoren_vot.Merkle.Spec.{mth}
use otvoren_vot.Merkle.Levels.{Holds, new-Holds, append-Holds, size-Holds}
use otvoren_vot.Merkle.Range.{root_lem, root_at_lem}
use otvoren_vot.Merkle.Walk.{verify_inclusion-inclusion_proof}
use otvoren_vot.Board.Store.{
  BallotRecord, Database, Postgres, returned, failed, board_sealed, get_record, get_all_leaf_data,
  leaf_data, get_board_state, set_board_state,
}
use otvoren_vot.Board.Service.{
  Board, World, Attempt, Inclusion, append_all, with_tree, new_board, inclusion_of,
  inclusion_result, get_ballot, seal, append_ballot,
}
use otvoren_vot.Board.Valid.{IsValid, leaf_of, in_order_lem, get_record_at, get_elem?-lt}

module _ (sha256 : Bytes → Bytes) where
  inclusion_of_at :
      (board : Board) (rec : BallotRecord) (i n : ℕ) (proof : List Hash) (h : Hash)
      → size board.tree ≡ n
      → rec.position ≡ suc i
      → i < n
      → inclusion_proof sha256 board.tree i n ≡ ok proof
      → root sha256 board.tree ≡ ok h
      → inclusion_of sha256 board rec
        ≡ returned (rec, record { proof = proof; tree_size = n; tree_root = h })
  unfolding inclusion_of inclusion_result
  inclusion_of_at board rec i n proof h count p below given head =
      let index : rec.position - 1 ≡ i = omega arith in
      let low : ltb rec.position 1 ≡ false = le→ltb rec.position 1 (omega arith) in
      simp (inclusion_of, index, count, low, lt→leb n i below, given, head)

  -- The proof of the leaf at the position of the record, against the whole tree.
  inclusion_of_lem :
      (board : Board) (leaves : List Hash) (rec : BallotRecord) (i : ℕ)
      → Holds sha256 board.tree leaves
      → get_elem? leaves i ≡ some (leaf_of sha256 rec)
      → rec.position ≡ suc i
      → (inc : Inclusion) × (inclusion_of sha256 board rec ≡ returned (rec, inc))
        × (root sha256 board.tree ≡ ok inc.tree_root)
        × (verify_inclusion sha256
              (leaf_of sha256 rec)
              (rec.position - 1)
              inc.tree_size
              inc.proof
              inc.tree_root
            ≡ ok tt)
  inclusion_of_lem board leaves rec i holds at p =
      let n = length leaves in
      let i_below : i < n = get_elem?-lt leaves i (leaf_of sha256 rec) at in
      let (proof, head, given, head_is, accepted) =
        verify_inclusion-inclusion_proof sha256 board.tree leaves i n (leaf_of sha256 rec) holds at
          i_below (omega arith) in
      let whole : root sha256 board.tree ≡ root_at sha256 board.tree n =
        root_lem sha256 board.tree leaves holds
        ∙ ap (λ l. ok (mth sha256 l)) (sym (take_all n leaves (omega arith)))
        ∙ sym (root_at_lem sha256 board.tree leaves n holds (omega arith)) in
      let count : size board.tree ≡ n = size-Holds sha256 board.tree leaves holds in
      let index : rec.position - 1 ≡ i = omega arith in
      (
        record { proof = proof; tree_size = n; tree_root = head },
        inclusion_of_at board rec i n proof head count p i_below given (whole ∙ head_is),
        whole ∙ head_is,
        rw (index) accepted,
      )

  get_ballot_found :
      (w : World) (id : Bytes) (rec : BallotRecord) (inc : Inclusion)
      → get_record id w.database_rows.ballots ≡ some rec
      → inclusion_of sha256 w.board rec ≡ returned (rec, inc)
      → get_ballot sha256 w id ≡ some (returned (rec, inc))
  unfolding get_ballot
  get_ballot_found w id rec inc found gives = simp (get_ballot, found, gives)

  -- On a valid board `GetBallot` gives every ballot in the table with the tree's current root and a
  -- proof that `VerifyInclusion` accepts for the ballot's leaf and that root.
  pub get_ballot-verify_inclusion :
      (w : World) (id : Bytes) (rec : BallotRecord)
      → IsValid sha256 w
      → get_record id w.database_rows.ballots ≡ some rec
      → (inc : Inclusion) × (get_ballot sha256 w id ≡ some (returned (rec, inc)))
        × (root sha256 w.board.tree ≡ ok inc.tree_root)
        × (verify_inclusion sha256
              (leaf_of sha256 rec)
              (rec.position - 1)
              inc.tree_size
              inc.proof
              inc.tree_root
            ≡ ok tt)
  unfolding get_ballot
  get_ballot-verify_inclusion w id rec (numbered, holds, agreed) found =
      let rows = w.database_rows.ballots in
      let (i, at, number, name) = get_record_at 0 id rows rec numbered found in
      let (inc, gives, head, accepted) =
        inclusion_of_lem w.board (map (leaf_of sha256) rows) rec i holds
          (get_elem?-map (leaf_of sha256) rows i rec at) (omega arith) in
      (inc, get_ballot_found w id rec inc found gives, head, accepted)

  pub append_all-Holds :
      (t : Tree) (leaves : List Hash) (rows : List BallotRecord)
      → Holds sha256 t leaves
      → (t' : Tree) × (append_all sha256 t (map leaf_data rows) ≡ ok t')
        × Holds sha256 t' (leaves ++ map (leaf_of sha256) rows)
  unfolding append_all
  append_all-Holds t leaves [] v = (t, refl, subst (Holds sha256 t) (sym (append-nil leaves)) v)
  append_all-Holds t leaves (row ∷ rows) v =
      let (t1, grows, v1) = append-Holds sha256 t leaves (leaf_data row) v in
      let (t2, rest, v2) = append_all-Holds t1 (leaves ++ leaf_of sha256 row ∷ []) rows v1 in
      (t2, rw (grows) rest, subst (Holds sha256 t2) (append_assoc leaves _ _) v2)

  -- A process that starts on the database of a valid board gets a valid board with the same root and the
  -- same seal, over the same rows.
  pub new_board-IsValid :
      (w : World)
      → IsValid sha256 w
      → (w' : World) × (new_board sha256 w.database_rows ≡ returned w')
        × IsValid sha256 w'
        × (w'.database_rows ≡ w.database_rows)
        × (w'.board.is_sealed ≡ w.board.is_sealed)
        × (root sha256 w'.board.tree ≡ root sha256 w.board.tree)
  unfolding new_board with_tree get_all_leaf_data
  new_board-IsValid w (numbered, holds, agreed) =
      let db = w.database_rows in
      let (t, built, whole) = append_all-Holds new [] db.ballots (new-Holds sha256) in
      let sealed = bytes_eq (get_board_state db (ascii "sealed")) (ascii "true") in
      (
        record {
          database_rows = db;
          board = record { tree = t; is_sealed = sealed; validate_fn = none };
        },
        rw (in_order_lem 0 db.ballots numbered, built),
        (numbered, whole, refl),
        refl,
        sym agreed,
        root_lem sha256 t _ whole ∙ sym (root_lem sha256 w.board.tree _ holds),
      )

  set_then_get :
      (db : Database) (key value : Bytes)
      → get_board_state (set_board_state db key value) key ≡ value
  unfolding get_board_state set_board_state
  set_then_get db key value = simp (get_board_state, lookup-insert_same key value db.board_state)

  -- Sealing keeps the board valid, and whatever is submitted to a board that starts on the database
  -- afterwards is refused, with the database left as it is.
  pub seal-new_board :
      (pg : Postgres) (w : World) (id ballot proofs : Bytes) (attempts : ℕ → Attempt)
      → IsValid sha256 w
      → IsValid sha256 (seal w true).0
        × ((w' : World) × (new_board sha256 (seal w true).0.database_rows ≡ returned w')
            × (append_ballot sha256 pg w' id ballot proofs attempts ≡ (w', failed board_sealed)))
  unfolding seal append_ballot
  seal-new_board pg w id ballot proofs attempts (numbered, holds, agreed) =
      let db = set_board_state w.database_rows (ascii "sealed") (ascii "true") in
      let stored : get_board_state db (ascii "sealed") ≡ ascii "true" =
        set_then_get w.database_rows (ascii "sealed") (ascii "true") in
      let valid : IsValid sha256 (seal w true).0 = (
        unfold set_board_state in numbered,
        unfold set_board_state in holds,
        rw (stored) (sym (bytes_eq_refl (ascii "true"))),
      ) in
      let (w', starts, valid', rows, seals, roots) = new_board-IsValid (seal w true).0 valid in
      (valid, (w', starts, simp (append_ballot, seals)))
