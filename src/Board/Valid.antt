-- ===== src/Board/Valid.antt =====
-- What holds of the board and its database while one process serves it, and the lemmas on numbered rows.
use otvoren_vot.Prelude.{
  ℕ, zero, suc, ◌+◌, ◌<◌, ◌≡◌, refl, sym, ap, ◌∙◌, true, false, some, List, [], ◌∷◌, ◌++◌, map,
  Bytes, bytes_eq, bytes_eq_sound, leb, ascii, arith, length, get_elem?, Bool-cases, inl, inr,
  le→leb,
}
use otvoren_vot.Merkle.Hash.{Hash, leaf_hash}
use otvoren_vot.Merkle.Levels.{Holds}
use otvoren_vot.Board.Store.{
  BallotRecord, get_max_position, get_record, position_taken, put_in_order, in_order, leaf_data,
  get_board_state,
}
use otvoren_vot.Board.Service.{World}

-- The positions are those after n, in the order of the rows.
abbrev pub Numbered : ℕ → List BallotRecord → Type 0
Numbered n [] = Unit {0}
Numbered n (row ∷ rows) = (row.position ≡ suc n) × Numbered (suc n) rows

abbrev pub leaf_of : (Bytes → Bytes) → BallotRecord → Hash
leaf_of sha256 row = leaf_hash sha256 (leaf_data row)

-- The rows are numbered from 1, the tree holds their leaf hashes, and the seal is the one recorded.
abbrev pub IsValid : (Bytes → Bytes) → World → Type 0
IsValid sha256 w =
    Numbered 0 w.database_rows.ballots
    × Holds sha256 w.board.tree (map (leaf_of sha256) w.database_rows.ballots)
    × (w.board.is_sealed
        ≡ bytes_eq (get_board_state w.database_rows (ascii "sealed")) (ascii "true"))

pub Numbered-append :
    (n : ℕ) (rows : List BallotRecord) (row : BallotRecord)
    → Numbered n rows
    → row.position ≡ n + length rows + 1
    → Numbered n (rows ++ row ∷ [])
Numbered-append n [] row v p = (omega arith, tt)
Numbered-append n (first ∷ rows) row (p, v) q =
    (p, Numbered-append (suc n) rows row v (omega arith))

get_max_position-Numbered :
    (n : ℕ) (row : BallotRecord) (rows : List BallotRecord)
    → Numbered n (row ∷ rows)
    → get_max_position (row ∷ rows) ≡ n + length (row ∷ rows)
unfolding get_max_position
get_max_position-Numbered n row [] (p, v) = ground arith
get_max_position-Numbered n row (next ∷ rows) (p, v) =
    ground (arith, get_max_position-Numbered (suc n) next rows v)

pub get_max_position_lem :
    (rows : List BallotRecord) → Numbered 0 rows → get_max_position rows ≡ length rows
get_max_position_lem [] v = unfold get_max_position in refl
get_max_position_lem (row ∷ rows) v = omega (arith, get_max_position-Numbered 0 row rows v)

-- A position beyond the rows is free.
pub position_taken_free :
    (n m : ℕ) (rows : List BallotRecord)
    → Numbered n rows
    → n + length rows < m
    → position_taken m rows ≡ false
unfolding position_taken
position_taken_free n m [] v h = refl
position_taken_free n m (row ∷ rows) (p, v) h =
    ground (arith, position_taken_free (suc n) m rows v (omega arith))

-- Numbered rows are in order.
pub in_order_lem : (n : ℕ) (rows : List BallotRecord) → Numbered n rows → in_order rows ≡ rows
unfolding in_order put_in_order
in_order_lem n [] v = refl
in_order_lem n (row ∷ []) v = refl
in_order_lem n (row ∷ next ∷ rows) (p, (q, v)) =
    let rest = in_order_lem (suc n) (next ∷ rows) (q, v) in
    let before : leb row.position next.position ≡ true = le→leb _ _ (omega arith) in
    rw (rest, before)

-- A record that is found has the identifier, and stands at the index that its position says.
pub get_record_at :
    (n : ℕ) (id : Bytes) (rows : List BallotRecord) (rec : BallotRecord)
    → Numbered n rows
    → get_record id rows ≡ some rec
    → (i : ℕ) × (get_elem? rows i ≡ some rec) × (rec.position ≡ n + suc i) × (rec.ballot_id ≡ id)
unfolding get_record
get_record_at n id [] rec v h = cc
get_record_at n id (row ∷ rows) rec (p, v) h = elim (Bool-cases (bytes_eq row.ballot_id id)) [
  | inl same ↦
      let e : row ≡ rec = cc in
      (
        0,
        ap some e,
        ap (λ x. x.position) (sym e) ∙ omega (arith, p),
        ap (λ x. x.ballot_id) (sym e) ∙ bytes_eq_sound row.ballot_id id same,
      )
  | inr other ↦
      let found : get_record id rows ≡ some rec = cc in
      let (i, at, number, name) = get_record_at (suc n) id rows rec v found in
      (suc i, at, omega arith, name)
]

pub get_elem?-lt {ℓ} :
    {A : Type ℓ} (xs : List A) (i : ℕ) (x : A) → get_elem? xs i ≡ some x → i < length xs
get_elem?-lt [] i x h = cc
get_elem?-lt (y ∷ xs) zero x h = omega arith
get_elem?-lt (y ∷ xs) (suc i) x h = omega (arith, get_elem?-lt xs i x h)

pub map-append {ℓ κ} :
    {A : Type ℓ} {B : Type κ} (f : A → B) (xs ys : List A) → map f (xs ++ ys) ≡ map f xs ++ map f ys
map-append f [] ys = refl
map-append f (x ∷ xs) ys = ap (◌∷◌ (f x)) (map-append f xs ys)
