-- ===== src/Board/Paging.antt =====
-- tally/bbclient.go, `FetchAllBallots`, over bulletin-board/api/handlers_public.go: the pages together.
use otvoren_vot.Prelude.{
  ℕ, zero, suc, ◌+◌, ◌≤◌, ◌<◌, ◌≡◌, ◌≢◌, refl, sym, ap, subst, ◌∙◌, true, false, none, some, List,
  [], ◌∷◌, ◌++◌, map, arith, length, take, drop, take_all, length-take, length-drop, append_assoc,
  drop-drop, le-cases, inl, inr, ◌==◌, ==_iff, lt→ltb, le→ltb, le→leb, leb, success,
}
use otvoren_vot.Tally.Compute.{SerializedBallot, fetch_all_ballots}
use otvoren_vot.Board.Store.{BallotRecord, after, in_order, list_ballots}
use otvoren_vot.Board.Service.{World}
use otvoren_vot.Board.Api.{
  Cursor, no_cursor, position_cursor, page_limit, last_position, next_cursor, page_of,
  handle_list_ballots, serialized, Wire, max_response, fetched, cursor_after, answers,
}
use otvoren_vot.Board.Valid.{Numbered, in_order_lem, map-append}

after_none : (n m : ℕ) (rows : List BallotRecord) → Numbered n rows → m ≤ n → after m rows ≡ rows
unfolding after
after_none n m [] v h = refl
after_none n m (row ∷ rows) (p, v) h =
    rw (after, after_none (suc n) m rows v (omega arith), lt→ltb m row.position (omega arith))

-- The rows after a position are those that follow it.
after-drop :
    (n k : ℕ) (rows : List BallotRecord) → Numbered n rows → after (n + k) rows ≡ drop k rows
unfolding after
after-drop n zero rows v = after_none n (n + zero) rows v (omega arith)
after-drop n (suc k) [] v = refl
after-drop n (suc k) (row ∷ rows) (p, v) =
    let e : n + suc k ≡ suc n + k = omega arith in
    rw (after, le→ltb (n + suc k) row.position (omega arith))
      (ap (λ m. after m rows) e ∙ after-drop (suc n) k rows v)

drop-Numbered :
    (n k : ℕ) (rows : List BallotRecord) → Numbered n rows → Numbered (n + k) (drop k rows)
drop-Numbered n zero rows v = let e : n + zero ≡ n = omega arith in rw (e) v
drop-Numbered n (suc k) [] v = tt
drop-Numbered n (suc k) (row ∷ rows) (p, v) =
    let e : n + suc k ≡ suc n + k = omega arith in rw (e) (drop-Numbered (suc n) k rows v)

take-Numbered : (n k : ℕ) (rows : List BallotRecord) → Numbered n rows → Numbered n (take k rows)
take-Numbered n zero rows v = tt
take-Numbered n (suc k) [] v = tt
take-Numbered n (suc k) (row ∷ rows) (p, v) = (p, take-Numbered (suc n) k rows v)

list_ballots_lem :
    (k limit : ℕ) (rows : List BallotRecord)
    → Numbered 0 rows
    → list_ballots k limit rows ≡ take limit (drop k rows)
unfolding list_ballots
list_ballots_lem k limit rows v =
    let e : 0 + k ≡ k = omega arith in
    let rest : after k rows ≡ drop k rows =
      subst (λ m. after m rows ≡ drop k rows) e (after-drop 0 k rows v) in
    let sorted : in_order (drop k rows) ≡ drop k rows =
      in_order_lem (0 + k) (drop k rows) (drop-Numbered 0 k rows v) in
    ap (λ l. take limit (in_order l)) rest ∙ ap (take limit) sorted

last_position_lem :
    (n : ℕ) (row : BallotRecord) (rows : List BallotRecord)
    → Numbered n (row ∷ rows)
    → last_position (row ∷ rows) ≡ some (n + length (row ∷ rows))
unfolding last_position
last_position_lem n row [] (p, v) = ap some (omega arith)
last_position_lem n row (next ∷ rows) (p, v) =
    last_position_lem (suc n) next rows v ∙ ap some (omega arith)

last_position_page :
    (n : ℕ) (rows : List BallotRecord)
    → Numbered n rows
    → 0 < length rows
    → last_position rows ≡ some (n + length rows)
last_position_page n [] v h = absurd (omega arith)
last_position_page n (row ∷ rows) v h = last_position_lem n row rows v

take-drop-append {ℓ} : {A : Type ℓ} (n : ℕ) (xs : List A) → take n xs ++ drop n xs ≡ xs
take-drop-append zero xs = refl
take-drop-append (suc n) [] = refl
take-drop-append (suc n) (x ∷ xs) = ap (◌∷◌ x) (take-drop-append n xs)

module _ (wire : Wire) (w : World) (limit : ℕ) where
  abbrev rows : List BallotRecord
  rows = w.database_rows.ballots

  module _ (numbered : Numbered 0 w.database_rows.ballots) (low : 0 < limit) (high : limit ≤ 1000)
      (texts : (n : ℕ) → length (wire.cursor_text n) ≢ 0)
      (read_back : (n : ℕ) → wire.decode_cursor (wire.cursor_text n) ≡ position_cursor n)
      (fit : (k : ℕ) → wire.page_size (page_of w k limit) ≤ max_response) where
    page_limit_lem : page_limit (some limit) ≡ limit
    unfolding page_limit
    page_limit_lem = rw (page_limit, lt→ltb 0 limit low, le→leb limit 1000 high)

    -- A page that is not full is the last one.
    last_page :
        (k : ℕ)
        → length (drop k rows) < limit
        → page_of w k limit
          ≡ record { records = drop k rows; next = none; total = (page_of w k limit).total }
    unfolding page_of next_cursor
    last_page k h =
        let all : list_ballots k limit rows ≡ drop k rows =
          list_ballots_lem k limit rows numbered ∙ take_all limit (drop k rows) (omega arith) in
        let short : (length (drop k rows) == limit) ≡ false = ground arith in
        simp (page_of, all, next_cursor, short)

    -- A full page is followed by the ballots after it.
    full_page :
        (k : ℕ)
        → limit ≤ length (drop k rows)
        → page_of w k limit ≡ record {
          records = take limit (drop k rows);
          next = some (k + limit);
          total = (page_of w k limit).total;
        }
    unfolding page_of next_cursor
    full_page k h =
        let page = list_ballots_lem k limit rows numbered in
        let count : length (take limit (drop k rows)) ≡ limit =
          length-take limit (drop k rows) ∙ omega arith in
        let full : (length (take limit (drop k rows)) == limit) ≡ true = (==_iff _ _).1 count in
        let zero_k : 0 + k ≡ k = omega arith in
        let from_k : Numbered k (drop k rows) =
          subst (λ m. Numbered m (drop k rows)) zero_k (drop-Numbered 0 k rows numbered) in
        let last : last_position (take limit (drop k rows)) ≡ some (k + limit) =
          last_position_page k (take limit (drop k rows))
            (take-Numbered k limit (drop k rows) from_k) (omega arith)
          ∙ ap (λ m. some (k + m)) count in
        simp (page_of, page, next_cursor, full, last)

    -- A cursor that asks for the ballots after position k.
    abbrev Asks : Cursor → ℕ → Type 0
    Asks c k = handle_list_ballots w c (some limit) true ≡ success (page_of w k limit)

    position-Asks : (k : ℕ) → Asks (position_cursor k) k
    unfolding handle_list_ballots
    position-Asks k = ap (λ m. success (page_of w k m)) page_limit_lem

    no_cursor-Asks : Asks no_cursor 0
    unfolding handle_list_ballots
    no_cursor-Asks = ap (λ m. success (page_of w 0 m)) page_limit_lem

    within : (k : ℕ) → leb (wire.page_size (page_of w k limit)) max_response ≡ true
    within k = le→leb _ max_response (fit k)

    answers_last :
        (fuel k : ℕ) (c : Cursor)
        → Asks c k
        → length (drop k rows) < limit
        → answers wire w limit (suc fuel) c ≡ some (map serialized (drop k rows), []) ∷ []
    unfolding answers fetched cursor_after
    answers_last fuel k c asks h = rw (
      answers,
      asks,
      fetched,
      within k,
      ap (λ p. p.next) (last_page k h),
      ap (λ p. p.records) (last_page k h),
    )

    answers_full :
        (fuel k : ℕ) (c : Cursor)
        → Asks c k
        → limit ≤ length (drop k rows)
        → answers wire w limit (suc fuel) c
          ≡ some (map serialized (take limit (drop k rows)), wire.cursor_text (k + limit))
            ∷ answers wire w limit fuel (position_cursor (k + limit))
    unfolding answers fetched cursor_after
    answers_full fuel k c asks h = rw (
      answers,
      asks,
      fetched,
      within k,
      ap (λ p. p.next) (full_page k h),
      ap (λ p. p.records) (full_page k h),
      read_back (k + limit),
    )

    joined :
        (k : ℕ) (acc : List SerializedBallot)
        → (acc ++ map serialized (take limit (drop k rows)))
            ++ map serialized (drop (k + limit) rows)
          ≡ acc ++ map serialized (drop k rows)
    joined k acc =
        append_assoc acc _ _
        ∙ ap (λ l. acc ++ l)
            (ap (λ l. map serialized (take limit (drop k rows)) ++ map serialized l)
                (sym (drop-drop limit k rows))
              ∙ sym (map-append serialized (take limit (drop k rows)) (drop limit (drop k rows)))
              ∙ ap (map serialized) (take-drop-append limit (drop k rows)))

    fetch_from :
        (fuel k : ℕ) (c : Cursor) (acc : List SerializedBallot)
        → Asks c k
        → length (drop k rows) < fuel
        → fetch_all_ballots acc (answers wire w limit fuel c)
          ≡ some (acc ++ map serialized (drop k rows))
    unfolding fetch_all_ballots
    fetch_from zero k c acc asks h = absurd (omega arith)
    fetch_from (suc fuel) k c acc asks h = elim (le-cases limit (length (drop k rows))) [
      | inr short ↦ rw (answers_last fuel k c asks short)
      | inl full ↦
          let fewer : length (drop (k + limit) rows) < fuel =
            omega (arith, length-drop (k + limit) rows, length-drop k rows) in
          let more : (length (wire.cursor_text (k + limit)) == 0) ≡ false =
            ground (arith, texts (k + limit)) in
          rw (answers_full fuel k c asks full, fetch_all_ballots, more)
            (fetch_from fuel (k + limit) (position_cursor (k + limit))
                (acc ++ map serialized (take limit (drop k rows))) (position-Asks (k + limit)) fewer
              ∙ ap some (joined k acc))
    ]

    -- `FetchAllBallots` gets every ballot of the board once and in the order of their positions, for every
    -- limit from 1 to 1000, where the rows are numbered from 1, no ballot is added meanwhile, no page is
    -- longer than the 64 MiB that the client reads, the text of a cursor is never empty and is read back
    -- as its position, and there are more requests than ballots.
    pub fetch_all_ballots-answers :
        (fuel : ℕ)
        → length rows < fuel
        → fetch_all_ballots [] (answers wire w limit fuel no_cursor) ≡ some (map serialized rows)
    fetch_all_ballots-answers fuel h = fetch_from fuel 0 no_cursor [] no_cursor-Asks h
