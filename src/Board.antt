-- ===== src/Board.antt =====
-- bulletin-board: `Store` is store/postgres.go over the tables of store/migrations, `Service` is
-- board/board.go, `Api` is api/handlers_public.go and api/handlers_internal.go. The other children hold
-- proofs.
pub mod Store
pub mod Service
pub mod Api
pub mod Valid
pub mod Inserts
pub mod Appends
pub mod Proofs
pub mod Recorded
pub mod Races
pub mod Stored
pub mod Paging
mod Examples
