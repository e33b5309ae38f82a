-- ===== src/Collection.antt =====
-- collection: `Votermap` is votermap/votermap.go, `Postgres` is store/postgres.go, `Audit` is the chain check
-- and the Merkle root of audit/audit.go and audit/merkle.go, `Report` the report of audit/audit.go,
-- `Handler` is handler.go. The other children hold proofs.
pub mod Votermap
pub mod Postgres
pub mod Audit
pub mod Report
pub mod Handler
pub mod Chains
pub mod Cast
pub mod Tamper
pub mod Submits
pub mod Rows
pub mod Refines
pub mod Replays
pub mod Sorted
pub mod Leaves
pub mod Published
pub mod Reported
mod Examples
mod TableExamples
mod ReportExamples
