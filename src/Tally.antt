-- ===== src/Tally.antt =====
-- tally: the decryption ceremony. `State` and `Compute` are tally/state.go and tally/ceremony,
-- `Submission`, `Journal`, `Start` and `Handler` are tally/handler.go; the other children hold proofs.
pub mod State
pub mod Compute
pub mod Submission
pub mod Journal
pub mod Start
pub mod Handler
pub mod Cases
pub mod Acceptance
pub mod Lifecycle
pub mod Recovered
pub mod Reach
pub mod Answers
mod Examples
mod OneSlot
