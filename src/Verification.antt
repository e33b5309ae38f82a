-- ===== src/Verification.antt =====
-- verification/: threshold return codes. `Codes` translates codes/codes.go, `Session` translates
-- session/session.go over an explicit heap of scalars, since the source zeroes scalars in place, and
-- `Handler` translates handler.go.
pub mod Codes
pub mod Session
pub mod Handler
pub mod Spent
pub mod Requests
pub mod OneTime
pub mod Wiping
mod Examples
