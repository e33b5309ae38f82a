-- ===== src/Merkle.antt =====
-- crypto/merkle: the append-only RFC 9162 tree of the bulletin board.
-- `Spec` is the recursion of RFC 9162 section 2.1 (that of reference_test.go), and the children that
-- translate no file hold proofs.
pub mod Hash
pub mod Tree
pub mod Spec
pub mod Levels
pub mod Range
pub mod Path
pub mod Verify
pub mod Rounds
pub mod Walk
pub mod Collision
pub mod Sound
pub mod Accepted
mod Examples
