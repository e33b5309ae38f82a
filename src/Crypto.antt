-- ===== src/Crypto.antt =====
-- crypto: the ristretto255 layer, exponential ElGamal, the Chaum-Pedersen proof, Feldman sharing and
-- threshold decryption.
pub mod Group
pub mod Elgamal
pub mod Proof
pub mod Feldman
pub mod Threshold
pub mod Dkg
pub mod Shares
pub mod Joint
pub mod Generated
pub mod Ballot
pub mod Complete
pub mod Logarithm
pub mod Homomorphic
pub mod Honest
pub mod Consistent
pub mod Integers
pub mod Parity
pub mod Numbers
mod Examples
pub mod Vectors
pub mod Collected
pub mod Shaped
pub mod Counted
pub mod Tallied
pub mod Places
pub mod InRange
pub mod SharingExamples
