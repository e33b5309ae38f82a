-- ===== src/Tally/Submission.antt =====
-- tally/handler.go: what a trustee submits, how it is decoded and verified, and the slot contexts.
use Prim.Native.String.{String}
use otvoren_vot.Prelude.{
  ℕ, zero, suc, ◌%◌, ◌^◌, Bool, true, false, List, [], ◌∷◌, Option, none, some, Bytes, length, ltb,
  ◌==◌, get_elem?, repeat, hex_decode,
}
use otvoren_vot.Crypto.Group.{Ristretto, ok, err, Error, wrong_length, decode_element}
use otvoren_vot.Crypto.Elgamal.{Ciphertext}
use otvoren_vot.Crypto.Threshold.{SlotContext, Partial, verify_partial, tally_digest_of}
use otvoren_vot.Tally.State.{State, both, decode_proof_hex}

pub record PartialProof : Type 0 where
  pub u : Bytes
  pub v : Bytes
  pub z : Bytes

pub record Element : Type 0 where
  pub party_index : ℕ
  pub point : Bytes
  pub proof : Option PartialProof

pub record Submission : Type 0 where
  pub trustee_index : ℕ
  pub partials : List Element

-- What decoding gives: the partials, or the code of the error.
pub data Decoded (A : Type 0) : Type 0 where
  decoded : A → Decoded A
  refused : String → Decoded A

-- A slot index is converted to a uint32.
unfoldable pub slot_contexts_from : Bytes → Bytes → ℕ → ℕ → List SlotContext
slot_contexts_from election_id digest slot zero = []
slot_contexts_from election_id digest slot (suc count) =
    record {
      election_id = election_id;
      slot_index = slot % 2 ^ 32;
      tally_digest = digest;
      set_commitment = repeat 32 0;
      sealed_head = repeat 32 0;
    }
    ∷ slot_contexts_from election_id digest (suc slot) count

-- pds[i] = p
unfoldable pub set_at {ℓ} : {A : Type ℓ} → ℕ → A → List A → List A
set_at i x [] = []
set_at zero x (y ∷ ys) = x ∷ ys
set_at (suc i) x (y ∷ ys) = y ∷ set_at i x ys

-- The sums, where none of them is nil.
unfoldable pub all_set {ℓ} : {A : Type ℓ} → List (Option A) → Option (List A)
all_set [] = some []
all_set (none ∷ xs) = none
all_set (some x ∷ xs) = both (all_set xs) (λ rest. some (x ∷ rest))

point_error : Error → String
point_error wrong_length = "invalid_point_length"
point_error _ = "invalid_point"

module _ {S E : Type 0} (r : Ristretto S E) where
  with_proof : ℕ → E → Option PartialProof → Decoded (Partial S E)
  with_proof trustee d none = refused "invalid_proof_encoding"
  with_proof trustee d (some proof) = elim (decode_proof_hex r proof.u proof.v proof.z) [
    | none ↦ refused "invalid_proof_encoding"
    | some pf ↦ decoded (record { trustee_index = trustee; d = d; proof = pf })
  ]

  with_point : ℕ → Option PartialProof → Option Bytes → Decoded (Partial S E)
  unfolding with_proof point_error
  with_point trustee proof none = refused "invalid_hex"
  with_point trustee proof (some bytes) = elim (decode_element r bytes) [
    | err e ↦ refused (point_error e)
    | ok d ↦ with_proof trustee d proof
  ]

  unfoldable pub decode_partial : ℕ → Element → Decoded (Partial S E)
  unfolding with_point
  decode_partial trustee p = with_point trustee p.proof (hex_decode p.point)

  -- The decoding loop, with the partials so far.
  unfoldable pub decode_partials :
      ℕ → ℕ → List (Option (Partial S E)) → List Element → Decoded (List (Option (Partial S E)))
  unfolding decode_partial set_at
  decode_partials trustee parties pds [] = decoded pds
  decode_partials trustee parties pds (p ∷ rest) = elim (ltb p.party_index parties) [
    | false ↦ refused "invalid_party_index"
    | true ↦ elim (both (get_elem? pds p.party_index) (λ x. x)) [
      | some old ↦ refused "duplicate_party_index"
      | none ↦ elim (decode_partial trustee p) [
        | refused code ↦ refused code
        | decoded pd ↦ decode_partials trustee parties (set_at p.party_index (some pd) pds) rest
      ]
    ]
  ]

  -- `slotContexts`, with the sums it has checked.
  unfoldable pub slot_contexts :
      (Bytes → Bytes) → State S E → Option (List SlotContext × List (Ciphertext E))
  unfolding slot_contexts_from all_set
  slot_contexts sha256 cs = elim (length cs.election_id == 0) [
    | true ↦ none
    | false ↦ both cs.tally_result (λ tr. elim (length tr.encrypted_sums == cs.party_count) [
      | false ↦ none
      | true ↦ both (all_set tr.encrypted_sums) (λ sums. some (
        slot_contexts_from cs.election_id (tally_digest_of r sha256 sums) 0
            (length tr.encrypted_sums),
        sums,
      ))
    ])
  ]

  -- The verification loop. The three lists have the same length.
  unfoldable pub verify_slots :
      List SlotContext → List (Ciphertext E) → E → List (Option (Partial S E)) → Bool
  verify_slots contexts sums key [] = true
  verify_slots contexts sums key (none ∷ pds) = false
  verify_slots [] sums key (some pd ∷ pds) = false
  verify_slots (sc ∷ contexts) [] key (some pd ∷ pds) = false
  verify_slots (sc ∷ contexts) (ct ∷ sums) key (some pd ∷ pds) =
      elim (verify_partial r sc ct pd key) [
        | err e ↦ false
        | ok u ↦ verify_slots contexts sums key pds
      ]
