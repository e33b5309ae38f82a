-- ===== src/Tally/Acceptance.antt =====
-- The branches of `decryptLocked` and of what follows a verified submission (tally/handler.go).
use otvoren_vot.Prelude.{
  ℕ, ◌≤◌, Bool, false, List, [], ◌∷◌, ◌++◌, Option, some, Bytes, length, take, leb, ltb,
  if◌then◌else◌, insert, nat_Eq, success, failure, ◌≡◌, inl, inr, Bool-cases, Option-cases, arith,
}
use otvoren_vot.Crypto.Group.{Ristretto}
use otvoren_vot.Crypto.Elgamal.{Ciphertext}
use otvoren_vot.Crypto.Threshold.{Partial, SlotContext}
use otvoren_vot.Tally.State.{decrypted, State}
use otvoren_vot.Tally.Compute.{decrypt_tally}
use otvoren_vot.Tally.Submission.{slot_contexts}
use otvoren_vot.Tally.Journal.{World, Step, store_state, set_phase}
use otvoren_vot.Tally.Handler.{Answer, accepted, decryption_threshold, decrypt_locked, accept}

-- The ceremony with one more trustee's partials.
unfoldable pub submitted : {S E : Type 0} → State S E → ℕ → List (Option (Partial S E)) → State S E
submitted cs trustee pds = record cs {
  partials = insert trustee pds cs.partials;
  trustee_order = cs.trustee_order ++ trustee ∷ [];
}

module _ {S E : Type 0} (r : Ristretto S E) (sha256 : Bytes → Bytes) (keys : List (ℕ × E)) where
  pub decrypt_locked_cases :
      (P : World S E × Bool → Type 0) (w : World S E) (cs : State S E) (now : ℕ) (written : Bool)
      → P (w, false)
      → ((contexts : List SlotContext) (sums : List (Ciphertext E)) (results : List ℕ)
          → slot_contexts r sha256 cs ≡ some (contexts, sums)
          → decryption_threshold ≤ length cs.trustee_order
          → decrypt_tally r sums contexts cs.partials
              (take decryption_threshold cs.trustee_order)
              keys
              decryption_threshold
            ≡ some results
          → P (
              set_phase r w
                (record cs { results = results; decrypted_at = some now })
                decrypted
                written))
      → P (decrypt_locked r sha256 w cs keys now written)
  unfolding decrypt_locked
  decrypt_locked_cases P w cs now written refusal decision =
      elim (Option-cases (slot_contexts r sha256 cs)) [
        | inl e ↦ rw (e, decrypt_locked) refusal
        | inr ((contexts, sums), e) ↦
            elim (Bool-cases (ltb (length cs.trustee_order) decryption_threshold)) [
              | inl q ↦ rw (e, decrypt_locked) (rw (q) refusal)
              | inr q ↦
                  elim (Option-cases (
                    decrypt_tally r sums contexts cs.partials
                      (take decryption_threshold cs.trustee_order) keys decryption_threshold)) [
                        | inl d ↦ rw (e, decrypt_locked) (rw (q) (rw (d) refusal))
                        | inr (results, d) ↦
                            rw (e, decrypt_locked)
                              (rw (q) (rw (d) (decision contexts sums results e (ground arith) d)))
                      ]
            ]
      ]

  pub accept_cases :
      (P : Step S E Answer → Type 0) (w : World S E) (cs : State S E) (trustee : ℕ)
      (pds : List (Option (Partial S E))) (now : ℕ) (a b : Bool)
      → P ((store_state r w (submitted cs trustee pds) a).0, failure 500 "state_error")
      → P ((store_state r w (submitted cs trustee pds) a).0, success accepted)
      → (let x =
            decrypt_locked r sha256
              (store_state r w (submitted cs trustee pds) a).0
              (submitted cs trustee pds)
              keys
              now
              b in
          P (x.0, if x.1 then success accepted else failure 500 "decrypt_error"))
      → P (accept r sha256 w cs keys trustee pds now a b)
  unfolding submitted accept
  accept_cases P w cs trustee pds now a b unsaved below reached =
      elim (Bool-cases (store_state r w (submitted cs trustee pds) a).1) [
        | inr s ↦ rw (s, accept) unsaved
        | inl s ↦
            elim (Bool-cases
              (leb decryption_threshold (length (submitted cs trustee pds).partials))) [
                | inr l ↦ rw (s, accept) (rw (l) below)
                | inl l ↦ rw (s, accept) (rw (l) reached)
              ]
      ]
