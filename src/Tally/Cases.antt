-- ===== src/Tally/Cases.antt =====
-- The branches of `handlePartialDecryption` (tally/handler.go), as one case analysis.
use Prim.Native.String.{String}
use otvoren_vot.Prelude.{
  ℕ, Bool, true, List, Option, none, some, Bytes, length, repeat, ◌==◌, bytes_eq, bytes_eq_refl,
  bytes_eq_sound, lookup, nat_Eq, success, failure, ◌≡◌, refl, ◌≢◌, ◌⊎◌, inl, inr, Bool-cases,
  Option-cases, arith,
}
use otvoren_vot.Crypto.Group.{Ristretto}
use otvoren_vot.Crypto.Elgamal.{Ciphertext}
use otvoren_vot.Crypto.Threshold.{Partial, SlotContext}
use otvoren_vot.Tally.State.{
  Phase, fetching, tallying, awaiting_trustees, decrypted, finalized, failed, State,
}
use otvoren_vot.Tally.Submission.{
  Submission, decoded, refused, Decoded, decode_partials, slot_contexts, verify_slots,
}
use otvoren_vot.Tally.Journal.{World, Step, phase_is, named}
use otvoren_vot.Tally.Handler.{
  Answer, already_submitted, accept, verify_submission, submit, handle_partial_decryption,
}

pub phase_is_sound : (p q : Phase) → phase_is p q ≡ true → p ≡ q
phase_is_sound fetching fetching h = refl
phase_is_sound tallying tallying h = refl
phase_is_sound awaiting_trustees awaiting_trustees h = refl
phase_is_sound decrypted decrypted h = refl
phase_is_sound finalized finalized h = refl
phase_is_sound failed failed h = refl
phase_is_sound p q h = cc

Decoded-cases :
    {A : Type 0} (d : Decoded A)
    → ((a : A) × (d ≡ decoded a)) ⊎ ((code : String) × (d ≡ refused code))
Decoded-cases (decoded a) = inl (a, refl)
Decoded-cases (refused code) = inr (code, refl)

pub named_cases :
    {S E : Type 0} {A : Type 0} (P : A → Type 0) (o : Option (State S E)) (id : Bytes) (missing : A)
    (f : State S E → A)
    → P missing
    → ((cs : State S E) → o ≡ some cs → P (f cs))
    → P (named o id missing f)
unfolding named
named_cases P none id missing f h k = h
named_cases P (some cs) id missing f h k = elim (Bool-cases (bytes_eq cs.id id)) [
  | inl n ↦ rw (n, named) (k cs refl)
  | inr n ↦ rw (n, named) h
]

pub named_cases_id :
    {S E : Type 0} {A : Type 0} (P : A → Type 0) (o : Option (State S E)) (id : Bytes) (missing : A)
    (f : State S E → A)
    → P missing
    → ((cs : State S E) → o ≡ some cs → cs.id ≡ id → P (f cs))
    → P (named o id missing f)
unfolding named
named_cases_id P none id missing f h k = h
named_cases_id P (some cs) id missing f h k = elim (Bool-cases (bytes_eq cs.id id)) [
  | inl n ↦ rw (n, named) (k cs refl (bytes_eq_sound cs.id id n))
  | inr n ↦ rw (n, named) h
]

pub named_found :
    {S E : Type 0} {A : Type 0} (o : Option (State S E)) (cs : State S E) (missing : A)
    (f : State S E → A)
    → o ≡ some cs
    → named o cs.id missing f ≡ f cs
unfolding named
named_found o cs missing f e = rw (e) (rw (bytes_eq_refl cs.id, named) refl)

module _ {S E : Type 0} (r : Ristretto S E) (sha256 : Bytes → Bytes) (keys : List (ℕ × E)) where
  pub verify_submission_cases :
      (P : Step S E Answer → Type 0) (w : World S E) (cs : State S E) (key : E) (trustee : ℕ)
      (pds : List (Option (Partial S E))) (now : ℕ) (a b : Bool)
      → ((c : ℕ) (code : String) → c ≢ 500 → P (w, failure c code))
      → ((contexts : List SlotContext) (sums : List (Ciphertext E))
          → slot_contexts r sha256 cs ≡ some (contexts, sums)
          → verify_slots r contexts sums key pds ≡ true
          → P (accept r sha256 w cs keys trustee pds now a b))
      → P (verify_submission r sha256 w cs keys key trustee pds now a b)
  unfolding verify_submission
  verify_submission_cases P w cs key trustee pds now a b refusal acceptance =
      elim (Option-cases (slot_contexts r sha256 cs)) [
        | inl e ↦ rw (e, verify_submission) (refusal 503 "tally_unavailable" (omega arith))
        | inr ((contexts, sums), e) ↦ elim (Bool-cases (verify_slots r contexts sums key pds)) [
          | inl v ↦ rw (e, verify_submission) (rw (v) (acceptance contexts sums e v))
          | inr v ↦
              rw (e, verify_submission) (rw (v) (refusal 422 "invalid_partial_proof" (omega arith)))
        ]
      ]

  pub submit_cases :
      (P : Step S E Answer → Type 0) (w : World S E) (cs : State S E) (req : Submission) (now : ℕ)
      (a b : Bool)
      → ((c : ℕ) (code : String) → c ≢ 500 → P (w, failure c code))
      → ((old : List (Option (Partial S E)))
          → lookup req.trustee_index cs.partials ≡ some old
          → P (w, success already_submitted))
      → ((key : E) (pds : List (Option (Partial S E))) (contexts : List SlotContext)
            (sums : List (Ciphertext E))
          → cs.phase ≡ awaiting_trustees
          → lookup req.trustee_index keys ≡ some key
          → lookup req.trustee_index cs.partials ≡ none
          → slot_contexts r sha256 cs ≡ some (contexts, sums)
          → verify_slots r contexts sums key pds ≡ true
          → P (accept r sha256 w cs keys req.trustee_index pds now a b))
      → P (submit r sha256 w keys req now a b cs)
  unfolding submit
  submit_cases P w cs req now a b refusal again acceptance =
      elim (Bool-cases (phase_is cs.phase awaiting_trustees)) [
        | inr p ↦ rw (p, submit) (refusal 409 "wrong_phase" (omega arith))
        | inl p ↦ elim (Option-cases (lookup req.trustee_index keys)) [
          | inl k ↦ rw (p, submit) (rw (k) (refusal 400 "unknown_trustee" (omega arith)))
          | inr (key, k) ↦ elim (Option-cases (lookup req.trustee_index cs.partials)) [
            | inr (old, s) ↦ rw (p, submit) (rw (k) (rw (s) (again old s)))
            | inl s ↦ elim (Bool-cases (length req.partials == cs.party_count)) [
              | inr c ↦
                  rw (p, submit)
                    (rw (k) (rw (s) (rw (c) (refusal 400 "wrong_party_count" (omega arith)))))
              | inl c ↦
                  elim (Decoded-cases (
                    decode_partials r req.trustee_index cs.party_count (repeat cs.party_count none)
                      req.partials)) [
                        | inr (code, d) ↦
                            rw (p, submit)
                              (rw (k) (rw (s) (rw (c) (rw (d) (refusal 400 code (omega arith))))))
                        | inl (pds, d) ↦
                            rw (p, submit)
                              (rw (k) (
                                rw (s) (
                                  rw (c) (
                                    rw (d) (
                                      verify_submission_cases P w cs key req.trustee_index pds now a
                                        b refusal
                                        (λ contexts sums e v.
                                          acceptance key pds contexts sums
                                            (phase_is_sound cs.phase awaiting_trustees p) k s e
                                            v))))))
                      ]
            ]
          ]
        ]
      ]

  -- The endpoint answers with the ceremony as it was, or stores what it has verified.
  pub handle_partial_decryption_cases :
      (P : Step S E Answer → Type 0) (w : World S E) (id : Bytes) (request : Option Submission)
      (now : ℕ) (a b : Bool)
      → ((c : ℕ) (code : String) → c ≢ 500 → P (w, failure c code))
      → ((cs : State S E) (req : Submission) (old : List (Option (Partial S E)))
          → w.ceremony ≡ some cs
          → lookup req.trustee_index cs.partials ≡ some old
          → P (w, success already_submitted))
      → ((cs : State S E) (req : Submission) (key : E) (pds : List (Option (Partial S E)))
            (contexts : List SlotContext) (sums : List (Ciphertext E))
          → w.ceremony ≡ some cs
          → cs.phase ≡ awaiting_trustees
          → lookup req.trustee_index keys ≡ some key
          → lookup req.trustee_index cs.partials ≡ none
          → slot_contexts r sha256 cs ≡ some (contexts, sums)
          → verify_slots r contexts sums key pds ≡ true
          → P (accept r sha256 w cs keys req.trustee_index pds now a b))
      → P (handle_partial_decryption r sha256 w keys id request now a b)
  unfolding handle_partial_decryption named
  handle_partial_decryption_cases P w id none now a b refusal again acceptance =
      refusal 400 "invalid_body" (omega arith)
  handle_partial_decryption_cases P w id (some req) now a b refusal again acceptance =
      named_cases P w.ceremony id (w, failure 404 "not_found") (submit r sha256 w keys req now a b)
        (refusal 404 "not_found" (omega arith))
        (λ cs e.
          submit_cases P w cs req now a b refusal (λ old. again cs req old e)
            (λ key pds contexts sums. acceptance cs req key pds contexts sums e))
