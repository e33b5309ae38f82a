-- ===== src/Tally/Answers.antt =====
-- What the answers of tally/handler.go tell a trustee and the caller that finalizes.
use Prim.Native.String.{String}
use otvoren_vot.Prelude.{
  ℕ, Bool, true, false, List, Option, some, Bytes, nat_Eq, Reply, success, failure, ◌≡◌, refl, sym,
  ◌∙◌, ◌≢◌, ◌||◌, inl, inr, Bool-cases, Option-cases, if◌then◌else◌, ap,
}
use otvoren_vot.Crypto.Group.{Ristretto}
use otvoren_vot.Tally.State.{State, StateJson, marshal, decrypted, finalized, Phase}
use otvoren_vot.Tally.Submission.{Submission}
use otvoren_vot.Tally.Journal.{World, Step, phase_is, set_phase, store_state, save}
use otvoren_vot.Tally.Handler.{handle_partial_decryption, handle_finalize, decrypt_locked}
use otvoren_vot.Tally.Cases.{phase_is_sound, named_cases_id, handle_partial_decryption_cases}
use otvoren_vot.Tally.Acceptance.{submitted, accept_cases}
use otvoren_vot.Tally.Lifecycle.{is_decided}

status : {A : Type 0} → Reply A → ℕ
status (success a) = 0
status (failure c code) = c

decided_of :
    (p : Phase) → (phase_is p decrypted || phase_is p finalized) ≡ true → is_decided p ≡ true
decided_of decrypted h = refl
decided_of finalized h = refl
decided_of p h = cc

module _ {S E : Type 0} (r : Ristretto S E) (sha256 : Bytes → Bytes) (keys : List (ℕ × E)) where
  -- A submission that is refused with any status but 500 leaves the ceremony and the journal as they
  -- were, so the trustee can submit again.
  pub refusal-keeps :
      (w : World S E) (id : Bytes) (request : Option Submission) (now : ℕ) (a b : Bool) (c : ℕ)
      (code : String)
      → (handle_partial_decryption r sha256 w keys id request now a b).1 ≡ failure c code
      → c ≢ 500
      → (handle_partial_decryption r sha256 w keys id request now a b).0 ≡ w
  unfolding status
  refusal-keeps w id request now a b c code =
      handle_partial_decryption_cases r sha256 keys (λ x. x.1 ≡ failure c code → c ≢ 500 → x.0 ≡ w)
        w id request now a b (λ d text h e n. refl) (λ cs req old e h f n. refl)
        (λ cs req key pds contexts sums e p k n s v.
          accept_cases r sha256 keys (λ x. x.1 ≡ failure c code → c ≢ 500 → x.0 ≡ w) w cs
            req.trustee_index pds now a b (λ h m. absurd (m (sym (ap status h)))) (λ h m. cc)
            (elim (Bool-cases
              (decrypt_locked r sha256 (store_state r w (submitted cs req.trustee_index pds) a).0
                (submitted cs req.trustee_index pds) keys now b).1) [
                  | inl d ↦ rw (d) (λ h m. cc)
                  | inr d ↦ rw (d) (λ h m. absurd (m (sym (ap status h))))
                ]))

  -- What was written, where `Save` returns no error.
  save_written :
      (cs : State S E) (journal : Option StateJson) (a : Bool)
      → (save r cs journal a).1 ≡ true
      → (saved : StateJson) × (marshal r cs ≡ some saved)
        × (save r cs journal a ≡ (some saved, true))
  unfolding save
  save_written cs journal false h = cc
  save_written cs journal true h = elim (Option-cases (marshal r cs)) [
    | inl e ↦ absurd (refused (sym (rw (save, e)) ∙ h))
    | inr (saved, e) ↦ (saved, e, rw (save, e))
  ]
    where
      refused : false ≢ true
      refused e = cc

  answered :
      (saved : Bool)
      → ◌≡◌ {A = Reply (Unit {0})}
          (if saved then success tt else failure 500 "state_error")
          (success tt)
      → saved ≡ true
  answered true h = refl
  answered false h = cc

  -- Finalizing answers with success only where the ceremony asked for is decrypted and the journal was
  -- written: the ceremony is then finalized and otherwise as it was, in memory and in the journal.
  pub finalize-decrypted :
      (w : World S E) (id : Bytes) (a : Bool)
      → (handle_finalize r w id a).1 ≡ success tt
      → (cs : State S E) × (saved : StateJson) × (w.ceremony ≡ some cs)
        × (cs.id ≡ id)
        × (cs.phase ≡ decrypted)
        × (marshal r (record cs { phase = finalized }) ≡ some saved)
        × ((handle_finalize r w id a).0
            ≡ record { ceremony = some (record cs { phase = finalized }); journal = some saved })
  unfolding handle_finalize set_phase store_state
  finalize-decrypted w id a =
      named_cases_id {A = Step S E (Unit {0})}
        (λ x.
          x.1 ≡ success tt
          → (cs : State S E) × (saved : StateJson) × (w.ceremony ≡ some cs)
            × (cs.id ≡ id)
            × (cs.phase ≡ decrypted)
            × (marshal r (record cs { phase = finalized }) ≡ some saved)
            × (x.0 ≡ record {
              ceremony = some (record cs { phase = finalized });
              journal = some saved;
            }))
        w.ceremony id _ _ (λ h. cc)
        (λ cs e same. elim (Bool-cases (phase_is cs.phase decrypted)) [
          | inr p ↦ rw (p) (λ h. cc)
          | inl p ↦ rw (p) (λ h.
              let (saved, coded, written) =
                save_written (record cs { phase = finalized }) w.journal a (answered _ h) in
              (
                cs,
                saved,
                e,
                same,
                phase_is_sound cs.phase decrypted p,
                coded,
                ap
                    (λ x. record {
                      ceremony = some (record cs { phase = finalized });
                      journal = x.0;
                    })
                    written,
              ))
        ])
