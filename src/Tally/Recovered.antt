-- ===== src/Tally/Recovered.antt =====
-- tally/state.go and tally/handler.go: the ceremony that a restart recovers from the journal.
use otvoren_vot.Prelude.{
  ℕ, Bool, true, false, List, Option, none, some, Bytes, length, ◌==◌, nat_Eq, ◌≡◌, refl, subst,
  inl, inr, Bool-cases, ◌⊎◌, ◌≢◌, sym, ap, Option-cases,
}
use otvoren_vot.Crypto.Group.{Ristretto}
use otvoren_vot.Tally.State.{
  State, TallyResult, Phase, StateJson, both, unmarshal, unmarshal_trustees,
}
use otvoren_vot.Crypto.Elgamal.{Ciphertext}
use otvoren_vot.Crypto.Threshold.{SlotContext}
use otvoren_vot.Tally.Submission.{slot_contexts}
use otvoren_vot.Tally.Journal.{World, load_ceremony_state, new_ceremony_handler}
use otvoren_vot.Tally.Lifecycle.{is_decided, IsValid, OnCeremony, phase-IsValid}

module _ {S E : Type 0} (r : Ristretto S E) (sha256 : Bytes → Bytes) (keys : List (ℕ × E)) where
  -- A ceremony has no encrypted sums, and so takes no submission, or it is valid.
  abbrev pub IsCovered : State S E → Type 0
  IsCovered cs = (cs.tally_result ≡ none) ⊎ IsValid r sha256 keys cs

  abbrev pub Covered : Option (State S E) → Type 0
  Covered none = Unit {0}
  Covered (some cs) = IsCovered cs

  pub covers : (o : Option (State S E)) → OnCeremony r sha256 keys o → Covered o
  covers none u = tt
  covers (some cs) v = inr v

  pub phase-IsCovered :
      (cs : State S E) (phase : Phase) (ballots : ℕ)
      → IsCovered cs
      → (is_decided phase ≡ true → is_decided cs.phase ≡ true)
      → IsCovered (record cs { phase = phase; ballot_count = ballots })
  phase-IsCovered cs phase ballots (inl n) f = inl n
  phase-IsCovered cs phase ballots (inr v) f =
      inr (phase-IsValid r sha256 keys cs phase ballots v f)

  pub no_contexts :
      (cs : State S E) (x : List SlotContext × List (Ciphertext E))
      → cs.tally_result ≡ none
      → slot_contexts r sha256 cs ≢ some x
  unfolding slot_contexts
  no_contexts cs x n = elim (Bool-cases (length cs.election_id == 0)) [
    | inl e ↦ rw (slot_contexts, e) (λ h. cc)
    | inr e ↦ rw (slot_contexts, e, n) (λ h. cc)
  ]

  unmarshal_lem :
      (json : StateJson) (cs : State S E) → unmarshal r json ≡ some cs → cs.tally_result ≡ none
  unfolding unmarshal
  unmarshal_lem json cs =
      elim (Option-cases (unmarshal_trustees r json.party_count json.partials)) [
        | inl e ↦ rw (unmarshal, e) (λ h. cc)
        | inr (partials, e) ↦ rw (unmarshal, e) (λ h. ap tally_result_of (sym (some_inj h)))
      ]
    where
      tally_result_of : State S E → Option (TallyResult E)
      tally_result_of cs = cs.tally_result

      some_inj : {x y : State S E} → some x ≡ some y → x ≡ y
      some_inj h = cc

  loaded-Covered :
      (o : Option (State S E)) (journal : Option StateJson) (v : World S E)
      → ((cs : State S E) → o ≡ some cs → cs.tally_result ≡ none)
      → both
          (both o (λ cs. some (some cs)))
          (λ loaded. some (record { ceremony = loaded; journal = journal }))
        ≡ some v
      → Covered v.ceremony
  loaded-Covered none journal v f h = cc
  loaded-Covered (some cs) journal v f h = subst (λ o. Covered o) (ceremony_inj h) (inl (f cs refl))
    where
      ceremony_inj : {x y : World S E} → some x ≡ some y → x.ceremony ≡ y.ceremony
      ceremony_inj h = cc

  pub restarted-Covered :
      (journal : Option StateJson) (readable : Bool) (v : World S E)
      → new_ceremony_handler r journal readable ≡ some v
      → Covered v.ceremony
  unfolding new_ceremony_handler load_ceremony_state
  restarted-Covered none readable v h = subst (λ o. Covered o) (ceremony_inj h) tt
    where
      ceremony_inj : {x y : World S E} → some x ≡ some y → x.ceremony ≡ y.ceremony
      ceremony_inj h = cc
  restarted-Covered (some json) false v h = cc
  restarted-Covered (some json) true v h =
      loaded-Covered (unmarshal r json) (some json) v (unmarshal_lem json) h
