-- ===== src/Tally/Journal.antt =====
-- tally/handler.go and tally/state.go: the ceremony that the handler holds, and the file it is saved in.
-- Whether a write of the file succeeds is an argument.
use otvoren_vot.Prelude.{
  Bool, true, false, Option, none, some, Bytes, bytes_eq, nat_Eq, bytes_Eq, Reply,
}
use otvoren_vot.Crypto.Group.{Ristretto}
use otvoren_vot.Tally.State.{
  Phase, fetching, tallying, awaiting_trustees, decrypted, finalized, failed, State, StateJson,
  both, marshal, unmarshal,
}

-- The handler: the ceremony in memory and the file that `Save` renames into place.
pub record World (S E : Type 0) : Type 0 where
  pub ceremony : Option (State S E)
  pub journal : Option StateJson

abbrev pub phase_is : Phase → Phase → Bool
phase_is fetching fetching = true
phase_is tallying tallying = true
phase_is awaiting_trustees awaiting_trustees = true
phase_is decrypted decrypted = true
phase_is finalized finalized = true
phase_is failed failed = true
phase_is _ _ = false

-- h.ceremony, where it is the one named in the request's path.
unfoldable pub named {ℓ} :
    {S E : Type 0} {A : Type ℓ} → Option (State S E) → Bytes → A → (State S E → A) → A
named none id missing f = missing
named (some cs) id missing f = elim (bytes_eq cs.id id) [ true ↦ f cs | false ↦ missing ]

abbrev pub Step : Type 0 → Type 0 → Type 0 → Type 0
Step S E A = World S E × Reply A

module _ {S E : Type 0} (r : Ristretto S E) where
  -- `Save` of the ceremony in memory, when `written` says that the file was written.
  unfoldable pub save : State S E → Option StateJson → Bool → Option StateJson × Bool
  save cs journal false = (journal, false)
  save cs journal true = elim (marshal r cs) [ none ↦ (journal, false) | some j ↦ (some j, true) ]

  unfoldable pub store_state : World S E → State S E → Bool → World S E × Bool
  unfolding save
  store_state w cs written =
      let (journal, saved) = save cs w.journal written in
      (record { ceremony = some cs; journal = journal }, saved)

  unfoldable pub set_phase : World S E → State S E → Phase → Bool → World S E × Bool
  unfolding store_state
  set_phase w cs phase written = store_state w (record cs { phase = phase }) written

  -- `LoadCeremonyState`: none is its error, and a file that does not exist is no ceremony. `readable` says
  -- that a file that exists is read.
  unfoldable pub load_ceremony_state : Option StateJson → Bool → Option (Option (State S E))
  load_ceremony_state none readable = some none
  load_ceremony_state (some json) false = none
  load_ceremony_state (some json) true = both (unmarshal r json) (λ cs. some (some cs))

  -- `NewCeremonyHandler` at a start of the service: none where it does not start.
  unfoldable pub new_ceremony_handler : Option StateJson → Bool → Option (World S E)
  unfolding load_ceremony_state
  new_ceremony_handler journal readable =
      both (load_ceremony_state journal readable)
        (λ recovered. some (record { ceremony = recovered; journal = journal }))
