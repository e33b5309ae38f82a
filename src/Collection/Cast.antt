-- ===== src/Collection/Cast.antt =====
-- collection/votermap/votermap.go: the active ballots and the histories after any votes.
use otvoren_vot.Prelude.{
  ℕ, ◌≡◌, refl, sym, ap, ◌∙◌, true, Option, none, some, List, [], ◌∷◌, ◌++◌, Bytes, bytes_eq,
  bytes_eq_sound, append-nil, append_assoc, lookup, bytes_Eq, Bool-cases, inl, inr, if◌then◌else◌,
}
use otvoren_vot.Collection.Votermap.{
  Channel, HistoryEntry, MemoryStore, new_memory_store, history_of, next_entry, record_vote,
  get_all_override_chains, get_override_history, get_active_ballot_id,
}
use otvoren_vot.Collection.Audit.{verify_chains}
use otvoren_vot.Collection.Chains.{
  Reaches, started, voted, active_after, history_after, Reaches-verify_chains,
}

-- A vote as it is cast.
pub record CastVote : Type 0 where
  pub egn_hash : Bytes
  pub ballot_id : Bytes
  pub channel : Channel
  pub submitted_at : ℕ

-- The ballots that a voter cast, in order.
abbrev pub ballots_cast : Bytes → List CastVote → List Bytes
ballots_cast egn_hash [] = []
ballots_cast egn_hash (v ∷ votes) =
    let rest = ballots_cast egn_hash votes in
    if bytes_eq v.egn_hash egn_hash then v.ballot_id ∷ rest else rest

-- The last of them, and before any the one given.
abbrev pub last_cast : Option Bytes → List Bytes → Option Bytes
last_cast before [] = before
last_cast before (id ∷ ids) = last_cast (some id) ids

abbrev pub submitted_ids : List HistoryEntry → List Bytes
submitted_ids [] = []
submitted_ids (e ∷ entries) = e.ballot_id ∷ submitted_ids entries

submitted_ids-append :
    (entries : List HistoryEntry) (e : HistoryEntry)
    → submitted_ids (entries ++ e ∷ []) ≡ submitted_ids entries ++ e.ballot_id ∷ []
submitted_ids-append [] e = refl
submitted_ids-append (first ∷ entries) e = ap (◌∷◌ first.ballot_id) (submitted_ids-append entries e)

module _ (hmac : Bytes → Bytes → Bytes) where
  -- The votes recorded one after the other.
  abbrev pub cast : MemoryStore → List CastVote → MemoryStore
  cast ms [] = ms
  cast ms (v ∷ votes) =
      cast (record_vote hmac ms v.egn_hash v.ballot_id v.channel v.submitted_at).0 votes

  cast-Reaches :
      (key : Bytes) (ms : MemoryStore) (votes : List CastVote)
      → Reaches hmac key ms
      → Reaches hmac key (cast ms votes)
  cast-Reaches key ms [] r = r
  cast-Reaches key ms (v ∷ votes) r =
      cast-Reaches key (record_vote hmac ms v.egn_hash v.ballot_id v.channel v.submitted_at).0 votes
        (voted ms v.egn_hash v.ballot_id v.channel v.submitted_at r)

  active_cast :
      (ms : MemoryStore) (egn_hash : Bytes) (votes : List CastVote)
      → get_active_ballot_id (cast ms votes) egn_hash
        ≡ last_cast (get_active_ballot_id ms egn_hash) (ballots_cast egn_hash votes)
  active_cast ms egn_hash [] = refl
  active_cast ms egn_hash (v ∷ votes) =
      active_cast (record_vote hmac ms v.egn_hash v.ballot_id v.channel v.submitted_at).0 egn_hash
        votes
      ∙ elim (Bool-cases (bytes_eq v.egn_hash egn_hash)) [
        | inl e ↦
            rw (active_after hmac ms v.egn_hash egn_hash v.ballot_id v.channel v.submitted_at)
              (rw (e) refl)
        | inr e ↦
            rw (active_after hmac ms v.egn_hash egn_hash v.ballot_id v.channel v.submitted_at)
              (rw (e) refl)
      ]

  history_cast :
      (ms : MemoryStore) (egn_hash : Bytes) (votes : List CastVote)
      → submitted_ids (history_of (cast ms votes) egn_hash)
        ≡ submitted_ids (history_of ms egn_hash) ++ ballots_cast egn_hash votes
  unfolding next_entry
  history_cast ms egn_hash [] = sym (append-nil _)
  history_cast ms egn_hash (v ∷ votes) =
      history_cast (record_vote hmac ms v.egn_hash v.ballot_id v.channel v.submitted_at).0 egn_hash
        votes
      ∙ elim (Bool-cases (bytes_eq v.egn_hash egn_hash)) [
        | inr e ↦
            rw (history_after hmac ms v.egn_hash egn_hash v.ballot_id v.channel v.submitted_at)
              (rw (e) refl)
        | inl e ↦
            rw (history_after hmac ms v.egn_hash egn_hash v.ballot_id v.channel v.submitted_at) (
              rw (e) (
                ap (λ ids. ids ++ ballots_cast egn_hash votes)
                  (submitted_ids-append (history_of ms v.egn_hash) _)
                ∙ append_assoc (submitted_ids (history_of ms v.egn_hash)) (v.ballot_id ∷ [])
                    (ballots_cast egn_hash votes)
                ∙ ap
                    (λ voter.
                      submitted_ids (history_of ms voter)
                      ++ v.ballot_id ∷ ballots_cast egn_hash votes)
                    (bytes_eq_sound v.egn_hash egn_hash e)))
      ]

  -- After any votes the audit accepts every voter's chain of overrides, a voter's active ballot is the
  -- last one that the voter cast, none where there is none, and the voter's history has all the ballots
  -- that the voter cast, in order.
  pub cast-verify_chains :
      (key : Bytes) (votes : List CastVote) (egn_hash : Bytes)
      → (verify_chains hmac key (get_all_override_chains (cast (new_memory_store key) votes))
          ≡ true)
        × (get_active_ballot_id (cast (new_memory_store key) votes) egn_hash
            ≡ last_cast none (ballots_cast egn_hash votes))
        × (submitted_ids (get_override_history (cast (new_memory_store key) votes) egn_hash)
            ≡ ballots_cast egn_hash votes)
  unfolding get_override_history new_memory_store history_of get_active_ballot_id lookup
  cast-verify_chains key votes egn_hash = (
    (Reaches-verify_chains hmac key _ egn_hash
        (cast-Reaches key (new_memory_store key) votes started)).0,
    active_cast (new_memory_store key) egn_hash votes,
    history_cast (new_memory_store key) egn_hash votes,
  )
