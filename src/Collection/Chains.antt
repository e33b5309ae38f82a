-- ===== src/Collection/Chains.antt =====
-- collection/votermap/votermap.go: what holds of the store after any votes, for the audit and the active
-- set.
use otvoren_vot.Prelude.{
  ℕ, ◌+◌, ◌≡◌, refl, sym, ap, subst, ◌∙◌, Bool, true, false, Option, none, some, List, [], ◌∷◌,
  ◌++◌, Bytes, bytes_eq, bytes_eq_refl, bytes_eq_sound, length, lookup, insert, lookup-insert,
  bytes_Eq, Bool-cases, Option-cases, inl, inr, ltb, if◌then◌else◌,
}
use otvoren_vot.Collection.Votermap.{
  Channel, HistoryEntry, MemoryStore, last_of, new_memory_store, history_of, hash_of,
  compute_row_hash, next_entry, record_vote, chains_from, get_all_override_chains,
  get_override_history, get_active_ballot_id,
}
use otvoren_vot.Collection.Audit.{verify_entries, verify_hash_chain, verify_chains}

-- The stores that votes lead to, from the empty one.
pub data Reaches (hmac : Bytes → Bytes → Bytes) (key : Bytes) : MemoryStore → Type 0 where
  started : Reaches hmac key (new_memory_store key)
  voted :
      (ms : MemoryStore) (egn_hash ballot_id : Bytes) (channel : Channel) (submitted_at : ℕ)
      → Reaches hmac key ms
      → Reaches hmac key (record_vote hmac ms egn_hash ballot_id channel submitted_at).0

abbrev pub ballot_of : Option HistoryEntry → Option Bytes
ballot_of none = none
ballot_of (some e) = some e.ballot_id

-- The hash that the next entry chains to.
abbrev end_hash : Bytes → List HistoryEntry → Bytes
end_hash prev [] = prev
end_hash prev (e ∷ entries) = end_hash e.row_hash entries

end_hash_last :
    (e : HistoryEntry) (entries : List HistoryEntry) (prev : Bytes)
    → end_hash prev (e ∷ entries) ≡ hash_of (last_of (e ∷ entries))
unfolding hash_of last_of
end_hash_last e [] prev = refl
end_hash_last e (next ∷ entries) prev = end_hash_last next entries e.row_hash

end_hash_lem : (entries : List HistoryEntry) → end_hash [] entries ≡ hash_of (last_of entries)
end_hash_lem [] = unfold hash_of last_of in refl
end_hash_lem (e ∷ entries) = end_hash_last e entries []

last_of-append :
    (entries : List HistoryEntry) (e : HistoryEntry) → last_of (entries ++ e ∷ []) ≡ some e
unfolding last_of
last_of-append [] e = refl
last_of-append (first ∷ []) e = refl
last_of-append (first ∷ next ∷ entries) e = last_of-append (next ∷ entries) e

module _ (hmac : Bytes → Bytes → Bytes) where
  abbrev pub AllVerified : Bytes → List (Bytes × List HistoryEntry) → Type 0
  AllVerified key [] = Unit {0}
  AllVerified key ((egn_hash, entries) ∷ history) =
      (verify_entries hmac key egn_hash [] entries ≡ true) × AllVerified key history

  -- Every history verifies, and the active ballot is the last of the history.
  abbrev pub IsValid : Bytes → MemoryStore → Type 0
  IsValid key ms =
      (ms.history_hmac_key ≡ key)
      × AllVerified key ms.history
      × ((egn_hash : Bytes)
          → get_active_ballot_id ms egn_hash ≡ ballot_of (last_of (history_of ms egn_hash)))

  verify_entries-append :
      (key egn_hash prev : Bytes) (entries : List HistoryEntry) (e : HistoryEntry)
      → verify_entries hmac key egn_hash prev entries ≡ true
      → e.row_hash ≡ compute_row_hash hmac key (end_hash prev entries) egn_hash e.ballot_id e.seq
      → verify_entries hmac key egn_hash prev (entries ++ e ∷ []) ≡ true
  unfolding verify_entries
  verify_entries-append key egn_hash prev [] e v h =
      rw (
        verify_entries,
        h,
        bytes_eq_refl (compute_row_hash hmac key prev egn_hash e.ballot_id e.seq),
      )
  verify_entries-append key egn_hash prev (first ∷ entries) e v h =
      elim (Bool-cases (
        bytes_eq first.row_hash
          (compute_row_hash hmac key prev egn_hash first.ballot_id first.seq))) [
            | inl same ↦
                let tail : verify_entries hmac key egn_hash first.row_hash entries ≡ true =
                  sym (rw (verify_entries, same)) ∙ v in
                rw (verify_entries, same)
                  (verify_entries-append key egn_hash first.row_hash entries e tail h)
            | inr other ↦
                let no : verify_entries hmac key egn_hash prev (first ∷ entries) ≡ false =
                  rw (verify_entries, other) in
                absurd cc
          ]

  AllVerified-insert :
      (key egn_hash : Bytes) (entries : List HistoryEntry)
      (history : List (Bytes × List HistoryEntry))
      → AllVerified key history
      → verify_entries hmac key egn_hash [] entries ≡ true
      → AllVerified key (insert egn_hash entries history)
  unfolding insert
  AllVerified-insert key egn_hash entries [] v h = (h, tt)
  AllVerified-insert key egn_hash entries ((other, old) ∷ history) (v, rest) h =
      elim (Bool-cases (bytes_eq other egn_hash)) [
        | inl same ↦ rw (insert, same) (h, rest)
        | inr differs ↦
            rw (insert, differs) (v, AllVerified-insert key egn_hash entries history rest h)
      ]

  AllVerified-lookup :
      (key egn_hash : Bytes) (entries : List HistoryEntry)
      (history : List (Bytes × List HistoryEntry))
      → AllVerified key history
      → lookup egn_hash history ≡ some entries
      → verify_entries hmac key egn_hash [] entries ≡ true
  unfolding lookup
  AllVerified-lookup key egn_hash entries [] v h = cc
  AllVerified-lookup key egn_hash entries ((other, old) ∷ history) (v, rest) h =
      elim (Bool-cases (bytes_eq other egn_hash)) [
        | inl same ↦
            let e : other ≡ egn_hash = bytes_eq_sound other egn_hash same in
            let found : lookup egn_hash ((other, old) ∷ history) ≡ some old = rw (lookup, same) in
            let o : old ≡ entries = cc in
            subst (λ x. verify_entries hmac key egn_hash [] x ≡ true) o
              (subst (λ x. verify_entries hmac key x [] old ≡ true) e v)
        | inr differs ↦
            let skipped : lookup egn_hash ((other, old) ∷ history) ≡ lookup egn_hash history =
              rw (lookup, differs) in
            AllVerified-lookup key egn_hash entries history rest (sym skipped ∙ h)
      ]

  pub history_of-Verified :
      (key egn_hash : Bytes) (ms : MemoryStore)
      → AllVerified key ms.history
      → verify_entries hmac key egn_hash [] (history_of ms egn_hash) ≡ true
  unfolding history_of verify_entries
  history_of-Verified key egn_hash ms v = elim (Option-cases (lookup egn_hash ms.history)) [
    | inl e ↦ rw (history_of, e)
    | inr (entries, e) ↦ rw (history_of, e) (AllVerified-lookup key egn_hash entries ms.history v e)
  ]

  pub active_after :
      (ms : MemoryStore) (voter egn_hash ballot_id : Bytes) (channel : Channel) (submitted_at : ℕ)
      → get_active_ballot_id (record_vote hmac ms voter ballot_id channel submitted_at).0 egn_hash
        ≡ (if bytes_eq voter egn_hash then some ballot_id else get_active_ballot_id ms egn_hash)
  unfolding get_active_ballot_id record_vote
  active_after ms voter egn_hash ballot_id channel submitted_at =
      elim (Bool-cases (bytes_eq voter egn_hash)) [
        | inl e ↦ rw (get_active_ballot_id, record_vote, lookup-insert voter egn_hash, e)
        | inr e ↦ rw (get_active_ballot_id, record_vote, lookup-insert voter egn_hash, e)
      ]

  pub history_after :
      (ms : MemoryStore) (voter egn_hash ballot_id : Bytes) (channel : Channel) (submitted_at : ℕ)
      → history_of (record_vote hmac ms voter ballot_id channel submitted_at).0 egn_hash ≡ (
          if bytes_eq voter egn_hash
          then history_of ms voter
            ++ next_entry hmac ms.history_hmac_key
                (history_of ms voter)
                voter
                ballot_id
                channel
                submitted_at
              ∷ []
          else history_of ms egn_hash)
  unfolding history_of record_vote
  history_after ms voter egn_hash ballot_id channel submitted_at =
      elim (Bool-cases (bytes_eq voter egn_hash)) [
        | inl e ↦ rw (history_of, record_vote, lookup-insert voter egn_hash, e)
        | inr e ↦ rw (history_of, record_vote, lookup-insert voter egn_hash, e)
      ]

  -- A vote keeps the store valid.
  pub record_vote-IsValid :
      (key : Bytes) (ms : MemoryStore) (voter ballot_id : Bytes) (channel : Channel)
      (submitted_at : ℕ)
      → IsValid key ms
      → IsValid key (record_vote hmac ms voter ballot_id channel submitted_at).0
  unfolding next_entry
  record_vote-IsValid key ms voter ballot_id channel submitted_at (same_key, all, agrees) =
      let old = history_of ms voter in
      let e = next_entry hmac key old voter ballot_id channel submitted_at in
      let links : e.row_hash ≡ compute_row_hash hmac key (end_hash [] old) voter e.ballot_id e.seq =
        unfold next_entry in
        ap (λ h. compute_row_hash hmac key h voter ballot_id (length old + 1))
          (sym (end_hash_lem old)) in
      let longer : verify_entries hmac key voter [] (old ++ e ∷ []) ≡ true =
        verify_entries-append key voter [] old e (history_of-Verified key voter ms all) links in
      let kept : AllVerified key (insert voter (old ++ e ∷ []) ms.history) =
        AllVerified-insert key voter (old ++ e ∷ []) ms.history all longer in
      (
        unfold record_vote in same_key,
        unfold record_vote in
            subst
              (λ k. AllVerified key (
                insert voter
                  (old ++ next_entry hmac k old voter ballot_id channel submitted_at ∷ [])
                  ms.history))
              (sym same_key) kept,
        λ egn_hash.
            active_after ms voter egn_hash ballot_id channel submitted_at
            ∙ last_active egn_hash (bytes_eq voter egn_hash)
            ∙ ap (λ es. ballot_of (last_of es))
                (sym (history_after ms voter egn_hash ballot_id channel submitted_at)),
      )
    where
      last_active :
          (egn_hash : Bytes) (b : Bool)
          → (if b then some ballot_id else get_active_ballot_id ms egn_hash)
            ≡ ballot_of (
                last_of (
                  if b
                  then history_of ms voter
                    ++ next_entry hmac ms.history_hmac_key
                        (history_of ms voter)
                        voter
                        ballot_id
                        channel
                        submitted_at
                      ∷ []
                  else history_of ms egn_hash))
      last_active egn_hash true = ap ballot_of (
          sym (
            last_of-append (history_of ms voter) (
              next_entry hmac ms.history_hmac_key (history_of ms voter) voter ballot_id channel
                submitted_at)))
      last_active egn_hash false = agrees egn_hash

  pub Reaches-IsValid_store :
      (key : Bytes) (ms : MemoryStore) → Reaches hmac key ms → IsValid key ms
  Reaches-IsValid_store key _ started =
      unfold new_memory_store history_of get_active_ballot_id lookup last_of in
      (refl, tt, λ egn_hash. refl)
  Reaches-IsValid_store key _ (voted ms voter ballot_id channel submitted_at r) =
      record_vote-IsValid key ms voter ballot_id channel submitted_at
        (Reaches-IsValid_store key ms r)

  verify_chains-chains_from :
      (key : Bytes) (history : List (Bytes × List HistoryEntry))
      → AllVerified key history
      → verify_chains hmac key (chains_from history) ≡ true
  unfolding verify_chains chains_from verify_hash_chain
  verify_chains-chains_from key [] v = refl
  verify_chains-chains_from key ((egn_hash, entries) ∷ history) (v, rest) =
      elim (Bool-cases (ltb (length entries) 2)) [
        | inl short ↦ rw (chains_from, short) (verify_chains-chains_from key history rest)
        | inr long ↦
            rw (chains_from, long, verify_chains, verify_hash_chain, v)
              (verify_chains-chains_from key history rest)
      ]

  -- In every store that votes lead to, the audit accepts each voter's chain of overrides, and a voter's
  -- active ballot is the last one of the voter's history.
  pub Reaches-verify_chains :
      (key : Bytes) (ms : MemoryStore) (egn_hash : Bytes)
      → Reaches hmac key ms
      → (verify_chains hmac key (get_all_override_chains ms) ≡ true)
        × (get_active_ballot_id ms egn_hash
            ≡ ballot_of (last_of (get_override_history ms egn_hash)))
  unfolding get_all_override_chains get_override_history
  Reaches-verify_chains key ms egn_hash r =
      let (same_key, all, agrees) = Reaches-IsValid_store key ms r in
      (verify_chains-chains_from key ms.history all, agrees egn_hash)
