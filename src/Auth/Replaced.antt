-- ===== src/Auth/Replaced.antt =====
-- auth/session/store.go: what `replaceSessionScript` leaves under each key. The key of an EGN outlives the
-- session that it names, so the next `Create` finds every session that is still alive.
use otvoren_vot.Prelude.{
  ℕ, ◌+◌, ◌≤◌, ◌<◌, lt→ltb, true, false, Option, none, some, Bytes, ◌++◌, bytes_eq, bytes_eq_refl,
  bytes_eq_sound, Bool-cases, inl, inr, ltb, if◌then◌else◌, ◌≡◌, ◌≢◌, refl, sym, ◌∙◌, ap, arith,
}
use otvoren_vot.Auth.Redis.{Redis, RedisLaws}
use otvoren_vot.Auth.Session.{
  session_ttl, egn_key_ttl, session_prefix, egn_prefix, revoke, replace_session,
}

pub session_key_eq :
    (a b : Bytes) → bytes_eq (session_prefix ++ a) (session_prefix ++ b) ≡ bytes_eq a b
unfolding bytes_eq
session_key_eq a b = refl

pub egn_key_eq : (a b : Bytes) → bytes_eq (egn_prefix ++ a) (egn_prefix ++ b) ≡ bytes_eq a b
unfolding bytes_eq
egn_key_eq a b = refl

session_key-ne-egn : (a b : Bytes) → bytes_eq (session_prefix ++ a) (egn_prefix ++ b) ≡ false
unfolding bytes_eq
session_key-ne-egn a b = refl

egn_key-ne-session : (a b : Bytes) → bytes_eq (egn_prefix ++ a) (session_prefix ++ b) ≡ false
unfolding bytes_eq
egn_key-ne-session a b = refl

module _ {D : Type 0} (r : Redis D) (laws : RedisLaws r) where
  -- From a time on, every session that is alive is the one that its EGN's key names.
  abbrev pub IsLinked : D → ℕ → Type 0
  IsLinked d t =
      (now : ℕ) (id egn : Bytes)
      → t ≤ now
      → r.get d now (session_prefix ++ id) ≡ some egn
      → r.get d now (egn_prefix ++ egn) ≡ some id

  get_egn-revoke :
      (d : D) (now : ℕ) (old : Option Bytes) (egn : Bytes)
      → r.get (revoke r d old) now (egn_prefix ++ egn) ≡ r.get d now (egn_prefix ++ egn)
  unfolding revoke
  get_egn-revoke d now none egn = refl
  get_egn-revoke d now (some old) egn =
      laws.get-del d now (session_prefix ++ old) (egn_prefix ++ egn)
      ∙ rw (session_key-ne-egn old egn)

  -- A session that a revocation leaves was there, and is not the one revoked.
  get_session-revoke :
      (d : D) (now : ℕ) (old : Option Bytes) (id egn : Bytes)
      → r.get (revoke r d old) now (session_prefix ++ id) ≡ some egn
      → (r.get d now (session_prefix ++ id) ≡ some egn) × (old ≢ some id)
  unfolding revoke
  get_session-revoke d now none id egn h = (h, λ e. cc)
  get_session-revoke d now (some old) id egn h = elim (Bool-cases (bytes_eq old id)) [
    | inl same ↦
        let gone : r.get (revoke r d (some old)) now (session_prefix ++ id) ≡ none =
          unfold revoke in
          laws.get-del d now (session_prefix ++ old) (session_prefix ++ id)
          ∙ rw (session_key_eq old id) (rw same refl) in
        absurd (cc)
    | inr differs ↦
        let kept : r.get (revoke r d (some old)) now (session_prefix ++ id)
            ≡ r.get d now (session_prefix ++ id) =
          unfold revoke in
          laws.get-del d now (session_prefix ++ old) (session_prefix ++ id)
          ∙ rw (session_key_eq old id) (rw differs refl) in
        (
          sym kept ∙ h,
          λ e.
              let same : old ≡ id = cc in
              let no : bytes_eq old id ≡ true = rw same (bytes_eq_refl id) in cc,
        )
  ]

  module _ (d : D) (t : ℕ) (egn id : Bytes) where
    pub get_session-replace :
        (now : ℕ) (j : Bytes)
        → t ≤ now
        → r.get (replace_session r d t egn id) now (session_prefix ++ j) ≡ (
            if bytes_eq id j
            then (if ltb now (t + session_ttl) then some egn else none)
            else r.get (revoke r d (r.get d t (egn_prefix ++ egn))) now (session_prefix ++ j))
    unfolding replace_session
    get_session-replace now j h =
        let revoked = revoke r d (r.get d t (egn_prefix ++ egn)) in
        let d2 = r.set_ex revoked t (session_prefix ++ id) egn session_ttl in
        laws.get-set_ex d2 t now egn_key_ttl (egn_prefix ++ egn) (session_prefix ++ j) id h
        ∙ rw (egn_key-ne-session egn j) (
            laws.get-set_ex revoked t now session_ttl (session_prefix ++ id) (session_prefix ++ j)
              egn h
            ∙ rw (session_key_eq id j) refl)

    pub get_egn-replace :
        (now : ℕ) (e : Bytes)
        → t ≤ now
        → r.get (replace_session r d t egn id) now (egn_prefix ++ e) ≡ (
            if bytes_eq egn e
            then (if ltb now (t + egn_key_ttl) then some id else none)
            else r.get d now (egn_prefix ++ e))
    unfolding replace_session
    get_egn-replace now e h =
        let old = r.get d t (egn_prefix ++ egn) in
        let d2 = r.set_ex (revoke r d old) t (session_prefix ++ id) egn session_ttl in
        laws.get-set_ex d2 t now egn_key_ttl (egn_prefix ++ egn) (egn_prefix ++ e) id h
        ∙ rw (egn_key_eq egn e) (
            ap
              (λ x.
                if bytes_eq egn e then (if ltb now (t + egn_key_ttl) then some id else none) else x)
              (laws.get-set_ex (revoke r d old) t now session_ttl (session_prefix ++ id)
                  (egn_prefix ++ e) egn h
                ∙ rw (session_key-ne-egn id e) (get_egn-revoke d now old e)))

    -- The new session.
    linked_new :
        (now : ℕ) (j e : Bytes)
        → t ≤ now
        → bytes_eq id j ≡ true
        → r.get (replace_session r d t egn id) now (session_prefix ++ j) ≡ some e
        → r.get (replace_session r d t egn id) now (egn_prefix ++ e) ≡ some j
    linked_new now j e h same alive =
        let there : (if ltb now (t + session_ttl) then some egn else none) ≡ some e =
          sym (get_session-replace now j h ∙ rw same refl) ∙ alive in
        let (soon, owner) = unexpired there in
        let i : id ≡ j = bytes_eq_sound id j same in
        let self : bytes_eq egn e ≡ true = rw owner (bytes_eq_refl e) in
        get_egn-replace now e h
        ∙ rw self (rw (lt→ltb now (t + egn_key_ttl) (omega arith)) (rw i refl))
      where
        unexpired :
            {now limit : ℕ} {o e : Bytes}
            → (if ltb now limit then some o else none) ≡ some e
            → (now < limit) × (o ≡ e)
        unexpired {now} {limit} h = ground arith

    -- A session that was there before is another voter's.
    linked_old :
        (now : ℕ) (j e : Bytes)
        → t ≤ now
        → IsLinked d t
        → bytes_eq id j ≡ false
        → r.get (replace_session r d t egn id) now (session_prefix ++ j) ≡ some e
        → r.get (replace_session r d t egn id) now (egn_prefix ++ e) ≡ some j
    linked_old now j e h linked differs alive =
        let old = r.get d t (egn_prefix ++ egn) in
        let (before, spared) =
          get_session-revoke d now old j e
            (sym (get_session-replace now j h ∙ rw differs refl) ∙ alive) in
        let named : r.get d now (egn_prefix ++ e) ≡ some j = linked now j e h before in
        elim (Bool-cases (bytes_eq egn e)) [
          | inl same ↦
              let o : egn ≡ e = bytes_eq_sound egn e same in
              let earlier : old ≡ some j =
                ap (λ x. r.get d t (egn_prefix ++ x)) o
                ∙ laws.get_earlier d t now (egn_prefix ++ e) j h named in
              absurd (spared earlier)
          | inr other ↦ get_egn-replace now e h ∙ rw other named
        ]

  pub replace_session-IsLinked :
      (d : D) (t : ℕ) (egn id : Bytes) → IsLinked d t → IsLinked (replace_session r d t egn id) t
  replace_session-IsLinked d t egn id linked now j e h alive = elim (Bool-cases (bytes_eq id j)) [
    | inl same ↦ linked_new d t egn id now j e h same alive
    | inr differs ↦ linked_old d t egn id now j e h linked differs alive
  ]
