-- ===== src/Verification/Wiping.antt =====
-- Which scalars `Close` and `removeExpired` of verification/session/session.go zero.
use otvoren_vot.Prelude.{
  ℕ, ◌+◌, ◌<◌, List, [], ◌∷◌, ◌++◌, Option, none, some, Bytes, ltb, lt→ltb, lookup,
  lookup-insert_same, bytes_Eq, ◌=?◌, ◌≡◌, refl, sym, subst, inl, inr, Bool-cases, arith,
}
use otvoren_vot.Crypto.Group.{Ristretto}
use otvoren_vot.Verification.Session.{
  Session, Store, session_ttl, write, wipe_secret, wipe_shares, wipe, close, close_session,
  remove_expired, remove_expired_from, create, set_codes, update_session,
}
use otvoren_vot.Verification.Handler.{Config, created, create_reply, handle_create_session}

module _ {S : Type 0} (zero_scalar : S) where
  write-zero :
      (heap : ℕ → S) (p q : ℕ) → heap q ≡ zero_scalar → write heap p zero_scalar q ≡ zero_scalar
  write-zero heap p q h = ground arith

  wipe_shares-keeps :
      (heap : ℕ → S) (shares : List (ℕ × ℕ)) (q : ℕ)
      → heap q ≡ zero_scalar
      → wipe_shares zero_scalar heap shares q ≡ zero_scalar
  unfolding wipe_shares
  wipe_shares-keeps heap [] q h = h
  wipe_shares-keeps heap ((t, p) ∷ shares) q h =
      wipe_shares-keeps (write heap p zero_scalar) shares q (write-zero heap p q h)

  wipe-keeps :
      (heap : ℕ → S) (session : Session) (q : ℕ)
      → heap q ≡ zero_scalar
      → wipe zero_scalar heap session q ≡ zero_scalar
  unfolding wipe wipe_secret
  wipe-keeps heap session q h =
      wipe_shares-keeps (wipe_secret zero_scalar heap session.master_secret) session.shares q
        (secret_keeps session.master_secret)
    where
      secret_keeps : (o : Option ℕ) → wipe_secret zero_scalar heap o q ≡ zero_scalar
      secret_keeps none = h
      secret_keeps (some p) = write-zero heap p q h

  -- A session's scalars: its secret and the shares that it keeps.
  pub data Holds (session : Session) (p : ℕ) : Type 0 where
    secret : session.master_secret ≡ some p → Holds session p
    share :
        (before after : List (ℕ × ℕ)) (trustee : ℕ)
        → session.shares ≡ (before ++ (trustee, p) ∷ after)
        → Holds session p

  wipe_shares-zeroes :
      (heap : ℕ → S) (before after : List (ℕ × ℕ)) (trustee p : ℕ)
      → wipe_shares zero_scalar heap (before ++ (trustee, p) ∷ after) p ≡ zero_scalar
  unfolding wipe_shares
  wipe_shares-zeroes heap [] after trustee p =
      wipe_shares-keeps (write heap p zero_scalar) after p (ground arith)
  wipe_shares-zeroes heap ((t, q) ∷ before) after trustee p =
      wipe_shares-zeroes (write heap q zero_scalar) before after trustee p

  wipe-zeroes :
      (heap : ℕ → S) (session : Session) (p : ℕ)
      → Holds session p
      → wipe zero_scalar heap session p ≡ zero_scalar
  unfolding wipe wipe_secret
  wipe-zeroes heap session p (secret e) =
      wipe_shares-keeps (wipe_secret zero_scalar heap session.master_secret) session.shares p
        (rw (e) (ground arith))
  wipe-zeroes heap session p (share before after trustee e) = rw (e) (
      wipe_shares-zeroes (wipe_secret zero_scalar heap session.master_secret) before after trustee
        p)

  -- Closing a session leaves zero in every scalar that it held.
  pub close-zeroes :
      (s : Store S) (id : Bytes) (session : Session) (p : ℕ)
      → lookup id s.sessions ≡ some session
      → Holds session p
      → (close zero_scalar s id).heap p ≡ zero_scalar
  unfolding close
  close-zeroes s id session p e h = rw (e, close_session) (wipe-zeroes s.heap session p h)

  remove_expired_from-keeps :
      (now : ℕ) (heap : ℕ → S) (sessions : List (Bytes × Session)) (p : ℕ)
      → heap p ≡ zero_scalar
      → (remove_expired_from zero_scalar now heap sessions).1 p ≡ zero_scalar
  unfolding remove_expired_from
  remove_expired_from-keeps now heap [] p h = h
  remove_expired_from-keeps now heap ((id, session) ∷ rest) p h =
      elim (Bool-cases (ltb session.expires_at now)) [
        | inl e ↦
            rw (e, remove_expired_from)
              (remove_expired_from-keeps now (wipe zero_scalar heap session) rest p
                (wipe-keeps heap session p h))
        | inr e ↦ rw (e, remove_expired_from) (remove_expired_from-keeps now heap rest p h)
      ]

  expired_first :
      (now : ℕ) (heap : ℕ → S) (id : Bytes) (session : Session) (rest : List (Bytes × Session))
      (p : ℕ)
      → session.expires_at < now
      → Holds session p
      → (remove_expired_from zero_scalar now heap ((id, session) ∷ rest)).1 p ≡ zero_scalar
  unfolding remove_expired_from
  expired_first now heap id session rest p t h =
      rw (lt→ltb session.expires_at now t, remove_expired_from)
        (remove_expired_from-keeps now (wipe zero_scalar heap session) rest p
          (wipe-zeroes heap session p h))

  remove_expired_from-zeroes :
      (now : ℕ) (heap : ℕ → S) (sessions : List (Bytes × Session)) (id : Bytes) (session : Session)
      (p : ℕ)
      → lookup id sessions ≡ some session
      → session.expires_at < now
      → Holds session p
      → (remove_expired_from zero_scalar now heap sessions).1 p ≡ zero_scalar
  unfolding remove_expired_from lookup
  remove_expired_from-zeroes now heap [] id session p = λ e t h. cc
  remove_expired_from-zeroes now heap ((j, other) ∷ rest) id session p =
      elim (Bool-cases (j =? id)) [
        | inl q ↦
            rw (q, lookup)
              (λ e t h.
                let same : session ≡ other = cc (e) in
                expired_first now heap j other rest p (subst (λ x. x.expires_at < now) same t)
                  (subst (λ x. Holds x p) same h))
        | inr q ↦
            rw (q, lookup)
              (λ e t h. elim (Bool-cases (ltb other.expires_at now)) [
                | inl x ↦
                    rw (x, remove_expired_from)
                      (remove_expired_from-zeroes now (wipe zero_scalar heap other) rest id session
                        p e t h)
                | inr x ↦
                    rw (x, remove_expired_from)
                      (remove_expired_from-zeroes now heap rest id session p e t h)
              ])
      ]

  -- Removing the expired sessions leaves zero in every scalar that one of them held.
  pub remove_expired-zeroes :
      (s : Store S) (now : ℕ) (id : Bytes) (session : Session) (p : ℕ)
      → lookup id s.sessions ≡ some session
      → session.expires_at < now
      → Holds session p
      → (remove_expired zero_scalar s now).heap p ≡ zero_scalar
  unfolding remove_expired
  remove_expired-zeroes s now id session p e t h =
      remove_expired_from-zeroes now s.heap s.sessions id session p e t h

module _ {S E : Type 0} (r : Ristretto S E) (hmac : Bytes → Bytes → Bytes) where
  set_codes-lookup :
      (s : Store S) (id : Bytes) (session : Session) (codes : List (Bytes × Bytes)) (p : ℕ)
      → lookup id s.sessions ≡ some session
      → lookup id (set_codes s id codes p).sessions
        ≡ some (record session { codes = some codes; master_secret = some p })
  unfolding set_codes
  set_codes-lookup s id session codes p e =
      rw (e, update_session)
        (lookup-insert_same id (record session { codes = some codes; master_secret = some p })
          s.sessions)

  created_dev :
      (h : Config) (s : Store S) (session : Session) (o : Option ℕ) (p : ℕ)
      → o ≡ some p
      → lookup session.id s.sessions ≡ some session
      → (x : Session) × (lookup session.id (created r hmac h s session o).0.sessions ≡ some x)
        × (x.expires_at ≡ session.expires_at)
        × (x.master_secret ≡ some p)
  unfolding created
  created_dev h s session none p e l = cc
  created_dev h s session (some q) p e l = (_, set_codes-lookup s session.id session _ q l, refl, e)

  dev_session :
      (h : Config) (s : Store S) (id : Bytes) (created_at p : ℕ)
      → h.dev_secret ≡ some p
      → (session : Session) × (lookup id
            (handle_create_session r hmac h s (some id) created_at).0.sessions
          ≡ some session)
        × (session.expires_at ≡ created_at + session_ttl)
        × (session.master_secret ≡ some p)
  unfolding handle_create_session create create_reply
  dev_session h s id created_at p e =
      created_dev h _ _ h.dev_secret p e (lookup-insert_same id _ s.sessions)

  -- In dev mode the sweep that removes an expired session zeroes the secret of the service itself: the
  -- session holds the address of that secret, not a copy.
  pub dev_secret-zeroed :
      (h : Config) (s : Store S) (id : Bytes) (created_at now p : ℕ)
      → h.dev_secret ≡ some p
      → created_at + session_ttl < now
      → (remove_expired r.zero_scalar
            (handle_create_session r hmac h s (some id) created_at).0
            now).heap
          p
        ≡ r.zero_scalar
  dev_secret-zeroed h s id created_at now p e t =
      let d = dev_session h s id created_at p e in
      remove_expired-zeroes r.zero_scalar (handle_create_session r hmac h s (some id) created_at).0
        now id d.0 p d.1 (subst (λ x. x < now) (sym d.2) t) (secret d.3)
