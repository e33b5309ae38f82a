-- ===== src/Verification/Session.antt =====
-- verification/session/session.go. A `*ristretto255.Scalar` is an address into `heap`: `Close` and
-- `removeExpired` overwrite the scalars that sessions point to. Time is a number, an argument of the
-- calls that read the clock. Each call holds the store's lock, so it is one step.
use otvoren_vot.Prelude.{
  ℕ, ◌+◌, Bool, true, false, List, [], ◌∷◌, Option, none, some, Bytes, length, ltb, leb, ◌==◌,
  if◌then◌else◌, lookup, insert, bytes_Eq, nat_Eq,
}

-- SessionTTL in seconds.
abbrev pub session_ttl : ℕ
session_ttl = 1800

pub record Session : Type 0 where
  pub id : Bytes
  pub created_at : ℕ
  pub expires_at : ℕ
  pub verified : Bool
  pub shares : List (ℕ × ℕ)
  pub master_secret : Option ℕ
  pub threshold_met : Bool
  pub codes : Option (List (Bytes × Bytes))
  pub threshold : ℕ

-- The store and the scalars in memory; `fresh` is the next address that is not in use.
pub record Store {ℓ} (S : Type ℓ) : Type ℓ where
  pub sessions : List (Bytes × Session)
  pub heap : ℕ → S
  pub fresh : ℕ

abbrev pub write {ℓ} : {S : Type ℓ} → (ℕ → S) → ℕ → S → ℕ → S
write heap p v q = if q == p then v else heap q

-- The error of `AddShare`, and its three results.
pub record Added : Type 0 where
  pub received : ℕ
  pub met : Bool

-- `Get`: expired sessions are not found.
unfoldable pub get_live : Option Session → ℕ → Option Session
get_live none now = none
get_live (some session) now = if ltb session.expires_at now then none else some session

module _ {S : Type 0} where
  unfoldable pub new_store : ℕ → (ℕ → S) → Store S
  new_store fresh heap = record { sessions = []; heap = heap; fresh = fresh }

  -- `Create`, with the random identifier, or none where the random source fails.
  unfoldable pub create : Store S → Option Bytes → ℕ → ℕ → Store S × Option Session
  create s none threshold now = (s, none)
  create s (some id) threshold now =
      let session : Session = record {
        id = id;
        created_at = now;
        expires_at = now + session_ttl;
        verified = false;
        shares = [];
        master_secret = none;
        threshold_met = false;
        codes = none;
        threshold = threshold;
      } in
      (record s { sessions = insert id session s.sessions }, some session)

  unfoldable pub get : Store S → Bytes → ℕ → Option Session
  unfolding get_live
  get s id now = get_live (lookup id s.sessions) now

  unfoldable pub put_share : Store S → Bytes → ℕ → ℕ → Session → Option ℕ → Store S × Option Added
  put_share s id trustee share session (some old) =
      (s, some (record { received = length session.shares; met = session.threshold_met }))
  put_share s id trustee share session none =
      let shares = insert trustee share session.shares in
      let met = leb session.threshold (length shares) in
      (
        record s {
          sessions = insert id (record session { shares = shares; threshold_met = met }) s.sessions;
        },
        some (record { received = length shares; met = met }),
      )

  unfoldable pub add_share_to : Store S → Bytes → ℕ → ℕ → Option Session → Store S × Option Added
  unfolding put_share
  add_share_to s id trustee share none = (s, none)
  add_share_to s id trustee share (some session) =
      if session.threshold_met
      then (s, some (record { received = length session.shares; met = true }))
      else put_share s id trustee share session (lookup trustee session.shares)

  -- `AddShare`: none is the error "session not found".
  unfoldable pub add_share : Store S → Bytes → ℕ → ℕ → Store S × Option Added
  unfolding add_share_to
  add_share s id trustee share = add_share_to s id trustee share (lookup id s.sessions)

  unfoldable pub update_session : Store S → Bytes → (Session → Session) → Option Session → Store S
  update_session s id f none = s
  update_session s id f (some session) = record s { sessions = insert id (f session) s.sessions }

  unfoldable pub set_codes : Store S → Bytes → List (Bytes × Bytes) → ℕ → Store S
  unfolding update_session
  set_codes s id codes secret =
      update_session s id (λ x. record x { codes = some codes; master_secret = some secret })
        (lookup id s.sessions)

  unfoldable pub mark_verified : Store S → Bytes → Store S × Bool
  unfolding update_session
  mark_verified s id = elim (lookup id s.sessions) [
    | none ↦ (s, false)
    | some session ↦ (update_session s id (λ x. record x { verified = true }) (some session), true)
  ]

  unfoldable pub count : Store S → ℕ
  count s = length s.sessions

module _ {S : Type 0} (zero_scalar : S) where
  -- Zeroing the scalars that a session points to.
  unfoldable pub wipe_secret : (ℕ → S) → Option ℕ → ℕ → S
  wipe_secret heap none = heap
  wipe_secret heap (some p) = write heap p zero_scalar

  unfoldable pub wipe_shares : (ℕ → S) → List (ℕ × ℕ) → ℕ → S
  wipe_shares heap [] = heap
  wipe_shares heap ((trustee, p) ∷ shares) = wipe_shares (write heap p zero_scalar) shares

  unfoldable pub wipe : (ℕ → S) → Session → ℕ → S
  unfolding wipe_secret wipe_shares
  wipe heap session = wipe_shares (wipe_secret heap session.master_secret) session.shares

  unfoldable pub close_session : Store S → Bytes → Option Session → Store S
  unfolding wipe
  close_session s id none = s
  close_session s id (some session) = record s {
    sessions = insert id (record session { master_secret = none; shares = [] }) s.sessions;
    heap = wipe s.heap session;
  }

  unfoldable pub close : Store S → Bytes → Store S
  unfolding close_session
  close s id = close_session s id (lookup id s.sessions)

  -- The loop of `removeExpired` over the sessions left, with the heap so far.
  unfoldable pub remove_expired_from :
      ℕ → (ℕ → S) → List (Bytes × Session) → List (Bytes × Session) × (ℕ → S)
  unfolding wipe
  remove_expired_from now heap [] = ([], heap)
  remove_expired_from now heap ((id, session) ∷ rest) =
      let expired = ltb session.expires_at now in
      let (kept, heap') =
        remove_expired_from now (if expired then wipe heap session else heap) rest in
      (if expired then kept else (id, session) ∷ kept, heap')

  unfoldable pub remove_expired : Store S → ℕ → Store S
  unfolding remove_expired_from
  remove_expired s now =
      let (kept, heap) = remove_expired_from now s.heap s.sessions in
      record s { sessions = kept; heap = heap }
