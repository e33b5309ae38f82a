-- ===== src/Verification/Spent.antt =====
-- verification/session/session.go: a session that is verified stays so under every call of the store.
use otvoren_vot.Prelude.{
  ℕ, true, false, List, [], ◌∷◌, Option, none, some, Bytes, ltb, lookup, insert, bytes_Eq, ◌=?◌,
  =?_iff, nat_Eq, if◌then◌else◌, Bool, ◌≡◌, ◌≢◌, refl, ap, subst, inl, inr, Bool-cases,
  Option-cases,
}
use otvoren_vot.Verification.Session.{
  Session, Store, Added, create, add_share, add_share_to, put_share, update_session, set_codes,
  mark_verified, wipe, close, close_session, remove_expired, remove_expired_from,
}

-- No identifier occurs twice, so that the list stands for a map.
abbrev pub IsMap : List (Bytes × Session) → Type 0
IsMap [] = Unit {0}
IsMap ((k, x) ∷ m) = (lookup k m ≡ none) × IsMap m

-- Every session with the identifier is verified.
abbrev pub AllSpent : Bytes → List (Bytes × Session) → Type 0
AllSpent id [] = Unit {0}
AllSpent id ((k, x) ∷ m) = ((k =? id) ≡ true → x.verified ≡ true) × AllSpent id m

pub lookup-AllSpent :
    (id : Bytes) (m : List (Bytes × Session)) (x : Session)
    → AllSpent id m
    → lookup id m ≡ some x
    → x.verified ≡ true
unfolding lookup
lookup-AllSpent id [] x u = λ h. cc
lookup-AllSpent id ((k, y) ∷ m) x (f, u) = elim (Bool-cases (k =? id)) [
  | inl e ↦ rw (e, lookup) (λ h. subst (λ z. z.verified ≡ true) (session_inj h) (f e))
  | inr e ↦ rw (e, lookup) (lookup-AllSpent id m x u)
]
  where
    session_inj : {x y : Session} → some x ≡ some y → x ≡ y
    session_inj h = cc

missing-AllSpent : (id : Bytes) (m : List (Bytes × Session)) → lookup id m ≡ none → AllSpent id m
unfolding lookup
missing-AllSpent id [] = λ h. tt
missing-AllSpent id ((k, y) ∷ m) = elim (Bool-cases (k =? id)) [
  | inl e ↦ rw (e, lookup) (λ h. cc)
  | inr e ↦ rw (e, lookup) (λ h. (λ q. cc, missing-AllSpent id m h))
]

-- The session that was just marked is the only one with its identifier.
pub marked-AllSpent :
    (id : Bytes) (y : Session) (m : List (Bytes × Session))
    → IsMap m
    → y.verified ≡ true
    → AllSpent id (insert id y m)
unfolding insert
marked-AllSpent id y [] u v = (λ e. v, tt)
marked-AllSpent id y ((k, x) ∷ m) (new, u) v = elim (Bool-cases (k =? id)) [
  | inl e ↦
      rw (e, insert)
        (λ q. v, missing-AllSpent id m (subst (λ j. lookup j m ≡ none) ((=?_iff k id).0 e) new))
  | inr e ↦ rw (e, insert) (λ q. cc, marked-AllSpent id y m u v)
]

insert-AllSpent :
    (k id : Bytes) (y : Session) (m : List (Bytes × Session))
    → ((k =? id) ≡ true → y.verified ≡ true)
    → AllSpent id m
    → AllSpent id (insert k y m)
unfolding insert
insert-AllSpent k id y [] f u = (f, tt)
insert-AllSpent k id y ((j, x) ∷ m) f (g, u) = elim (Bool-cases (j =? k)) [
  | inl e ↦ rw (e, insert) (f, u)
  | inr e ↦ rw (e, insert) (g, insert-AllSpent k id y m f u)
]

-- A session is replaced by one that is verified where the old one was.
replace-AllSpent :
    (k id : Bytes) (x y : Session) (m : List (Bytes × Session))
    → lookup k m ≡ some x
    → (x.verified ≡ true → y.verified ≡ true)
    → AllSpent id m
    → AllSpent id (insert k y m)
replace-AllSpent k id x y m h f u =
    insert-AllSpent k id y m
      (λ e. f (lookup-AllSpent id m x u (subst (λ j. lookup j m ≡ some x) ((=?_iff k id).0 e) h))) u

module _ {S : Type 0} where
  update_session-AllSpent :
      (s : Store S) (k id : Bytes) (f : Session → Session) (o : Option Session)
      → lookup k s.sessions ≡ o
      → ((x : Session) → x.verified ≡ true → (f x).verified ≡ true)
      → AllSpent id s.sessions
      → AllSpent id (update_session s k f o).sessions
  unfolding update_session
  update_session-AllSpent s k id f none h g u = u
  update_session-AllSpent s k id f (some x) h g u =
      replace-AllSpent k id x (f x) s.sessions h (g x) u

  pub set_codes-AllSpent :
      (s : Store S) (k id : Bytes) (codes : List (Bytes × Bytes)) (secret : ℕ)
      → AllSpent id s.sessions
      → AllSpent id (set_codes s k codes secret).sessions
  unfolding set_codes
  set_codes-AllSpent s k id codes secret u =
      update_session-AllSpent s k id _ (lookup k s.sessions) refl (λ x v. v) u

  pub mark_verified-AllSpent :
      (s : Store S) (k id : Bytes)
      → AllSpent id s.sessions
      → AllSpent id (mark_verified s k).0.sessions
  unfolding mark_verified
  mark_verified-AllSpent s k id u = elim (Option-cases (lookup k s.sessions)) [
    | inl e ↦ rw (e, mark_verified) u
    | inr (x, e) ↦
        rw (e, mark_verified)
          (update_session-AllSpent s k id (λ x. record x { verified = true }) (some x) e
            (λ x v. refl) u)
  ]

  put_share-AllSpent :
      (s : Store S) (k id : Bytes) (trustee share : ℕ) (x : Session) (o : Option ℕ)
      → lookup k s.sessions ≡ some x
      → AllSpent id s.sessions
      → AllSpent id (put_share s k trustee share x o).0.sessions
  unfolding put_share
  put_share-AllSpent s k id trustee share x (some old) h u = u
  put_share-AllSpent s k id trustee share x none h u =
      replace-AllSpent k id x _ s.sessions h (λ v. v) u

  either-AllSpent :
      (id : Bytes) (b : Bool) (x y : Store S × Option Added)
      → AllSpent id x.0.sessions
      → AllSpent id y.0.sessions
      → AllSpent id (if b then x else y).0.sessions
  either-AllSpent id true x y u v = u
  either-AllSpent id false x y u v = v

  add_share_to-AllSpent :
      (s : Store S) (k id : Bytes) (trustee share : ℕ) (o : Option Session)
      → lookup k s.sessions ≡ o
      → AllSpent id s.sessions
      → AllSpent id (add_share_to s k trustee share o).0.sessions
  unfolding add_share_to
  add_share_to-AllSpent s k id trustee share none h u = u
  add_share_to-AllSpent s k id trustee share (some x) h u =
      either-AllSpent id x.threshold_met _ _ u
        (put_share-AllSpent s k id trustee share x (lookup trustee x.shares) h u)

  pub add_share-AllSpent :
      (s : Store S) (k id : Bytes) (trustee share : ℕ)
      → AllSpent id s.sessions
      → AllSpent id (add_share s k trustee share).0.sessions
  unfolding add_share
  add_share-AllSpent s k id trustee share u =
      add_share_to-AllSpent s k id trustee share (lookup k s.sessions) refl u

  pub create-AllSpent :
      (s : Store S) (o : Option Bytes) (id : Bytes) (threshold now : ℕ)
      → o ≢ some id
      → AllSpent id s.sessions
      → AllSpent id (create s o threshold now).0.sessions
  unfolding create
  create-AllSpent s none id threshold now new u = u
  create-AllSpent s (some k) id threshold now new u =
      insert-AllSpent k id _ s.sessions (λ e. absurd (new (ap some ((=?_iff k id).0 e)))) u

module _ {S : Type 0} (zero_scalar : S) where
  close_session-AllSpent :
      (s : Store S) (k id : Bytes) (o : Option Session)
      → lookup k s.sessions ≡ o
      → AllSpent id s.sessions
      → AllSpent id (close_session zero_scalar s k o).sessions
  unfolding close_session
  close_session-AllSpent s k id none h u = u
  close_session-AllSpent s k id (some x) h u = replace-AllSpent k id x _ s.sessions h (λ v. v) u

  pub close-AllSpent :
      (s : Store S) (k id : Bytes)
      → AllSpent id s.sessions
      → AllSpent id (close zero_scalar s k).sessions
  unfolding close
  close-AllSpent s k id u = close_session-AllSpent s k id (lookup k s.sessions) refl u

  remove_expired_from-AllSpent :
      (now : ℕ) (heap : ℕ → S) (id : Bytes) (m : List (Bytes × Session))
      → AllSpent id m
      → AllSpent id (remove_expired_from zero_scalar now heap m).0
  unfolding remove_expired_from
  remove_expired_from-AllSpent now heap id [] u = tt
  remove_expired_from-AllSpent now heap id ((k, x) ∷ m) (f, u) =
      elim (Bool-cases (ltb x.expires_at now)) [
        | inl e ↦
            rw (e, remove_expired_from)
              (remove_expired_from-AllSpent now (wipe zero_scalar heap x) id m u)
        | inr e ↦ rw (e, remove_expired_from) (f, remove_expired_from-AllSpent now heap id m u)
      ]

  pub remove_expired-AllSpent :
      (s : Store S) (now : ℕ) (id : Bytes)
      → AllSpent id s.sessions
      → AllSpent id (remove_expired zero_scalar s now).sessions
  unfolding remove_expired
  remove_expired-AllSpent s now id u = remove_expired_from-AllSpent now s.heap id s.sessions u
