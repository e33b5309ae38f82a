-- ===== src/Auth/OneSession.antt =====
-- auth/session: a voter has at most one session, whatever calls of the store and of the rate limiter came
-- before.
use otvoren_vot.Prelude.{
  ℕ, ◌≤◌, true, false, Option, none, some, Bytes, ◌++◌, bytes_eq, ◌≡◌, refl, sym, ◌∙◌, arith,
}
use otvoren_vot.Auth.Redis.{Redis, RedisLaws}
use otvoren_vot.Auth.Replaced.{IsLinked, replace_session-IsLinked}
use otvoren_vot.Auth.Session.{
  rate_limit_window, session_prefix, egn_prefix, rate_prefix, Delivery, answered, answer_lost,
  not_run, create, allow, resolve, egn_of,
}

rate_key-ne-session : (a b : Bytes) → bytes_eq (rate_prefix ++ a) (session_prefix ++ b) ≡ false
unfolding bytes_eq
rate_key-ne-session a b = refl

rate_key-ne-egn : (a b : Bytes) → bytes_eq (rate_prefix ++ a) (egn_prefix ++ b) ≡ false
unfolding bytes_eq
rate_key-ne-egn a b = refl

module _ {D : Type 0} (r : Redis D) (laws : RedisLaws r) where
  -- The databases that the service reaches from one that holds nothing, with the time of the last call.
  -- Calls of `Allow` and `Create` come in any order, for any voters and with any outcome.
  pub data Reaches : D → ℕ → Type 0 where
    started : (d : D) (t : ℕ) → ((now : ℕ) (k : Bytes) → r.get d now k ≡ none) → Reaches d t
    created :
        {d : D} {t : ℕ} (now : ℕ) (egn id : Bytes) (delivery : Delivery)
        → t ≤ now
        → Reaches d t
        → Reaches (create r d now egn id delivery).0 now
    limited :
        {d : D} {t : ℕ} (now : ℕ) (egn : Bytes) (delivery : Delivery)
        → t ≤ now
        → Reaches d t
        → Reaches (allow r d now egn delivery).0 now

  later-IsLinked : (d : D) (t now : ℕ) → t ≤ now → IsLinked r laws d t → IsLinked r laws d now
  later-IsLinked d t now h linked = λ at id egn h'. linked at id egn (omega arith)

  create-IsLinked :
      (d : D) (now : ℕ) (egn id : Bytes) (delivery : Delivery)
      → IsLinked r laws d now
      → IsLinked r laws (create r d now egn id delivery).0 now
  unfolding create
  create-IsLinked d now egn id answered linked = replace_session-IsLinked r laws d now egn id linked
  create-IsLinked d now egn id answer_lost linked =
      replace_session-IsLinked r laws d now egn id linked
  create-IsLinked d now egn id not_run linked = linked

  get-allow :
      (d : D) (t now : ℕ) (egn k : Bytes) (delivery : Delivery)
      → bytes_eq (rate_prefix ++ egn) k ≡ false
      → r.get (allow r d t egn delivery).0 now k ≡ r.get d now k
  unfolding allow
  get-allow d t now egn k answered h =
      laws.get-expire_other (r.incr d t (rate_prefix ++ egn)).0 t now rate_limit_window
        (rate_prefix ++ egn) k h
      ∙ laws.get-incr_other d t now (rate_prefix ++ egn) k h
  get-allow d t now egn k answer_lost h =
      laws.get-expire_other (r.incr d t (rate_prefix ++ egn)).0 t now rate_limit_window
        (rate_prefix ++ egn) k h
      ∙ laws.get-incr_other d t now (rate_prefix ++ egn) k h
  get-allow d t now egn k not_run h = refl

  allow-IsLinked :
      (d : D) (t : ℕ) (egn : Bytes) (delivery : Delivery)
      → IsLinked r laws d t
      → IsLinked r laws (allow r d t egn delivery).0 t
  allow-IsLinked d t egn delivery linked now j e h alive =
      get-allow d t now egn (egn_prefix ++ e) delivery (rate_key-ne-egn egn e)
      ∙ linked now j e h (
          sym (get-allow d t now egn (session_prefix ++ j) delivery (rate_key-ne-session egn j))
          ∙ alive)

  pub Reaches-IsLinked : {d : D} {t : ℕ} → Reaches d t → IsLinked r laws d t
  Reaches-IsLinked (started d t nothing) =
      λ now id egn h alive. absurd (none_there (nothing now (session_prefix ++ id)) alive)
    where
      none_there : {o : Option Bytes} {e : Bytes} → o ≡ none → o ≡ some e → ⊥
      none_there p q = cc
  Reaches-IsLinked (created {d} {t} now egn id delivery h reached) =
      create-IsLinked d now egn id delivery (later-IsLinked d t now h (Reaches-IsLinked reached))
  Reaches-IsLinked (limited {d} {t} now egn delivery h reached) =
      allow-IsLinked d now egn delivery (later-IsLinked d t now h (Reaches-IsLinked reached))

  resolve_found :
      (d : D) (now : ℕ) (id egn : Bytes)
      → resolve r d now id true ≡ egn_of egn
      → r.get d now (session_prefix ++ id) ≡ some egn
  unfolding resolve
  resolve_found d now id egn h = ground arith

  -- In every database that the service reaches, two session identifiers that resolve to the same voter at
  -- the same time, now or later, are the same.
  pub resolve_unique :
      (d : D) (t now : ℕ) (id other egn : Bytes)
      → Reaches d t
      → t ≤ now
      → resolve r d now id true ≡ egn_of egn
      → resolve r d now other true ≡ egn_of egn
      → id ≡ other
  resolve_unique d t now id other egn reached h p q =
      let linked = Reaches-IsLinked reached in
      let one : r.get d now (egn_prefix ++ egn) ≡ some id =
        linked now id egn h (resolve_found d now id egn p) in
      let two : r.get d now (egn_prefix ++ egn) ≡ some other =
        linked now other egn h (resolve_found d now other egn q) in
      cc
