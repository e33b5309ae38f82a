-- ===== src/Auth/Session.antt =====
-- auth/session: `RedisStore` of store.go and `RateLimiter` of ratelimit.go, over the commands of Redis. A
-- Lua script is one step. The clock and the random session identifier are arguments.
use otvoren_vot.Prelude.{ℕ, Bool, true, false, Option, none, some, Bytes, ◌++◌, leb, ascii}
use otvoren_vot.Auth.Redis.{Redis}

-- SessionTTL and egnKeyTTL in seconds.
abbrev pub session_ttl : ℕ
session_ttl = 1800

abbrev pub egn_key_ttl : ℕ
egn_key_ttl = 1830

abbrev pub rate_limit_max : ℕ
rate_limit_max = 5

-- rateLimitWindow in seconds.
abbrev pub rate_limit_window : ℕ
rate_limit_window = 600

abbrev pub session_prefix : Bytes
session_prefix = ascii "session:"

abbrev pub egn_prefix : Bytes
egn_prefix = ascii "egn:"

abbrev pub rate_prefix : Bytes
rate_prefix = ascii "egn_rate:"

-- What becomes of a call: it is run and answered, run but the answer is lost, or never run.
pub data Delivery : Type 0 where
  answered answer_lost not_run : Delivery

-- The reply of a call, none where there is an error.
abbrev pub delivered : {A : Type 0} → Delivery → A → Option A
delivered answered a = some a
delivered answer_lost a = none
delivered not_run a = none

abbrev pub after {ℓ} : {D : Type ℓ} → Delivery → D → D → D
after answered before done = done
after answer_lost before done = done
after not_run before done = before

-- The error of `Resolve`.
pub data Resolved : Type 0 where
  egn_of : Bytes → Resolved
  session_not_found resolve_failed : Resolved

module _ {D : Type 0} (r : Redis D) where
  -- DEL of the session that the EGN's key names.
  unfoldable pub revoke : D → Option Bytes → D
  revoke d none = d
  revoke d (some old) = r.del d (session_prefix ++ old)

  -- `replaceSessionScript`
  unfoldable pub replace_session : D → ℕ → Bytes → Bytes → D
  unfolding revoke
  replace_session d now egn id =
      let revoked = revoke d (r.get d now (egn_prefix ++ egn)) in
      let with_session = r.set_ex revoked now (session_prefix ++ id) egn session_ttl in
      r.set_ex with_session now (egn_prefix ++ egn) id egn_key_ttl

  -- `Create`
  unfoldable pub create : D → ℕ → Bytes → Bytes → Delivery → D × Option Bytes
  unfolding replace_session
  create d now egn id delivery =
      (after delivery d (replace_session d now egn id), delivered delivery id)

  -- `Resolve`; the Boolean says that Redis answers.
  unfoldable pub resolve : D → ℕ → Bytes → Bool → Resolved
  resolve d now id false = resolve_failed
  resolve d now id true = elim (r.get d now (session_prefix ++ id)) [
    | none ↦ session_not_found
    | some egn ↦ egn_of egn
  ]

  -- `Allow`: the two commands of the pipeline.
  unfoldable pub allow : D → ℕ → Bytes → Delivery → D × Option Bool
  allow d now egn delivery =
      let (counted, n) = r.incr d now (rate_prefix ++ egn) in
      (
        after delivery d (r.expire counted now (rate_prefix ++ egn) rate_limit_window),
        delivered delivery (leb n rate_limit_max),
      )
