-- ===== src/Auth/Redis.antt =====
-- The commands of Redis that auth/session sends. Redis is a parameter: a database of type D with its
-- commands, and the documented behaviour that the theorems rely on. Times are seconds.
use otvoren_vot.Prelude.{
  ℕ, ◌+◌, ◌≤◌, false, Option, none, some, Bytes, bytes_eq, ltb, if◌then◌else◌, ◌≡◌,
}

pub record Redis (D : Type 0) : Type 0 where
  -- GET at a time: none is a missing or expired key.
  pub get : D → ℕ → Bytes → Option Bytes
  -- SET key value EX ttl, sent at a time.
  pub set_ex : D → ℕ → Bytes → Bytes → ℕ → D
  pub del : D → Bytes → D
  -- INCR with its reply.
  pub incr : D → ℕ → Bytes → D × ℕ
  pub expire : D → ℕ → Bytes → ℕ → D

-- The documented behaviour. `counter` is the number that a key holds at a time, 0 where it is missing.
pub record RedisLaws {D : Type 0} (r : Redis D) : Type 0 where
  pub counter : D → ℕ → Bytes → ℕ
  pub get-set_ex :
      (d : D) (t now ttl : ℕ) (k j v : Bytes)
      → t ≤ now
      → r.get (r.set_ex d t k v ttl) now j
        ≡ (if bytes_eq k j then (if ltb now (t + ttl) then some v else none) else r.get d now j)
  pub get-del :
      (d : D) (now : ℕ) (k j : Bytes)
      → r.get (r.del d k) now j ≡ (if bytes_eq k j then none else r.get d now j)
  pub get-incr_other :
      (d : D) (t now : ℕ) (k j : Bytes)
      → bytes_eq k j ≡ false
      → r.get (r.incr d t k).0 now j ≡ r.get d now j
  pub get-expire_other :
      (d : D) (t now ttl : ℕ) (k j : Bytes)
      → bytes_eq k j ≡ false
      → r.get (r.expire d t k ttl) now j ≡ r.get d now j
  -- A value that is there later and was not written meanwhile was there before.
  pub get_earlier :
      (d : D) (t now : ℕ) (k v : Bytes) → t ≤ now → r.get d now k ≡ some v → r.get d t k ≡ some v
  pub incr_reply : (d : D) (t : ℕ) (k : Bytes) → (r.incr d t k).1 ≡ counter d t k + 1
  -- INCR keeps the time at which the key expires; EXPIRE then sets it.
  pub counter-expire-incr :
      (d : D) (t now ttl : ℕ) (k j : Bytes)
      → t ≤ now
      → counter (r.expire (r.incr d t k).0 t k ttl) now j ≡ (
          if bytes_eq k j
          then (if ltb now (t + ttl) then counter d t k + 1 else 0)
          else counter d now j)
