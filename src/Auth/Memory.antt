-- ===== src/Auth/Memory.antt =====
-- An instance of the interface `Redis`: two tables in memory, of texts and of counters.
use otvoren_vot.Prelude.{
  ℕ, ◌+◌, ◌≤◌, Option, none, some, Bytes, bytes_eq, bytes_eq_refl, ltb, if◌then◌else◌, ◌≡◌, refl,
  arith,
}
use otvoren_vot.Auth.Redis.{Redis, RedisLaws}

-- A text has the time of its expiry, a counter may have one.
pub record Memory : Type 0 where
  pub texts : Bytes → Option (Bytes × ℕ)
  pub counts : Bytes → ℕ × Option ℕ

abbrev pub no_entries : Memory
no_entries = record { texts = λ k. none; counts = λ k. (0, none) }

abbrev put : {A : Type 0} → (Bytes → A) → Bytes → A → Bytes → A
put table k a j = if bytes_eq k j then a else table j

abbrev pub live_text : Option (Bytes × ℕ) → ℕ → Option Bytes
live_text none now = none
live_text (some (text, expiry)) now = if ltb now expiry then some text else none

abbrev pub live_count : ℕ × Option ℕ → ℕ → ℕ
live_count (n, none) now = n
live_count (n, some expiry) now = if ltb now expiry then n else 0

abbrev pub bumped : ℕ × Option ℕ → ℕ → ℕ × Option ℕ
bumped (n, none) now = (n + 1, none)
bumped (n, some expiry) now = if ltb now expiry then (n + 1, some expiry) else (1, none)

abbrev pub memory : Redis Memory
memory = record {
  get = λ d now k. live_text (d.texts k) now;
  set_ex = λ d now k v ttl. record d { texts = put d.texts k (some (v, now + ttl)) };
  del = λ d k. record d { texts = put d.texts k none };
  incr = λ d now k. (
    record d { counts = put d.counts k (bumped (d.counts k) now) },
    live_count (bumped (d.counts k) now) now,
  );
  expire = λ d now k ttl. record d {
    counts = put d.counts k (live_count (d.counts k) now, some (now + ttl));
  };
}

abbrev pub count_of : Memory → ℕ → Bytes → ℕ
count_of d now k = live_count (d.counts k) now

pub live_text_earlier :
    (o : Option (Bytes × ℕ)) (t now : ℕ) (v : Bytes)
    → t ≤ now
    → live_text o now ≡ some v
    → live_text o t ≡ some v
live_text_earlier none t now v h e = e
live_text_earlier (some (text, expiry)) t now v h e = ground arith

pub live_count-bumped :
    (c : ℕ × Option ℕ) (now : ℕ) → live_count (bumped c now) now ≡ live_count c now + 1
live_count-bumped (n, none) now = refl
live_count-bumped (n, some expiry) now = ground arith

pub get-set_ex_memory :
    (d : Memory) (t now ttl : ℕ) (k j v : Bytes)
    → t ≤ now
    → memory.get (memory.set_ex d t k v ttl) now j
      ≡ (if bytes_eq k j then (if ltb now (t + ttl) then some v else none) else memory.get d now j)
get-set_ex_memory d t now ttl k j v h = ground arith

pub get-del_memory :
    (d : Memory) (now : ℕ) (k j : Bytes)
    → memory.get (memory.del d k) now j ≡ (if bytes_eq k j then none else memory.get d now j)
get-del_memory d now k j = ground arith

pub counter-expire-incr_memory :
    (d : Memory) (t now ttl : ℕ) (k j : Bytes)
    → t ≤ now
    → count_of (memory.expire (memory.incr d t k).0 t k ttl) now j ≡ (
        if bytes_eq k j
        then (if ltb now (t + ttl) then count_of d t k + 1 else 0)
        else count_of d now j)
counter-expire-incr_memory d t now ttl k j h =
    ground (arith, bytes_eq_refl k, live_count-bumped (d.counts k) t)

abbrev pub memory_laws : RedisLaws memory
memory_laws = record {
  counter = count_of;
  get-set_ex = get-set_ex_memory;
  get-del = get-del_memory;
  get-incr_other = λ d t now k j differs. refl;
  get-expire_other = λ d t now ttl k j differs. refl;
  get_earlier = λ d t now k v h e. live_text_earlier (d.texts k) t now v h e;
  incr_reply = λ d t k. live_count-bumped (d.counts k) t;
  counter-expire-incr = counter-expire-incr_memory;
}
