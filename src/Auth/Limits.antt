-- ===== src/Auth/Limits.antt =====
-- auth/session/ratelimit.go: what a run of attempts is answered.
use otvoren_vot.Prelude.{
  ℕ, ◌+◌, ◌-◌, ◌≤◌, ◌<◌, Bool, true, false, List, [], ◌∷◌, Option, none, some, Bytes, ◌++◌,
  bytes_eq, bytes_eq_sound, le-cases, le→leb, lt→leb, subst, leb, ltb, lt→ltb, if◌then◌else◌,
  Bool-cases, inl, inr, ◌≡◌, refl, ◌∙◌, ap, arith,
}
use Prim.Native.Nat.{min}
use otvoren_vot.Auth.Redis.{Redis, RedisLaws}
use otvoren_vot.Auth.Session.{rate_limit_window, rate_limit_max, rate_prefix, answered, allow}

-- The voters' attempts in order, each with its time.
abbrev pub Attempts : Type 0
Attempts = List (ℕ × Bytes)

-- How many of them are a voter's.
abbrev pub attempts_of : Bytes → Attempts → ℕ
attempts_of egn [] = 0
attempts_of egn ((t, e) ∷ rest) = (if bytes_eq e egn then 1 else 0) + attempts_of egn rest

-- Times do not fall, and each attempt of the voter is within the window after the one before.
abbrev pub AreClose : Bytes → ℕ → ℕ → Attempts → Type 0
AreClose egn last now [] = Unit {0}
AreClose egn last now ((t, e) ∷ rest) =
    (now ≤ t)
    × (bytes_eq e egn ≡ true → t < last + rate_limit_window)
    × AreClose egn (if bytes_eq e egn then t else last) t rest

abbrev pub passes : Option Bool → ℕ
passes none = 0
passes (some b) = if b then 1 else 0

module _ {D : Type 0} (r : Redis D) where
  -- How many of the voter's attempts `Allow` lets through, where Redis answers every call.
  abbrev pub allowed_of : D → Bytes → Attempts → ℕ
  allowed_of d egn [] = 0
  allowed_of d egn ((t, e) ∷ rest) =
      (if bytes_eq e egn then passes (allow r d t e answered).1 else 0)
      + allowed_of (allow r d t e answered).0 egn rest

module _ {D : Type 0} (r : Redis D) (laws : RedisLaws r) where
  -- The voter made c attempts, the last one at a time.
  IsCounted : D → Bytes → ℕ → ℕ → ℕ → Type 0
  IsCounted d egn from last c =
      (now : ℕ)
      → from ≤ now
      → laws.counter d now (rate_prefix ++ egn)
        ≡ (if ltb now (last + rate_limit_window) then c else 0)

  rate_key_eq : (a b : Bytes) → bytes_eq (rate_prefix ++ a) (rate_prefix ++ b) ≡ bytes_eq a b
  unfolding bytes_eq
  rate_key_eq a b = refl

  counter-allow :
      (d : D) (t now : ℕ) (e egn : Bytes)
      → t ≤ now
      → laws.counter (allow r d t e answered).0 now (rate_prefix ++ egn) ≡ (
          if bytes_eq e egn
          then (if ltb now (t + rate_limit_window)
              then laws.counter d t (rate_prefix ++ e) + 1
              else 0)
          else laws.counter d now (rate_prefix ++ egn))
  unfolding allow
  counter-allow d t now e egn h =
      laws.counter-expire-incr d t now rate_limit_window (rate_prefix ++ e) (rate_prefix ++ egn) h
      ∙ rw (rate_key_eq e egn) refl

  allow_answer :
      (d : D) (t : ℕ) (e : Bytes)
      → (allow r d t e answered).1
        ≡ some (leb (laws.counter d t (rate_prefix ++ e) + 1) rate_limit_max)
  unfolding allow
  allow_answer d t e =
      ap (λ n. some (leb n rate_limit_max)) (laws.incr_reply d t (rate_prefix ++ e))

  IsCounted-own :
      (d : D) (egn e : Bytes) (from last c t : ℕ)
      → IsCounted d egn from last c
      → from ≤ t
      → t < last + rate_limit_window
      → bytes_eq e egn ≡ true
      → ((allow r d t e answered).1 ≡ some (leb (c + 1) rate_limit_max))
        × IsCounted (allow r d t e answered).0 egn t t (c + 1)
  unfolding IsCounted
  IsCounted-own d egn e from last c t counted le near own =
      let same : e ≡ egn = bytes_eq_sound e egn own in
      let count : laws.counter d t (rate_prefix ++ e) ≡ c =
        ap (λ x. laws.counter d t (rate_prefix ++ x)) same
        ∙ counted t le
        ∙ rw (lt→ltb t (last + rate_limit_window) near) refl in
      (
        allow_answer d t e ∙ rw count refl,
        λ now h. counter-allow d t now e egn h ∙ rw own (rw count refl),
      )

  IsCounted-other :
      (d : D) (egn e : Bytes) (from last c t : ℕ)
      → IsCounted d egn from last c
      → from ≤ t
      → bytes_eq e egn ≡ false
      → IsCounted (allow r d t e answered).0 egn t last c
  unfolding IsCounted
  IsCounted-other d egn e from last c t counted le other now h =
      counter-allow d t now e egn h ∙ rw other (counted now (omega arith))

  one_more :
      (c n : ℕ)
      → passes (some (leb (c + 1) rate_limit_max)) + min n (rate_limit_max - (c + 1))
        ≡ min (1 + n) (rate_limit_max - c)
  one_more c n = elim (le-cases (c + 1) rate_limit_max) [
    | inl few ↦ rw (le→leb (c + 1) rate_limit_max few) (omega arith)
    | inr many ↦ rw (lt→leb (c + 1) rate_limit_max many) (omega arith)
  ]

  allowed_of_counted :
      (d : D) (egn : Bytes) (from last c : ℕ) (attempts : Attempts)
      → IsCounted d egn from last c
      → AreClose egn last from attempts
      → allowed_of r d egn attempts ≡ min (attempts_of egn attempts) (rate_limit_max - c)
  allowed_of_counted d egn from last c [] counted close = omega arith
  allowed_of_counted d egn from last c ((t, e) ∷ rest) counted (le, near, close) =
      elim (Bool-cases (bytes_eq e egn)) [
        | inl own ↦
            let (answer, counted') =
              IsCounted-own d egn e from last c t counted le (near own) own in
            let close' : AreClose egn t t rest =
              subst (λ b. AreClose egn (if b then t else last) t rest) own close in
            let ih =
              allowed_of_counted (allow r d t e answered).0 egn t t (c + 1) rest counted' close' in
            rw own (rw answer (rw ih (one_more c (attempts_of egn rest))))
        | inr other ↦
            let close' : AreClose egn last t rest =
              subst (λ b. AreClose egn (if b then t else last) t rest) other close in
            let ih =
              allowed_of_counted (allow r d t e answered).0 egn t last c rest
                (IsCounted-other d egn e from last c t counted le other) close' in
            rw other (rw ih (omega arith))
      ]

  -- Where a voter has no attempt on count, times do not fall, Redis answers, and each attempt of the
  -- voter comes within ten minutes of the one before, `Allow` lets the first five of them through and no
  -- more, whatever the other voters do meanwhile.
  pub allowed_of_lem :
      (d : D) (egn : Bytes) (start : ℕ) (attempts : Attempts)
      → ((now : ℕ) → start ≤ now → laws.counter d now (rate_prefix ++ egn) ≡ 0)
      → AreClose egn start start attempts
      → allowed_of r d egn attempts ≡ min (attempts_of egn attempts) rate_limit_max
  allowed_of_lem d egn start attempts none_yet close =
      allowed_of_counted d egn start start 0 attempts
        (unfold IsCounted in
          λ now h. none_yet now h ∙ same_either (ltb now (start + rate_limit_window)))
        close
    where
      same_either : (b : Bool) → ◌≡◌ {A = ℕ} 0 (if b then 0 else 0)
      same_either true = refl
      same_either false = refl
