-- ===== src/Crypto/Logarithm.antt =====
-- crypto/internal/bsgs.go: what `BabyStepGiantStep` finds.
use native.Mathlib.Nat.{suc-mul, div-add-mod', mod-lt}
use otvoren_vot.Prelude.{
  ℕ, zero, suc, ◌+◌, ◌-◌, ◌*◌, ◌/◌, ◌≤◌, ◌<◌, ◌≡◌, ◌≢◌, refl, sym, ap, subst, ◌∙◌, true, false,
  List, [], ◌++◌, none, some, Bytes, arith, ltb, ◌==◌, if◌then◌else◌, lookup, insert, lookup-insert,
  bytes_Eq, bytes_eq, bytes_eq_refl, bytes_eq_sound, Bool-cases, inl, inr, lt→ltb, le→ltb, le→leb,
  le-cases, u64le, repeat,
}
use otvoren_vot.Crypto.Group.{Ristretto, scalar_from_int}
use otvoren_vot.Crypto.Elgamal.{step_from, baby_steps, giant_steps, baby_step_giant_step}

-- The generator added n times.
unfoldable pub times : {S E : Type 0} → Ristretto S E → ℕ → E
times r zero = r.identity
times r (suc n) = r.add (times r n) r.generator

-- The elements are an abelian group.
pub record GroupLaws {S E : Type 0} (r : Ristretto S E) : Type 0 where
  pub add_assoc : (a b c : E) → r.add (r.add a b) c ≡ r.add a (r.add b c)
  pub add_comm : (a b : E) → r.add a b ≡ r.add b a
  pub add_identity : (a : E) → r.add a r.identity ≡ a
  pub add_negate : (a : E) → r.add a (r.negate a) ≡ r.identity

-- Below the order of the group the multiples of the generator have encodings of their own, and the
-- canonical encoding of a small number is a scalar that gives its multiple.
pub record Multiples {S E : Type 0} (r : Ristretto S E) (order : ℕ) : Type 0 where
  pub distinct :
      (i j : ℕ)
      → i < order
      → j < order
      → r.element_bytes (times r i) ≡ r.element_bytes (times r j)
      → i ≡ j
  pub small :
      (n : ℕ)
      → n < order
      → (s : S) × (r.set_canonical_scalar (u64le 8 n ++ repeat 24 0) ≡ some s)
        × (r.scalar_base_mult s ≡ times r n)

two_more : (a b : ℕ) → (a + 2) * b ≡ a * b + b + b
two_more a b =
    let e : a + 2 ≡ suc (suc a) = omega arith in
    ap (λ n. n * b) e ∙ suc-mul (suc a) b ∙ ap (λ n. n + b) (suc-mul a b)

step_from_low : (fuel step max : ℕ) → step ≤ step_from fuel step max
unfolding step_from
step_from_low zero step max = omega arith
step_from_low (suc fuel) step max = ground (arith, step_from_low fuel (suc step) max)

step_from_high : (fuel step max : ℕ) → step_from fuel step max ≤ step + fuel
unfolding step_from
step_from_high zero step max = omega arith
step_from_high (suc fuel) step max = ground (arith, step_from_high fuel (suc step) max)

module _ {S E : Type 0} (r : Ristretto S E) (group : GroupLaws r) where
  pub times-add : (n k : ℕ) → times r (n + k) ≡ r.add (times r n) (times r k)
  unfolding times
  times-add n zero =
      let e : n + zero ≡ n = omega arith in ap (times r) e ∙ sym (group.add_identity (times r n))
  times-add n (suc k) =
      let e : n + suc k ≡ suc (n + k) = omega arith in
      ap (times r) e
      ∙ ap (λ x. r.add x r.generator) (times-add n k)
      ∙ group.add_assoc (times r n) (times r k) r.generator

  pub cancel_right : (a b : E) → r.add (r.add a b) (r.negate b) ≡ a
  cancel_right a b =
      group.add_assoc a b (r.negate b) ∙ ap (r.add a) (group.add_negate b) ∙ group.add_identity a

  -- (a + b) + (c + d) with the middle two swapped.
  pub swap_middle : (a b c d : E) → r.add (r.add a b) (r.add c d) ≡ r.add (r.add a c) (r.add b d)
  swap_middle a b c d =
      group.add_assoc a b (r.add c d)
      ∙ ap (r.add a) (
          sym (group.add_assoc b c d)
          ∙ ap (λ e. r.add e d) (group.add_comm b c)
          ∙ group.add_assoc c b d)
      ∙ sym (group.add_assoc a c (r.add b d))

module _ {S E : Type 0} (r : Ristretto S E) (group : GroupLaws r) (order : ℕ)
    (multiples : Multiples r order) where
  -- The table holds the multiples below `count`, and no other below the order.
  abbrev Tabled : ℕ → List (Bytes × ℕ) → Type 0
  Tabled count table =
      (n : ℕ)
      → n < order
      → lookup (r.element_bytes (times r n)) table ≡ (if ltb n count then some n else none)

  key-cases :
      (j n : ℕ)
      → j < order
      → n < order
      → bytes_eq (r.element_bytes (times r j)) (r.element_bytes (times r n)) ≡ (j == n)
  key-cases j n p q =
      elim (Bool-cases (bytes_eq (r.element_bytes (times r j)) (r.element_bytes (times r n)))) [
        | inl e ↦
            let same : j ≡ n = multiples.distinct j n p q (bytes_eq_sound _ _ e) in
            e ∙ ground (arith, same)
        | inr e ↦ let apart : j ≢ n = λ same. no_match same e in e ∙ ground (arith, apart)
      ]
    where
      no_match :
          j ≡ n → bytes_eq (r.element_bytes (times r j)) (r.element_bytes (times r n)) ≢ false
      no_match same e =
          let yes_match : bytes_eq (r.element_bytes (times r j)) (r.element_bytes (times r n))
              ≡ true =
            subst (λ m. bytes_eq (r.element_bytes (times r j)) (r.element_bytes (times r m)) ≡ true)
              same (bytes_eq_refl (r.element_bytes (times r j))) in
          cc

  Tabled-insert :
      (j : ℕ) (table : List (Bytes × ℕ))
      → j < order
      → Tabled j table
      → Tabled (suc j) (insert (r.element_bytes (times r j)) j table)
  Tabled-insert j table p tabled n q =
      lookup-insert (r.element_bytes (times r j)) (r.element_bytes (times r n)) j table
      ∙ rw (key-cases j n p q, tabled n q) (merge j n)
    where
      merge :
          (j n : ℕ)
          → (if j == n then some j else if ltb n j then some n else none)
            ≡ (if ltb n (suc j) then some n else none)
      merge j n = ground arith

  baby_steps-Tabled :
      (count j : ℕ) (table : List (Bytes × ℕ))
      → j + count ≤ order
      → Tabled j table
      → Tabled (j + count) (baby_steps r count j (times r j) table)
  unfolding baby_steps times
  baby_steps-Tabled zero j table h tabled =
      let e : j + zero ≡ j = omega arith in subst (λ c. Tabled c table) (sym e) tabled
  baby_steps-Tabled (suc count) j table h tabled =
      let e : j + suc count ≡ suc j + count = omega arith in
      subst (λ c. Tabled c (baby_steps r (suc count) j (times r j) table)) (sym e)
        (baby_steps-Tabled count (suc j) (insert (r.element_bytes (times r j)) j table)
          (omega arith) (Tabled-insert j table (omega arith) tabled))

  giant_steps_lem :
      (count i step max n m : ℕ) (giant gamma : E) (table : List (Bytes × ℕ))
      → giant ≡ r.negate (times r step)
      → gamma ≡ times r n
      → Tabled step table
      → 0 < step
      → n < order
      → i * step + n ≡ m
      → m ≤ max
      → n < count * step
      → giant_steps r count i step max giant gamma table ≡ some m
  unfolding giant_steps
  giant_steps_lem zero i step max n m giant gamma table g e tabled p q s h c = absurd (omega arith)
  giant_steps_lem (suc count) i step max n m giant gamma table g e tabled p q s h c =
      let found = ap (λ x. lookup (r.element_bytes x) table) e ∙ tabled n q in
      elim (le-cases step n) [
        | inr below ↦
            let hit : lookup (r.element_bytes gamma) table ≡ some n =
              found ∙ ap (λ b. if b then some n else none) (lt→ltb n step below) in
            rw (giant_steps, hit, s, le→leb m max h)
        | inl above ↦
            let missed : lookup (r.element_bytes gamma) table ≡ none =
              found ∙ ap (λ b. if b then some n else none) (le→ltb n step above) in
            let whole : n - step + step ≡ n = omega arith in
            let next : r.add gamma giant ≡ times r (n - step) =
              ap (λ x. r.add x giant) (e ∙ ap (times r) (sym whole))
              ∙ ap (r.add (times r (n - step + step))) g
              ∙ ap (λ x. r.add x (r.negate (times r step))) (times-add r group (n - step) step)
              ∙ cancel_right r group (times r (n - step)) (times r step) in
            rw (giant_steps, missed)
              (giant_steps_lem count (suc i) step max (n - step) m giant (r.add gamma giant) table g
                next tabled p (omega arith) (omega (arith, suc-mul i step)) h
                (omega (arith, suc-mul count step)))
      ]

  -- `BabyStepGiantStep` finds the logarithm of every multiple of the generator up to the bound, where the
  -- bound is below the order.
  pub baby_step_giant_step_lem :
      (m max : ℕ) → m ≤ max → suc max < order → baby_step_giant_step r (times r m) max ≡ some m
  unfolding baby_step_giant_step scalar_from_int times
  baby_step_giant_step_lem m max h bound =
      let step = step_from max 1 max in
      let low = step_from_low max 1 max in
      let high = step_from_high max 1 max in
      let (s, encoded, giant) = multiples.small step (omega (arith, high)) in
      let table = baby_steps r step 0 r.identity [] in
      let none_yet : Tabled 0 [] = λ n q. unfold lookup in sym (rw (le→ltb n 0 (omega arith))) in
      let tabled : Tabled step table =
        let e : 0 + step ≡ step = omega arith in
        subst (λ c. Tabled c table) e
          (baby_steps-Tabled step 0 [] (omega (arith, high)) none_yet) in
      let enough : m < (max / step + 2) * step =
        omega (arith, div-add-mod' max step, mod-lt max low, two_more (max / step) step) in
      rw (baby_step_giant_step, encoded)
        (giant_steps_lem (max / step + 2) 0 step max m m _ (times r m) table (ap r.negate giant)
          refl tabled low (omega arith) (omega arith) h enough)
