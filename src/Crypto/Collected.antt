-- ===== src/Crypto/Collected.antt =====
-- crypto/elgamal/ballot.go: what the loops give that fill a slice.
use otvoren_vot.Prelude.{
  ℕ, zero, suc, ◌+◌, ◌<◌, List, [], ◌∷◌, some, length, get_elem?, ◌≡◌, refl, sym, ap, subst, ◌∙◌,
  arith,
}
use otvoren_vot.Crypto.Group.{Result, ok, err, ◌>>=◌}
use otvoren_vot.Crypto.Vectors.{collect_from}

pub ok_inj {ℓ} : {A : Type ℓ} {a b : A} → ok a ≡ ok b → a ≡ b
ok_inj h = cc

pub bind-ok {ℓ κ} :
    {A : Type ℓ} {B : Type κ} (m : Result A) (f : A → Result B) (b : B)
    → (m >>= f) ≡ ok b
    → (a : A) × (m ≡ ok a) × (f a ≡ ok b)
bind-ok (ok a) f b h = (a, refl, h)
bind-ok (err e) f b h = cc

module _ {ℓ} {A : Type ℓ} (make : ℕ → Result A) where
  -- The element at position k comes from the call for i + k.
  abbrev Comes : ℕ → List A → ℕ → Type ℓ
  Comes i xs k = (a : A) × (get_elem? xs k ≡ some a) × (make (i + k) ≡ ok a)

  Comes-cons :
      (count i : ℕ) (a : A) (rest : List A)
      → make i ≡ ok a
      → ((k : ℕ) → k < count → Comes (suc i) rest k)
      → (k : ℕ) → k < suc count
      → Comes i (a ∷ rest) k
  Comes-cons count i a rest made each zero h =
      let e : i ≡ i + 0 = omega arith in (a, refl, ap make (sym e) ∙ made)
  Comes-cons count i a rest made each (suc k) h =
      let (b, at, from) = each k (omega arith) in
      let e : suc i + k ≡ i + suc k = omega arith in (b, at, ap make (sym e) ∙ from)

  collect_from-Comes :
      (count i : ℕ) (xs : List A)
      → collect_from make count i ≡ ok xs
      → (length xs ≡ count) × ((k : ℕ) → k < count → Comes i xs k)
  unfolding collect_from
  collect_from-Comes zero i xs h = rw (sym (ok_inj h)) (refl, λ k p. ground arith)
  collect_from-Comes (suc count) i xs h =
      let (a, made, next) = bind-ok (make i) _ xs h in
      let (rest, collected, whole) = bind-ok (collect_from make count (suc i)) _ xs next in
      let (size, each) = collect_from-Comes count (suc i) rest collected in
      subst (λ ys. (length ys ≡ suc count) × ((k : ℕ) → k < suc count → Comes i ys k))
        (ok_inj whole) (ap suc size, Comes-cons count i a rest made each)

  -- A slice filled from position 0 holds at k what the call for k gives.
  pub collect_from-each :
      (count : ℕ) (xs : List A)
      → collect_from make count 0 ≡ ok xs
      → (length xs ≡ count)
        × ((k : ℕ) → k < count → (a : A) × (get_elem? xs k ≡ some a) × (make k ≡ ok a))
  collect_from-each count xs h =
      let (size, each) = collect_from-Comes count 0 xs h in
      (
        size,
        λ k p.
            let (a, at, made) = each k p in
            let e : k ≡ 0 + k = omega arith in (a, at, ap make e ∙ made),
      )

  collect_from-ok :
      (count i : ℕ)
      → ((k : ℕ) → k < count → (a : A) × (make (i + k) ≡ ok a))
      → (xs : List A) × (collect_from make count i ≡ ok xs)
  unfolding collect_from
  collect_from-ok zero i each = ([], refl)
  collect_from-ok (suc count) i each =
      let (a, made) = each 0 (omega arith) in
      let now : i ≡ i + 0 = omega arith in
      let (rest, collected) = collect_from-ok count (suc i) (λ k h.
        let (b, from) = each (suc k) (omega arith) in
        let later : suc i + k ≡ i + suc k = omega arith in (b, ap make later ∙ from)) in
      (a ∷ rest, rw (ap make now ∙ made) (rw collected refl))

  pub collect_from-all :
      (count : ℕ)
      → ((k : ℕ) → k < count → (a : A) × (make k ≡ ok a))
      → (xs : List A) × (collect_from make count 0 ≡ ok xs)
  collect_from-all count each =
      collect_from-ok count 0 (λ k h.
        let (a, made) = each k h in let e : 0 + k ≡ k = omega arith in (a, ap make e ∙ made))
