-- ===== src/Crypto/Homomorphic.antt =====
-- crypto/elgamal/elgamal.go: what `Decrypt` gives for a ciphertext and for the sum of ciphertexts.
use otvoren_vot.Prelude.{
  ℕ, suc, ◌+◌, ◌≤◌, ◌<◌, ◌≡◌, refl, sym, ap, subst, ◌∙◌, false, List, [], ◌∷◌, some, arith,
  Bool-cases, inl, inr, ◌≢◌,
}
use otvoren_vot.Crypto.Group.{
  Ristretto, Error, invalid_public_key, invalid_randomness, ok, err, scalar_from_int,
}
use otvoren_vot.Crypto.Elgamal.{
  Ciphertext, max_decrypt, encrypt_with_randomness, scalar_base_mult_int, add_ciphertexts_from,
  homomorphic_add, baby_step_giant_step, decrypt,
}
use otvoren_vot.Crypto.Logarithm.{
  GroupLaws, Multiples, times, times-add, cancel_right, swap_middle, baby_step_giant_step_lem,
}

-- A scalar acts on the group, and the order of two scalars on the generator does not matter.
pub record ScalarLaws {S E : Type 0} (r : Ristretto S E) : Type 0 where
  pub mult_add :
      (x : S) (a b : E)
      → r.scalar_mult x (r.add a b) ≡ r.add (r.scalar_mult x a) (r.scalar_mult x b)
  pub mult_swap :
      (x k : S) → r.scalar_mult k (r.scalar_base_mult x) ≡ r.scalar_mult x (r.scalar_base_mult k)

pub record Vote (S : Type 0) : Type 0 where
  pub plaintext : ℕ
  pub randomness : S

-- The sum of the plaintexts.
abbrev pub total : {S : Type 0} → List (Vote S) → ℕ
total [] = 0
total (v ∷ votes) = v.plaintext + total votes

module _ {S E : Type 0} (r : Ristretto S E) (group : GroupLaws r) (scalars : ScalarLaws r)
    (order : ℕ) (multiples : Multiples r order) where
  -- The ciphertext holds m under the private key x.
  abbrev pub Holds : S → ℕ → Ciphertext E → Type 0
  Holds x m ct = ct.c2 ≡ r.add (r.scalar_mult x ct.c1) (times r m)

  decrypt-Holds :
      (x : S) (m : ℕ) (ct : Ciphertext E)
      → Holds x m ct
      → m ≤ max_decrypt
      → suc max_decrypt < order
      → decrypt r x ct ≡ some m
  unfolding decrypt
  decrypt-Holds x m ct holds small bound =
      let masked : r.add ct.c2 (r.negate (r.scalar_mult x ct.c1)) ≡ times r m =
        ap (λ c. r.add c (r.negate (r.scalar_mult x ct.c1)))
          (holds ∙ group.add_comm (r.scalar_mult x ct.c1) (times r m))
        ∙ cancel_right r group (times r m) (r.scalar_mult x ct.c1) in
      ap (λ e. baby_step_giant_step r e max_decrypt) masked
      ∙ baby_step_giant_step_lem r group order multiples m max_decrypt small bound

  encrypted :
      (x : S) (m : ℕ) (k : S)
      → r.equal (r.scalar_base_mult x) r.identity ≡ false
      → r.scalar_equal k r.zero_scalar ≡ false
      → m < order
      → (ct : Ciphertext E) × (encrypt_with_randomness r (r.scalar_base_mult x) m k ≡ ok ct)
        × Holds x m ct
  unfolding encrypt_with_randomness scalar_base_mult_int scalar_from_int
  encrypted x m k key random small =
      let (s, encoded, gives) = multiples.small m small in
      (
        record {
          c1 = r.scalar_base_mult k;
          c2 = r.add (r.scalar_mult k (r.scalar_base_mult x)) (r.scalar_base_mult s);
        },
        rw (encrypt_with_randomness, key, random, scalar_base_mult_int, scalar_from_int, encoded),
        ap (λ e. r.add e (r.scalar_base_mult s)) (scalars.mult_swap x k)
            ∙ ap (r.add (r.scalar_mult x (r.scalar_base_mult k))) gives,
      )

  -- Where the public key is not the identity and the randomness is not zero, a plaintext up to the bound
  -- of `Decrypt` is encrypted, and decrypting with the private key gives it back.
  pub decrypt-encrypt_with_randomness :
      (x : S) (m : ℕ) (k : S)
      → r.equal (r.scalar_base_mult x) r.identity ≡ false
      → r.scalar_equal k r.zero_scalar ≡ false
      → m ≤ max_decrypt
      → suc max_decrypt < order
      → (ct : Ciphertext E) × (encrypt_with_randomness r (r.scalar_base_mult x) m k ≡ ok ct)
        × (decrypt r x ct ≡ some m)
  decrypt-encrypt_with_randomness x m k key random small bound =
      let (ct, made, holds) = encrypted x m k key random (omega arith) in
      (ct, made, decrypt-Holds x m ct holds small bound)

  add-Holds :
      (x : S) (m n : ℕ) (a b : Ciphertext E)
      → Holds x m a
      → Holds x n b
      → Holds x (m + n) (record { c1 = r.add a.c1 b.c1; c2 = r.add a.c2 b.c2 })
  add-Holds x m n a b p q =
      ap (λ c. r.add c b.c2) p
      ∙ ap (r.add (r.add (r.scalar_mult x a.c1) (times r m))) q
      ∙ swap_middle r group (r.scalar_mult x a.c1) (times r m) (r.scalar_mult x b.c1) (times r n)
      ∙ ap (λ e. r.add e (r.add (times r m) (times r n))) (sym (scalars.mult_add x a.c1 b.c1))
      ∙ ap (r.add (r.scalar_mult x (r.add a.c1 b.c1))) (sym (times-add r group m n))

  -- The ciphertexts of the votes, in order.
  abbrev pub Encrypts : S → List (Vote S) → List (Ciphertext E) → Type 0
  Encrypts x [] [] = Unit {0}
  Encrypts x [] (ct ∷ cts) = ⊥
  Encrypts x (v ∷ votes) [] = ⊥
  Encrypts x (v ∷ votes) (ct ∷ cts) =
      (encrypt_with_randomness r (r.scalar_base_mult x) v.plaintext v.randomness ≡ ok ct)
      × Encrypts x votes cts

  -- What encryption gave holds the plaintext.
  encrypted-Holds :
      (x : S) (v : Vote S) (ct : Ciphertext E)
      → encrypt_with_randomness r (r.scalar_base_mult x) v.plaintext v.randomness ≡ ok ct
      → v.plaintext < order
      → Holds x v.plaintext ct
  unfolding encrypt_with_randomness
  encrypted-Holds x v ct made small =
      elim (Bool-cases (r.equal (r.scalar_base_mult x) r.identity)) [
        | inl key ↦
            absurd (clash {e = invalid_public_key} (sym made ∙ rw (encrypt_with_randomness, key)))
        | inr key ↦ elim (Bool-cases (r.scalar_equal v.randomness r.zero_scalar)) [
          | inl fixed ↦
              absurd (
                clash {e = invalid_randomness}
                  (sym made ∙ rw (encrypt_with_randomness, key, fixed)))
          | inr random ↦
              let (ct', again, holds) = encrypted x v.plaintext v.randomness key random small in
              let same : ct' ≡ ct = ok_inj (sym again ∙ made) in
              subst (Holds x v.plaintext) same holds
        ]
      ]
    where
      clash : {ct : Ciphertext E} {e : Error} → ok ct ≢ err e
      clash = λ h. cc

      ok_inj : {a b : Ciphertext E} → ok a ≡ ok b → a ≡ b
      ok_inj h = cc

  add_ciphertexts_from-Holds :
      (x : S) (m : ℕ) (sum : Ciphertext E) (votes : List (Vote S)) (cts : List (Ciphertext E))
      → Holds x m sum
      → Encrypts x votes cts
      → total votes < order
      → Holds x (m + total votes) (add_ciphertexts_from r sum cts)
  unfolding add_ciphertexts_from
  add_ciphertexts_from-Holds x m sum [] [] holds all small =
      let e : m ≡ m + 0 = omega arith in subst (λ n. Holds x n sum) e holds
  add_ciphertexts_from-Holds x m sum [] (ct ∷ cts) holds all small = absurd all
  add_ciphertexts_from-Holds x m sum (v ∷ votes) [] holds all small = absurd all
  add_ciphertexts_from-Holds x m sum (v ∷ votes) (ct ∷ cts) holds (made, all) small =
      let one = encrypted-Holds x v ct made (omega arith) in
      let both = add-Holds x m v.plaintext sum ct holds one in
      let e : m + v.plaintext + total votes ≡ m + total (v ∷ votes) = omega arith in
      subst (λ n. Holds x n (add_ciphertexts_from r sum (ct ∷ cts))) e
        (add_ciphertexts_from-Holds x (m + v.plaintext) _ votes cts both all (omega arith))

  -- Adding the ciphertexts of one vote or more and decrypting the sum gives the sum of the plaintexts,
  -- where that is within the bound of `Decrypt`.
  pub decrypt-homomorphic_add :
      (x : S) (v : Vote S) (votes : List (Vote S)) (ct : Ciphertext E) (cts : List (Ciphertext E))
      → Encrypts x (v ∷ votes) (ct ∷ cts)
      → total (v ∷ votes) ≤ max_decrypt
      → suc max_decrypt < order
      → (sum : Ciphertext E) × (homomorphic_add r (ct ∷ cts) ≡ some sum)
        × (decrypt r x sum ≡ some (total (v ∷ votes)))
  unfolding homomorphic_add
  decrypt-homomorphic_add x v votes ct cts (made, all) small bound =
      let first = encrypted-Holds x v ct made (omega arith) in
      let holds = add_ciphertexts_from-Holds x v.plaintext ct votes cts first all (omega arith) in
      (
        add_ciphertexts_from r ct cts,
        refl,
        decrypt-Holds x (total (v ∷ votes)) (add_ciphertexts_from r ct cts) holds small bound,
      )
