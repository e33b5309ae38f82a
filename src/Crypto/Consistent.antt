-- ===== src/Crypto/Consistent.antt =====
-- crypto/proof/candidate.go: the consistency proofs of honest voters.
use otvoren_vot.Prelude.{ℕ, ◌+◌, ◌-◌, ◌≤◌, ◌≡◌, sym, ap, ◌∙◌, arith}
use otvoren_vot.Crypto.Group.{Ristretto, ok}
use otvoren_vot.Crypto.Elgamal.{Ciphertext}
use otvoren_vot.Crypto.Complete.{Laws}
use otvoren_vot.Crypto.Logarithm.{GroupLaws, times, times-add, cancel_right, swap_middle}
use otvoren_vot.Crypto.Ballot.{
  Context, BinaryProof, check_binary_statement, consistency_domain, homomorphic_subtract,
  prove_consistency, verify_consistency,
}
use otvoren_vot.Crypto.Honest.{
  SubtractionLaws, Opens, minus_plus_element, verify_binary-prove_binary,
}

module _ {S E : Type 0} (r : Ristretto S E) (laws : Laws r) (group : GroupLaws r)
    (subtraction : SubtractionLaws r) where
  subtract-add :
      (a b c d : E) → r.subtract (r.add a b) (r.add c d) ≡ r.add (r.subtract a c) (r.subtract b d)
  subtract-add a b c d =
      let apart = r.add (r.subtract a c) (r.subtract b d) in
      let both : r.add apart (r.add c d) ≡ r.add a b =
        swap_middle r group (r.subtract a c) (r.subtract b d) c d
        ∙ ap (λ e. r.add e (r.add (r.subtract b d) d))
            (minus_plus_element r laws group subtraction a c)
        ∙ ap (r.add a) (minus_plus_element r laws group subtraction b d) in
      subtraction.subtract_negate (r.add a b) (r.add c d)
      ∙ ap (λ e. r.add e (r.negate (r.add c d))) (sym both)
      ∙ cancel_right r group apart (r.add c d)

  subtract-times : (m s : ℕ) → s ≤ m → r.subtract (times r m) (times r s) ≡ times r (m - s)
  subtract-times m s h =
      let whole : m ≡ m - s + s = omega arith in
      subtraction.subtract_negate (times r m) (times r s)
      ∙ ap (λ e. r.add e (r.negate (times r s))) (ap (times r) whole ∙ times-add r group (m - s) s)
      ∙ cancel_right r group (times r (m - s)) (times r s)

  subtract-base_mult :
      (x y : S)
      → r.subtract (r.scalar_base_mult x) (r.scalar_base_mult y)
        ≡ r.scalar_base_mult (r.sub_scalar x y)
  subtract-base_mult x y =
      ap (λ e. r.subtract e (r.scalar_base_mult y)) (laws.base_mult x)
      ∙ ap (r.subtract (r.scalar_mult x r.generator)) (laws.base_mult y)
      ∙ sym (subtraction.mult_subtract x y r.generator)
      ∙ sym (laws.base_mult (r.sub_scalar x y))

  homomorphic_subtract-Opens :
      (pk : E) (x y : S) (m s : ℕ) (a b : Ciphertext E)
      → s ≤ m
      → Opens r laws group subtraction pk x m a
      → Opens r laws group subtraction pk y s b
      → Opens r laws group subtraction pk (r.sub_scalar x y) (m - s) (homomorphic_subtract r a b)
  unfolding homomorphic_subtract
  homomorphic_subtract-Opens pk x y m s a b h (p, q) (p', q') = (
    ap (λ e. r.subtract e b.c1) p
        ∙ ap (r.subtract (r.scalar_base_mult x)) p'
        ∙ subtract-base_mult x y,
    ap (λ e. r.subtract e b.c2) q
        ∙ ap (r.subtract (r.add (r.scalar_mult x pk) (times r m))) q'
        ∙ subtract-add (r.scalar_mult x pk) (times r m) (r.scalar_mult y pk) (times r s)
        ∙ ap (λ e. r.add e (r.subtract (times r m) (times r s)))
            (sym (subtraction.mult_subtract x y pk))
        ∙ ap (r.add (r.scalar_mult (r.sub_scalar x y) pk)) (subtract-times m s h),
  )

  -- A proof that a party's bit less its candidate sum is 0 or 1 is made with the difference of the two
  -- random scalars and verifies against the two ciphertexts, where the sum is not above the bit, the
  -- bit not above the sum by more than one, and the context and the key pass the checks.
  pub verify_consistency-prove_consistency :
      (ctx : Context) (pk : E) (party sum : Ciphertext E) (m s : ℕ) (x y k e z : S)
      → check_binary_statement r ctx pk ≡ ok tt
      → s ≤ m
      → m - s ≤ 1
      → Opens r laws group subtraction pk x m party
      → Opens r laws group subtraction pk y s sum
      → (p : BinaryProof S E) × (prove_consistency r ctx pk party sum
            (m - s)
            (r.sub_scalar x y)
            k
            e
            z
          ≡ ok p)
        × (verify_consistency r ctx pk party sum p ≡ ok tt)
  unfolding prove_consistency verify_consistency
  verify_consistency-prove_consistency ctx pk party sum m s x y k e z checked h small opens opens' =
      verify_binary-prove_binary r laws group subtraction consistency_domain ctx pk
        (homomorphic_subtract r party sum) (m - s) (r.sub_scalar x y) k e z checked small
        (homomorphic_subtract-Opens pk x y m s party sum h opens opens')
