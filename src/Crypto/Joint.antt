-- ===== src/Crypto/Joint.antt =====
-- crypto/threshold/dkg.go: the sum of the participants' polynomials.
use otvoren_vot.Prelude.{ℕ, suc, ◌≤◌, List, [], ◌∷◌, length, map, ◌≡◌, refl, sym, ap, ◌∙◌, arith}
use otvoren_vot.Crypto.Group.{Ristretto, sum_scalars_from}
use otvoren_vot.Crypto.Shares.{RingLaws, polynomial}

module _ {S E : Type 0} (r : Ristretto S E) where
  -- The sum of two polynomials.
  abbrev pub added : List S → List S → List S
  added [] bs = bs
  added (a ∷ es) [] = a ∷ es
  added (a ∷ es) (b ∷ bs) = r.add_scalar a b ∷ added es bs

  -- The sum of the polynomials that the participants draw.
  abbrev pub joint : List S → List (List S) → List S
  joint acc [] = acc
  joint acc (coefficients ∷ rest) = joint (added acc coefficients) rest

  -- Every participant draws as many coefficients as the threshold.
  abbrev pub AreDrawn : ℕ → List (List S) → Type 0
  AreDrawn threshold [] = Unit {0}
  AreDrawn threshold (coefficients ∷ rest) =
      (length coefficients ≡ threshold) × AreDrawn threshold rest

  -- The joint polynomial has one coefficient for each that a participant drew.
  length-added : (es bs : List S) → length es ≡ length bs → length (added es bs) ≡ length bs
  length-added [] bs h = refl
  length-added (a ∷ es) [] h = h
  length-added (a ∷ es) (b ∷ bs) h = ap suc (length-added es bs (omega (arith, h)))

  length-joint :
      (threshold : ℕ) (acc : List S) (all : List (List S))
      → length acc ≡ threshold
      → AreDrawn threshold all
      → length (joint acc all) ≡ threshold
  length-joint threshold acc [] h drawn = h
  length-joint threshold acc (coefficients ∷ rest) h (whole, drawn) =
      length-joint threshold (added acc coefficients) rest
        (length-added acc coefficients (h ∙ sym whole) ∙ whole) drawn

  pub length-joint_some :
      (threshold : ℕ) (all : List (List S))
      → 1 ≤ length all
      → AreDrawn threshold all
      → length (joint [] all) ≡ threshold
  length-joint_some threshold [] h drawn = ground arith
  length-joint_some threshold (coefficients ∷ rest) h (whole, drawn) =
      length-joint threshold coefficients rest whole drawn

module _ {S E : Type 0} (r : Ristretto S E) (laws : RingLaws r) where
  regroup :
      (x v w a b : S)
      → r.add_scalar (r.mul_scalar (r.add_scalar v w) x) (r.add_scalar a b)
        ≡ r.add_scalar (r.add_scalar (r.mul_scalar v x) a) (r.add_scalar (r.mul_scalar w x) b)
  regroup x v w a b =
      let p = r.mul_scalar x v in
      let q = r.mul_scalar x w in
      cc (
        laws.mul_comm (r.add_scalar v w) x,
        laws.mul_add x v w,
        laws.mul_comm v x,
        laws.mul_comm w x,
        laws.add_assoc p q (r.add_scalar a b),
        laws.add_assoc q a b,
        laws.add_comm q a,
        laws.add_assoc a q b,
        laws.add_assoc p a (r.add_scalar q b),
      )

  pub polynomial-added :
      (x : S) (es bs : List S)
      → polynomial r x (added r es bs) ≡ r.add_scalar (polynomial r x es) (polynomial r x bs)
  polynomial-added x [] bs = sym (laws.zero_add (polynomial r x bs))
  polynomial-added x (a ∷ es) [] =
      sym (laws.zero_add _) ∙ laws.add_comm r.zero_scalar (polynomial r x (a ∷ es))
  polynomial-added x (a ∷ es) (b ∷ bs) =
      ap (λ v. r.add_scalar (r.mul_scalar v x) (r.add_scalar a b)) (polynomial-added x es bs)
      ∙ regroup x (polynomial r x es) (polynomial r x bs) a b

  pub polynomial-joint :
      (x : S) (acc : List S) (all : List (List S))
      → sum_scalars_from r (polynomial r x acc) (map (polynomial r x) all)
        ≡ polynomial r x (joint r acc all)
  unfolding sum_scalars_from
  polynomial-joint x acc [] = refl
  polynomial-joint x acc (coefficients ∷ rest) =
      ap (λ v. sum_scalars_from r v (map (polynomial r x) rest))
        (sym (polynomial-added x acc coefficients))
      ∙ polynomial-joint x (added r acc coefficients) rest

  pub polynomial-zero :
      (a : S) (coefficients : List S) → polynomial r r.zero_scalar (a ∷ coefficients) ≡ a
  polynomial-zero a coefficients =
      ap (λ v. r.add_scalar v a) (laws.mul_zero (polynomial r r.zero_scalar coefficients))
      ∙ laws.zero_add a
