-- ===== src/Prelude/Dict.antt =====
-- Go's maps as association lists, over keys with a Boolean equality. The program reads nothing from
-- the order of a map's entries but where a comment says so.
use Prim.Native.Nat.{ℕ, suc}
use mathlib.Core.Path.{◌≡◌, refl, subst}
use mathlib.Core.Logic.{◌↔◌}
use mathlib.Core.Bool.{Bool, true, false}
use mathlib.Core.Option.{Option, none, some}
use mathlib.Core.List.{List, [], ◌∷◌}
use native.Mathlib.Omega.{arith}
use otvoren_vot.Prelude.Tests.{
  ◌==◌ as nat_eq, ==_iff, if◌then◌else◌, Bytes, bytes_eq, bytes_eq_refl, bytes_eq_sound,
}
use otvoren_vot.Prelude.Lists.{length}

pub record Eq {ℓ} (A : Type ℓ) : Type ℓ where
  pub beq : A → A → Bool
  pub beq_iff : (a b : A) → (beq a b ≡ true) ↔ (a ≡ b)

infix 50 ◌=?◌
abbrev pub ◌=?◌ {ℓ} : {A : Type ℓ} ⦃e : Eq A⦄ → A → A → Bool
◌=?◌ ⦃e⦄ = e.beq

pub =?_iff {ℓ} : {A : Type ℓ} ⦃e : Eq A⦄ → (a b : A) → ((a =? b) ≡ true) ↔ (a ≡ b)
=?_iff ⦃e⦄ = e.beq_iff

pub =?_refl {ℓ} : {A : Type ℓ} ⦃e : Eq A⦄ → (a : A) → (a =? a) ≡ true
=?_refl ⦃e⦄ a = (e.beq_iff a a).1 refl

abbrev nat_beq : ℕ → ℕ → Bool
nat_beq a b = nat_eq a b

instance abbrev pub nat_Eq : Eq ℕ
nat_Eq = record { beq = nat_beq; beq_iff = ==_iff }

pub bytes_eq_iff : (a b : Bytes) → (bytes_eq a b ≡ true) ↔ (a ≡ b)
bytes_eq_iff a b = (bytes_eq_sound a b, λ e. subst (λ x. bytes_eq a x ≡ true) e (bytes_eq_refl a))

instance abbrev pub bytes_Eq : Eq Bytes
bytes_Eq = record { beq = bytes_eq; beq_iff = bytes_eq_iff }

module _ {ℓ κ} {K : Type ℓ} ⦃e : Eq K⦄ {V : Type κ} where
  -- v, ok := m[k]
  unfoldable pub lookup : K → List (K × V) → Option V
  lookup k [] = none
  lookup k ((j, v) ∷ m) = if j =? k then some v else lookup k m

  -- m[k] = v
  unfoldable pub insert : K → V → List (K × V) → List (K × V)
  insert k v [] = (k, v) ∷ []
  insert k v ((j, w) ∷ m) = if j =? k then (k, v) ∷ m else (j, w) ∷ insert k v m

  -- delete(m, k)
  unfoldable pub delete : K → List (K × V) → List (K × V)
  delete k [] = []
  delete k ((j, w) ∷ m) = let rest = delete k m in if j =? k then rest else (j, w) ∷ rest

  pub lookup-insert :
      (k j : K) (v : V) (m : List (K × V))
      → lookup j (insert k v m) ≡ (if k =? j then some v else lookup j m)
  unfolding lookup insert
  lookup-insert k j v [] = refl
  lookup-insert k j v ((i, w) ∷ m) =
      ground (arith, e.beq_iff k j, e.beq_iff i k, e.beq_iff i j, lookup-insert k j v m)

  pub lookup-delete :
      (k j : K) (m : List (K × V)) → lookup j (delete k m) ≡ (if k =? j then none else lookup j m)
  unfolding lookup delete
  lookup-delete k j [] = ground arith
  lookup-delete k j ((i, w) ∷ m) =
      ground (arith, e.beq_iff k j, e.beq_iff i k, e.beq_iff i j, lookup-delete k j m)

  -- len(m) grows by a new key only.
  pub length-insert_new :
      (k : K) (v : V) (m : List (K × V))
      → lookup k m ≡ none
      → length (insert k v m) ≡ suc (length m)
  unfolding lookup insert
  length-insert_new k v [] h = refl
  length-insert_new k v ((j, w) ∷ m) h = ground (arith, length-insert_new k v m)

  pub length-insert_old :
      (k : K) (v w : V) (m : List (K × V)) → lookup k m ≡ some w → length (insert k v m) ≡ length m
  unfolding lookup insert
  length-insert_old k v w [] h = cc
  length-insert_old k v w ((j, u) ∷ m) h = ground (arith, length-insert_old k v w m)

  pub lookup-insert_same : (k : K) (v : V) (m : List (K × V)) → lookup k (insert k v m) ≡ some v
  lookup-insert_same k v m = rw (lookup-insert k k v m) (rw (=?_refl k) refl)

  pub lookup-insert_other :
      (k j : K) (v : V) (m : List (K × V)) → (k =? j) ≡ false → lookup j (insert k v m) ≡ lookup j m
  lookup-insert_other k j v m h = rw (lookup-insert k j v m) (rw (h) refl)
