-- ===== src/Tally/Lifecycle.antt =====
-- What holds of the ceremony of tally/handler.go in the states that it reaches.
use otvoren_vot.Prelude.{
  ℕ, ◌≤◌, Bool, true, false, List, [], ◌∷◌, ◌++◌, Option, none, some, Bytes, length, length-append,
  take, ◌==◌, ==_iff, ◌||◌, lookup, lookup-insert_same, lookup-insert_other, length-insert_new,
  nat_Eq, ◌≡◌, refl, sym, subst, ap, ◌∙◌, ◌≢◌, inl, inr, Bool-cases, arith,
}
use otvoren_vot.Crypto.Group.{Ristretto}
use otvoren_vot.Crypto.Elgamal.{Ciphertext}
use otvoren_vot.Crypto.Threshold.{Partial, SlotContext}
use otvoren_vot.Tally.State.{Phase, awaiting_trustees, decrypted, finalized, State}
use otvoren_vot.Tally.Compute.{decrypt_tally}
use otvoren_vot.Tally.Submission.{slot_contexts, verify_slots}
use otvoren_vot.Tally.Journal.{World, store_state, set_phase}
use otvoren_vot.Tally.Handler.{decryption_threshold, decrypt_locked, accept}
use otvoren_vot.Tally.Acceptance.{submitted, decrypt_locked_cases, accept_cases}

abbrev pub among : ℕ → List ℕ → Bool
among i [] = false
among i (j ∷ js) = (i == j) || among i js

abbrev pub Distinct : List ℕ → Type 0
Distinct [] = Unit {0}
Distinct (i ∷ is) = (among i is ≡ false) × Distinct is

-- The phases in which the results are published.
abbrev pub is_decided : Phase → Bool
is_decided decrypted = true
is_decided finalized = true
is_decided _ = false

among-append : (i j : ℕ) (is : List ℕ) → among i (is ++ j ∷ []) ≡ (among i is || (i == j))
among-append i j [] = ground arith
among-append i j (k ∷ is) = ground (arith, among-append i j is)

append-Distinct : (j : ℕ) (is : List ℕ) → Distinct is → among j is ≡ false → Distinct (is ++ j ∷ [])
append-Distinct j [] d h = (refl, tt)
append-Distinct j (k ∷ is) (d, ds) h =
    (ground (arith, among-append k j is), append-Distinct j is ds (ground arith))

module _ {S E : Type 0} (r : Ristretto S E) (sha256 : Bytes → Bytes) (keys : List (ℕ × E)) where
  -- The partials of one trustee, checked slot by slot under that trustee's key.
  pub record IsVerified (cs : State S E) (trustee : ℕ) (pds : List (Option (Partial S E)))
      : Type 0 where
    pub key : E
    pub contexts : List SlotContext
    pub sums : List (Ciphertext E)
    pub known : lookup trustee keys ≡ some key
    pub in_context : slot_contexts r sha256 cs ≡ some (contexts, sums)
    pub checked : verify_slots r contexts sums key pds ≡ true

  -- The results are what the first five trustees' partials decrypt to.
  pub record IsResult (cs : State S E) : Type 0 where
    pub contexts : List SlotContext
    pub sums : List (Ciphertext E)
    pub in_context : slot_contexts r sha256 cs ≡ some (contexts, sums)
    pub quorum : decryption_threshold ≤ length cs.trustee_order
    pub decrypts :
        decrypt_tally r sums contexts cs.partials
          (take decryption_threshold cs.trustee_order)
          keys
          decryption_threshold
        ≡ some cs.results

  pub record IsValid (cs : State S E) : Type 0 where
    pub distinct : Distinct cs.trustee_order
    pub recorded : (i : ℕ) → among i cs.trustee_order ≡ true → lookup i cs.partials ≢ none
    pub counted : length cs.trustee_order ≡ length cs.partials
    pub verified :
        (i : ℕ) (pds : List (Option (Partial S E)))
        → lookup i cs.partials ≡ some pds
        → IsVerified cs i pds
    pub decided : is_decided cs.phase ≡ true → IsResult cs

  abbrev pub OnCeremony : Option (State S E) → Type 0
  OnCeremony none = Unit {0}
  OnCeremony (some cs) = IsValid cs

  -- A ceremony that no trustee has submitted to.
  pub empty-IsValid :
      (cs : State S E)
      → cs.partials ≡ []
      → cs.trustee_order ≡ []
      → is_decided cs.phase ≡ false
      → IsValid cs
  unfolding lookup
  empty-IsValid cs p o d = record {
    distinct = subst (λ x. Distinct x) (sym o) tt;
    recorded = λ i h. cc (ap (λ x. among i x) o);
    counted = rw (o) (rw (p) refl);
    verified = λ i pds h. cc (ap (λ x. lookup i x) p);
    decided = λ h. cc;
  }

  pub phase-IsValid :
      (cs : State S E) (phase : Phase) (ballots : ℕ)
      → IsValid cs
      → (is_decided phase ≡ true → is_decided cs.phase ≡ true)
      → IsValid (record cs { phase = phase; ballot_count = ballots })
  unfolding slot_contexts
  phase-IsValid cs phase ballots v f = record {
    distinct = v.distinct;
    recorded = v.recorded;
    counted = v.counted;
    verified = λ i pds h.
        let x = v.verified i pds h in
        record {
          key = x.key;
          contexts = x.contexts;
          sums = x.sums;
          known = x.known;
          in_context = x.in_context;
          checked = x.checked;
        };
    decided = λ h.
        let x = v.decided (f h) in
        record {
          contexts = x.contexts;
          sums = x.sums;
          in_context = x.in_context;
          quorum = x.quorum;
          decrypts = x.decrypts;
        };
  }

  not_among :
      (cs : State S E) (trustee : ℕ)
      → IsValid cs
      → lookup trustee cs.partials ≡ none
      → among trustee cs.trustee_order ≡ false
  not_among cs trustee v h = elim (Bool-cases (among trustee cs.trustee_order)) [
    | inl a ↦ absurd (v.recorded trustee a h)
    | inr a ↦ a
  ]

  pub submitted-IsValid :
      (cs : State S E) (trustee : ℕ) (key : E) (pds : List (Option (Partial S E)))
      (contexts : List SlotContext) (sums : List (Ciphertext E))
      → IsValid cs
      → cs.phase ≡ awaiting_trustees
      → lookup trustee keys ≡ some key
      → lookup trustee cs.partials ≡ none
      → slot_contexts r sha256 cs ≡ some (contexts, sums)
      → verify_slots r contexts sums key pds ≡ true
      → IsValid (submitted cs trustee pds)
  unfolding submitted slot_contexts
  submitted-IsValid cs trustee key pds contexts sums v p k n s c = record {
    distinct = append-Distinct trustee cs.trustee_order v.distinct (not_among cs trustee v n);
    recorded = λ i a h. elim (Bool-cases (trustee == i)) [
      | inl e ↦ cc ((==_iff trustee i).0 e, lookup-insert_same trustee pds cs.partials)
      | inr e ↦
          v.recorded i (ground (arith, among-append i trustee cs.trustee_order))
            (sym (lookup-insert_other trustee i pds cs.partials e) ∙ h)
    ];
    counted = omega (
      arith,
      length-append cs.trustee_order (trustee ∷ []),
      v.counted,
      length-insert_new trustee pds cs.partials n,
    );
    verified = λ i qds h. elim (Bool-cases (trustee == i)) [
      | inl e ↦ record {
        key = key;
        contexts = contexts;
        sums = sums;
        known = cc ((==_iff trustee i).0 e);
        in_context = s;
        checked = cc ((==_iff trustee i).0 e, lookup-insert_same trustee pds cs.partials);
      }
      | inr e ↦
          let x = v.verified i qds (sym (lookup-insert_other trustee i pds cs.partials e) ∙ h) in
          record {
            key = x.key;
            contexts = x.contexts;
            sums = x.sums;
            known = x.known;
            in_context = x.in_context;
            checked = x.checked;
          }
    ];
    decided = λ h. cc (ap is_decided p);
  }

  decided-IsValid :
      (cs : State S E) (contexts : List SlotContext) (sums : List (Ciphertext E)) (results : List ℕ)
      (now : ℕ)
      → IsValid cs
      → slot_contexts r sha256 cs ≡ some (contexts, sums)
      → decryption_threshold ≤ length cs.trustee_order
      → decrypt_tally r sums contexts cs.partials
          (take decryption_threshold cs.trustee_order)
          keys
          decryption_threshold
        ≡ some results
      → IsValid (record cs { results = results; decrypted_at = some now; phase = decrypted })
  unfolding slot_contexts
  decided-IsValid cs contexts sums results now v s q d = record {
    distinct = v.distinct;
    recorded = v.recorded;
    counted = v.counted;
    verified = λ i pds h.
        let x = v.verified i pds h in
        record {
          key = x.key;
          contexts = x.contexts;
          sums = x.sums;
          known = x.known;
          in_context = x.in_context;
          checked = x.checked;
        };
    decided =
        λ h. record { contexts = contexts; sums = sums; in_context = s; quorum = q; decrypts = d };
  }

  -- What `decryptLocked` leaves is valid.
  pub decrypt_locked-OnCeremony :
      (w : World S E) (cs : State S E) (now : ℕ) (written : Bool)
      → OnCeremony w.ceremony
      → IsValid cs
      → OnCeremony (decrypt_locked r sha256 w cs keys now written).0.ceremony
  unfolding set_phase store_state
  decrypt_locked-OnCeremony w cs now written u v =
      decrypt_locked_cases r sha256 keys (λ x. OnCeremony x.0.ceremony) w cs now written u
        (λ contexts sums results s q d. decided-IsValid cs contexts sums results now v s q d)

  pub accept-OnCeremony :
      (w : World S E) (cs : State S E) (trustee : ℕ) (pds : List (Option (Partial S E))) (now : ℕ)
      (a b : Bool)
      → IsValid (submitted cs trustee pds)
      → OnCeremony (accept r sha256 w cs keys trustee pds now a b).0.ceremony
  unfolding accept store_state submitted
  accept-OnCeremony w cs trustee pds now a b v =
      accept_cases r sha256 keys (λ x. OnCeremony x.0.ceremony) w cs trustee pds now a b v v
        (decrypt_locked-OnCeremony (store_state r w (submitted cs trustee pds) a).0
          (submitted cs trustee pds) now b v v)
