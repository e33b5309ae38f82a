-- ===== src/Tally/State.antt =====
-- tally/state.go: the state of a ceremony, its JSON form and the crash journal. The text of times and of
-- map keys, which the standard library prints and parses, is left out; `DedupProof` is never set.
use otvoren_vot.Prelude.{
  ℕ, true, false, List, [], ◌∷◌, Option, none, some, Bytes, length, ◌==◌, hex_encode, hex_decode,
}
use otvoren_vot.Crypto.Group.{Ristretto, Result, ok, err, decode_element, decode_scalar}
use otvoren_vot.Crypto.Elgamal.{Ciphertext}
use otvoren_vot.Crypto.Proof.{ChaumPedersenProof}
use otvoren_vot.Crypto.Threshold.{Partial}

pub data Phase : Type 0 where
  fetching tallying awaiting_trustees decrypted finalized failed : Phase

-- An encrypted sum is none where the code holds a nil pointer.
pub record TallyResult (E : Type 0) : Type 0 where
  pub encrypted_sums : List (Option (Ciphertext E))
  pub num_ballots : ℕ
  pub num_parties : ℕ

pub record State (S E : Type 0) : Type 0 where
  pub id : Bytes
  pub phase : Phase
  pub election_id : Bytes
  pub active_set : List Bytes
  pub ballot_count : ℕ
  pub party_count : ℕ
  pub partials : List (ℕ × List (Option (Partial S E)))
  pub trustee_order : List ℕ
  pub results : List ℕ
  pub started_at : ℕ
  pub decrypted_at : Option ℕ
  pub tally_result : Option (TallyResult E)

pub record PartialJson : Type 0 where
  pub d : Bytes
  pub u : Bytes
  pub v : Bytes
  pub z : Bytes

pub record StateJson : Type 0 where
  pub id : Bytes
  pub phase : Phase
  pub election_id : Bytes
  pub active_set : List Bytes
  pub ballot_count : ℕ
  pub party_count : ℕ
  pub partials : List (ℕ × List PartialJson)
  pub trustee_order : List ℕ
  pub results : List ℕ
  pub started_at : ℕ
  pub decrypted_at : Option ℕ

-- The result of a decoder that reports no more than that it failed.
unfoldable pub value_of {ℓ} : {A : Type ℓ} → Result A → Option A
value_of (ok a) = some a
value_of (err e) = none

abbrev pub both {ℓ κ} : {A : Type ℓ} {B : Type κ} → Option A → (A → Option B) → Option B
both none f = none
both (some a) f = f a

module _ {S E : Type 0} (r : Ristretto S E) where
  unfoldable pub decode_hex_element : Bytes → Option E
  unfolding value_of
  decode_hex_element text = elim (length text == 0) [
    | true ↦ none
    | false ↦ both (hex_decode text) (λ b. value_of (decode_element r b))
  ]

  unfoldable pub decode_hex_scalar : Bytes → Option S
  unfolding value_of
  decode_hex_scalar text = elim (length text == 0) [
    | true ↦ none
    | false ↦ both (hex_decode text) (λ b. value_of (decode_scalar r b))
  ]

  unfoldable pub decode_proof_hex : Bytes → Bytes → Bytes → Option (ChaumPedersenProof S E)
  unfolding decode_hex_element decode_hex_scalar
  decode_proof_hex u v z = both (decode_hex_element u) (λ ue.
      both (decode_hex_element v)
        (λ ve. both (decode_hex_scalar z) (λ zs. some (record { u = ue; v = ve; z = zs }))))

  -- `MarshalJSON`: none is its error, a partial that is nil.
  unfoldable pub marshal_partials : List (Option (Partial S E)) → Option (List PartialJson)
  marshal_partials [] = some []
  marshal_partials (none ∷ pds) = none
  marshal_partials (some pd ∷ pds) = both (marshal_partials pds) (λ rest. some (
      record {
        d = hex_encode (r.element_bytes pd.d);
        u = hex_encode (r.element_bytes pd.proof.u);
        v = hex_encode (r.element_bytes pd.proof.v);
        z = hex_encode (r.scalar_bytes pd.proof.z);
      }
      ∷ rest))

  unfoldable pub marshal_trustees :
      List (ℕ × List (Option (Partial S E))) → Option (List (ℕ × List PartialJson))
  unfolding marshal_partials
  marshal_trustees [] = some []
  marshal_trustees ((i, pds) ∷ rest) =
      both (marshal_partials pds)
        (λ json. both (marshal_trustees rest) (λ js. some ((i, json) ∷ js)))

  unfoldable pub marshal : State S E → Option StateJson
  unfolding marshal_trustees
  marshal cs = both (marshal_trustees cs.partials) (λ js. some (record {
    id = cs.id;
    phase = cs.phase;
    election_id = cs.election_id;
    active_set = cs.active_set;
    ballot_count = cs.ballot_count;
    party_count = cs.party_count;
    partials = js;
    trustee_order = cs.trustee_order;
    results = cs.results;
    started_at = cs.started_at;
    decrypted_at = cs.decrypted_at;
  }))

  -- `UnmarshalJSON`.
  unfoldable pub unmarshal_partials : ℕ → List PartialJson → Option (List (Option (Partial S E)))
  unfolding decode_hex_element decode_proof_hex
  unmarshal_partials i [] = some []
  unmarshal_partials i (pj ∷ pds) = both (decode_hex_element pj.d) (λ d.
      both (decode_proof_hex pj.u pj.v pj.z) (λ pf.
        both (unmarshal_partials i pds)
          (λ rest. some (some (record { trustee_index = i; d = d; proof = pf }) ∷ rest))))

  unfoldable pub unmarshal_trustees :
      ℕ → List (ℕ × List PartialJson) → Option (List (ℕ × List (Option (Partial S E))))
  unfolding unmarshal_partials
  unmarshal_trustees party_count [] = some []
  unmarshal_trustees party_count ((i, pds) ∷ rest) = elim (length pds == party_count) [
    | false ↦ none
    | true ↦ both (unmarshal_partials i pds) (λ decoded.
        both (unmarshal_trustees party_count rest) (λ others. some ((i, decoded) ∷ others)))
  ]

  unfoldable pub unmarshal : StateJson → Option (State S E)
  unfolding unmarshal_trustees
  unmarshal j = both (unmarshal_trustees j.party_count j.partials) (λ partials. some (record {
    id = j.id;
    phase = j.phase;
    election_id = j.election_id;
    active_set = j.active_set;
    ballot_count = j.ballot_count;
    party_count = j.party_count;
    partials = partials;
    trustee_order = j.trustee_order;
    results = j.results;
    started_at = j.started_at;
    decrypted_at = j.decrypted_at;
    tally_result = none;
  }))

-- `NewCeremonyState`, without its first `Save`.
unfoldable pub new_state : {S E : Type 0} → Bytes → Bytes → ℕ → State S E
new_state id election_id now = record {
  id = id;
  phase = fetching;
  election_id = election_id;
  active_set = [];
  ballot_count = 0;
  party_count = 0;
  partials = [];
  trustee_order = [];
  results = [];
  started_at = now;
  decrypted_at = none;
  tally_result = none;
}
