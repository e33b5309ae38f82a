-- ===== src/Collection/Report.antt =====
-- collection/audit: `Generate` of audit.go, with report.go. JSON with JCS, the text of a time, the signer
-- and SHA-256 are parameters; the nonce, the clock and the answers of the store are arguments.
use otvoren_vot.Prelude.{
  ℕ, Bool, true, false, Option, none, some, List, [], ◌∷◌, map, Bytes, ltb, ◌==◌, if◌then◌else◌,
  length, hex_encode, ascii,
}
use otvoren_vot.Merkle.Hash.{Hash, Result, ok, err, panic}
use otvoren_vot.Collection.Votermap.{
  Channel, online, in_person, HistoryEntry, OverrideChain, active_ballot_id,
}
use otvoren_vot.Collection.Audit.{verify_hash_chain, chains_merkle_root}

pub record SubmissionDto : Type 0 where
  pub ballot_id : Bytes
  pub seq : ℕ
  pub channel : Bytes
  pub submitted_at : Bytes

pub record ChainDto : Type 0 where
  pub chain_id : Bytes
  pub submissions : List SubmissionDto
  pub active_ballot_id : Bytes

pub record ReportHeader : Type 0 where
  pub election_id : Bytes
  pub generated_at : Bytes
  pub total_voters : ℕ
  pub total_overrides : ℕ
  pub override_chains_merkle_root : Bytes
  pub chains_file_sha256 : Bytes
  pub bulletin_board_merkle_root : Bytes
  pub report_nonce : Bytes
  pub signing_public_key : Bytes
  pub signature : Bytes

-- json.Marshal followed by jcs.Transform, none where either fails, and the other libraries.
pub record Encoders : Type 0 where
  pub encode_chain : ChainDto → Option Bytes
  pub encode_chains : List ChainDto → Option Bytes
  pub encode_header : ReportHeader → Option Bytes
  pub format_time : ℕ → Bytes
  pub sign : Bytes → Option Bytes
  pub public_key : Bytes

pub record Generator : Type 0 where
  pub election_id : Bytes
  pub history_key : Bytes

-- What is written: nothing, the chains but no header, or both. A write that fails counts as none.
pub data Report : Type 0 where
  nothing : Report
  chains_only : Bytes → Report
  written : Bytes → Bytes → Report

-- string(s.Channel)
unfoldable pub channel_text : Channel → Bytes
channel_text online = ascii "online"
channel_text in_person = ascii "in_person"

-- `<` on Go's strings.
unfoldable pub bytes_lt : Bytes → Bytes → Bool
bytes_lt xs [] = false
bytes_lt [] (y ∷ ys) = true
bytes_lt (x ∷ xs) (y ∷ ys) = let rest = bytes_lt xs ys in if x == y then rest else ltb x y

-- sort.Slice by the chain's identifier.
unfoldable pub insert_chain : ChainDto → List ChainDto → List ChainDto
unfolding bytes_lt
insert_chain c [] = c ∷ []
insert_chain c (first ∷ chains) =
    let rest = insert_chain c chains in
    if bytes_lt first.chain_id c.chain_id then first ∷ rest else c ∷ (first ∷ chains)

unfoldable pub sort_chains : List ChainDto → List ChainDto
unfolding insert_chain
sort_chains [] = []
sort_chains (c ∷ chains) = insert_chain c (sort_chains chains)

-- hex.EncodeToString of a root that may be nil.
unfoldable pub root_text : Option Hash → Bytes
root_text none = []
root_text (some root) = hex_encode root

module _ (lib : Encoders) where
  unfoldable pub submission_dto : HistoryEntry → SubmissionDto
  unfolding channel_text
  submission_dto e = record {
    ballot_id = e.ballot_id;
    seq = e.seq;
    channel = channel_text e.channel;
    submitted_at = lib.format_time e.submitted_at;
  }

  unfoldable pub chain_dto : (Bytes → Bytes → Bytes) → Bytes → OverrideChain → ChainDto
  unfolding submission_dto
  chain_dto hmac nonce chain = record {
    chain_id = hex_encode (hmac nonce chain.egn_hash);
    submissions = map submission_dto chain.submissions;
    active_ballot_id = active_ballot_id chain;
  }

  -- The callback of `GetAllOverrideChains` over the chains: none where one of them is corrupt.
  unfoldable pub collect_chains :
      (Bytes → Bytes → Bytes) → Bytes → Bytes → List OverrideChain → Option (List ChainDto)
  unfolding chain_dto
  collect_chains hmac key nonce [] = some []
  collect_chains hmac key nonce (chain ∷ chains) =
      let rest = collect_chains hmac key nonce chains in
      elim (verify_hash_chain hmac key chain) [
        | false ↦ none
        | true ↦ elim rest [ none ↦ none | some dtos ↦ some (chain_dto hmac nonce chain ∷ dtos) ]
      ]

  -- The loop that serializes each chain.
  unfoldable pub encode_each : List ChainDto → Option (List Bytes)
  encode_each [] = some []
  encode_each (c ∷ chains) =
      let rest = encode_each chains in
      elim (lib.encode_chain c) [
        | none ↦ none
        | some leaf ↦ elim rest [ none ↦ none | some leaves ↦ some (leaf ∷ leaves) ]
      ]

  -- The signature over the header without one, and the header with it.
  unfoldable pub signed_header : ReportHeader → Option Bytes → Option Bytes
  signed_header header none = none
  signed_header header (some canonical) = elim (lib.sign canonical) [
    | none ↦ none
    | some signature ↦ lib.encode_header (record header { signature = hex_encode signature })
  ]

  unfoldable pub finish : Bytes → Bool → Option Bytes → Report
  finish chains header_written none = chains_only chains
  finish chains false (some header) = chains_only chains
  finish chains true (some header) = written header chains

  module _ (hmac : Bytes → Bytes → Bytes) (sha256 : Bytes → Bytes) (g : Generator) (now : ℕ)
      (board_root nonce : Bytes) where
    unfoldable pub unsigned_header : ℕ → Bytes → List ChainDto → Option Hash → ReportHeader
    unfolding root_text
    unsigned_header total_voters chains dtos root = record {
      election_id = g.election_id;
      generated_at = lib.format_time now;
      total_voters = total_voters;
      total_overrides = length dtos;
      override_chains_merkle_root = root_text root;
      chains_file_sha256 = hex_encode (sha256 chains);
      bulletin_board_merkle_root = board_root;
      report_nonce = hex_encode nonce;
      signing_public_key = hex_encode lib.public_key;
      signature = [];
    }

    -- From the write of the chains on.
    unfoldable pub write_chains :
        ℕ → List ChainDto → Option Hash → Bool → Bool → Option Bytes → Report
    unfolding unsigned_header signed_header finish
    write_chains total dtos root chains_written header_written none = nothing
    write_chains total dtos root false header_written (some chains) = nothing
    write_chains total dtos root true header_written (some chains) =
        let header = unsigned_header total chains dtos root in
        finish chains header_written (signed_header header (lib.encode_header header))

    -- From the number of voters on.
    unfoldable pub with_total : List ChainDto → Option Hash → Bool → Bool → Option ℕ → Report
    unfolding write_chains
    with_total dtos root chains_written header_written none = nothing
    with_total dtos root chains_written header_written (some total) =
        write_chains total dtos root chains_written header_written (lib.encode_chains dtos)

    -- From the Merkle root on. A tree never panics on an append; its errors have no counterpart.
    unfoldable pub with_root :
        List ChainDto → Bool → Bool → Option ℕ → Result (Option Hash) → Report
    unfolding with_total
    with_root dtos chains_written header_written size (ok root) =
        with_total dtos root chains_written header_written size
    with_root dtos chains_written header_written size (err e) = nothing
    with_root dtos chains_written header_written size panic = nothing

    -- From the leaves on.
    unfoldable pub with_leaves :
        List ChainDto → Bool → Bool → Option ℕ → Option (List Bytes) → Report
    unfolding with_root
    with_leaves dtos chains_written header_written size none = nothing
    with_leaves dtos chains_written header_written size (some leaves) =
        with_root dtos chains_written header_written size (chains_merkle_root sha256 leaves)

    -- From the sorted chains on.
    unfoldable pub with_chains : Bool → Bool → Option ℕ → Option (List ChainDto) → Report
    unfolding with_leaves sort_chains encode_each
    with_chains chains_written header_written size none = nothing
    with_chains chains_written header_written size (some dtos) =
        with_leaves (sort_chains dtos) chains_written header_written size
          (encode_each (sort_chains dtos))

    -- `Generate` once it has a nonce: the store's chains and the answer to `Size`, and whether each of
    -- the two writes succeeds.
    unfoldable pub generate : List OverrideChain → Option ℕ → Bool → Bool → Report
    unfolding with_chains collect_chains
    generate chains size chains_written header_written =
        with_chains chains_written header_written size
          (collect_chains hmac g.history_key nonce chains)
