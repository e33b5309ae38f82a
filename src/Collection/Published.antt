-- ===== src/Collection/Published.antt =====
-- collection/audit/audit.go: what a reader of a published report can check.
use otvoren_vot.Prelude.{
  ℕ, suc, Bool, true, false, Option, none, some, List, [], ◌∷◌, map, Bytes, length, length-map,
  if◌then◌else◌, hex_encode, Bool-cases, Option-cases, inl, inr, ◌⊎◌, ◌≡◌, refl, sym, ap, subst,
  ◌∙◌, arith,
}
use otvoren_vot.Merkle.Hash.{Hash, Result, ok, err, panic}
use otvoren_vot.Merkle.Tree.{root}
use otvoren_vot.Collection.Votermap.{OverrideChain}
use otvoren_vot.Collection.Audit.{verify_chains, chains_merkle_root}
use otvoren_vot.Collection.Report.{
  ChainDto, ReportHeader, Encoders, Generator, nothing, written, insert_chain, sort_chains,
  chain_dto, collect_chains, encode_each, signed_header, finish, root_text, unsigned_header,
  write_chains, with_total, with_root, with_leaves, with_chains, generate,
}
use mathlib.Core.List.{Perm}
use otvoren_vot.Collection.Sorted.{InOrder, sort_chains-perm, sort_chains-InOrder}
use otvoren_vot.Collection.Leaves.{HasProofs, chains_merkle_root_lem}

length-insert_chain :
    (c : ChainDto) (chains : List ChainDto) → length (insert_chain c chains) ≡ suc (length chains)
unfolding insert_chain
length-insert_chain c [] = refl
length-insert_chain c (first ∷ chains) = ground (arith, length-insert_chain c chains)

pub length-sort_chains : (chains : List ChainDto) → length (sort_chains chains) ≡ length chains
unfolding sort_chains
length-sort_chains [] = refl
length-sort_chains (c ∷ chains) =
    length-insert_chain c (sort_chains chains) ∙ ap suc (length-sort_chains chains)

module _ (lib : Encoders) where
  -- The chains are collected exactly where the audit accepts all of them.
  pub collect_chains_lem :
      (hmac : Bytes → Bytes → Bytes) (key nonce : Bytes) (chains : List OverrideChain)
      → collect_chains lib hmac key nonce chains ≡ (
          if verify_chains hmac key chains
          then some (map (chain_dto lib hmac nonce) chains)
          else none)
  unfolding collect_chains verify_chains
  collect_chains_lem hmac key nonce [] = refl
  collect_chains_lem hmac key nonce (chain ∷ chains) =
      ground (arith, collect_chains_lem hmac key nonce chains)

  finish_written :
      (chains : Bytes) (header_written : Bool) (header : Option Bytes) (h c : Bytes)
      → finish lib chains header_written header ≡ written h c
      → (header ≡ some h) × (chains ≡ c)
  unfolding finish
  finish_written chains header_written none h c e = cc
  finish_written chains false (some header) h c e = cc
  finish_written chains true (some header) h c e = (cc, cc)

  -- The header that was written carries a signature over itself without the signature.
  abbrev pub IsSigned : ReportHeader → Bytes → Type 0
  IsSigned header bytes =
      (canonical : Bytes) × (signature : Bytes) × (lib.encode_header header ≡ some canonical)
      × (lib.sign canonical ≡ some signature)
      × (lib.encode_header (record header { signature = hex_encode signature }) ≡ some bytes)

  signed_header-some :
      (header : ReportHeader) (bytes : Bytes) (encoded : Option Bytes)
      → lib.encode_header header ≡ encoded
      → signed_header lib header encoded ≡ some bytes
      → IsSigned header bytes
  unfolding signed_header
  signed_header-some header bytes none given e = cc
  signed_header-some header bytes (some canonical) given e =
      elim (Option-cases (lib.sign canonical)) [
        | inl unsigned ↦ absurd (ground arith)
        | inr (signature, signed) ↦ (canonical, signature, given, signed, ground arith)
      ]

  module _ (hmac : Bytes → Bytes → Bytes) (sha256 : Bytes → Bytes) (g : Generator) (now : ℕ)
      (board_root nonce : Bytes) where
    -- What a reader of the two files can rely on.
    pub record Published (chains : List OverrideChain) (header_bytes chain_bytes : Bytes)
        : Type 0 where
      pub header : ReportHeader
      pub dtos : List ChainDto
      pub leaves : List Bytes
      pub complete : Perm dtos (map (chain_dto lib hmac nonce) chains)
      pub in_order : InOrder dtos
      pub verified : verify_chains hmac g.history_key chains ≡ true
      pub leaves_encoded : encode_each lib dtos ≡ some leaves
      pub file_encoded : lib.encode_chains dtos ≡ some chain_bytes
      pub counted : header.total_overrides ≡ length chains
      pub hashed : header.chains_file_sha256 ≡ hex_encode (sha256 chain_bytes)
      pub bound : header.bulletin_board_merkle_root ≡ board_root
      pub provable :
          (leaves ≡ [])
          ⊎ ((head : Hash) × (header.override_chains_merkle_root ≡ hex_encode head)
              × HasProofs sha256 leaves head)
      pub unsigned : header.signature ≡ []
      pub signed : IsSigned header header_bytes

    -- The steps of `Generate` from the last to the first.
    module _ (chains : List OverrideChain) (header_bytes chain_bytes : Bytes) where
      abbrev sorted : List ChainDto
      sorted = sort_chains (map (chain_dto lib hmac nonce) chains)

      abbrev IsFinished : ℕ → Option Hash → Type 0
      IsFinished total root =
          (lib.encode_chains sorted ≡ some chain_bytes)
          × IsSigned
              (unsigned_header lib hmac sha256 g now board_root nonce total chain_bytes sorted root)
              header_bytes

      write_chains_written :
          (total : ℕ) (root : Option Hash) (cw hw : Bool) (encoded : Option Bytes)
          → lib.encode_chains sorted ≡ encoded
          → write_chains lib hmac sha256 g now board_root nonce total sorted root cw hw encoded
            ≡ written header_bytes chain_bytes
          → IsFinished total root
      unfolding write_chains
      write_chains_written total root cw hw none given e = cc
      write_chains_written total root false hw (some bytes) given e = cc
      write_chains_written total root true hw (some bytes) given e =
          let header =
            unsigned_header lib hmac sha256 g now board_root nonce total bytes sorted root in
          let (complete, same) =
            finish_written bytes hw (signed_header lib header (lib.encode_header header))
              header_bytes chain_bytes e in
          (
            given ∙ ap some same,
            subst
                (λ x.
                  IsSigned
                    (unsigned_header lib hmac sha256 g now board_root nonce total x sorted root)
                    header_bytes)
                same
                (signed_header-some header header_bytes (lib.encode_header header) refl complete),
          )

      with_total_written :
          (root : Option Hash) (cw hw : Bool) (size : Option ℕ)
          → with_total lib hmac sha256 g now board_root nonce sorted root cw hw size
            ≡ written header_bytes chain_bytes
          → (total : ℕ) × (size ≡ some total) × IsFinished total root
      unfolding with_total
      with_total_written root cw hw none e = cc
      with_total_written root cw hw (some total) e =
          (total, refl, write_chains_written total root cw hw (lib.encode_chains sorted) refl e)

      with_root_written :
          (cw hw : Bool) (size : Option ℕ) (rooted : Result (Option Hash))
          → with_root lib hmac sha256 g now board_root nonce sorted cw hw size rooted
            ≡ written header_bytes chain_bytes
          → (root : Option Hash) × (total : ℕ) × (rooted ≡ ok root)
            × (size ≡ some total)
            × IsFinished total root
      unfolding with_root
      with_root_written cw hw size (ok root) e =
          let (total, sized, finished) = with_total_written root cw hw size e in
          (root, total, refl, sized, finished)
      with_root_written cw hw size (err error) e = cc
      with_root_written cw hw size panic e = cc

      provable_of :
          (leaves : List Bytes) (root : Option Hash)
          → chains_merkle_root sha256 leaves ≡ ok root
          → (leaves ≡ [])
            ⊎ ((head : Hash) × (root_text root ≡ hex_encode head) × HasProofs sha256 leaves head)
      unfolding root_text
      provable_of [] root e = inl refl
      provable_of (leaf ∷ leaves) root e =
          let (head, rooted, proofs) = chains_merkle_root_lem sha256 leaf leaves in
          inr (head, ap root_text (same_root (sym e ∙ rooted)), proofs)
        where
          same_root : {a b : Option Hash} → ok a ≡ ok b → a ≡ b
          same_root h = cc

      with_leaves_written :
          (cw hw : Bool) (size : Option ℕ) (encoded : Option (List Bytes))
          → verify_chains hmac g.history_key chains ≡ true
          → encode_each lib sorted ≡ encoded
          → with_leaves lib hmac sha256 g now board_root nonce sorted cw hw size encoded
            ≡ written header_bytes chain_bytes
          → Published chains header_bytes chain_bytes
      unfolding with_leaves
      with_leaves_written cw hw size none verified given e = cc
      with_leaves_written cw hw size (some leaves) verified given e =
          let (root, total, rooted, sized, (file, signed)) =
            with_root_written cw hw size (chains_merkle_root sha256 leaves) e in
          record {
            header =
                unsigned_header lib hmac sha256 g now board_root nonce total chain_bytes sorted
                  root;
            dtos = sorted;
            leaves = leaves;
            complete = sort_chains-perm (map (chain_dto lib hmac nonce) chains);
            in_order = sort_chains-InOrder (map (chain_dto lib hmac nonce) chains);
            verified = verified;
            leaves_encoded = given;
            file_encoded = file;
            counted =
                unfold unsigned_header in
                length-sort_chains (map (chain_dto lib hmac nonce) chains)
                ∙ length-map (chain_dto lib hmac nonce) chains;
            hashed = unfold unsigned_header in refl;
            bound = unfold unsigned_header in refl;
            provable = unfold unsigned_header in provable_of leaves root rooted;
            unsigned = unfold unsigned_header in refl;
            signed = signed;
          }

      -- Where `Generate` writes both files, the audit accepted every chain, the file of chains is the
      -- encoding of all of them, each once, in the order of their blinded identifiers, and the header carries their
      -- number, the hash of that file, the board's root that was given, and a Merkle root against which
      -- each chain as it is serialized has a proof of inclusion, unless there is no chain. The header's
      -- file has a signature over the encoding of the header whose signature is empty.
      pub generate_written :
          (size : Option ℕ) (cw hw : Bool)
          → generate lib hmac sha256 g now board_root nonce chains size cw hw
            ≡ written header_bytes chain_bytes
          → Published chains header_bytes chain_bytes
      unfolding generate with_chains
      generate_written size cw hw e = elim (Bool-cases (verify_chains hmac g.history_key chains)) [
        | inl verified ↦
            let collected : collect_chains lib hmac g.history_key nonce chains
                ≡ some (map (chain_dto lib hmac nonce) chains) =
              collect_chains_lem hmac g.history_key nonce chains ∙ rw verified refl in
            with_leaves_written cw hw size (encode_each lib sorted) verified refl (
              sym (ap (with_chains lib hmac sha256 g now board_root nonce cw hw size) collected)
              ∙ e)
        | inr corrupt ↦
            let not_collected : collect_chains lib hmac g.history_key nonce chains ≡ none =
              collect_chains_lem hmac g.history_key nonce chains ∙ rw corrupt refl in
            absurd (
              no_report (
                sym
                  (ap (with_chains lib hmac sha256 g now board_root nonce cw hw size) not_collected)
                ∙ e))
      ]
        where
          no_report : nothing ≡ written header_bytes chain_bytes → ⊥
          no_report h = cc
