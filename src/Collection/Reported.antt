-- ===== src/Collection/Reported.antt =====
-- collection/audit/audit.go over votermap.go: a report of any store that votes lead to is made.
use otvoren_vot.Prelude.{
  ℕ, true, Option, none, some, List, [], ◌∷◌, map, Bytes, hex_encode, ◌≡◌, refl, ◌∙◌,
}
use otvoren_vot.Merkle.Hash.{Hash, ok}
use otvoren_vot.Collection.Votermap.{MemoryStore, get_all_override_chains, store_size}
use otvoren_vot.Collection.Audit.{chains_merkle_root}
use otvoren_vot.Collection.Chains.{Reaches, Reaches-verify_chains}
use otvoren_vot.Collection.Report.{
  ChainDto, Encoders, Generator, written, sort_chains, chain_dto, collect_chains, encode_each,
  signed_header, finish, unsigned_header, write_chains, with_total, with_root, with_leaves,
  with_chains, generate,
}
use otvoren_vot.Collection.Leaves.{chains_merkle_root_lem}
use otvoren_vot.Collection.Published.{collect_chains_lem}

-- A function that gives a result at every argument.
abbrev pub IsTotal {ℓ} : {A : Type ℓ} → (A → Option Bytes) → Type ℓ
IsTotal {A} f = (a : A) → (b : Bytes) × (f a ≡ some b)

encode_each_total :
    (lib : Encoders) (chains : List ChainDto)
    → IsTotal lib.encode_chain
    → (leaves : List Bytes) × (encode_each lib chains ≡ some leaves)
unfolding encode_each
encode_each_total lib [] all = ([], refl)
encode_each_total lib (c ∷ chains) all =
    let (leaf, first) = all c in
    let (leaves, rest) = encode_each_total lib chains all in
    (leaf ∷ leaves, rw (encode_each, first, rest))

root_total :
    (sha256 : Bytes → Bytes) (leaves : List Bytes)
    → (root : Option Hash) × (chains_merkle_root sha256 leaves ≡ ok root)
unfolding chains_merkle_root
root_total sha256 [] = (none, refl)
root_total sha256 (leaf ∷ leaves) =
    let (head, rooted, proofs) = chains_merkle_root_lem sha256 leaf leaves in (some head, rooted)

module _ (lib : Encoders) (hmac : Bytes → Bytes → Bytes) (sha256 : Bytes → Bytes) (g : Generator)
    (now : ℕ) (board_root nonce : Bytes) where
  -- In every store that votes lead to, `Generate` writes both files, where every chain and header can be
  -- serialized, the signer signs and both writes succeed.
  pub Reaches-generate :
      (ms : MemoryStore)
      → IsTotal lib.encode_chain
      → IsTotal lib.encode_chains
      → IsTotal lib.encode_header
      → IsTotal lib.sign
      → Reaches hmac g.history_key ms
      → (header chains : Bytes) × (generate lib hmac sha256 g now board_root nonce
            (get_all_override_chains ms)
            (some (store_size ms))
            true
            true
          ≡ written header chains)
  unfolding generate with_chains with_leaves with_root with_total write_chains signed_header finish
  Reaches-generate ms each file heads signs reached =
      let (verified, active) = Reaches-verify_chains hmac g.history_key ms [] reached in
      let dtos = map (chain_dto lib hmac nonce) (get_all_override_chains ms) in
      let collected : collect_chains lib hmac g.history_key nonce (get_all_override_chains ms)
          ≡ some dtos =
        collect_chains_lem lib hmac g.history_key nonce (get_all_override_chains ms)
        ∙ rw verified refl in
      let (leaves, encoded) = encode_each_total lib (sort_chains dtos) each in
      let (root, rooted) = root_total sha256 leaves in
      let (bytes, filed) = file (sort_chains dtos) in
      let header =
        unsigned_header lib hmac sha256 g now board_root nonce (store_size ms) bytes
          (sort_chains dtos) root in
      let (canonical, before) = heads header in
      let (signature, signed) = signs canonical in
      let (final, after) = heads (record header { signature = hex_encode signature }) in
      (
        final,
        bytes,
        rw (generate, collected)
            (rw encoded
              (rw rooted (rw filed (rw before (rw (signed_header, signed) (rw after refl)))))),
      )
