-- ===== src/Collection/Audit.antt =====
-- collection/audit/audit.go, `verifyHashChain`, and collection/audit/merkle.go.
use otvoren_vot.Prelude.{Bool, true, false, Option, none, some, List, [], ◌∷◌, Bytes, bytes_eq}
use otvoren_vot.Merkle.Hash.{Hash, Result, ok, ◌>>=◌}
use otvoren_vot.Merkle.Tree.{Tree, new, append, root}
use otvoren_vot.Collection.Votermap.{HistoryEntry, OverrideChain, compute_row_hash}

-- The loop of `verifyHashChain` over the entries left: true where it returns no error.
unfoldable pub verify_entries :
    (Bytes → Bytes → Bytes) → Bytes → Bytes → Bytes → List HistoryEntry → Bool
verify_entries hmac key egn_hash prev_hash [] = true
verify_entries hmac key egn_hash prev_hash (e ∷ entries) =
    elim (bytes_eq e.row_hash (compute_row_hash hmac key prev_hash egn_hash e.ballot_id e.seq)) [
      | false ↦ false
      | true ↦ verify_entries hmac key egn_hash e.row_hash entries
    ]

unfoldable pub verify_hash_chain : (Bytes → Bytes → Bytes) → Bytes → OverrideChain → Bool
unfolding verify_entries
verify_hash_chain hmac key chain = verify_entries hmac key chain.egn_hash [] chain.submissions

-- The check of every chain in `Generate`: the report is refused at the first that does not verify.
unfoldable pub verify_chains : (Bytes → Bytes → Bytes) → Bytes → List OverrideChain → Bool
unfolding verify_hash_chain
verify_chains hmac key [] = true
verify_chains hmac key (chain ∷ chains) = elim (verify_hash_chain hmac key chain) [
  | false ↦ false
  | true ↦ verify_chains hmac key chains
]

module _ (sha256 : Bytes → Bytes) where
  unfoldable pub append_leaves : Tree → List Bytes → Result Tree
  append_leaves tree [] = ok tree
  append_leaves tree (leaf ∷ leaves) = append sha256 tree leaf >>= λ t. append_leaves t leaves

  -- `chainsMerkleRoot`: none where there are no chains.
  unfoldable pub chains_merkle_root : List Bytes → Result (Option Hash)
  unfolding append_leaves
  chains_merkle_root [] = ok none
  chains_merkle_root (leaf ∷ leaves) =
      append_leaves new (leaf ∷ leaves) >>= λ t. root sha256 t >>= λ h. ok (some h)
