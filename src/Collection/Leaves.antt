-- ===== src/Collection/Leaves.antt =====
-- collection/audit/merkle.go: the root of a report and the proofs of its leaves.
use otvoren_vot.Prelude.{
  get_elem?-map, ℕ, ◌<◌, some, List, [], ◌∷◌, ◌++◌, map, append-nil, append_assoc, Bytes, length,
  length-map, get_elem?, take_all, ◌≡◌, refl, sym, ap, subst, ◌∙◌, arith,
}
use otvoren_vot.Merkle.Hash.{Hash, ok, ◌>>=◌, leaf_hash}
use otvoren_vot.Merkle.Tree.{Tree, new, root, root_at}
use otvoren_vot.Merkle.Verify.{verify_inclusion}
use otvoren_vot.Merkle.Spec.{mth}
use otvoren_vot.Merkle.Levels.{Holds, new-Holds, append-Holds}
use otvoren_vot.Merkle.Range.{root_lem, root_at_lem}
use otvoren_vot.Merkle.Walk.{verify_inclusion-inclusion_proof}
use otvoren_vot.Collection.Audit.{append_leaves, chains_merkle_root}

module _ (sha256 : Bytes → Bytes) where
  append_leaves_lem :
      (t : Tree) (hashes : List Hash) (leaves : List Bytes)
      → Holds sha256 t hashes
      → (t' : Tree) × (append_leaves sha256 t leaves ≡ ok t')
        × Holds sha256 t' (hashes ++ map (leaf_hash sha256) leaves)
  unfolding append_leaves
  append_leaves_lem t hashes [] holds =
      (t, refl, subst (Holds sha256 t) (sym (append-nil hashes)) holds)
  append_leaves_lem t hashes (leaf ∷ leaves) holds =
      let (t1, appended, holds1) = append-Holds sha256 t hashes leaf holds in
      let (t2, rest, holds2) =
        append_leaves_lem t1 (hashes ++ leaf_hash sha256 leaf ∷ []) leaves holds1 in
      (
        t2,
        ap (λ x. x >>= λ u. append_leaves sha256 u leaves) appended ∙ rest,
        subst (Holds sha256 t2)
            (append_assoc hashes (leaf_hash sha256 leaf ∷ []) (map (leaf_hash sha256) leaves))
            holds2,
      )

  -- Each of the leaves has a proof of inclusion against a head.
  abbrev pub HasProofs : List Bytes → Hash → Type 0
  HasProofs leaves head =
      (i : ℕ) (leaf : Bytes)
      → get_elem? leaves i ≡ some leaf
      → i < length leaves
      → (proof : List Hash) × (verify_inclusion sha256 (leaf_hash sha256 leaf) i (length leaves)
            proof head
          ≡ ok tt)

  included :
      (t : Tree) (hashes : List Hash) (i n : ℕ) (leaf : Bytes)
      → Holds sha256 t hashes
      → get_elem? hashes i ≡ some (leaf_hash sha256 leaf)
      → i < n
      → length hashes ≡ n
      → (proof : List Hash) × (verify_inclusion sha256
            (leaf_hash sha256 leaf)
            i
            n
            proof
            (mth sha256 hashes)
          ≡ ok tt)
  included t hashes i n leaf holds at below same =
      let (proof, head, given, heads, accepted) =
        verify_inclusion-inclusion_proof sha256 t hashes i n (leaf_hash sha256 leaf) holds at below
          (omega arith) in
      let all : root_at sha256 t n ≡ ok (mth sha256 hashes) =
        root_at_lem sha256 t hashes n holds (omega arith)
        ∙ ap (λ x. ok (mth sha256 x)) (take_all n hashes (omega arith)) in
      let h : head ≡ mth sha256 hashes = same_head (sym heads ∙ all) in
      (
        proof,
        subst (λ x. verify_inclusion sha256 (leaf_hash sha256 leaf) i n proof x ≡ ok tt) h accepted,
      )
    where
      same_head : {a b : Hash} → ok a ≡ ok b → a ≡ b
      same_head e = cc

  -- The root of a report is the tree head of its leaves.
  pub chains_merkle_root_lem :
      (first : Bytes) (leaves : List Bytes)
      → (head : Hash) × (chains_merkle_root sha256 (first ∷ leaves) ≡ ok (some head))
        × HasProofs (first ∷ leaves) head
  unfolding chains_merkle_root
  chains_merkle_root_lem first leaves =
      let hashes = map (leaf_hash sha256) (first ∷ leaves) in
      let (t, appended, holds) = append_leaves_lem new [] (first ∷ leaves) (new-Holds sha256) in
      (
        mth sha256 hashes,
        ap (λ x. x >>= λ u. root sha256 u >>= λ h. ok (some h)) appended
            ∙ ap (λ x. x >>= λ h. ok (some h)) (root_lem sha256 t hashes holds),
        λ i leaf at below.
            included t hashes i (length (first ∷ leaves)) leaf holds
              (get_elem?-map (leaf_hash sha256) (first ∷ leaves) i leaf at) below
              (length-map (leaf_hash sha256) (first ∷ leaves)),
      )
