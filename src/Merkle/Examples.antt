-- ===== src/Merkle/Examples.antt =====
-- The theorems on crypto/merkle at a tree of three leaves, with the identity in place of SHA-256.
use otvoren_vot.Prelude.{
  ℕ, zero, suc, length, ap, List, [], ◌∷◌, some, Bytes, bytes_eq, take, get_elem?, ◌≡◌, refl, ◌⊎◌,
  arith,
}
use otvoren_vot.Merkle.Hash.{Hash, ok, node_hash}
use otvoren_vot.Merkle.Tree.{Tree, inclusion_proof, root_at}
use otvoren_vot.Merkle.Verify.{verify_inclusion, inclusion_loop, climb, climb_from}
use otvoren_vot.Merkle.Spec.{mth, tree_hash}
use otvoren_vot.Merkle.Levels.{Holds, pairs}
use otvoren_vot.Merkle.Range.{root_at_lem}
use otvoren_vot.Merkle.Walk.{verify_inclusion-inclusion_proof}
use otvoren_vot.Merkle.Collision.{IsDigest, NodeCollision}
use otvoren_vot.Merkle.Accepted.{verify_inclusion_sound}

abbrev same : Bytes → Bytes
same bytes = bytes

abbrev pad : ℕ → Bytes → Bytes
pad zero bytes = []
pad (suc n) [] = 0 ∷ pad n []
pad (suc n) (b ∷ bytes) = b ∷ pad n bytes

abbrev three : List Hash
three = (1 ∷ []) ∷ (2 ∷ []) ∷ (3 ∷ []) ∷ []

abbrev tree_of_three : Tree
tree_of_three = record { levels = three ∷ ((1 ∷ 1 ∷ 2 ∷ []) ∷ []) ∷ [] }

three-Holds : Holds same tree_of_three three
unfolding pairs node_hash
three-Holds = (refl, omega arith, (refl, omega arith, refl))

root_at_lem_example : root_at same tree_of_three 2 ≡ ok (mth same (take 2 three))
root_at_lem_example = root_at_lem same tree_of_three three 2 three-Holds (omega arith)

verify_inclusion-inclusion_proof_example :
    (proof : List Hash) × (head : Hash) × (inclusion_proof same tree_of_three 1 3 ≡ ok proof)
    × (root_at same tree_of_three 3 ≡ ok head)
    × (verify_inclusion same (2 ∷ []) 1 3 proof head ≡ ok tt)
verify_inclusion-inclusion_proof_example =
    verify_inclusion-inclusion_proof same tree_of_three three 1 3 (2 ∷ []) three-Holds refl
      (omega arith) (omega arith)

-- A hash of 32 bytes: the first 32 bytes of the text, filled up with zeros.
abbrev first_32 : Bytes → Bytes
first_32 bytes = pad 32 bytes

abbrev leaf_32 : ℕ → Hash
leaf_32 n = pad 32 (n ∷ [])

abbrev three_32 : List Hash
three_32 = leaf_32 1 ∷ leaf_32 2 ∷ leaf_32 3 ∷ []

length-pad : (n : ℕ) (bytes : Bytes) → length (pad n bytes) ≡ n
length-pad zero bytes = refl
length-pad (suc n) [] = ap suc (length-pad n [])
length-pad (suc n) (b ∷ bytes) = ap suc (length-pad n bytes)

first_32-sized : (b : Bytes) → IsDigest (first_32 b)
first_32-sized b = length-pad 32 b

accepts_second :
    verify_inclusion first_32 (leaf_32 2) 1 3 (leaf_32 1 ∷ leaf_32 3 ∷ []) (mth first_32 three_32)
    ≡ ok tt
unfolding bytes_eq verify_inclusion inclusion_loop climb climb_from mth tree_hash node_hash
accepts_second = refl

verify_inclusion_sound_example :
    (get_elem? three_32 1 ≡ some (leaf_32 2)) ⊎ NodeCollision first_32 3 three_32
verify_inclusion_sound_example =
    verify_inclusion_sound first_32 first_32-sized three_32 1 (leaf_32 2)
      (leaf_32 1 ∷ leaf_32 3 ∷ []) (refl, (refl, (refl, tt))) refl (refl, (refl, tt)) accepts_second
