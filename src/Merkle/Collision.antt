-- ===== src/Merkle/Collision.antt =====
-- The interior nodes of the RFC 9162 tree over some leaf hashes, and a collision with one of them:
-- another pair of digests that SHA-256 hashes to the same node.
use otvoren_vot.Prelude.{
  ℕ, zero, suc, ◌^◌, ◌≤◌, ◌<◌, ◌≡◌, ◌≢◌, ap, List, [], ◌∷◌, length, take, drop, Bytes, leb, ◌⊎◌,
  inl, inr, bytes_eq, bytes_eq_sound, bytes_eq_refl, Bool-cases,
}
use otvoren_vot.Merkle.Hash.{Hash, node_hash, empty_root}
use otvoren_vot.Merkle.Spec.{tree_hash}

-- HashSize bytes.
abbrev pub IsDigest : Hash → Type 0
IsDigest h = length h ≡ 32

abbrev pub AllDigests : List Hash → Type 0
AllDigests [] = Unit {0}
AllDigests (h ∷ hs) = IsDigest h × AllDigests hs

pub take-AllDigests : (n : ℕ) (xs : List Hash) → AllDigests xs → AllDigests (take n xs)
take-AllDigests zero xs d = tt
take-AllDigests (suc n) [] d = tt
take-AllDigests (suc n) (x ∷ xs) (d, ds) = (d, take-AllDigests n xs ds)

pub drop-AllDigests : (n : ℕ) (xs : List Hash) → AllDigests xs → AllDigests (drop n xs)
drop-AllDigests zero xs d = d
drop-AllDigests (suc n) [] d = tt
drop-AllDigests (suc n) (x ∷ xs) (d, ds) = drop-AllDigests n xs ds

Hash-cases : (a b : Hash) → (a ≡ b) ⊎ (a ≢ b)
Hash-cases a b = elim (Bool-cases (bytes_eq a b)) [
  | inl e ↦ inl (bytes_eq_sound a b e)
  | inr n ↦ inr (λ e. cc (n, bytes_eq_refl b, ap (λ x. bytes_eq x b) e))
]

module _ (sha256 : Bytes → Bytes) where
  -- `left` and `right` are the children of an interior node of the tree of height j over `xs`.
  pub data Node : ℕ → List Hash → Hash → Hash → Type 0 where
    top :
        (j : ℕ) (xs : List Hash) (left right : Hash)
        → 2 ^ j < length xs
        → left ≡ tree_hash sha256 j (take (2 ^ j) xs)
        → right ≡ tree_hash sha256 j (drop (2 ^ j) xs)
        → Node (suc j) xs left right
    in_left :
        (j : ℕ) (xs : List Hash) (left right : Hash)
        → 2 ^ j < length xs
        → Node j (take (2 ^ j) xs) left right
        → Node (suc j) xs left right
    in_right :
        (j : ℕ) (xs : List Hash) (left right : Hash)
        → 2 ^ j < length xs
        → Node j (drop (2 ^ j) xs) left right
        → Node (suc j) xs left right
    lower :
        (j : ℕ) (xs : List Hash) (left right : Hash)
        → length xs ≤ 2 ^ j
        → Node j xs left right
        → Node (suc j) xs left right

  -- A collision of SHA-256 with a node of the tree over `xs`: two different pairs of digests, one of
  -- them the children of that node, that hash to the same value.
  pub record NodeCollision (j : ℕ) (xs : List Hash) : Type 0 where
    pub left : Hash
    pub right : Hash
    pub node : Node j xs left right
    pub left' : Hash
    pub right' : Hash
    pub digests : IsDigest left × IsDigest right × IsDigest left' × IsDigest right'
    pub differ : (left' ≢ left) ⊎ (right' ≢ right)
    pub same : node_hash sha256 left' right' ≡ node_hash sha256 left right

  pub node_hash-cases :
      (j : ℕ) (xs : List Hash) (l' r' l r : Hash)
      → Node j xs l r
      → IsDigest l × IsDigest r × IsDigest l' × IsDigest r'
      → node_hash sha256 l' r' ≡ node_hash sha256 l r
      → ((l' ≡ l) × (r' ≡ r)) ⊎ NodeCollision j xs
  node_hash-cases j xs l' r' l r n d e = elim (Hash-cases l' l) [
    | inl p ↦ elim (Hash-cases r' r) [ inl q ↦ inl (p, q) | inr x ↦ inr (collision (inr x)) ]
    | inr x ↦ inr (collision (inl x))
  ]
    where
      collision : (l' ≢ l) ⊎ (r' ≢ r) → NodeCollision j xs
      collision x = record {
        left = l;
        right = r;
        node = n;
        left' = l';
        right' = r';
        digests = d;
        differ = x;
        same = e;
      }

  pub collision_in_left :
      (j : ℕ) (xs : List Hash)
      → 2 ^ j < length xs
      → NodeCollision j (take (2 ^ j) xs)
      → NodeCollision (suc j) xs
  collision_in_left j xs long c = record {
    left = c.left;
    right = c.right;
    node = in_left j xs c.left c.right long c.node;
    left' = c.left';
    right' = c.right';
    digests = c.digests;
    differ = c.differ;
    same = c.same;
  }

  pub collision_in_right :
      (j : ℕ) (xs : List Hash)
      → 2 ^ j < length xs
      → NodeCollision j (drop (2 ^ j) xs)
      → NodeCollision (suc j) xs
  collision_in_right j xs long c = record {
    left = c.left;
    right = c.right;
    node = in_right j xs c.left c.right long c.node;
    left' = c.left';
    right' = c.right';
    digests = c.digests;
    differ = c.differ;
    same = c.same;
  }

  pub collision_lower :
      (j : ℕ) (xs : List Hash) → length xs ≤ 2 ^ j → NodeCollision j xs → NodeCollision (suc j) xs
  collision_lower j xs small c = record {
    left = c.left;
    right = c.right;
    node = lower j xs c.left c.right small c.node;
    left' = c.left';
    right' = c.right';
    digests = c.digests;
    differ = c.differ;
    same = c.same;
  }

  module _ (sized : (b : Bytes) → IsDigest (sha256 b)) where
    pub node_hash-IsDigest : (l r : Hash) → IsDigest (node_hash sha256 l r)
    unfolding node_hash
    node_hash-IsDigest l r = sized _

    pub tree_hash-IsDigest :
        (j : ℕ) (xs : List Hash) → AllDigests xs → IsDigest (tree_hash sha256 j xs)
    unfolding tree_hash empty_root
    tree_hash-IsDigest zero [] d = sized []
    tree_hash-IsDigest zero (x ∷ xs) (d, ds) = d
    tree_hash-IsDigest (suc j) xs d = elim (Bool-cases (leb (length xs) (2 ^ j))) [
      | inl e ↦ rw (e, tree_hash) (tree_hash-IsDigest j xs d)
      | inr e ↦ rw (e, tree_hash) (node_hash-IsDigest _ _)
    ]
