-- ===== src/Collection/Sorted.antt =====
-- collection/audit/audit.go: the sort of the chains by their blinded identifiers.
use otvoren_vot.Prelude.{
  true, false, List, [], ◌∷◌, Bytes, if◌then◌else◌, Bool-cases, inl, inr, ◌≡◌, refl, subst, arith,
}
use mathlib.Core.List.{Perm}
use mathlib.Core.List.Perm
use otvoren_vot.Collection.Report.{ChainDto, bytes_lt, insert_chain, sort_chains}

-- No chain has an identifier that comes before that of the chain ahead of it.
abbrev pub InOrder : List ChainDto → Type 0
InOrder [] = Unit {0}
InOrder (c ∷ []) = Unit {0}
InOrder (c ∷ next ∷ chains) = (bytes_lt next.chain_id c.chain_id ≡ false) × InOrder (next ∷ chains)

bytes_lt_asymm : (xs ys : Bytes) → bytes_lt xs ys ≡ true → bytes_lt ys xs ≡ false
unfolding bytes_lt
bytes_lt_asymm [] [] h = refl
bytes_lt_asymm [] (y ∷ ys) h = refl
bytes_lt_asymm (x ∷ xs) [] h = cc
bytes_lt_asymm (x ∷ xs) (y ∷ ys) h = ground (arith, bytes_lt_asymm xs ys)

insert_chain-InOrder_first :
    (c first : ChainDto) (chains : List ChainDto)
    → InOrder (first ∷ chains)
    → bytes_lt first.chain_id c.chain_id ≡ true
    → InOrder (insert_chain c chains)
    → InOrder (first ∷ insert_chain c chains)
unfolding insert_chain
insert_chain-InOrder_first c first [] h before sorted =
    (bytes_lt_asymm first.chain_id c.chain_id before, tt)
insert_chain-InOrder_first c first (next ∷ chains) (ahead, h) before sorted =
    elim (Bool-cases (bytes_lt next.chain_id c.chain_id)) [
      | inl e ↦ rw (e) (
        ahead,
        subst (λ b. InOrder (if b then next ∷ insert_chain c chains else c ∷ next ∷ chains)) e
            sorted,
      )
      | inr e ↦ rw (e) (bytes_lt_asymm first.chain_id c.chain_id before, (e, h))
    ]

tail-InOrder : (c : ChainDto) (chains : List ChainDto) → InOrder (c ∷ chains) → InOrder chains
tail-InOrder c [] h = tt
tail-InOrder c (next ∷ chains) (ahead, h) = h

insert_chain-InOrder :
    (c : ChainDto) (chains : List ChainDto) → InOrder chains → InOrder (insert_chain c chains)
unfolding insert_chain
insert_chain-InOrder c [] h = tt
insert_chain-InOrder c (first ∷ chains) h = elim (Bool-cases (bytes_lt first.chain_id c.chain_id)) [
  | inl e ↦ rw (e) (
      insert_chain-InOrder_first c first chains h e
        (insert_chain-InOrder c chains (tail-InOrder first chains h)))
  | inr e ↦ rw (e) (e, h)
]

pub sort_chains-InOrder : (chains : List ChainDto) → InOrder (sort_chains chains)
unfolding sort_chains
sort_chains-InOrder [] = tt
sort_chains-InOrder (c ∷ chains) =
    insert_chain-InOrder c (sort_chains chains) (sort_chains-InOrder chains)

insert_chain-perm :
    (c : ChainDto) (chains : List ChainDto) → Perm (insert_chain c chains) (c ∷ chains)
unfolding insert_chain
insert_chain-perm c [] = Perm.refl (c ∷ [])
insert_chain-perm c (first ∷ chains) = elim (Bool-cases (bytes_lt first.chain_id c.chain_id)) [
  | inr e ↦ rw (e) (Perm.refl (c ∷ first ∷ chains))
  | inl e ↦
      rw (e) (Perm.trans (Perm.cons first (insert_chain-perm c chains)) (Perm.swap c first chains))
]

pub sort_chains-perm : (chains : List ChainDto) → Perm (sort_chains chains) chains
unfolding sort_chains
sort_chains-perm [] = Perm.refl []
sort_chains-perm (c ∷ chains) =
    Perm.trans (insert_chain-perm c (sort_chains chains)) (Perm.cons c (sort_chains-perm chains))
