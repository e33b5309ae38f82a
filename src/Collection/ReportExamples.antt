-- ===== src/Collection/ReportExamples.antt =====
-- The theorems on audit.go at the store of two votes of one voter, with encoders that keep one field.
use otvoren_vot.Prelude.{
  trailing_zeros64, true, some, bytes_eq, lookup, insert, hex_encode, [], ◌∷◌, Bytes, ◌≡◌, refl,
}
use otvoren_vot.Collection.Votermap.{
  online, in_person, new_memory_store, get_all_override_chains, store_size, record_vote, row_data,
  decimal,
}
use otvoren_vot.Collection.Chains.{started, voted}
use otvoren_vot.Collection.Report.{
  Encoders, Generator, written, generate, with_chains, with_leaves, with_root, with_total,
  write_chains, collect_chains, sort_chains, encode_each, chain_dto,
}
use otvoren_vot.Collection.Audit.{verify_hash_chain, chains_merkle_root}
use otvoren_vot.Merkle.Hash.{leaf_hash}
use otvoren_vot.Merkle.Tree.{new, append, append_loop, root, hash_range}
use otvoren_vot.Collection.Published.{Published, generate_written}
use otvoren_vot.Collection.Reported.{Reaches-generate}
use otvoren_vot.Collection.Examples.{checksum, voter, voted_once, voted_twice}

abbrev encoders : Encoders
encoders = record {
  encode_chain = λ c. some c.chain_id;
  encode_chains = λ chains. some (7 ∷ []);
  encode_header = λ h. some h.signature;
  format_time = λ t. t ∷ [];
  sign = λ bytes. some (9 ∷ bytes);
  public_key = 5 ∷ [];
}

abbrev generator : Generator
generator = record { election_id = 1 ∷ []; history_key = [] }

abbrev hash_same : Bytes → Bytes
hash_same bytes = bytes

Reaches-generate_example :
    (header chains : Bytes) × (generate encoders checksum hash_same generator 30 []
        (3 ∷ [])
        (get_all_override_chains voted_twice)
        (some (store_size voted_twice))
        true
        true
      ≡ written header chains)
Reaches-generate_example =
    Reaches-generate encoders checksum hash_same generator 30 [] (3 ∷ []) voted_twice
      (λ c. (c.chain_id, refl)) (λ chains. (7 ∷ [], refl)) (λ h. (h.signature, refl))
      (λ bytes. (9 ∷ bytes, refl))
      (voted voted_once voter (2 ∷ []) in_person 20
        (voted (new_memory_store []) voter (1 ∷ []) online 10 started))

voted_twice_report :
    generate encoders checksum hash_same generator 30 []
      (3 ∷ [])
      (get_all_override_chains voted_twice)
      (some 1)
      true
      true
    ≡ written (48 ∷ 57 ∷ []) (7 ∷ [])
unfolding generate with_chains with_leaves with_root with_total write_chains collect_chains
    record_vote new_memory_store get_all_override_chains verify_hash_chain bytes_eq sort_chains
    encode_each chains_merkle_root append append_loop root hash_range leaf_hash new row_data decimal
    lookup insert hex_encode chain_dto trailing_zeros64
voted_twice_report = refl

generate_written_example :
    Published encoders checksum hash_same generator 30 []
      (3 ∷ [])
      (get_all_override_chains voted_twice)
      (48 ∷ 57 ∷ [])
      (7 ∷ [])
generate_written_example =
    generate_written encoders checksum hash_same generator 30 [] (3 ∷ [])
      (get_all_override_chains voted_twice) (48 ∷ 57 ∷ []) (7 ∷ []) (some 1) true true
      voted_twice_report
