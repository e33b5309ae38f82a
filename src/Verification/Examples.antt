-- ===== src/Verification/Examples.antt =====
-- The theorems on verification/ at the service in dev mode, over numbers in place of ristretto255
-- scalars and with the payload itself in place of the HMAC.
use otvoren_vot.Prelude.{
  ℕ, true, false, [], ◌∷◌, some, Bytes, ascii, bytes_eq, bytes_Eq, lookup, insert, success,
  hex_encode, repeat, ◌≡◌, refl, ◌≢◌, arith,
}
use otvoren_vot.Crypto.Numbers.{numbers}
use otvoren_vot.Verification.Codes.{generate_code_mapping, derive_return_code}
use otvoren_vot.Verification.Session.{
  Session, Store, new_store, create, get, remove_expired, set_codes,
}
use otvoren_vot.Verification.Handler.{
  Config, ShareRequest, VerifyRequest, handle_create_session, handle_submit_share, handle_verify,
  verify_begins, verify_ends,
}
use otvoren_vot.Verification.Spent.{IsMap}
use otvoren_vot.Verification.Requests.{stays, follows, submits, verifies}
use otvoren_vot.Verification.OneTime.{verify-once, verify-interleaved}
use otvoren_vot.Verification.Wiping.{secret, remove_expired-zeroes, dev_secret-zeroed}

abbrev payload_only : Bytes → Bytes → Bytes
payload_only key text = text

abbrev dev : Config
dev = record { parties = ascii "A" ∷ []; threshold = 2; dev_secret = some 0 }

-- The service's secret, 42, stands at address 0.
abbrev begun : Store ℕ
begun = new_store 1 (λ p. 42)

abbrev with_session : Store ℕ
with_session = (handle_create_session numbers payload_only dev begun (some (7 ∷ [])) 100).0

abbrev code_of_ballot : Bytes
code_of_ballot = derive_return_code payload_only (42 ∷ []) (7 ∷ []) (9 ∷ [])

abbrev request : VerifyRequest
request = record { session_id = 7 ∷ []; encrypted_ballot = 9 ∷ [] }

abbrev other_request : VerifyRequest
other_request = record { session_id = 7 ∷ []; encrypted_ballot = 8 ∷ [] }

gives_code :
    (handle_verify numbers payload_only with_session (some request) 200).1 ≡ success code_of_ballot
unfolding handle_verify handle_create_session create new_store get set_codes lookup insert bytes_eq
    generate_code_mapping
gives_code = refl

abbrev code_of_other : Bytes
code_of_other = derive_return_code payload_only (42 ∷ []) (7 ∷ []) (8 ∷ [])

gives_other :
    (handle_verify numbers payload_only with_session (some other_request) 300).1
    ≡ success code_of_other
unfolding handle_verify handle_create_session create new_store get set_codes lookup insert bytes_eq
    generate_code_mapping
gives_other = refl

one_session : IsMap with_session.sessions
unfolding handle_create_session create new_store set_codes lookup insert bytes_eq
one_session = (refl, tt)

abbrev verified_once : Store ℕ
verified_once = (handle_verify numbers payload_only with_session (some request) 200).0

-- The share of a trustee for the session, which has no codes to wait for.
abbrev share : ShareRequest
share = record { session_id = 7 ∷ []; trustee_index = 1; share = hex_encode (5 ∷ repeat 31 0) }

abbrev share_sent : Store ℕ
share_sent = (handle_submit_share numbers payload_only dev verified_once (some share) 210).0

abbrev refused_once : Store ℕ
refused_once = (handle_verify numbers payload_only share_sent (some other_request) 220).0

verify-once_example :
    (handle_verify numbers payload_only refused_once (some other_request) 300).1
    ≢ success code_of_other
verify-once_example =
    verify-once numbers payload_only dev with_session refused_once request other_request 200 300
      code_of_ballot code_of_other one_session gives_code
      (follows share_sent refused_once
        (follows verified_once share_sent stays (submits verified_once (some share) 210))
        (verifies share_sent (some other_request) 220))
      refl

verify-interleaved_example :
    let first = verify_begins numbers payload_only with_session (some request) 200 in
    let second = verify_begins numbers payload_only with_session (some other_request) 300 in
    let s' = (verify_ends numbers payload_only with_session (some request) first).0 in
    ((verify_ends numbers payload_only with_session (some request) first).1
      ≡ success code_of_ballot)
    × ((verify_ends numbers payload_only s' (some other_request) second).1 ≡ success code_of_other)
verify-interleaved_example =
    verify-interleaved numbers payload_only with_session request other_request 200 300
      code_of_ballot code_of_other gives_code gives_other

abbrev opened : Session
opened = record {
  id = 7 ∷ [];
  created_at = 100;
  expires_at = 1900;
  verified = false;
  shares = (1, 5) ∷ (2, 6) ∷ [];
  master_secret = some 0;
  threshold_met = true;
  codes = some [];
  threshold = 2;
}

abbrev holding : Store ℕ
holding = record { sessions = (7 ∷ [], opened) ∷ []; heap = λ p. 42; fresh = 7 }

holding-opened : lookup (7 ∷ []) holding.sessions ≡ some opened
unfolding lookup bytes_eq
holding-opened = refl

remove_expired-zeroes_example : (remove_expired 0 holding 2000).heap 0 ≡ 0
remove_expired-zeroes_example =
    remove_expired-zeroes 0 holding 2000 (7 ∷ []) opened 0 holding-opened (omega arith)
      (secret refl)

dev_secret-zeroed_example :
    (remove_expired 0
        (handle_create_session numbers payload_only dev begun (some (7 ∷ [])) 100).0
        2000).heap
      0
    ≡ 0
dev_secret-zeroed_example =
    dev_secret-zeroed numbers payload_only dev begun (7 ∷ []) 100 2000 0 refl (omega arith)
