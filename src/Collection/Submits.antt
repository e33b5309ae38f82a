-- ===== src/Collection/Submits.antt =====
-- collection/handler.go, `HandleSubmit`: the store and the reply on every branch.
use otvoren_vot.Prelude.{
  ℕ, ◌≡◌, ◌≢◌, refl, sym, ap, ◌∙◌, Bool, false, lookup, bytes_Eq, ◌⊎◌, inl, inr, Option, none, some,
  Bytes, bytes_eq, bytes_eq_refl, length, ◌==◌, Reply, success, failure, String, not, Bool-cases,
  Option-cases, if◌then◌else◌, arith,
}
use otvoren_vot.Collection.Votermap.{
  MemoryStore, online, hash_egn, record_vote, prev_ballot, get_active_ballot_id,
}
use otvoren_vot.Collection.Handler.{
  Claims, CollectionHandler, Credentials, AuthReply, SubmitRequest, BoardAnswer, SubmitResponse,
  identify, board_reply, forwarded, handle_submit,
}
use otvoren_vot.Collection.Chains.{active_after}

pub Reply-cases {ℓ} :
    {A : Type ℓ} (r : Reply A)
    → ((a : A) × (r ≡ success a)) ⊎ ((code : ℕ) × (text : String) × (r ≡ failure code text))
Reply-cases (success a) = inl (a, refl)
Reply-cases (failure code text) = inr (code, text, refl)

-- Whether there is an identifier, and it is not the empty one.
abbrev pub is_given : Option Bytes → Bool
is_given none = false
is_given (some id) = not (length id == 0)

is_given-replaced :
    (hmac : Bytes → Bytes → Bytes) (ms : MemoryStore) (voter ballot_id : Bytes) (now : ℕ)
    → not (length (record_vote hmac ms voter ballot_id online now).1 == 0)
      ≡ is_given (get_active_ballot_id ms voter)
unfolding record_vote prev_ballot get_active_ballot_id
is_given-replaced hmac ms voter ballot_id now = elim (Option-cases (lookup voter ms.mapping)) [
  | inl e ↦ rw (e, get_active_ballot_id) refl
  | inr (old, e) ↦ rw (e, get_active_ballot_id) refl
]

module _ (verify_token : Bytes → Option Claims) (hmac : Bytes → Bytes → Bytes)
    (h : CollectionHandler) where
  -- The store with the vote of this voter recorded.
  abbrev pub recorded : MemoryStore → Bytes → Bytes → ℕ → MemoryStore
  recorded ms egn ballot_id now =
      (record_vote hmac ms (hash_egn hmac egn h.egn_hmac_key) ballot_id online now).0

  -- What `Record` returns.
  abbrev replaced : MemoryStore → Bytes → Bytes → ℕ → Bytes
  replaced ms egn ballot_id now =
      (record_vote hmac ms (hash_egn hmac egn h.egn_hmac_key) ballot_id online now).1

  forwarded_named :
      (ms : MemoryStore) (egn : Bytes) (now : ℕ) (board : SubmitRequest → Option BoardAnswer)
      (req : SubmitRequest)
      → (length req.ballot_id == 0) ≡ false
      → forwarded verify_token hmac h ms egn now board (some req) ≡ (
        recorded ms egn req.ballot_id now,
        board_reply verify_token hmac req (replaced ms egn req.ballot_id now) (board req),
      )
  unfolding forwarded
  forwarded_named ms egn now board req named = rw (forwarded, named)

  identified :
      (ms : MemoryStore) (c : Credentials) (answer : Bytes → ℕ → AuthReply) (now : ℕ)
      (board : SubmitRequest → Option BoardAnswer) (req : Option SubmitRequest) (egn : Bytes)
      → identify verify_token h c answer ≡ success egn
      → handle_submit verify_token hmac h ms c answer now board req
        ≡ forwarded verify_token hmac h ms egn now board req
  unfolding handle_submit
  identified ms c answer now board req egn e = rw (handle_submit, e)

  -- Where `HandleSubmit` answers with success, the request named a ballot, the board took it, the answer
  -- carries the board's position and root and says that it overrides exactly where the voter had an active
  -- ballot before with an identifier that is not empty, the ballot is the voter's active one, and every other voter's active ballot is as before.
  pub handle_submit-success :
      (ms : MemoryStore) (c : Credentials) (answer : Bytes → ℕ → AuthReply) (now : ℕ)
      (board : SubmitRequest → Option BoardAnswer) (req : SubmitRequest) (a : SubmitResponse)
      → (handle_submit verify_token hmac h ms c answer now board (some req)).1 ≡ success a
      → (egn : Bytes) × (taken : BoardAnswer) × (identify verify_token h c answer ≡ success egn)
        × (board req ≡ some taken)
        × (a ≡ record {
          ballot_id = req.ballot_id;
          position = taken.position;
          merkle_root = taken.merkle_root;
          is_override = is_given (get_active_ballot_id ms (hash_egn hmac egn h.egn_hmac_key));
        })
        × ((voter : Bytes)
            → get_active_ballot_id
                (handle_submit verify_token hmac h ms c answer now board (some req)).0
                voter
              ≡ (if bytes_eq (hash_egn hmac egn h.egn_hmac_key) voter
                  then some req.ballot_id
                  else get_active_ballot_id ms voter))
  handle_submit-success ms c answer now board req a ok =
      elim (Reply-cases (identify verify_token h c answer)) [
        | inr (code, text, e) ↦
            let refused : (handle_submit verify_token hmac h ms c answer now board (some req)).1
                ≡ failure code text =
              unfold handle_submit in rw (handle_submit, e) in
            absurd (clash (sym ok ∙ refused))
        | inl (egn, e) ↦ elim (Bool-cases (length req.ballot_id == 0)) [
          | inl empty ↦
              let refused : (forwarded verify_token hmac h ms egn now board (some req)).1
                  ≡ failure 400 "missing_ballot_id" =
                unfold forwarded in rw (forwarded, empty) in
              let whole = identified ms c answer now board (some req) egn e in
              absurd (clash (sym ok ∙ ap (λ x. x.1) whole ∙ refused))
          | inr named ↦
              let whole =
                identified ms c answer now board (some req) egn e
                ∙ forwarded_named ms egn now board req named in
              elim (Option-cases (board req)) [
                | inl lost ↦
                    let refused : board_reply verify_token hmac req
                          (replaced ms egn req.ballot_id now) (board req)
                        ≡ failure 502 "board_error" =
                      unfold board_reply in rw (lost) in
                    absurd (clash (sym ok ∙ ap (λ x. x.1) whole ∙ refused))
                | inr (taken, got) ↦
                    let sent : board_reply verify_token hmac req (replaced ms egn req.ballot_id now)
                          (board req)
                        ≡ success (record {
                          ballot_id = req.ballot_id;
                          position = taken.position;
                          merkle_root = taken.merkle_root;
                          is_override = not (length (replaced ms egn req.ballot_id now) == 0);
                        }) =
                      unfold board_reply in rw (got) in
                    (
                      egn,
                      taken,
                      e,
                      got,
                      success_inj (sym ok ∙ ap (λ x. x.1) whole ∙ sent)
                          ∙ ap
                              (λ overrides. record {
                                ballot_id = req.ballot_id;
                                position = taken.position;
                                merkle_root = taken.merkle_root;
                                is_override = overrides;
                              })
                              (is_given-replaced hmac ms (hash_egn hmac egn h.egn_hmac_key)
                                req.ballot_id now),
                      λ voter.
                          ap (λ x. get_active_ballot_id x.0 voter) whole
                          ∙ active_after hmac ms (hash_egn hmac egn h.egn_hmac_key) voter
                              req.ballot_id online now,
                    )
              ]
        ]
      ]
    where
      clash : {x : SubmitResponse} {code : ℕ} {text : String} → success x ≢ failure code text
      clash = λ e. cc

      success_inj : {x y : SubmitResponse} → success x ≡ success y → x ≡ y
      success_inj e = cc

  -- Where the board does not take the ballot of an identified voter, the answer is an error and the
  -- ballot is the voter's active one all the same, in place of the one before.
  pub handle_submit-board_error :
      (ms : MemoryStore) (c : Credentials) (answer : Bytes → ℕ → AuthReply) (now : ℕ)
      (board : SubmitRequest → Option BoardAnswer) (req : SubmitRequest) (egn : Bytes)
      → identify verify_token h c answer ≡ success egn
      → length req.ballot_id ≢ 0
      → board req ≡ none
      → ((handle_submit verify_token hmac h ms c answer now board (some req)).1
          ≡ failure 502 "board_error")
        × (get_active_ballot_id
              (handle_submit verify_token hmac h ms c answer now board (some req)).0
              (hash_egn hmac egn h.egn_hmac_key)
            ≡ some req.ballot_id)
  handle_submit-board_error ms c answer now board req egn e named lost =
      let present : (length req.ballot_id == 0) ≡ false = ground (arith, named) in
      let whole =
        identified ms c answer now board (some req) egn e
        ∙ forwarded_named ms egn now board req present in
      let voter = hash_egn hmac egn h.egn_hmac_key in
      (
        ap (λ x. x.1) whole ∙ (unfold board_reply in rw (lost)),
        ap (λ x. get_active_ballot_id x.0 voter) whole
            ∙ active_after hmac ms voter voter req.ballot_id online now
            ∙ rw (bytes_eq_refl voter),
      )
