-- ===== src/Payments/Authorize/Response/Outcomes.antt =====
-- When a vote counts, and what it does.
use Prim.Native.String.{◌++◌}
use mathlib.Core.Bool.{true≢false}
use graft_ng.Shared.{
  ℤ, pos, negsuc, sym, [], ◌∷◌, ◌++◌ as append, ℕ, ◌≡◌, ◌⊎◌, inl, inr, refl, String, true, false,
  ◌||◌, some, int_eqb, lookup, assign, has_key, int_to_string, arith, string_eq, Bool-cases,
  Option-cases,
}
use graft_ng.Tasks.Status.{Status}
use graft_ng.Rta.Crypto.{Crypto}
use graft_ng.Rta.Supernode.{Supernode, verify_signature, verify_hash}
use graft_ng.Payments.{
  RtaAuthResult, MulticastRequest, UpdateSaleStatusBroadcast, auth_value, as_text, as_auth,
  or_unwritten, context_key_payment_id_by_txid, context_key_auth_result_by_txid,
}
use graft_ng.Payments.Authorize.{
  AuthorizeRtaTxResponse, Transactions, AuthMessages, Unwritten, auth_approved, auth_rejected,
  no_votes, validate_auth_response, already_approved, already_rejected, add_vote,
}
use graft_ng.Payments.Authorize.Response.{
  ResponseWorld, evaluate, store_votes, count_vote, check_vote, check_payment,
  handle_rta_auth_response_multicast,
}

-- The vote stands at the end of the list of its result, and the other list is as it was.
unfoldable pub IsAdded : AuthorizeRtaTxResponse → RtaAuthResult → RtaAuthResult → Type 0
IsAdded resp votes next =
    ((resp.result ≡ auth_approved)
      × (next.approved ≡ append votes.approved (resp.signature ∷ []))
      × (next.rejected ≡ votes.rejected))
    ⊎ ((resp.result ≡ auth_rejected)
        × (next.approved ≡ votes.approved)
        × (next.rejected ≡ append votes.rejected (resp.signature ∷ [])))

int_eqb_eq : (a b : ℤ) → int_eqb a b ≡ true → a ≡ b
int_eqb_eq (pos a) (pos b) h = ground (arith, h)
int_eqb_eq (negsuc a) (negsuc b) h = ground (arith, h)
int_eqb_eq (pos a) (negsuc b) h = absurd (true≢false (sym h))
int_eqb_eq (negsuc a) (pos b) h = absurd (true≢false (sym h))

pub add_vote-IsAdded :
    (resp : AuthorizeRtaTxResponse) (votes : RtaAuthResult)
    → (int_eqb resp.result auth_approved || int_eqb resp.result auth_rejected) ≡ true
    → IsAdded resp votes (add_vote resp votes)
unfolding IsAdded add_vote
add_vote-IsAdded resp votes meant = elim (Bool-cases (int_eqb resp.result auth_approved)) [
  | inl e ↦ inl (int_eqb_eq resp.result auth_approved e, rw e refl, rw e refl)
  | inr e ↦
      inr (int_eqb_eq resp.result auth_rejected (ground (arith, meant, e)), rw e refl, rw e refl)
]

module _ {Tx : Type 0} where
  -- The call fails, and leaves the contexts as they were but for the payment id of the task.
  unfoldable pub Refused : ResponseWorld Tx → Status × ResponseWorld Tx → Type 0
  Refused w result =
      (result.0 ≡ Status.error) × (result.1.global ≡ w.global) × (result.1.tx_id ≡ w.tx_id)

  -- The payment id is noted for the task, and the votes on the transaction are stored.
  unfoldable pub after_counting :
      AuthorizeRtaTxResponse → String → RtaAuthResult → ResponseWorld Tx → ResponseWorld Tx
  after_counting resp payment_id next w = record w {
    payment_id = some payment_id;
    global = assign (resp.tx_id ++ context_key_auth_result_by_txid) (auth_value next) w.global;
  }

module _ (c : Crypto) (u : Unwritten c) where
  -- The two signatures of a vote and the id of its transaction read, and both check under the key of
  -- the vote, or what its unwritten variable holds if it does not read: the one for the hash of the id and the result, with a colon between them, the other
  -- for the id.
  unfoldable pub IsSigned : AuthorizeRtaTxResponse → Type 0
  IsSigned resp =
      (sign_result sign_tx_id : c.Signature) × (tx_id : c.Hash) × (c.hex_to_signature
          resp.signature.result_signature
        ≡ some sign_result)
      × (c.hex_to_signature resp.signature.tx_signature ≡ some sign_tx_id)
      × (c.hex_to_hash resp.tx_id ≡ some tx_id)
      × (c.check_signature (c.cn_fast_hash (resp.tx_id ++ (":" ++ int_to_string resp.result)))
            (or_unwritten c u.id_key (c.hex_to_key resp.signature.id_key)) sign_result
          ≡ true)
      × (c.check_signature tx_id (or_unwritten c u.id_key (c.hex_to_key resp.signature.id_key))
            sign_tx_id
          ≡ true)

  validate-IsSigned :
      (resp : AuthorizeRtaTxResponse) → validate_auth_response c u resp ≡ true → IsSigned resp
  unfolding IsSigned validate_auth_response verify_signature verify_hash
  validate-IsSigned resp h = ground arith

module _ {Tx : Type 0} (c : Crypto) (u : Unwritten c) where
  -- The vote is for one of the two results of a known transaction, it is signed, and its key has not
  -- voted on the transaction.
  unfoldable pub Counted :
      AuthorizeRtaTxResponse → String → RtaAuthResult → ResponseWorld Tx → Type 0
  Counted resp payment_id votes w =
      ((int_eqb resp.result auth_approved || int_eqb resp.result auth_rejected) ≡ true)
      × (as_text "" (lookup (resp.tx_id ++ context_key_payment_id_by_txid) w.global)
          ≡ some payment_id)
      × IsSigned c u resp
      × (as_auth no_votes (lookup (resp.tx_id ++ context_key_auth_result_by_txid) w.global)
          ≡ some votes)
      × ((already_approved resp.signature.id_key votes
            || already_rejected resp.signature.id_key votes)
          ≡ false)

module _ {Tx : Type 0} (c : Crypto) (t : Transactions Tx c) (am : AuthMessages)
    (write : UpdateSaleStatusBroadcast → String) (u : Unwritten c) (supernode : Supernode c)
    (r : ℕ) where
  -- Then the votes are evaluated.
  unfoldable pub after_vote :
      AuthorizeRtaTxResponse → String → RtaAuthResult → ResponseWorld Tx → Status × ResponseWorld Tx
  unfolding after_counting
  after_vote resp payment_id votes w =
      evaluate c t am write u supernode r payment_id resp.tx_id (add_vote resp votes)
        (after_counting resp payment_id (add_vote resp votes) w)

  vote_effects :
      (resp : AuthorizeRtaTxResponse) (payment_id : String) (w : ResponseWorld Tx)
      → (int_eqb resp.result auth_approved || int_eqb resp.result auth_rejected) ≡ true
      → as_text "" (lookup (resp.tx_id ++ context_key_payment_id_by_txid) w.global)
        ≡ some payment_id
      → Refused w (check_vote c t am write u supernode r resp payment_id w)
        ⊎ ((votes : RtaAuthResult) × Counted c u resp payment_id votes w
            × (check_vote c t am write u supernode r resp payment_id w
                ≡ after_vote resp payment_id votes w))
  unfolding check_vote count_vote store_votes after_vote after_counting Refused Counted
  vote_effects resp payment_id w meant known = elim (Bool-cases (validate_auth_response c u resp)) [
    | inr forged ↦ inl (rw forged (refl, refl, refl))
    | inl signed ↦
        elim (Option-cases
          (as_auth no_votes (lookup (resp.tx_id ++ context_key_auth_result_by_txid) w.global))) [
            | inl other ↦ inl (rw (signed, other) (refl, refl, refl))
            | inr (votes, held) ↦
                elim (Bool-cases (
                  already_approved resp.signature.id_key votes
                  || already_rejected resp.signature.id_key votes)) [
                    | inl again ↦ inl (rw (signed, held, again) (refl, refl, refl))
                    | inr fresh ↦ inr (
                      votes,
                      (meant, known, validate-IsSigned c u resp signed, held, fresh),
                      rw (signed, held, fresh) refl,
                    )
                  ]
          ]
  ]

  payment_effects :
      (resp : AuthorizeRtaTxResponse) (w : ResponseWorld Tx)
      → Refused w (check_payment c t am write u supernode r resp w)
        ⊎ ((payment_id : String) × (votes : RtaAuthResult) × Counted c u resp payment_id votes w
            × (check_payment c t am write u supernode r resp w
                ≡ after_vote resp payment_id votes w))
  unfolding check_payment Refused
  payment_effects resp w =
      let key = resp.tx_id ++ context_key_payment_id_by_txid in
      elim (Bool-cases (int_eqb resp.result auth_approved || int_eqb resp.result auth_rejected)) [
        | inr other ↦ inl (rw other (refl, refl, refl))
        | inl meant ↦ elim (Bool-cases (has_key key w.global)) [
          | inr unknown ↦ inl (rw (meant, unknown) (refl, refl, refl))
          | inl there ↦ elim (Option-cases (as_text "" (lookup key w.global))) [
            | inl other ↦ inl (rw (meant, there, other) (refl, refl, refl))
            | inr (payment_id, known) ↦ elim (vote_effects resp payment_id w meant known) [
              | inl refused ↦ inl (rw (meant, there, known) refused)
              | inr (votes, counted, same) ↦
                  inr (payment_id, votes, counted, rw (meant, there, known) same)
            ]
          ]
        ]
      ]

  -- A call is refused, or the vote counts.
  pub multicast_outcomes :
      (body : String) (w : ResponseWorld Tx)
      → Refused w (handle_rta_auth_response_multicast c t am write u supernode r body w)
        ⊎ ((req : MulticastRequest) × (resp : AuthorizeRtaTxResponse) × (payment_id : String)
            × (votes : RtaAuthResult) × (am.read_multicast body ≡ some req)
            × (am.read_auth_response req.data_ ≡ some resp)
            × Counted c u resp payment_id votes w
            × (handle_rta_auth_response_multicast c t am write u supernode r body w
                ≡ after_vote resp payment_id votes w))
  unfolding handle_rta_auth_response_multicast Refused
  multicast_outcomes body w = elim (Option-cases (am.read_multicast body)) [
    | inl unread ↦ inl (rw (handle_rta_auth_response_multicast, unread) (refl, refl, refl))
    | inr (req, read) ↦ elim (Option-cases (am.read_auth_response req.data_)) [
      | inl unread ↦ inl (rw (handle_rta_auth_response_multicast, read, unread) (refl, refl, refl))
      | inr (resp, vote) ↦ elim (payment_effects resp w) [
        | inl refused ↦ inl (rw (handle_rta_auth_response_multicast, read, vote) refused)
        | inr (payment_id, votes, counted, same) ↦ inr (
          req,
          resp,
          payment_id,
          votes,
          read,
          vote,
          counted,
          rw (handle_rta_auth_response_multicast, read, vote) same,
        )
      ]
    ]
  ]
