-- ===== src/Payments/Authorize/Response/Votes.antt =====
-- Which votes lead to a decision.
use Prim.Native.String.{◌++◌}
use graft_ng.Shared.{
  ℕ, ◌≤◌, ◌≡◌, ◌≢◌, ◌⊎◌, inl, inr, refl, sym, ◌∙◌, ap, String, some, lookup, has_key, string_eq,
  Bool-cases, assign, Option-cases, leb, ltb, ◌/◌, if◌then◌else◌, leb→le, leb→lt, length, arith,
}
use graft_ng.Tasks.Status.{Status, status_code}
use graft_ng.Rta.Crypto.{Crypto}
use graft_ng.Rta.Supernode.{Supernode, id_key_as_string}
use graft_ng.Payments.{
  RtaAuthResult, MulticastRequest, Output, int_value, state_value, broadcast_body, rta_fail,
  context_key_status, status_broadcast_reply, build_broadcast_sale_status_output,
  sign_sale_status_update, UpdateSaleStatusBroadcast, as_u64, as_tx, raw_tx_body,
  transaction_push_reply, context_key_tx_by_txid, context_key_amount_by_tx_id,
}
use graft_ng.Payments.Authorize.{
  AuthorizeRtaTxResponse, Transactions, AuthMessages, Unwritten, add_vote, votes_to_approve,
  rta_votes_to_reject,
}
use graft_ng.Payments.Authorize.Response.{
  ResponseWorld, evaluate, decide, reject_payment, push_transaction,
  handle_rta_auth_response_multicast,
}
use graft_ng.Payments.Authorize.Response.Outcomes.{
  Counted, Refused, IsAdded, add_vote-IsAdded, after_vote, after_counting, multicast_outcomes,
}

module _ (c : Crypto) (write : UpdateSaleStatusBroadcast → String) (u : Unwritten c)
    (supernode : Supernode c) (r : ℕ) where
  -- The failure of a payment, for all supernodes.
  unfoldable pub failure_broadcast : String → Output
  failure_broadcast payment_id = record {
    path = "/json_rpc/rta";
    body = broadcast_body (record {
      sender_address = "";
      callback_uri = "/cryptonode/update_sale_status";
      data_ = write (record {
        payment_id = payment_id;
        status = rta_fail;
        id_key = id_key_as_string c supernode;
        signature = sign_sale_status_update c u.signature r payment_id rta_fail supernode;
      });
    });
  }

module _ {Tx : Type 0} (c : Crypto) (t : Transactions Tx c) (am : AuthMessages)
    (write : UpdateSaleStatusBroadcast → String) (u : Unwritten c) (supernode : Supernode c)
    (r : ℕ) where
  -- Somebody has rejected: the call forwards, sets the payment to failed, and broadcasts that, under
  -- the signature of the supernode.
  unfoldable pub Rejects :
      String → RtaAuthResult → ResponseWorld Tx → Status × ResponseWorld Tx → Type 0
  Rejects payment_id votes w result =
      (1 ≤ length votes.rejected)
      × (result ≡ (
        Status.forward,
        record w {
          global = assign (payment_id ++ context_key_status) (int_value rta_fail) (
              assign "handleRtaAuthResponseMulticast" (state_value status_broadcast_reply)
                w.global);
          output = failure_broadcast c write u supernode r payment_id;
        },
      ))

  -- The sample has approved the transaction, which the call pushes.
  unfoldable pub Approves :
      String → RtaAuthResult → ResponseWorld Tx → Status × ResponseWorld Tx → Type 0
  Approves tx_id votes w result =
      (amount : ℕ) × (tx : Tx) × (as_u64 0 (lookup (tx_id ++ context_key_amount_by_tx_id) w.global)
        ≡ some amount)
      × (as_tx t.blank_tx (lookup (tx_id ++ context_key_tx_by_txid) w.global) ≡ some tx)
      × (length votes.rejected ≡ 0)
      × ((if ltb 100 (amount / t.coin) then 4 else 2) ≤ length votes.approved)
      × (result.1.output
          ≡ record { path = "/sendrawtransaction"; body = raw_tx_body (t.tx_to_hex tx) })
      × (result.1.tx_id ≡ some tx_id)
      × (result.1.global ≡ w.global)
      × (result.1.state ≡ w.state)

  -- Nothing is forwarded and the global context is left as it is.
  unfoldable pub Waits : ResponseWorld Tx → Status × ResponseWorld Tx → Type 0
  Waits w result =
      ((result.0 ≡ Status.error) ⊎ (result.0 ≡ Status.ok)) × (result.1.global ≡ w.global)

  stuck : {s : Status} → (s ≡ Status.error) ⊎ (s ≡ Status.ok) → s ≢ Status.forward
  stuck (inl e) f = omega (arith, ap status_code (sym e ∙ f))
  stuck (inr e) f = omega (arith, ap status_code (sym e ∙ f))

  decide_effects :
      (payment_id tx_id : String) (amount : ℕ) (votes : RtaAuthResult) (w : ResponseWorld Tx)
      → as_u64 0 (lookup (tx_id ++ context_key_amount_by_tx_id) w.global) ≡ some amount
      → Waits w (decide c t am write u supernode r payment_id tx_id amount votes w)
        ⊎ Rejects payment_id votes w
            (decide c t am write u supernode r payment_id tx_id amount votes w)
        ⊎ Approves tx_id votes w (decide c t am write u supernode r payment_id tx_id amount votes w)
  unfolding decide push_transaction votes_to_approve Waits Rejects Approves reject_payment
      build_broadcast_sale_status_output failure_broadcast
  decide_effects payment_id tx_id amount votes w known =
      elim (Bool-cases (leb rta_votes_to_reject (length votes.rejected))) [
        | inl rejected ↦ inr (inl (leb→le 1 (length votes.rejected) rejected, rw rejected refl))
        | inr none_rejects ↦
            let zero_rejects : length votes.rejected ≡ 0 =
              omega (arith, leb→lt 1 (length votes.rejected) none_rejects) in
            elim (Bool-cases (leb (votes_to_approve t.coin amount) (length votes.approved))) [
              | inr few ↦ inl (rw (none_rejects, few) (inr refl, refl))
              | inl enough ↦
                  elim (Option-cases
                    (as_tx t.blank_tx (lookup (tx_id ++ context_key_tx_by_txid) w.global))) [
                      | inl other ↦
                          inl (rw (none_rejects, enough, push_transaction, other) (inl refl, refl))
                      | inr (tx, held) ↦
                          let pushed : decide c t am write u supernode r payment_id tx_id amount
                                votes w
                              ≡ (
                                Status.forward,
                                record w {
                                  tx_id = some tx_id;
                                  output = record {
                                    path = "/sendrawtransaction";
                                    body = raw_tx_body (t.tx_to_hex tx);
                                  };
                                  multicast_state = some transaction_push_reply;
                                },
                              ) =
                            rw (none_rejects, enough, push_transaction, held) refl in
                          inr (
                            inr (
                              amount,
                              tx,
                              known,
                              held,
                              zero_rejects,
                              leb→le (votes_to_approve t.coin amount) (length votes.approved)
                                  enough,
                              ap (λ x. x.1.output) pushed,
                              ap (λ x. x.1.tx_id) pushed,
                              ap (λ x. x.1.global) pushed,
                              ap (λ x. x.1.state) pushed,
                            ))
                    ]
            ]
      ]

  pub evaluate_effects :
      (payment_id tx_id : String) (votes : RtaAuthResult) (w : ResponseWorld Tx)
      → Waits w (evaluate c t am write u supernode r payment_id tx_id votes w)
        ⊎ Rejects payment_id votes w (evaluate c t am write u supernode r payment_id tx_id votes w)
        ⊎ Approves tx_id votes w (evaluate c t am write u supernode r payment_id tx_id votes w)
  unfolding evaluate Waits
  evaluate_effects payment_id tx_id votes w =
      elim (Bool-cases (has_key (tx_id ++ context_key_amount_by_tx_id) w.global)) [
        | inr unknown ↦ inl (rw (evaluate, unknown) (inl refl, refl))
        | inl there ↦
            elim (Option-cases
              (as_u64 0 (lookup (tx_id ++ context_key_amount_by_tx_id) w.global))) [
                | inl other ↦ inl (rw (evaluate, there, other) (inl refl, refl))
                | inr (amount, known) ↦
                    elim (Bool-cases (has_key (tx_id ++ context_key_tx_by_txid) w.global)) [
                      | inr no_tx ↦ inl (rw (evaluate, there, known, no_tx) (inl refl, refl))
                      | inl tx ↦
                          rw (evaluate, there, known, tx)
                            (decide_effects payment_id tx_id amount votes w known)
                    ]
              ]
      ]

  -- Whatever arrives as a vote, a call is refused, with the global context as it was, or the vote
  -- counts: it is read, it is for one of the two results of a transaction whose payment is known,
  -- both of its signatures read and check under its key, or, where the key does not read, under
  -- what the unwritten variable of the key holds, and no vote with that text of a key is held for
  -- the transaction. Then it is stored at the end of the list of its result, and one of three things
  -- follows. Nothing is forwarded, and the global context has changed by that vote only; or somebody
  -- has rejected, the payment is set to failed and that is broadcast; or nobody has, four approve, or
  -- two where the amount has no more than 100 whole coins, and the stored transaction is pushed.
  pub response_effects :
      (body : String) (w : ResponseWorld Tx)
      → let result = handle_rta_auth_response_multicast c t am write u supernode r body w in
        Refused w result
        ⊎ ((req : MulticastRequest) × (resp : AuthorizeRtaTxResponse) × (payment_id : String)
            × (votes : RtaAuthResult) × (next : RtaAuthResult) × (am.read_multicast body ≡ some req)
            × (am.read_auth_response req.data_ ≡ some resp)
            × Counted c u resp payment_id votes w
            × IsAdded resp votes next
            × (Waits (after_counting resp payment_id next w) result
                ⊎ Rejects payment_id next (after_counting resp payment_id next w) result
                ⊎ Approves resp.tx_id next (after_counting resp payment_id next w) result))
  unfolding after_vote Counted
  response_effects body w = elim (multicast_outcomes c t am write u supernode r body w) [
    | inl refused ↦ inl refused
    | inr (req, resp, payment_id, votes, read, vote, counted, same) ↦
        let next = add_vote resp votes in
        inr (
          req,
          resp,
          payment_id,
          votes,
          next,
          read,
          vote,
          counted,
          add_vote-IsAdded resp votes (counted.0),
          rw same
              (evaluate_effects payment_id resp.tx_id next (after_counting resp payment_id next w)),
        )
  ]

  -- A call that is given a vote and forwards has counted that vote: it is for one of the two results
  -- of a transaction whose payment is known, both of its signatures check under its key, or, where
  -- the key does not read, under what the unwritten variable of the key holds, and no vote with that
  -- text of a key is held for the transaction. With it, at the end of the list of its result, either somebody has rejected,
  -- and the payment is set to failed and that is broadcast; or nobody has, four approve, or two where
  -- the amount has no more than 100 whole coins, and the stored transaction is pushed.
  pub forward_needs_votes :
      (body : String) (w : ResponseWorld Tx)
      → (handle_rta_auth_response_multicast c t am write u supernode r body w).0 ≡ Status.forward
      → let result = handle_rta_auth_response_multicast c t am write u supernode r body w in
        (resp : AuthorizeRtaTxResponse) × (payment_id : String) × (votes : RtaAuthResult)
        × (next : RtaAuthResult) × Counted c u resp payment_id votes w
        × IsAdded resp votes next
        × (Rejects payment_id next (after_counting resp payment_id next w) result
            ⊎ Approves resp.tx_id next (after_counting resp payment_id next w) result)
  unfolding Waits Refused
  forward_needs_votes body w forwarded = elim (response_effects body w) [
    | inl refused ↦ absurd (stuck (inl (refused.0)) forwarded)
    | inr (req, resp, payment_id, votes, next, read, vote, counted, added, inl waits) ↦
        absurd (stuck (waits.0) forwarded)
    | inr (req, resp, payment_id, votes, next, read, vote, counted, added, inr decided) ↦
        (resp, payment_id, votes, next, counted, added, decided)
  ]
