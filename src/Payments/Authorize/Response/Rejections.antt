-- ===== src/Payments/Authorize/Response/Rejections.antt =====
-- What comes after the votes have been evaluated.
use Prim.Native.String.{◌++◌}
use graft_ng.Shared.{
  lookup, lookup-assign_same, string_eq, ℕ, ◌≡◌, ◌⊎◌, inl, inr, refl, sym, ◌∙◌, ap, String,
  Option-cases, none, some,
}
use graft_ng.Tasks.Status.{Status}
use graft_ng.Rta.Crypto.{Crypto}
use graft_ng.Rta.Supernode.{Supernode}
use graft_ng.Payments.{
  UpdateSaleStatusBroadcast, int_value, rta_fail, context_key_status, Output, Reply, replied,
  thrown, error_internal_error, status_broadcast_reply, transaction_push_reply,
}
use graft_ng.Payments.Authorize.{Transactions, AuthMessages, Unwritten}
use graft_ng.Payments.Authorize.Response.{
  ResponseWorld, authorize_rta_tx_response_handler, handle_rta_auth_response_multicast,
  handle_cryptonode_tx_push_response, rescued,
}
use graft_ng.Payments.Authorize.Response.Outcomes.{after_counting}
use graft_ng.Payments.Authorize.Response.Votes.{
  failure_broadcast, Rejects, Approves, forward_needs_votes,
}

module _ {Tx : Type 0} (c : Crypto) (t : Transactions Tx c) (am : AuthMessages)
    (write : UpdateSaleStatusBroadcast → String) (u : Unwritten c) (supernode : Supernode c)
    (r : ℕ) where
  push_throws :
      (r2 : ℕ) (body : String) (w : ResponseWorld Tx)
      → w.tx_id ≡ none
      → handle_cryptonode_tx_push_response c t am write u supernode r2 body w ≡ thrown w
  unfolding handle_cryptonode_tx_push_response
  push_throws r2 body w no_tx = elim (Option-cases w.payment_id) [
    | inl missing ↦ simp (handle_cryptonode_tx_push_response, missing) refl
    | inr (payment_id, held) ↦ simp (handle_cryptonode_tx_push_response, held, no_tx) refl
  ]

  -- Without the id of a transaction in the context of the task, the answer of the cryptonode ends in
  -- the handler of exceptions.
  unfollowed :
      (r2 : ℕ) (body : String) (w : ResponseWorld Tx)
      → w.state ≡ some transaction_push_reply
      → w.tx_id ≡ none
      → authorize_rta_tx_response_handler c t am write u supernode r2 body w
        ≡ replied Status.error (record w {
          state = some status_broadcast_reply;
          output = error_internal_error "exception thrown" w.output;
        })
  unfolding authorize_rta_tx_response_handler
  unfollowed r2 body w pushing no_tx =
      simp (authorize_rta_tx_response_handler, pushing)
        (ap rescued_here
          (push_throws r2 body (record w { state = some status_broadcast_reply }) no_tx))
    where
      rescued_here : Reply (ResponseWorld Tx) → Reply (ResponseWorld Tx)
      rescued_here = rescued c t am write u supernode

  abbrev reply_status : Status → Reply (ResponseWorld Tx) → Status
  reply_status d (replied s w) = s
  reply_status d _ = d

  abbrev reply_world : ResponseWorld Tx → Reply (ResponseWorld Tx) → ResponseWorld Tx
  reply_world d (replied s w) = w
  reply_world d _ = d

  -- The first call of a task for a vote, if it forwards, leaves the state for the answer to a pushed
  -- transaction. Either a transaction is pushed, whose id the task then holds; or the status of a
  -- payment has been set to failed and that has been broadcast, and then, whatever the cryptonode
  -- answers, the next call of the task fails with an exception.
  pub only_pushes_are_followed :
      (r2 : ℕ) (body body2 : String) (w w' : ResponseWorld Tx)
      → w.state ≡ none
      → w.tx_id ≡ none
      → authorize_rta_tx_response_handler c t am write u supernode r body w
        ≡ replied Status.forward w'
      → (w'.state ≡ some transaction_push_reply)
        × (((tx_id : String) × (w'.tx_id ≡ some tx_id) × (w'.output.path ≡ "/sendrawtransaction"))
            ⊎ ((payment_id : String) × (lookup (payment_id ++ context_key_status) w'.global
                  ≡ some (int_value rta_fail))
                × (w'.output ≡ failure_broadcast c write u supernode r payment_id)
                × (authorize_rta_tx_response_handler c t am write u supernode r2 body2 w'
                    ≡ replied Status.error (record w' {
                      state = some status_broadcast_reply;
                      output = error_internal_error "exception thrown" w'.output;
                    }))))
  unfolding Rejects Approves authorize_rta_tx_response_handler after_counting
  only_pushes_are_followed r2 body body2 w w' fresh no_tx forwarded =
      let first : ResponseWorld Tx = record w { state = some transaction_push_reply } in
      let h = handle_rta_auth_response_multicast c t am write u supernode r body first in
      let called : replied h.0 h.1 ≡ replied Status.forward w' =
        sym (simp (authorize_rta_tx_response_handler, fresh) refl) ∙ forwarded in
      let same : h.1 ≡ w' = ap (reply_world w) called in
      let (resp, payment_id, votes, next, counted, added, decided) =
        forward_needs_votes c t am write u supernode r body first
          (ap (reply_status Status.none) called) in
      elim decided [
        | inl rejects ↦
            let result = sym same ∙ ap (λ x. x.1) (rejects.1) in
            let pushing = ap (λ (x : ResponseWorld Tx). x.state) result in
            (
              pushing,
              inr (
                payment_id,
                ap (λ (x : ResponseWorld Tx). lookup (payment_id ++ context_key_status) x.global)
                      result
                    ∙ lookup-assign_same (payment_id ++ context_key_status) (int_value rta_fail) _,
                ap (λ (x : ResponseWorld Tx). x.output) result,
                unfollowed r2 body2 w' pushing
                    (ap (λ (x : ResponseWorld Tx). x.tx_id) result ∙ no_tx),
              ),
            )
        | inr approves ↦ (
          ap (λ (x : ResponseWorld Tx). x.state) (sym same) ∙ approves.9,
          inl (
            resp.tx_id,
            ap (λ (x : ResponseWorld Tx). x.tx_id) (sym same) ∙ approves.7,
            ap (λ (x : ResponseWorld Tx). x.output.path) (sym same)
                ∙ ap (λ (o : Output). o.path) (approves.6),
          ),
        )
      ]
