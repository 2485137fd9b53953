-- ===== src/Payments/Authorize/Request/Amounts.antt =====
-- What follows for the requests from `Supernode::getAmountFromTx`, which never finds an amount.
use Prim.Native.String.{◌++◌}
use graft_ng.Shared.{
  ℕ, ◌≡◌, ◌⊎◌, inl, inr, refl, String, false, some, assign, has_key, string_eq, Bool-cases,
  Option-cases,
}
use graft_ng.Tasks.Status.{Status, same_status}
use graft_ng.Rta.Crypto.{Crypto}
use graft_ng.Rta.Supernode.{Supernode}
use graft_ng.Payments.{
  MulticastRequest, u64_value, context_key_amount_by_tx_id, context_key_tx_by_txid, is_accepted,
}
use graft_ng.Payments.Authorize.{Transactions, AuthMessages, Unwritten, AuthorizeRtaTxRequest}
use graft_ng.Payments.Authorize.Request.{
  RequestWorld, client_request, client_request_again, cryptonode_reply, RtaAuthRequestHandlerState,
  authorize_rta_tx_request_handler, authorize_tx, parse_tx, handle_body, step,
  store_request_and_reply_ok, handle_tx_auth_request, handle_cryptonode_multicast_status,
}

-- The global context is as it was, but for the amount of one transaction.
unfoldable pub KeepsContext : {Tx : Type 0} → RequestWorld Tx → Status × RequestWorld Tx → Type 0
KeepsContext w result =
    (same_status result.0 Status.forward ≡ false)
    × ((result.1.global ≡ w.global)
        ⊎ ((tx_id : String) × (amount : ℕ) × (result.1.global
              ≡ assign (tx_id ++ context_key_amount_by_tx_id) (u64_value amount) w.global)))

module _ {Tx : Type 0} (c : Crypto) (t : Transactions Tx c) (am : AuthMessages) (u : Unwritten c)
    (supernode : Supernode c) (r1 r2 : ℕ) where
  authorize_tx-KeepsContext :
      (req : MulticastRequest) (a : AuthorizeRtaTxRequest) (tx : Tx) (id : String)
      (w : RequestWorld Tx)
      → KeepsContext w (authorize_tx c t am u supernode r1 r2 req a tx id w)
  unfolding authorize_tx KeepsContext
  authorize_tx-KeepsContext req a tx id w =
      elim (Bool-cases (has_key (id ++ context_key_tx_by_txid) w.global)) [
        | inl there ↦ rw (authorize_tx, there) (refl, inl refl)
        | inr fresh ↦ rw (authorize_tx, fresh) (refl, inr (id, a.amount, refl))
      ]

  parse_tx-KeepsContext :
      (req : MulticastRequest) (a : AuthorizeRtaTxRequest) (w : RequestWorld Tx)
      → KeepsContext w (parse_tx c t am u supernode r1 r2 req a w)
  unfolding parse_tx KeepsContext
  parse_tx-KeepsContext req a w = elim (Option-cases (t.parse_hexstr_to_binbuff a.tx_hex)) [
    | inl unread ↦ rw (parse_tx, unread) (refl, inl refl)
    | inr (blob, read) ↦ elim (Option-cases (t.parse_and_validate_tx_from_blob blob)) [
      | inl unparsed ↦ rw (parse_tx, read, unparsed) (refl, inl refl)
      | inr ((tx, hash), parsed) ↦
          rw (parse_tx, read, parsed) (authorize_tx-KeepsContext req a tx (c.hash_to_hex hash) w)
    ]
  ]

  body-KeepsContext :
      (body : String) (w : RequestWorld Tx)
      → KeepsContext w (handle_body c t am u supernode r1 r2 body w)
  unfolding handle_body KeepsContext
  body-KeepsContext body w = elim (Option-cases (am.read_multicast body)) [
    | inl unread ↦ rw (handle_body, unread) (refl, inl refl)
    | inr (req, read) ↦ elim (Option-cases (am.read_auth_request req.data_)) [
      | inl unread ↦ rw (handle_body, read, unread) (refl, inl refl)
      | inr (a, parsed) ↦ rw (handle_body, read, parsed) (parse_tx-KeepsContext req a w)
    ]
  ]

  store-KeepsContext :
      (body : String) (w : RequestWorld Tx)
      → KeepsContext w (store_request_and_reply_ok c t am u supernode body w)
  unfolding store_request_and_reply_ok KeepsContext
  store-KeepsContext body w = elim (Option-cases (am.read_multicast body)) [
    | inl unread ↦ rw (store_request_and_reply_ok, unread) (refl, inl refl)
    | inr (req, read) ↦ elim (Option-cases (am.read_auth_request req.data_)) [
      | inl unread ↦ rw (store_request_and_reply_ok, read, unread) (refl, inl refl)
      | inr (a, parsed) ↦ rw (store_request_and_reply_ok, read, parsed) (refl, inl refl)
    ]
  ]

  request-KeepsContext :
      (w : RequestWorld Tx) → KeepsContext w (handle_tx_auth_request c t am u supernode r1 r2 w)
  unfolding handle_tx_auth_request KeepsContext
  request-KeepsContext w = elim (Option-cases w.request) [
    | inl missing ↦ rw (handle_tx_auth_request, missing) (refl, inl refl)
    | inr (body, stored) ↦ rw (handle_tx_auth_request, stored) (body-KeepsContext body w)
  ]

  reply-KeepsContext :
      (body : String) (w : RequestWorld Tx)
      → KeepsContext w (handle_cryptonode_multicast_status c t am u supernode body w)
  unfolding handle_cryptonode_multicast_status KeepsContext
  reply-KeepsContext body w = elim (Bool-cases (is_accepted (am.read_reply body))) [
    | inr refused ↦ rw (handle_cryptonode_multicast_status, refused) (refl, inl refl)
    | inl accepted ↦ elim (Option-cases w.payment_id) [
      | inl missing ↦ rw (handle_cryptonode_multicast_status, accepted, missing) (refl, inl refl)
      | inr (payment_id, stored) ↦
          rw (handle_cryptonode_multicast_status, accepted, stored) (refl, inl refl)
    ]
  ]

  step-KeepsContext :
      (state : RtaAuthRequestHandlerState) (body : String) (w : RequestWorld Tx)
      → KeepsContext w (step c t am u supernode r1 r2 state body w)
  unfolding step KeepsContext
  step-KeepsContext client_request body w =
      store-KeepsContext body (record w { state = some client_request_again })
  step-KeepsContext client_request_again body w =
      request-KeepsContext (record w { state = some cryptonode_reply })
  step-KeepsContext cryptonode_reply body w = reply-KeepsContext body w

  -- Whatever arrives and whatever the state, a call of the handler of requests does not multicast a
  -- result, and of the global context it changes at most the amount of one transaction: no
  -- transaction and no payment id is ever stored.
  pub handler-KeepsContext :
      (body : String) (w : RequestWorld Tx)
      → KeepsContext w (authorize_rta_tx_request_handler c t am u supernode r1 r2 body w)
  unfolding authorize_rta_tx_request_handler KeepsContext
  handler-KeepsContext body w = elim (Option-cases w.state) [
    | inl fresh ↦
        rw (authorize_rta_tx_request_handler, fresh) (step-KeepsContext client_request body w)
    | inr (state, held) ↦
        rw (authorize_rta_tx_request_handler, held) (step-KeepsContext state body w)
  ]
