-- ===== src/Payments/Authorize/Response.antt =====
-- `authorizeRtaTxResponseHandler` of src/supernode/requests/authorize_rta_tx.cpp: the vote of a
-- supernode of the auth sample arrives. A local key that is read and missing is inserted without a
-- value before the exception, which nothing reads again; that is left out.
pub mod Outcomes
pub mod Votes
pub mod Once
pub mod Rejections
use Prim.Native.String.{◌++◌}
use graft_ng.Shared.{
  ℕ, String, Bool, true, false, not, ◌&&◌, ◌||◌, Option, none, some, if◌then◌else◌, leb, ℤ, pos,
  int_eqb, lookup, assign, has_key, length, ◌==◌, string_eq,
}
use graft_ng.Tasks.Status.{Status}
use graft_ng.Rta.Crypto.{Crypto}
use graft_ng.Rta.Supernode.{Supernode}
use graft_ng.Payments.{
  Global, int_value, auth_value, state_value, as_int, as_u64, as_text, as_auth, as_tx,
  RtaAuthResult, AuthState, rta_auth_reply, transaction_push_reply, status_broadcast_reply, Output,
  load, raw_tx_body, result_body, Reply, replied, thrown, aborted, UpdateSaleStatusBroadcast,
  rta_none, rta_success, rta_fail, rta_rejected_by_pos, rta_rejected_by_wallet,
  context_key_tx_by_txid, context_key_amount_by_tx_id, context_key_payment_id_by_txid,
  context_key_auth_result_by_txid, context_key_status, error_custom_error, error_invalid_params,
  error_internal_error, error_invalid_request_code, error_internal_error_code,
  error_rta_signature_failed_code, error_address_invalid_code, is_accepted,
  send_ok_response_to_cryptonode, build_broadcast_sale_status_output,
}
use graft_ng.Payments.Authorize.{
  AuthorizeRtaTxResponse, SendRawTxResponse, Transactions, AuthMessages, Unwritten, auth_approved,
  auth_rejected, no_votes, rta_votes_to_reject, validate_auth_response, already_approved,
  already_rejected, add_vote, votes_to_approve,
}

-- The context of the task, by its keys, the global context and the output.
pub record ResponseWorld (Tx : Type 0) : Type 0 where
  pub global : Global Tx
  pub state : Option AuthState
  pub multicast_state : Option AuthState
  pub push_state : Option AuthState
  pub payment_id : Option String
  pub tx_id : Option String
  pub output : Output

module _ {Tx : Type 0} where
  abbrev pub failed : (Output → Output) → ResponseWorld Tx → Status × ResponseWorld Tx
  failed f w = (Status.error, record w { output = f w.output })

module _ {Tx : Type 0} (c : Crypto) (t : Transactions Tx c) (am : AuthMessages)
    (write : UpdateSaleStatusBroadcast → String) (u : Unwritten c) (supernode : Supernode c) where
  -- The handler of an exception in `handleRtaAuthResponseMulticast`.
  abbrev pub caught : ResponseWorld Tx → Status × ResponseWorld Tx
  caught w =
      failed
        (error_internal_error
          ("exception in cryptonode/authorize_rta_tx_response handler: " ++ am.what))
        w

  -- The sample has rejected. The state is written to the global context.
  unfoldable pub reject_payment : ℕ → String → ResponseWorld Tx → Status × ResponseWorld Tx
  reject_payment r payment_id w = (
    Status.forward,
    record w {
      global =
          assign (payment_id ++ context_key_status) (int_value rta_fail)
            (assign "handleRtaAuthResponseMulticast" (state_value status_broadcast_reply) w.global);
      output =
          build_broadcast_sale_status_output c write u.signature r payment_id rta_fail supernode;
    },
  )

  -- The sample has approved.
  unfoldable pub push_transaction : String → ResponseWorld Tx → Status × ResponseWorld Tx
  push_transaction tx_id w =
      let noted : ResponseWorld Tx = record w { tx_id = some tx_id } in
      elim (as_tx t.blank_tx (lookup (tx_id ++ context_key_tx_by_txid) w.global)) [
        | none ↦ caught noted
        | some tx ↦ (
          Status.forward,
          record noted {
            output = record { path = "/sendrawtransaction"; body = raw_tx_body (t.tx_to_hex tx) };
            multicast_state = some transaction_push_reply;
          },
        )
      ]

  -- The votes against the two bounds.
  unfoldable pub decide :
      ℕ → String → String → ℕ → RtaAuthResult → ResponseWorld Tx → Status × ResponseWorld Tx
  unfolding reject_payment push_transaction votes_to_approve
  decide r payment_id tx_id tx_amount votes w =
      let pushed = push_transaction tx_id w in
      if leb rta_votes_to_reject (length votes.rejected)
      then reject_payment r payment_id w
      else if leb (votes_to_approve t.coin tx_amount) (length votes.approved)
      then pushed
      else (Status.ok, record w { output = load (result_body (pos 0)) w.output })

  -- The vote has been stored.
  unfoldable pub evaluate :
      ℕ → String → String → RtaAuthResult → ResponseWorld Tx → Status × ResponseWorld Tx
  unfolding decide
  evaluate r payment_id tx_id votes w =
      let decided : Status × ResponseWorld Tx =
        elim (as_u64 0 (lookup (tx_id ++ context_key_amount_by_tx_id) w.global)) [
          | none ↦ caught w
          | some tx_amount ↦
              if not (has_key (tx_id ++ context_key_tx_by_txid) w.global)
              then failed
                  (error_custom_error
                    ("rta auth response processed but no tx found for tx id: " ++ tx_id)
                    error_internal_error_code)
                  w
              else decide r payment_id tx_id tx_amount votes w
        ] in
      if not (has_key (tx_id ++ context_key_amount_by_tx_id) w.global)
      then failed
          (error_custom_error ("no amount found for tx id: " ++ tx_id) error_internal_error_code) w
      else decided

  store_votes : AuthorizeRtaTxResponse → RtaAuthResult → ResponseWorld Tx → ResponseWorld Tx
  store_votes resp votes w = record w {
    global = assign (resp.tx_id ++ context_key_auth_result_by_txid) (auth_value votes) w.global;
  }

  -- The signature has been checked.
  count_vote :
      ℕ
      → AuthorizeRtaTxResponse
      → String
      → RtaAuthResult
      → ResponseWorld Tx
      → Status × ResponseWorld Tx
  unfolding evaluate store_votes
  count_vote r resp payment_id votes w =
      let next = add_vote resp votes in
      if already_approved resp.signature.id_key votes
        || already_rejected resp.signature.id_key votes
      then failed
          (error_custom_error ("supernode: " ++ (resp.signature.id_key ++ " already processed"))
            error_address_invalid_code)
          w
      else evaluate r payment_id resp.tx_id next (store_votes resp next w)

  -- The payment is known.
  check_vote : ℕ → AuthorizeRtaTxResponse → String → ResponseWorld Tx → Status × ResponseWorld Tx
  unfolding count_vote
  check_vote r resp payment_id w =
      let noted : ResponseWorld Tx = record w { payment_id = some payment_id } in
      let counted : Status × ResponseWorld Tx =
        elim (as_auth no_votes (lookup (resp.tx_id ++ context_key_auth_result_by_txid) w.global)) [
          | none ↦ caught noted
          | some votes ↦ count_vote r resp payment_id votes noted
        ] in
      if not (validate_auth_response c u resp)
      then failed
          (error_custom_error "failed to validate signature for rta auth response"
            error_rta_signature_failed_code)
          noted
      else counted

  check_payment : ℕ → AuthorizeRtaTxResponse → ResponseWorld Tx → Status × ResponseWorld Tx
  unfolding check_vote
  check_payment r resp w =
      let checked : Status × ResponseWorld Tx =
        elim (as_text "" (lookup (resp.tx_id ++ context_key_payment_id_by_txid) w.global)) [
          | none ↦ caught w
          | some payment_id ↦ check_vote r resp payment_id w
        ] in
      if not (int_eqb resp.result auth_approved || int_eqb resp.result auth_rejected)
      then failed error_invalid_params w
      else if not (has_key (resp.tx_id ++ context_key_payment_id_by_txid) w.global)
      then failed (error_custom_error ("unknown tx: " ++ resp.tx_id) error_internal_error_code) w
      else checked

  unfoldable pub handle_rta_auth_response_multicast :
      ℕ → String → ResponseWorld Tx → Status × ResponseWorld Tx
  unfolding check_payment
  handle_rta_auth_response_multicast r body w = elim (am.read_multicast body) [
    | none ↦
        failed (error_custom_error ("failed to parse request: " ++ body) error_invalid_request_code)
          w
    | some req ↦ elim (am.read_auth_response req.data_) [
      | none ↦ failed error_invalid_params w
      | some resp ↦ check_payment r resp w
    ]
  ]

  -- The answer to the push has been read.
  push_answered : ℕ → String → ℤ → SendRawTxResponse → ResponseWorld Tx → Reply (ResponseWorld Tx)
  push_answered r payment_id status resp w =
      let answer : ResponseWorld Tx = record w {
        output = send_ok_response_to_cryptonode w.output;
      } in
      if int_eqb status rta_success
        || (int_eqb status rta_fail
            || (int_eqb status rta_rejected_by_pos || int_eqb status rta_rejected_by_wallet))
      then replied Status.ok answer
      else if not (resp.status == "OK") && resp.double_spend
      then replied Status.ok answer
      else replied Status.forward (record w {
        output =
            build_broadcast_sale_status_output c write u.signature r payment_id
              (if not (resp.status == "OK") then rta_fail else rta_success) supernode;
        push_state = some status_broadcast_reply;
      })

  -- The status of the payment has been read.
  push_of_status : ℕ → String → String → ℤ → ResponseWorld Tx → Reply (ResponseWorld Tx)
  unfolding push_answered
  push_of_status r body payment_id status w =
      let answered : Reply (ResponseWorld Tx) = elim (am.read_push_reply body) [
        | none ↦ replied Status.error (record w { output = error_invalid_params w.output })
        | some resp ↦ push_answered r payment_id status resp w
      ] in
      if int_eqb status rta_none
      then replied Status.error (record w { output = error_invalid_params w.output })
      else answered

  push_of_tx : ℕ → String → String → ResponseWorld Tx → Reply (ResponseWorld Tx)
  unfolding push_of_status
  push_of_tx r body tx_id w =
      let found : Reply (ResponseWorld Tx) =
        elim (as_text "" (lookup (tx_id ++ context_key_payment_id_by_txid) w.global)) [
          | none ↦ thrown w
          | some payment_id ↦
              elim (as_int rta_none (lookup (payment_id ++ context_key_status) w.global)) [
                | none ↦ thrown w
                | some status ↦ push_of_status r body payment_id status w
              ]
        ] in
      if tx_id == "" then aborted w else found

  unfoldable pub handle_cryptonode_tx_push_response :
      ℕ → String → ResponseWorld Tx → Reply (ResponseWorld Tx)
  unfolding push_of_tx
  handle_cryptonode_tx_push_response r body w = elim w.payment_id [
    | none ↦ thrown w
    | some _ ↦ elim w.tx_id [ none ↦ thrown w | some tx_id ↦ push_of_tx r body tx_id w ]
  ]

  unfoldable pub handle_status_broadcast_response :
      String → ResponseWorld Tx → Reply (ResponseWorld Tx)
  handle_status_broadcast_response body w = elim w.payment_id [
    | none ↦ thrown w
    | some _ ↦
        if not (is_accepted (am.read_reply body))
        then replied Status.error (record w {
          output =
              error_custom_error "Error broadcasting status" error_internal_error_code w.output;
        })
        else replied Status.ok (record w { output = load (result_body (pos 0)) w.output })
  ]

  -- What the handler does about an exception.
  rescued : Reply (ResponseWorld Tx) → Reply (ResponseWorld Tx)
  rescued (replied s w) = replied s w
  rescued (thrown w) =
      replied Status.error (record w { output = error_internal_error "exception thrown" w.output })
  rescued (aborted w) = aborted w

  step : ℕ → AuthState → String → ResponseWorld Tx → Reply (ResponseWorld Tx)
  unfolding handle_rta_auth_response_multicast handle_cryptonode_tx_push_response
      handle_status_broadcast_response
  step r rta_auth_reply body w =
      let (status, after) =
        handle_rta_auth_response_multicast r body
          (record w { state = some transaction_push_reply }) in
      replied status after
  step r transaction_push_reply body w =
      handle_cryptonode_tx_push_response r body (record w { state = some status_broadcast_reply })
  step r status_broadcast_reply body w = handle_status_broadcast_response body w

  unfoldable pub authorize_rta_tx_response_handler :
      ℕ → String → ResponseWorld Tx → Reply (ResponseWorld Tx)
  unfolding step rescued
  authorize_rta_tx_response_handler r body w = elim w.state [
    | none ↦ rescued (step r rta_auth_reply body w)
    | some state ↦ rescued (step r state body w)
  ]
