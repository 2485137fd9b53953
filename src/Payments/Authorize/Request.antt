-- ===== src/Payments/Authorize/Request.antt =====
-- `authorizeRtaTxRequestHandler` of src/supernode/requests/authorize_rta_tx.cpp: a supernode of the
-- auth sample is asked to authorize a transaction. Its functions are `noexcept` and none of what
-- they call here throws, so that they always answer.
pub mod Amounts
use Prim.Native.String.{◌++◌}
use graft_ng.Shared.{
  ℕ, String, Bool, true, false, not, ◌&&◌, Option, none, some, if◌then◌else◌, ltb, pos, lookup,
  assign, has_key, string_eq,
}
use graft_ng.Tasks.Status.{Status}
use graft_ng.Rta.Crypto.{Crypto}
use graft_ng.Rta.Supernode.{Supernode, id_key_as_string}
use graft_ng.Payments.{
  Global, u64_value, text_value, tx_value, MulticastRequest, Output, load, multicast_body,
  result_body, context_key_tx_by_txid, context_key_amount_by_tx_id, context_key_payment_id_by_txid,
  error_custom_error, error_invalid_params, error_invalid_transaction, error_internal_error,
  error_invalid_request_code, error_invalid_params_code, is_accepted,
}
use graft_ng.Payments.Authorize.{
  AuthorizeRtaTxRequest, AuthorizeRtaTxResponse, Transactions, AuthMessages, Unwritten,
  auth_approved, auth_rejected, sign_auth_response,
}

pub data RtaAuthRequestHandlerState : Type 0 where
  client_request client_request_again cryptonode_reply : RtaAuthRequestHandlerState

-- The context of the task, the global context and the output.
pub record RequestWorld (Tx : Type 0) : Type 0 where
  pub global : Global Tx
  pub state : Option RtaAuthRequestHandlerState
  pub request : Option String
  pub payment_id : Option String
  pub output : Output

-- `Supernode::getAmountFromTx`: whether it has succeeded, and the amount that it leaves.
unfoldable pub get_amount_from_tx : {Tx : Type 0} → Tx → ℕ → Bool × ℕ
get_amount_from_tx tx amount = (false, amount)

module _ {Tx : Type 0} where
  abbrev pub answer_error : (Output → Output) → RequestWorld Tx → Status × RequestWorld Tx
  answer_error f w = (Status.error, record w { output = f w.output })

module _ {Tx : Type 0} (c : Crypto) (t : Transactions Tx c) (am : AuthMessages) (u : Unwritten c)
    (supernode : Supernode c) where
  unfoldable pub store_request_and_reply_ok : String → RequestWorld Tx → Status × RequestWorld Tx
  store_request_and_reply_ok body w =
      let stored : RequestWorld Tx = record w { request = some body } in
      elim (am.read_multicast body) [
        | none ↦
            answer_error
              (error_custom_error ("failed to parse request: " ++ body) error_invalid_request_code)
              stored
        | some req ↦ elim (am.read_auth_request req.data_) [
          | none ↦ answer_error error_invalid_params stored
          | some auth_req ↦
              (Status.again, record stored { output = load (result_body (pos 0)) stored.output })
        ]
      ]

  -- With an amount, the result is signed and multicast.
  unfoldable pub multicast_auth_response :
      ℕ
      → ℕ
      → MulticastRequest
      → AuthorizeRtaTxRequest
      → Tx
      → String
      → ℕ
      → RequestWorld Tx
      → RequestWorld Tx
  unfolding id_key_as_string
  multicast_auth_response r1 r2 req auth_req tx tx_id_str amount w =
      let auth_response =
        sign_auth_response c u r1 r2
          (record {
            tx_id = tx_id_str;
            result = if ltb 0 amount && t.is_rta tx then auth_approved else auth_rejected;
            signature = record { id_key = ""; result_signature = ""; tx_signature = "" };
          })
          supernode in
      record w {
        global =
            assign (tx_id_str ++ context_key_payment_id_by_txid) (text_value auth_req.payment_id)
              (assign (tx_id_str ++ context_key_tx_by_txid) (tx_value tx) w.global);
        payment_id = some auth_req.payment_id;
        output = record {
          path = "/json_rpc/rta";
          body = multicast_body (record {
            sender_address = id_key_as_string c supernode;
            receiver_addresses = req.receiver_addresses;
            callback_uri = "/cryptonode/authorize_rta_tx_response";
            data_ = am.write_auth_response auth_response;
          });
        };
      }

  -- The transaction has been parsed.
  unfoldable pub authorize_tx :
      ℕ
      → ℕ
      → MulticastRequest
      → AuthorizeRtaTxRequest
      → Tx
      → String
      → RequestWorld Tx
      → Status × RequestWorld Tx
  unfolding get_amount_from_tx
  authorize_tx r1 r2 req auth_req tx tx_id_str w =
      let noted : RequestWorld Tx = record w {
        global =
            assign (tx_id_str ++ context_key_amount_by_tx_id) (u64_value auth_req.amount) w.global;
      } in
      let (parsed, amount) = get_amount_from_tx tx 0 in
      if has_key (tx_id_str ++ context_key_tx_by_txid) w.global
      then answer_error (error_custom_error "tx already processed" error_invalid_params_code) w
      else if not parsed
      then answer_error
          (error_custom_error "can't parse supernode fee for tx" error_invalid_params_code) noted
      else (Status.forward, multicast_auth_response r1 r2 req auth_req tx tx_id_str amount noted)

  parse_tx :
      ℕ → ℕ → MulticastRequest → AuthorizeRtaTxRequest → RequestWorld Tx → Status × RequestWorld Tx
  unfolding authorize_tx
  parse_tx r1 r2 req auth_req w = elim (t.parse_hexstr_to_binbuff auth_req.tx_hex) [
    | none ↦ answer_error (error_invalid_transaction auth_req.tx_hex) w
    | some tx_blob ↦ elim (t.parse_and_validate_tx_from_blob tx_blob) [
      | none ↦ answer_error (error_invalid_transaction auth_req.tx_hex) w
      | some (tx, tx_hash) ↦ authorize_tx r1 r2 req auth_req tx (c.hash_to_hex tx_hash) w
    ]
  ]

  handle_body : ℕ → ℕ → String → RequestWorld Tx → Status × RequestWorld Tx
  unfolding parse_tx
  handle_body r1 r2 body w = elim (am.read_multicast body) [
    | none ↦
        answer_error
          (error_custom_error ("failed to parse request: " ++ body) error_invalid_request_code) w
    | some req ↦ elim (am.read_auth_request req.data_) [
      | none ↦ answer_error error_invalid_params w
      | some auth_req ↦ parse_tx r1 r2 req auth_req w
    ]
  ]

  -- It works on the body that was stored.
  unfoldable pub handle_tx_auth_request : ℕ → ℕ → RequestWorld Tx → Status × RequestWorld Tx
  unfolding handle_body
  handle_tx_auth_request r1 r2 w = elim w.request [
    | none ↦ (Status.error, w)
    | some body ↦ handle_body r1 r2 body w
  ]

  -- The payment id is read for the log only: without one, an exception goes to the caller.
  unfoldable pub handle_cryptonode_multicast_status :
      String → RequestWorld Tx → Status × RequestWorld Tx
  handle_cryptonode_multicast_status body w =
      if not (is_accepted (am.read_reply body))
      then answer_error (error_internal_error "Error multicasting request") w
      else elim w.payment_id [
        | none ↦ answer_error (error_internal_error "exception thrown") w
        | some payment_id ↦ (Status.ok, record w { output = load (result_body (pos 0)) w.output })
      ]

  step : ℕ → ℕ → RtaAuthRequestHandlerState → String → RequestWorld Tx → Status × RequestWorld Tx
  unfolding store_request_and_reply_ok handle_tx_auth_request handle_cryptonode_multicast_status
  step r1 r2 client_request body w =
      store_request_and_reply_ok body (record w { state = some client_request_again })
  step r1 r2 client_request_again body w =
      handle_tx_auth_request r1 r2 (record w { state = some cryptonode_reply })
  step r1 r2 cryptonode_reply body w = handle_cryptonode_multicast_status body w

  unfoldable pub authorize_rta_tx_request_handler :
      ℕ → ℕ → String → RequestWorld Tx → Status × RequestWorld Tx
  unfolding step
  authorize_rta_tx_request_handler r1 r2 body w = elim w.state [
    | none ↦ step r1 r2 client_request body w
    | some state ↦ step r1 r2 state body w
  ]
