-- ===== src/Payments.antt =====
-- What the payment requests share: src/supernode/requestdefines.cpp, and the signed broadcast of a
-- status. The global context is a map from keys to values here (Context/Refines.antt relates
-- the table behind it to such a map). Reading and writing JSON, and what is taken from
-- the CryptoNote library, are parameters. The own supernode and the list of supernodes are
-- arguments. The lives of keys, the locks and the log are left out.
pub mod Keys
pub mod Authorize
pub mod Sales
pub mod Details
pub mod Rejections
mod Examples
use Prim.Native.String.{◌++◌}
use graft_ng.Shared.{
  ℕ, String, Bool, true, false, not, ◌&&◌, ◌||◌, Option, none, some, List, [], ◌∷◌, if◌then◌else◌,
  ℤ, pos, negsuc, int_eqb, int_to_string, ◌==◌, string_eq, lookup, assign, erase,
}
use graft_ng.Tasks.Status.{Status}
use graft_ng.Rta.Crypto.{Crypto}
use graft_ng.Rta.Supernode.{Supernode, SupernodeAnnounce, sign_message, id_key_as_string}
pub use graft_ng.Messages.{
  rta_none, rta_waiting, rta_in_progress, rta_success, rta_fail, rta_rejected_by_wallet,
  rta_rejected_by_pos, context_key_sale_details, context_key_sale, context_key_status,
  context_key_pay, context_key_auth_result_by_txid, context_key_payment_id_by_txid,
  context_key_tx_by_txid, context_key_amount_by_tx_id, SupernodeSignature, RtaAuthResult, SaleData,
  SupernodeFee, SaleDetailsResponse, AuthState, rta_auth_reply, transaction_push_reply,
  status_broadcast_reply, Value, int_value, u64_value, text_value, sale_value, auth_value, tx_value,
  state_value, details_value, Global, as_int, as_u64, as_text, as_auth, as_tx, MulticastRequest,
  UnicastRequest, BroadcastRequest, UpdateSaleStatusBroadcast, CryptonodeReply, Body, error_body,
  bare_error_body, multicast_body, broadcast_body, raw_tx_body, result_body, sale_body, status_body,
  delivered_body, unicast_body, details_body, announce_body, no_body, Output, load, Reply, replied,
  thrown, aborted, error_invalid_params_code, error_internal_error_code, error_invalid_request_code,
  error_amount_invalid_code, error_payment_id_invalid_code, error_address_invalid_code,
  error_rta_completed_code, error_rta_failed_code, error_rta_signature_failed_code,
  error_transaction_invalid_code,
}

unfoldable pub is_finite_rta_status : ℤ → Bool
is_finite_rta_status s =
    not (int_eqb s rta_none || (int_eqb s rta_in_progress || int_eqb s rta_waiting))

-- Each of the error helpers writes the output and returns `Status::Error`.
abbrev pub error_invalid_params : Output → Output
error_invalid_params =
    load (error_body error_invalid_params_code "The request parameters are invalid.")

abbrev pub error_invalid_payment_id : Output → Output
error_invalid_payment_id = load (error_body error_payment_id_invalid_code "Payment ID is invalid.")

abbrev pub error_invalid_amount : Output → Output
error_invalid_amount = load (error_body error_amount_invalid_code "Amount is invalid.")

abbrev pub error_invalid_transaction : String → Output → Output
error_invalid_transaction tx_data =
    load
      (error_body error_transaction_invalid_code ("Can't parse transaction" ++ (" : " ++ tx_data)))

abbrev pub error_internal_error : String → Output → Output
error_internal_error message = load (error_body error_internal_error_code message)

abbrev pub error_custom_error : String → ℤ → Output → Output
error_custom_error message code = load (error_body code message)

-- `true` with the output if the payment is finished. The output is the bare error, not the response
-- that holds it.
unfoldable pub error_finished_payment : ℤ → Output → Bool × Output
error_finished_payment status o =
    if int_eqb status rta_waiting || int_eqb status rta_in_progress
    then (false, o)
    else if int_eqb status rta_success
    then (true, load (bare_error_body error_rta_completed_code "Payment is already completed.") o)
    else (true, load (bare_error_body error_rta_failed_code "Payment is already failed.") o)

unfoldable pub clean_pay_sale_data : {Tx : Type 0} → String → Global Tx → Global Tx
clean_pay_sale_data payment_id g =
    erase (payment_id ++ context_key_status)
      (erase (payment_id ++ context_key_sale) (erase (payment_id ++ context_key_pay) g))

abbrev pub send_ok_response_to_cryptonode : Output → Output
send_ok_response_to_cryptonode = load (result_body (pos 0))

-- The answer is read, its error code is 0 and its status is `STATUS_OK`.
abbrev pub is_accepted : Option CryptonodeReply → Bool
is_accepted none = false
is_accepted (some r) = int_eqb r.error_code (pos 0) && int_eqb r.status (pos 0)

module _ (c : Crypto) where
  -- A signature that is read although signing has failed was never written.
  abbrev pub or_unwritten {ℓ} : {A : Type ℓ} → A → Option A → A
  or_unwritten d none = d
  or_unwritten d (some a) = a

  unfoldable pub sign_sale_status_update : c.Signature → ℕ → String → ℤ → Supernode c → String
  sign_sale_status_update unwritten r payment_id status supernode = c.signature_to_hex (
      or_unwritten unwritten
        (sign_message c r (payment_id ++ (":" ++ int_to_string status)) supernode))

  unfoldable pub build_broadcast_sale_status_output :
      (UpdateSaleStatusBroadcast → String) → c.Signature → ℕ → String → ℤ → Supernode c → Output
  unfolding sign_sale_status_update id_key_as_string
  build_broadcast_sale_status_output write unwritten r payment_id status supernode = record {
    path = "/json_rpc/rta";
    body = broadcast_body (record {
      sender_address = "";
      callback_uri = "/cryptonode/update_sale_status";
      data_ = write (record {
        payment_id = payment_id;
        status = status;
        id_key = id_key_as_string c supernode;
        signature = sign_sale_status_update unwritten r payment_id status supernode;
      });
    });
  }
