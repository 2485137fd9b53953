-- ===== src/Payments/Sales.antt =====
-- Sales and their status: src/supernode/requests/sale.cpp, sale_status.cpp and pay_status.cpp of the
-- same folder. A body that is not read as the request is `none`; what a handler does to the
-- global context, its own context and the output is its result.
pub mod Client
pub mod Updates
pub mod Finality
pub mod Start
use Prim.Native.String.{◌++◌}
use graft_ng.Shared.{
  ◌≡◌, ℕ, ◌+◌, String, Bool, true, false, not, ◌&&◌, ◌||◌, Option, none, some, List, [], ◌∷◌,
  ◌++◌ as append, map, if◌then◌else◌, nat_eqb, ℤ, pos, int_eqb, int_to_string, ◌==◌, string_eq,
  lookup, assign, has_key, length,
}
use graft_ng.Tasks.Status.{Status}
use graft_ng.Rta.Crypto.{Crypto}
use graft_ng.Rta.Supernode.{Supernode, verify_signature, id_key_as_string}
use graft_ng.Rta.SupernodeList.{
  Rng, FullSupernodeList, auth_sample_size, get_blockchain_based_list_max_block_number,
}
use graft_ng.Rta.SupernodeList.Sample.{build_auth_sample}
use graft_ng.Payments.{
  Global, Value, int_value, text_value, sale_value, as_int, SaleData, MulticastRequest,
  UpdateSaleStatusBroadcast, CryptonodeReply, Output, Body, load, error_body, multicast_body,
  status_body, delivered_body, sale_body, Reply, replied, thrown, rta_none, rta_waiting,
  is_finite_rta_status, context_key_sale, context_key_sale_details, context_key_status,
  error_invalid_params, error_invalid_payment_id, error_invalid_amount, error_custom_error,
  error_invalid_params_code, error_internal_error_code, error_rta_signature_failed_code,
  is_accepted, build_broadcast_sale_status_output, send_ok_response_to_cryptonode,
}

pub record SaleDataMulticast : Type 0 where
  pub sale_data : SaleData
  pub payment_id : String
  pub status : ℤ
  pub details : String

-- How messages are written and read.
pub record Messages : Type 0 where
  pub write_sale : SaleDataMulticast → String
  pub read_sale : String → Option SaleDataMulticast
  pub write_update : UpdateSaleStatusBroadcast → String
  pub read_update : String → Option UpdateSaleStatusBroadcast

-- What is written is read back.
pub record MessagesLaws (ms : Messages) : Type 0 where
  pub sale_back : (s : SaleDataMulticast) → ms.read_sale (ms.write_sale s) ≡ some s
  pub update_back : (u : UpdateSaleStatusBroadcast) → ms.read_update (ms.write_update u) ≡ some u

module _ {Tx : Type 0} where
  -- `saleStatusHandler` and `payStatusHandler` do the same.
  status_found : String → Option ℤ → Global Tx × Output → Reply (Global Tx × Output)
  status_found payment_id none w = thrown w
  status_found payment_id (some current_status) (g, o) =
      if (payment_id == "") || int_eqb current_status (pos 0)
      then replied Status.error (g, error_invalid_payment_id o)
      else replied Status.ok (g, load (status_body current_status) o)

  unfoldable pub sale_status_handler :
      Option String → Global Tx × Output → Reply (Global Tx × Output)
  unfolding status_found
  sale_status_handler none (g, o) = replied Status.error (g, error_invalid_params o)
  sale_status_handler (some payment_id) (g, o) =
      status_found payment_id (as_int rta_none (lookup (payment_id ++ context_key_status) g)) (g, o)

  unfoldable pub pay_status_handler :
      Option String → Global Tx × Output → Reply (Global Tx × Output)
  unfolding sale_status_handler
  pay_status_handler req w = sale_status_handler req w

module _ (c : Crypto) where
  verify_update : String → Option c.PublicKey → Option c.Signature → Bool
  verify_update msg none sign = false
  verify_update msg (some id_key) none = false
  verify_update msg (some id_key) (some sign) = verify_signature c msg id_key sign

  unfoldable pub check_sale_status_update_signature : String → ℤ → String → String → Bool
  unfolding verify_update
  check_sale_status_update_signature payment_id status id_key signature =
      verify_update (payment_id ++ (":" ++ int_to_string status)) (c.hex_to_key id_key)
        (c.hex_to_signature signature)

module _ {Tx : Type 0} (c : Crypto) (ms : Messages) where
  -- The status is written unless the current one is finite. Its life time in the context, of 60
  -- seconds, is left out here, as are those of the keys of a sale.
  store_status :
      UpdateSaleStatusBroadcast → Option ℤ → Global Tx × Output → Reply (Global Tx × Output)
  store_status u none w = thrown w
  store_status u (some current_status) (g, o) = replied Status.ok (
    (if not (is_finite_rta_status current_status)
        then assign (u.payment_id ++ context_key_status) (int_value u.status) g
        else g),
    load (delivered_body "OK") o,
  )

  update_checked :
      Option UpdateSaleStatusBroadcast → Global Tx × Output → Reply (Global Tx × Output)
  unfolding store_status
  update_checked none (g, o) = replied Status.error (g, error_invalid_params o)
  update_checked (some u) (g, o) =
      if not (check_sale_status_update_signature c u.payment_id u.status u.id_key u.signature)
      then replied Status.error (
        g,
        error_custom_error
            ("status update: failed to validate signature for payment: " ++ u.payment_id)
            error_rta_signature_failed_code o,
      )
      else store_status u (as_int rta_none (lookup (u.payment_id ++ context_key_status) g)) (g, o)

  -- The request is the data of the broadcast, if the body is read as one.
  unfoldable pub update_sale_status_handler :
      Option String → Global Tx × Output → Reply (Global Tx × Output)
  unfolding update_checked
  update_sale_status_handler none (g, o) = replied Status.error (g, error_invalid_params o)
  update_sale_status_handler (some data_) w = update_checked (ms.read_update data_) w

  store_sale : Option SaleDataMulticast → Global Tx × Output → Reply (Global Tx × Output)
  store_sale none (g, o) = replied Status.error (g, error_invalid_params o)
  store_sale (some sdm) (g, o) = replied Status.ok (
    (if not (has_key (sdm.payment_id ++ context_key_sale) g)
        then assign (sdm.payment_id ++ context_key_sale_details) (text_value sdm.details) (
            assign (sdm.payment_id ++ context_key_status) (int_value sdm.status)
              (assign (sdm.payment_id ++ context_key_sale) (sale_value sdm.sale_data) g))
        else g),
    load (delivered_body "OK") o,
  )

  unfoldable pub sale_cryptonode_handler :
      Option String → Global Tx × Output → Reply (Global Tx × Output)
  unfolding store_sale
  sale_cryptonode_handler none (g, o) = replied Status.error (g, error_invalid_params o)
  sale_cryptonode_handler (some data_) w = store_sale (ms.read_sale data_) w
