-- ===== src/Messages.antt =====
-- The words of the payments, from include/supernode/requestdefines.h and the headers of the
-- requests: statuses, keys of the global context and what they hold, the messages, and what a
-- handler gives back. A value of another type than a reader asks for makes `std::any_cast` throw:
-- the readers give `none`.
use graft_ng.Shared.{ℕ, String, Bool, Option, none, some, List, ℤ, pos, negsuc, string_eq}
use graft_ng.Tasks.Status.{Status}
use graft_ng.Rta.Supernode.{SupernodeAnnounce}

-- `RTAStatus`, as the integers under which it travels.
abbrev pub rta_none : ℤ
rta_none = pos 0

abbrev pub rta_waiting : ℤ
rta_waiting = pos 1

abbrev pub rta_in_progress : ℤ
rta_in_progress = pos 2

abbrev pub rta_success : ℤ
rta_success = pos 3

abbrev pub rta_fail : ℤ
rta_fail = pos 4

abbrev pub rta_rejected_by_wallet : ℤ
rta_rejected_by_wallet = pos 5

abbrev pub rta_rejected_by_pos : ℤ
rta_rejected_by_pos = pos 6

-- The keys are a payment id or a transaction id, and one of these.
abbrev pub context_key_sale_details : String
context_key_sale_details = ":saledetails"

abbrev pub context_key_sale : String
context_key_sale = ":sale"

abbrev pub context_key_status : String
context_key_status = ":status"

abbrev pub context_key_pay : String
context_key_pay = ":pay"

abbrev pub context_key_auth_result_by_txid : String
context_key_auth_result_by_txid = ":tx_id_to_auth_resp"

abbrev pub context_key_payment_id_by_txid : String
context_key_payment_id_by_txid = ":tx_id_to_payment_id"

abbrev pub context_key_tx_by_txid : String
context_key_tx_by_txid = ":tx_id_to_tx"

abbrev pub context_key_amount_by_tx_id : String
context_key_amount_by_tx_id = ":tx_id_to_amount"

pub record SupernodeSignature : Type 0 where
  pub id_key : String
  pub result_signature : String
  pub tx_signature : String

pub record RtaAuthResult : Type 0 where
  pub approved : List SupernodeSignature
  pub rejected : List SupernodeSignature

pub record SaleData : Type 0 where
  pub address : String
  pub block_number : ℕ
  pub amount : ℕ

pub record SupernodeFee : Type 0 where
  pub address : String
  pub id_key : String
  pub fee : String

pub record SaleDetailsResponse : Type 0 where
  pub auth_sample : List SupernodeFee
  pub details : String

-- `RtaAuthResponseHandlerState`.
pub data AuthState : Type 0 where
  rta_auth_reply transaction_push_reply status_broadcast_reply : AuthState

-- What a `std::any` of the global context holds.
pub data Value (Tx : Type 0) : Type 0 where
  int_value : ℤ → Value Tx
  u64_value : ℕ → Value Tx
  text_value : String → Value Tx
  sale_value : SaleData → Value Tx
  auth_value : RtaAuthResult → Value Tx
  tx_value : Tx → Value Tx
  state_value : AuthState → Value Tx
  details_value : SaleDetailsResponse → Value Tx

abbrev pub Global : Type 0 → Type 0
Global Tx = List (String × Value Tx)

module _ {Tx : Type 0} where
  abbrev pub as_int : ℤ → Option (Value Tx) → Option ℤ
  as_int d none = some d
  as_int d (some (int_value n)) = some n
  as_int d (some _) = none

  abbrev pub as_u64 : ℕ → Option (Value Tx) → Option ℕ
  as_u64 d none = some d
  as_u64 d (some (u64_value n)) = some n
  as_u64 d (some _) = none

  abbrev pub as_text : String → Option (Value Tx) → Option String
  as_text d none = some d
  as_text d (some (text_value s)) = some s
  as_text d (some _) = none

  abbrev pub as_auth : RtaAuthResult → Option (Value Tx) → Option RtaAuthResult
  as_auth d none = some d
  as_auth d (some (auth_value a)) = some a
  as_auth d (some _) = none

  abbrev pub as_tx : Tx → Option (Value Tx) → Option Tx
  as_tx d none = some d
  as_tx d (some (tx_value t)) = some t
  as_tx d (some _) = none

pub record MulticastRequest : Type 0 where
  pub sender_address : String
  pub receiver_addresses : List String
  pub callback_uri : String
  pub data_ : String

pub record UnicastRequest : Type 0 where
  pub sender_address : String
  pub receiver_address : String
  pub callback_uri : String
  pub data_ : String
  pub wait_answer : Bool

pub record BroadcastRequest : Type 0 where
  pub sender_address : String
  pub callback_uri : String
  pub data_ : String

pub record UpdateSaleStatusBroadcast : Type 0 where
  pub payment_id : String
  pub status : ℤ
  pub id_key : String
  pub signature : String

-- The error code and the status of an answer of the cryptonode.
pub record CryptonodeReply : Type 0 where
  pub error_code : ℤ
  pub status : ℤ

-- What `Output::load` is given.
pub data Body : Type 0 where
  error_body : ℤ → String → Body
  bare_error_body : ℤ → String → Body
  multicast_body : MulticastRequest → Body
  broadcast_body : BroadcastRequest → Body
  raw_tx_body : String → Body
  result_body : ℤ → Body
  sale_body : ℕ → String → Body
  status_body : ℤ → Body
  delivered_body : String → Body
  unicast_body : UnicastRequest → Body
  details_body : SaleDetailsResponse → Body
  announce_body : SupernodeAnnounce → Body
  no_body : Body

-- `Output`: the path is empty unless a handler sets it.
pub record Output : Type 0 where
  pub path : String
  pub body : Body

abbrev pub load : Body → Output → Output
load b o = record o { body = b }

-- A handler returns a status with what it has written, an exception leaves it, or it aborts.
pub data Reply (W : Type 0) : Type 0 where
  replied : Status → W → Reply W
  thrown : W → Reply W
  aborted : W → Reply W

abbrev pub error_invalid_params_code : ℤ
error_invalid_params_code = negsuc 32601

abbrev pub error_internal_error_code : ℤ
error_internal_error_code = negsuc 32602

abbrev pub error_invalid_request_code : ℤ
error_invalid_request_code = negsuc 32599

abbrev pub error_amount_invalid_code : ℤ
error_amount_invalid_code = negsuc 32049

abbrev pub error_payment_id_invalid_code : ℤ
error_payment_id_invalid_code = negsuc 32050

abbrev pub error_address_invalid_code : ℤ
error_address_invalid_code = negsuc 32051

abbrev pub error_rta_completed_code : ℤ
error_rta_completed_code = negsuc 32069

abbrev pub error_rta_failed_code : ℤ
error_rta_failed_code = negsuc 32070

abbrev pub error_rta_signature_failed_code : ℤ
error_rta_signature_failed_code = negsuc 32079

abbrev pub error_transaction_invalid_code : ℤ
error_transaction_invalid_code = negsuc 32089
