-- ===== src/Payments/Details.antt =====
-- src/supernode/requests/sale_details.cpp: what a wallet learns of a sale. A supernode that does
-- not have the details asks a member of the auth sample, with a unicast to it and a unicast back.
-- The share of the sample is a rounding of doubles, a parameter, and so are the random index
-- and the reading of JSON. The own id of the task is
-- its uuid as text. The last status is set by the task manager, so it is an argument.
pub mod Client
pub mod Member
pub mod Remote
use Prim.Native.String.{◌++◌}
use graft_ng.Shared.{
  ℕ, zero, suc, ◌≡◌, ◌/◌, String, Bool, true, false, not, Option, none, some, List, [], ◌∷◌, map,
  if◌then◌else◌, ℤ, ◌==◌, string_eq, lookup, has_key, length, to_string,
}
use graft_ng.Tasks.Status.{Status}
use graft_ng.Rta.Crypto.{Crypto}
use graft_ng.Rta.Supernode.{Supernode, id_key_as_string}
use graft_ng.Rta.SupernodeList.{Rng, FullSupernodeList}
use graft_ng.Payments.{
  Global, Value, Reply, replied, details_value, sale_value, as_text, SaleData, CryptonodeReply,
  Output, SupernodeFee, SaleDetailsResponse, UnicastRequest, context_key_sale,
  context_key_sale_details, error_payment_id_invalid_code,
}

abbrev pub context_sale_details_result : String
context_sale_details_result = ":sale_details_result"

pub record SaleDetailsRequest : Type 0 where
  pub payment_id : String
  pub block_number : ℕ
  pub callback_uri : String

pub data ClientHandlerState : Type 0 where
  client_request unicast_acknowledge callback_from_auth_sample : ClientHandlerState

pub data UnicastHandlerState : Type 0 where
  remote_request callback_to_client callback_acknowledge : UnicastHandlerState

pub record DetailsMessages (c : Crypto) : Type 0 where
  pub write_request : SaleDetailsRequest → String
  pub read_request : String → Option SaleDetailsRequest
  pub write_response : SaleDetailsResponse → String
  pub read_response : String → Option SaleDetailsResponse
  pub read_unicast : String → Option UnicastRequest
  pub round_fee : ℕ → ℕ

pub record DetailsMessagesLaws {c : Crypto} (dm : DetailsMessages c) : Type 0 where
  pub request_back : (r : SaleDetailsRequest) → dm.read_request (dm.write_request r) ≡ some r
  pub response_back : (r : SaleDetailsResponse) → dm.read_response (dm.write_response r) ≡ some r

-- The global context, the list, what the handlers keep for a task, and the output.
pub record DetailsWorld (Tx : Type 0) (c : Crypto) (g : Rng) : Type 0 where
  pub global : Global Tx
  pub fsl : FullSupernodeList c g
  pub client_state : Option ClientHandlerState
  pub unicast_state : Option UnicastHandlerState
  pub payment_id : Option String
  pub output : Output

-- A body, as the messages that the client's handler may ask for.
pub record DetailsInput : Type 0 where
  pub as_request : Option SaleDetailsRequest
  pub as_reply : Option CryptonodeReply

-- `true` with the response, `false` with the error, or an exception.
pub data Prepared : Type 0 where
  prepared : SaleDetailsResponse → Prepared
  refused : ℤ → String → Prepared
  excepted : Prepared

abbrev pub nth {ℓ} : {A : Type ℓ} → ℕ → List A → Option A
nth n [] = none
nth zero (x ∷ xs) = some x
nth (suc n) (x ∷ xs) = nth n xs

abbrev pub named_in : {c : Crypto} → String → List (Supernode c) → Bool
named_in id [] = false
named_in {c} id (s ∷ ss) = if id_key_as_string c s == id then true else named_in id ss

abbrev pub details_error :
    {Tx : Type 0} {c : Crypto} {g : Rng}
    → (Output → Output)
    → DetailsWorld Tx c g
    → Reply (DetailsWorld Tx c g)
details_error f w = replied Status.error (record w { output = f w.output })

module _ {Tx : Type 0} where
  abbrev pub as_sale : Option (Value Tx) → Option SaleData
  as_sale none = some (record { address = ""; block_number = 0; amount = 0 })
  as_sale (some (sale_value d)) = some d
  as_sale (some _) = none

  abbrev pub as_details : Option (Value Tx) → Option SaleDetailsResponse
  as_details none = some (record { auth_sample = []; details = "" })
  as_details (some (details_value d)) = some d
  as_details (some _) = none

module _ (c : Crypto) where
  -- `operator<<` of src/rta/fullsupernodelist.cpp.
  unfoldable pub show_sample : List (Supernode c) → String
  unfolding id_key_as_string
  show_sample [] = ""
  show_sample (s ∷ []) = id_key_as_string c s
  show_sample (s ∷ t ∷ ss) = id_key_as_string c s ++ (", " ++ show_sample (t ∷ ss))

  abbrev pub fee_of : ℕ → ℕ → Supernode c → SupernodeFee
  fee_of total_fee count member = record {
    address = member.wallet_address;
    id_key = id_key_as_string c member;
    fee = to_string (total_fee / count);
  }

  module _ (dm : DetailsMessages c) where
    response_of : List (Supernode c) → Option String → Option SaleData → Prepared
    response_of sample (some details) (some sale_data) = prepared (record {
      auth_sample = map (fee_of (dm.round_fee sale_data.amount) (length sample)) sample;
      details = details;
    })
    response_of sample none sale_data = excepted
    response_of sample (some details) none = excepted

    unfoldable pub prepare_sale_details_response :
        {Tx : Type 0} → String → Global Tx → List (Supernode c) → Prepared
    unfolding response_of
    prepare_sale_details_response payment_id global sample =
        if not (has_key (payment_id ++ context_key_sale) global)
        then refused error_payment_id_invalid_code ("sale data missing for payment: " ++ payment_id)
        else response_of sample
            (as_text "" (lookup (payment_id ++ context_key_sale_details) global))
            (as_sale (lookup (payment_id ++ context_key_sale) global))
