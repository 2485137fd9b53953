-- ===== src/Payments/Sales/Client.antt =====
-- `saleClientHandler` of src/supernode/requests/sale.cpp: the request of a point of sale, which goes
-- to the auth sample first and then as a status to all. The flag of the test net, which the code
-- reads from the global context and does not use, is taken to be there, as the start of the
-- supernode leaves it.
use Prim.Native.String.{◌++◌}
use graft_ng.Shared.{
  ℕ, String, not, ◌||◌, Option, none, some, List, [], map, if◌then◌else◌, nat_eqb, ◌==◌, string_eq,
  lookup, assign, length,
}
use graft_ng.Tasks.Status.{Status}
use graft_ng.Rta.Crypto.{Crypto}
use graft_ng.Rta.Supernode.{Supernode, id_key_as_string}
use graft_ng.Rta.SupernodeList.{
  Rng, FullSupernodeList, auth_sample_size, get_blockchain_based_list_max_block_number,
}
use graft_ng.Rta.SupernodeList.Sample.{build_auth_sample}
use graft_ng.Payments.{
  Global, int_value, text_value, sale_value, as_int, SaleData, CryptonodeReply, Output, load,
  multicast_body, sale_body, Reply, replied, thrown, rta_waiting, context_key_sale,
  context_key_sale_details, context_key_status, error_invalid_params, error_invalid_amount,
  error_custom_error, error_invalid_params_code, error_internal_error_code, is_accepted,
  build_broadcast_sale_status_output,
}
use graft_ng.Payments.Sales.{Messages}

pub record SaleRequest : Type 0 where
  pub id_key : String
  pub sale_details : String
  pub payment_id : String
  pub amount : ℕ

pub data SaleHandlerState : Type 0 where
  client_request sale_multicast_reply sale_status_reply : SaleHandlerState

-- The own context of `saleClientHandler`.
pub record SaleLocal : Type 0 where
  pub state : Option SaleHandlerState
  pub sale_data : Option SaleData
  pub payment_id : Option String

-- A body, as the messages that a handler may ask for.
pub record SaleInput : Type 0 where
  pub as_request : Option SaleRequest
  pub as_reply : Option CryptonodeReply

-- What `saleClientHandler` reads and writes.
pub record SaleWorld (Tx : Type 0) (c : Crypto) (g : Rng) : Type 0 where
  pub global : Global Tx
  pub fsl : FullSupernodeList c g
  pub local : SaleLocal
  pub output : Output

abbrev pub state_or_first : Option SaleHandlerState → SaleHandlerState
state_or_first none = client_request
state_or_first (some s) = s

module _ {Tx : Type 0} (c : Crypto) (g : Rng) (ms : Messages) where
  abbrev sale_error : (Output → Output) → SaleWorld Tx c g → Reply (SaleWorld Tx c g)
  sale_error f w = replied Status.error (record w { output = f w.output })

  -- After the sample has been built: the sale is stored and multicast to the sample.
  unfoldable pub multicast_sale :
      SaleRequest → String → SaleData → List (Supernode c) → SaleWorld Tx c g → SaleWorld Tx c g
  unfolding id_key_as_string
  multicast_sale in_ payment_id data_ sample w = record w {
    global =
        assign (payment_id ++ context_key_status) (int_value rta_waiting)
          (assign (payment_id ++ context_key_sale) (sale_value data_) w.global);
    local = record w.local { sale_data = some data_; payment_id = some payment_id };
    output = record {
      path = "/json_rpc/rta";
      body = multicast_body (record {
        sender_address = "";
        receiver_addresses = map (id_key_as_string c) sample;
        callback_uri = "/cryptonode/sale";
        data_ = ms.write_sale (record {
          sale_data = data_;
          payment_id = payment_id;
          status = rta_waiting;
          details = in_.sale_details;
        });
      });
    };
  }

  -- `generated` is what `generatePaymentID` gives, and `now` the time that `buildAuthSample` reads.
  unfoldable pub handle_client_sale_request :
      String → ℕ → Option SaleRequest → SaleWorld Tx c g → Reply (SaleWorld Tx c g)
  unfolding multicast_sale get_blockchain_based_list_max_block_number
  handle_client_sale_request generated now none w = sale_error error_invalid_params w
  handle_client_sale_request generated now (some in_) w =
      let payment_id = if in_.payment_id == "" then generated else in_.payment_id in
      let data_ : SaleData = record {
        address = in_.id_key;
        block_number = get_blockchain_based_list_max_block_number c g w.fsl;
        amount = in_.amount;
      } in
      let noted : SaleWorld Tx c g = record w {
        global =
            if not (in_.sale_details == "")
            then assign (payment_id ++ context_key_sale_details) (text_value in_.sale_details)
                w.global
            else w.global;
      } in
      let built = build_auth_sample c g data_.block_number payment_id now [] w.fsl in
      let drawn : SaleWorld Tx c g = record noted { fsl = built.list } in
      if nat_eqb in_.amount 0
      then sale_error error_invalid_amount w
      else if not built.answer || not (nat_eqb (length built.out) auth_sample_size)
      then sale_error (error_custom_error "Can't build auth sample." error_invalid_params_code)
          drawn
      else replied Status.forward (multicast_sale in_ payment_id data_ built.out drawn)

  broadcast_status :
      c.Signature → ℕ → Supernode c → Option String → SaleWorld Tx c g → Reply (SaleWorld Tx c g)
  broadcast_status unwritten r supernode none w = thrown w
  broadcast_status unwritten r supernode (some payment_id) w =
      elim (as_int rta_waiting (lookup (payment_id ++ context_key_status) w.global)) [
        | none ↦ thrown w
        | some status ↦ replied Status.forward (record w {
          output =
              build_broadcast_sale_status_output c ms.write_update unwritten r payment_id status
                supernode;
        })
      ]

  unfoldable pub handle_sale_multicast_reply :
      c.Signature
      → ℕ
      → Supernode c
      → Option CryptonodeReply
      → SaleWorld Tx c g
      → Reply (SaleWorld Tx c g)
  unfolding broadcast_status
  handle_sale_multicast_reply unwritten r supernode reply w =
      if not (is_accepted reply)
      then sale_error (error_custom_error "Error multicasting request" error_internal_error_code) w
      else broadcast_status unwritten r supernode w.local.payment_id w

  answer_client : Option SaleData → Option String → SaleWorld Tx c g → Reply (SaleWorld Tx c g)
  answer_client none payment_id w = thrown w
  answer_client (some data_) none w = thrown w
  answer_client (some data_) (some payment_id) w =
      replied Status.ok
        (record w { output = load (sale_body data_.block_number payment_id) w.output })

  unfoldable pub handle_sale_status_broadcast_reply :
      Option CryptonodeReply → SaleWorld Tx c g → Reply (SaleWorld Tx c g)
  unfolding answer_client
  handle_sale_status_broadcast_reply reply w =
      if not (is_accepted reply)
      then sale_error (error_custom_error "Error broadcasting request" error_internal_error_code) w
      else answer_client w.local.sale_data w.local.payment_id w

  abbrev go_to : SaleHandlerState → SaleWorld Tx c g → SaleWorld Tx c g
  go_to s w = record w { local = record w.local { state = some s } }

  sale_client_step :
      String
      → ℕ
      → c.Signature
      → ℕ
      → Supernode c
      → SaleHandlerState
      → SaleInput
      → SaleWorld Tx c g
      → Reply (SaleWorld Tx c g)
  unfolding handle_client_sale_request handle_sale_multicast_reply
      handle_sale_status_broadcast_reply
  sale_client_step generated now unwritten r supernode client_request input w =
      handle_client_sale_request generated now input.as_request (go_to sale_multicast_reply w)
  sale_client_step generated now unwritten r supernode sale_multicast_reply input w =
      handle_sale_multicast_reply unwritten r supernode input.as_reply (go_to sale_status_reply w)
  sale_client_step generated now unwritten r supernode sale_status_reply input w =
      handle_sale_status_broadcast_reply input.as_reply w

  unfoldable pub sale_client_handler :
      String
      → ℕ
      → c.Signature
      → ℕ
      → Supernode c
      → SaleInput
      → SaleWorld Tx c g
      → Reply (SaleWorld Tx c g)
  unfolding sale_client_step
  sale_client_handler generated now unwritten r supernode input w =
      sale_client_step generated now unwritten r supernode (state_or_first w.local.state) input w
