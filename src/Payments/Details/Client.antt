-- ===== src/Payments/Details/Client.antt =====
-- `saleDetailsClientHandler`: the request of a wallet, the answer of the cryptonode to the unicast,
-- and the resumption with what the callback has left; and the callback itself.
use Prim.Native.String.{◌++◌}
use graft_ng.Shared.{
  ℕ, String, Bool, true, not, Option, none, some, List, [], if◌then◌else◌, ℤ, ◌==◌, string_eq,
  lookup, assign, erase, has_key, to_string,
}
use graft_ng.Tasks.Status.{Status, status_code, same_status}
use graft_ng.Rta.Crypto.{Crypto}
use graft_ng.Rta.Supernode.{Supernode, id_key_as_string}
use graft_ng.Rta.SupernodeList.{Rng}
use graft_ng.Rta.SupernodeList.Sample.{build_auth_sample}
use graft_ng.Payments.{
  details_value, text_value, as_int, as_text, CryptonodeReply, SaleDetailsResponse, UnicastRequest,
  load, details_body, unicast_body, bare_error_body, Reply, replied, thrown, rta_none,
  context_key_sale_details, context_key_status, error_invalid_params, error_invalid_payment_id,
  error_custom_error, error_internal_error, error_finished_payment, error_internal_error_code,
  is_accepted,
}
use graft_ng.Payments.Details.{
  DetailsMessages, DetailsWorld, DetailsInput, SaleDetailsRequest, ClientHandlerState,
  client_request, unicast_acknowledge, callback_from_auth_sample, Prepared, prepared, refused,
  excepted, context_sale_details_result, prepare_sale_details_response, show_sample, named_in, nth,
  as_details, details_error,
}

module _ {Tx : Type 0} (c : Crypto) (g : Rng) (dm : DetailsMessages c) where
  answer_locally : Prepared → DetailsWorld Tx c g → Reply (DetailsWorld Tx c g)
  answer_locally (prepared sdr) w =
      replied Status.ok (record w { output = load (details_body sdr) w.output })
  answer_locally (refused code message) w =
      replied Status.error (record w { output = load (bare_error_body code message) w.output })
  answer_locally excepted w = thrown w

  -- The unicast to the member of the sample that has been drawn.
  unfoldable pub ask_member :
      String
      → Supernode c
      → SaleDetailsRequest
      → Option (Supernode c)
      → DetailsWorld Tx c g
      → Reply (DetailsWorld Tx c g)
  ask_member task_id supernode in_ none w = thrown (record w { payment_id = some in_.payment_id })
  ask_member task_id supernode in_ (some member) w = replied Status.forward (record w {
    payment_id = some in_.payment_id;
    output = record {
      path = "/json_rpc/rta";
      body = unicast_body (record {
        sender_address = id_key_as_string c supernode;
        receiver_address = id_key_as_string c member;
        callback_uri = "/cryptonode/sale_details/";
        data_ =
            dm.write_request
              (record in_ { callback_uri = "/cryptonode/callback/sale_details/" ++ task_id });
        wait_answer = true;
      });
    };
  })

  -- After the sample has been built.
  unfoldable pub find_details :
      String
      → ℕ
      → Supernode c
      → SaleDetailsRequest
      → List (Supernode c)
      → DetailsWorld Tx c g
      → Reply (DetailsWorld Tx c g)
  unfolding answer_locally ask_member prepare_sale_details_response
  find_details task_id random_index supernode in_ sample w =
      if has_key (in_.payment_id ++ context_key_sale_details) w.global
      then answer_locally (prepare_sale_details_response c dm in_.payment_id w.global sample) w
      else if named_in (id_key_as_string c supernode) sample
      then details_error
          (error_custom_error
            ("Internal error: our supernode is in auth sample but no sale details found for "
              ++ (in_.payment_id ++ (", auth_sample: " ++ show_sample c sample)))
            error_internal_error_code)
          w
      else ask_member task_id supernode in_ (nth random_index sample) w

  answer_cached : Option SaleDetailsResponse → DetailsWorld Tx c g → Reply (DetailsWorld Tx c g)
  answer_cached none w = thrown w
  answer_cached (some sdr) w =
      replied Status.ok (record w { output = load (details_body sdr) w.output })

  unfoldable pub unfinished :
      String
      → ℕ
      → ℕ
      → Supernode c
      → SaleDetailsRequest
      → Option ℤ
      → DetailsWorld Tx c g
      → Reply (DetailsWorld Tx c g)
  unfolding answer_cached find_details
  unfinished task_id random_index now supernode in_ none w = thrown w
  unfinished task_id random_index now supernode in_ (some current_status) w =
      let (finished, o) = error_finished_payment current_status w.output in
      let built = build_auth_sample c g in_.block_number in_.payment_id now [] w.fsl in
      let drawn : DetailsWorld Tx c g = record w { fsl = built.list } in
      if finished
      then replied Status.error (record w { output = o })
      else if has_key (in_.payment_id ++ context_sale_details_result) w.global
      then answer_cached
          (as_details (lookup (in_.payment_id ++ context_sale_details_result) w.global)) w
      else if not built.answer
      then details_error (error_internal_error "Can't build auth sample.") drawn
      else find_details task_id random_index supernode in_ built.out drawn

  unfoldable pub handle_client_request :
      String
      → ℕ
      → ℕ
      → Supernode c
      → Option SaleDetailsRequest
      → DetailsWorld Tx c g
      → Reply (DetailsWorld Tx c g)
  unfolding unfinished
  handle_client_request task_id random_index now supernode none w =
      details_error error_invalid_params w
  handle_client_request task_id random_index now supernode (some in_) w =
      if in_.payment_id == ""
      then details_error error_invalid_payment_id w
      else unfinished task_id random_index now supernode in_
          (as_int rta_none (lookup (in_.payment_id ++ context_key_status) w.global)) w

  unfoldable pub handle_unicast_acknowledge :
      Option CryptonodeReply → DetailsWorld Tx c g → Reply (DetailsWorld Tx c g)
  handle_unicast_acknowledge reply w =
      if not (is_accepted reply)
      then details_error (error_internal_error "Error unicasting request") w
      else replied Status.postpone w

  -- The response is cached under the payment, and what the callback has left is removed.
  unfoldable pub pass_on :
      String
      → String
      → Option SaleDetailsResponse
      → DetailsWorld Tx c g
      → Reply (DetailsWorld Tx c g)
  pass_on task_id payment_id none w = details_error error_invalid_params w
  pass_on task_id payment_id (some sdr) w = replied Status.ok (record w {
    global =
        erase (task_id ++ context_sale_details_result)
          (assign (payment_id ++ context_sale_details_result) (details_value sdr) w.global);
    output = load (details_body sdr) w.output;
  })

  -- `ctx.local["payment_id"]` throws when nothing has been stored.
  unfoldable pub read_callback :
      String
      → Supernode c
      → Option UnicastRequest
      → Option String
      → DetailsWorld Tx c g
      → Reply (DetailsWorld Tx c g)
  unfolding pass_on
  read_callback task_id supernode none payment_id w =
      details_error (error_internal_error "Failed to parse response") w
  read_callback task_id supernode (some u) none w = thrown w
  read_callback task_id supernode (some u) (some payment_id) w =
      if not (u.receiver_address == id_key_as_string c supernode)
      then details_error
          (error_internal_error (
            "wrong receiver id: "
            ++ (u.receiver_address ++ (", expected id: " ++ id_key_as_string c supernode))))
          w
      else pass_on task_id payment_id (dm.read_response u.data_) w

  unfoldable pub find_callback :
      String → Supernode c → Option String → DetailsWorld Tx c g → Reply (DetailsWorld Tx c g)
  unfolding read_callback
  find_callback task_id supernode none w = thrown w
  find_callback task_id supernode (some text) w =
      read_callback task_id supernode (dm.read_unicast text) w.payment_id w

  unfoldable pub handle_sale_details_response :
      String → Status → Supernode c → DetailsWorld Tx c g → Reply (DetailsWorld Tx c g)
  unfolding find_callback
  handle_sale_details_response task_id last supernode w =
      if not (same_status last Status.postpone)
      then details_error
          (error_internal_error
            ("Expected postponed status but status is : " ++ to_string (status_code last)))
          w
      else if not (has_key (task_id ++ context_sale_details_result) w.global)
      then details_error
          (error_internal_error ("no sale details response found for id: " ++ task_id)) w
      else find_callback task_id supernode
          (as_text "" (lookup (task_id ++ context_sale_details_result) w.global)) w

  unfoldable pub client_step :
      String
      → ℕ
      → ℕ
      → Status
      → Supernode c
      → DetailsInput
      → Option ClientHandlerState
      → DetailsWorld Tx c g
      → Reply (DetailsWorld Tx c g)
  unfolding handle_client_request handle_unicast_acknowledge handle_sale_details_response
  client_step task_id random_index now last supernode input none w =
      handle_client_request task_id random_index now supernode input.as_request
        (record w { client_state = some unicast_acknowledge })
  client_step task_id random_index now last supernode input (some client_request) w =
      handle_client_request task_id random_index now supernode input.as_request
        (record w { client_state = some unicast_acknowledge })
  client_step task_id random_index now last supernode input (some unicast_acknowledge) w =
      handle_unicast_acknowledge input.as_reply
        (record w { client_state = some callback_from_auth_sample })
  client_step task_id random_index now last supernode input (some callback_from_auth_sample) w =
      handle_sale_details_response task_id last supernode w

  unfoldable pub sale_details_client_handler :
      String
      → ℕ
      → ℕ
      → Status
      → Supernode c
      → DetailsInput
      → DetailsWorld Tx c g
      → Reply (DetailsWorld Tx c g)
  unfolding client_step
  sale_details_client_handler task_id random_index now last supernode input w =
      client_step task_id random_index now last supernode input w.client_state w

  -- `vars` has the id when the route matched. The reply comes with the id of the task to resume,
  -- if it reads as one; otherwise the generator of uuids throws.
  unfoldable pub sale_details_callback_handler :
      (String → Bool)
      → Option String
      → String
      → DetailsWorld Tx c g
      → Reply (DetailsWorld Tx c g) × Option String
  sale_details_callback_handler is_uuid none body w =
      (details_error (error_internal_error "Can't parse request id from URL") w, none)
  sale_details_callback_handler is_uuid (some id) body w =
      if not (is_uuid id) then (thrown w, none) else (
        replied Status.ok (record w {
          global = assign (id ++ context_sale_details_result) (text_value body) w.global;
        }),
        some id,
      )
