-- ===== src/Payments/Details/Member.antt =====
-- `saleDetailsUnicastHandler`: the request of another supernode, at a member of the sample.
use Prim.Native.String.{◌++◌}
use graft_ng.Shared.{ℕ, true, not, Option, none, some, [], if◌then◌else◌, ◌==◌, string_eq, has_key}
use graft_ng.Tasks.Status.{Status}
use graft_ng.Rta.Crypto.{Crypto}
use graft_ng.Rta.Supernode.{Supernode, id_key_as_string}
use graft_ng.Rta.SupernodeList.{Rng}
use graft_ng.Rta.SupernodeList.Sample.{build_auth_sample}
use graft_ng.Payments.{
  UnicastRequest, unicast_body, Reply, replied, thrown, context_key_sale_details,
  send_ok_response_to_cryptonode,
}
use graft_ng.Payments.Details.{
  DetailsMessages, DetailsWorld, SaleDetailsRequest, UnicastHandlerState, remote_request,
  callback_to_client, callback_acknowledge, Prepared, prepared, refused, excepted,
  prepare_sale_details_response,
}

module _ {Tx : Type 0} (c : Crypto) (g : Rng) (dm : DetailsMessages c) where
  -- The cryptonode is answered the same whatever goes wrong.
  abbrev said_ok : DetailsWorld Tx c g → Reply (DetailsWorld Tx c g)
  said_ok w = replied Status.ok (record w { output = send_ok_response_to_cryptonode w.output })

  unfoldable pub answer_remote :
      Supernode c
      → UnicastRequest
      → SaleDetailsRequest
      → Prepared
      → DetailsWorld Tx c g
      → Reply (DetailsWorld Tx c g)
  answer_remote supernode u sdr (refused code message) w = said_ok w
  answer_remote supernode u sdr excepted w = thrown w
  answer_remote supernode u sdr (prepared resp) w = replied Status.forward (record w {
    output = record {
      path = "/json_rpc/rta";
      body = unicast_body (record {
        sender_address = id_key_as_string c supernode;
        receiver_address = u.sender_address;
        callback_uri = sdr.callback_uri;
        data_ = dm.write_response resp;
        wait_answer = true;
      });
    };
  })

  unfoldable pub look_up_details :
      ℕ
      → Supernode c
      → UnicastRequest
      → Option SaleDetailsRequest
      → DetailsWorld Tx c g
      → Reply (DetailsWorld Tx c g)
  unfolding answer_remote prepare_sale_details_response
  look_up_details now supernode u none w = said_ok w
  look_up_details now supernode u (some sdr) w =
      let built = build_auth_sample c g sdr.block_number sdr.payment_id now [] w.fsl in
      let drawn : DetailsWorld Tx c g = record w { fsl = built.list } in
      if not built.answer
      then said_ok drawn
      else if has_key (sdr.payment_id ++ context_key_sale_details) w.global
      then answer_remote supernode u sdr
          (prepare_sale_details_response c dm sdr.payment_id w.global built.out) drawn
      else said_ok drawn

  unfoldable pub handle_sale_details_unicast_request :
      ℕ → Supernode c → Option UnicastRequest → DetailsWorld Tx c g → Reply (DetailsWorld Tx c g)
  unfolding look_up_details
  handle_sale_details_unicast_request now supernode none w = said_ok w
  handle_sale_details_unicast_request now supernode (some u) w =
      if not (u.receiver_address == id_key_as_string c supernode)
      then said_ok w
      else look_up_details now supernode u (dm.read_request u.data_) w

  unfoldable pub unicast_step :
      ℕ
      → Supernode c
      → Option UnicastRequest
      → Option UnicastHandlerState
      → DetailsWorld Tx c g
      → Reply (DetailsWorld Tx c g)
  unfolding handle_sale_details_unicast_request
  unicast_step now supernode u none w =
      handle_sale_details_unicast_request now supernode u
        (record w { unicast_state = some callback_to_client })
  unicast_step now supernode u (some remote_request) w =
      handle_sale_details_unicast_request now supernode u
        (record w { unicast_state = some callback_to_client })
  unicast_step now supernode u (some callback_to_client) w =
      said_ok (record w { unicast_state = some callback_acknowledge })
  unicast_step now supernode u (some callback_acknowledge) w =
      said_ok (record w { unicast_state = some callback_acknowledge })

  unfoldable pub sale_details_unicast_handler :
      ℕ → Supernode c → Option UnicastRequest → DetailsWorld Tx c g → Reply (DetailsWorld Tx c g)
  unfolding unicast_step
  sale_details_unicast_handler now supernode u w = unicast_step now supernode u w.unicast_state w
