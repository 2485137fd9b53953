-- ===== src/Payments/Details/Remote.antt =====
-- The details of a sale, from a member of the sample to the wallet that has asked elsewhere.
use Prim.Native.String.{◌++◌}
use graft_ng.Shared.{
  ℕ, ◌≡◌, ◌≢◌, refl, String, Bool, true, false, ◌||◌, none, some, [], ℤ, int_eqb, ◌==◌, string_eq,
  lookup, assign, erase, has_key, ==-refl, Bool-cases, lookup-assign_same, lookup-erase, inl, inr,
}
use graft_ng.Tasks.Status.{Status}
use graft_ng.Rta.Crypto.{Crypto}
use graft_ng.Rta.Supernode.{Supernode, id_key_as_string}
use graft_ng.Rta.SupernodeList.{Rng}
use graft_ng.Rta.SupernodeList.Sample.{build_auth_sample}
use graft_ng.Payments.{
  Global, details_value, text_value, as_int, SaleDetailsResponse, UnicastRequest, Output, load,
  details_body, unicast_body, replied, rta_none, rta_waiting, rta_in_progress,
  context_key_sale_details, context_key_status, error_finished_payment, is_accepted,
}
use graft_ng.Payments.Keys.{same_suffix}
use graft_ng.Payments.Details.{
  DetailsMessages, DetailsMessagesLaws, DetailsWorld, DetailsInput, SaleDetailsRequest,
  unicast_acknowledge, callback_from_auth_sample, callback_to_client, prepared,
  context_sale_details_result, prepare_sale_details_response, named_in, nth,
}
use graft_ng.Payments.Details.Client.{
  sale_details_client_handler, client_step, handle_client_request, unfinished, find_details,
  ask_member, handle_unicast_acknowledge, handle_sale_details_response, find_callback,
  read_callback, pass_on, sale_details_callback_handler,
}
use graft_ng.Payments.Details.Member.{
  sale_details_unicast_handler, unicast_step, handle_sale_details_unicast_request, look_up_details,
  answer_remote,
}

not_finished :
    (st : ℤ) (o : Output)
    → (int_eqb st rta_waiting || int_eqb st rta_in_progress) ≡ true
    → error_finished_payment st o ≡ (false, o)
unfolding error_finished_payment
not_finished st o h = rw h refl

module _ (c : Crypto) (dm : DetailsMessages c) where
  -- What a supernode sends to ask a member of the sample, and what the member sends back.
  abbrev pub question : String → Supernode c → Supernode c → SaleDetailsRequest → UnicastRequest
  question task_id supernode member in_ = record {
    sender_address = id_key_as_string c supernode;
    receiver_address = id_key_as_string c member;
    callback_uri = "/cryptonode/sale_details/";
    data_ =
        dm.write_request
          (record in_ { callback_uri = "/cryptonode/callback/sale_details/" ++ task_id });
    wait_answer = true;
  }

  abbrev pub answer : String → Supernode c → Supernode c → SaleDetailsResponse → UnicastRequest
  answer task_id supernode member resp = record {
    sender_address = id_key_as_string c member;
    receiver_address = id_key_as_string c supernode;
    callback_uri = "/cryptonode/callback/sale_details/" ++ task_id;
    data_ = dm.write_response resp;
    wait_answer = true;
  }

  module _ {Tx : Type 0} (g : Rng) where
    -- A payment that waits or is in progress, of which the supernode has no details; its sample
    -- can be built, does not name the supernode, and has a member at the index that is drawn.
    unfoldable pub NeedsMember :
        ℕ → ℕ → Supernode c → Supernode c → SaleDetailsRequest → DetailsWorld Tx c g → Type 0
    NeedsMember random_index now supernode member in_ w =
        ((in_.payment_id == "") ≡ false)
        × ((st : ℤ) × (as_int rta_none (lookup (in_.payment_id ++ context_key_status) w.global)
              ≡ some st)
            × ((int_eqb st rta_waiting || int_eqb st rta_in_progress) ≡ true))
        × (has_key (in_.payment_id ++ context_sale_details_result) w.global ≡ false)
        × (has_key (in_.payment_id ++ context_key_sale_details) w.global ≡ false)
        × ((build_auth_sample c g in_.block_number in_.payment_id now [] w.fsl).answer ≡ true)
        × (named_in (id_key_as_string c supernode)
              (build_auth_sample c g in_.block_number in_.payment_id now [] w.fsl).out
            ≡ false)
        × (nth random_index (build_auth_sample c g in_.block_number in_.payment_id now [] w.fsl).out
            ≡ some member)

    -- The world after the question has been sent.
    asked :
        String
        → ℕ
        → Supernode c
        → Supernode c
        → SaleDetailsRequest
        → DetailsWorld Tx c g
        → DetailsWorld Tx c g
    asked task_id now supernode member in_ w = record w {
      fsl = (build_auth_sample c g in_.block_number in_.payment_id now [] w.fsl).list;
      client_state = some unicast_acknowledge;
      payment_id = some in_.payment_id;
      output = record {
        path = "/json_rpc/rta";
        body = unicast_body (question task_id supernode member in_);
      };
    }

    question_sent :
        (task_id : String) (random_index now : ℕ) (last : Status) (supernode member : Supernode c)
        (input : DetailsInput) (in_ : SaleDetailsRequest) (w : DetailsWorld Tx c g)
        → w.client_state ≡ none
        → input.as_request ≡ some in_
        → NeedsMember random_index now supernode member in_ w
        → sale_details_client_handler c g dm task_id random_index now last supernode input w
          ≡ replied Status.forward (asked task_id now supernode member in_ w)
    unfolding sale_details_client_handler NeedsMember asked
    question_sent task_id random_index now last supernode member input in_ w first request
          (named, (st, status, open_), fresh, remote, built, other, drawn) =
        rw
          (
            first,
            client_step,
            request,
            handle_client_request,
            named,
            status,
            unfinished,
            not_finished st w.output open_,
            fresh,
            built,
            find_details,
            remote,
            other,
            drawn,
            ask_member,
          )
          refl

    question_answered :
        (task_id : String) (now : ℕ) (supernode member : Supernode c) (in_ : SaleDetailsRequest)
        (resp : SaleDetailsResponse) (w : DetailsWorld Tx c g)
        → DetailsMessagesLaws dm
        → w.unicast_state ≡ none
        → (build_auth_sample c g in_.block_number in_.payment_id now [] w.fsl).answer ≡ true
        → has_key (in_.payment_id ++ context_key_sale_details) w.global ≡ true
        → prepare_sale_details_response c dm in_.payment_id w.global
            (build_auth_sample c g in_.block_number in_.payment_id now [] w.fsl).out
          ≡ prepared resp
        → sale_details_unicast_handler c g dm now member
            (some (question task_id supernode member in_))
            w
          ≡ replied Status.forward (record w {
            fsl = (build_auth_sample c g in_.block_number in_.payment_id now [] w.fsl).list;
            unicast_state = some callback_to_client;
            output = record {
              path = "/json_rpc/rta";
              body = unicast_body (answer task_id supernode member resp);
            };
          })
    unfolding sale_details_unicast_handler
    question_answered task_id now supernode member in_ resp w dl first built known told =
        rw
          (
            first,
            unicast_step,
            handle_sale_details_unicast_request,
            ==-refl (id_key_as_string c member),
            dl.request_back,
            look_up_details,
            built,
            known,
            told,
            answer_remote,
          )
          refl

    answer_passed_on :
        (task_id text payment_id : String) (random_index now : ℕ) (supernode member : Supernode c)
        (input : DetailsInput) (resp : SaleDetailsResponse) (w : DetailsWorld Tx c g)
        → DetailsMessagesLaws dm
        → dm.read_unicast text ≡ some (answer task_id supernode member resp)
        → w.client_state ≡ some callback_from_auth_sample
        → w.payment_id ≡ some payment_id
        → lookup (task_id ++ context_sale_details_result) w.global ≡ some (text_value text)
        → sale_details_client_handler c g dm task_id random_index now Status.postpone supernode
            input w
          ≡ replied Status.ok (record w {
            global =
                erase (task_id ++ context_sale_details_result) (
                  assign (payment_id ++ context_sale_details_result) (details_value resp) w.global);
            output = load (details_body resp) w.output;
          })
    unfolding sale_details_client_handler
    answer_passed_on task_id text payment_id random_index now supernode member input resp w dl read
          waits stored there =
        rw
          (
            waits,
            client_step,
            handle_sale_details_response,
            there,
            find_callback,
            read,
            stored,
            read_callback,
            ==-refl (id_key_as_string c supernode),
            dl.response_back,
            pass_on,
          )
          refl

    -- What is left of a result that has been passed on from the entry of a task to the cache.
    passed_on :
        (task_id payment_id : String) (resp : SaleDetailsResponse) (m : Global Tx)
        → task_id ≢ payment_id
        → (lookup (payment_id ++ context_sale_details_result) (
              erase
                (task_id ++ context_sale_details_result)
                (assign (payment_id ++ context_sale_details_result) (details_value resp) m))
            ≡ some (details_value resp))
          × (has_key (task_id ++ context_sale_details_result) (
                erase
                  (task_id ++ context_sale_details_result)
                  (assign (payment_id ++ context_sale_details_result) (details_value resp) m))
              ≡ false)
    passed_on task_id payment_id resp m apart =
        let own = task_id ++ context_sale_details_result in
        let cached = payment_id ++ context_sale_details_result in
        let stored = assign cached (details_value resp) m in
        elim (Bool-cases (own == cached)) [
          | inl same ↦
              absurd (apart (same_suffix task_id payment_id context_sale_details_result same))
          | inr differ ↦ (
            rw (lookup-erase own cached stored, differ) (lookup-assign_same cached _ m),
            rw (lookup-erase own own stored, ==-refl own) refl,
          )
        ]

    -- A supernode that needs a member of the sample for the details of a payment asks one with a
    -- unicast, and waits when the cryptonode has accepted it. The member, when it has the details
    -- and can make a response, sends it back to the asker under the id of the task. What arrives
    -- there is kept for the task, which is resumed: it answers the wallet with the response of the
    -- member, keeps it for later requests and drops what was kept for the task, whose id is not
    -- the payment's.
    pub details_from_member :
        (task_id text : String) (random_index now later : ℕ) (last before : Status)
        (supernode member : Supernode c) (input ack wake : DetailsInput) (in_ : SaleDetailsRequest)
        (resp : SaleDetailsResponse) (is_uuid : String → Bool) (w wm other : DetailsWorld Tx c g)
        → DetailsMessagesLaws dm
        → w.client_state ≡ none
        → input.as_request ≡ some in_
        → NeedsMember random_index now supernode member in_ w
        → is_accepted ack.as_reply ≡ true
        → wm.unicast_state ≡ none
        → (build_auth_sample c g in_.block_number in_.payment_id later [] wm.fsl).answer ≡ true
        → has_key (in_.payment_id ++ context_key_sale_details) wm.global ≡ true
        → prepare_sale_details_response c dm in_.payment_id wm.global
            (build_auth_sample c g in_.block_number in_.payment_id later [] wm.fsl).out
          ≡ prepared resp
        → is_uuid task_id ≡ true
        → dm.read_unicast text ≡ some (answer task_id supernode member resp)
        → task_id ≢ in_.payment_id
        → (asking waiting answering woken : DetailsWorld Tx c g) × (kept : Global Tx)
          × (sale_details_client_handler c g dm task_id random_index now last supernode input w
              ≡ replied Status.forward asking)
          × (asking.output.body ≡ unicast_body (question task_id supernode member in_))
          × (sale_details_client_handler c g dm task_id random_index now before supernode ack asking
              ≡ replied Status.postpone waiting)
          × (sale_details_unicast_handler c g dm later member
                (some (question task_id supernode member in_))
                wm
              ≡ replied Status.forward answering)
          × (answering.output.body ≡ unicast_body (answer task_id supernode member resp))
          × (sale_details_callback_handler c g dm is_uuid
                (some task_id)
                text
                (record other { global = waiting.global })
              ≡ (replied Status.ok (record other { global = kept }), some task_id))
          × (sale_details_client_handler c g dm task_id random_index now Status.postpone supernode
                wake
                (record waiting { global = kept })
              ≡ replied Status.ok woken)
          × (woken.output.body ≡ details_body resp)
          × (lookup (in_.payment_id ++ context_sale_details_result) woken.global
              ≡ some (details_value resp))
          × (has_key (task_id ++ context_sale_details_result) woken.global ≡ false)
    unfolding sale_details_client_handler client_step handle_unicast_acknowledge asked
        sale_details_callback_handler
    details_from_member task_id text random_index now later last before supernode member input ack
          wake in_ resp is_uuid w wm other dl first request needs accepted idle built known told
          uuid read apart =
        let asking = asked task_id now supernode member in_ w in
        let waiting : DetailsWorld Tx c g = record asking {
          client_state = some callback_from_auth_sample;
        } in
        let kept = assign (task_id ++ context_sale_details_result) (text_value text) w.global in
        let (cached, dropped) = passed_on task_id in_.payment_id resp kept apart in
        (
          asking,
          waiting,
          _,
          _,
          kept,
          question_sent task_id random_index now last supernode member input in_ w first request
              needs,
          refl,
          rw accepted refl,
          question_answered task_id later supernode member in_ resp wm dl idle built known told,
          refl,
          rw uuid refl,
          answer_passed_on task_id text in_.payment_id random_index now supernode member wake resp
              (record waiting { global = kept }) dl read refl refl
              (lookup-assign_same (task_id ++ context_sale_details_result) (text_value text)
                w.global),
          refl,
          cached,
          dropped,
        )
