-- ===== src/Payments/Examples/Votes.antt =====
-- The theorems on the authorization of transactions at concrete inputs. A transaction is its own
-- text, and the vote that arrives is the rejection by the supernode of the key "b".
use Prim.Native.String.{◌++◌}
use graft_ng.Shared.{
  ◌≡◌, ◌⊎◌, refl, String, true, false, none, some, [], ◌∷◌, pos, string_eq, lookup, int_to_string,
  to_string, arith,
}
use graft_ng.Tasks.Status.{Status}
use graft_ng.Rta.Supernode.{verify_signature}
use graft_ng.Rta.Examples.{toy, node, chop}
use graft_ng.Payments.{
  Global, MulticastRequest, RtaAuthResult, int_value, rta_fail, context_key_status,
  UpdateSaleStatusBroadcast, Output, no_body, replied, text_value, u64_value, tx_value, auth_value,
  transaction_push_reply, status_broadcast_reply, error_internal_error,
}
use graft_ng.Payments.Authorize.{
  AuthorizeRtaTxResponse, Transactions, AuthMessages, Unwritten, add_vote, already_approved,
  already_rejected, validate_auth_response,
}
use graft_ng.Payments.Authorize.Request.{RequestWorld, authorize_rta_tx_request_handler}
use graft_ng.Payments.Authorize.Request.Amounts.{KeepsContext, handler-KeepsContext}
use graft_ng.Payments.Authorize.Response.{
  ResponseWorld, handle_rta_auth_response_multicast, authorize_rta_tx_response_handler,
}
use graft_ng.Payments.Authorize.Response.Outcomes.{Refused, Counted, IsAdded, after_counting}
use graft_ng.Payments.Authorize.Response.Votes.{
  failure_broadcast, Waits, Rejects, Approves, response_effects, forward_needs_votes,
}
use graft_ng.Payments.Authorize.Response.Once.{HasVotesOnce, response-HasVotesOnce}
use graft_ng.Payments.Authorize.Response.Rejections.{only_pushes_are_followed}

abbrev txs : Transactions String toy
txs = record {
  coin = 10;
  parse_hexstr_to_binbuff = λ s. some s;
  parse_and_validate_tx_from_blob = λ s. some (s, s);
  is_rta = λ s. true;
  tx_to_hex = λ s. s;
  blank_tx = "";
}

abbrev vote : AuthorizeRtaTxResponse
vote = record {
  tx_id = "Kt";
  result = pos 1;
  signature = record { id_key = "Kb"; result_signature = "KKt:1b"; tx_signature = "Ktb" };
}

abbrev messages : AuthMessages
messages = record {
  read_multicast = λ body.
      some
        (record { sender_address = ""; receiver_addresses = []; callback_uri = ""; data_ = body });
  read_auth_request = λ s. some (record { tx_hex = s; payment_id = "p"; amount = 700 });
  read_auth_response = λ s. some vote;
  write_auth_response = λ r. r.tx_id;
  read_reply = λ s. none;
  read_push_reply = λ s. some (record { status = s; double_spend = false });
  what = "bad any_cast";
}

abbrev write : UpdateSaleStatusBroadcast → String
write u = u.payment_id

abbrev leftover : Unwritten toy
leftover = record { signature = ""; hash = ""; id_key = "" }

abbrev silent : Output
silent = record { path = ""; body = no_body }

abbrev known_tx : Global String
known_tx =
    ("Kt:tx_id_to_payment_id", text_value "p")
    ∷ ("Kt:tx_id_to_tx", tx_value "t")
    ∷ ("Kt:tx_id_to_amount", u64_value 700)
    ∷ []

abbrev waiting : ResponseWorld String
waiting = record {
  global = known_tx;
  state = none;
  multicast_state = none;
  push_state = none;
  payment_id = none;
  tx_id = none;
  output = silent;
}

handler-KeepsContext_example :
    let w : RequestWorld String = record {
      global = [];
      state = none;
      request = none;
      payment_id = none;
      output = silent;
    } in
    KeepsContext w (authorize_rta_tx_request_handler toy txs messages leftover (node "a") 1 2 "t" w)
handler-KeepsContext_example =
    handler-KeepsContext toy txs messages leftover (node "a") 1 2 "t"
      (record { global = []; state = none; request = none; payment_id = none; output = silent })

abbrev outcome : Status × ResponseWorld String
outcome =
    handle_rta_auth_response_multicast toy txs messages write leftover (node "a") 5 "m" waiting

response_effects_example :
    Refused waiting outcome
    ⊎ ((req : MulticastRequest) × (resp : AuthorizeRtaTxResponse) × (payment_id : String)
        × (votes : RtaAuthResult) × (next : RtaAuthResult) × (messages.read_multicast "m"
            ≡ some req)
        × (messages.read_auth_response req.data_ ≡ some resp)
        × Counted toy leftover resp payment_id votes waiting
        × IsAdded resp votes next
        × (Waits toy txs messages write leftover
              (node "a")
              5
              (after_counting resp payment_id next waiting)
              outcome
            ⊎ Rejects toy txs messages write leftover
                (node "a")
                5
                payment_id
                next
                (after_counting resp payment_id next waiting)
                outcome
            ⊎ Approves toy txs messages write leftover
                (node "a")
                5
                resp.tx_id
                next
                (after_counting resp payment_id next waiting)
                outcome))
response_effects_example = response_effects toy txs messages write leftover (node "a") 5 "m" waiting

vote_forwards :
    (handle_rta_auth_response_multicast toy txs messages write leftover (node "a") 5 "m" waiting).0
    ≡ Status.forward
unfolding handle_rta_auth_response_multicast validate_auth_response chop verify_signature
    int_to_string to_string already_approved already_rejected add_vote
vote_forwards = refl

forward_needs_votes_example :
    (resp : AuthorizeRtaTxResponse) × (payment_id : String) × (votes : RtaAuthResult)
    × (next : RtaAuthResult) × Counted toy leftover resp payment_id votes waiting
    × IsAdded resp votes next
    × (Rejects toy txs messages write leftover
          (node "a")
          5
          payment_id
          next
          (after_counting resp payment_id next waiting)
          outcome
        ⊎ Approves toy txs messages write leftover
            (node "a")
            5
            resp.tx_id
            next
            (after_counting resp payment_id next waiting)
            outcome)
forward_needs_votes_example =
    forward_needs_votes toy txs messages write leftover (node "a") 5 "m" waiting vote_forwards

-- No votes are held yet.
known_tx-HasVotesOnce : HasVotesOnce known_tx
unfolding HasVotesOnce
known_tx-HasVotesOnce k r h = absurd (no_votes_held k r h)
  where
    no_votes_held : (k : String) (r : _) → lookup k known_tx ≡ some (auth_value r) → ⊥
    no_votes_held k r h = ground arith

response-HasVotesOnce_example :
    HasVotesOnce
      (handle_rta_auth_response_multicast toy txs messages write leftover
        (node "a")
        5
        "m"
        waiting).1.global
response-HasVotesOnce_example =
    response-HasVotesOnce toy txs messages write leftover (node "a") 5 "m" waiting
      known_tx-HasVotesOnce

abbrev rejected_world : ResponseWorld String
rejected_world =
    (handle_rta_auth_response_multicast toy txs messages write leftover (node "a") 5 "m"
      (record waiting { state = some transaction_push_reply })).1

first_call :
    authorize_rta_tx_response_handler toy txs messages write leftover (node "a") 5 "m" waiting
    ≡ replied Status.forward rejected_world
unfolding authorize_rta_tx_response_handler validate_auth_response chop verify_signature
    int_to_string to_string already_approved already_rejected add_vote
first_call = refl

only_pushes_are_followed_example :
    (rejected_world.state ≡ some transaction_push_reply)
    × (((tx_id : String) × (rejected_world.tx_id ≡ some tx_id)
          × (rejected_world.output.path ≡ "/sendrawtransaction"))
        ⊎ ((payment_id : String) × (lookup (payment_id ++ context_key_status) rejected_world.global
              ≡ some (int_value rta_fail))
            × (rejected_world.output ≡ failure_broadcast toy write leftover (node "a") 5 payment_id)
            × (authorize_rta_tx_response_handler toy txs messages write leftover
                  (node "a")
                  6
                  "OK"
                  rejected_world
                ≡ replied Status.error (record rejected_world {
                  state = some status_broadcast_reply;
                  output = error_internal_error "exception thrown" rejected_world.output;
                }))))
only_pushes_are_followed_example =
    only_pushes_are_followed toy txs messages write leftover (node "a") 5 6 "m" "OK" waiting
      rejected_world refl refl first_call
