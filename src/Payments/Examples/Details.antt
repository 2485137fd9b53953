-- ===== src/Payments/Examples/Details.antt =====
-- The theorem on details of a sale at concrete inputs: the node "z" asks a member of the sample.
use graft_ng.Shared.{
  ◌≡◌, refl, String, true, false, none, some, List, [], ◌∷◌, ◌==◌, string_eq, lookup, has_key, pos,
  if◌then◌else◌, map, length,
}
use graft_ng.Tasks.Status.{Status}
use graft_ng.Rta.Examples.{toy, node}
use graft_ng.Rta.Supernode.{Supernode, id_key_as_string}
use graft_ng.Rta.ListExamples.{counter, known}
use graft_ng.Rta.SupernodeList.Sample.{build_auth_sample, select_tiers, chosen}
use graft_ng.Rta.SupernodeList.Balance.{balance, balance_tier, make_up, transfer_from}
use graft_ng.Payments.{
  Global, no_body, int_value, sale_value, text_value, details_value, rta_waiting,
  SaleDetailsResponse, details_body, unicast_body, replied,
}
use graft_ng.Payments.Details.{
  DetailsMessages, DetailsWorld, DetailsInput, SaleDetailsRequest, fee_of, prepared,
  prepare_sale_details_response,
}
use graft_ng.Payments.Details.Client.{sale_details_client_handler, sale_details_callback_handler}
use graft_ng.Payments.Details.Member.{sale_details_unicast_handler}
use graft_ng.Payments.Details.Remote.{question, answer, NeedsMember, details_from_member}
use graft_ng.Payments.Examples.Letters.{letters, letters-laws}

abbrev request : SaleDetailsRequest
request = record { payment_id = "payment"; block_number = 100; callback_uri = "" }

abbrev sample : List (Supernode toy)
sample = (build_auth_sample toy counter 100 "payment" 2000 [] known).out

abbrev response : SaleDetailsResponse
response = record {
  auth_sample = map (fee_of toy 800 (length sample)) sample;
  details = "two books";
}

-- The one letter that arrives is the answer of the node "c".
abbrev mail : DetailsMessages toy
mail = letters (λ s.
    if s == "letter"
    then some (answer toy (letters (λ t. none)) "task" (node "z") (node "c") response)
    else none)

abbrev world : Global String → DetailsWorld String toy counter
world global = record {
  global = global;
  fsl = known;
  client_state = none;
  unicast_state = none;
  payment_id = none;
  output = record { path = ""; body = no_body };
}

abbrev asker : DetailsWorld String toy counter
asker = world (("payment:status", int_value rta_waiting) ∷ [])

abbrev member_world : DetailsWorld String toy counter
member_world = world (
    ("payment:status", int_value rta_waiting)
    ∷ ("payment:sale", sale_value (record { address = "a"; block_number = 100; amount = 800 }))
    ∷ ("payment:saledetails", text_value "two books")
    ∷ [])

abbrev asks : DetailsInput
asks = record { as_request = some request; as_reply = none }

abbrev accepts : DetailsInput
accepts = record {
  as_request = none;
  as_reply = some (record { error_code = pos 0; status = pos 0 });
}

needs_member : NeedsMember toy mail counter 2 2000 (node "z") (node "c") request asker
unfolding NeedsMember build_auth_sample select_tiers chosen balance balance_tier make_up
    transfer_from id_key_as_string
needs_member = (refl, (pos 1, refl, refl), refl, refl, refl, refl, refl)

member_built : (build_auth_sample toy counter 100 "payment" 2000 [] known).answer ≡ true
unfolding build_auth_sample select_tiers chosen balance balance_tier make_up transfer_from
member_built = refl

member_tells :
    prepare_sale_details_response toy mail "payment" member_world.global sample ≡ prepared response
unfolding prepare_sale_details_response letters
member_tells = refl

letter_read :
    mail.read_unicast "letter" ≡ some (answer toy mail "task" (node "z") (node "c") response)
unfolding letters
letter_read = refl

details_from_member_example :
    (asking waiting answering woken : DetailsWorld String toy counter) × (kept : Global String)
    × (sale_details_client_handler toy counter mail "task" 2 2000 Status.none (node "z") asks asker
        ≡ replied Status.forward asking)
    × (asking.output.body ≡ unicast_body (question toy mail "task" (node "z") (node "c") request))
    × (sale_details_client_handler toy counter mail "task" 2 2000 Status.forward
          (node "z")
          accepts
          asking
        ≡ replied Status.postpone waiting)
    × (sale_details_unicast_handler toy counter mail 2000
          (node "c")
          (some (question toy mail "task" (node "z") (node "c") request))
          member_world
        ≡ replied Status.forward answering)
    × (answering.output.body ≡ unicast_body (answer toy mail "task" (node "z") (node "c") response))
    × (sale_details_callback_handler toy counter mail
          (λ s. true)
          (some "task")
          "letter"
          (record asker { global = waiting.global })
        ≡ (replied Status.ok (record asker { global = kept }), some "task"))
    × (sale_details_client_handler toy counter mail "task" 2 2000 Status.postpone
          (node "z")
          accepts
          (record waiting { global = kept })
        ≡ replied Status.ok woken)
    × (woken.output.body ≡ details_body response)
    × (lookup "payment:sale_details_result" woken.global ≡ some (details_value response))
    × (has_key "task:sale_details_result" woken.global ≡ false)
details_from_member_example =
    details_from_member toy mail counter "task" "letter" 2 2000 2000 Status.none Status.forward
      (node "z") (node "c") asks accepts accepts request response (λ s. true) asker member_world
      asker (letters-laws _) refl refl needs_member refl refl member_built refl member_tells refl
      letter_read (λ e. cc)
