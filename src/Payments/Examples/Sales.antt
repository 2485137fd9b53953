-- ===== src/Payments/Examples/Sales.antt =====
-- The theorems on sales at concrete inputs.
use Prim.Native.String.{◌++◌}
use graft_ng.Shared.{
  ◌≡◌, ◌⊎◌, refl, String, false, Option, none, some, [], ◌∷◌, ℤ, string_eq, lookup, assign, length,
}
use graft_ng.Tasks.Status.{Status}
use graft_ng.Rta.Examples.{toy, toy-laws, node}
use graft_ng.Rta.ListExamples.{counter, known}
use graft_ng.Rta.SupernodeList.Sample.{build_auth_sample, select_tiers, chosen}
use graft_ng.Rta.SupernodeList.Balance.{balance, balance_tier, make_up, transfer_from}
use graft_ng.Payments.{
  Global, MulticastRequest, UpdateSaleStatusBroadcast, Output, no_body, multicast_body, load,
  delivered_body, status_body, Reply, replied, thrown, int_value, sale_value, text_value, as_int,
  rta_none, rta_waiting, rta_success, rta_in_progress, is_finite_rta_status, context_key_status,
  build_broadcast_sale_status_output,
}
use graft_ng.Payments.Sales.{
  update_sale_status_handler, sale_status_handler, sale_cryptonode_handler,
}
use graft_ng.Payments.Sales.Updates.{
  IsSigned, update_effects, broadcast_reaches_status, broadcast_data,
}
use graft_ng.Payments.Sales.Finality.{
  update_message, sale_message, expiry, IsFinished, handle_messages, IsFinished-stays,
}
use graft_ng.Payments.Sales.Client.{SaleRequest, SaleWorld, SaleInput, sale_client_handler}
use graft_ng.Payments.Sales.Start.{sale_reaches_sample}
use graft_ng.Payments.Examples.Codec.{codec, codec-laws}

abbrev silent : Output
silent = record { path = ""; body = no_body }

-- The payment "p" is in progress at one supernode, and has succeeded at another.
abbrev in_progress : Global String
in_progress =
    ("p:sale", sale_value (record { address = "a"; block_number = 20; amount = 7 }))
    ∷ ("p:status", int_value rta_in_progress)
    ∷ []

abbrev succeeded : Global String
succeeded =
    ("p:sale", sale_value (record { address = "a"; block_number = 20; amount = 7 }))
    ∷ ("p:status", int_value rta_success)
    ∷ []

update_effects_example :
    (update_sale_status_handler toy codec (some "0") (in_progress, silent)
      ≡ thrown (in_progress, silent))
    ⊎ ((st : Status) × (o' : Output) × (update_sale_status_handler toy codec
            (some "0")
            (in_progress, silent)
          ≡ replied st (in_progress, o')))
    ⊎ ((data_ : String) × (u : UpdateSaleStatusBroadcast) × (current : ℤ) × (some "0" ≡ some data_)
        × (codec.read_update data_ ≡ some u)
        × IsSigned toy u
        × (as_int rta_none (lookup (u.payment_id ++ context_key_status) in_progress) ≡ some current)
        × (is_finite_rta_status current ≡ false)
        × (update_sale_status_handler toy codec (some "0") (in_progress, silent)
            ≡ replied Status.ok (
              assign (u.payment_id ++ context_key_status) (int_value u.status) in_progress,
              load (delivered_body "OK") silent,
            )))
update_effects_example = update_effects toy codec (some "0") in_progress silent

-- What the supernode of the key "a" broadcasts.
abbrev data_of : Option String → String
data_of none = ""
data_of (some s) = s

abbrev sent : String
sent = data_of (
    broadcast_data
      (build_broadcast_sale_status_output toy codec.write_update "" 4 "p" rta_success
        (node "a")).body)

broadcast_reaches_status_example :
    (after : Global String) × (update_sale_status_handler toy codec
        (some sent)
        (in_progress, silent)
      ≡ replied Status.ok (after, load (delivered_body "OK") silent))
    × (sale_status_handler (some "p") (after, silent)
        ≡ replied Status.ok (after, load (status_body rta_success) silent))
unfolding build_broadcast_sale_status_output is_finite_rta_status
broadcast_reaches_status_example =
    broadcast_reaches_status toy toy-laws codec codec-laws "" 4 "p" sent rta_success rta_in_progress
      (node "a") in_progress silent silent refl refl refl refl refl (λ e. cc) refl

IsFinished-stays_example : IsFinished "p" rta_success (
    handle_messages toy codec silent
      (update_message (some sent) ∷ expiry "q:status" ∷ sale_message (some "") ∷ [])
      succeeded)
unfolding IsFinished is_finite_rta_status
IsFinished-stays_example =
    IsFinished-stays toy codec silent "p" rta_success
      (update_message (some sent) ∷ expiry "q:status" ∷ sale_message (some "") ∷ []) succeeded refl
      (refl, refl, refl)

abbrev request : SaleRequest
request = record { id_key = "a"; sale_details = "two books"; payment_id = ""; amount = 7 }

abbrev asked : SaleInput
asked = record { as_request = some request; as_reply = none }

abbrev fresh_world : SaleWorld String toy counter
fresh_world = record {
  global = [];
  fsl = known;
  local = record { state = none; sale_data = none; payment_id = none };
  output = silent;
}

abbrev world_of : Reply (SaleWorld String toy counter) → SaleWorld String toy counter
world_of (replied s w) = w
world_of _ = fresh_world

abbrev started : SaleWorld String toy counter
started =
    world_of
      (sale_client_handler toy counter codec "payment" 2000 "" 4 (node "a") asked fresh_world)

started_forwards :
    sale_client_handler toy counter codec "payment" 2000 "" 4 (node "a") asked fresh_world
    ≡ replied Status.forward started
unfolding sale_client_handler build_auth_sample select_tiers chosen balance balance_tier make_up
    transfer_from
started_forwards = refl

sale_reaches_sample_example :
    (m : MulticastRequest) × (after : Global String) × (started.output.body ≡ multicast_body m)
    × (length m.receiver_addresses ≡ 8)
    × (sale_cryptonode_handler toy codec (some m.data_) (in_progress, silent)
        ≡ replied Status.ok (after, load (delivered_body "OK") silent))
    × (lookup "payment:sale" after ≡ lookup "payment:sale" started.global)
    × (lookup "payment:saledetails" after ≡ some (text_value "two books"))
    × (sale_status_handler (some "payment") (after, silent)
        ≡ replied Status.ok (after, load (status_body rta_waiting) silent))
    × (sale_status_handler (some "payment") (started.global, silent)
        ≡ replied Status.ok (started.global, load (status_body rta_waiting) silent))
sale_reaches_sample_example =
    sale_reaches_sample toy counter codec codec-laws "payment" 2000 "" 4 (node "a") asked request
      fresh_world started in_progress silent silent refl refl started_forwards refl (λ e. cc)
