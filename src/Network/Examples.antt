-- ===== src/Network/Examples.antt =====
-- The theorems on announces, stakes and lists at concrete inputs.
use graft_ng.Shared.{◌≡◌, refl, to_string, true, none, some, if◌then◌else◌, ◌==◌, string_eq}
use graft_ng.Tasks.Status.{Status}
use graft_ng.Payments.{Output, no_body, replied}
use graft_ng.Rta.SupernodeList.{FullSupernodeList, get}
use graft_ng.Rta.Examples.{toy, toy-laws, node, signed}
use graft_ng.Rta.ListExamples.{counter, known}
use graft_ng.Network.{NetworkWorld, NetworkMessages, send_announce, send_supernode_announce_handler}
use graft_ng.Network.Announced.{heard, announce_reaches_list}

abbrev blank_output : Output
blank_output = record { path = ""; body = no_body }

-- One text is read as the announce that the node "a" signs.
abbrev reader : NetworkMessages
reader = record {
  read_announce = λ s. if s == "announce" then some signed else none;
  read_stakes = λ s. none;
  read_list = λ s. none;
}

abbrev receiver : NetworkWorld toy counter
receiver = record {
  fsl = some known;
  has_supernode = true;
  cryptonode_rpc_address = some "localhost";
  testnet = some true;
  state = none;
  request = none;
  output = blank_output;
}

announce_reaches_list_example :
    ((send_announce toy 7 900 Status.none (some (node "a")) blank_output).0 ≡ Status.forward)
    × (waiting : NetworkWorld toy counter) × (after : FullSupernodeList toy counter)
    × (send_supernode_announce_handler toy counter reader "announce" 4000 receiver
        ≡ replied Status.again waiting)
    × (send_supernode_announce_handler toy counter reader "announce" 5000 waiting
        ≡ replied Status.ok (record waiting { fsl = some after }))
    × (get toy counter "Ka" after ≡ some (heard toy "a" true 5000 (get toy counter "Ka" known)))
unfolding send_announce to_string
announce_reaches_list_example =
    announce_reaches_list toy toy-laws counter reader 7 900 (node "a") blank_output signed
      "announce" 4000 5000 "localhost" true known receiver "Ka" refl refl refl refl refl refl refl
      refl refl
