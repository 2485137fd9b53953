-- ===== src/Network.antt =====
-- What the cryptonode passes on about the other supernodes: announces
-- (src/supernode/requests/send_supernode_announce.cpp), stakes (send_supernode_stakes.cpp) and the
-- blockchain based list (blockchain_based_list.cpp). The list of supernodes is an object that the
-- context points to; a handler that finds none gives an error. Of the own supernode the receivers
-- ask only whether it is there. `busy` and `refresh` of src/rta/supernode.cpp are constants there.
-- The address of the cryptonode and the flag of the test net are read from the context with
-- operator[], which throws when they are missing. Reading JSON is a parameter.
pub mod Announced
mod Examples
use Prim.Native.String.{◌++◌}
use graft_ng.Shared.{
  ℕ, String, Bool, true, false, not, Option, none, some, List, map, if◌then◌else◌, pos, string_eq,
  assign,
}
use graft_ng.Tasks.Status.{Status}
use graft_ng.Rta.Crypto.{Crypto}
use graft_ng.Rta.Supernode.{
  Supernode, SupernodeAnnounce, SupernodeStake, id_key_as_string, set_last_update_time,
  prepare_announce, update_from_announce, create_from_announce,
}
use graft_ng.Rta.SupernodeList.{
  Rng, FullSupernodeList, BlockchainBasedListEntry, add, get, update_stakes,
  set_blockchain_based_list,
}
use graft_ng.Payments.{
  Output, Reply, replied, thrown, load, announce_body, status_body, error_custom_error,
  error_internal_error_code, send_ok_response_to_cryptonode,
}

-- `request::SupernodeStake` and `SupernodeStakes`.
pub record StakeMessage : Type 0 where
  pub amount : ℕ
  pub tier : ℕ
  pub block_height : ℕ
  pub unlock_time : ℕ
  pub supernode_public_id : String
  pub supernode_public_address : String

pub record SupernodeStakes : Type 0 where
  pub block_height : ℕ
  pub stakes : List StakeMessage

-- `BlockchainBasedListTierEntry`, `BlockchainBasedListTier` and `request::BlockchainBasedList`.
pub record TierEntryMessage : Type 0 where
  pub supernode_public_id : String
  pub supernode_public_address : String
  pub amount : ℕ

pub record ListMessage : Type 0 where
  pub block_height : ℕ
  pub tiers : List (List TierEntryMessage)

pub record NetworkMessages : Type 0 where
  pub read_announce : String → Option SupernodeAnnounce
  pub read_stakes : String → Option SupernodeStakes
  pub read_list : String → Option ListMessage

pub data AnnounceState : Type 0 where
  incoming_request handle_announce : AnnounceState

-- The context of a receiver, the local one of the task, and the output.
pub record NetworkWorld (c : Crypto) (g : Rng) : Type 0 where
  pub fsl : Option (FullSupernodeList c g)
  pub has_supernode : Bool
  pub cryptonode_rpc_address : Option String
  pub testnet : Option Bool
  pub state : Option AnnounceState
  pub request : Option String
  pub output : Output

module _ (c : Crypto) where
  -- `busy` and `refresh`.
  unfoldable pub busy : Supernode c → Bool
  busy s = false

  unfoldable pub refresh : Supernode c → Bool
  refresh s = true

  abbrev pub blank_announce : SupernodeAnnounce
  blank_announce = record {
    supernode_public_id = "";
    height = 0;
    signature = "";
    network_address = "";
  }

  -- The own supernode is changed also where the announce cannot be prepared.
  unfoldable pub start_announce : ℕ → ℕ → Supernode c → Output → Status × Supernode c × Output
  unfolding refresh set_last_update_time prepare_announce id_key_as_string
  start_announce r now s o =
      if not (refresh s)
      then (
        Status.error,
        s,
        error_custom_error ("failed to refresh supernode: " ++ id_key_as_string c s)
            error_internal_error_code o,
      )
      else (let timed = set_last_update_time c now s in
          let (announce, prepared) = prepare_announce c r blank_announce timed in
          if not prepared
          then (
            Status.error,
            timed,
            error_custom_error ("failed to prepare announce: " ++ id_key_as_string c timed)
                error_internal_error_code o,
          )
          else (
            Status.forward,
            timed,
            record { path = "/json_rpc/rta"; body = announce_body announce },
          ))

  -- `sendAnnounce`, by the last status of the task.
  unfoldable pub send_announce :
      ℕ → ℕ → Status → Option (Supernode c) → Output → Status × Option (Supernode c) × Output
  unfolding start_announce
  send_announce r now Status.forward s o = (Status.ok, s, send_ok_response_to_cryptonode o)
  send_announce r now Status.ok (some s) o =
      let (status, s', o') = start_announce r now s o in (status, some s', o')
  send_announce r now Status.none (some s) o =
      let (status, s', o') = start_announce r now s o in (status, some s', o')
  send_announce r now Status.ok none o = (Status.error, none, o)
  send_announce r now Status.none none o = (Status.error, none, o)
  send_announce r now Status.error s o = (Status.ok, s, o)
  send_announce r now Status.again s o = (Status.ok, s, o)
  send_announce r now Status.drop s o = (Status.ok, s, o)
  send_announce r now Status.busy s o = (Status.ok, s, o)
  send_announce r now Status.internal_error s o = (Status.ok, s, o)
  send_announce r now Status.postpone s o = (Status.ok, s, o)
  send_announce r now Status.stop s o = (Status.ok, s, o)

module _ (c : Crypto) (g : Rng) (nm : NetworkMessages) where
  -- The supernode in the list is the object itself: what changes it changes the list.
  unfoldable pub update_known :
      SupernodeAnnounce
      → ℕ
      → Supernode c
      → FullSupernodeList c g
      → NetworkWorld c g
      → Reply (NetworkWorld c g)
  unfolding busy update_from_announce
  update_known a now sn l w =
      if busy c sn
      then replied Status.error w
      else (let (updated, accepted) = update_from_announce c a now sn in
          if not accepted
          then replied Status.error w
          else replied Status.ok (record w {
            fsl = some (record l { list = assign a.supernode_public_id updated l.list });
          }))

  unfoldable pub add_unknown :
      SupernodeAnnounce
      → ℕ
      → Option String
      → Option Bool
      → FullSupernodeList c g
      → NetworkWorld c g
      → Reply (NetworkWorld c g)
  unfolding create_from_announce add
  add_unknown a now (some address) (some testnet) l w =
      elim (create_from_announce c a testnet now) [
        | none ↦ replied Status.error w
        | some s ↦ replied Status.ok (record w { fsl = some (add c g s l).0 })
      ]
  add_unknown a now none testnet l w = thrown w
  add_unknown a now (some address) none l w = thrown w

  unfoldable pub receive_announce :
      Option SupernodeAnnounce
      → ℕ
      → FullSupernodeList c g
      → NetworkWorld c g
      → Reply (NetworkWorld c g)
  unfolding get update_known add_unknown
  receive_announce none now l w = replied Status.error w
  receive_announce (some a) now l w = elim (get c g a.supernode_public_id l) [
    | none ↦ add_unknown a now w.cryptonode_rpc_address w.testnet l w
    | some sn ↦ update_known a now sn l w
  ]

  unfoldable pub handle_supernode_announce :
      String → ℕ → NetworkWorld c g → Reply (NetworkWorld c g)
  unfolding receive_announce
  handle_supernode_announce input now w = elim w.fsl [
    | none ↦ replied Status.error w
    | some l ↦
        if not w.has_supernode
        then replied Status.error w
        else receive_announce (nm.read_announce input) now l w
  ]

  -- The template of include/supernode/requestdefines.h.
  unfoldable pub store_request_and_reply : String → NetworkWorld c g → Reply (NetworkWorld c g)
  store_request_and_reply input w =
      replied Status.again
        (record w { request = some input; output = load (status_body (pos 0)) w.output })

  unfoldable pub send_supernode_announce_handler :
      String → ℕ → NetworkWorld c g → Reply (NetworkWorld c g)
  unfolding store_request_and_reply handle_supernode_announce
  send_supernode_announce_handler input now w = elim w.state [
    | none ↦ store_request_and_reply input (record w { state = some handle_announce })
    | some incoming_request ↦
        store_request_and_reply input (record w { state = some handle_announce })
    | some handle_announce ↦ handle_supernode_announce input now w
  ]

  abbrev pub copy_stake : StakeMessage → SupernodeStake
  copy_stake m = record {
    amount = m.amount;
    block_height = m.block_height;
    unlock_time = m.unlock_time;
    supernode_public_id = m.supernode_public_id;
    supernode_public_address = m.supernode_public_address;
  }

  receive_stakes :
      SupernodeStakes
      → ℕ
      → Option String
      → Option Bool
      → FullSupernodeList c g
      → NetworkWorld c g
      → Reply (NetworkWorld c g)
  unfolding update_stakes
  receive_stakes m now (some address) (some testnet) l w = replied Status.ok (record w {
    fsl = some (update_stakes c g m.block_height (map copy_stake m.stakes) testnet now l);
  })
  receive_stakes m now none testnet l w = thrown w
  receive_stakes m now (some address) none l w = thrown w

  unfoldable pub supernode_stakes_handler : String → ℕ → NetworkWorld c g → Reply (NetworkWorld c g)
  unfolding receive_stakes
  supernode_stakes_handler input now w = elim w.fsl [
    | none ↦ replied Status.error w
    | some l ↦ if not w.has_supernode then replied Status.error w else elim (nm.read_stakes input) [
      | none ↦ replied Status.error w
      | some m ↦ receive_stakes m now w.cryptonode_rpc_address w.testnet l w
    ]
  ]

  abbrev pub copy_entry : TierEntryMessage → BlockchainBasedListEntry
  copy_entry m = record {
    supernode_public_id = m.supernode_public_id;
    supernode_public_address = m.supernode_public_address;
    amount = m.amount;
  }

  unfoldable pub blockchain_based_list_handler :
      ℕ → String → ℕ → NetworkWorld c g → Reply (NetworkWorld c g)
  unfolding set_blockchain_based_list
  blockchain_based_list_handler history_size input now w = elim w.fsl [
    | none ↦ replied Status.error w
    | some l ↦ if not w.has_supernode then replied Status.error w else elim (nm.read_list input) [
      | none ↦ replied Status.error w
      | some m ↦ replied Status.ok (record w {
        fsl = some (
            set_blockchain_based_list c g history_size m.block_height
              (map (λ tier. map copy_entry tier) m.tiers) now l);
      })
    ]
  ]
