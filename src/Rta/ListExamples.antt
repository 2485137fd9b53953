-- ===== src/Rta/ListExamples.antt =====
-- The theorems on the list of supernodes at concrete inputs.
use graft_ng.Shared.{
  ℕ, ◌+◌, ◌*◌, ◌≤◌, ◌<◌, ◌≡◌, refl, ◌↔◌, ◌⊎◌, String, true, none, some, List, [], ◌∷◌, arith,
  string_eq, nat_eq, lookup, All, length,
}
use graft_ng.Rta.Supernode.{Supernode, SupernodeStake, id_key_as_string}
use graft_ng.Rta.SupernodeList.{
  Rng, FullSupernodeList, BlockchainBasedList, BlockchainBasedListEntry, add, get, exists,
  update_stakes, set_blockchain_based_list, find_blockchain_based_list,
}
use graft_ng.Rta.SupernodeList.Balance.{Four, balance, total}
use graft_ng.Rta.SupernodeList.Balance.Inv.{balance_fills}
use graft_ng.Rta.SupernodeList.Select.{select_supernodes}
use graft_ng.Rta.SupernodeList.Select.Count.{select_supernodes_count}
use graft_ng.Rta.SupernodeList.Sample.{build_auth_sample, is_reachable}
use graft_ng.Rta.SupernodeList.Sample.Size.{build_auth_sample_size}
use graft_ng.Rta.SupernodeList.Sample.Fresh.{
  IsFresh, build_auth_sample-IsFresh, build_auth_sample_agrees,
}
use graft_ng.Rta.SupernodeList.Entries.{add-remove_effects}
use graft_ng.Rta.SupernodeList.Stakes.{update_stakes_known, with_stake, last_stake}
use graft_ng.Rta.SupernodeList.Blocks.{
  set_blockchain_based_list_window, set_blockchain_based_list_early,
}
use graft_ng.Rta.Examples.{toy, node}

-- A generator that counts.
abbrev pub counter : Rng
counter = record { State = ℕ; seed = λ s. 0; next = λ n. (n * 7 + 3, n + 1) }

abbrev entry : String → BlockchainBasedListEntry
entry id = record { supernode_public_id = id; supernode_public_address = "w"; amount = 100 }

-- Tiers of one, three, none and five supernodes; "Kz" is not known.
abbrev blocks : BlockchainBasedList
blocks =
    (entry "Ka" ∷ [])
    ∷ (entry "Kb" ∷ entry "Kc" ∷ entry "Kz" ∷ [])
    ∷ []
    ∷ (entry "Kd" ∷ entry "Ke" ∷ entry "Kf" ∷ entry "Kg" ∷ entry "Kh" ∷ [])
    ∷ []

abbrev nodes : List (String × Supernode toy)
nodes =
    ("Ka", node "a")
    ∷ ("Kb", node "b")
    ∷ ("Kc", node "c")
    ∷ ("Kd", node "d")
    ∷ ("Ke", node "e")
    ∷ ("Kf", node "f")
    ∷ ("Kg", node "g")
    ∷ ("Kh", node "h")
    ∷ []

abbrev pub known : FullSupernodeList toy counter
known = record {
  list = nodes;
  refresh_counter = 0;
  blockchain_based_list_max_block_number = 100;
  stakes_max_block_number = 90;
  blockchain_based_lists = (100, blocks) ∷ [];
  rng = 5;
  next_recv_stakes = none;
  next_recv_blockchain_based_list = none;
}

abbrev some_sizes : Four ℕ
some_sizes = record { at0 = 1; at1 = 2; at2 = 0; at3 = 5 }

balance_fills_example : total (balance some_sizes) ≡ 8
balance_fills_example = (balance_fills some_sizes).4

select_supernodes_count_example :
    length
      (select_supernodes toy counter 2 (entry "Ka" ∷ entry "Kb" ∷ entry "Kc" ∷ []) [] known).dst
    ≡ 2
select_supernodes_count_example =
    (select_supernodes_count toy counter 2 (entry "Ka" ∷ entry "Kb" ∷ entry "Kc" ∷ []) [] known
      (refl, (refl, (refl, tt)))).1

build_auth_sample_size_example :
    (build_auth_sample toy counter 100 "payment" 2000 [] known).answer ≡ true ↔ 8 ≤ 8
unfolding is_reachable
build_auth_sample_size_example =
    (build_auth_sample_size toy counter 100 "payment" 2000 [] known blocks refl (omega arith)).1

build_auth_sample-IsFresh_example :
    All
      (IsFresh toy counter known 2000)
      (build_auth_sample toy counter 100 "payment" 2000 [] known).out
build_auth_sample-IsFresh_example = build_auth_sample-IsFresh toy counter 100 "payment" 2000 known

build_auth_sample_agrees_example :
    (build_auth_sample toy counter 100 "payment" 2000 [] known).out
    ≡ (build_auth_sample toy counter 100 "payment" 2000 [] (record known { rng = 8 })).out
build_auth_sample_agrees_example =
    (build_auth_sample_agrees toy counter 100 "payment" 2000 [] 8 known).0

add-remove_effects_example :
    get toy counter "Kx" (add toy counter (node "x") known).0 ≡ some (node "x")
unfolding exists id_key_as_string
add-remove_effects_example = (add-remove_effects toy counter (node "x") "Ka" "Kx" known).1

abbrev stake_b : SupernodeStake
stake_b = record {
  amount = 77;
  block_height = 91;
  unlock_time = 9;
  supernode_public_id = "Kb";
  supernode_public_address = "wb";
}

update_stakes_known_example :
    ((91 ≤ 90) × (update_stakes toy counter 91 (stake_b ∷ []) true 3000 known ≡ known))
    ⊎ ((90 < 91)
        × (lookup "Kb" (update_stakes toy counter 91 (stake_b ∷ []) true 3000 known).list
            ≡ some (with_stake toy (node "b") (last_stake "Kb" none (stake_b ∷ []))))
        × ((update_stakes toy counter 91 (stake_b ∷ []) true 3000 known).stakes_max_block_number
            ≡ 91))
update_stakes_known_example =
    update_stakes_known toy counter 91 (stake_b ∷ []) true 3000 known "Kb" (node "b") refl

set_blockchain_based_list_window_example :
    find_blockchain_based_list toy counter 101
      (set_blockchain_based_list toy counter 50 101 [] 3000 known)
    ≡ some []
set_blockchain_based_list_window_example =
    set_blockchain_based_list_window toy counter 50 101 101 3000 [] known refl (omega arith)
      (omega arith) (omega arith)

set_blockchain_based_list_early_example :
    find_blockchain_based_list toy counter 101
      (set_blockchain_based_list toy counter 5000 101 [] 3000 known)
    ≡ none
set_blockchain_based_list_early_example =
    set_blockchain_based_list_early toy counter 5000 101 101 3000 [] known refl (omega arith)
      (omega arith) (omega arith)
