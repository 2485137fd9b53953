-- ===== src/Tasks/Upstream/Examples.antt =====
-- The theorems on connections to other servers at concrete inputs. A task is a number; all go to
-- the walletnode.
use graft_ng.Shared.{
  ℕ, ◌+◌, ◌≤◌, ◌<◌, ◌≡◌, ◌⊎◌, refl, String, true, false, Option, none, some, List, [], ◌∷◌, ◌++◌,
  length, lookup, string_eq, nat_eq,
}
use graft_ng.Tasks.Upstream.{ran, ConnItem, Sender, new_item, send_to}
use graft_ng.Tasks.Upstream.Manager.{UpstreamManager, init, send_all, item_name}
use graft_ng.Tasks.Upstream.Releases.{IsActive}
use graft_ng.Tasks.Upstream.Waiting.{
  Event, sent, finished, Reach, here, next, handle, IsAllowed, started,
}
use graft_ng.Tasks.Upstream.Fair.{limit_and_order, done_starts_next}
use graft_ng.Tasks.Upstream.Unlimited.{all_start_at_once}

abbrev to_wallet : ℕ → String
to_wallet bt = "$walletnode"

-- One connection at most, which the first task has.
abbrev one_waits : ConnItem ℕ
one_waits = record {
  uri = "localhost:28900";
  max_connections = 1;
  keep_alive = true;
  new_id = 1;
  conn_cnt = 1;
  task_queue = 8 ∷ [];
  idle_connections = [];
  active_connections = (1, none) ∷ [];
}

two_sent : Reach to_wallet (new_item "localhost:28900" 1 true) (7 ∷ 8 ∷ []) (7 ∷ []) one_waits
unfolding handle new_item send_to
two_sent = next (sent 8) (next (sent 7) here tt refl) tt refl

limit_and_order_example :
    (one_waits.conn_cnt ≡ 0 + length one_waits.active_connections)
    × ((one_waits.max_connections ≡ 0) ⊎ (one_waits.conn_cnt ≤ one_waits.max_connections))
    × ((7 ∷ []) ++ one_waits.task_queue ≡ 7 ∷ 8 ∷ [])
    × ((one_waits.task_queue ≡ [])
        ⊎ ((length one_waits.active_connections ≡ one_waits.max_connections)
            × (0 < one_waits.max_connections)))
    × ((e : Event ℕ)
        → IsAllowed one_waits e
        → (senders : List (Sender ℕ)) × (i' : ConnItem ℕ) × (handle to_wallet e one_waits
            ≡ ran (senders, i')))
limit_and_order_example = limit_and_order to_wallet "localhost:28900" 1 one_waits two_sent

done_starts_next_example :
    (0 < length one_waits.active_connections)
    × ((id : ℕ) (client : Option ℕ)
        → IsActive id client one_waits
        → (s : Sender ℕ) × (i' : ConnItem ℕ) × (handle to_wallet (finished id client) one_waits
            ≡ ran (s ∷ [], i'))
          × (s.task ≡ 8)
          × (i'.task_queue ≡ []))
done_starts_next_example =
    done_starts_next to_wallet "localhost:28900" 1 one_waits 8 [] two_sent refl

-- An item with one connection that is not kept.
abbrev closing : ConnItem ℕ
closing = record {
  uri = "localhost:28900";
  max_connections = 1;
  keep_alive = false;
  new_id = 0;
  conn_cnt = 0;
  task_queue = [];
  idle_connections = [];
  active_connections = [];
}

abbrev manager : UpstreamManager ℕ
manager = init "localhost:28881" (("walletnode", "localhost:28900", 1, false) ∷ [])

all_start_at_once_example :
    (senders : List (Sender ℕ)) × (m' : UpstreamManager ℕ) × (send_all to_wallet
        (7 ∷ 8 ∷ 9 ∷ [])
        manager
      ≡ ran (senders, m'))
    × (started senders ≡ 7 ∷ 8 ∷ 9 ∷ [])
    × (m'.cnt_upstream_sender ≡ manager.cnt_upstream_sender + 3)
    × (lookup "walletnode" m'.conn2item ≡ some closing)
unfolding item_name init
all_start_at_once_example =
    all_start_at_once to_wallet "walletnode" closing (7 ∷ 8 ∷ 9 ∷ []) manager refl refl
      (refl, (refl, (refl, tt))) refl
