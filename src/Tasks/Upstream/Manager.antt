-- ===== src/Tasks/Upstream/Manager.antt =====
-- `UpstreamManager` of src/lib/graft/task.cpp: the items by name, and the counters.
use Prim.Native.Char.{code}
use graft_ng.Shared.{
  ℕ, ◌+◌, String, Bool, false, not, Option, none, some, List, [], ◌∷◌, ◌++◌, if◌then◌else◌, nat_eqb,
  lookup, assign, string_eq, ◌==◌, length, map,
}
use graft_ng.Tasks.Upstream.{
  Outcome, ran, threw, ◌>>=◌, ConnItem, Sender, send_to, finish_on, new_item,
}

-- `UpstreamManager`. An item is named by the word behind the `$` of an address, the default by none.
pub record UpstreamManager (Task : Type 0) : Type 0 where
  pub cnt_upstream_sender : ℕ
  pub cnt_upstream_sender_done : ℕ
  pub default : ConnItem Task
  pub conn2item : List (String × ConnItem Task)

-- The word behind the `$` of an address.
unfoldable pub item_name : String → Option String
item_name String.[] = none
item_name (String.◌∷◌ ch name) = if nat_eqb (code ch) b'$' then some name else none

module _ {Task : Type 0} where
  unfoldable pub busy : UpstreamManager Task → Bool
  busy m = not (nat_eqb m.cnt_upstream_sender m.cnt_upstream_sender_done)

  unfoldable pub find_item : Option String → UpstreamManager Task → Outcome (ConnItem Task)
  find_item none m = ran m.default
  find_item (some name) m = elim (lookup name m.conn2item) [ none ↦ threw | some i ↦ ran i ]

  unfoldable pub put_item :
      Option String → ConnItem Task → UpstreamManager Task → UpstreamManager Task
  put_item none i m = record m { default = i }
  put_item (some name) i m = record m { conn2item = assign name i m.conn2item }

  -- What is left after senders have been created.
  counted :
      Option String
      → List (Sender Task) × ConnItem Task
      → UpstreamManager Task
      → List (Sender Task) × UpstreamManager Task
  unfolding put_item
  counted name (senders, i) m = (
    senders,
    record (put_item name i m) { cnt_upstream_sender = m.cnt_upstream_sender + length senders },
  )

module _ {Task : Type 0} (uri_of : Task → String) where
  -- `createUpstreamSender` chooses the address.
  unfoldable pub address : Option String → ConnItem Task → Task → String
  address none i bt = if uri_of bt == "" then i.uri else uri_of bt
  address (some name) i bt = i.uri

  unfoldable pub send :
      Task → UpstreamManager Task → Outcome (List (Sender Task) × UpstreamManager Task)
  unfolding item_name find_item address send_to counted
  send bt m = do
    i ← find_item (item_name (uri_of bt)) m
    sent ← send_to (address (item_name (uri_of bt)) i bt) bt i
    ran (counted (item_name (uri_of bt)) sent m)

  -- The tasks that the callback forwards.
  unfoldable pub send_all :
      List Task → UpstreamManager Task → Outcome (List (Sender Task) × UpstreamManager Task)
  unfolding send
  send_all [] m = ran ([], m)
  send_all (bt ∷ more) m = do
    (senders, m') ← send bt m
    (senders', m'') ← send_all more m'
    ran (senders ++ senders', m'')

  -- A sender of the item `name` is done; its callback forwards some tasks.
  unfoldable pub on_done :
      List Task
      → Option String
      → ℕ
      → Option ℕ
      → UpstreamManager Task
      → Outcome (List (Sender Task) × UpstreamManager Task)
  unfolding send_all find_item finish_on address counted
  on_done forwarded name id client m = do
    (senders, m') ←
        send_all forwarded (record m { cnt_upstream_sender_done = m.cnt_upstream_sender_done + 1 })
    i ← find_item name m'
    finished ← finish_on (address name i) id client i
    let (senders', m'') = counted name finished m'
    ran (senders ++ senders', m'')

-- `uri_substitutions`, by name, with an address, a number of connections and whether to keep them.
unfoldable pub init :
    {Task : Type 0} → String → List (String × String × ℕ × Bool) → UpstreamManager Task
unfolding new_item
init cryptonode_rpc_address substitutions = record {
  cnt_upstream_sender = 0;
  cnt_upstream_sender_done = 0;
  default = new_item cryptonode_rpc_address 0 false;
  conn2item = map (λ s. (s.0, new_item (s.1) (s.2) (s.3))) substitutions;
}
