-- ===== src/Tasks/Upstream.antt =====
-- `UpstreamManager` of src/lib/graft/task.cpp, with its `ConnItem`: the connections to other servers
-- and the tasks that wait for one. A connection of the network library is a number, its address; a
-- call of the library that closes or returns a connection is an event. A sender that is created is
-- a result: sending is the library's work. `failed` is an assertion that does not hold, and `threw`
-- an exception. The counter of connections is an `int`: below 0 is `failed` here, since the
-- assertion on the counter fails at the next connection.
pub mod Manager
pub mod Connections
pub mod Releases
pub mod Waiting
pub mod Fair
pub mod Unlimited
mod Examples
use graft_ng.Shared.{
  ℕ, suc, ◌+◌, ◌-◌, String, Bool, true, false, not, ◌&&◌, ◌||◌, Option, none, some, List, [], ◌∷◌,
  ◌++◌, if◌then◌else◌, ltb, leb, nat_eqb, lookup, has_key, assign, emplace, string_eq, nat_eq, ◌==◌,
  length, map, is_some,
}
use graft_ng.Tasks.Status.{Status}

pub data Outcome {ℓ} (A : Type ℓ) : Type ℓ where
  ran : A → Outcome A
  threw : Outcome A
  failed : Outcome A

infixl 5 ◌>>=◌ ◌>>◌
abbrev pub ◌>>=◌ {ℓ κ} : {A : Type ℓ} {B : Type κ} → Outcome A → (A → Outcome B) → Outcome B
ran a >>= f = f a
threw >>= f = threw
failed >>= f = failed

abbrev pub ◌>>◌ {ℓ} : {B : Type ℓ} → Outcome (Unit {0}) → Outcome B → Outcome B
m >> k = m >>= λ _. k

abbrev pub assert : Bool → Outcome (Unit {0})
assert true = ran tt
assert false = failed

abbrev pub is_nil {ℓ} : {A : Type ℓ} → List A → Bool
is_nil [] = true
is_nil (x ∷ xs) = false

pub record ConnItem (Task : Type 0) : Type 0 where
  pub uri : String
  pub max_connections : ℕ
  pub keep_alive : Bool
  pub new_id : ℕ
  pub conn_cnt : ℕ
  pub task_queue : List Task
  pub idle_connections : List (ℕ × ℕ)
  pub active_connections : List (ℕ × Option ℕ)

-- What `UpstreamSender::Create` is given, with the address for `send`.
pub record Sender (Task : Type 0) : Type 0 where
  pub task : Task
  pub connection_id : ℕ
  pub client : Option ℕ
  pub to : String

-- The idle connections are a `std::map` over addresses, whose first is taken. An address that is
-- there stays as it is.
unfoldable pub emplace_idle : ℕ → ℕ → List (ℕ × ℕ) → List (ℕ × ℕ)
emplace_idle k v [] = (k, v) ∷ []
emplace_idle k v ((j, w) ∷ m) =
    if ltb k j
    then (k, v) ∷ (j, w) ∷ m
    else if k == j
    then (j, w) ∷ m
    else (j, w) ∷ emplace_idle k v m

-- `find` and `erase` of what is found.
put_back {ℓ} : {A : Type ℓ} {V : Type ℓ} → A → Option (V × List A) → Option (V × List A)
put_back a none = none
put_back a (some (v, r)) = some (v, a ∷ r)

unfoldable pub take_key {ℓ} : {V : Type ℓ} → ℕ → List (ℕ × V) → Option (V × List (ℕ × V))
unfolding put_back
take_key k [] = none
take_key k ((j, w) ∷ m) =
    let rest = put_back (j, w) (take_key k m) in if j == k then some (w, m) else rest

-- The connection that was handed out is the one that comes back.
abbrev pub fits : Option ℕ → Option ℕ → Bool
fits none client = true
fits (some held) none = true
fits (some held) (some client) = held == client

module _ {Task : Type 0} where
  -- `m_activeConnections.emplace` with the two assertions after it.
  activate : ℕ → Option ℕ → ConnItem Task → Outcome ((ℕ × Option ℕ) × ConnItem Task)
  activate id client i = do
    assert (not (has_key id i.active_connections))
    let active = emplace id client i.active_connections
    assert (nat_eqb i.conn_cnt (length i.idle_connections + length active))
    ran ((id, client), record i { active_connections = active })

  take_connection : List (ℕ × ℕ) → ConnItem Task → Outcome ((ℕ × Option ℕ) × ConnItem Task)
  unfolding activate
  take_connection [] i =
      activate (i.new_id + 1) none (record i { new_id = i.new_id + 1; conn_cnt = i.conn_cnt + 1 })
  take_connection ((client, id) ∷ idle) i =
      activate id (some client) (record i { idle_connections = idle })

  unfoldable pub get_connection : ConnItem Task → Outcome ((ℕ × Option ℕ) × ConnItem Task)
  unfolding take_connection
  get_connection i = do
    assert (nat_eqb i.max_connections 0 || leb i.conn_cnt i.max_connections)
    if not i.keep_alive
        then ran ((0, none), record i { conn_cnt = i.conn_cnt + 1 })
        else take_connection i.idle_connections i

  -- The count goes down by one.
  unfoldable pub drop_connection : ConnItem Task → Outcome (ConnItem Task)
  drop_connection i = do assert (ltb 0 i.conn_cnt); ran (record i { conn_cnt = i.conn_cnt - 1 })

  give_back : ℕ → Option ℕ → ConnItem Task → Outcome (ConnItem Task)
  unfolding drop_connection emplace_idle
  give_back id none i = drop_connection i
  give_back id (some client) i =
      ran (record i { idle_connections = emplace_idle client id i.idle_connections })

  unfoldable pub release_active : ℕ → Option ℕ → ConnItem Task → Outcome (ConnItem Task)
  unfolding give_back take_key
  release_active id client i =
      let found : Outcome (ConnItem Task) = elim (take_key id i.active_connections) [
        | none ↦ failed
        | some (held, active) ↦ do
          assert (fits held client)
          give_back id client (record i { active_connections = active })
      ] in
      if not i.keep_alive then (do assert (nat_eqb id 0 && not (is_some client)); ran i) else found

  unfoldable pub on_close_idle : ℕ → ConnItem Task → Outcome (ConnItem Task)
  unfolding drop_connection take_key
  on_close_idle client i =
      let found : Outcome (ConnItem Task) = elim (take_key client i.idle_connections) [
        | none ↦ failed
        | some (id, idle) ↦ do
          dropped ← drop_connection i
          ran (record dropped { idle_connections = idle })
      ] in
      do assert i.keep_alive; found

  -- The sender that is created, with the address of the item or, for the default item, that of the
  -- output.
  unfoldable pub create_upstream_sender :
      String → Task → ConnItem Task → Outcome (Sender Task × ConnItem Task)
  unfolding get_connection
  create_upstream_sender to bt i =
      let connection : Outcome (Sender Task × ConnItem Task) = (do
        (got, i') ← get_connection i
        ran (record { task = bt; connection_id = got.0; client = got.1; to = to }, i')) in
      if i.keep_alive
      then connection
      else ran (record { task = bt; connection_id = 0; client = none; to = to }, i)

  -- The rest of `send`, when the item has been found: a task may have to wait.
  unfoldable pub send_to :
      String → Task → ConnItem Task → Outcome (List (Sender Task) × ConnItem Task)
  unfolding create_upstream_sender
  send_to to bt i =
      let created : Outcome (List (Sender Task) × ConnItem Task) = (do
        (sender, i') ← create_upstream_sender to bt i
        ran (sender ∷ [], i')) in
      if not (nat_eqb i.max_connections 0)
        && (is_nil i.idle_connections && nat_eqb i.conn_cnt i.max_connections)
      then ran ([], record i { task_queue = i.task_queue ++ bt ∷ [] })
      else created

  -- The first of the tasks that wait.
  unfoldable pub start_next :
      (Task → String) → List Task → ConnItem Task → Outcome (List (Sender Task) × ConnItem Task)
  unfolding create_upstream_sender
  start_next to [] i = ran ([], i)
  start_next to (bt ∷ queue) i = do
    (sender, i') ← create_upstream_sender (to bt) bt (record i { task_queue = queue })
    ran (sender ∷ [], i')

  -- The rest of `onDone`, after the callback.
  unfoldable pub finish_on :
      (Task → String) → ℕ → Option ℕ → ConnItem Task → Outcome (List (Sender Task) × ConnItem Task)
  unfolding release_active start_next
  finish_on to id client i = do
    released ← release_active id client i
    start_next to released.task_queue released

-- An item as `init` makes it.
unfoldable pub new_item : {Task : Type 0} → String → ℕ → Bool → ConnItem Task
new_item uri max_connections keep_alive = record {
  uri = uri;
  max_connections = max_connections;
  keep_alive = keep_alive;
  new_id = 0;
  conn_cnt = 0;
  task_queue = [];
  idle_connections = [];
  active_connections = [];
}

-- What the network library reports of a connection.
pub data NetworkEvent : Type 0 where
  connected : ℕ → NetworkEvent
  http_reply closed timed_out other : NetworkEvent

-- `UpstreamSender::ev_handler`: the status of the task and the connection that is handed back, if the
-- sender is done.
unfoldable pub sender_ev_handler : Bool → ℕ → NetworkEvent → Option (Status × Option ℕ)
sender_ev_handler keep_alive upstream (connected err) =
    if nat_eqb err 0 then none else some (Status.error, none)
sender_ev_handler keep_alive upstream http_reply =
    some (Status.ok, (if keep_alive then some upstream else none))
sender_ev_handler keep_alive upstream closed = some (Status.error, none)
sender_ev_handler keep_alive upstream timed_out = some (Status.error, none)
sender_ev_handler keep_alive upstream other = none
