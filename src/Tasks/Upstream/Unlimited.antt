-- ===== src/Tasks/Upstream/Unlimited.antt =====
-- Items that do not keep their connections alive: the limit is never applied.
use mathlib.Core.Bool.{true≢false}
use graft_ng.Shared.{
  zero, suc, lookup-assign_same, ℕ, ◌+◌, ◌≡◌, refl, ap, String, Bool, true, false, not, ◌&&◌,
  Option, none, some, List, [], ◌∷◌, nat_eqb, string_eq, lookup, assign, length, arith, All,
}
use graft_ng.Tasks.Upstream.{ran, ConnItem, Sender, is_nil, send_to, create_upstream_sender}
use graft_ng.Tasks.Upstream.Manager.{UpstreamManager, item_name, find_item, send, send_all}
use graft_ng.Tasks.Upstream.Connections.{item}
use graft_ng.Tasks.Upstream.Waiting.{started}

never_full :
    (idle : List (ℕ × ℕ)) (max : ℕ)
    → (not (nat_eqb max 0) && (is_nil idle && nat_eqb 0 max)) ≡ false
never_full [] max = ground arith
never_full (x ∷ idle) max = ground arith

module _ {Task : Type 0} where
  abbrev closing_sender : String → Task → Sender Task
  closing_sender to bt = record { task = bt; connection_id = 0; client = none; to = to }

  closing_on :
      (to : String) (bt : Task) (uri : String) (max : ℕ) (keep : Bool) (new_id cnt : ℕ)
      (queue : List Task) (idle : List (ℕ × ℕ)) (active : List (ℕ × Option ℕ))
      → keep ≡ false
      → cnt ≡ 0
      → send_to to bt (item uri max keep new_id cnt queue idle active)
        ≡ ran (closing_sender to bt ∷ [], item uri max keep new_id cnt queue idle active)
  unfolding send_to create_upstream_sender
  closing_on to bt uri max true new_id cnt queue idle active k z = absurd (true≢false k)
  closing_on to bt uri max false new_id (suc cnt) queue idle active k z = cc
  closing_on to bt uri max false new_id zero queue idle active k z = rw (never_full idle max) refl

  send_to-closing :
      (to : String) (bt : Task) (i : ConnItem Task)
      → i.keep_alive ≡ false
      → i.conn_cnt ≡ 0
      → send_to to bt i ≡ ran (closing_sender to bt ∷ [], i)
  send_to-closing to bt i =
      closing_on to bt i.uri i.max_connections i.keep_alive i.new_id i.conn_cnt i.task_queue
        i.idle_connections i.active_connections

  -- A task of a named item starts.
  send_named :
      (uri_of : Task → String) (name : String) (bt : Task) (i : ConnItem Task)
      (m : UpstreamManager Task)
      → item_name (uri_of bt) ≡ some name
      → lookup name m.conn2item ≡ some i
      → send_to i.uri bt i ≡ ran (closing_sender i.uri bt ∷ [], i)
      → send uri_of bt m
        ≡ ran (
          closing_sender i.uri bt ∷ [],
          record m {
            cnt_upstream_sender = m.cnt_upstream_sender + 1;
            conn2item = assign name i m.conn2item;
          },
        )
  unfolding send
  send_named uri_of name bt i m named held starts = rw (named, find_item, held, starts) refl

  -- However many tasks are sent to an item that does not keep its connections alive, and whatever
  -- number of connections is allowed: each of them starts at once, and none waits.
  pub all_start_at_once :
      (uri_of : Task → String) (name : String) (i : ConnItem Task) (tasks : List Task)
      (m : UpstreamManager Task)
      → i.keep_alive ≡ false
      → i.conn_cnt ≡ 0
      → All (λ bt. item_name (uri_of bt) ≡ some name) tasks
      → lookup name m.conn2item ≡ some i
      → (senders : List (Sender Task)) × (m' : UpstreamManager Task) × (send_all uri_of tasks m
          ≡ ran (senders, m'))
        × (started senders ≡ tasks)
        × (m'.cnt_upstream_sender ≡ m.cnt_upstream_sender + length tasks)
        × (lookup name m'.conn2item ≡ some i)
  unfolding send_all
  all_start_at_once uri_of name i [] m k z named held = ([], m, refl, refl, omega arith, held)
  all_start_at_once uri_of name i (bt ∷ tasks) m k z named held =
      let m1 : UpstreamManager Task = record m {
        cnt_upstream_sender = m.cnt_upstream_sender + 1;
        conn2item = assign name i m.conn2item;
      } in
      let (senders, m', sent, order, count, held') =
        all_start_at_once uri_of name i tasks m1 k z named.1
          (lookup-assign_same name i m.conn2item) in
      (
        closing_sender i.uri bt ∷ senders,
        m',
        rw (send_named uri_of name bt i m named.0 held (send_to-closing i.uri bt i k z), sent) refl,
        ap (λ l. bt ∷ l) order,
        omega (arith, count),
        held',
      )
