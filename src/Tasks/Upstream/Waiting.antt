-- ===== src/Tasks/Upstream/Waiting.antt =====
-- The tasks that wait for a connection of an item that keeps its connections alive.
use mathlib.Core.List.{append-nil}
use graft_ng.Shared.{
  ℕ, ◌≤◌, ◌<◌, ◌≡◌, ◌≢◌, ◌⊎◌, inl, inr, refl, sym, ap, ◌∙◌, String, Bool, true, false, not, ◌&&◌,
  Option, some, List, [], ◌∷◌, ◌++◌, nat_eqb, nat_eq, lookup, length, arith, Bool-cases,
}
use graft_ng.Tasks.Upstream.{
  Outcome, ran, ◌>>=◌, ConnItem, Sender, is_nil, create_upstream_sender, on_close_idle, send_to,
  finish_on, start_next, release_active,
}
use graft_ng.Tasks.Upstream.Connections.{IsSound, HasRoom, TookOne, create_upstream_sender-IsSound}
use graft_ng.Tasks.Upstream.Releases.{IsActive, LostOne, release_active-IsSound, close_on}

-- Tasks wait only while every connection that is allowed is active.
abbrev pub IsFull : {Task : Type 0} → ConnItem Task → Type 0
IsFull i =
    (length i.idle_connections ≡ 0) × (i.conn_cnt ≡ i.max_connections) × (i.max_connections ≢ 0)

pub record IsGood {Task : Type 0} (i : ConnItem Task) : Type 0 where
  pub sound : IsSound i
  pub waiting : (i.task_queue ≡ []) ⊎ IsFull i

-- What happens to an item: a task is sent, a sender is done, an idle connection is closed.
pub data Event (Task : Type 0) : Type 0 where
  sent : Task → Event Task
  finished : ℕ → Option ℕ → Event Task
  idle_closed : ℕ → Event Task

module _ {Task : Type 0} where
  abbrev pub arrivals : Event Task → List Task
  arrivals (sent bt) = bt ∷ []
  arrivals _ = []

  abbrev pub started : List (Sender Task) → List Task
  started [] = []
  started (s ∷ l) = s.task ∷ started l

  -- What the network library may report.
  abbrev pub IsAllowed : ConnItem Task → Event Task → Type 0
  IsAllowed i (sent bt) = Unit {0}
  IsAllowed i (finished id client) = IsActive id client i
  IsAllowed i (idle_closed client) = (id : ℕ) × (lookup client i.idle_connections ≡ some id)

  unfoldable pub handle :
      (Task → String) → Event Task → ConnItem Task → Outcome (List (Sender Task) × ConnItem Task)
  handle to (sent bt) i = send_to (to bt) bt i
  handle to (finished id client) i = finish_on to id client i
  handle to (idle_closed client) i = do i' ← on_close_idle client i; ran ([], i')

  -- No assertion fails, the item stays good, and the tasks start in the order in which they came.
  abbrev pub Handled : (Task → String) → Event Task → ConnItem Task → Type 0
  Handled to e i =
      (senders : List (Sender Task)) × (i' : ConnItem Task) × (handle to e i ≡ ran (senders, i'))
      × IsGood i'
      × (started senders ++ i'.task_queue ≡ i.task_queue ++ arrivals e)

  has_to_wait : ConnItem Task → Bool
  has_to_wait i =
      not (nat_eqb i.max_connections 0)
      && (is_nil i.idle_connections && nat_eqb i.conn_cnt i.max_connections)

  send_waits :
      (to : String) (bt : Task) (i : ConnItem Task)
      → has_to_wait i ≡ true
      → send_to to bt i ≡ ran ([], record i { task_queue = i.task_queue ++ bt ∷ [] })
  unfolding send_to has_to_wait
  send_waits to bt i e = rw e refl

  send_starts :
      (to : String) (bt : Task) (i i' : ConnItem Task) (s : Sender Task)
      → has_to_wait i ≡ false
      → create_upstream_sender to bt i ≡ ran (s, i')
      → send_to to bt i ≡ ran (s ∷ [], i')
  unfolding send_to has_to_wait
  send_starts to bt i i' s e c = rw (e, c) refl

  waits_full : (i : ConnItem Task) → has_to_wait i ≡ true → IsFull i
  unfolding has_to_wait
  waits_full i e = go i.idle_connections i.conn_cnt i.max_connections e
    where
      go :
          (idle : List (ℕ × ℕ)) (cnt max : ℕ)
          → (not (nat_eqb max 0) && (is_nil idle && nat_eqb cnt max)) ≡ true
          → (length idle ≡ 0) × (cnt ≡ max) × (max ≢ 0)
      go [] cnt max e = ground arith
      go (x ∷ idle) cnt max e = ground arith

  -- Otherwise there is room, and no task waits.
  starts_room :
      (i : ConnItem Task) → IsGood i → has_to_wait i ≡ false → HasRoom i × (i.task_queue ≡ [])
  unfolding has_to_wait
  starts_room i g e = go i.idle_connections i.conn_cnt i.max_connections e g.sound.bounded g.waiting
    where
      go :
          (idle : List (ℕ × ℕ)) (cnt max : ℕ)
          → (not (nat_eqb max 0) && (is_nil idle && nat_eqb cnt max)) ≡ false
          → (max ≡ 0) ⊎ (cnt ≤ max)
          → (i.task_queue ≡ []) ⊎ (length idle ≡ 0) × (cnt ≡ max) × (max ≢ 0)
          → ((0 < length idle) ⊎ (max ≡ 0) ⊎ (cnt < max)) × (i.task_queue ≡ [])
      go [] cnt max e b w = ground arith
      go (x ∷ idle) cnt max e b w = ground arith

  requeue :
      (queue : List Task) (i : ConnItem Task)
      → IsSound i
      → IsSound (record i { task_queue = queue })
  requeue queue i s = record {
    kept = s.kept;
    counted = s.counted;
    bounded = s.bounded;
    once = s.once;
    fresh = s.fresh;
  }

  in_order :
      (a b : Task) (waiting left : List Task)
      → a ≡ b
      → waiting ≡ []
      → left ≡ []
      → a ∷ left ≡ waiting ++ b ∷ []
  in_order a b waiting left e1 e2 e3 = rw (e1, e2, e3) refl

  sent-Handled :
      (to : Task → String) (bt : Task) (i : ConnItem Task) → IsGood i → Handled to (sent bt) i
  unfolding handle
  sent-Handled to bt i g = elim (Bool-cases (has_to_wait i)) [
    | inl e ↦ (
      [],
      _,
      send_waits (to bt) bt i e,
      record { sound = requeue _ i g.sound; waiting = inr (waits_full i e) },
      refl,
    )
    | inr e ↦
        let (room, queue) = starts_room i g e in
        let (s, i', made, task, sound, took, same, max) =
          create_upstream_sender-IsSound (to bt) bt i g.sound room in
        (
          s ∷ [],
          i',
          send_starts (to bt) bt i i' s e made,
          record { sound = sound; waiting = inl (same ∙ queue) },
          in_order s.task bt i.task_queue i'.task_queue task queue (same ∙ queue),
        )
  ]

  same_order : (a b : Task) (q r : List Task) → a ≡ b → q ≡ r → a ∷ q ≡ b ∷ r
  same_order a b q r e1 e2 = rw (e1, e2) refl

  -- What was full is full again when the connection that came back or was closed is replaced.
  still_full :
      (i r i' : ConnItem Task)
      → IsFull i
      → LostOne i r
      → TookOne r i'
      → r.max_connections ≡ i.max_connections
      → i'.max_connections ≡ r.max_connections
      → IsFull i'
  still_full i r i' full lost took m m' = ground arith

  -- The first of the waiting tasks is started.
  pub start_first :
      (to : Task → String) (bt : Task) (queue : List Task) (i r : ConnItem Task)
      → IsSound r
      → HasRoom r
      → IsFull i
      → r.max_connections ≡ i.max_connections
      → LostOne i r
      → (s : Sender Task) × (i' : ConnItem Task) × (start_next to (bt ∷ queue) r ≡ ran (s ∷ [], i'))
        × (s.task ≡ bt)
        × (i'.task_queue ≡ queue)
        × IsGood i'
  unfolding start_next
  start_first to bt queue i r sound room full max lost =
      let (s, i', made, task, sound', took, left, max') =
        create_upstream_sender-IsSound (to bt) bt (record r { task_queue = queue })
          (requeue queue r sound) room in
      (
        s,
        i',
        rw made refl,
        task,
        left,
        record { sound = sound'; waiting = inr (still_full i r i' full lost took max max') },
      )

  -- If any waits.
  start_next-IsGood :
      (to : Task → String) (queue : List Task) (i r : ConnItem Task)
      → IsSound r
      → HasRoom r
      → (queue ≡ []) ⊎ IsFull i
      → r.max_connections ≡ i.max_connections
      → r.task_queue ≡ queue
      → LostOne i r
      → (senders : List (Sender Task)) × (i' : ConnItem Task) × (start_next to queue r
          ≡ ran (senders, i'))
        × IsGood i'
        × (started senders ++ i'.task_queue ≡ queue)
  unfolding start_next
  start_next-IsGood to [] i r sound room waiting max same lost =
      ([], r, refl, record { sound = sound; waiting = inl same }, same)
  start_next-IsGood to (bt ∷ queue) i r sound room (inl none_waits) max same lost = cc
  start_next-IsGood to (bt ∷ queue) i r sound room (inr full) max same lost =
      let (s, i', made, task, left, good) = start_first to bt queue i r sound room full max lost in
      (s ∷ [], i', made, good, same_order s.task bt i'.task_queue queue task left)

  -- A connection comes back, and the next task is started.
  pub finish_then :
      (to : Task → String) (id : ℕ) (client : Option ℕ) (i r : ConnItem Task) (queue : List Task)
      (senders : List (Sender Task)) (i' : ConnItem Task)
      → release_active id client i ≡ ran r
      → r.task_queue ≡ queue
      → start_next to queue r ≡ ran (senders, i')
      → handle to (finished id client) i ≡ ran (senders, i')
  unfolding handle finish_on
  finish_then to id client i r queue senders i' released same next =
      ap (λ o. o >>= λ x. start_next to x.task_queue x) released
      ∙ (ap (λ q. start_next to q r) same ∙ next)

  finished-Handled :
      (to : Task → String) (id : ℕ) (client : Option ℕ) (i : ConnItem Task)
      → IsGood i
      → IsActive id client i
      → Handled to (finished id client) i
  finished-Handled to id client i g active =
      let (r, released, sound, room, queue, max, lost) =
        release_active-IsSound id client i g.sound active in
      let (senders, i', next, good, order) =
        start_next-IsGood to i.task_queue i r sound room g.waiting max queue lost in
      (
        senders,
        i',
        finish_then to id client i r i.task_queue senders i' released queue next,
        good,
        order ∙ sym (append-nil i.task_queue),
      )

  none_waits :
      (i : ConnItem Task) (queue : List Task)
      → 0 < length i.idle_connections
      → (queue ≡ []) ⊎ IsFull i
      → queue ≡ []
  none_waits i queue some_idle w = ground arith

  closed-Handled :
      (to : Task → String) (client : ℕ) (i : ConnItem Task)
      → IsGood i
      → IsAllowed i (idle_closed client)
      → Handled to (idle_closed client) i
  unfolding handle
  closed-Handled to client i g (id, there) =
      let (i', closed, sound, queue, some_idle) =
        close_on client id i.uri i.max_connections i.keep_alive i.new_id i.conn_cnt i.task_queue
          i.idle_connections i.active_connections g.sound there in
      (
        [],
        i',
        ap (λ o. o >>= λ x. ran ([], x)) closed,
        record {
          sound = sound;
          waiting = inl (queue ∙ none_waits i i.task_queue some_idle g.waiting);
        },
        queue ∙ sym (append-nil i.task_queue),
      )

  pub handled :
      (to : Task → String) (e : Event Task) (i : ConnItem Task)
      → IsGood i
      → IsAllowed i e
      → Handled to e i
  handled to (sent bt) i g a = sent-Handled to bt i g
  handled to (finished id client) i g a = finished-Handled to id client i g a
  handled to (idle_closed client) i g a = closed-Handled to client i g a

  -- What may have happened to an item, with the tasks that were sent and those that were started.
  pub data Reach (to : Task → String) (i : ConnItem Task)
      : List Task → List Task → ConnItem Task → Type 0 where
    here : Reach to i [] [] i
    next :
        {came gone : List Task} {j k : ConnItem Task} {senders : List (Sender Task)}
        (e : Event Task)
        → Reach to i came gone j
        → IsAllowed j e
        → handle to e j ≡ ran (senders, k)
        → Reach to i (came ++ arrivals e) (gone ++ started senders) k
