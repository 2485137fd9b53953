-- ===== src/Tasks/Upstream/Fair.antt =====
-- Items that keep their connections alive: the limit holds, and the tasks are served in order.
use mathlib.Core.List.{append_assoc}
use graft_ng.Shared.{
  ℕ, ◌+◌, ◌≤◌, ◌<◌, ◌≡◌, ◌⊎◌, inl, inr, refl, sym, ap, ◌∙◌, subst, String, true, Option, List, [],
  ◌∷◌, ◌++◌, length, arith,
}
use graft_ng.Tasks.Upstream.{Outcome, ran, ConnItem, Sender, new_item}
use graft_ng.Tasks.Upstream.Releases.{IsActive, release_active-IsSound}
use graft_ng.Tasks.Upstream.Waiting.{
  finish_then, IsGood, IsFull, Event, finished, Reach, here, next, handle, handled, start_first,
  started, arrivals, IsAllowed,
}

module _ {Task : Type 0} (to : Task → String) (uri : String) (max : ℕ) where
  new_item-IsGood : IsGood {Task = Task} (new_item uri max true)
  unfolding new_item
  new_item-IsGood = record {
    sound = record {
      kept = refl;
      counted = refl;
      bounded = inr (omega arith);
      once = λ k. omega arith;
      fresh = λ k h. refl;
    };
    waiting = inl refl;
  }

  full_of :
      (i : ConnItem Task) (bt : Task) (queue : List Task)
      → (i.task_queue ≡ []) ⊎ IsFull i
      → i.task_queue ≡ bt ∷ queue
      → IsFull i
  full_of i bt queue (inl none_waits) waits = cc
  full_of i bt queue (inr full) waits = full

  outcome_value : {A : Type 0} → A → Outcome A → A
  outcome_value a (ran b) = b
  outcome_value a _ = a

  Reach-IsGood :
      {came gone : List Task} {i : ConnItem Task}
      → Reach to (new_item uri max true) came gone i
      → IsGood i × (gone ++ i.task_queue ≡ came)
  unfolding new_item outcome_value
  Reach-IsGood here = (new_item-IsGood, refl)
  Reach-IsGood (next {came = came} {gone = gone} {j = j} {k = k} {senders = senders} e r a h) =
      let (good, order) = Reach-IsGood r in
      let (senders', k', same, good', order') = handled to e j good a in
      let pair : (senders', k') ≡ (senders, k) = ap (outcome_value (senders', k')) (sym same ∙ h) in
      let came_back : (gone ++ started senders') ++ k'.task_queue ≡ came ++ arrivals e =
        append_assoc gone (started senders') k'.task_queue
        ∙ (ap (λ l. gone ++ l) order'
            ∙ (sym (append_assoc gone j.task_queue (arrivals e))
                ∙ ap (λ l. l ++ arrivals e) order)) in
      subst (λ p. IsGood p.1 × ((gone ++ started p.0) ++ p.1.task_queue ≡ came ++ arrivals e)) pair
        (good', came_back)

  -- Every sequence of what may happen to a new item that keeps its connections alive: it has at most
  -- the connections that are allowed, if a number is given, each of them idle or active; tasks start
  -- in the order in which they were sent, and none is lost; tasks wait only while that number of
  -- connections, one at least, is active; and whatever may happen next happens with no exception and
  -- no assertion that fails.
  pub limit_and_order :
      {came gone : List Task} (i : ConnItem Task)
      → Reach to (new_item uri max true) came gone i
      → (i.conn_cnt ≡ length i.idle_connections + length i.active_connections)
        × ((i.max_connections ≡ 0) ⊎ (i.conn_cnt ≤ i.max_connections))
        × (gone ++ i.task_queue ≡ came)
        × ((i.task_queue ≡ [])
            ⊎ ((length i.active_connections ≡ i.max_connections) × (0 < i.max_connections)))
        × ((e : Event Task)
            → IsAllowed i e
            → (senders : List (Sender Task)) × (i' : ConnItem Task) × (handle to e i
                ≡ ran (senders, i')))
  limit_and_order i r =
      let (good, order) = Reach-IsGood r in
      (
        good.sound.counted,
        good.sound.bounded,
        order,
        ground (arith, good.waiting, good.sound.counted),
        λ e a. let (senders, i', same, good', rest) = handled to e i good a in (senders, i', same),
      )

  -- While tasks wait some connection is active, and as soon as the sender of any one of them is done,
  -- however it ended, the task that has waited longest is started and the others wait on.
  pub done_starts_next :
      {came gone : List Task} (i : ConnItem Task) (bt : Task) (queue : List Task)
      → Reach to (new_item uri max true) came gone i
      → i.task_queue ≡ bt ∷ queue
      → (0 < length i.active_connections)
        × ((id : ℕ) (client : Option ℕ)
            → IsActive id client i
            → (s : Sender Task) × (i' : ConnItem Task) × (handle to (finished id client) i
                ≡ ran (s ∷ [], i'))
              × (s.task ≡ bt)
              × (i'.task_queue ≡ queue))
  done_starts_next i bt queue r waits =
      let (good, order) = Reach-IsGood r in
      let full = full_of i bt queue good.waiting waits in
      (
        omega (arith, full, good.sound.counted),
        λ id client active.
            let (j, released, sound, room, same, limit, lost) =
              release_active-IsSound id client i good.sound active in
            let (s, i', started_first, task, left, good') =
              start_first to bt queue i j sound room full limit lost in
            (
              s,
              i',
              finish_then to id client i j (bt ∷ queue) (s ∷ []) i' released (same ∙ waits)
                  started_first,
              task,
              left,
            ),
      )
