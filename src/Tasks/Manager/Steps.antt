-- ===== src/Tasks/Manager/Steps.antt =====
-- The methods of `TaskManager` that the state machine and the event loop call.
use graft_ng.Shared.{
  ℕ, ◌+◌, ◌-◌, ◌*◌, Bool, true, false, not, ◌&&◌, ◌||◌, Option, none, some, List, [], ◌∷◌, ◌++◌,
  if◌then◌else◌, ltb, nat_eqb, String, nat_eq, lookup, assign, erase,
}
use graft_ng.Tasks.Status.{Status, State, same_status}
use graft_ng.Tasks.Machine.{
  Action, nothing, check_overflow, run_preaction, run_response, run_error_response, run_drop,
  run_workeraction, run_postaction, run_forward, run_ok_response, run_postpone, Step, Outcome,
  dispatch,
}
use graft_ng.Tasks.ExpiringList
use graft_ng.Tasks.Manager.{
  Context, Kind, client_task, periodic_task, upstream_task, Task, HandlerResult, returns, throws,
  Program, Manager, Config, task, put_task, status_of, set_last_status, set_error,
}

-- The HTTP code of an answer; other statuses are excluded by an assertion.
unfoldable pub http_code : Status → ℕ
http_code Status.again = 200
http_code Status.ok = 200
http_code Status.internal_error = 500
http_code Status.error = 500
http_code Status.busy = 503
http_code Status.drop = 400
http_code _ = 0

-- `onClientDone`, which `respond` calls unless more answers are to come.
unfoldable pub client_done : Status → Manager → Manager
client_done s m =
    if same_status s Status.again
    then m
    else record m { cnt_base_task_done = m.cnt_base_task_done + 1 }

-- `ConnectionManager::respond`. The connection is given up with the first answer.
unfoldable pub respond : ℕ → Bool → String → Manager → Manager
unfolding client_done http_code
respond id false s m = client_done (status_of id m) m
respond id true s m =
    let st = status_of id m in
    let answered = record m { responses = m.responses ++ (id, http_code st, s) ∷ [] } in
    put_task id (record (task id m) { kind = client_task false }) (client_done st answered)

unfoldable pub finalize_as : Kind → ℕ → Manager → Manager
finalize_as periodic_task id m =
    if same_status (status_of id m) Status.stop
    then put_task id (record (task id m) { holds_itself = false }) m
    else record m { timers = m.timers ++ id ∷ [] }
finalize_as _ id m = put_task id (record (task id m) { holds_itself = false }) m

unfoldable pub answer_as : Kind → ℕ → String → Manager → Manager
unfolding respond
answer_as (client_task connected) id s m = respond id connected s m
answer_as periodic_task id s m = m
answer_as upstream_task id s m = m

unfoldable pub respond_and_die : ℕ → String → Bool → Manager → Manager
unfolding answer_as finalize_as
respond_and_die id s die m =
    let answered = answer_as (task id m).kind id s m in
    let uuid = (task id answered).ctx.uuid in
    let forgotten =
      if nat_eqb uuid 0
      then answered
      else record answered { postponed_tasks = erase uuid answered.postponed_tasks } in
    if die then finalize_as (task id forgotten).kind id forgotten else forgotten

unfoldable pub check_thread_pool_overflow : ℕ → Manager → Manager
unfolding respond_and_die
check_thread_pool_overflow id m =
    if (task id m).h3.worker_action
      && nat_eqb (m.cnt_job_sent - m.cnt_job_done) m.thread_pool_input_size
    then respond_and_die id "Thread pool overflow" true
        (put_task id (set_error "Service Unavailable" Status.busy (task id m)) m)
    else m

-- After a handler: its context and output are the task's.
abbrev left : Context → String → Task → Task
left ctx out t = record t { ctx = ctx; output = out }

abbrev failed : String → Context → String → Task → Task
failed e ctx out t = record (set_error e Status.internal_error (left ctx out t)) { input = "" }

unfoldable pub pre_result : ℕ → HandlerResult → Manager → Step Manager
pre_result id (returns status ctx out) m =
    let t = set_last_status status (left ctx out (task id m)) in
    let forwards =
      same_status status Status.ok && (t.h3.worker_action || t.h3.post_action)
      || same_status status Status.forward in
    (put_task id (if forwards then record t { input = out } else t) m, none)
pre_result id (throws e ctx out) m = (put_task id (failed e ctx out (task id m)) m, some e)

unfoldable pub worker_result : ℕ → HandlerResult → Manager → Step Manager
worker_result id (returns status ctx out) m =
    let t = set_last_status status (left ctx out (task id m)) in
    let forwards =
      same_status status Status.ok && t.h3.post_action || same_status status Status.forward in
    (put_task id (if forwards then record t { input = out } else t) m, none)
worker_result id (throws e ctx out) m = (put_task id (failed e ctx out (task id m)) m, some e)

-- A task that is to be forwarded keeps its status, whatever the post action returns.
unfoldable pub post_result : ℕ → HandlerResult → Manager → Step Manager
post_result id (returns status ctx out) m =
    let t = left ctx out (task id m) in
    let t' = set_last_status status t in
    let t'' = if same_status status Status.forward then record t' { input = out } else t' in
    (put_task id (if same_status ctx.last_status Status.forward then t else t'') m, none)
post_result id (throws e ctx out) m = (put_task id (failed e ctx out (task id m)) m, some e)

abbrev called : Manager → Manager
called m = record m { calls = m.calls + 1 }

unfoldable pub run_worker_action : ℕ → Manager → Manager
run_worker_action id m =
    if (task id m).h3.worker_action
    then record m { cnt_job_sent = m.cnt_job_sent + 1; pool = m.pool ++ id ∷ [] }
    else m

unfoldable pub process_forward : ℕ → Manager → Manager
process_forward id m = record m { upstream = m.upstream ++ id ∷ [] }

-- The call of `std::priority_queue::push`, whose documented order this stands for: the greatest pair
-- comes out first, so the list is kept in falling order.
unfoldable pub push_expiry : ℕ × ℕ → List (ℕ × ℕ) → List (ℕ × ℕ)
push_expiry e [] = e ∷ []
push_expiry (t, u) ((s, v) ∷ q) =
    if ltb t s || (nat_eqb t s && ltb u v)
    then (s, v) ∷ push_expiry (t, u) q
    else (t, u) ∷ (s, v) ∷ q

module _ (p : Program) (cf : Config) where
  abbrev pub timeout_ms : ℕ
  timeout_ms = 1000 * cf.http_connection_timeout

  unfoldable pub run_pre_action : ℕ → Manager → Step Manager
  unfolding pre_result
  run_pre_action id m =
      if not (task id m).h3.pre_action
      then (m, none)
      else pre_result id (p.pre_action m.calls (task id m)) (called m)

  unfoldable pub run_post_action : ℕ → Manager → Step Manager
  unfolding post_result
  run_post_action id m =
      if not (task id m).h3.post_action
      then (m, none)
      else post_result id (p.post_action m.calls (task id m)) (called m)

  -- `Context::getId`: a nil uuid is replaced by a random one.
  unfoldable pub with_id : ℕ → Manager → Manager
  with_id id m =
      if nat_eqb (task id m).ctx.uuid 0
      then put_task id
          (record (task id m) { ctx = record (task id m).ctx { uuid = p.random_uuid m.drawn } })
          (record m { drawn = m.drawn + 1 })
      else m

  unfoldable pub postpone_found : ℕ → ℕ → ℕ → Option String → Manager → Manager
  postpone_found id uuid now (some input) m =
      record (put_task id (record (task id m) { input = input }) m) {
        ready_to_resume = m.ready_to_resume ++ id ∷ [];
      }
  postpone_found id uuid now none m = record m {
    postponed_tasks = assign uuid id m.postponed_tasks;
    expire_task_queue = push_expiry (now + timeout_ms, uuid) m.expire_task_queue;
  }

  unfoldable pub postpone_task : ℕ → ℕ → Manager → Manager
  unfolding with_id postpone_found push_expiry
  postpone_task id now m0 =
      let m = with_id id m0 in
      let uuid = (task id m).ctx.uuid in
      let res = ExpiringList.extract now uuid m.future_postpone_uuids in
      postpone_found id uuid now res.0 (record m { future_postpone_uuids = res.1 })

  -- The answer of one task is the input of the postponed task that it names, or waits for it.
  unfoldable pub hand_on : ℕ → ℕ → ℕ → Option ℕ → Manager → Manager
  hand_on id next now none m = record m {
    future_postpone_uuids =
        ExpiringList.add timeout_ms now next (task id m).input m.future_postpone_uuids;
  }
  hand_on id next now (some other) m =
      record (put_task other (record (task other m) { input = (task id m).input }) m) {
        ready_to_resume = m.ready_to_resume ++ other ∷ [];
        postponed_tasks = erase next m.postponed_tasks;
      }

  unfoldable pub process_ok : ℕ → ℕ → Manager → Manager
  unfolding hand_on respond_and_die
  process_ok id now m =
      let next = (task id m).ctx.next_uuid in
      let handed =
        if nat_eqb next 0 then m else hand_on id next now (lookup next m.postponed_tasks) m in
      respond_and_die id (task id handed).output true handed

  -- The actions of the state machine.
  unfoldable pub perform : ℕ → ℕ → Action → Manager → Step Manager
  unfolding check_thread_pool_overflow run_pre_action run_worker_action run_post_action
      process_forward process_ok postpone_task respond_and_die
  perform now id nothing m = (m, none)
  perform now id check_overflow m = (check_thread_pool_overflow id m, none)
  perform now id run_preaction m = run_pre_action id m
  perform now id run_response m = (respond_and_die id (task id m).output false m, none)
  perform now id run_error_response m = (respond_and_die id (task id m).output true m, none)
  perform now id run_drop m = (respond_and_die id "Job done Drop." true m, none)
  perform now id run_workeraction m = (run_worker_action id m, none)
  perform now id run_postaction m = run_post_action id m
  perform now id run_forward m = (process_forward id m, none)
  perform now id run_ok_response m = (process_ok id now m, none)
  perform now id run_postpone m = (postpone_task id now m, none)

  unfoldable pub run_machine : ℕ → State → ℕ → ℕ → Manager → Option (Outcome Manager)
  run_machine fuel s now id m =
      dispatch (status_of id) (λ w. (task id w).h3) (perform now id) fuel s m

  unfoldable pub execute : ℕ → ℕ → ℕ → Manager → Option (Outcome Manager)
  unfolding run_machine
  execute fuel now id m = run_machine fuel State.execute now id m
