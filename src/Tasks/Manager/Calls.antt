-- ===== src/Tasks/Manager/Calls.antt =====
-- How often handlers are called: only the two handlers of the dispatch loop add to the count.
use graft_ng.Shared.{
  ℕ, ◌+◌, ◌≤◌, ◌≡◌, refl, ◌∙◌, Bool, true, false, Option, none, some, arith, if◌then◌else◌, nat_eqb,
  nat_eq, String, lookup, erase,
}
use graft_ng.Tasks.Status.{Status}
use graft_ng.Tasks.ExpiringList
use graft_ng.Tasks.Machine.{
  Action, nothing, check_overflow, run_preaction, run_response, run_error_response, run_drop,
  run_workeraction, run_postaction, run_forward, run_ok_response, run_postpone,
}
use graft_ng.Tasks.Manager.{
  Kind, client_task, periodic_task, upstream_task, HandlerResult, returns, throws, Program, Manager,
  Config, task, put_task, set_error,
}
use graft_ng.Tasks.Manager.Steps.{
  finalize_as, answer_as, respond, client_done, respond_and_die, check_thread_pool_overflow,
  run_worker_action, pre_result, post_result, run_pre_action, run_post_action, with_id,
  postpone_found, postpone_task, hand_on, process_ok, process_forward, perform,
}
use graft_ng.Tasks.Manager.Counts.{}

calls-finalize_as : (k : Kind) (id : ℕ) (m : Manager) → (finalize_as k id m).calls ≡ m.calls
unfolding finalize_as
calls-finalize_as (client_task b) id m = refl
calls-finalize_as upstream_task id m = refl
calls-finalize_as periodic_task id m = ground arith

calls-answer_as :
    (k : Kind) (id : ℕ) (s : String) (m : Manager) → (answer_as k id s m).calls ≡ m.calls
unfolding answer_as respond client_done
calls-answer_as (client_task true) id s m = ground arith
calls-answer_as (client_task false) id s m = ground arith
calls-answer_as periodic_task id s m = refl
calls-answer_as upstream_task id s m = refl

calls-respond_and_die :
    (id : ℕ) (s : String) (die : Bool) (m : Manager) → (respond_and_die id s die m).calls ≡ m.calls
unfolding respond_and_die
calls-respond_and_die id s die m =
    let a = answer_as (task id m).kind id s m in
    let uuid = (task id a).ctx.uuid in
    let f =
      if nat_eqb uuid 0 then a else record a { postponed_tasks = erase uuid a.postponed_tasks } in
    let first : a.calls ≡ m.calls = calls-answer_as (task id m).kind id s m in
    let second : f.calls ≡ a.calls = ground arith in
    let third = calls-finalize_as (task id f).kind id f in
    elim die as (λ b. (if b then finalize_as (task id f).kind id f else f).calls ≡ m.calls) [
      | true ↦ third ∙ (second ∙ first)
      | false ↦ second ∙ first
    ]

calls-check : (id : ℕ) (m : Manager) → (check_thread_pool_overflow id m).calls ≡ m.calls
unfolding check_thread_pool_overflow
calls-check id m =
    let marked = put_task id (set_error "Service Unavailable" Status.busy (task id m)) m in
    ground (arith, calls-respond_and_die id "Thread pool overflow" true marked)

pub calls-pre_result :
    (id : ℕ) (h : HandlerResult) (m : Manager) → (pre_result id h m).0.calls ≡ m.calls
unfolding pre_result
calls-pre_result id (returns s ctx out) m = refl
calls-pre_result id (throws e ctx out) m = refl

pub calls-post_result :
    (id : ℕ) (h : HandlerResult) (m : Manager) → (post_result id h m).0.calls ≡ m.calls
unfolding post_result
calls-post_result id (returns s ctx out) m = refl
calls-post_result id (throws e ctx out) m = refl

module _ (p : Program) (cf : Config) where
  calls-hand_on :
      (id next now : ℕ) (o : Option ℕ) (m : Manager)
      → (hand_on p cf id next now o m).calls ≡ m.calls
  unfolding hand_on
  calls-hand_on id next now none m = refl
  calls-hand_on id next now (some other) m = refl

  calls-process_ok : (id now : ℕ) (m : Manager) → (process_ok p cf id now m).calls ≡ m.calls
  unfolding process_ok
  calls-process_ok id now m =
      let next = (task id m).ctx.next_uuid in
      let waits = lookup next m.postponed_tasks in
      let handed = if nat_eqb next 0 then m else hand_on p cf id next now waits m in
      let first : handed.calls ≡ m.calls =
        elim (nat_eqb next 0)
          as (λ b. (if b then m else hand_on p cf id next now waits m).calls ≡ m.calls) [
            | true ↦ refl
            | false ↦ calls-hand_on id next now waits m
          ] in
      calls-respond_and_die id (task id handed).output true handed ∙ first

  calls-postpone_found :
      (id uuid now : ℕ) (o : Option String) (m : Manager)
      → (postpone_found p cf id uuid now o m).calls ≡ m.calls
  unfolding postpone_found
  calls-postpone_found id uuid now none m = refl
  calls-postpone_found id uuid now (some input) m = refl

  calls-with_id : (id : ℕ) (m : Manager) → (with_id p cf id m).calls ≡ m.calls
  unfolding with_id
  calls-with_id id m = ground arith

  calls-postpone_task : (id now : ℕ) (m : Manager) → (postpone_task p cf id now m).calls ≡ m.calls
  unfolding postpone_task
  calls-postpone_task id now m0 =
      let m = with_id p cf id m0 in
      let uuid = (task id m).ctx.uuid in
      let res = ExpiringList.extract now uuid m.future_postpone_uuids in
      calls-postpone_found id uuid now res.0 (record m { future_postpone_uuids = res.1 })
      ∙ calls-with_id id m0

  calls-run_pre_action : (id : ℕ) (m : Manager) → m.calls ≤ (run_pre_action p cf id m).0.calls
  unfolding run_pre_action
  calls-run_pre_action id m =
      let h = p.pre_action m.calls (task id m) in
      ground (arith, calls-pre_result id h (record m { calls = m.calls + 1 }))

  calls-run_post_action : (id : ℕ) (m : Manager) → m.calls ≤ (run_post_action p cf id m).0.calls
  unfolding run_post_action
  calls-run_post_action id m =
      let h = p.post_action m.calls (task id m) in
      ground (arith, calls-post_result id h (record m { calls = m.calls + 1 }))

  calls-run_worker_action : (id : ℕ) (m : Manager) → (run_worker_action id m).calls ≡ m.calls
  unfolding run_worker_action
  calls-run_worker_action id m = ground arith

  -- No action takes back a call.
  pub calls-perform :
      (now id : ℕ) (a : Action) (m : Manager) → m.calls ≤ (perform p cf now id a m).0.calls
  unfolding perform process_forward
  calls-perform now id nothing m = omega arith
  calls-perform now id check_overflow m = omega (arith, calls-check id m)
  calls-perform now id run_preaction m = calls-run_pre_action id m
  calls-perform now id run_response m =
      omega (arith, calls-respond_and_die id (task id m).output false m)
  calls-perform now id run_error_response m =
      omega (arith, calls-respond_and_die id (task id m).output true m)
  calls-perform now id run_drop m = omega (arith, calls-respond_and_die id "Job done Drop." true m)
  calls-perform now id run_workeraction m = omega (arith, calls-run_worker_action id m)
  calls-perform now id run_postaction m = calls-run_post_action id m
  calls-perform now id run_forward m = omega arith
  calls-perform now id run_ok_response m = omega (arith, calls-process_ok id now m)
  calls-perform now id run_postpone m = omega (arith, calls-postpone_task id now m)
