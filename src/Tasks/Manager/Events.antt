-- ===== src/Tasks/Manager/Events.antt =====
-- The events that drive the task manager, each handled by the event loop in one go, but for
-- `run_job`, which a thread of the pool runs.
use graft_ng.Shared.{
  ℕ, zero, suc, ◌+◌, Bool, true, false, Option, none, some, List, [], ◌∷◌, ◌++◌, if◌then◌else◌, leb,
  String, nat_eq, lookup,
}
use graft_ng.Tasks.Status.{Status, State, same_status}
use graft_ng.Tasks.Machine.{Outcome, done, incomplete, thrown}
use graft_ng.Tasks.Manager.{Manager, Program, Config, task, put_task, set_last_status, set_error}
use graft_ng.Tasks.Manager.Steps.{respond_and_die, worker_result, run_machine, execute}

abbrev timeout_message : String
timeout_message = "Postpone task response timeout"

-- The body of the second loop of `executePostponedTasks`.
unfoldable pub expire_one : Option ℕ → Manager → Manager
expire_one none m = m
expire_one (some id) m =
    respond_and_die id timeout_message true
      (put_task id (set_error timeout_message Status.error (task id m)) m)

-- The second loop: the entry with the greatest time stands first.
unfoldable pub expire_from : ℕ → List (ℕ × ℕ) → Manager → Manager
unfolding expire_one
expire_from now [] m = record m { expire_task_queue = [] }
expire_from now ((t, uuid) ∷ q) m =
    let rest = expire_from now q (expire_one (lookup uuid m.postponed_tasks) m) in
    if leb now t then record m { expire_task_queue = (t, uuid) ∷ q } else rest

unfoldable pub tail_of : List ℕ → List ℕ
tail_of [] = []
tail_of (x ∷ xs) = xs

module _ (p : Program) (cf : Config) where
  -- The first loop: `rounds` bounds how many tasks are resumed, `fuel` each dispatch. A task leaves
  -- the queue when its dispatch has returned.
  unfoldable pub resume : ℕ → ℕ → ℕ → Manager → Option (Outcome Manager)
  resume zero fuel now m = none
  resume (suc rounds) fuel now m = elim m.ready_to_resume [
    | [] ↦ some (done m)
    | id ∷ ids ↦ elim (execute p cf fuel now id m) [
      | none ↦ none
      | some o ↦ elim o [
        | done m' ↦
            resume rounds fuel now (record m' { ready_to_resume = tail_of m'.ready_to_resume })
        | incomplete s m' ↦ some (incomplete s m')
        | thrown e m' ↦ some (thrown e m')
      ]
    ]
  ]

  unfoldable pub execute_postponed_tasks : ℕ → ℕ → ℕ → Manager → Option (Outcome Manager)
  unfolding resume expire_from
  execute_postponed_tasks rounds fuel now m = elim (resume rounds fuel now m) [
    | none ↦ none
    | some o ↦ elim o [
      | done m' ↦ some (done (expire_from now m'.expire_task_queue m'))
      | incomplete s m' ↦ some (incomplete s m')
      | thrown e m' ↦ some (thrown e m')
    ]
  ]

  unfoldable pub on_new_client : ℕ → ℕ → ℕ → Manager → Option (Outcome Manager)
  on_new_client fuel now id m =
      execute p cf fuel now id (record m { cnt_base_task = m.cnt_base_task + 1 })

  unfoldable pub on_timer : ℕ → ℕ → ℕ → Manager → Option (Outcome Manager)
  on_timer fuel now id m =
      execute p cf fuel now id (put_task id (set_last_status Status.none (task id m)) m)

  -- A job of the pool: when the handler has returned, the task goes to the queue of results. A
  -- handler that throws leaves no result.
  unfoldable pub run_job : ℕ → Manager → Manager
  unfolding worker_result
  run_job id m =
      let r =
        worker_result id (p.worker_action m.calls (task id m)) (record m { calls = m.calls + 1 }) in
      elim r.1 [ none ↦ record r.0 { res_queue = r.0.res_queue ++ id ∷ [] } | some e ↦ r.0 ]

  -- The answer and the state after it; `false` when no result is ready.
  unfoldable pub try_process_ready_job : ℕ → ℕ → Manager → Option (Outcome Manager) × Bool
  try_process_ready_job fuel now m = elim m.res_queue [
    | [] ↦ (some (done m), false)
    | id ∷ ids ↦ (
      run_machine p cf fuel State.worker_action_done now id
          (record m { res_queue = ids; cnt_job_done = m.cnt_job_done + 1 }),
      true,
    )
  ]

  -- `upstreamDoneProcess` for a task that is no `UpstreamTask`: the status and the error are those
  -- of the sender.
  unfoldable pub upstream_done : ℕ → ℕ → ℕ → Status → String → Manager → Option (Outcome Manager)
  upstream_done fuel now id st err m =
      if same_status st Status.ok
      then (if (task id m).holds_itself then execute p cf fuel now id m else some (done m))
      else some (
          done (
            let m' = put_task id (set_error err st (task id m)) m in
            respond_and_die id (task id m').output true m'))
