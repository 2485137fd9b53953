-- ===== src/Tasks/Manager/Overflow.antt =====
-- The pool is never given more jobs than its queues hold.
use graft_ng.Shared.{
  ℕ, zero, suc, ◌+◌, ◌≡◌, refl, inl, inr, true, Option, none, some, List, [], ◌∷◌, arith, String,
  Bool-cases, Option-cases,
}
use graft_ng.Tasks.Status.{Status, State, same_status, same_state}
use graft_ng.Tasks.Machine.{Outcome, done, incomplete, thrown, dispatch, find_row, table}
use graft_ng.Tasks.Manager.{
  Manager, Program, Config, task, put_task, set_last_status, status_of, set_error,
}
use graft_ng.Tasks.Manager.Counts.{
  Same-trans, Same-put_task, Same-respond_and_die, Same-worker_result,
}
use graft_ng.Tasks.Manager.Steps.{perform, run_machine, execute, worker_result}
use graft_ng.Tasks.Manager.Events.{
  on_new_client, on_timer, upstream_done, try_process_ready_job, run_job,
}
use graft_ng.Tasks.Manager.Rows.{Fits, Room, Same-Fits, row_safe}

-- The bound, of what a run leaves.
abbrev pub FitsAfter : Option (Outcome Manager) → Type 0
FitsAfter none = Unit {0}
FitsAfter (some (done m)) = Fits m
FitsAfter (some (incomplete s m)) = Fits m
FitsAfter (some (thrown e m)) = Fits m

module _ (p : Program) (cf : Config) (now id : ℕ) where
  FitsAfter-run_machine :
      (fuel : ℕ) (s : State) (m : Manager)
      → Room s id m
      → Fits m
      → FitsAfter (run_machine p cf fuel s now id m)
  unfolding run_machine dispatch
  FitsAfter-run_machine zero s m h f = tt
  FitsAfter-run_machine (suc fuel) s m h f = elim (Bool-cases (same_state s State.exit)) [
    | inl over ↦ rw over f
    | inr on ↦ rw on (elim (Option-cases (find_row table s (status_of id m) (task id m).h3)) [
      | inl missing ↦ rw missing f
      | inr (r, found) ↦ rw found (
          let next = row_safe p cf now id s r m found h f in
          elim (Option-cases (perform p cf now id r.action m).1) [
            | inl fine ↦ rw fine (
                FitsAfter-run_machine fuel r.target (perform p cf now id r.action m).0 next.1
                  next.0)
            | inr (e, thrown_) ↦ rw thrown_ next.0
          ])
    ])
  ]

module _ (p : Program) (cf : Config) where
  execute-Fits : (fuel now id : ℕ) (m : Manager) → Fits m → FitsAfter (execute p cf fuel now id m)
  unfolding execute
  execute-Fits fuel now id m f = FitsAfter-run_machine p cf now id fuel State.execute m tt f

  ready_job-Fits :
      (fuel now : ℕ) (m : Manager) (q : List ℕ)
      → m.res_queue ≡ q
      → Fits m
      → FitsAfter (try_process_ready_job p cf fuel now m).0
  unfolding try_process_ready_job
  ready_job-Fits fuel now m [] e f = rw (try_process_ready_job, e) f
  ready_job-Fits fuel now m (id ∷ ids) e f =
      rw (try_process_ready_job, e)
        (FitsAfter-run_machine p cf now id fuel State.worker_action_done
          (record m { res_queue = ids; cnt_job_done = m.cnt_job_done + 1 }) (inr (omega (arith, f)))
          (omega (arith, f)))

  run_job-Fits : (id : ℕ) (m : Manager) → Fits m → Fits (run_job p cf id m)
  unfolding run_job
  run_job-Fits id m f =
      let before : Manager = record m { calls = m.calls + 1 } in
      let r = worker_result id (p.worker_action m.calls (task id m)) before in
      let after : Fits r.0 =
        Same-Fits id before r.0 (Same-worker_result id (p.worker_action m.calls (task id m)) before)
          f in
      elim (Option-cases r.1) [
        | inl fine ↦ rw (run_job, fine) after
        | inr (e, bad) ↦ rw (run_job, bad) after
      ]

  upstream_done-Fits :
      (fuel now id : ℕ) (st : Status) (err : String) (m : Manager)
      → Fits m
      → FitsAfter (upstream_done p cf fuel now id st err m)
  unfolding upstream_done
  upstream_done-Fits fuel now id st err m f = elim (Bool-cases (same_status st Status.ok)) [
    | inr failed ↦
        let m' = put_task id (set_error err st (task id m)) m in
        rw failed (
          Same-Fits id m _
            (Same-trans id m m' _ (Same-put_task id id _ m refl)
              (Same-respond_and_die id id (task id m').output true m'))
            f)
    | inl answered ↦ rw answered (elim (Bool-cases (task id m).holds_itself) [
      | inl alive ↦ rw alive (execute-Fits fuel now id m f)
      | inr gone ↦ rw gone f
    ])
  ]

  -- The jobs sent to the pool never exceed those that are done by more than the size of its
  -- queues: if this holds before a new client's task, a timer, the answer of an upstream call, a
  -- job in a thread of the pool, or the handling of a job's result, it holds in the state that is
  -- left, also when a handler throws, whatever the handlers return. Fuel that runs out leaves no
  -- state.
  pub events-Fits :
      (fuel now id : ℕ) (st : Status) (err : String) (m : Manager)
      → Fits m
      → FitsAfter (on_new_client p cf fuel now id m)
        × (FitsAfter (on_timer p cf fuel now id m)
            × (FitsAfter (upstream_done p cf fuel now id st err m)
                × (Fits (run_job p cf id m) × FitsAfter (try_process_ready_job p cf fuel now m).0)))
  unfolding on_new_client on_timer
  events-Fits fuel now id st err m f = (
    execute-Fits fuel now id (record m { cnt_base_task = m.cnt_base_task + 1 }) f,
    (
      execute-Fits fuel now id (put_task id (set_last_status Status.none (task id m)) m) f,
      (
        upstream_done-Fits fuel now id st err m f,
        (run_job-Fits id m f, ready_job-Fits fuel now m m.res_queue refl f),
      ),
    ),
  )
