-- ===== src/Tasks/Manager/Rows.antt =====
-- Every row of the table keeps the bound on the jobs in the pool.
use graft_ng.Shared.{
  ℕ, ◌+◌, ◌-◌, ◌≤◌, ◌<◌, ◌≡◌, refl, ◌⊎◌, inl, inr, true, false, some, [], ◌∷◌, arith, nat_eqb, ◌&&◌,
  Bool-cases, All, ap, ◌∙◌, subst,
}
use graft_ng.Tasks.Status.{Status, State}
use graft_ng.Tasks.Machine.{
  Action, nothing, check_overflow, run_workeraction, run_preaction, run_response,
  run_error_response, run_drop, run_postaction, run_forward, run_ok_response, run_postpone, Row,
  find_row, table, admits,
}
use graft_ng.Tasks.Manager.{Manager, Program, Config, task, put_task, status_of, set_error}
use graft_ng.Tasks.Manager.Counts.{
  Same, Same-trans, Same-put_task, Same-respond_and_die, task-put_task, status-respond_and_die,
}
use graft_ng.Tasks.Manager.Quiet.{is_quiet, Same-perform}
use graft_ng.Tasks.Manager.Steps.{
  perform, respond_and_die, check_thread_pool_overflow, run_worker_action,
}
use graft_ng.Tasks.Machine.Search.{same_state_eq, find_row-All}

-- The jobs that have been sent exceed those that are done by no more than the size of the queues.
abbrev pub Fits : Manager → Type 0
Fits m = m.cnt_job_sent ≤ m.cnt_job_done + m.thread_pool_input_size

-- If the task has a worker action, one more job fits.
abbrev pub HasRoom : ℕ → Manager → Type 0
HasRoom id m =
    ((task id m).h3.worker_action ≡ false)
    ⊎ (m.cnt_job_sent < m.cnt_job_done + m.thread_pool_input_size)

-- What holds of a task when the machine is in a state.
abbrev pub Room : State → ℕ → Manager → Type 0
Room State.pre_action id m = (status_of id m ≡ Status.busy) ⊎ HasRoom id m
Room State.chk_pre_action id m = HasRoom id m
Room State.worker_action id m = HasRoom id m
Room State.worker_action_done id m = HasRoom id m
Room _ id m = Unit {0}

Same-HasRoom : (id : ℕ) (m n : Manager) → Same id m n → HasRoom id m → HasRoom id n
Same-HasRoom id m n s (inl h) = inl (ap (λ x. x.worker_action) s.handlers ∙ h)
Same-HasRoom id m n s (inr h) = inr (rw (s.sent, s.finished, s.size) h)

pub Same-Fits : (id : ℕ) (m n : Manager) → Same id m n → Fits m → Fits n
Same-Fits id m n s h = rw (s.sent, s.finished, s.size) h

module _ (p : Program) (cf : Config) (now id : ℕ) where
  -- A row whose action keeps the bound, and leaves what must hold in the next state.
  abbrev IsSafe : Row → Type 0
  IsSafe r =
      (m : Manager)
      → Room r.start id m
      → admits r.statuses (status_of id m) ≡ true
      → Fits m
      → Fits (perform p cf now id r.action m).0
        × Room r.target id (perform p cf now id r.action m).0

  quiet-Fits :
      (a : Action) (m : Manager) → is_quiet a ≡ true → Fits m → Fits (perform p cf now id a m).0
  quiet-Fits a m q f = Same-Fits id m _ (Same-perform p cf now id a m q) f

  quiet-HasRoom :
      (a : Action) (m : Manager)
      → is_quiet a ≡ true
      → HasRoom id m
      → HasRoom id (perform p cf now id a m).0
  quiet-HasRoom a m q h = Same-HasRoom id m _ (Same-perform p cf now id a m q) h

  check-Fits :
      (m : Manager)
      → Fits m
      → Fits (check_thread_pool_overflow id m)
        × Room State.pre_action id (check_thread_pool_overflow id m)
  unfolding check_thread_pool_overflow
  check-Fits m f =
      let busy_task = set_error "Service Unavailable" Status.busy (task id m) in
      let marked = put_task id busy_task m in
      let told = respond_and_die id "Thread pool overflow" true marked in
      let marks : Same id m marked = Same-put_task id id busy_task m refl in
      let tells = Same-respond_and_die id id "Thread pool overflow" true marked in
      let status : status_of id told ≡ Status.busy =
        status-respond_and_die id "Thread pool overflow" true marked
        ∙ ap (λ t. t.ctx.last_status) (task-put_task id busy_task m) in
      elim (Bool-cases (
        (task id m).h3.worker_action
        && nat_eqb (m.cnt_job_sent - m.cnt_job_done) m.thread_pool_input_size)) [
          | inl over ↦
              rw (check_thread_pool_overflow, over)
                (Same-Fits id m told (Same-trans id m marked told marks tells) f, inl status)
          | inr room ↦ rw (check_thread_pool_overflow, room) (f, inr (ground arith))
        ]

  send-Fits : (m : Manager) → HasRoom id m → Fits m → Fits (run_worker_action id m)
  unfolding run_worker_action
  send-Fits m (inl h) f = ground arith
  send-Fits m (inr h) f = ground arith

  -- A row whose action is quiet and which leads to a state where nothing must hold.
  end_row :
      (a : Action) (m : Manager)
      → is_quiet a ≡ true
      → Fits m
      → Fits (perform p cf now id a m).0 × Unit {0}
  end_row a m q f = (quiet-Fits a m q f, tt)

  room_row :
      (a : Action) (m : Manager)
      → is_quiet a ≡ true
      → HasRoom id m
      → Fits m
      → Fits (perform p cf now id a m).0 × HasRoom id (perform p cf now id a m).0
  room_row a m q h f = (quiet-Fits a m q f, quiet-HasRoom a m q h)

  start_row :
      (m : Manager)
      → Fits m
      → Fits (perform p cf now id check_overflow m).0
        × Room State.pre_action id (perform p cf now id check_overflow m).0
  unfolding perform
  start_row m f = check-Fits m f

  worker_row :
      (m : Manager) → HasRoom id m → Fits m → Fits (perform p cf now id run_workeraction m).0
  unfolding perform
  worker_row m h f = send-Fits m h f

  not_busy :
      (m : Manager)
      → admits (Status.none ∷ Status.ok ∷ Status.forward ∷ Status.postpone ∷ []) (status_of id m)
        ≡ true
      → Room State.pre_action id m
      → HasRoom id m
  not_busy m ok (inr h) = h
  not_busy m ok (inl b) = ground arith

  again_row :
      (m : Manager)
      → HasRoom id m
      → Fits m
      → Fits (perform p cf now id run_response m).0
        × Room State.pre_action id (perform p cf now id run_response m).0
  again_row m h f = (quiet-Fits run_response m refl f, inr (quiet-HasRoom run_response m refl h))

  table-IsSafe : All IsSafe table
  unfolding table
  table-IsSafe = (
    (λ m h ok f. start_row m f),
    (
      (λ m h ok f. end_row nothing m refl f),
      (
        (λ m h ok f. room_row run_preaction m refl (not_busy m ok h) f),
        (
          (λ m h ok f. again_row m h f),
          (
            (λ m h ok f. room_row nothing m refl h f),
            (
              (λ m h ok f. end_row nothing m refl f),
              (
                (λ m h ok f. end_row run_error_response m refl f),
                (
                  (λ m h ok f. end_row run_drop m refl f),
                  (
                    (λ m h ok f. room_row nothing m refl h f),
                    (
                      (λ m h ok f. (worker_row m h f, tt)),
                      (
                        (λ m h ok f. end_row nothing m refl f),
                        (
                          (λ m h ok f. end_row nothing m refl f),
                          (
                            (λ m h ok f. room_row run_response m refl h f),
                            (
                              (λ m h ok f. end_row nothing m refl f),
                              (
                                (λ m h ok f. end_row run_postaction m refl f),
                                (
                                  (λ m h ok f. end_row run_response m refl f),
                                  (
                                    (λ m h ok f. end_row run_forward m refl f),
                                    (
                                      (λ m h ok f. end_row run_ok_response m refl f),
                                      (
                                        (λ m h ok f. end_row run_error_response m refl f),
                                        (
                                          (λ m h ok f. end_row run_drop m refl f),
                                          ((λ m h ok f. end_row run_postpone m refl f), tt),
                                        ),
                                      ),
                                    ),
                                  ),
                                ),
                              ),
                            ),
                          ),
                        ),
                      ),
                    ),
                  ),
                ),
              ),
            ),
          ),
        ),
      ),
    ),
  )

  pub row_safe :
      (s : State) (r : Row) (m : Manager)
      → find_row table s (status_of id m) (task id m).h3 ≡ some r
      → Room s id m
      → Fits m
      → Fits (perform p cf now id r.action m).0
        × Room r.target id (perform p cf now id r.action m).0
  row_safe s r m e h f =
      let found = find_row-All IsSafe table s (status_of id m) (task id m).h3 r table-IsSafe e in
      found.0 m (subst (λ t. Room t id m) (same_state_eq s r.start found.1.0) h) found.1.1 f
