-- ===== src/Tasks/Manager/Again.antt =====
-- A pre action that asks to be called again.
use graft_ng.Shared.{
  ℕ, suc, ◌+◌, ◌≤◌, ◌-◌, ◌&&◌, ◌≡◌, refl, ap, subst, ◌∙◌, true, false, none, some, [], ◌∷◌, ◌++◌,
  String, nat_eqb, nat_eq, arith,
}
use graft_ng.Tasks.Status.{Status, State, same_state}
use graft_ng.Tasks.Machine.{
  Handler3, Action, check_overflow, run_preaction, run_response, unguarded, Row, Step, incomplete,
  table, find_row, dispatch,
}
use graft_ng.Tasks.Manager.{
  client_task, Context, Task, returns, Program, Manager, Config, task, put_task, status_of,
}
use graft_ng.Tasks.Manager.Counts.{task-put_task, status-respond_and_die}
use graft_ng.Tasks.Manager.Steps.{
  answer_as, respond, client_done, http_code, pre_result, perform, execute, run_machine,
  check_thread_pool_overflow, run_pre_action, respond_and_die,
}

module _ {ℓ} {W : Type ℓ} (status : W → Status) (handlers : W → Handler3)
    (perform : Action → W → Step W) where
  -- One turn of the loop.
  dispatch-row :
      (fuel : ℕ) (s : State) (w : W) (r : Row)
      → same_state s State.exit ≡ false
      → find_row table s (status w) (handlers w) ≡ some r
      → (perform r.action w).1 ≡ none
      → dispatch status handlers perform (suc fuel) s w
        ≡ dispatch status handlers perform fuel r.target (perform r.action w).0
  unfolding dispatch
  dispatch-row fuel s w r going fits went = rw (dispatch, going, fits, went) refl

  -- The turn in which no row fits.
  dispatch-incomplete :
      (fuel : ℕ) (s : State) (w : W)
      → same_state s State.exit ≡ false
      → find_row table s (status w) (handlers w) ≡ none
      → dispatch status handlers perform (suc fuel) s w ≡ some (incomplete s w)
  unfolding dispatch
  dispatch-incomplete fuel s w going none_fits = rw (dispatch, going, none_fits) refl

-- The rows that a task takes whose pre action asks to be called again.
row_of_execute :
    (st : Status) (h : Handler3)
    → find_row table State.execute st h
      ≡ some (record {
        start = State.execute;
        statuses = [];
        target = State.pre_action;
        guard = unguarded;
        action = check_overflow;
      })
unfolding find_row table
row_of_execute st h = refl

row_of_pre_action :
    (h : Handler3)
    → find_row table State.pre_action Status.none h
      ≡ some (record {
        start = State.pre_action;
        statuses = Status.none ∷ Status.ok ∷ Status.forward ∷ Status.postpone ∷ [];
        target = State.chk_pre_action;
        guard = unguarded;
        action = run_preaction;
      })
unfolding find_row table
row_of_pre_action h = refl

row_of_again :
    (h : Handler3)
    → find_row table State.chk_pre_action Status.again h
      ≡ some (record {
        start = State.chk_pre_action;
        statuses = Status.again ∷ [];
        target = State.pre_action;
        guard = unguarded;
        action = run_response;
      })
unfolding find_row table
row_of_again h = refl

no_row : (h : Handler3) → find_row table State.pre_action Status.again h ≡ none
unfolding find_row table
no_row h = refl

module _ (p : Program) (cf : Config) where
  no_overflow :
      (id : ℕ) (m : Manager)
      → ((task id m).h3.worker_action
          && nat_eqb (m.cnt_job_sent - m.cnt_job_done) m.thread_pool_input_size)
        ≡ false
      → check_thread_pool_overflow id m ≡ m
  unfolding check_thread_pool_overflow
  no_overflow id m room = rw room refl

  -- What the pre action leaves.
  abbrev asked : ℕ → Context → String → Manager → Manager
  asked id ctx out m =
      put_task id
        (record (task id m) { ctx = record ctx { last_status = Status.again }; output = out })
        (record m { calls = m.calls + 1 })

  pre_asks :
      (id : ℕ) (m : Manager) (ctx : Context) (out : String)
      → (task id m).h3.pre_action ≡ true
      → p.pre_action m.calls (task id m) ≡ returns Status.again ctx out
      → run_pre_action p cf id m ≡ (asked id ctx out m, none)
  unfolding run_pre_action pre_result
  pre_asks id m ctx out has asks = rw (has, asks) refl

  -- The answer that the client gets meanwhile.
  answered :
      (id : ℕ) (out : String) (m : Manager)
      → (task id m).kind ≡ client_task true
      → status_of id m ≡ Status.again
      → ((respond_and_die id out false m).responses ≡ m.responses ++ (id, 200, out) ∷ [])
        × ((respond_and_die id out false m).cnt_base_task_done ≡ m.cnt_base_task_done)
        × ((respond_and_die id out false m).calls ≡ m.calls)
  unfolding respond_and_die answer_as respond client_done http_code
  answered id out m k st = ground (arith, k, st)

  run_again :
      (fuel now id : ℕ) (m : Manager) (ctx : Context) (out : String)
      → status_of id m ≡ Status.none
      → (task id m).h3.pre_action ≡ true
      → ((task id m).h3.worker_action
          && nat_eqb (m.cnt_job_sent - m.cnt_job_done) m.thread_pool_input_size)
        ≡ false
      → p.pre_action m.calls (task id m) ≡ returns Status.again ctx out
      → execute p cf (suc (suc (suc (suc fuel)))) now id m
        ≡ some (incomplete State.pre_action (respond_and_die id out false (asked id ctx out m)))
  unfolding execute run_machine perform
  run_again fuel now id m ctx out fresh has room asks =
      let st = status_of id in
      let hs : Manager → Handler3 = λ w. (task id w).h3 in
      let act = perform p cf now id in
      let m1 = asked id ctx out m in
      let m2 = respond_and_die id out false m1 in
      let t1 : task id m1
          ≡ record (task id m) { ctx = record ctx { last_status = Status.again }; output = out } =
        task-put_task id _ (record m { calls = m.calls + 1 }) in
      let s1 : st m1 ≡ Status.again = ap (λ (t : Task). t.ctx.last_status) t1 in
      let o1 : (task id m1).output ≡ out = ap (λ (t : Task). t.output) t1 in
      let s2 : st m2 ≡ Status.again = status-respond_and_die id out false m1 ∙ s1 in
      let asked_by = pre_asks id m ctx out has asks in
      let first =
        dispatch-row st hs act (suc (suc (suc fuel))) State.execute m _ refl
          (row_of_execute (st m) (hs m)) refl in
      let second =
        dispatch-row st hs act (suc (suc fuel)) State.pre_action m _ refl
          (ap (λ x. find_row table State.pre_action x (hs m)) fresh ∙ row_of_pre_action (hs m))
          (ap (λ x. x.1) asked_by) in
      let third =
        dispatch-row st hs act (suc fuel) State.chk_pre_action m1 _ refl
          (ap (λ x. find_row table State.chk_pre_action x (hs m1)) s1 ∙ row_of_again (hs m1))
          refl in
      let fourth =
        dispatch-incomplete st hs act fuel State.pre_action m2 refl
          (ap (λ x. find_row table State.pre_action x (hs m2)) s2 ∙ no_row (hs m2)) in
      first
      ∙ (ap (λ x. dispatch st hs act (suc (suc (suc fuel))) State.pre_action x)
            (no_overflow id m room)
          ∙ (second
              ∙ (ap (λ x. dispatch st hs act (suc (suc fuel)) State.chk_pre_action x.0) asked_by
                  ∙ (third
                      ∙ (ap
                            (λ o.
                              dispatch st hs act (suc fuel) State.pre_action
                                (respond_and_die id o false m1))
                            o1
                          ∙ fourth)))))

  -- A task of a connected client that no handler has worked on, for which the pool has room, and
  -- whose pre action asks to be called again, is called just that once: the client is answered with
  -- the output of that call and the code 200, and then no row of the table fits, so that the loop,
  -- with fuel for at least four turns, ends in the error of the incomplete table, with the task not
  -- counted as done.
  pub pre_action_again :
      (fuel now id : ℕ) (m : Manager) (ctx : Context) (out : String)
      → (task id m).kind ≡ client_task true
      → status_of id m ≡ Status.none
      → (task id m).h3.pre_action ≡ true
      → ((task id m).h3.worker_action
          && nat_eqb (m.cnt_job_sent - m.cnt_job_done) m.thread_pool_input_size)
        ≡ false
      → p.pre_action m.calls (task id m) ≡ returns Status.again ctx out
      → 4 ≤ fuel
      → (after : Manager) × (execute p cf fuel now id m ≡ some (incomplete State.pre_action after))
        × (after.responses ≡ m.responses ++ (id, 200, out) ∷ [])
        × (after.cnt_base_task_done ≡ m.cnt_base_task_done)
        × (after.calls ≡ m.calls + 1)
  pre_action_again fuel now id m ctx out k fresh has room asks enough =
      let e : suc (suc (suc (suc (fuel - 4)))) ≡ fuel = omega arith in
      let m1 = asked id ctx out m in
      let t1 : task id m1
          ≡ record (task id m) { ctx = record ctx { last_status = Status.again }; output = out } =
        task-put_task id _ (record m { calls = m.calls + 1 }) in
      let told =
        answered id out m1 (ap (λ (t : Task). t.kind) t1 ∙ k)
          (ap (λ (t : Task). t.ctx.last_status) t1) in
      (
        respond_and_die id out false m1,
        subst
            (λ f.
              execute p cf f now id m
              ≡ some (incomplete State.pre_action (respond_and_die id out false m1)))
            e (run_again (fuel - 4) now id m ctx out fresh has room asks),
        told.0,
        told.1,
        told.2,
      )
