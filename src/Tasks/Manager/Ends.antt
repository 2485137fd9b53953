-- ===== src/Tasks/Manager/Ends.antt =====
-- Why the dispatch loop of a task ends.
use graft_ng.Shared.{
  ℕ, ◌+◌, ◌-◌, ◌*◌, ◌≤◌, ◌<◌, ◌≡◌, refl, sym, ap, ◌∙◌, Bool, true, false, not, ◌&&◌, ◌||◌, none,
  arith, if◌then◌else◌, nat_eq, String, is_some, leb, leb→le, leb→lt, Bool-cases, inl, inr,
}
use mathlib.Core.Bool.{true≢false}
use graft_ng.Tasks.Status.{Status, State, same_status}
use graft_ng.Tasks.Machine.{
  Action, nothing, check_overflow, run_preaction, run_response, run_error_response, run_drop,
  run_workeraction, run_postaction, run_forward, run_ok_response, run_postpone,
}
use graft_ng.Tasks.Machine.Ends.{asks, may_ask, ends_within}
use graft_ng.Tasks.Manager.{
  HandlerResult, returns, throws, Task, Program, Manager, Config, task, put_task, status_of,
  set_error,
}
use graft_ng.Tasks.Manager.Steps.{
  check_thread_pool_overflow, run_worker_action, pre_result, post_result, run_pre_action,
  run_post_action, perform, run_machine,
}
use graft_ng.Tasks.Manager.Counts.{Same, Same-put_task, Same-respond_and_die, task-put_task}
use graft_ng.Tasks.Manager.Quiet.{Same-perform}
use graft_ng.Tasks.Manager.Calls.{calls-pre_result, calls-post_result, calls-perform}

-- The handler asks to be called again.
abbrev pub asks_again : HandlerResult → Bool
asks_again (returns s ctx out) = same_status s Status.again
asks_again (throws e ctx out) = false

abbrev forwarded : Bool → String → Task → Task
forwarded b out t = if b then record t { input = out } else t

-- A handler that does not ask leaves another status.
status-forwarded :
    (b : Bool) (id : ℕ) (out : String) (t : Task) (m : Manager)
    → status_of id (put_task id (forwarded b out t) m) ≡ t.ctx.last_status
status-forwarded true id out t m =
    ap (λ (x : Task). x.ctx.last_status) (task-put_task id (forwarded true out t) m)
status-forwarded false id out t m =
    ap (λ (x : Task). x.ctx.last_status) (task-put_task id (forwarded false out t) m)

abbrev is_again : Status → Bool
is_again s = same_status s Status.again

status-pre_result :
    (id : ℕ) (h : HandlerResult) (m : Manager)
    → asks_again h ≡ false
    → is_again (status_of id (pre_result id h m).0) ≡ false
unfolding pre_result
status-pre_result id (returns s ctx out) m calm =
    let t : Task = record (task id m) { ctx = record ctx { last_status = s }; output = out } in
    ap is_again (
      status-forwarded
        (same_status s Status.ok && (t.h3.worker_action || t.h3.post_action)
          || same_status s Status.forward)
        id out t m)
    ∙ calm
status-pre_result id (throws e ctx out) m calm =
    ap (λ (t : Task). is_again t.ctx.last_status) (task-put_task id _ m)

-- A status that is kept is the one of a task that is forwarded.
status-kept :
    (b : Bool) (id : ℕ) (t u : Task) (m : Manager)
    → same_status t.ctx.last_status Status.forward ≡ b
    → is_again u.ctx.last_status ≡ false
    → is_again (status_of id (put_task id (if b then t else u) m)) ≡ false
status-kept true id t u m kept calm =
    ap (λ (x : Task). is_again x.ctx.last_status) (task-put_task id t m) ∙ ground (arith, kept)
status-kept false id t u m kept calm =
    ap (λ (x : Task). is_again x.ctx.last_status) (task-put_task id u m) ∙ calm

status-post_result :
    (id : ℕ) (h : HandlerResult) (m : Manager)
    → asks_again h ≡ false
    → is_again (status_of id (post_result id h m).0) ≡ false
unfolding post_result
status-post_result id (returns s ctx out) m calm =
    status-kept (same_status ctx.last_status Status.forward) id _ _ m refl (ground (arith, calm))
status-post_result id (throws e ctx out) m calm =
    ap (λ (t : Task). is_again t.ctx.last_status) (task-put_task id _ m)

module _ (p : Program) (cf : Config) where
  handlers-perform :
      (now id : ℕ) (a : Action) (m : Manager)
      → (task id (perform p cf now id a m).0).h3 ≡ (task id m).h3
  unfolding perform check_thread_pool_overflow run_worker_action
  handlers-perform now id check_overflow m =
      let busy_task = set_error "Service Unavailable" Status.busy (task id m) in
      let marked = put_task id busy_task m in
      let marks : Same id m marked = Same-put_task id id busy_task m refl in
      let tells = Same-respond_and_die id id "Thread pool overflow" true marked in
      ground (arith, marks, tells)
  handlers-perform now id run_workeraction m = ground arith
  handlers-perform now id nothing m = refl
  handlers-perform now id run_preaction m = (Same-perform p cf now id run_preaction m refl).handlers
  handlers-perform now id run_response m = (Same-perform p cf now id run_response m refl).handlers
  handlers-perform now id run_error_response m =
      (Same-perform p cf now id run_error_response m refl).handlers
  handlers-perform now id run_drop m = (Same-perform p cf now id run_drop m refl).handlers
  handlers-perform now id run_postaction m =
      (Same-perform p cf now id run_postaction m refl).handlers
  handlers-perform now id run_forward m = (Same-perform p cf now id run_forward m refl).handlers
  handlers-perform now id run_ok_response m =
      (Same-perform p cf now id run_ok_response m refl).handlers
  handlers-perform now id run_postpone m = (Same-perform p cf now id run_postpone m refl).handlers

  called_pre :
      (id : ℕ) (m : Manager) (b : Bool)
      → (task id m).h3.pre_action ≡ b
      → run_pre_action p cf id m ≡ (
          if b
          then pre_result id (p.pre_action m.calls (task id m)) (record m { calls = m.calls + 1 })
          else (m, none))
  unfolding run_pre_action
  called_pre id m true e = rw e refl
  called_pre id m false e = rw e refl

  called_post :
      (id : ℕ) (m : Manager)
      → (task id m).h3.post_action ≡ true
      → run_post_action p cf id m
        ≡ post_result id (p.post_action m.calls (task id m)) (record m { calls = m.calls + 1 })
  unfolding run_post_action
  called_post id m e = rw e refl

  -- A call before the last that may ask takes from the number of those that are left.
  spent :
      (n k k' : ℕ) (h : HandlerResult)
      → (n ≤ k → asks_again h ≡ false)
      → asks_again h ≡ true
      → k' ≡ k + 1
      → n - k' < n - k
  spent n k k' h calm asks e = elim (Bool-cases (leb n k)) [
    | inl late ↦ absurd (true≢false (sym asks ∙ calm (leb→le n k late)))
    | inr early ↦ omega (arith, leb→lt n k early)
  ]

  module _ (n : ℕ) (calm_pre : (k : ℕ) (t : Task) → n ≤ k → asks_again (p.pre_action k t) ≡ false)
      (calm_post : (k : ℕ) (t : Task) → n ≤ k → asks_again (p.post_action k t) ≡ false) where
    pre_paid :
        (id : ℕ) (m : Manager)
        → not (is_again (status_of id m)) ≡ true
        → is_again (status_of id (run_pre_action p cf id m).0) ≡ true
        → n - (run_pre_action p cf id m).0.calls < n - m.calls
    pre_paid id m before after =
        let h = p.pre_action m.calls (task id m) in
        let m1 = record m { calls = m.calls + 1 } in
        elim (Bool-cases (task id m).h3.pre_action) [
          | inr has_not ↦
              let same = called_pre id m false has_not in
              let again : is_again (status_of id m) ≡ true =
                sym (ap (λ x. is_again (status_of id x.0)) same) ∙ after in
              absurd (true≢false (sym before ∙ ap not again))
          | inl has ↦
              let same = called_pre id m true has in
              let again = sym (ap (λ x. is_again (status_of id x.0)) same) ∙ after in
              elim (Bool-cases (asks_again h)) [
                | inr calm ↦ absurd (true≢false (sym again ∙ status-pre_result id h m1 calm))
                | inl asks ↦
                    spent n m.calls _ h (calm_pre m.calls (task id m)) asks
                      (ap (λ x. x.0.calls) same ∙ calls-pre_result id h m1)
              ]
        ]

    post_paid :
        (id : ℕ) (m : Manager)
        → (task id m).h3.post_action ≡ true
        → is_again (status_of id (run_post_action p cf id m).0) ≡ true
        → n - (run_post_action p cf id m).0.calls < n - m.calls
    post_paid id m has after =
        let h = p.post_action m.calls (task id m) in
        let m1 = record m { calls = m.calls + 1 } in
        let same = called_post id m has in
        let again = sym (ap (λ x. is_again (status_of id x.0)) same) ∙ after in
        elim (Bool-cases (asks_again h)) [
          | inr calm ↦ absurd (true≢false (sym again ∙ status-post_result id h m1 calm))
          | inl asks ↦
              spent n m.calls _ h (calm_post m.calls (task id m)) asks
                (ap (λ x. x.0.calls) same ∙ calls-post_result id h m1)
        ]

    asking_paid :
        (now id : ℕ) (a : Action) (m : Manager)
        → (task id m).h3.post_action ≡ true
        → may_ask (status_of id m) a ≡ true
        → asks a ≡ true
        → is_again (status_of id (perform p cf now id a m).0) ≡ true
        → n - (perform p cf now id a m).0.calls < n - m.calls
    unfolding perform
    asking_paid now id run_preaction m has may asked again = pre_paid id m may again
    asking_paid now id run_postaction m has may asked again = post_paid id m has again
    asking_paid now id nothing m has may asked again = absurd (true≢false (sym asked))
    asking_paid now id check_overflow m has may asked again = absurd (true≢false (sym asked))
    asking_paid now id run_response m has may asked again = absurd (true≢false (sym asked))
    asking_paid now id run_error_response m has may asked again = absurd (true≢false (sym asked))
    asking_paid now id run_drop m has may asked again = absurd (true≢false (sym asked))
    asking_paid now id run_workeraction m has may asked again = absurd (true≢false (sym asked))
    asking_paid now id run_forward m has may asked again = absurd (true≢false (sym asked))
    asking_paid now id run_ok_response m has may asked again = absurd (true≢false (sym asked))
    asking_paid now id run_postpone m has may asked again = absurd (true≢false (sym asked))

    -- If the pre action and the post action no longer ask to be called again from the call of the
    -- number `n` on, the loop of a task with a post action ends, from whatever state it starts and
    -- whatever the handlers return otherwise: fuel for ten turns, and two more for each call that is
    -- left before `n`, is enough. It ends with a result or an exception.
    pub run_machine_ends :
        (fuel now id : ℕ) (s : State) (m : Manager)
        → (task id m).h3.post_action ≡ true
        → 10 + 2 * (n - m.calls) ≤ fuel
        → is_some (run_machine p cf fuel s now id m) ≡ true
    unfolding run_machine
    run_machine_ends fuel now id s m has enough =
        ends_within (status_of id) (λ w. (task id w).h3) (perform p cf now id) (λ w. n - w.calls)
          (λ w. (task id w).h3.post_action ≡ true)
          (λ a w g. ap (λ h. h.post_action) (handlers-perform now id a w) ∙ g)
          (λ a w g. omega (arith, calls-perform p cf now id a w))
          (λ a w g. asking_paid now id a w g) fuel s m has enough
