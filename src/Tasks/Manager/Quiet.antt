-- ===== src/Tasks/Manager/Quiet.antt =====
-- The actions that neither send a job nor check the pool leave its counts as they are.
use graft_ng.Shared.{
  ℕ, ◌+◌, ◌≡◌, refl, Bool, true, false, Option, none, some, arith, if◌then◌else◌, nat_eqb, nat_eq,
  lookup, not, String,
}
use graft_ng.Tasks.ExpiringList
use graft_ng.Tasks.Machine.{
  Action, nothing, check_overflow, run_workeraction, run_preaction, run_response,
  run_error_response, run_drop, run_postaction, run_forward, run_ok_response, run_postpone,
}
use graft_ng.Tasks.Manager.{Manager, Program, Config, task}
use graft_ng.Tasks.Manager.Steps.{
  perform, pre_result, post_result, run_pre_action, run_post_action, process_ok, hand_on,
  postpone_task, postpone_found, with_id,
}
use graft_ng.Tasks.Manager.Counts.{
  Same, Same-trans, Same-put_task, Same-respond_and_die, Same-pre_result, Same-post_result,
}

-- The actions other than the check and the sending of a job.
abbrev pub is_quiet : Action → Bool
is_quiet check_overflow = false
is_quiet run_workeraction = false
is_quiet _ = true

module _ (p : Program) (cf : Config) where
  Same-run_pre_action : (id : ℕ) (m : Manager) → Same id m (run_pre_action p cf id m).0
  unfolding run_pre_action
  Same-run_pre_action id m =
      let r =
        Same-pre_result id (p.pre_action m.calls (task id m)) (record m { calls = m.calls + 1 }) in
      elim (task id m).h3.pre_action
        as (λ b.
          Same id m
            (if not b
              then (m, none)
              else pre_result id (p.pre_action m.calls (task id m))
                  (record m { calls = m.calls + 1 })).0) [
                    | true ↦ record {
                      sent = r.sent;
                      finished = r.finished;
                      size = r.size;
                      handlers = r.handlers;
                    }
                    | false ↦ record { sent = refl; finished = refl; size = refl; handlers = refl }
                  ]

  Same-run_post_action : (id : ℕ) (m : Manager) → Same id m (run_post_action p cf id m).0
  unfolding run_post_action
  Same-run_post_action id m =
      let r =
        Same-post_result id (p.post_action m.calls (task id m))
          (record m { calls = m.calls + 1 }) in
      elim (task id m).h3.post_action
        as (λ b.
          Same id m
            (if not b
              then (m, none)
              else post_result id (p.post_action m.calls (task id m))
                  (record m { calls = m.calls + 1 })).0) [
                    | true ↦ record {
                      sent = r.sent;
                      finished = r.finished;
                      size = r.size;
                      handlers = r.handlers;
                    }
                    | false ↦ record { sent = refl; finished = refl; size = refl; handlers = refl }
                  ]

  Same-with_id : (id : ℕ) (m : Manager) → Same id m (with_id p cf id m)
  unfolding with_id
  Same-with_id id m =
      let r =
        Same-put_task id id
          (record (task id m) { ctx = record (task id m).ctx { uuid = p.random_uuid m.drawn } })
          (record m { drawn = m.drawn + 1 }) refl in
      ground (arith, r)

  Same-postpone_found :
      (id uuid now : ℕ) (o : Option String) (m : Manager)
      → Same id m (postpone_found p cf id uuid now o m)
  unfolding postpone_found
  Same-postpone_found id uuid now none m = record {
    sent = refl;
    finished = refl;
    size = refl;
    handlers = refl;
  }
  Same-postpone_found id uuid now (some input) m =
      let r = Same-put_task id id (record (task id m) { input = input }) m refl in
      record { sent = refl; finished = refl; size = refl; handlers = r.handlers }

  Same-postpone_task : (id now : ℕ) (m : Manager) → Same id m (postpone_task p cf id now m)
  unfolding postpone_task
  Same-postpone_task id now m0 =
      let m = with_id p cf id m0 in
      let uuid = (task id m).ctx.uuid in
      let res = ExpiringList.extract now uuid m.future_postpone_uuids in
      let rest : Manager = record m { future_postpone_uuids = res.1 } in
      let kept : Same id m rest = record {
        sent = refl;
        finished = refl;
        size = refl;
        handlers = refl;
      } in
      Same-trans id m0 m _ (Same-with_id id m0)
        (Same-trans id m rest _ kept (Same-postpone_found id uuid now res.0 rest))

  Same-hand_on :
      (id next now : ℕ) (o : Option ℕ) (m : Manager) → Same id m (hand_on p cf id next now o m)
  unfolding hand_on
  Same-hand_on id next now none m = record {
    sent = refl;
    finished = refl;
    size = refl;
    handlers = refl;
  }
  Same-hand_on id next now (some other) m =
      let r = Same-put_task id other (record (task other m) { input = (task id m).input }) m refl in
      record { sent = refl; finished = refl; size = refl; handlers = r.handlers }

  Same-process_ok : (id now : ℕ) (m : Manager) → Same id m (process_ok p cf id now m)
  unfolding process_ok
  Same-process_ok id now m =
      let next = (task id m).ctx.next_uuid in
      let waits = lookup next m.postponed_tasks in
      let handed = if nat_eqb next 0 then m else hand_on p cf id next now waits m in
      let first : Same id m handed =
        elim (nat_eqb next 0)
          as (λ b. Same id m (if b then m else hand_on p cf id next now waits m)) [
            | true ↦ record { sent = refl; finished = refl; size = refl; handlers = refl }
            | false ↦ Same-hand_on id next now waits m
          ] in
      Same-trans id m handed _ first
        (Same-respond_and_die id id (task id handed).output true handed)

  pub Same-perform :
      (now id : ℕ) (a : Action) (m : Manager)
      → is_quiet a ≡ true
      → Same id m (perform p cf now id a m).0
  unfolding perform
  Same-perform now id nothing m q = record {
    sent = refl;
    finished = refl;
    size = refl;
    handlers = refl;
  }
  Same-perform now id check_overflow m q = ground arith
  Same-perform now id run_preaction m q = Same-run_pre_action id m
  Same-perform now id run_response m q = Same-respond_and_die id id (task id m).output false m
  Same-perform now id run_error_response m q = Same-respond_and_die id id (task id m).output true m
  Same-perform now id run_drop m q = Same-respond_and_die id id "Job done Drop." true m
  Same-perform now id run_workeraction m q = ground arith
  Same-perform now id run_postaction m q = Same-run_post_action id m
  Same-perform now id run_forward m q = record {
    sent = refl;
    finished = refl;
    size = refl;
    handlers = refl;
  }
  Same-perform now id run_ok_response m q = Same-process_ok id now m
  Same-perform now id run_postpone m q = Same-postpone_task id now m
