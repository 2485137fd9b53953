-- ===== src/Tasks/Manager/Counts.antt =====
-- Steps that leave the counts of the pool, and the handlers of a task, as they are.
use graft_ng.Shared.{
  ℕ, ◌≡◌, refl, Bool, true, false, arith, ap, ◌∙◌, if◌then◌else◌, nat_eqb, nat_eq, lookup-assign,
  erase, String,
}
use graft_ng.Tasks.Manager.{
  status_of, Task, Kind, client_task, periodic_task, upstream_task, Manager, HandlerResult, returns,
  throws, task, put_task,
}
use graft_ng.Tasks.Manager.Steps.{
  worker_result, respond_and_die, answer_as, finalize_as, pre_result, post_result,
}

-- The three counts of the pool, and which handlers a task has.
pub record Same (id : ℕ) (m n : Manager) : Type 0 where
  pub sent : n.cnt_job_sent ≡ m.cnt_job_sent
  pub finished : n.cnt_job_done ≡ m.cnt_job_done
  pub size : n.thread_pool_input_size ≡ m.thread_pool_input_size
  pub handlers : (task id n).h3 ≡ (task id m).h3

pub Same-trans : (id : ℕ) (a b c : Manager) → Same id a b → Same id b c → Same id a c
Same-trans id a b c h k = ground arith

-- Writing a task that has the handlers it had.
pub Same-put_task :
    (id other : ℕ) (t : Task) (m : Manager)
    → t.h3 ≡ (task other m).h3
    → Same id m (put_task other t m)
Same-put_task id other t m e = ground (arith, lookup-assign other id t m.tasks)

Same-finalize_as : (k : Kind) (id other : ℕ) (m : Manager) → Same id m (finalize_as k other m)
unfolding finalize_as
Same-finalize_as (client_task b) id other m =
    Same-put_task id other (record (task other m) { holds_itself = false }) m refl
Same-finalize_as upstream_task id other m =
    Same-put_task id other (record (task other m) { holds_itself = false }) m refl
Same-finalize_as periodic_task id other m =
    let stopped = Same-put_task id other (record (task other m) { holds_itself = false }) m refl in
    ground (arith, stopped)

Same-answer_as :
    (k : Kind) (id other : ℕ) (s : String) (m : Manager) → Same id m (answer_as k other s m)
unfolding answer_as
Same-answer_as (client_task true) id other s m =
    ground
      (arith, lookup-assign other id (record (task other m) { kind = client_task false }) m.tasks)
Same-answer_as (client_task false) id other s m = ground arith
Same-answer_as periodic_task id other s m = ground arith
Same-answer_as upstream_task id other s m = ground arith

pub Same-respond_and_die :
    (id other : ℕ) (s : String) (die : Bool) (m : Manager)
    → Same id m (respond_and_die other s die m)
unfolding respond_and_die
Same-respond_and_die id other s die m =
    let a = answer_as (task other m).kind other s m in
    let uuid = (task other a).ctx.uuid in
    let f =
      if nat_eqb uuid 0 then a else record a { postponed_tasks = erase uuid a.postponed_tasks } in
    let first : Same id m a = Same-answer_as (task other m).kind id other s m in
    let second : Same id a f = ground arith in
    let third : Same id f (finalize_as (task other f).kind other f) =
      Same-finalize_as (task other f).kind id other f in
    let both = Same-trans id m a f first second in
    elim die as (λ b. Same id m (if b then finalize_as (task other f).kind other f else f)) [
      | true ↦ Same-trans id m f _ both third
      | false ↦ both
    ]

pub task-put_task : (id : ℕ) (t : Task) (m : Manager) → task id (put_task id t m) ≡ t
task-put_task id t m = ground (arith, lookup-assign id id t m.tasks)

status-finalize_as :
    (k : Kind) (id : ℕ) (m : Manager) → status_of id (finalize_as k id m) ≡ status_of id m
unfolding finalize_as
status-finalize_as (client_task b) id m = ap (λ t. t.ctx.last_status) (task-put_task id _ m)
status-finalize_as upstream_task id m = ap (λ t. t.ctx.last_status) (task-put_task id _ m)
status-finalize_as periodic_task id m =
    let stopped = task-put_task id (record (task id m) { holds_itself = false }) m in
    ground (arith, stopped)

status-answer_as :
    (k : Kind) (id : ℕ) (s : String) (m : Manager)
    → status_of id (answer_as k id s m) ≡ status_of id m
unfolding answer_as
status-answer_as (client_task true) id s m =
    ground (arith, lookup-assign id id (record (task id m) { kind = client_task false }) m.tasks)
status-answer_as (client_task false) id s m = ground arith
status-answer_as periodic_task id s m = refl
status-answer_as upstream_task id s m = refl

pub status-respond_and_die :
    (id : ℕ) (s : String) (die : Bool) (m : Manager)
    → status_of id (respond_and_die id s die m) ≡ status_of id m
unfolding respond_and_die
status-respond_and_die id s die m =
    let a = answer_as (task id m).kind id s m in
    let uuid = (task id a).ctx.uuid in
    let f =
      if nat_eqb uuid 0 then a else record a { postponed_tasks = erase uuid a.postponed_tasks } in
    let first : status_of id a ≡ status_of id m = status-answer_as (task id m).kind id s m in
    let second : status_of id f ≡ status_of id a = ground arith in
    let third = status-finalize_as (task id f).kind id f in
    elim die
      as (λ b. status_of id (if b then finalize_as (task id f).kind id f else f) ≡ status_of id m) [
        | true ↦ third ∙ (second ∙ first)
        | false ↦ second ∙ first
      ]

pub Same-pre_result : (id : ℕ) (h : HandlerResult) (m : Manager) → Same id m (pre_result id h m).0
unfolding pre_result
Same-pre_result id (returns st c out) m = Same-put_task id id _ m (ground arith)
Same-pre_result id (throws e c out) m = Same-put_task id id _ m refl

pub Same-post_result : (id : ℕ) (h : HandlerResult) (m : Manager) → Same id m (post_result id h m).0
unfolding post_result
Same-post_result id (returns st c out) m = Same-put_task id id _ m (ground arith)
Same-post_result id (throws e c out) m = Same-put_task id id _ m refl

pub Same-worker_result :
    (id : ℕ) (h : HandlerResult) (m : Manager) → Same id m (worker_result id h m).0
unfolding worker_result
Same-worker_result id (returns st c out) m = Same-put_task id id _ m (ground arith)
Same-worker_result id (throws e c out) m = Same-put_task id id _ m refl
