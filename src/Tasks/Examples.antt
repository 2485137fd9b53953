-- ===== src/Tasks/Examples.antt =====
-- The theorems on the tasks at concrete inputs.
use graft_ng.Shared.{
  is_some, if◌then◌else◌, ltb, ◌≤◌, ℕ, ◌≡◌, refl, true, false, none, some, List, [], ◌∷◌, arith,
  inl, String, lookup, nat_eq,
}
use graft_ng.Tasks.Status.{Status, State}
use graft_ng.Tasks.Machine.{Handler3}
use graft_ng.Tasks.ExpiringList.{Entry, chop, add, extract}
use graft_ng.Tasks.ExpiringList.Lifetime.{extract-add_live, extract-add_expired}
use graft_ng.Tasks.Manager.{client_task, Task, HandlerResult, returns, Program, Manager, Config}
use graft_ng.Tasks.Manager.Steps.{postpone_task, hand_on}
use graft_ng.Tasks.Manager.Rows.{Fits}
use graft_ng.Tasks.Manager.Overflow.{FitsAfter, events-Fits}
use graft_ng.Tasks.Manager.Events.{
  on_new_client, on_timer, upstream_done, run_job, try_process_ready_job, expire_from,
}
use graft_ng.Tasks.Manager.Resume.{IsResumed, IsResumed-either_order}
use graft_ng.Tasks.Manager.Again.{pre_action_again}
use graft_ng.Tasks.Manager.Steps.{execute, run_machine}
use graft_ng.Tasks.Machine.{incomplete}
use graft_ng.Tasks.Manager.Ends.{asks_again, run_machine_ends}
use graft_ng.Tasks.Manager.Expiry.{expire_from_pending}

abbrev worker_only : Handler3
worker_only = record { pre_action = false; worker_action = true; post_action = false }

abbrev old_entries : List (Entry String)
old_entries =
    record { expires = 900; uuid = 3; value = "old" }
    ∷ record { expires = 1500; uuid = 4; value = "young" }
    ∷ []

extract-add_live_example :
    extract 1400 7 (add 1000 1000 7 "answer" old_entries)
    ≡ (some "answer", chop 1400 (chop 1000 old_entries))
extract-add_live_example =
    extract-add_live 1000 1000 1400 7 "answer" old_entries (omega arith, (omega arith, tt))
      (omega arith)

extract-add_expired_example : extract 2001 7 (add 1000 1000 7 "answer" old_entries) ≡ (none, [])
extract-add_expired_example =
    extract-add_expired 1000 1000 2001 7 "answer" old_entries (omega arith, (omega arith, tt))
      (omega arith)

abbrev echo : ℕ → Task → HandlerResult
echo n t = returns Status.ok t.ctx t.input

abbrev echo_program : Program
echo_program = record {
  pre_action = echo;
  worker_action = echo;
  post_action = echo;
  random_uuid = λ n. n;
}

abbrev one_minute : Config
one_minute = record { http_connection_timeout = 60 }

abbrev asking : Task
asking = record {
  kind = client_task true;
  h3 = worker_only;
  input = "answer";
  output = "";
  uri = "/callback";
  ctx = record { last_status = Status.ok; last_error = ""; uuid = 0; next_uuid = 9 };
  holds_itself = true;
}

abbrev waiting : Task
waiting = record asking {
  input = "question";
  ctx = record { last_status = Status.postpone; last_error = ""; uuid = 9; next_uuid = 0 };
}

abbrev two_tasks : Manager
two_tasks = record {
  tasks = (1, asking) ∷ (2, waiting) ∷ [];
  cnt_base_task = 2;
  cnt_base_task_done = 0;
  cnt_job_sent = 0;
  cnt_job_done = 0;
  thread_pool_input_size = 8;
  pool = [];
  res_queue = [];
  timers = [];
  upstream = [];
  postponed_tasks = [];
  ready_to_resume = [];
  expire_task_queue = (90000, 5) ∷ (10, 6) ∷ [];
  future_postpone_uuids = [];
  responses = [];
  calls = 0;
  drawn = 1;
}

IsResumed-either_order_example :
    let postponed = postpone_task echo_program one_minute 2 1000 two_tasks in
    IsResumed 2 9 "answer" two_tasks (
      postpone_task echo_program one_minute 2 2000
        (hand_on echo_program one_minute 1 9 1000 none two_tasks))
    × IsResumed 2 9 "answer" two_tasks
        (hand_on echo_program one_minute 1 9 2000 (lookup 9 postponed.postponed_tasks) postponed)
IsResumed-either_order_example =
    IsResumed-either_order echo_program one_minute 1 2 9 1000 2000 two_tasks refl (omega arith) refl
      tt (omega arith)

-- The deadline 10 has long passed at 5000.
expire_from_pending_example : expire_from 5000 two_tasks.expire_task_queue two_tasks ≡ two_tasks
expire_from_pending_example =
    expire_from_pending 5000 two_tasks ((omega arith, tt), (tt, tt)) (inl (omega arith))

-- The pre action of the task 1 asks to be called again.
abbrev more : ℕ → Task → HandlerResult
more n t = returns Status.again t.ctx "wait"

abbrev impatient : Program
impatient = record echo_program { pre_action = more }

abbrev new_task : Task
new_task = record asking {
  h3 = record { pre_action = true; worker_action = true; post_action = false };
  ctx = record { last_status = Status.none; last_error = ""; uuid = 0; next_uuid = 0 };
}

abbrev just_arrived : Manager
just_arrived = record two_tasks { tasks = (1, new_task) ∷ [] }

pre_action_again_example :
    (after : Manager) × (execute impatient one_minute 20 100 1 just_arrived
      ≡ some (incomplete State.pre_action after))
    × (after.responses ≡ (1, 200, "wait") ∷ [])
    × (after.cnt_base_task_done ≡ 0)
    × (after.calls ≡ 1)
pre_action_again_example =
    pre_action_again impatient one_minute 20 100 1 just_arrived new_task.ctx "wait" refl refl refl
      refl refl (omega arith)

-- The queues are full: eight jobs are in the pool.
abbrev full_pool : Manager
full_pool = record two_tasks { cnt_job_sent = 20; cnt_job_done = 12; res_queue = 2 ∷ [] }

events-Fits_example :
    FitsAfter (on_new_client echo_program one_minute 20 100 1 full_pool)
    × (FitsAfter (on_timer echo_program one_minute 20 100 1 full_pool)
        × (FitsAfter (upstream_done echo_program one_minute 20 100 1 Status.ok "" full_pool)
            × (Fits (run_job echo_program one_minute 1 full_pool)
                × FitsAfter (try_process_ready_job echo_program one_minute 20 100 full_pool).0)))
events-Fits_example =
    events-Fits echo_program one_minute 20 100 1 Status.ok "" full_pool (omega arith)

-- A post action that asks to be called again in the first three calls of handlers.
abbrev three_times : ℕ → Task → HandlerResult
three_times n t = returns (if ltb n 3 then Status.again else Status.ok) t.ctx "wait"

abbrev patient : Program
patient = record echo_program { post_action = three_times }

three_times_calm : (k : ℕ) (t : Task) → 3 ≤ k → asks_again (three_times k t) ≡ false
three_times_calm k t h = ground (arith, h)

echo_calm : (k : ℕ) (t : Task) → 3 ≤ k → asks_again (echo k t) ≡ false
echo_calm k t h = refl

abbrev post_task : Task
post_task = record new_task {
  h3 = record { pre_action = false; worker_action = false; post_action = true };
}

run_machine_ends_example :
    is_some (
      run_machine patient one_minute 16 State.execute 100 1
        (record two_tasks { tasks = (1, post_task) ∷ [] }))
    ≡ true
run_machine_ends_example =
    run_machine_ends patient one_minute 3 echo_calm three_times_calm 16 100 1 State.execute
      (record two_tasks { tasks = (1, post_task) ∷ [] }) refl (omega arith)
