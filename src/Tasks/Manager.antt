-- ===== src/Tasks/Manager.antt =====
-- `TaskManager` of src/lib/graft/task.cpp, with the tasks that it runs and `respond` of
-- src/lib/graft/connection.cpp. A task is known by a number, which stands for the shared pointer;
-- the pool, the timer list and the upstream manager are seen as the lists of what they are given.
-- The steady clock is an argument. What the handlers do is a parameter, and may differ from call
-- to call. The log, the counters of bytes and the assertions are left out.
pub mod Steps
pub mod Events
pub mod Counts
pub mod Quiet
pub mod Rows
pub mod Overflow
pub mod Resume
pub mod Expiry
pub mod Again
pub mod Calls
pub mod Ends
use graft_ng.Shared.{
  ℕ, zero, suc, ◌+◌, ◌-◌, ◌*◌, Bool, true, false, not, ◌&&◌, ◌||◌, Option, none, some, List, [],
  ◌∷◌, ◌++◌, if◌then◌else◌, ltb, leb, nat_eqb, String, nat_eq, lookup, assign, erase, ◌==◌, has_key,
  string_eq,
}
use graft_ng.Tasks.Status.{Status, State, same_status}
use graft_ng.Tasks.Machine.{Handler3}
use graft_ng.Tasks.ExpiringList.{Entry}

-- `Context`: the local status and error, and the two uuids, 0 for the nil uuid.
pub record Context : Type 0 where
  pub last_status : Status
  pub last_error : String
  pub uuid : ℕ
  pub next_uuid : ℕ

-- The subclasses of `BaseTask`. A client task holds its connection until it is answered or the
-- client closes it.
pub data Kind : Type 0 where
  client_task : Bool → Kind
  periodic_task : Kind
  upstream_task : Kind

pub record Task : Type 0 where
  pub kind : Kind
  pub h3 : Handler3
  pub input : String
  pub output : String
  pub uri : String
  pub ctx : Context
  pub holds_itself : Bool

-- A handler returns a status, or throws an error; it leaves a context and an output either way.
pub data HandlerResult : Type 0 where
  returns : Status → Context → String → HandlerResult
  throws : String → Context → String → HandlerResult

-- The handlers, by the number of the call; and the uuids that the random generator draws.
pub record Program : Type 0 where
  pub pre_action : ℕ → Task → HandlerResult
  pub worker_action : ℕ → Task → HandlerResult
  pub post_action : ℕ → Task → HandlerResult
  pub random_uuid : ℕ → ℕ

pub record Manager : Type 0 where
  pub tasks : List (ℕ × Task)
  pub cnt_base_task : ℕ
  pub cnt_base_task_done : ℕ
  pub cnt_job_sent : ℕ
  pub cnt_job_done : ℕ
  pub thread_pool_input_size : ℕ
  pub pool : List ℕ
  pub res_queue : List ℕ
  pub timers : List ℕ
  pub upstream : List ℕ
  pub postponed_tasks : List (ℕ × ℕ)
  pub ready_to_resume : List ℕ
  pub expire_task_queue : List (ℕ × ℕ)
  pub future_postpone_uuids : List (Entry String)
  pub responses : List (ℕ × ℕ × String)
  pub calls : ℕ
  pub drawn : ℕ

-- `m_copts.http_connection_timeout`, in seconds; the clock counts milliseconds.
pub record Config : Type 0 where
  pub http_connection_timeout : ℕ

abbrev idle_context : Context
idle_context = record { last_status = Status.none; last_error = ""; uuid = 0; next_uuid = 0 }

-- A task that is gone: no such number is handed out.
abbrev pub no_task : Task
no_task = record {
  kind = upstream_task;
  h3 = record { pre_action = false; worker_action = false; post_action = false };
  input = "";
  output = "";
  uri = "";
  ctx = idle_context;
  holds_itself = false;
}

abbrev pub or_no_task : Option Task → Task
or_no_task none = no_task
or_no_task (some t) = t

abbrev pub task : ℕ → Manager → Task
task id m = or_no_task (lookup id m.tasks)

abbrev pub put_task : ℕ → Task → Manager → Manager
put_task id t m = record m { tasks = assign id t m.tasks }

abbrev pub status_of : ℕ → Manager → Status
status_of id m = (task id m).ctx.last_status

abbrev pub set_last_status : Status → Task → Task
set_last_status s t = record t { ctx = record t.ctx { last_status = s } }

-- `Context::Local::setError`.
abbrev pub set_error : String → Status → Task → Task
set_error msg s t = record t { ctx = record t.ctx { last_status = s; last_error = msg } }
