-- ===== src/Tasks/Status.antt =====
-- The two enumerations: `graft::Status` of include/lib/graft/graft_constants.h, and
-- `StateMachine::State` of include/lib/graft/state_machine.h.
use graft_ng.Shared.{ℕ, Bool, nat_eqb}

pub data Status : Type 0 where
  none ok forward again error drop busy internal_error postpone stop : Status

abbrev pub status_code : Status → ℕ
status_code Status.none = 0
status_code Status.ok = 1
status_code Status.forward = 2
status_code Status.again = 3
status_code Status.error = 4
status_code Status.drop = 5
status_code Status.busy = 6
status_code Status.internal_error = 7
status_code Status.postpone = 8
status_code Status.stop = 9

abbrev pub same_status : Status → Status → Bool
same_status a b = nat_eqb (status_code a) (status_code b)

pub data State : Type 0 where
  execute pre_action chk_pre_action worker_action chk_worker_action worker_action_done : State
  post_action chk_post_action again exit : State

abbrev pub state_code : State → ℕ
state_code State.execute = 0
state_code State.pre_action = 1
state_code State.chk_pre_action = 2
state_code State.worker_action = 3
state_code State.chk_worker_action = 4
state_code State.worker_action_done = 5
state_code State.post_action = 6
state_code State.chk_post_action = 7
state_code State.again = 8
state_code State.exit = 9

abbrev pub same_state : State → State → Bool
same_state a b = nat_eqb (state_code a) (state_code b)
