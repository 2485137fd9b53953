-- ===== src/Tasks/Machine.antt =====
-- `StateMachine`: the states, the table of transitions, and the dispatch loop. What the actions do
-- to a task and to the task manager is a parameter here; Tasks/Manager.antt supplies it.
pub mod Ends
pub mod Search
use graft_ng.Shared.{
  ℕ, zero, suc, Bool, true, false, ◌&&◌, ◌||◌, Option, none, some, List, [], ◌∷◌, if◌then◌else◌,
  String, nat_eqb,
}
use graft_ng.Tasks.Status.{Status, State, same_status, same_state}

-- Which of the three handlers of `Router::Handler3` are set.
pub record Handler3 : Type 0 where
  pub pre_action : Bool
  pub worker_action : Bool
  pub post_action : Bool

-- The lambdas of `init_table`; `nothing` is a null action.
pub data Action : Type 0 where
  nothing check_overflow run_preaction run_response run_error_response run_drop : Action
  run_workeraction run_postaction run_forward run_ok_response run_postpone : Action

-- A null guard, `has(&H3::pre_action)` and `has(&H3::worker_action)`.
pub data Guard : Type 0 where
  unguarded has_pre_action has_worker_action : Guard

abbrev pub holds : Guard → Handler3 → Bool
holds unguarded h = true
holds has_pre_action h = h.pre_action
holds has_worker_action h = h.worker_action

pub record Row : Type 0 where
  pub start : State
  pub statuses : List Status
  pub target : State
  pub guard : Guard
  pub action : Action

abbrev row : State → List Status → State → Guard → Action → Row
row s ss t g a = record { start = s; statuses = ss; target = t; guard = g; action = a }

abbrev any : List Status
any = []

abbrev failures : List Status
failures = Status.error ∷ Status.internal_error ∷ Status.stop ∷ []

abbrev unfinished : List Status
unfinished = Status.none ∷ Status.ok ∷ Status.forward ∷ Status.postpone ∷ []

unfoldable pub table : List Row
table =
    row State.execute any State.pre_action unguarded check_overflow
    ∷ row State.pre_action (Status.busy ∷ []) State.exit unguarded nothing
    ∷ row State.pre_action unfinished State.chk_pre_action unguarded run_preaction
    ∷ row State.chk_pre_action (Status.again ∷ []) State.pre_action unguarded run_response
    ∷ row State.chk_pre_action (Status.ok ∷ []) State.worker_action has_pre_action nothing
    ∷ row State.chk_pre_action (Status.forward ∷ []) State.post_action has_pre_action nothing
    ∷ row State.chk_pre_action failures State.exit has_pre_action run_error_response
    ∷ row State.chk_pre_action (Status.drop ∷ []) State.exit has_pre_action run_drop
    ∷ row State.chk_pre_action unfinished State.worker_action unguarded nothing
    ∷ row State.worker_action any State.chk_worker_action unguarded run_workeraction
    ∷ row State.chk_worker_action any State.exit has_worker_action nothing
    ∷ row State.chk_worker_action any State.post_action unguarded nothing
    ∷ row State.worker_action_done (Status.again ∷ []) State.worker_action unguarded run_response
    ∷ row State.worker_action_done any State.post_action unguarded nothing
    ∷ row State.post_action any State.chk_post_action unguarded run_postaction
    ∷ row State.chk_post_action (Status.again ∷ []) State.post_action unguarded run_response
    ∷ row State.chk_post_action (Status.forward ∷ []) State.exit unguarded run_forward
    ∷ row State.chk_post_action (Status.ok ∷ []) State.exit unguarded run_ok_response
    ∷ row State.chk_post_action failures State.exit unguarded run_error_response
    ∷ row State.chk_post_action (Status.drop ∷ []) State.exit unguarded run_drop
    ∷ row State.chk_post_action (Status.postpone ∷ []) State.exit unguarded run_postpone
    ∷ []

abbrev pub listed : Status → List Status → Bool
listed s [] = false
listed s (t ∷ ts) = if same_status t s then true else listed s ts

-- An empty list of statuses admits every status.
abbrev pub admits : List Status → Status → Bool
admits [] s = true
admits (t ∷ ts) s = listed s (t ∷ ts)

-- The loop of `process` up to the row that is taken: the first that fits.
unfoldable pub find_row : List Row → State → Status → Handler3 → Option Row
find_row [] s st h = none
find_row (r ∷ rs) s st h =
    if same_state s r.start && (admits r.statuses st && holds r.guard h)
    then some r
    else find_row rs s st h

-- `dispatch` returns, or an exception leaves it: the one of `process`, or one of a handler.
pub data Outcome {ℓ} (W : Type ℓ) : Type ℓ where
  done : W → Outcome W
  incomplete : State → W → Outcome W
  thrown : String → W → Outcome W

-- What an action leaves: the world, and the message of an exception if it throws one.
abbrev pub Step {ℓ} : Type ℓ → Type ℓ
Step W = W × Option String

module _ {ℓ} {W : Type ℓ} (status : W → Status) (handlers : W → Handler3)
    (perform : Action → W → Step W) where
  -- `while(state() != EXIT) process(bt);` with fuel; `none` means that the fuel ran out.
  unfoldable pub dispatch : ℕ → State → W → Option (Outcome W)
  dispatch zero s w = none
  dispatch (suc fuel) s w =
      if same_state s State.exit
      then some (done w)
      else elim (find_row table s (status w) (handlers w)) [
        | none ↦ some (incomplete s w)
        | some r ↦ elim (perform r.action w).1 [
          | none ↦ dispatch fuel r.target (perform r.action w).0
          | some e ↦ some (thrown e (perform r.action w).0)
        ]
      ]
