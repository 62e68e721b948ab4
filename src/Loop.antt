-- ===== src/Loop.antt =====
-- server/lingxilearn/runtime/graph.py: the state of the runtime loop, the one place that writes a phase,
-- and the route after a round. The checkpoint keeps what the nodes decide by: the user's message, the
-- applied commands, the last decision and the resources are left out, and a goal stands for its
-- dictionary. A node that raises keeps what it has written.
pub mod Policy
pub mod Requests
pub mod Nodes
pub mod Rounds
pub mod Phases
pub mod Stages
pub mod Passes
pub mod Ends
pub mod Runs
pub mod Achieved
pub mod NextTurn
mod Tests
use lingxi_learn.Prelude.{ℕ, String, Bool, false, Option, none, some, List, []}
use lingxi_learn.Prelude.Int.{ℤ}
use lingxi_learn.RunState.{
  RuntimeStatus, planning, waiting_for_user, replanning, completed, failed, Outcome, ok, bad_value,
  illegal_transition, step,
}
use lingxi_learn.GoalStack.{Goal}
use lingxi_learn.Guardrails.{Budget}
use lingxi_learn.Completion.{DoneCondition}
use lingxi_learn.TaskStates.{
  AgentTaskState, TaskTables, get_agent_task_state, StatusChange, no_row, refused, stored,
  set_runtime_status,
}

-- server/lingxilearn/runtime/contracts.py; what the loop reads of an outcome
pub record TaskOutcome : Type 0 where
  pub task_id : String
  pub capability : String
  pub status : String
  pub satisfied : Bool
  pub learner_message : String
  pub tokens_used : ℤ
  pub duration_ms : ℤ
  pub heavy : Bool

-- `condition` is the plan's goal_satisfied_when; `pending_interaction` has its id.
pub record LoopState : Type 0 where
  pub runtime_status : RuntimeStatus
  pub step : ℕ
  pub goal : Goal
  pub condition : Option DoneCondition
  pub budget : Budget
  pub outcomes : List TaskOutcome
  pub round_outcomes : List TaskOutcome
  pub messages : List String
  pub replanning : Bool
  pub pending_interaction : Option String
  pub finished_reason : String
  pub background_pending : Bool

-- What the loop writes outside the checkpoint: the state of the task, and the interactions created.
pub record World : Type 0 where
  pub tables : TaskTables
  pub interactions : List String

-- the errors of the nodes: IllegalTransition, the planner's, the ValueError of a stored goal or of a
-- request for an interaction, and the two errors of await_user
pub data LoopError : Type 0 where
  illegal_phase planning_failed bad_goal bad_request no_interaction invalid_resume : LoopError

pub data Result : Type 0 where
  done : LoopState → World → Result
  raised : LoopError → World → Result

abbrev pub and_then : Result → (LoopState → World → Result) → Result
and_then (done s w) f = f s w
and_then (raised e w) f = raised e w

abbrev pub status_or : RuntimeStatus → Option AgentTaskState → RuntimeStatus
status_or status none = status
status_or status (some r) = r.runtime_status

abbrev pub in_phase : RuntimeStatus → LoopState → LoopState
in_phase status s = record s { runtime_status = status }

abbrev pub committed : LoopState → World → StatusChange → Result
committed s w no_row = raised illegal_phase w
committed s w refused = raised illegal_phase w
committed s w (stored status db) = done (in_phase status s) (record w { tables = db })

abbrev pub commit : String → LoopState → World → Outcome → Result
commit task_id s w (ok status) = committed s w (set_runtime_status task_id status w.tables)
commit task_id s w bad_value = raised illegal_phase w
commit task_id s w (illegal_transition source target) = raised illegal_phase w

-- `LoopDeps.transition_status`; the other fields of its patch are set by the caller.
unfoldable pub transition_status : String → RuntimeStatus → LoopState → World → Result
transition_status task_id target s w =
    commit task_id s w
      (step (status_or s.runtime_status (get_agent_task_state task_id w.tables)) target)

pub data Route : Type 0 where
  to_end to_await_user to_orchestrate : Route

unfoldable pub route : RuntimeStatus → Route
route completed = to_end
route failed = to_end
route waiting_for_user = to_await_user
route status = to_orchestrate

unfoldable pub initial_state : Goal → Budget → LoopState
initial_state no_goal budget = record {
  runtime_status = planning;
  step = 0;
  goal = no_goal;
  condition = none;
  budget = budget;
  outcomes = [];
  round_outcomes = [];
  messages = [];
  replanning = false;
  pending_interaction = none;
  finished_reason = "";
  background_pending = false;
}
