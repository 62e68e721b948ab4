-- ===== src/TaskStates.antt =====
-- server/lingxilearn/store/runtime_state.py: the state of a task and the undo log of its goal stack. A
-- phase is a member of RuntimeStatus, whose text the column has; the plan and the board are the texts of
-- their JSON objects.
pub mod History
mod Tests
use lingxi_learn.Prelude.{
  ℕ, ◌+◌, String, Bool, true, false, Option, none, some, List, [], ◌∷◌, ◌++◌, ◌==◌, if◌then◌else◌,
}
use lingxi_learn.Prelude.{ℕ_discrete, String-discrete}
use mathlib.Core.Logic.{ite}
use lingxi_learn.Prelude.Tables.{lookup, modify, filter, length}
use lingxi_learn.RunState.{
  RuntimeStatus, planning, Outcome, ok, bad_value, illegal_transition, step,
}
use lingxi_learn.GoalStack.{Goal}
use lingxi_learn.GoalStack.Undo.{GoalDict, StackOperation, load}
use lingxi_learn.Guardrails.{Budget}

pub record AgentTaskState : Type 0 where
  pub id : String
  pub learner_id : String
  pub task_id : String
  pub runtime_status : RuntimeStatus
  pub goal_stack : List GoalDict
  pub plan : String
  pub budget : Budget
  pub board : String
  pub revision : ℕ

pub record AgentTaskStateEvent : Type 0 where
  pub agent_task_state_id : String
  pub sequence : ℕ
  pub op : String
  pub before : List GoalDict
  pub after : List GoalDict
  pub reason : String

-- the two tables
pub record TaskTables : Type 0 where
  pub states : List AgentTaskState
  pub events : List AgentTaskStateEvent

abbrev pub state_key : AgentTaskState → String
state_key r = r.task_id

unfoldable pub get_agent_task_state : String → TaskTables → Option AgentTaskState
get_agent_task_state task_id db = lookup state_key task_id db.states

abbrev pub new_state : String → String → String → Budget → AgentTaskState
new_state id learner_id task_id budget = record {
  id = id;
  learner_id = learner_id;
  task_id = task_id;
  runtime_status = planning;
  goal_stack = [];
  plan = "{}";
  budget = budget;
  board = "{}";
  revision = 0;
}

abbrev pub add_if_missing :
    Option AgentTaskState → AgentTaskState → TaskTables → TaskTables × AgentTaskState
add_if_missing (some r) fresh db = (db, r)
add_if_missing none fresh db = (record db { states = db.states ++ fresh ∷ [] }, fresh)

-- An empty task id finds no row.
unfoldable pub ensure_agent_task_state :
    String → String → String → Budget → TaskTables → TaskTables × AgentTaskState
ensure_agent_task_state id learner_id task_id budget db =
    add_if_missing (if task_id == "" then none else get_agent_task_state task_id db)
      (new_state id learner_id task_id budget) db

-- A change of the task's row, nothing when it is missing.
unfoldable pub change_state : (AgentTaskState → AgentTaskState) → String → TaskTables → TaskTables
change_state f task_id db = record db { states = modify state_key task_id f db.states }

abbrev pub is_event_of : String → AgentTaskStateEvent → Bool
is_event_of id e = e.agent_task_state_id == id

unfoldable pub events_of : String → TaskTables → List AgentTaskStateEvent
events_of id db = filter (is_event_of id) db.events

abbrev pub event_of : AgentTaskState → ℕ → StackOperation → AgentTaskStateEvent
event_of r count o = record {
  agent_task_state_id = r.id;
  sequence = count + 1;
  op = o.op;
  before = o.before;
  after = o.after;
  reason = o.reason;
}

abbrev pub with_stack : StackOperation → AgentTaskState → AgentTaskState
with_stack o r = record r { goal_stack = o.after; revision = r.revision + 1 }

unfoldable pub dicts_discrete : Discrete (List GoalDict)
dicts_discrete = hlevel (ℕ_discrete, String-discrete)

-- `StackOperation.changed`
unfoldable pub is_changed : StackOperation → Bool
is_changed o = ite (dicts_discrete o.before o.after) false true

abbrev pub record_operation :
    StackOperation → String → Option AgentTaskState → TaskTables → TaskTables
record_operation o task_id none db = db
record_operation o task_id (some r) db =
    change_state (with_stack o) task_id
      (record db { events = db.events ++ event_of r (length (events_of r.id db)) o ∷ [] })

unfoldable pub apply_stack_operation : String → StackOperation → TaskTables → TaskTables
apply_stack_operation task_id o db =
    if is_changed o then record_operation o task_id (get_agent_task_state task_id db) db else db

pub data StatusChange : Type 0 where
  no_row : StatusChange
  refused : StatusChange
  stored : RuntimeStatus → TaskTables → StatusChange

abbrev pub with_runtime_status : RuntimeStatus → AgentTaskState → AgentTaskState
with_runtime_status status r = record r { runtime_status = status }

abbrev pub store_status : String → Outcome → TaskTables → StatusChange
store_status task_id (ok status) db =
    stored status (change_state (with_runtime_status status) task_id db)
store_status task_id bad_value db = refused
store_status task_id (illegal_transition source target) db = refused

abbrev pub change_status :
    String → RuntimeStatus → Option AgentTaskState → TaskTables → StatusChange
change_status task_id target none db = no_row
change_status task_id target (some r) db = store_status task_id (step r.runtime_status target) db

-- `refused` is IllegalTransition.
unfoldable pub set_runtime_status : String → RuntimeStatus → TaskTables → StatusChange
set_runtime_status task_id target db =
    change_status task_id target (get_agent_task_state task_id db) db

abbrev pub budget_or : Option Budget → Budget → Budget
budget_or none b = b
budget_or (some b) old = b

unfoldable pub save_plan : String → String → Option Budget → TaskTables → TaskTables
save_plan task_id plan budget db =
    change_state
      (λ r. record r { plan = plan; budget = budget_or budget r.budget; revision = r.revision + 1 })
      task_id db

unfoldable pub save_board : String → String → TaskTables → TaskTables
save_board task_id board db =
    change_state (λ r. record r { board = board; revision = r.revision + 1 }) task_id db

unfoldable pub save_budget : String → Budget → TaskTables → TaskTables
save_budget task_id budget db = change_state (λ r. record r { budget = budget }) task_id db

abbrev pub stack_of : Option AgentTaskState → List GoalDict
stack_of none = []
stack_of (some r) = r.goal_stack

-- `GoalStack` of the stored dictionaries; `none` is the ValueError of one that cannot be read.
unfoldable pub goal_stack : (ℕ → String) → (ℕ → ℕ) → String → TaskTables → Option (List Goal)
goal_stack fresh now task_id db = load fresh now 0 (stack_of (get_agent_task_state task_id db))
