-- ===== src/TaskStates/Tests.antt =====
-- A small state of a task, and instances of the theorems about its undo log.
use lingxi_learn.Prelude.{◌≢◌, ◌⊎◌, some, ◌≡◌, refl, [], ◌∷◌}
use lingxi_learn.Prelude.Tables.{lookup, filter}
use lingxi_learn.GoalStack.{Goal, current_kind, open_status}
use lingxi_learn.GoalStack.Undo.{StackOperation, to_dict}
use lingxi_learn.Guardrails.{Budget}
use lingxi_learn.TaskStates.{
  AgentTaskState, new_state, TaskTables, ensure_agent_task_state, get_agent_task_state, stack_of,
  apply_stack_operation, events_of,
}
use lingxi_learn.TaskStates.History.{
  IsRecorded, IsLogged, apply_stack_operation-IsLogged, ensure_agent_task_state-IsLogged,
}

abbrev goal : Goal
goal = record {
  goal_type = "learn";
  topic = "DNS";
  id = "g";
  kind = current_kind;
  knowledge_points = "dns" ∷ [];
  expected_outcome = "";
  constraints = [];
  urgency = 500;
  status = open_status;
  satisfied_when = "{}";
  created_by = "goal_interpreter";
  raw_utterance = "";
  pushed_at = 7;
}

abbrev budget : Budget
budget = record {
  steps_used = 0;
  max_steps = 8;
  replans_used = 0;
  max_replans = 2;
  tokens_used = 0;
  token_budget = 400000;
  wall_ms_used = 0;
  wall_ms_budget = 1800000;
  heavy_artifacts_used = 0;
  max_heavy_artifacts = 6;
  forged_skills_used = 0;
  max_forged_skills = 1;
}

abbrev empty_tables : TaskTables
empty_tables = record { states = []; events = [] }

abbrev tables : TaskTables
tables = (ensure_agent_task_state "s" "l" "t" budget empty_tables).0

tables-IsLogged : IsLogged "t" tables
unfolding get_agent_task_state events_of lookup filter
tables-IsLogged = ensure_agent_task_state-IsLogged "s" "l" "t" budget empty_tables refl refl refl

abbrev pushed : StackOperation
pushed = record { op = "push"; before = []; after = to_dict goal ∷ []; reason = "新目标" }

abbrev added : AgentTaskState
added = new_state "s" "l" "t" budget

tables_row : get_agent_task_state "t" tables ≡ some added
unfolding ensure_agent_task_state get_agent_task_state lookup
tables_row = refl

apply_stack_operation-IsLogged_example :
    IsLogged "t" (apply_stack_operation "t" pushed tables)
    × (stack_of (get_agent_task_state "t" (apply_stack_operation "t" pushed tables)) ≡ pushed.after)
    × (((pushed.before ≡ pushed.after) × (apply_stack_operation "t" pushed tables ≡ tables))
        ⊎ ((pushed.before ≢ pushed.after)
            × IsRecorded pushed "t" added tables (apply_stack_operation "t" pushed tables)))
apply_stack_operation-IsLogged_example =
    apply_stack_operation-IsLogged pushed "t" tables added tables_row tables-IsLogged refl
