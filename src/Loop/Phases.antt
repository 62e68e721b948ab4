-- ===== src/Loop/Phases.antt =====
-- The phases of the loop: no node asks for a transition that the table has not, and the checkpoint and
-- the state of the task agree.
use mathlib.Core.Path.{subst}
use lingxi_learn.Prelude.{
  String, ◌≡◌, refl, sym, ap, ◌∙◌, Bool, true, false, Option, none, some, if◌then◌else◌, arith,
  ==-self,
}
use lingxi_learn.Prelude.Tables.{lookup, lookup-modify, option_map}
use lingxi_learn.RunState.{RuntimeStatus, ok, step}
use lingxi_learn.TaskStates.{
  AgentTaskState, TaskTables, state_key, get_agent_task_state, change_state, with_runtime_status,
  stored, set_runtime_status, save_plan, save_board, save_budget, record_operation, with_stack,
  apply_stack_operation, is_changed,
}
use lingxi_learn.GoalStack.Undo.{StackOperation}
use lingxi_learn.Loop.{
  LoopState, World, LoopError, illegal_phase, Result, done, raised, and_then, in_phase,
  transition_status, commit, status_or,
}
use lingxi_learn.Loop.Nodes.{LoopEnv, move_to}

-- the phase that the state of the task has, if there is one
abbrev pub status_of : String → TaskTables → Option RuntimeStatus
status_of task_id db = option_map (λ r. r.runtime_status) (lookup state_key task_id db.states)

abbrev pub IsSynced : LoopEnv → LoopState → World → Type 0
IsSynced env s w = status_of env.task_id w.tables ≡ some s.runtime_status

abbrev pub is_illegal : LoopError → Bool
is_illegal illegal_phase = true
is_illegal e = false

-- A result that is no IllegalTransition, with `P` of its state and world.
abbrev pub Ensures : (LoopState → World → Type 0) → Result → Type 0
Ensures P (done s w) = P s w
Ensures P (raised e w) = is_illegal e ≡ false

pub and_then-Ensures :
    (P Q : LoopState → World → Type 0) (r : Result) (f : LoopState → World → Result)
    → Ensures P r
    → ((s : LoopState) (w : World) → P s w → Ensures Q (f s w))
    → Ensures Q (and_then r f)
and_then-Ensures P Q (done s w) f h k = k s w h
and_then-Ensures P Q (raised e w) f h k = h

map_status :
    (f : AgentTaskState → AgentTaskState) (o : Option AgentTaskState)
    → ((r : AgentTaskState) → (f r).runtime_status ≡ r.runtime_status)
    → option_map (λ r. r.runtime_status) (option_map f o) ≡ option_map (λ r. r.runtime_status) o
map_status f none h = refl
map_status f (some r) h = ap some (h r)

find_changed :
    (f : AgentTaskState → AgentTaskState) (task_id : String) (db : TaskTables)
    → ((r : AgentTaskState) → state_key (f r) ≡ state_key r)
    → lookup state_key task_id (change_state f task_id db).states
      ≡ option_map f (lookup state_key task_id db.states)
unfolding change_state
find_changed f task_id db keeps =
    let own = ==-self task_id in
    lookup-modify state_key f keeps task_id task_id db.states ∙ rw own refl

-- A change of another column leaves the phase.
pub status_of-change_state :
    (f : AgentTaskState → AgentTaskState) (task_id : String) (db : TaskTables)
    → ((r : AgentTaskState) → state_key (f r) ≡ state_key r)
    → ((r : AgentTaskState) → (f r).runtime_status ≡ r.runtime_status)
    → status_of task_id (change_state f task_id db) ≡ status_of task_id db
status_of-change_state f task_id db keeps same =
    ap (option_map (λ r. r.runtime_status)) (find_changed f task_id db keeps)
    ∙ map_status f (lookup state_key task_id db.states) same

pub status_of-save_plan :
    (task_id plan : String) (db : TaskTables) (b : Option _)
    → status_of task_id (save_plan task_id plan b db) ≡ status_of task_id db
unfolding save_plan
status_of-save_plan task_id plan db b = status_of-change_state _ task_id db (λ r. refl) (λ r. refl)

pub status_of-save_board :
    (task_id board : String) (db : TaskTables)
    → status_of task_id (save_board task_id board db) ≡ status_of task_id db
unfolding save_board
status_of-save_board task_id board db = status_of-change_state _ task_id db (λ r. refl) (λ r. refl)

pub status_of-save_budget :
    (task_id : String) (db : TaskTables) (b : _)
    → status_of task_id (save_budget task_id b db) ≡ status_of task_id db
unfolding save_budget
status_of-save_budget task_id db b = status_of-change_state _ task_id db (λ r. refl) (λ r. refl)

record_operation-status :
    (o : StackOperation) (task_id : String) (found : Option AgentTaskState) (db : TaskTables)
    → status_of task_id (record_operation o task_id found db) ≡ status_of task_id db
record_operation-status o task_id none db = refl
record_operation-status o task_id (some r) db =
    status_of-change_state (with_stack o) task_id _ (λ q. refl) (λ q. refl)

if-status :
    (b : Bool) (task_id : String) (changed db : TaskTables)
    → status_of task_id changed ≡ status_of task_id db
    → status_of task_id (if b then changed else db) ≡ status_of task_id db
if-status true task_id changed db h = h
if-status false task_id changed db h = refl

pub status_of-apply_stack_operation :
    (task_id : String) (o : StackOperation) (db : TaskTables)
    → status_of task_id (apply_stack_operation task_id o db) ≡ status_of task_id db
unfolding apply_stack_operation
status_of-apply_stack_operation task_id o db =
    if-status (is_changed o) task_id _ db (record_operation-status o task_id _ db)

-- The phase after a transition that the table has.
abbrev pub IsMoved : LoopEnv → LoopState → LoopState → World → Type 0
IsMoved env s t w = (t ≡ s) × (status_of env.task_id w.tables ≡ some s.runtime_status)

set_runtime_status-stored :
    (task_id : String) (target : RuntimeStatus) (db : TaskTables) (r : AgentTaskState)
    → lookup state_key task_id db.states ≡ some r
    → step r.runtime_status target ≡ ok target
    → set_runtime_status task_id target db
      ≡ stored target (change_state (with_runtime_status target) task_id db)
unfolding set_runtime_status get_agent_task_state
set_runtime_status-stored task_id target db r h legal = rw h (rw legal refl)

stored-status :
    (task_id : String) (target : RuntimeStatus) (db : TaskTables) (r : AgentTaskState)
    → lookup state_key task_id db.states ≡ some r
    → status_of task_id (change_state (with_runtime_status target) task_id db) ≡ some target
stored-status task_id target db r h =
    ap (option_map (λ q. q.runtime_status))
      (find_changed (with_runtime_status target) task_id db (λ q. refl))
    ∙ rw h refl

abbrev pub phase_or : RuntimeStatus → Option RuntimeStatus → RuntimeStatus
phase_or d none = d
phase_or d (some x) = x

commit-IsMoved :
    (env : LoopEnv) (s : LoopState) (w : World) (found : Option AgentTaskState)
    (source target : RuntimeStatus)
    → lookup state_key env.task_id w.tables.states ≡ found
    → option_map (λ r. r.runtime_status) found ≡ some source
    → step source target ≡ ok target
    → Ensures
        (IsMoved env (in_phase target s))
        (commit env.task_id s w (step (status_or s.runtime_status found) target))
commit-IsMoved env s w none source target h k legal = ground arith
commit-IsMoved env s w (some r) source target h k legal =
    let same : r.runtime_status ≡ source = ap (phase_or source) k in
    let moved : step r.runtime_status target ≡ ok target =
      subst (λ x. step x target ≡ ok target) (sym same) legal in
    rw moved (
      rw (set_runtime_status-stored env.task_id target w.tables r h moved)
        (refl, stored-status env.task_id target w.tables r h))

pub transition_status-IsMoved :
    (env : LoopEnv) (s : LoopState) (w : World) (source target : RuntimeStatus)
    → status_of env.task_id w.tables ≡ some source
    → step source target ≡ ok target
    → Ensures (IsMoved env (in_phase target s)) (transition_status env.task_id target s w)
unfolding transition_status get_agent_task_state
transition_status-IsMoved env s w source target h legal =
    commit-IsMoved env s w (lookup state_key env.task_id w.tables.states) source target refl h legal

pub move_to-Ensures :
    (P : LoopState → World → Type 0) (env : LoopEnv) (patch : LoopState → LoopState) (s : LoopState)
    (w : World) (source target : RuntimeStatus)
    → status_of env.task_id w.tables ≡ some source
    → step source target ≡ ok target
    → ((v : World) → status_of env.task_id v.tables ≡ some target → P (patch (in_phase target s)) v)
    → Ensures P (move_to env target patch s w)
move_to-Ensures P env patch s w source target h legal k =
    and_then-Ensures (IsMoved env (in_phase target s)) P (transition_status env.task_id target s w)
      _ (transition_status-IsMoved env s w source target h legal)
      (λ t v moved. subst (λ x. P (patch x) v) (sym moved.0) (k v moved.1))
