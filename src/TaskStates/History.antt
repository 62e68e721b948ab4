-- ===== src/TaskStates/History.antt =====
-- server/lingxilearn/store/runtime_state.py: the undo log of a goal stack.
use mathlib.Core.Path.{subst}
use lingxi_learn.Prelude.{
  ℕ, ◌+◌, String, ◌≡◌, ◌≢◌, ◌⊎◌, Option, refl, sym, ap, ◌∙◌, true, false, none, some, List, [], ◌∷◌,
  ◌++◌, ◌==◌, arith, Bool-cases, ==-self, inl, inr,
}
use lingxi_learn.Prelude.Tables.{lookup, lookup-modify}
use mathlib.Core.Logic.{ite}
use lingxi_learn.Prelude.Tables.{filter, length}
use lingxi_learn.GoalStack.Undo.{GoalDict, StackOperation}
use lingxi_learn.TaskStates.{
  AgentTaskState, AgentTaskStateEvent, TaskTables, state_key, get_agent_task_state, change_state,
  event_of, events_of, is_event_of, with_stack, record_operation, stack_of, is_changed,
  dicts_discrete, apply_stack_operation, ensure_agent_task_state, new_state,
}
use lingxi_learn.Guardrails.{Budget}

-- The events of a log, the oldest first, their number and the stack they lead to: the first finds an empty
-- stack, each is numbered after the one before it and finds the stack that this one left.
pub data Replay : List AgentTaskStateEvent → ℕ → List GoalDict → Type 0 where
  no_events : Replay [] 0 []
  recorded :
      (es : List AgentTaskStateEvent) (n : ℕ) (stack : List GoalDict) (e : AgentTaskStateEvent)
      → Replay es n stack
      → e.sequence ≡ n + 1
      → e.before ≡ stack
      → Replay (es ++ e ∷ []) (n + 1) e.after

-- The log of a task's row replays to the stack of the row.
abbrev pub IsLogged : String → TaskTables → Type 0
IsLogged task_id db =
    (r : AgentTaskState) × (lookup state_key task_id db.states ≡ some r)
    × Replay (events_of r.id db) (length (events_of r.id db)) r.goal_stack

length_snoc :
    (es : List AgentTaskStateEvent) (e : AgentTaskStateEvent)
    → length (es ++ e ∷ []) ≡ length es + 1
length_snoc [] e = refl
length_snoc (x ∷ es) e = ground (arith, length_snoc es e)

filter_snoc :
    (id : String) (es : List AgentTaskStateEvent) (e : AgentTaskStateEvent)
    → is_event_of id e ≡ true
    → filter (is_event_of id) (es ++ e ∷ []) ≡ filter (is_event_of id) es ++ e ∷ []
unfolding filter
filter_snoc id [] e own = rw own refl
filter_snoc id (x ∷ es) e own = elim (Bool-cases (is_event_of id x)) [
  | inl mine ↦ rw mine (ap (λ ys. x ∷ ys) (filter_snoc id es e own))
  | inr other ↦ rw other (filter_snoc id es e own)
]

found_changed :
    (f : AgentTaskState → AgentTaskState) (task_id : String) (db : TaskTables) (r : AgentTaskState)
    → ((q : AgentTaskState) → state_key (f q) ≡ state_key q)
    → lookup state_key task_id db.states ≡ some r
    → lookup state_key task_id (change_state f task_id db).states ≡ some (f r)
unfolding change_state
found_changed f task_id db r keeps h =
    let own = ==-self task_id in
    lookup-modify state_key f keeps task_id task_id db.states ∙ rw own (rw h refl)

record_operation-IsLogged :
    (o : StackOperation) (task_id : String) (db : TaskTables) (r : AgentTaskState)
    → lookup state_key task_id db.states ≡ some r
    → Replay (events_of r.id db) (length (events_of r.id db)) r.goal_stack
    → o.before ≡ r.goal_stack
    → IsLogged task_id (record_operation o task_id (some r) db)
unfolding events_of change_state
record_operation-IsLogged o task_id db r h log starts =
    let e = event_of r (length (events_of r.id db)) o in
    let grown : events_of r.id (record_operation o task_id (some r) db)
        ≡ events_of r.id db ++ e ∷ [] =
      filter_snoc r.id db.events e (==-self r.id) in
    let counted : length (events_of r.id (record_operation o task_id (some r) db))
        ≡ length (events_of r.id db) + 1 =
      ap length grown ∙ length_snoc (events_of r.id db) e in
    (
      with_stack o r,
      found_changed (with_stack o) task_id (record db { events = db.events ++ e ∷ [] }) r
          (λ q. refl) h,
      subst
          (λ es.
            Replay es (length (events_of r.id (record_operation o task_id (some r) db))) o.after)
          (sym grown)
          (subst (λ n. Replay (events_of r.id db ++ e ∷ []) n o.after) (sym counted)
            (recorded (events_of r.id db) (length (events_of r.id db)) r.goal_stack e log refl
              starts)),
    )

decided_same :
    (o : StackOperation) (d : Dec (o.before ≡ o.after))
    → ite d false true ≡ false
    → o.before ≡ o.after
decided_same o (yes e) h = e
decided_same o (no ne) h = ground arith

-- An operation that is not changed leaves the stack as it was.
pub is_changed_same : (o : StackOperation) → is_changed o ≡ false → o.before ≡ o.after
unfolding is_changed
is_changed_same o h = decided_same o (dicts_discrete o.before o.after) h

-- The event stands behind all earlier ones, under the next number of the task's row, and says what the
-- operation was; the row has the operation's stack and the next revision.
pub record IsRecorded (o : StackOperation) (task_id : String) (r : AgentTaskState)
    (db after : TaskTables) : Type 0 where
  pub event : AgentTaskStateEvent
  pub appended : after.events ≡ db.events ++ event ∷ []
  pub owner : event.agent_task_state_id ≡ r.id
  pub numbered : event.sequence ≡ length (events_of r.id db) + 1
  pub op : event.op ≡ o.op
  pub reason : event.reason ≡ o.reason
  pub before : event.before ≡ o.before
  pub leaves : event.after ≡ o.after
  pub row :
      get_agent_task_state task_id after
      ≡ some (record r { goal_stack = o.after; revision = r.revision + 1 })

record_operation-IsRecorded :
    (o : StackOperation) (task_id : String) (db : TaskTables) (r : AgentTaskState)
    → lookup state_key task_id db.states ≡ some r
    → IsRecorded o task_id r db (record_operation o task_id (some r) db)
unfolding get_agent_task_state change_state
record_operation-IsRecorded o task_id db r h = record {
  event = event_of r (length (events_of r.id db)) o;
  appended = refl;
  owner = refl;
  numbered = refl;
  op = refl;
  reason = refl;
  before = refl;
  leaves = refl;
  row =
      found_changed (with_stack o) task_id
        (record db { events = db.events ++ event_of r (length (events_of r.id db)) o ∷ [] }) r
        (λ q. refl) h;
}

decided_differs :
    (o : StackOperation) (d : Dec (o.before ≡ o.after))
    → ite d false true ≡ true
    → o.before ≢ o.after
decided_differs o (yes e) h = ground arith
decided_differs o (no ne) h = ne

is_changed_differs : (o : StackOperation) → is_changed o ≡ true → o.before ≢ o.after
unfolding is_changed
is_changed_differs o h = decided_differs o (dicts_discrete o.before o.after) h

abbrev row_or : AgentTaskState → Option AgentTaskState → AgentTaskState
row_or d none = d
row_or d (some r) = r

-- An operation that starts from the stored stack keeps the log replaying to the stored stack, and leaves its
-- own stack there. If it changes the stack, one event is appended behind all others, with the row's id, its
-- next number, and the name, the reason and both stacks of the operation, and the row gets the stack and the
-- next revision; if it does not, nothing is written.
pub apply_stack_operation-IsLogged :
    (o : StackOperation) (task_id : String) (db : TaskTables) (r : AgentTaskState)
    → get_agent_task_state task_id db ≡ some r
    → IsLogged task_id db
    → o.before ≡ r.goal_stack
    → IsLogged task_id (apply_stack_operation task_id o db)
      × (stack_of (get_agent_task_state task_id (apply_stack_operation task_id o db)) ≡ o.after)
      × (((o.before ≡ o.after) × (apply_stack_operation task_id o db ≡ db))
          ⊎ ((o.before ≢ o.after) × IsRecorded o task_id r db (apply_stack_operation task_id o db)))
unfolding apply_stack_operation get_agent_task_state
apply_stack_operation-IsLogged o task_id db r h (q, found, log) begun =
    let same_row : some q ≡ some r = sym found ∙ h in
    let same : q ≡ r = ap (row_or r) same_row in
    let own : Replay (events_of r.id db) (length (events_of r.id db)) r.goal_stack =
      subst (λ x. Replay (events_of x.id db) (length (events_of x.id db)) x.goal_stack) same log in
    elim (Bool-cases (is_changed o)) [
      | inl changed ↦ rw changed (
          rw h (
            record_operation-IsLogged o task_id db r h own begun,
            ap stack_of (found_changed (with_stack o) task_id _ r (λ x. refl) h),
            inr (is_changed_differs o changed, record_operation-IsRecorded o task_id db r h),
          ))
      | inr same_stack ↦ rw same_stack (
        (r, h, own),
        ap stack_of h ∙ sym begun ∙ is_changed_same o same_stack,
        inl (is_changed_same o same_stack, refl),
      )
    ]

lookup_snoc :
    (task_id : String) (rows : List AgentTaskState) (r : AgentTaskState)
    → lookup state_key task_id rows ≡ none
    → (state_key r == task_id) ≡ true
    → lookup state_key task_id (rows ++ r ∷ []) ≡ some r
unfolding lookup
lookup_snoc task_id [] r h own = rw own refl
lookup_snoc task_id (q ∷ rows) r h own = elim (Bool-cases (state_key q == task_id)) [
  | inl mine ↦ ground (arith, h, mine)
  | inr other ↦ ground (arith, h, other, lookup_snoc task_id rows r)
]

-- A row that ensure_agent_task_state has added is logged, when its id has no events.
pub ensure_agent_task_state-IsLogged :
    (id learner_id task_id : String) (b : Budget) (db : TaskTables)
    → (task_id == "") ≡ false
    → get_agent_task_state task_id db ≡ none
    → events_of id db ≡ []
    → IsLogged task_id (ensure_agent_task_state id learner_id task_id b db).0
unfolding ensure_agent_task_state get_agent_task_state events_of
ensure_agent_task_state-IsLogged id learner_id task_id b db named missing clear =
    let fresh = new_state id learner_id task_id b in
    rw named (
      rw missing (
        fresh,
        lookup_snoc task_id db.states fresh missing (==-self task_id),
        subst (λ es. Replay es (length es) []) (sym clear) no_events,
      ))
