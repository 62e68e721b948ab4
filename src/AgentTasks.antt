-- ===== src/AgentTasks.antt =====
-- server/lingxilearn/store/repositories/agent_tasks.py: rows of agent tasks
-- (server/lingxilearn/store/models/agent.py), their claims, statuses, outputs and lists. JSON columns
-- are their text; a time is a number; the clock is an argument. Columns that nothing here reads or
-- writes are left out.
pub mod Claims
pub mod Outputs
pub mod Quiz
mod Tests
use lingxi_learn.Prelude.{
  ℕ, String, Bool, false, ◌&&◌, ◌||◌, not, Option, none, some, List, [], ◌∷◌, ◌++◌, map, ◌==◌,
  nat_beq, ltb, if◌then◌else◌, is_some,
}
use lingxi_learn.Prelude.Tables.{lookup, modify, find?, any, filter}
use lingxi_learn.Prelude.Order.{sort_by}

-- A message of `user_messages`: the agent that `{"agent": agent, **value}` adds, and the value.
pub record UserMessage : Type 0 where
  pub agent : Option String
  pub value : String

pub record AgentTask : Type 0 where
  pub id : String
  pub learner_id : String
  pub create_idempotency_key : Option String
  pub prompt : String
  pub title : String
  pub is_pinned : Bool
  pub is_unread : Bool
  pub deleted_at : Option ℕ
  pub resources : String
  pub status : String
  pub intent : String
  pub lecture_result : String
  pub deck_result : String
  pub quiz_result : String
  pub adaptive_result : String
  pub handoff_result : String
  pub user_messages : List UserMessage
  pub visual_result : String
  pub error : String
  pub current_execution_id : Option String
  pub thread_status : String
  pub created_at : ℕ
  pub updated_at : ℕ

abbrev pub task_key : AgentTask → String
task_key t = t.id

pub data CreateOutcome : Type 0 where
  created : CreateOutcome
  create_conflict : CreateOutcome
  integrity_error : CreateOutcome

abbrev pub is_own_key : String → String → AgentTask → Bool
is_own_key learner_id key t = t.learner_id == learner_id && option_eq key t.create_idempotency_key
  where
    option_eq : String → Option String → Bool
    option_eq k none = false
    option_eq k (some l) = l == k

-- The unique index on the learner and the key, in which a missing key meets nothing.
abbrev pub is_taken : String → Option String → List AgentTask → Bool
is_taken learner_id none tasks = false
is_taken learner_id (some key) tasks = any (is_own_key learner_id key) tasks

abbrev pub is_given : Option String → Bool
is_given none = false
is_given (some key) = not (key == "")

unfoldable pub create_agent_task : AgentTask → List AgentTask → List AgentTask × CreateOutcome
create_agent_task t tasks =
    if any (λ r. r.id == t.id) tasks || is_taken t.learner_id t.create_idempotency_key tasks
    then (tasks, (if is_given t.create_idempotency_key then create_conflict else integrity_error))
    else (tasks ++ t ∷ [], created)

unfoldable pub get_agent_task_by_create_idempotency_key :
    String → String → List AgentTask → Option AgentTask
get_agent_task_by_create_idempotency_key learner_id key tasks =
    find? (is_own_key learner_id key) tasks

unfoldable pub get_agent_task : String → List AgentTask → Option AgentTask
get_agent_task task_id tasks = lookup task_key task_id tasks

abbrev pub is_of : String → String → AgentTask → Bool
is_of task_id learner_id t = t.id == task_id && t.learner_id == learner_id

unfoldable pub get_agent_task_for_learner : String → String → List AgentTask → Option AgentTask
get_agent_task_for_learner task_id learner_id tasks = find? (is_of task_id learner_id) tasks

abbrev pub text_or : Option String → String → String
text_or none old = old
text_or (some new) old = new

abbrev pub bool_or : Option Bool → Bool → Bool
bool_or none old = old
bool_or (some new) old = new

abbrev pub with_status : String → String → Option String → ℕ → AgentTask → AgentTask
with_status status error thread_status now t = record t {
  status = status;
  error = error;
  thread_status = text_or thread_status t.thread_status;
  updated_at = now;
}

unfoldable pub set_agent_task_status :
    String → String → String → Option String → ℕ → List AgentTask → List AgentTask
set_agent_task_status task_id status error thread_status now tasks =
    modify task_key task_id (with_status status error thread_status now) tasks

abbrev pub with_thread_status : String → ℕ → AgentTask → AgentTask
with_thread_status thread_status now t = record t {
  thread_status = thread_status;
  updated_at = now;
}

unfoldable pub set_agent_thread_status : String → String → ℕ → List AgentTask → List AgentTask
set_agent_thread_status task_id thread_status now tasks =
    modify task_key task_id (with_thread_status thread_status now) tasks

-- the WHERE clause of the conditional update
abbrev pub is_claimable : String → Bool → AgentTask → Bool
is_claimable learner_id reclaim_running t =
    t.learner_id == learner_id
    && (t.thread_status == "open"
        || t.thread_status == "awaiting_user"
        || t.thread_status == "running")
    && not (t.status == "cancelled")
    && (reclaim_running || not (t.status == "running"))

abbrev pub execution_or : Option String → Option String → Option String
execution_or none old = old
execution_or (some new) old = some new

abbrev pub as_claimed : Option String → ℕ → AgentTask → AgentTask
as_claimed execution_id now t = record t {
  status = "running";
  updated_at = now;
  current_execution_id = execution_or execution_id t.current_execution_id;
}

abbrev pub claim_row :
    String
    → String
    → Option String
    → Bool
    → ℕ
    → Option AgentTask
    → List AgentTask
    → List AgentTask × Option AgentTask
claim_row task_id learner_id execution_id reclaim_running now none tasks = (tasks, none)
claim_row task_id learner_id execution_id reclaim_running now (some t) tasks =
    if is_claimable learner_id reclaim_running t
    then (
      modify task_key task_id (as_claimed execution_id now) tasks,
      some (as_claimed execution_id now t),
    )
    else (tasks, none)

unfoldable pub claim_agent_task :
    String → String → Option String → Bool → ℕ → List AgentTask → List AgentTask × Option AgentTask
claim_agent_task task_id learner_id execution_id reclaim_running now tasks =
    claim_row task_id learner_id execution_id reclaim_running now (lookup task_key task_id tasks)
      tasks

abbrev pub created_before : AgentTask → AgentTask → Bool
created_before a b = ltb a.created_at b.created_at

-- ids, learners and prompts of the tasks that a restart has to recover
unfoldable pub queued_agent_tasks : List AgentTask → List (String × String × String)
queued_agent_tasks tasks =
    map (λ (t : AgentTask). (t.id, t.learner_id, t.prompt))
      (sort_by created_before
        (filter (λ t. t.status == "queued" && not (is_some t.deleted_at)) tasks))

abbrev pub with_metadata :
    Option String → Option Bool → Option Bool → Option String → ℕ → AgentTask → AgentTask
with_metadata title is_pinned is_unread resources now t = record t {
  title = text_or title t.title;
  is_pinned = bool_or is_pinned t.is_pinned;
  is_unread = bool_or is_unread t.is_unread;
  resources = text_or resources t.resources;
  updated_at = now;
}

abbrev pub own_row :
    String
    → String
    → (AgentTask → AgentTask)
    → Option AgentTask
    → List AgentTask
    → List AgentTask × Option AgentTask
own_row task_id learner_id f none tasks = (tasks, none)
own_row task_id learner_id f (some t) tasks =
    if t.learner_id == learner_id
    then (modify task_key task_id f tasks, some (f t))
    else (tasks, none)

-- A change of the learner's own task, with the changed row.
unfoldable pub change_own :
    String → String → (AgentTask → AgentTask) → List AgentTask → List AgentTask × Option AgentTask
change_own task_id learner_id f tasks =
    own_row task_id learner_id f (lookup task_key task_id tasks) tasks

unfoldable pub update_agent_task_metadata :
    String
    → String
    → Option String
    → Option Bool
    → Option Bool
    → Option String
    → ℕ
    → List AgentTask
    → List AgentTask × Option AgentTask
update_agent_task_metadata task_id learner_id title is_pinned is_unread resources now tasks =
    change_own task_id learner_id (with_metadata title is_pinned is_unread resources now) tasks

abbrev pub with_deleted : Bool → ℕ → AgentTask → AgentTask
with_deleted deleted now t = record t {
  deleted_at = (if deleted then some now else none);
  updated_at = now;
}

unfoldable pub set_agent_task_deleted :
    String → String → Bool → ℕ → List AgentTask → List AgentTask × Option AgentTask
set_agent_task_deleted task_id learner_id deleted now tasks =
    change_own task_id learner_id (with_deleted deleted now) tasks

abbrev pub is_listed : String → String → AgentTask → Bool
is_listed learner_id scope t =
    t.learner_id == learner_id
    && (if scope == "archived" then is_some t.deleted_at else not (is_some t.deleted_at))

-- pinned tasks first, then the last changed, then the last created
abbrev pub is_listed_before : AgentTask → AgentTask → Bool
is_listed_before a b =
    (a.is_pinned && not b.is_pinned)
    || ((a.is_pinned || not b.is_pinned)
        && (ltb b.updated_at a.updated_at
            || (nat_beq a.updated_at b.updated_at && ltb b.created_at a.created_at)))

-- the rows, whose columns the source then copies
unfoldable pub list_agent_tasks : String → String → List AgentTask → List AgentTask
list_agent_tasks learner_id scope tasks =
    sort_by is_listed_before (filter (is_listed learner_id scope) tasks)
