-- ===== src/EventLog.antt =====
-- server/lingxilearn/store/repositories/agent_tasks.py: the event log of a task, its numbering, its
-- pages, and the publication of an outbox row into it. A payload keeps the keys that are read or
-- written here and the text of the others. Task rows are their ids. The two locks make each append
-- one step.
pub mod Numbers
pub mod Pages
pub mod Publish
mod Tests
use text.Mathlib.Text.{starts_with}
use lingxi_learn.Prelude.{
  ℕ, suc, ◌+◌, String, Bool, true, false, ◌&&◌, Option, none, some, List, [], ◌∷◌, ◌++◌, ◌==◌, ltb,
  if◌then◌else◌,
}
use lingxi_learn.Prelude.Tables.{any, filter, take, length}
use lingxi_learn.Prelude.Order.{sort_by}
use lingxi_learn.WorkLedger.Commands.{max_of}
use lingxi_learn.Outbox.{OutboxRow, mark_outbox_published}

-- `stream` is the stream's executionId, "" when missing, if the payload has a stream object.
pub record EventPayload : Type 0 where
  pub is_object : Bool
  pub seq : Option ℕ
  pub stream : Option String
  pub runtime : String
  pub body : String

pub record NewEvent : Type 0 where
  pub kind : String
  pub agent : String
  pub payload : EventPayload
  pub execution_id : Option String
  pub runtime : String
  pub turn_id : Option String
  pub agent_run_id : Option String
  pub skill_run_id : Option String

pub record AgentTaskEvent : Type 0 where
  pub task_id : String
  pub sequence : ℕ
  pub kind : String
  pub agent : String
  pub payload : EventPayload
  pub execution_id : Option String
  pub runtime : String
  pub turn_id : Option String
  pub agent_run_id : Option String
  pub skill_run_id : Option String

pub record EventLog : Type 0 where
  pub task_ids : List String
  pub events : List AgentTaskEvent
  pub outbox : List OutboxRow

abbrev text_of : Option String → String
text_of none = ""
text_of (some s) = s

abbrev pub stamp_stream : Option String → Option String → Option String
stamp_stream execution_id none = none
stamp_stream execution_id (some id) = some (if id == "" then text_of execution_id else id)

-- The public envelope of a `v1.` event carries its row's sequence and its execution.
unfoldable pub stamp : ℕ → NewEvent → EventPayload
stamp sequence e =
    if starts_with e.kind "v1." && e.payload.is_object
    then record (e.payload) {
      seq = some sequence;
      stream = stamp_stream e.execution_id e.payload.stream;
    }
    else e.payload

unfoldable pub event_row : String → ℕ → NewEvent → AgentTaskEvent
event_row task_id sequence e = record {
  task_id = task_id;
  sequence = sequence;
  kind = e.kind;
  agent = e.agent;
  payload = stamp sequence e;
  execution_id = e.execution_id;
  runtime = if e.runtime == "" then e.payload.runtime else e.runtime;
  turn_id = e.turn_id;
  agent_run_id = e.agent_run_id;
  skill_run_id = e.skill_run_id;
}

-- `max(sequence)` over the task's events, or 0
unfoldable pub highest : String → List AgentTaskEvent → ℕ
highest task_id [] = 0
highest task_id (e ∷ es) =
    if e.task_id == task_id then max_of e.sequence (highest task_id es) else highest task_id es

-- the rows of the events, numbered from the given sequence on
unfoldable pub event_rows : String → ℕ → List NewEvent → List AgentTaskEvent
unfolding event_row
event_rows task_id sequence [] = []
event_rows task_id sequence (e ∷ es) =
    event_row task_id sequence e ∷ event_rows task_id (suc sequence) es

-- `_write_agent_event_rows`, with the sequence of the last row
unfoldable pub write_agent_event_rows : String → List NewEvent → EventLog → EventLog × ℕ
write_agent_event_rows task_id events s =
    let top = highest task_id s.events in
    (record s { events = s.events ++ event_rows task_id (top + 1) events }, top + length events)

abbrev pub has_task : String → EventLog → Bool
has_task task_id s = any (λ t. t == task_id) s.task_ids

-- `none` is the KeyError of an unknown task; an empty batch only reads.
unfoldable pub append_agent_events : String → List NewEvent → EventLog → Option (EventLog × ℕ)
append_agent_events task_id [] s = some (s, highest task_id s.events)
append_agent_events task_id (e ∷ es) s =
    if has_task task_id s then some (write_agent_event_rows task_id (e ∷ es) s) else none

abbrev pub publish_claimed :
    String → List NewEvent → List OutboxRow × Bool → EventLog → EventLog × Bool
publish_claimed task_id events (rows, false) s = (s, false)
publish_claimed task_id events (rows, true) s =
    (record (write_agent_event_rows task_id events s).0 { outbox = rows }, true)

unfoldable pub publish_outbox_agent_events :
    String → String → List NewEvent → ℕ → EventLog → Option (EventLog × Bool)
publish_outbox_agent_events outbox_id task_id events now s =
    if has_task task_id s
    then some (publish_claimed task_id events (mark_outbox_published outbox_id now s.outbox) s)
    else none

abbrev pub before : AgentTaskEvent → AgentTaskEvent → Bool
before a b = ltb a.sequence b.sequence

-- The events of the task after a cursor, in order, at most `limit` of them.
unfoldable pub agent_events_after : String → ℕ → ℕ → EventLog → List AgentTaskEvent
agent_events_after task_id cursor limit s =
    take limit
      (sort_by before (filter (λ e. e.task_id == task_id && ltb cursor e.sequence) s.events))
