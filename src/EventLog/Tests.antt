-- ===== src/EventLog/Tests.antt =====
-- Two tasks' logs and an outbox row, and instances of the theorems about them.
use lingxi_learn.Prelude.{ℕ, String, ◌≡◌, refl, true, false, none, some, List, [], ◌∷◌}
use lingxi_learn.Prelude.Tables.{any, filter, take, drop, lookup, modify}
use lingxi_learn.Outbox.{OutboxRow, mark_outbox_published, publish}
use lingxi_learn.EventLog.{
  NewEvent, EventLog, write_agent_event_rows, append_agent_events, publish_outbox_agent_events,
  agent_events_after,
}
use lingxi_learn.EventLog.Numbers.{
  of_task, IsNumbered, IsAppended, write-IsAppended, append_agent_events-IsAppended,
}
use lingxi_learn.EventLog.Pages.{agent_events_after-slice}
use lingxi_learn.EventLog.Publish.{publish_outbox_agent_events-once}

abbrev event : String → NewEvent
event body = record {
  kind = "v1.message";
  agent = "tutor";
  payload = record { is_object = true; seq = none; stream = some ""; runtime = ""; body = body };
  execution_id = some "x";
  runtime = "";
  turn_id = none;
  agent_run_id = none;
  skill_run_id = none;
}

abbrev row : OutboxRow
row = record {
  id = "o";
  event_key = "k";
  task_id = "t";
  turn_id = "u";
  plan_revision = 1;
  kind = "delivered";
  safe_payload = "{}";
  published_at = none;
}

abbrev empty_log : EventLog
empty_log = record { task_ids = "t" ∷ "v" ∷ []; events = []; outbox = row ∷ [] }

empty_log-IsNumbered : IsNumbered empty_log
unfolding filter
empty_log-IsNumbered task_id = tt

abbrev batch : List NewEvent
batch = event "a" ∷ event "b" ∷ []

abbrev log : EventLog
log = (write_agent_event_rows "t" batch empty_log).0

log-IsNumbered : IsNumbered log
log-IsNumbered = (write-IsAppended "t" batch empty_log empty_log-IsNumbered).numbered

abbrev other_log : EventLog
other_log = (write_agent_event_rows "v" batch log).0

append_run :
    append_agent_events "v" batch log ≡ some (other_log, (write_agent_event_rows "v" batch log).1)
unfolding append_agent_events write_agent_event_rows any
append_run = refl

append_agent_events-IsAppended_example :
    IsAppended "v" batch log other_log (write_agent_event_rows "v" batch log).1
append_agent_events-IsAppended_example =
    append_agent_events-IsAppended "v" batch log other_log (write_agent_event_rows "v" batch log).1
      log-IsNumbered append_run

agent_events_after-slice_example :
    agent_events_after "t" 1 5 log ≡ take 5 (drop 1 (of_task "t" log.events))
agent_events_after-slice_example = agent_events_after-slice "t" 1 5 log log-IsNumbered

abbrev published : EventLog
published = record (write_agent_event_rows "t" batch log).0 { outbox = publish 9 row ∷ [] }

publish_run : publish_outbox_agent_events "o" "t" batch 9 log ≡ some (published, true)
unfolding publish_outbox_agent_events write_agent_event_rows mark_outbox_published any lookup modify
publish_run = refl

publish_outbox_agent_events-once_example :
    ((total : ℕ) × IsAppended "t" batch log published total)
    × ((events' : List NewEvent) (later : ℕ)
        → publish_outbox_agent_events "o" "t" events' later published ≡ some (published, false))
publish_outbox_agent_events-once_example =
    publish_outbox_agent_events-once "o" "t" batch 9 log published log-IsNumbered publish_run
