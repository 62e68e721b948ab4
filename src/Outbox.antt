-- ===== src/Outbox.antt =====
-- server/lingxilearn/store/repositories/work_ledger.py: the transactional outbox and the fact snapshots,
-- with their rows of server/lingxilearn/store/models/agent.py. JSON columns are their text, times are
-- numbers, a fresh identifier is an argument. The recovery from a violated unique key in
-- `save_fact_snapshot` reads the winner's row, which is what a call after the winner's does.
pub mod Once
mod Tests
use lingxi_learn.Prelude.{
  ℕ, ◌+◌, String, Bool, true, false, ◌&&◌, not, Option, none, some, List, [], ◌∷◌, ◌++◌, ◌==◌,
  nat_beq, if◌then◌else◌, is_some,
}
use lingxi_learn.Prelude.Tables.{lookup, modify, find?, filter}

-- TransactionalOutbox
pub record OutboxRow : Type 0 where
  pub id : String
  pub event_key : String
  pub task_id : String
  pub turn_id : String
  pub plan_revision : ℕ
  pub kind : String
  pub safe_payload : String
  pub published_at : Option ℕ

pub record FactSnapshot : Type 0 where
  pub id : String
  pub task_id : String
  pub turn_id : String
  pub plan_revision : ℕ
  pub facts : String
  pub evidence_refs : List String
  pub artifact_refs : List String

pub record NewEvent : Type 0 where
  pub event_key : String
  pub task_id : String
  pub turn_id : String
  pub plan_revision : ℕ
  pub kind : String
  pub payload : String

abbrev pub outbox_id : OutboxRow → String
outbox_id r = r.id

abbrev pub has_event_key : String → OutboxRow → Bool
has_event_key key r = r.event_key == key

abbrev pub new_row : String → NewEvent → OutboxRow
new_row id e = record {
  id = id;
  event_key = e.event_key;
  task_id = e.task_id;
  turn_id = e.turn_id;
  plan_revision = e.plan_revision;
  kind = e.kind;
  safe_payload = e.payload;
  published_at = none;
}

abbrev pub add_event :
    String → NewEvent → Option OutboxRow → List OutboxRow → List OutboxRow × OutboxRow
add_event id e (some row) rows = (rows, row)
add_event id e none rows = (rows ++ new_row id e ∷ [], new_row id e)

unfoldable pub append_outbox : String → NewEvent → List OutboxRow → List OutboxRow × OutboxRow
append_outbox id e rows = add_event id e (find? (has_event_key e.event_key) rows) rows

abbrev pub is_unpublished : OutboxRow → Bool
is_unpublished r = not (is_some r.published_at)

abbrev pub of_task : Option String → OutboxRow → Bool
of_task none r = true
of_task (some task_id) r = r.task_id == task_id

unfoldable pub pending_outbox : Option String → List OutboxRow → List OutboxRow
pending_outbox task_id rows = filter (λ r. is_unpublished r && of_task task_id r) rows

abbrev pub publish : ℕ → OutboxRow → OutboxRow
publish now r = record r { published_at = some now }

abbrev pub mark_row : String → ℕ → Option OutboxRow → List OutboxRow → List OutboxRow × Bool
mark_row outbox_id_value now none rows = (rows, false)
mark_row outbox_id_value now (some r) rows =
    if is_unpublished r
    then (modify outbox_id outbox_id_value (publish now) rows, true)
    else (rows, false)

unfoldable pub mark_outbox_published : String → ℕ → List OutboxRow → List OutboxRow × Bool
mark_outbox_published k now rows = mark_row k now (lookup outbox_id k rows) rows

abbrev pub is_snapshot_of : String → String → ℕ → FactSnapshot → Bool
is_snapshot_of task_id turn_id revision r =
    r.task_id == task_id && r.turn_id == turn_id && nat_beq r.plan_revision revision

abbrev pub add_snapshot :
    FactSnapshot → Option FactSnapshot → List FactSnapshot → List FactSnapshot × FactSnapshot
add_snapshot fresh (some row) rows = (rows, row)
add_snapshot fresh none rows = (rows ++ fresh ∷ [], fresh)

-- `fresh` is the row that the arguments describe, under a fresh identifier.
unfoldable pub save_fact_snapshot :
    FactSnapshot → List FactSnapshot → List FactSnapshot × FactSnapshot
save_fact_snapshot fresh rows =
    add_snapshot fresh (find? (is_snapshot_of fresh.task_id fresh.turn_id fresh.plan_revision) rows)
      rows
