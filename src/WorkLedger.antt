-- ===== src/WorkLedger.antt =====
-- server/lingxilearn/store/models/agent.py and server/lingxilearn/store/repositories/work_ledger.py: the rows of the
-- coordinator's work ledger. A table is a list of rows in creation order; a time is a number of
-- seconds; a nullable column is an `Option`; JSON columns are their text.
pub mod Leases
pub mod Settle
pub mod Plans
pub mod Commands
pub mod Machine
mod Tests
use lingxi_learn.Prelude.{ℕ, String, Bool, true, false, ◌&&◌, Option, List, ◌==◌, nat_beq}
use lingxi_learn.Prelude.Tables.{lookup, modify, modify_first}

pub data WorkStatus : Type 0 where
  queued leased blocked succeeded failed incomplete cancelled waiting_confirmation : WorkStatus

pub record WorkItem : Type 0 where
  pub id : String
  pub task_id : String
  pub turn_id : String
  pub work_key : String
  pub plan_revision : ℕ
  pub candidate_id : String
  pub capability : String
  pub skill_id : String
  pub skill_version : String
  pub skill_checksum : String
  pub provider : String
  pub knowledge_point_id : String
  pub input_payload : String
  pub status : WorkStatus
  pub idempotency_key : String
  pub attempts : ℕ
  pub lease_owner : Option String
  pub lease_until : Option ℕ
  pub confirmation_digest : Option String
  pub confirmed_at : Option ℕ
  pub result_id : Option String
  pub reserved_tokens : ℕ
  pub reserved_heavy : ℕ
  pub reserved_wall_ms : ℕ

pub record WorkDependency : Type 0 where
  pub work_id : String
  pub depends_on_id : String

pub record Usage : Type 0 where
  pub tokens : ℕ
  pub heavy : ℕ
  pub wall_ms : ℕ

pub record WorkResult : Type 0 where
  pub id : String
  pub work_id : String
  pub schema_id : String
  pub safe_summary : String
  pub artifact_refs : List String
  pub evidence_refs : List String
  pub usage : Usage
  pub output_payload : String
  pub error_code : String

pub record BudgetLedger : Type 0 where
  pub id : String
  pub task_id : String
  pub turn_id : String
  pub plan_revision : ℕ
  pub reserved_tokens : ℕ
  pub used_tokens : ℕ
  pub reserved_heavy : ℕ
  pub used_heavy : ℕ
  pub reserved_wall_ms : ℕ
  pub used_wall_ms : ℕ

pub record AgentTurn : Type 0 where
  pub id : String
  pub task_id : String
  pub turn_index : ℕ
  pub status : String
  pub phase : String
  pub goal_status : String
  pub execution_mode : String
  pub revision : ℕ
  pub input_payload : String

pub record CandidateSnapshot : Type 0 where
  pub task_id : String
  pub turn_id : String
  pub plan_revision : ℕ
  pub candidate_id : String
  pub capability : String
  pub knowledge_point_id : String
  pub skill_id : String
  pub skill_version : String
  pub skill_checksum : String
  pub provider : String

-- The tables that the operations on work items read and write.
pub record Ledger : Type 0 where
  pub task_ids : List String
  pub turns : List AgentTurn
  pub items : List WorkItem
  pub dependencies : List WorkDependency
  pub ledgers : List BudgetLedger
  pub results : List WorkResult
  pub snapshots : List CandidateSnapshot

abbrev pub item_id : WorkItem → String
item_id r = r.id

abbrev pub item_of : String → List WorkItem → Option WorkItem
item_of = lookup item_id

abbrev pub set_item : String → (WorkItem → WorkItem) → Ledger → Ledger
set_item k f db = record db { items = modify item_id k f db.items }

abbrev pub is_queued : WorkStatus → Bool
is_queued queued = true
is_queued _ = false

abbrev pub is_leased : WorkStatus → Bool
is_leased leased = true
is_leased _ = false

abbrev pub is_succeeded : WorkStatus → Bool
is_succeeded succeeded = true
is_succeeded _ = false

-- {"failed", "incomplete", "blocked", "cancelled"}
abbrev pub is_dead : WorkStatus → Bool
is_dead failed = true
is_dead incomplete = true
is_dead blocked = true
is_dead cancelled = true
is_dead _ = false

-- {"succeeded", "failed", "cancelled"}
abbrev pub is_final : WorkStatus → Bool
is_final succeeded = true
is_final failed = true
is_final cancelled = true
is_final _ = false

-- `BudgetLedger` of the item's task, turn and plan revision
abbrev pub same_plan : String → String → ℕ → BudgetLedger → Bool
same_plan task_id turn_id revision b =
    b.task_id == task_id && (b.turn_id == turn_id && nat_beq b.plan_revision revision)

abbrev pub set_ledger : (BudgetLedger → Bool) → (BudgetLedger → BudgetLedger) → Ledger → Ledger
set_ledger test f db = record db { ledgers = modify_first test f db.ledgers }
