-- ===== src/WorkLedger/Plans.antt =====
-- server/lingxilearn/store/repositories/work_ledger.py: `create_work_plan`, the compare-and-set submission of a plan's
-- work items under the task's budget. An empty text in a request stands for a missing key, as `or`
-- makes no difference between them; `fresh` supplies the identifiers
-- in the order in which they are drawn, three for each item.
-- A violated unique key aborts the transaction in the database and is not modelled.
pub mod Budget
pub mod Revision
use Prim.Native.String.{◌++◌ as ◌<>◌}
use lingxi_learn.Prelude.{
  ℕ, suc, ◌+◌, String, Bool, ◌&&◌, ◌||◌, not, Option, none, some, List, [], ◌∷◌, ◌++◌, ◌==◌,
  nat_beq, ltb, if◌then◌else◌, is_some,
}
use lingxi_learn.Prelude.Int.{ℤ, pos_part}
use lingxi_learn.Prelude.Tables.{find?, modify_first, any, sum_by}
use lingxi_learn.WorkLedger.{
  WorkStatus, queued, WorkItem, WorkDependency, BudgetLedger, AgentTurn, CandidateSnapshot, Ledger,
  same_plan,
}
use lingxi_learn.WorkLedger.Settle.{empty_row}

pub record WorkRequest : Type 0 where
  pub id : String
  pub work_key : String
  pub candidate_id : String
  pub capability : String
  pub skill_id : String
  pub skill_version : String
  pub skill_checksum : String
  pub provider : String
  pub knowledge_point_id : String
  pub input_payload : String
  pub idempotency_key : String
  pub status : Option WorkStatus
  pub reserved_tokens : ℕ
  pub reserved_heavy : ℕ
  pub reserved_wall_ms : ℕ
  pub confirmation_digest : String

-- The keys of the budget dictionary that are read; a missing one is 0.
pub record Limits : Type 0 where
  pub token_budget : ℤ
  pub max_heavy_artifacts : ℤ
  pub wall_ms_budget : ℤ

pub record Reservation : Type 0 where
  pub tokens : ℕ
  pub heavy : ℕ
  pub wall_ms : ℕ

pub data PlanResult : Type 0 where
  refused : PlanResult
  budget_exceeded : Reservation → PlanResult
  created : ℕ → List WorkItem → PlanResult

abbrev pub text_or : String → String → String
text_or s d = if s == "" then d else s

unfoldable pub reservation_of : List WorkRequest → Reservation
reservation_of items = record {
  tokens = sum_by (λ (r : WorkRequest). r.reserved_tokens) items;
  heavy = sum_by (λ (r : WorkRequest). r.reserved_heavy) items;
  wall_ms = sum_by (λ (r : WorkRequest). r.reserved_wall_ms) items;
}

abbrev pub is_positive : Reservation → Bool
is_positive v = ltb 0 v.tokens || ltb 0 v.heavy || ltb 0 v.wall_ms

-- What the rows of a task hold and have used, per resource.
abbrev pub tokens_of : String → BudgetLedger → ℕ
tokens_of task_id b = if b.task_id == task_id then b.reserved_tokens + b.used_tokens else 0

abbrev pub heavy_of : String → BudgetLedger → ℕ
heavy_of task_id b = if b.task_id == task_id then b.reserved_heavy + b.used_heavy else 0

abbrev pub wall_ms_of : String → BudgetLedger → ℕ
wall_ms_of task_id b = if b.task_id == task_id then b.reserved_wall_ms + b.used_wall_ms else 0

abbrev pub exceeds_limits : String → Reservation → Limits → List BudgetLedger → Bool
exceeds_limits task_id v limits rows =
    ltb (pos_part limits.token_budget) (sum_by (tokens_of task_id) rows + v.tokens)
    || ltb (pos_part limits.max_heavy_artifacts) (sum_by (heavy_of task_id) rows + v.heavy)
    || ltb (pos_part limits.wall_ms_budget) (sum_by (wall_ms_of task_id) rows + v.wall_ms)

abbrev pub set_reserved : Reservation → BudgetLedger → BudgetLedger
set_reserved v b = record b {
  reserved_tokens = v.tokens;
  reserved_heavy = v.heavy;
  reserved_wall_ms = v.wall_ms;
}

-- The rows with the plan's row in them, a new empty one if there was none.
unfoldable pub with_row : String → String → String → ℕ → List BudgetLedger → List BudgetLedger
with_row id task_id turn_id revision rows =
    if is_some (find? (same_plan task_id turn_id revision) rows)
    then rows
    else rows ++ empty_row id task_id turn_id revision ∷ []

-- `none` is the refusal of the reservation, after which everything is rolled back.
unfoldable pub reserve :
    String
    → String
    → String
    → ℕ
    → Option Limits
    → Reservation
    → List BudgetLedger
    → Option (List BudgetLedger)
unfolding with_row
reserve id task_id turn_id revision none v rows = some rows
reserve id task_id turn_id revision (some limits) v rows =
    let rows' = with_row id task_id turn_id revision rows in
    if not (is_positive v)
    then some rows
    else if exceeds_limits task_id v limits rows'
    then none
    else some (modify_first (same_plan task_id turn_id revision) (set_reserved v) rows')

abbrev status_or : Option WorkStatus → WorkStatus
status_or none = queued
status_or (some s) = s

unfoldable pub new_item : (ℕ → String) → ℕ → String → String → ℕ → WorkRequest → WorkItem
new_item fresh n task_id turn_id revision raw = record {
  id = text_or raw.id (fresh n);
  task_id = task_id;
  turn_id = turn_id;
  work_key = text_or raw.work_key (text_or raw.id (fresh (suc n)));
  plan_revision = revision;
  candidate_id = raw.candidate_id;
  capability = raw.capability;
  skill_id = raw.skill_id;
  skill_version = raw.skill_version;
  skill_checksum = raw.skill_checksum;
  provider = raw.provider;
  knowledge_point_id = raw.knowledge_point_id;
  input_payload = raw.input_payload;
  status = status_or raw.status;
  idempotency_key =
      text_or raw.idempotency_key (turn_id <> ":" <> text_or raw.id (fresh (suc (suc n))));
  attempts = 0;
  lease_owner = none;
  lease_until = none;
  confirmation_digest =
      if raw.confirmation_digest == "" then none else some raw.confirmation_digest;
  confirmed_at = none;
  result_id = none;
  reserved_tokens = raw.reserved_tokens;
  reserved_heavy = raw.reserved_heavy;
  reserved_wall_ms = raw.reserved_wall_ms;
}

unfoldable pub new_items : (ℕ → String) → ℕ → String → String → ℕ → List WorkRequest → List WorkItem
unfolding new_item
new_items fresh n task_id turn_id revision [] = []
new_items fresh n task_id turn_id revision (raw ∷ more) =
    new_item fresh n task_id turn_id revision raw
    ∷ new_items fresh (suc (suc (suc n))) task_id turn_id revision more

-- One snapshot for each candidate, from the first item that names it.
unfoldable pub new_snapshots : List String → List WorkItem → List CandidateSnapshot
new_snapshots seen [] = []
new_snapshots seen (r ∷ rest) =
    let kept = new_snapshots seen rest in
    let added = new_snapshots (r.candidate_id ∷ seen) rest in
    if r.candidate_id == "" || any (λ c. c == r.candidate_id) seen
    then kept
    else record {
      task_id = r.task_id;
      turn_id = r.turn_id;
      plan_revision = r.plan_revision;
      candidate_id = r.candidate_id;
      capability = r.capability;
      knowledge_point_id = r.knowledge_point_id;
      skill_id = r.skill_id;
      skill_version = r.skill_version;
      skill_checksum = r.skill_checksum;
      provider = r.provider;
    }
      ∷ added

pub record Plan : Type 0 where
  pub task_id : String
  pub turn_id : String
  pub expected_revision : ℕ
  pub items : List WorkRequest
  pub dependencies : List WorkDependency
  pub budget : Option Limits

abbrev pub is_turn : String → String → AgentTurn → Bool
is_turn task_id turn_id t = t.id == turn_id && t.task_id == task_id

unfoldable pub commit_plan :
    (ℕ → String) → Plan → Option (List BudgetLedger) → Ledger → Ledger × PlanResult
unfolding new_items new_snapshots reservation_of
commit_plan fresh p none db = (db, budget_exceeded (reservation_of p.items))
commit_plan fresh p (some rows) db =
    let revision = p.expected_revision + 1 in
    let made = new_items fresh 1 p.task_id p.turn_id revision p.items in
    (
      record db {
        ledgers = rows;
        items = db.items ++ made;
        snapshots = db.snapshots ++ new_snapshots [] made;
        turns =
            modify_first (is_turn p.task_id p.turn_id) (λ t. record t { revision = revision })
              db.turns;
        dependencies = db.dependencies ++ p.dependencies;
      },
      created revision made,
    )

unfoldable pub submit : (ℕ → String) → Plan → Option AgentTurn → Ledger → Ledger × PlanResult
submit fresh p none db = (db, refused)
submit fresh p (some turn) db =
    if not (nat_beq turn.revision p.expected_revision)
    then (db, refused)
    else commit_plan fresh p
        (reserve (fresh 0) p.task_id p.turn_id (p.expected_revision + 1) p.budget
          (reservation_of p.items) db.ledgers)
        db

unfoldable pub create_work_plan : (ℕ → String) → Plan → Ledger → Ledger × PlanResult
create_work_plan fresh p db =
    if any (λ t. t == p.task_id) db.task_ids
    then submit fresh p (find? (is_turn p.task_id p.turn_id) db.turns) db
    else (db, refused)
