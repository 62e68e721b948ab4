-- ===== src/WorkLedger/Settle.antt =====
-- server/lingxilearn/store/repositories/work_ledger.py: how an item ends, and what happens to its reservation.
-- finish_work, cancel_work and confirm_work lock nothing; here they run with nothing in between, and
-- WorkLedger/Machine/Sessions splits them into their reads and commits.
-- An amount that an item reserves or a result reports is a number; what the source clamps with
-- `max(0, …)` is a signed integer here. `result_id` stands for the fresh identifier of a result.
pub mod Budget
use lingxi_learn.Prelude.{
  ℕ, ◌+◌, ◌-◌, String, Bool, true, false, ◌&&◌, ◌||◌, not, Option, none, some, List, [], ◌∷◌, ◌++◌,
  ◌==◌, if◌then◌else◌, is_some,
}
use lingxi_learn.Prelude.Int.{ℤ, pos_part, exceeds}
use lingxi_learn.Prelude.Tables.{find?}
use lingxi_learn.WorkLedger.{
  WorkStatus, queued, cancelled, waiting_confirmation, WorkItem, WorkResult, Usage, BudgetLedger,
  Ledger, item_of, set_item, set_ledger, same_plan, is_leased, is_final,
}
use lingxi_learn.WorkLedger.Leases.{release, owned_by}

-- the ledger row of the item's plan
abbrev pub plan_of : WorkItem → BudgetLedger → Bool
plan_of r = same_plan r.task_id r.turn_id r.plan_revision

-- `max(0, reserved - item.reserved)`, which is what `-` on numbers does
abbrev pub give_back : WorkItem → BudgetLedger → BudgetLedger
give_back r b = record b {
  reserved_tokens = b.reserved_tokens - r.reserved_tokens;
  reserved_heavy = b.reserved_heavy - r.reserved_heavy;
  reserved_wall_ms = b.reserved_wall_ms - r.reserved_wall_ms;
}

abbrev pub charge : WorkItem → Usage → BudgetLedger → BudgetLedger
charge r u b = record (give_back r b) {
  used_tokens = b.used_tokens + u.tokens;
  used_heavy = b.used_heavy + u.heavy;
  used_wall_ms = b.used_wall_ms + u.wall_ms;
}

-- What a caller reports about a finished attempt.
pub record Report : Type 0 where
  pub schema_id : String
  pub safe_summary : String
  pub artifact_refs : List String
  pub evidence_refs : List String
  pub usage : Usage
  pub output_payload : String
  pub error_code : String

-- `if result is not None`: store it, link it, settle the plan's ledger row
unfoldable pub store_result : String → WorkItem → Option Report → Ledger → Ledger
store_result result_id row none db = db
store_result result_id row (some report) db =
    let stored : WorkResult = record {
      id = result_id;
      work_id = row.id;
      schema_id = report.schema_id;
      safe_summary = report.safe_summary;
      artifact_refs = report.artifact_refs;
      evidence_refs = report.evidence_refs;
      usage = report.usage;
      output_payload = report.output_payload;
      error_code = report.error_code;
    } in
    let linked = set_item row.id (λ r. record r { result_id = some result_id }) db in
    set_ledger (plan_of row) (charge row report.usage)
      (record linked { results = linked.results ++ stored ∷ [] })

unfoldable pub finish_row :
    String → WorkStatus → Option Report → String → Option WorkItem → Ledger → Ledger × Bool
finish_row owner status result result_id none db = (db, false)
finish_row owner status result result_id (some row) db =
    if not (owned_by owner row && is_leased row.status)
    then (db, false)
    else (store_result result_id row result (set_item row.id (release status) db), true)

unfoldable pub finish_work :
    String → String → WorkStatus → Option Report → String → Ledger → Ledger × Bool
finish_work work_id owner status result result_id db =
    finish_row owner status result result_id (item_of work_id db.items) db

-- A column that is set to NULL, which the update leaves out if the row was read with NULL there.
abbrev pub cleared {ℓ} : {A : Type ℓ} → Option A → Option A → Option A
cleared none now = now
cleared (some read) now = none

abbrev pub cancel_as_read : WorkItem → WorkItem → WorkItem
cancel_as_read read r = record r {
  status = cancelled;
  lease_owner = cleared read.lease_owner r.lease_owner;
  lease_until = cleared read.lease_until r.lease_until;
}

unfoldable pub cancel_row : String → Option WorkItem → Ledger → Ledger × Bool
cancel_row task_id none db = (db, false)
cancel_row task_id (some row) db =
    if not (row.task_id == task_id) || is_final row.status
    then (db, false)
    else (set_ledger (plan_of row) (give_back row) (set_item row.id (cancel_as_read row) db), true)

unfoldable pub cancel_work : String → String → Ledger → Ledger × Bool
cancel_work task_id work_id db = cancel_row task_id (item_of work_id db.items) db

abbrev pub is_waiting : WorkStatus → Bool
is_waiting waiting_confirmation = true
is_waiting _ = false

abbrev pub digest_is : Option String → String → Bool
digest_is none digest = false
digest_is (some d) digest = d == digest

unfoldable pub confirm_row : String → Bool → ℕ → Option WorkItem → Ledger → Ledger × Bool
confirm_row digest approve moment none db = (db, false)
confirm_row digest approve moment (some row) db =
    if not (is_waiting row.status && digest_is row.confirmation_digest digest)
    then (db, false)
    else if approve
    then (set_item row.id (λ r. record r { status = queued; confirmed_at = some moment }) db, true)
    else (
      set_ledger (plan_of row) (give_back row)
          (set_item row.id (λ r. record r { status = cancelled; confirmed_at = none }) db),
      false,
    )

unfoldable pub confirm_work : String → String → Bool → ℕ → Ledger → Ledger × Bool
confirm_work work_id digest approve moment db =
    confirm_row digest approve moment (item_of work_id db.items) db

pub record Amounts : Type 0 where
  pub tokens : ℤ
  pub heavy : ℤ
  pub wall_ms : ℤ

abbrev pub empty_row : String → String → String → ℕ → BudgetLedger
empty_row id task_id turn_id revision = record {
  id = id;
  task_id = task_id;
  turn_id = turn_id;
  plan_revision = revision;
  reserved_tokens = 0;
  used_tokens = 0;
  reserved_heavy = 0;
  used_heavy = 0;
  reserved_wall_ms = 0;
  used_wall_ms = 0;
}

abbrev pub is_over : Amounts → Amounts → BudgetLedger → Bool
is_over a limits b =
    exceeds (b.reserved_tokens + b.used_tokens) a.tokens limits.tokens
    || exceeds (b.reserved_heavy + b.used_heavy) a.heavy limits.heavy
    || exceeds (b.reserved_wall_ms + b.used_wall_ms) a.wall_ms limits.wall_ms

abbrev pub hold_back : Amounts → BudgetLedger → BudgetLedger
hold_back a b = record b {
  reserved_tokens = b.reserved_tokens + pos_part a.tokens;
  reserved_heavy = b.reserved_heavy + pos_part a.heavy;
  reserved_wall_ms = b.reserved_wall_ms + pos_part a.wall_ms;
}

unfoldable pub reserve_row :
    String → String → String → ℕ → Amounts → Amounts → Option BudgetLedger → Ledger → Ledger × Bool
reserve_row id task_id turn_id revision a limits none db =
    let fresh = empty_row id task_id turn_id revision in
    if is_over a limits fresh
    then (db, false)
    else (record db { ledgers = db.ledgers ++ hold_back a fresh ∷ [] }, true)
reserve_row id task_id turn_id revision a limits (some row) db =
    if is_over a limits row
    then (db, false)
    else (set_ledger (same_plan task_id turn_id revision) (hold_back a) db, true)

-- `id` is the fresh identifier of a new row; a refusal rolls it back.
unfoldable pub reserve_budget :
    String → String → String → ℕ → Amounts → Amounts → Ledger → Ledger × Bool
reserve_budget id task_id turn_id revision a limits db =
    reserve_row id task_id turn_id revision a limits
      (find? (same_plan task_id turn_id revision) db.ledgers) db

abbrev pub settle : Amounts → Amounts → BudgetLedger → BudgetLedger
settle reserved used b = record b {
  reserved_tokens = b.reserved_tokens - pos_part reserved.tokens;
  reserved_heavy = b.reserved_heavy - pos_part reserved.heavy;
  reserved_wall_ms = b.reserved_wall_ms - pos_part reserved.wall_ms;
  used_tokens = b.used_tokens + pos_part used.tokens;
  used_heavy = b.used_heavy + pos_part used.heavy;
  used_wall_ms = b.used_wall_ms + pos_part used.wall_ms;
}

unfoldable pub settle_budget : String → String → ℕ → Amounts → Amounts → Ledger → Ledger × Bool
settle_budget task_id turn_id revision reserved used db =
    if is_some (find? (same_plan task_id turn_id revision) db.ledgers)
    then (set_ledger (same_plan task_id turn_id revision) (settle reserved used) db, true)
    else (db, false)
