-- ===== src/WorkLedger/Machine.antt =====
-- The operations on the ledger as one machine. `run` is a call that nothing comes between.
pub mod Sessions
pub mod Rows
pub mod Ends
pub mod Overlaps
pub mod Kept
use lingxi_learn.Prelude.{ℕ, String, Bool, List, [], ◌∷◌, ◌&&◌, ◌||◌, not, Option}
use lingxi_learn.WorkLedger.{WorkStatus, WorkItem, Ledger, is_queued, is_leased}
use lingxi_learn.WorkLedger.Leases.{
  claim_work_item, claim_work, heartbeat_work, recover_expired_work, is_live,
}
use lingxi_learn.WorkLedger.Settle.{
  Report, Amounts, finish_work, cancel_work, confirm_work, reserve_budget, settle_budget,
}
use lingxi_learn.WorkLedger.Plans.{Plan, create_work_plan}

pub data LedgerOp : Type 0 where
  claim_item : String → String → ℕ → ℕ → LedgerOp
  claim_any : String → ℕ → ℕ → LedgerOp
  heartbeat : String → String → ℕ → ℕ → LedgerOp
  recover : ℕ → ℕ → LedgerOp
  finish : String → String → WorkStatus → Option Report → String → LedgerOp
  cancel : String → String → LedgerOp
  confirm : String → String → Bool → ℕ → LedgerOp
  plan : (ℕ → String) → Plan → LedgerOp
  hold : String → String → String → ℕ → Amounts → Amounts → LedgerOp
  settle_plan : String → String → ℕ → Amounts → Amounts → LedgerOp

unfoldable pub run : LedgerOp → Ledger → Ledger
run (claim_item work_id owner seconds moment) db =
    (claim_work_item work_id owner seconds moment db).0
run (claim_any owner seconds moment) db = (claim_work owner seconds moment db).0
run (heartbeat work_id owner seconds moment) db = (heartbeat_work work_id owner seconds moment db).0
run (recover limit moment) db = recover_expired_work limit moment db
run (finish work_id owner status result result_id) db =
    (finish_work work_id owner status result result_id db).0
run (cancel task_id work_id) db = (cancel_work task_id work_id db).0
run (confirm work_id digest approve moment) db = (confirm_work work_id digest approve moment db).0
run (plan fresh p) db = (create_work_plan fresh p db).0
run (hold id task_id turn_id revision a limits) db =
    (reserve_budget id task_id turn_id revision a limits db).0
run (settle_plan task_id turn_id revision reserved used) db =
    (settle_budget task_id turn_id revision reserved used db).0

-- calls one after the other
unfoldable pub run_all : List LedgerOp → Ledger → Ledger
run_all [] db = db
run_all (op ∷ ops) db = run_all ops (run op db)

-- Neither queued nor under a lease that is over at `moment`.
abbrev pub is_stable : ℕ → WorkItem → Bool
is_stable moment r = not (is_queued r.status) && (not (is_leased r.status) || is_live moment r)
