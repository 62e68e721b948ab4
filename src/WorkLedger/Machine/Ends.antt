-- ===== src/WorkLedger/Machine/Ends.antt =====
-- A row that an operation may not take is left as it is: ends of attempts, plans, budget rows.
use lingxi_learn.Prelude.{
  ℕ, String, refl, Bool, true, false, ◌&&◌, ◌||◌, not, Option, none, some, List, ◌==◌, nat_beq,
  arith,
}
use lingxi_learn.Prelude.Tables.{lookup-append_some}
use lingxi_learn.WorkLedger.{
  BudgetLedger, AgentTurn, WorkStatus, WorkItem, Ledger, item_id, set_item, is_leased, is_final,
}
use lingxi_learn.WorkLedger.Leases.{heartbeat_row, is_before, owned_by, release}
use lingxi_learn.WorkLedger.Settle.{
  Report, Amounts, is_over, empty_row, finish_row, is_waiting, digest_is, cancel_row, confirm_row,
  reserve_row, store_result,
}
use lingxi_learn.WorkLedger.Plans.{Plan, submit, commit_plan}
use lingxi_learn.WorkLedger.Machine.Rows.{Holds, Holds-if, set_item-Holds, IsAway}

-- the rows that a heartbeat or an end by `owner` may write
abbrev pub is_own : String → WorkItem → Bool
is_own owner r = owned_by owner r && is_leased r.status

abbrev pub is_unfinished : WorkItem → Bool
is_unfinished r = not (is_final r.status)

abbrev pub awaits_answer : WorkItem → Bool
awaits_answer r = is_waiting r.status

module _ (j : String) (row : WorkItem) where
  pub heartbeat_row-Holds :
      (owner : String) (seconds moment : ℕ) (o : Option WorkItem) (db : Ledger)
      → IsAway j row (is_own owner) o
      → Holds j row db
      → Holds j row (heartbeat_row owner seconds moment o db).0
  unfolding heartbeat_row
  heartbeat_row-Holds owner seconds moment none db away h = h
  heartbeat_row-Holds owner seconds moment (some r) db away h =
      Holds-if j row (not (is_leased r.status && owned_by owner r)) _ _ (λ _. h)
        λ mine.
          Holds-if j row (is_before r.lease_until moment) _ _ (λ _. h)
            λ _. set_item-Holds j row r.id _ db (λ x. refl) (away (ground arith)) h

  pub finish_row-Holds :
      (owner : String) (status : WorkStatus) (result : Option Report) (result_id : String)
      (o : Option WorkItem) (db : Ledger)
      → IsAway j row (is_own owner) o
      → Holds j row db
      → Holds j row (finish_row owner status result result_id o db).0
  unfolding finish_row store_result
  finish_row-Holds owner status result result_id none db away h = h
  finish_row-Holds owner status none result_id (some r) db away h =
      Holds-if j row (not (is_own owner r)) _ _ (λ _. h)
        λ mine. set_item-Holds j row r.id _ db (λ x. refl) (away (ground arith)) h
  finish_row-Holds owner status (some report) result_id (some r) db away h =
      Holds-if j row (not (is_own owner r)) _ _ (λ _. h)
        λ mine.
          set_item-Holds j row r.id _ (set_item r.id (release status) db) (λ x. refl)
            (away (ground arith))
            (set_item-Holds j row r.id _ db (λ x. refl) (away (ground arith)) h)

  pub cancel_row-Holds :
      (task_id : String) (o : Option WorkItem) (db : Ledger)
      → IsAway j row is_unfinished o
      → Holds j row db
      → Holds j row (cancel_row task_id o db).0
  unfolding cancel_row
  cancel_row-Holds task_id none db away h = h
  cancel_row-Holds task_id (some r) db away h =
      Holds-if j row (not (r.task_id == task_id) || is_final r.status) _ _ (λ _. h)
        λ live. set_item-Holds j row r.id _ db (λ x. refl) (away (ground arith)) h

  pub confirm_row-Holds :
      (digest : String) (approve : Bool) (moment : ℕ) (o : Option WorkItem) (db : Ledger)
      → IsAway j row awaits_answer o
      → Holds j row db
      → Holds j row (confirm_row digest approve moment o db).0
  unfolding confirm_row
  confirm_row-Holds digest approve moment none db away h = h
  confirm_row-Holds digest true moment (some r) db away h =
      Holds-if j row (not (is_waiting r.status && digest_is r.confirmation_digest digest)) _ _
        (λ _. h) λ y. set_item-Holds j row r.id _ db (λ x. refl) (away (ground arith)) h
  confirm_row-Holds digest false moment (some r) db away h =
      Holds-if j row (not (is_waiting r.status && digest_is r.confirmation_digest digest)) _ _
        (λ _. h) λ y. set_item-Holds j row r.id _ db (λ x. refl) (away (ground arith)) h

  pub commit_plan-Holds :
      (fresh : ℕ → String) (p : Plan) (rows : Option (List BudgetLedger)) (db : Ledger)
      → Holds j row db
      → Holds j row (commit_plan fresh p rows db).0
  unfolding commit_plan
  commit_plan-Holds fresh p none db h = h
  commit_plan-Holds fresh p (some rows) db h = lookup-append_some item_id j db.items _ row h

  pub submit-Holds :
      (fresh : ℕ → String) (p : Plan) (o : Option AgentTurn) (db : Ledger)
      → Holds j row db
      → Holds j row (submit fresh p o db).0
  unfolding submit
  submit-Holds fresh p none db h = h
  submit-Holds fresh p (some turn) db h =
      Holds-if j row (not (nat_beq turn.revision p.expected_revision)) _ _ (λ _. h)
        λ _. commit_plan-Holds fresh p _ db h

  pub reserve_row-Holds :
      (id task_id turn_id : String) (revision : ℕ) (a limits : Amounts) (o : Option BudgetLedger)
      (db : Ledger)
      → Holds j row db
      → Holds j row (reserve_row id task_id turn_id revision a limits o db).0
  unfolding reserve_row
  reserve_row-Holds id task_id turn_id revision a limits none db h =
      Holds-if j row (is_over a limits (empty_row id task_id turn_id revision)) _ _ (λ _. h)
        (λ _. h)
  reserve_row-Holds id task_id turn_id revision a limits (some b) db h =
      Holds-if j row (is_over a limits b) _ _ (λ _. h) (λ _. h)
