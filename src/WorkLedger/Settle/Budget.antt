-- ===== src/WorkLedger/Settle/Budget.antt =====
-- How the budget row of a plan follows its items: ends of attempts, cancellation, reservations.
use lingxi_learn.Prelude.{◌-◌, String, ◌≡◌, refl, ◌∙◌, Bool, true, some, arith, ==-self}
use lingxi_learn.Prelude.Tables.{find?, lookup-modify_self, modify, find?-modify_first}
use lingxi_learn.WorkLedger.{
  WorkStatus, leased, incomplete, BudgetLedger, Ledger, WorkItem, item_of, item_id, set_item,
}
use lingxi_learn.WorkLedger.Leases.{release}
use lingxi_learn.WorkLedger.Settle.{
  Report, plan_of, charge, give_back, finish_work, finish_row, store_result, cancel_work,
  cancel_row,
}

-- The owner's finish reaches the item, whether or not its plan has a budget row.
pub finish_work-item :
    (work_id owner result_id : String) (status : WorkStatus) (report : Report) (db : Ledger)
    (row : WorkItem)
    → item_of work_id db.items ≡ some row
    → row.status ≡ leased
    → row.lease_owner ≡ some owner
    → item_of work_id (finish_work work_id owner status (some report) result_id db).0.items
      ≡ some (record (release status row) { result_id = some result_id })
unfolding finish_work finish_row store_result
finish_work-item work_id owner result_id status report db row found held mine =
    let linked =
      lookup-modify_self item_id (λ r. record r { result_id = some result_id }) (λ r. refl) work_id
        (modify item_id row.id (release status) db.items) (release status row)
        (lookup-modify_self item_id (release status) (λ r. refl) work_id db.items row found) in
    rw found (ground (arith, ==-self owner, linked))

module _ (work_id owner result_id : String) (status : WorkStatus) (report : Report) (db : Ledger)
    (row : WorkItem) (b : BudgetLedger) (found : item_of work_id db.items ≡ some row)
    (held : row.status ≡ leased) (mine : row.lease_owner ≡ some owner)
    (planned : find? (plan_of row) db.ledgers ≡ some b) where
  abbrev pub ended : WorkItem
  ended = record (release status row) { result_id = some result_id }

  abbrev pub finished : Ledger × Bool
  finished = finish_work work_id owner status (some report) result_id db

  finish_work_lem :
      finished
      ≡ (store_result result_id row (some report) (set_item row.id (release status) db), true)
  unfolding finish_work finish_row
  finish_work_lem = rw found (ground (arith, ==-self owner))

  -- The owner of a lease ends its item with the status it reports: the lease and the reservation are
  -- given up, the usage is charged to the plan's row, and the result is linked.
  pub finish_work-settles :
      (finished.1 ≡ true)
      × (item_of work_id finished.0.items ≡ some ended)
      × (find? (plan_of row) finished.0.ledgers ≡ some (charge row report.usage b))
  unfolding store_result
  finish_work-settles = rw finish_work_lem (
    refl,
    lookup-modify_self item_id (λ r. record r { result_id = some result_id }) (λ r. refl) work_id
        (modify item_id row.id (release status) db.items) (release status row)
        (lookup-modify_self item_id (release status) (λ r. refl) work_id db.items row found),
    find?-modify_first (plan_of row) (charge row report.usage) db.ledgers (λ r. refl) ∙ rw planned,
  )

-- An attempt that ends `incomplete` has given its reservation back, and a later cancellation of the
-- item gives it back a second time, at the cost of the plan's other items.
pub cancel_work-double :
    (work_id owner result_id : String) (report : Report) (db : Ledger) (row : WorkItem)
    (b : BudgetLedger)
    → item_of work_id db.items ≡ some row
    → row.status ≡ leased
    → row.lease_owner ≡ some owner
    → find? (plan_of row) db.ledgers ≡ some b
    → let done = (finish_work work_id owner incomplete (some report) result_id db).0 in
      (after : BudgetLedger) × ((cancel_work row.task_id work_id done).1 ≡ true)
      × (find? (plan_of row) (cancel_work row.task_id work_id done).0.ledgers ≡ some after)
      × (after.reserved_tokens ≡ b.reserved_tokens - row.reserved_tokens - row.reserved_tokens)
unfolding cancel_work cancel_row
cancel_work-double work_id owner result_id report db row b found held mine planned =
    let (_, item, charged) =
      finish_work-settles work_id owner result_id incomplete report db row b found held mine
        planned in
    (
      give_back row (charge row report.usage b),
      rw item (rw (==-self row.task_id) refl),
      rw item (
          rw (==-self row.task_id)
            (find?-modify_first (plan_of row) (give_back row) _ (λ r. refl) ∙ rw charged)),
      refl,
    )
