-- ===== src/WorkLedger/Machine/Sessions.antt =====
-- The calls of server/lingxilearn/store/repositories/work_ledger.py as they overlap. heartbeat_work,
-- recover_expired_work, finish_work, cancel_work and confirm_work select their rows without a lock, test
-- what they have read, and update by primary key when they commit: such a call is a read and a commit, and
-- anything may come between. The claims, create_work_plan and the budget calls lock their rows and are one
-- step. The dependencies' statuses and the budget row that a call reads are read with its commit.
use lingxi_learn.Prelude.{
  ℕ, zero, suc, String, Bool, false, Option, none, some, List, [], ◌∷◌, map, ◌==◌,
}
use lingxi_learn.Prelude.Tables.{filter, take, any}
use lingxi_learn.WorkLedger.{WorkStatus, WorkItem, Ledger, item_of}
use lingxi_learn.WorkLedger.Leases.{heartbeat_row, recover_row, is_expired, keys}
use lingxi_learn.WorkLedger.Settle.{Report, finish_row, cancel_row, confirm_row}
use lingxi_learn.WorkLedger.Machine.{LedgerOp, heartbeat, recover, finish, cancel, confirm, run}

-- A call that has read and is still to commit, with the rows that it has read.
pub data Pending : Type 0 where
  heartbeat_read : String → ℕ → ℕ → Option WorkItem → Pending
  recover_read : ℕ → List (Option WorkItem) → Pending
  finish_read : String → WorkStatus → Option Report → String → Option WorkItem → Pending
  cancel_read : String → Option WorkItem → Pending
  confirm_read : String → Bool → ℕ → Option WorkItem → Pending

pub record Sessions : Type 0 where
  pub ledger : Ledger
  pub pending : List Pending

-- the rows of the query of recover_expired_work
unfoldable pub expired_rows : ℕ → ℕ → Ledger → List (Option WorkItem)
expired_rows limit moment db =
    map (λ k. item_of k db.items) (keys (take limit (filter (is_expired moment) db.items)))

unfoldable pub recover_each : ℕ → List (Option WorkItem) → Ledger → Ledger
recover_each moment [] db = db
recover_each moment (o ∷ os) db = recover_each moment os (recover_row moment o db)

-- The tests on what was read, and the update of the rows as they are now.
unfoldable pub write : Pending → Ledger → Ledger
write (heartbeat_read owner seconds moment o) db = (heartbeat_row owner seconds moment o db).0
write (recover_read moment os) db = recover_each moment os db
write (finish_read owner status result result_id o) db =
    (finish_row owner status result result_id o db).0
write (cancel_read task_id o) db = (cancel_row task_id o db).0
write (confirm_read digest approve moment o) db = (confirm_row digest approve moment o db).0

abbrev pub opened : Pending → Sessions → Sessions
opened p s = record s { pending = p ∷ s.pending }

-- A call: the read of one that does not lock, the whole of one that does.
unfoldable pub begin : LedgerOp → Sessions → Sessions
begin (heartbeat work_id owner seconds moment) s =
    opened (heartbeat_read owner seconds moment (item_of work_id s.ledger.items)) s
begin (recover limit moment) s = opened (recover_read moment (expired_rows limit moment s.ledger)) s
begin (finish work_id owner status result result_id) s =
    opened (finish_read owner status result result_id (item_of work_id s.ledger.items)) s
begin (cancel task_id work_id) s = opened (cancel_read task_id (item_of work_id s.ledger.items)) s
begin (confirm work_id digest approve moment) s =
    opened (confirm_read digest approve moment (item_of work_id s.ledger.items)) s
begin op s = record s { ledger = run op s.ledger }

unfoldable pub nth : ℕ → List Pending → Option Pending
nth n [] = none
nth zero (p ∷ ps) = some p
nth (suc n) (p ∷ ps) = nth n ps

unfoldable pub without : ℕ → List Pending → List Pending
without n [] = []
without zero (p ∷ ps) = ps
without (suc n) (p ∷ ps) = p ∷ without n ps

abbrev pub write_if : Option Pending → Ledger → Ledger
write_if none db = db
write_if (some p) db = write p db

-- a call, or the commit of the pending call at a position
pub data Step : Type 0 where
  call : LedgerOp → Step
  commit_at : ℕ → Step

unfoldable pub move : Step → Sessions → Sessions
move (call op) s = begin op s
move (commit_at n) s = record {
  ledger = write_if (nth n s.pending) s.ledger;
  pending = without n s.pending;
}

unfoldable pub move_all : List Step → Sessions → Sessions
move_all [] s = s
move_all (x ∷ xs) s = move_all xs (move x s)

abbrev pub is_row_of : String → Option WorkItem → Bool
is_row_of j none = false
is_row_of j (some r) = r.id == j

-- Whether a pending call has read the row with the primary key `j`.
abbrev pub has_read : String → Pending → Bool
has_read j (heartbeat_read owner seconds moment o) = is_row_of j o
has_read j (recover_read moment os) = any (is_row_of j) os
has_read j (finish_read owner status result result_id o) = is_row_of j o
has_read j (cancel_read task_id o) = is_row_of j o
has_read j (confirm_read digest approve moment o) = is_row_of j o
