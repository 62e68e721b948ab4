-- ===== src/WorkLedger/Machine/Kept.antt =====
-- What no calls can undo, however they overlap: a final status, and a lease that still runs.
use lingxi_learn.Prelude.{
  ℕ, ◌≤◌, String, ◌⊎◌, false, ◌≡◌, ◌≢◌, refl, true, some, List, [], ◌∷◌, arith, eq_iff,
}
use lingxi_learn.Prelude.Tables.{any, all}
use lingxi_learn.WorkLedger.{leased, WorkItem, item_of, is_final}
use lingxi_learn.WorkLedger.Machine.{claim_item, claim_any, heartbeat, recover, finish, cancel}
use lingxi_learn.WorkLedger.Machine.Sessions.{Sessions, Step, call, commit_at, move_all, has_read}
use lingxi_learn.WorkLedger.Machine.Overlaps.{spares, step_spares, move_all-Holds}

final-spares :
    (j : String) (row : WorkItem) (x : Step)
    → is_final row.status ≡ true
    → step_spares j row x ≡ true
unfolding spares
final-spares j row (commit_at n) f = refl
final-spares j row (call (claim_item k owner seconds moment)) f = ground arith
final-spares j row (call _) f = ground arith

all-final-spares :
    (j : String) (row : WorkItem) (xs : List Step)
    → is_final row.status ≡ true
    → all (step_spares j row) xs ≡ true
unfolding all
all-final-spares j row [] f = refl
all-final-spares j row (x ∷ xs) f =
    ground (arith, final-spares j row x f, all-final-spares j row xs f)

-- A work item that succeeded, failed or was cancelled keeps its whole row through all further claims,
-- heartbeats, recoveries, ends, cancellations, confirmations, plans and budget changes, however their reads
-- and commits overlap, if no call that read the row before that is still to commit.
pub move_all-final :
    (j : String) (row : WorkItem) (xs : List Step) (s : Sessions)
    → is_final row.status ≡ true
    → any (has_read j) s.pending ≡ false
    → item_of j s.ledger.items ≡ some row
    → item_of j (move_all xs s).ledger.items ≡ some row
move_all-final j row xs s f unread h =
    move_all-Holds j row xs s (all-final-spares j row xs f) unread h

-- A call made before `until` has passed, that neither cancels the item `j` nor extends or ends it under the
-- name `owner`; a commit is not restricted.
abbrev pub IsForeign : String → String → ℕ → Step → Type 0
IsForeign j owner until (call (claim_item work_id o seconds moment)) = moment ≤ until
IsForeign j owner until (call (claim_any o seconds moment)) = moment ≤ until
IsForeign j owner until (call (heartbeat work_id o seconds moment)) = (o ≢ owner) ⊎ (work_id ≢ j)
IsForeign j owner until (call (recover limit moment)) = moment ≤ until
IsForeign j owner until (call (finish work_id o status result result_id)) =
    (o ≢ owner) ⊎ (work_id ≢ j)
IsForeign j owner until (call (cancel task_id work_id)) = work_id ≢ j
IsForeign j owner until _ = Unit

abbrev pub AllForeign : String → String → ℕ → List Step → Type 0
AllForeign j owner until [] = Unit
AllForeign j owner until (x ∷ xs) = IsForeign j owner until x × AllForeign j owner until xs

module _ (j owner : String) (until : ℕ) (row : WorkItem) (held : row.status ≡ leased)
    (mine : row.lease_owner ≡ some owner) (runs : row.lease_until ≡ some until) where
  foreign-spares : (x : Step) → IsForeign j owner until x → step_spares j row x ≡ true
  unfolding spares
  foreign-spares (commit_at n) f = refl
  foreign-spares (call (claim_item k o seconds moment)) f = ground arith
  foreign-spares (call (heartbeat k o seconds moment)) f =
      ground (arith, eq_iff owner o, eq_iff k j)
  foreign-spares (call (finish k o status result result_id)) f =
      ground (arith, eq_iff owner o, eq_iff k j)
  foreign-spares (call (cancel task_id k)) f = ground (arith, eq_iff k j)
  foreign-spares (call _) f = ground arith

  all-foreign-spares :
      (xs : List Step) → AllForeign j owner until xs → all (step_spares j row) xs ≡ true
  unfolding all
  all-foreign-spares [] f = refl
  all-foreign-spares (x ∷ xs) f = ground (arith, foreign-spares x f.0, all-foreign-spares xs f.1)

-- While a lease runs, the leased row stays as it is through all calls by others, however their reads and
-- commits overlap, if no call that read the row before is still to commit: calls of this owner on other
-- items may be among them, a cancellation of the item may not. So nobody else claims, extends, recovers or
-- finishes it.
pub move_all-leased :
    (j owner : String) (until : ℕ) (row : WorkItem) (xs : List Step) (s : Sessions)
    → row.status ≡ leased
    → row.lease_owner ≡ some owner
    → row.lease_until ≡ some until
    → AllForeign j owner until xs
    → any (has_read j) s.pending ≡ false
    → item_of j s.ledger.items ≡ some row
    → item_of j (move_all xs s).ledger.items ≡ some row
move_all-leased j owner until row xs s held mine runs f unread h =
    move_all-Holds j row xs s (all-foreign-spares j owner until row held mine runs xs f) unread h
