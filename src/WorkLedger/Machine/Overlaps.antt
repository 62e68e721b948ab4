-- ===== src/WorkLedger/Machine/Overlaps.antt =====
-- A row that the guards of all calls keep them from, whatever comes between their reads and commits.
use lingxi_learn.Prelude.{
  ℕ, zero, suc, String, Bool, Option, none, false, map, ◌≡◌, refl, true, ◌||◌, not, some, List, [],
  ◌∷◌, ◌==◌, arith,
}
use lingxi_learn.Prelude.Tables.{any, all}
use lingxi_learn.WorkLedger.{WorkItem, Ledger, item_of}
use lingxi_learn.WorkLedger.Leases.{claim_work_item, claim_work, is_expired, keys}
use lingxi_learn.WorkLedger.Settle.{reserve_budget, settle_budget}
use lingxi_learn.WorkLedger.Plans.{create_work_plan}
use lingxi_learn.WorkLedger.Machine.{
  LedgerOp, run, is_stable, claim_item, claim_any, heartbeat, recover, finish, cancel, confirm,
  plan, hold, settle_plan,
}
use lingxi_learn.WorkLedger.Machine.Rows.{Holds-if, claim_row-Holds, claim_first-Holds}
use lingxi_learn.WorkLedger.Machine.Ends.{
  heartbeat_row-Holds, finish_row-Holds, cancel_row-Holds, confirm_row-Holds, submit-Holds,
  reserve_row-Holds,
}
use lingxi_learn.WorkLedger.Machine.Rows.{Holds, IsAway, spared-IsAway, recover_row-Holds}
use lingxi_learn.WorkLedger.Machine.Ends.{is_own, is_unfinished, awaits_answer}
use lingxi_learn.Prelude.Tables.{filter, take}
use lingxi_learn.WorkLedger.Machine.Sessions.{
  Pending, heartbeat_read, recover_read, finish_read, cancel_read, confirm_read, Sessions,
  expired_rows, recover_each, write, begin, nth, without, write_if, Step, call, commit_at, move,
  move_all, is_row_of, has_read,
}

-- Whether an operation's guards keep it from the item `j` with the given row.
unfoldable pub spares : String → WorkItem → LedgerOp → Bool
spares j row (claim_item work_id owner seconds moment) = is_stable moment row
spares j row (claim_any owner seconds moment) = is_stable moment row
spares j row (heartbeat work_id owner seconds moment) = not (is_own owner row) || not (work_id == j)
spares j row (recover limit moment) = is_stable moment row
spares j row (finish work_id owner status result result_id) =
    not (is_own owner row) || not (work_id == j)
spares j row (cancel task_id work_id) = not (is_unfinished row) || not (work_id == j)
spares j row (confirm work_id digest approve moment) = not (awaits_answer row) || not (work_id == j)
spares j row _ = true

module _ (j : String) (row : WorkItem) where
  -- A pending call whose commit leaves the row, whatever the ledger is by then.
  abbrev IsHarmless : Pending → Type 0
  IsHarmless p = (db : Ledger) → Holds j row db → Holds j row (write p db)

  abbrev AllHarmless : List Pending → Type 0
  AllHarmless [] = Unit
  AllHarmless (p ∷ ps) = IsHarmless p × AllHarmless ps

  abbrev IsKept : Sessions → Type 0
  IsKept s = Holds j row s.ledger × AllHarmless s.pending

  recover_each-Holds :
      (moment : ℕ) (ks : List String) (read db : Ledger)
      → is_expired moment row ≡ false
      → Holds j row read
      → Holds j row db
      → Holds j row (recover_each moment (map (λ k. item_of k read.items) ks) db)
  unfolding recover_each
  recover_each-Holds moment [] read db no_row h k = k
  recover_each-Holds moment (x ∷ xs) read db no_row h k =
      recover_each-Holds moment xs read _ no_row h (
        recover_row-Holds j row moment (item_of x read.items) db
          (spared-IsAway j row (is_expired moment) x (item_of x read.items) read
            (ground (arith, no_row)) h refl)
          k)

  begin-IsKept :
      (op : LedgerOp) (s : Sessions) → spares j row op ≡ true → IsKept s → IsKept (begin op s)
  unfolding begin spares run write expired_rows claim_work_item claim_work create_work_plan
      reserve_budget settle_budget
  begin-IsKept (claim_item k owner seconds moment) s safe (h, hs) = (
    claim_row-Holds j row moment safe owner k seconds (item_of k s.ledger.items) s.ledger refl h,
    hs,
  )
  begin-IsKept (claim_any owner seconds moment) s safe (h, hs) =
      (claim_first-Holds j row moment safe owner seconds _ s.ledger h, hs)
  begin-IsKept (heartbeat k owner seconds moment) s safe (h, hs) = (
    h,
    (
      (λ db g.
          heartbeat_row-Holds j row owner seconds moment (item_of k s.ledger.items) db
            (spared-IsAway j row (is_own owner) k _ s.ledger safe h refl) g),
      hs,
    ),
  )
  begin-IsKept (recover limit moment) s safe (h, hs) = (
    h,
    (
      (λ db g.
          recover_each-Holds moment (keys (take limit (filter (is_expired moment) s.ledger.items)))
            s.ledger db (ground (arith, safe)) h g),
      hs,
    ),
  )
  begin-IsKept (finish k owner status result result_id) s safe (h, hs) = (
    h,
    (
      (λ db g.
          finish_row-Holds j row owner status result result_id (item_of k s.ledger.items) db
            (spared-IsAway j row (is_own owner) k _ s.ledger safe h refl) g),
      hs,
    ),
  )
  begin-IsKept (cancel task_id k) s safe (h, hs) = (
    h,
    (
      (λ db g.
          cancel_row-Holds j row task_id (item_of k s.ledger.items) db
            (spared-IsAway j row is_unfinished k _ s.ledger safe h refl) g),
      hs,
    ),
  )
  begin-IsKept (confirm k digest approve moment) s safe (h, hs) = (
    h,
    (
      (λ db g.
          confirm_row-Holds j row digest approve moment (item_of k s.ledger.items) db
            (spared-IsAway j row awaits_answer k _ s.ledger safe h refl) g),
      hs,
    ),
  )
  begin-IsKept (plan fresh p) s safe (h, hs) = (
    Holds-if j row (any (λ t. t == p.task_id) s.ledger.task_ids) _ _
        (λ _. submit-Holds j row fresh p _ s.ledger h) (λ _. h),
    hs,
  )
  begin-IsKept (hold id task_id turn_id revision a limits) s safe (h, hs) =
      (reserve_row-Holds j row id task_id turn_id revision a limits _ s.ledger h, hs)
  begin-IsKept (settle_plan task_id turn_id revision reserved used) s safe (h, hs) =
      (Holds-if j row _ _ _ (λ _. h) (λ _. h), hs)

  write_if-Holds :
      (n : ℕ) (ps : List Pending) (db : Ledger)
      → AllHarmless ps
      → Holds j row db
      → Holds j row (write_if (nth n ps) db)
  unfolding nth
  write_if-Holds n [] db hs h = h
  write_if-Holds zero (p ∷ ps) db hs h = hs.0 db h
  write_if-Holds (suc n) (p ∷ ps) db hs h = write_if-Holds n ps db hs.1 h

  without-AllHarmless : (n : ℕ) (ps : List Pending) → AllHarmless ps → AllHarmless (without n ps)
  unfolding without
  without-AllHarmless n [] hs = hs
  without-AllHarmless zero (p ∷ ps) hs = hs.1
  without-AllHarmless (suc n) (p ∷ ps) hs = (hs.0, without-AllHarmless n ps hs.1)

  abbrev pub step_spares : Step → Bool
  step_spares (call op) = spares j row op
  step_spares (commit_at n) = true

  move-IsKept : (x : Step) (s : Sessions) → step_spares x ≡ true → IsKept s → IsKept (move x s)
  unfolding move
  move-IsKept (call op) s safe h = begin-IsKept op s safe h
  move-IsKept (commit_at n) s safe (h, hs) =
      (write_if-Holds n s.pending s.ledger hs h, without-AllHarmless n s.pending hs)

  move_all-IsKept :
      (xs : List Step) (s : Sessions)
      → all step_spares xs ≡ true
      → IsKept s
      → IsKept (move_all xs s)
  unfolding move_all all
  move_all-IsKept [] s safe h = h
  move_all-IsKept (x ∷ xs) s safe h =
      move_all-IsKept xs (move x s) (ground arith) (move-IsKept x s (ground arith) h)

  other-IsAway :
      (test : WorkItem → Bool) (o : Option WorkItem) → is_row_of j o ≡ false → IsAway j row test o
  other-IsAway test none other = tt
  other-IsAway test (some r) other = λ yes_r. other

  unread-recover :
      (moment : ℕ) (os : List (Option WorkItem)) (db : Ledger)
      → any (is_row_of j) os ≡ false
      → Holds j row db
      → Holds j row (recover_each moment os db)
  unfolding recover_each any
  unread-recover moment [] db other h = h
  unread-recover moment (o ∷ os) db other h =
      unread-recover moment os _ (ground arith)
        (recover_row-Holds j row moment o db (other-IsAway (is_expired moment) o (ground arith)) h)

  unread-IsHarmless : (p : Pending) → has_read j p ≡ false → IsHarmless p
  unfolding write
  unread-IsHarmless (heartbeat_read owner seconds moment o) other =
      λ db h. heartbeat_row-Holds j row owner seconds moment o db (other-IsAway _ o other) h
  unread-IsHarmless (recover_read moment os) other = λ db h. unread-recover moment os db other h
  unread-IsHarmless (finish_read owner status result result_id o) other =
      λ db h. finish_row-Holds j row owner status result result_id o db (other-IsAway _ o other) h
  unread-IsHarmless (cancel_read task_id o) other =
      λ db h. cancel_row-Holds j row task_id o db (other-IsAway _ o other) h
  unread-IsHarmless (confirm_read digest approve moment o) other =
      λ db h. confirm_row-Holds j row digest approve moment o db (other-IsAway _ o other) h

  unread-AllHarmless : (ps : List Pending) → any (has_read j) ps ≡ false → AllHarmless ps
  unfolding any
  unread-AllHarmless [] other = tt
  unread-AllHarmless (p ∷ ps) other =
      (unread-IsHarmless p (ground arith), unread-AllHarmless ps (ground arith))

  pub move_all-Holds :
      (xs : List Step) (s : Sessions)
      → all step_spares xs ≡ true
      → any (has_read j) s.pending ≡ false
      → Holds j row s.ledger
      → Holds j row (move_all xs s).ledger
  move_all-Holds xs s safe unread h =
      (move_all-IsKept xs s safe (h, unread-AllHarmless s.pending unread)).0
