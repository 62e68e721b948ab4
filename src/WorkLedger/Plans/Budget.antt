-- ===== src/WorkLedger/Plans/Budget.antt =====
-- The budget bound of `create_work_plan`: a plan that is accepted fits the task's limits.
use lingxi_learn.Prelude.{
  ℕ, ◌+◌, ◌≤◌, String, ◌≡◌, refl, ap, true, false, Option, none, some, List, arith, Option-cases,
  ==-self, inl, inr,
}
use lingxi_learn.Prelude.Int.{pos_part}
use lingxi_learn.Prelude.Tables.{
  find?, modify_first, sum_by, sum_by-modify_first, find?-test, find?-append_none,
}
use lingxi_learn.WorkLedger.{BudgetLedger, AgentTurn, Ledger, same_plan, WorkItem}
use lingxi_learn.WorkLedger.Settle.{empty_row}
use lingxi_learn.WorkLedger.Plans.{
  Plan, PlanResult, created, Limits, Reservation, create_work_plan, submit, commit_plan, reserve,
  with_row, set_reserved, tokens_of, heavy_of, wall_ms_of, exceeds_limits, is_positive,
  reservation_of, is_turn,
}

-- What the task holds and has used, over all its plans, is within the limits.
pub record IsWithin (task_id : String) (limits : Limits) (rows : List BudgetLedger) : Type 0 where
  pub tokens : sum_by (tokens_of task_id) rows ≤ pos_part limits.token_budget
  pub heavy : sum_by (heavy_of task_id) rows ≤ pos_part limits.max_heavy_artifacts
  pub wall_ms : sum_by (wall_ms_of task_id) rows ≤ pos_part limits.wall_ms_budget

module _ (id task_id turn_id : String) (revision : ℕ) where
  find?-with_row :
      (rows : List BudgetLedger)
      → (b : BudgetLedger) × (find?
            (same_plan task_id turn_id revision)
            (with_row id task_id turn_id revision rows)
          ≡ some b)
  unfolding with_row
  find?-with_row rows = elim (Option-cases (find? (same_plan task_id turn_id revision) rows)) [
    | inl e ↦ (
      empty_row id task_id turn_id revision,
      rw e (
          find?-append_none (same_plan task_id turn_id revision) rows
            (empty_row id task_id turn_id revision) e
            (ground (arith, ==-self task_id, ==-self turn_id))),
    )
    | inr (b, e) ↦ (b, rw e e)
  ]

  reserve-IsWithin :
      (limits : Limits) (v : Reservation) (rows after : List BudgetLedger)
      → is_positive v ≡ true
      → reserve id task_id turn_id revision (some limits) v rows ≡ some after
      → IsWithin task_id limits after
  unfolding reserve
  reserve-IsWithin limits v rows after positive e =
      let same = same_plan task_id turn_id revision in
      let all_rows = with_row id task_id turn_id revision rows in
      let (b, found) = find?-with_row rows in
      let mine = find?-test same all_rows b found in
      let fits : exceeds_limits task_id v limits all_rows ≡ false = ground arith in
      let shape : modify_first same (set_reserved v) all_rows ≡ after = ground arith in
      rw (← shape) (record {
        tokens =
            ground (
              arith,
              sum_by-modify_first (tokens_of task_id) same (set_reserved v) all_rows b found,
            );
        heavy =
            ground (
              arith,
              sum_by-modify_first (heavy_of task_id) same (set_reserved v) all_rows b found,
            );
        wall_ms = ground (
          arith,
          sum_by-modify_first (wall_ms_of task_id) same (set_reserved v) all_rows b found,
        );
      })

-- What a submission that creates a plan went through.
pub record IsCreated (fresh : ℕ → String) (p : Plan) (db after : Ledger) (r : ℕ)
    (made : List WorkItem) : Type 0 where
  pub turn : AgentTurn
  pub found : find? (is_turn p.task_id p.turn_id) db.turns ≡ some turn
  pub current : turn.revision ≡ p.expected_revision
  pub rows : List BudgetLedger
  pub reserved :
      reserve
        (fresh 0)
        p.task_id
        p.turn_id
        (p.expected_revision + 1)
        p.budget
        (reservation_of p.items)
        db.ledgers
      ≡ some rows
  pub committed : commit_plan fresh p (some rows) db ≡ (after, created r made)

pub create_work_plan-IsCreated :
    (fresh : ℕ → String) (p : Plan) (db after : Ledger) (r : ℕ) (made : List WorkItem)
    → create_work_plan fresh p db ≡ (after, created r made)
    → IsCreated fresh p db after r made
unfolding create_work_plan submit
create_work_plan-IsCreated fresh p db after r made e =
    go_turn (find? (is_turn p.task_id p.turn_id) db.turns) refl (ground arith)
  where
    go_rows :
        (turn : AgentTurn)
        → find? (is_turn p.task_id p.turn_id) db.turns ≡ some turn
        → turn.revision ≡ p.expected_revision
        → (o : Option (List BudgetLedger))
        → reserve
            (fresh 0)
            p.task_id
            p.turn_id
            (p.expected_revision + 1)
            p.budget
            (reservation_of p.items)
            db.ledgers
          ≡ o
        → commit_plan fresh p o db ≡ (after, created r made)
        → IsCreated fresh p db after r made
    go_rows turn f c none g h =
        absurd (unfold commit_plan in cc (ap (λ (x : Ledger × PlanResult). x.1) h))
    go_rows turn f c (some rows) g h = record {
      turn = turn;
      found = f;
      current = c;
      rows = rows;
      reserved = g;
      committed = h;
    }

    go_turn :
        (o : Option AgentTurn)
        → find? (is_turn p.task_id p.turn_id) db.turns ≡ o
        → submit fresh p o db ≡ (after, created r made)
        → IsCreated fresh p db after r made
    go_turn none f h = absurd (cc (ap (λ (x : Ledger × PlanResult). x.1) h))
    go_turn (some turn) f h = go_rows turn f (ground arith) _ refl (ground arith)

-- A plan that reserves anything under a budget is accepted only if afterwards the reservations and
-- the usage of the task, over all its plans, are within each of the three limits.
pub create_work_plan-IsWithin :
    (fresh : ℕ → String) (p : Plan) (limits : Limits) (db after : Ledger) (r : ℕ)
    (made : List WorkItem)
    → p.budget ≡ some limits
    → is_positive (reservation_of p.items) ≡ true
    → create_work_plan fresh p db ≡ (after, created r made)
    → IsWithin p.task_id limits after.ledgers
unfolding commit_plan
create_work_plan-IsWithin fresh p limits db after r made b positive e =
    let c = create_work_plan-IsCreated fresh p db after r made e in
    let written = ap (λ (x : Ledger × PlanResult). x.0.ledgers) c.committed in
    rw (← written) (
      reserve-IsWithin (fresh 0) p.task_id p.turn_id (p.expected_revision + 1) limits
        (reservation_of p.items) db.ledgers c.rows positive (rw b at c.reserved))
