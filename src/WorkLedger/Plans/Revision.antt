-- ===== src/WorkLedger/Plans/Revision.antt =====
-- The compare-and-set of `create_work_plan`: one plan for each revision of a turn.
use lingxi_learn.Prelude.{
  ℕ, ◌+◌, String, ◌≡◌, ◌≢◌, ap, false, some, List, [], ◌∷◌, ◌==◌, nat_beq, arith, Bool-cases, inl,
  inr,
}
use lingxi_learn.Prelude.Tables.{find?, modify_first, any}
use lingxi_learn.WorkLedger.{AgentTurn, Ledger, WorkItem}
use lingxi_learn.WorkLedger.Plans.{
  Plan, PlanResult, created, refused, create_work_plan, submit, commit_plan, is_turn,
}
use lingxi_learn.WorkLedger.Plans.Budget.{IsCreated, create_work_plan-IsCreated}

stale_test : (a b : ℕ) → a ≢ b → nat_beq a b ≡ false
stale_test a b h = ground arith

find?-set_revision :
    (task_id turn_id : String) (n : ℕ) (turns : List AgentTurn) (t : AgentTurn)
    → find? (is_turn task_id turn_id) turns ≡ some t
    → find?
        (is_turn task_id turn_id)
        (modify_first (is_turn task_id turn_id) (λ x. record x { revision = n }) turns)
      ≡ some (record t { revision = n })
unfolding find? modify_first
find?-set_revision task_id turn_id n [] t h = ground arith
find?-set_revision task_id turn_id n (x ∷ turns) t h =
    ground (arith, find?-set_revision task_id turn_id n turns t)

turn_after :
    (fresh : ℕ → String) (p : Plan) (db after : Ledger) (r : ℕ) (made : List WorkItem)
    → (c : IsCreated fresh p db after r made)
    → (r ≡ p.expected_revision + 1)
      × (find? (is_turn p.task_id p.turn_id) after.turns
          ≡ some (record c.turn { revision = p.expected_revision + 1 }))
unfolding commit_plan
turn_after fresh p db after r made c = (
  cc (ap (λ (x : Ledger × PlanResult). x.1) c.committed),
  rw (← ap (λ (x : Ledger × PlanResult). x.0.turns) c.committed)
      (find?-set_revision p.task_id p.turn_id (p.expected_revision + 1) db.turns c.turn c.found),
)

-- A submission that expects another revision than the turn's is refused.
stale_refused :
    (fresh : ℕ → String) (p : Plan) (db : Ledger) (turn : AgentTurn)
    → find? (is_turn p.task_id p.turn_id) db.turns ≡ some turn
    → turn.revision ≢ p.expected_revision
    → create_work_plan fresh p db ≡ (db, refused)
unfolding create_work_plan submit
stale_refused fresh p db turn found stale =
    elim (Bool-cases (any (λ t. t == p.task_id) db.task_ids)) [
      | inl known ↦
          rw known (rw (found, submit) (rw (stale_test turn.revision p.expected_revision stale)))
      | inr unknown ↦ rw unknown
    ]

-- After a plan was created for a revision, the turn has the next revision, and every other submission
-- that expects the old revision is refused and changes nothing.
pub create_work_plan-once :
    (fresh fresh' : ℕ → String) (p q : Plan) (db after : Ledger) (r : ℕ) (made : List WorkItem)
    → create_work_plan fresh p db ≡ (after, created r made)
    → q.task_id ≡ p.task_id
    → q.turn_id ≡ p.turn_id
    → q.expected_revision ≡ p.expected_revision
    → (r ≡ p.expected_revision + 1) × (create_work_plan fresh' q after ≡ (after, refused))
create_work_plan-once fresh fresh' p q db after r made e task turn old =
    let c = create_work_plan-IsCreated fresh p db after r made e in
    let (next, found) = turn_after fresh p db after r made c in
    (
      next,
      stale_refused fresh' q after (record c.turn { revision = p.expected_revision + 1 })
          (rw (task, turn) found) (omega (arith, old)),
    )
