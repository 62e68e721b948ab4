-- ===== src/Guardrails/Budgets.antt =====
-- An exhausted budget stays exhausted, whatever is spent.
use lingxi_learn.Prelude.{
  ◌≡◌, ◌≢◌, refl, Bool, true, Option, none, some, List, [], ◌∷◌, is_some, arith,
}
use lingxi_learn.Prelude.Int.{ℤ}
use lingxi_learn.Guardrails.{
  Budget, exhausted, spend_step, Violation, OrchestrationPlan, Screening, check_plan,
}

-- The flag, the tokens and the milliseconds of the steps that are recorded, the last one first.
pub spend_steps : List (Bool × ℤ × ℤ) → Budget → Budget
spend_steps [] b = b
spend_steps ((heavy, tokens, wall_ms) ∷ steps) b =
    spend_step heavy tokens wall_ms (spend_steps steps b)

exhausted-spend_step :
    (heavy : Bool) (tokens wall_ms : ℤ) (b : Budget)
    → is_some (exhausted b) ≡ true
    → is_some (exhausted (spend_step heavy tokens wall_ms b)) ≡ true
unfolding exhausted spend_step
exhausted-spend_step heavy tokens wall_ms b h = ground arith

exhausted-spend_steps :
    (steps : List (Bool × ℤ × ℤ)) (b : Budget)
    → is_some (exhausted b) ≡ true
    → is_some (exhausted (spend_steps steps b)) ≡ true
unfolding spend_steps
exhausted-spend_steps [] b h = h
exhausted-spend_steps ((heavy, tokens, wall_ms) ∷ steps) b h =
    exhausted-spend_step heavy tokens wall_ms (spend_steps steps b)
      (exhausted-spend_steps steps b h)

-- Once a budget is exhausted, no plan runs any more, whatever steps are recorded after that: each
-- plan is fatally rejected, without an allowed task and with a finding.
pub check_plan-stops :
    (steps : List (Bool × ℤ × ℤ)) (b : Budget) (plan : OrchestrationPlan) (s : Screening)
    → is_some (exhausted b) ≡ true
    → s.budget ≡ spend_steps steps b
    → ((check_plan plan s).fatal ≡ true)
      × ((check_plan plan s).allowed_tasks ≡ [])
      × ((check_plan plan s).findings ≢ [])
unfolding check_plan
check_plan-stops steps b plan s h e = go (exhausted s.budget) refl
  where
    over : is_some (exhausted s.budget) ≡ true
    over = rw e (exhausted-spend_steps steps b h)

    go :
        (o : Option Violation)
        → exhausted s.budget ≡ o
        → ((check_plan plan s).fatal ≡ true)
          × ((check_plan plan s).allowed_tasks ≡ [])
          × ((check_plan plan s).findings ≢ [])
    go none f = absurd (ground (arith, over))
    go (some v) f = ground (arith, f)
