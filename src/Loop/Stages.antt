-- ===== src/Loop/Stages.antt =====
-- The planning of a round: it stops the run, waits, or goes on to the execution; each round moves through the phases in order, and only a replan goes round again.
use mathlib.Core.Path.{subst}
use lingxi_learn.Prelude.{
  ℕ, ◌+◌, ◌-◌, ◌<◌, String, ◌≡◌, ◌⊎◌, refl, sym, ap, ◌∙◌, Bool, true, false, ◌&&◌, not, Option,
  none, some, List, [], ◌∷◌, ◌++◌, if◌then◌else◌, arith, Bool-cases, inl, inr,
}
use lingxi_learn.RunState.{
  RuntimeStatus, planning, executing, waiting_for_user, failed, is_terminal, step,
}
use lingxi_learn.Guardrails.{
  Budget, GuardrailFinding, GuardrailVerdict, spend_step, spend_replan, check_replan, is_empty,
}
use lingxi_learn.Loop.{TaskOutcome, LoopState, World, in_phase}
use lingxi_learn.Loop.Requests.{InteractionSpec, is_spec, request_interaction}
use lingxi_learn.Loop.Nodes.{
  LoopEnv, move_to, Produced, is_awaiting, planned_phase, ask_user, settle_plan, stop_round,
  screen_plan, plan_round, spend_or_stop, check_round, verdict_of, spend_outcomes,
}
use lingxi_learn.Loop.Phases.{
  status_of, IsSynced, Ensures, and_then-Ensures, move_to-Ensures, status_of-save_plan,
  status_of-save_board, status_of-save_budget,
}

-- the replans left
abbrev pub left : Budget → ℕ
left b = b.max_replans - b.replans_used

-- the rounds that may still follow this one
abbrev pub rank : LoopState → ℕ
rank s = left s.budget + (if s.replanning then 0 else 1)

-- Where a round stands: it has stopped the run, it waits, or it goes on in a phase.
pub data Stage (phase : RuntimeStatus) (bound : ℕ) (s : LoopState) : Type 0 where
  stopped : is_terminal s.runtime_status ≡ true → Stage phase bound s
  paused : s.runtime_status ≡ waiting_for_user → Stage phase bound s
  active : s.runtime_status ≡ phase → left s.budget < bound → Stage phase bound s

abbrev pub IsAt : RuntimeStatus → ℕ → LoopEnv → LoopState → World → Type 0
IsAt phase bound env s w = IsSynced env s w × Stage phase bound s

pub left-spend_outcomes : (os : List TaskOutcome) (b : Budget) → left (spend_outcomes os b) ≡ left b
unfolding spend_outcomes spend_step
left-spend_outcomes [] b = refl
left-spend_outcomes (o ∷ os) b =
    left-spend_outcomes os (spend_step o.heavy o.tokens_used o.duration_ms b)

ask_user-Ensures :
    (P : LoopState → World → Type 0) (awaiting : Bool) (id : String) (spec : Option InteractionSpec)
    (s : LoopState) (w : World)
    → ((pending : Option String) (v : World)
        → v.tables ≡ w.tables
        → P (record s { pending_interaction = pending }) v)
    → Ensures P (ask_user awaiting id spec s w)
unfolding request_interaction
ask_user-Ensures P awaiting id none s w h = h none w refl
ask_user-Ensures P false id (some spec) s w h = h none w refl
ask_user-Ensures P true id (some spec) s w h = elim (Bool-cases (is_spec spec)) [
  | inl fits ↦ rw fits (elim (Bool-cases spec.blocking) [
    | inl blocks ↦
        rw blocks (h (some id) (record w { interactions = w.interactions ++ id ∷ [] }) refl)
    | inr free ↦ rw free refl
  ])
  | inr broken ↦ rw broken refl
]

stop_round-IsAt :
    (env : LoopEnv) (n : ℕ) (message : String) (s : LoopState) (w : World) (bound : ℕ)
    → status_of env.task_id w.tables ≡ some planning
    → Ensures (IsAt executing bound env) (stop_round env n message s w)
unfolding step
stop_round-IsAt env n message s w bound h =
    move_to-Ensures (IsAt executing bound env) env _ s w planning failed h refl
      (λ v moved. (moved, stopped refl))

planned_phase-cases :
    (awaiting : Bool) (v : GuardrailVerdict)
    → (planned_phase awaiting v ≡ waiting_for_user) ⊎ (planned_phase awaiting v ≡ executing)
planned_phase-cases true v = inl refl
planned_phase-cases false v = elim (Bool-cases (is_empty v.allowed_tasks)) [
  | inl nothing ↦ inl (rw nothing refl)
  | inr something ↦ inr (rw something refl)
]

phase-IsAt :
    (env : LoopEnv) (phase : RuntimeStatus) (patch : LoopState → LoopState) (s : LoopState)
    (w : World) (bound : ℕ)
    → ((x : LoopState) → (patch x).runtime_status ≡ x.runtime_status)
    → ((x : LoopState) → (patch x).budget ≡ x.budget)
    → status_of env.task_id w.tables ≡ some planning
    → left s.budget < bound
    → (phase ≡ waiting_for_user) ⊎ (phase ≡ executing)
    → Ensures (IsAt executing bound env) (move_to env phase patch s w)
unfolding step
phase-IsAt env phase patch s w bound keeps same h below (inl e) = rw e (
    move_to-Ensures (IsAt executing bound env) env patch s w planning waiting_for_user h refl
      (λ v moved. (moved ∙ ap some (sym (keeps (in_phase waiting_for_user s))), paused (keeps _))))
phase-IsAt env phase patch s w bound keeps same h below (inr e) = rw e (
    move_to-Ensures (IsAt executing bound env) env patch s w planning executing h refl (λ v moved. (
      moved ∙ ap some (sym (keeps (in_phase executing s))),
      active (keeps _) (subst (λ b. left b < bound) (sym (same (in_phase executing s))) below),
    )))

settle_plan-IsAt :
    (env : LoopEnv) (n : ℕ) (p : Produced) (v : GuardrailVerdict) (s : LoopState) (w : World)
    (bound : ℕ)
    → status_of env.task_id w.tables ≡ some planning
    → left s.budget < bound
    → Ensures (IsAt executing bound env) (settle_plan env n p v s w)
settle_plan-IsAt env n p v s w bound h below =
    let Asked : LoopState → World → Type 0 =
      λ t u. (t.budget ≡ s.budget) × (status_of env.task_id u.tables ≡ some planning) in
    and_then-Ensures Asked (IsAt executing bound env)
      (ask_user (is_awaiting p v) p.interaction_id p.interaction s w) _
      (ask_user-Ensures Asked (is_awaiting p v) p.interaction_id p.interaction s w
        (λ pending u same. (refl, ap (status_of env.task_id) same ∙ h)))
      (λ t u asked.
        phase-IsAt env (planned_phase (is_awaiting p v) v) _ t _ bound (λ x. refl) (λ x. refl)
          (status_of-save_plan env.task_id p.text u.tables (some s.budget) ∙ asked.1)
          (subst (λ b. left b < bound) (sym asked.0) below)
          (planned_phase-cases (is_awaiting p v) v))

screen_plan-IsAt :
    (env : LoopEnv) (n : ℕ) (p : Produced) (v : GuardrailVerdict) (s : LoopState) (w : World)
    (bound : ℕ)
    → status_of env.task_id w.tables ≡ some planning
    → left s.budget < bound
    → Ensures (IsAt executing bound env) (screen_plan env n p v s w)
screen_plan-IsAt env n p v s w bound h below =
    elim (Bool-cases (not (is_empty p.plan.tasks) && p.budget_exceeded)) [
      | inl exceeded ↦ rw exceeded (stop_round-IsAt env n _ s w bound h)
      | inr within ↦ rw within (elim (Bool-cases v.fatal) [
        | inl fatal ↦ rw fatal (
            stop_round-IsAt env n _ s _ bound
              (status_of-save_plan env.task_id p.text w.tables (some s.budget) ∙ h))
        | inr fine ↦ rw fine (settle_plan-IsAt env n p v s w bound h below)
      ])
    ]

plan_round-IsAt :
    (env : LoopEnv) (n : ℕ) (p : Option Produced) (s : LoopState) (w : World) (bound : ℕ)
    → status_of env.task_id w.tables ≡ some planning
    → left s.budget < bound
    → Ensures (IsAt executing bound env) (plan_round env n p s w)
plan_round-IsAt env n none s w bound h below = refl
plan_round-IsAt env n (some p) s w bound h below =
    screen_plan-IsAt env n p (verdict_of p s) s _ bound
      (status_of-save_board env.task_id p.board w.tables ∙ h) below

check_replan_some : (b : Budget) → check_replan b ≡ none → b.replans_used < b.max_replans
unfolding check_replan
check_replan_some b h = ground arith

spend_or_stop-IsAt :
    (env : LoopEnv) (n : ℕ) (p : Option Produced) (found : Option GuardrailFinding) (s : LoopState)
    (w : World)
    → check_replan s.budget ≡ found
    → status_of env.task_id w.tables ≡ some planning
    → Ensures (IsAt executing (left s.budget) env) (spend_or_stop env n p found s w)
unfolding step spend_replan
spend_or_stop-IsAt env n p (some f) s w blocked h =
    move_to-Ensures (IsAt executing (left s.budget) env) env _ s _ planning failed
      (status_of-save_budget env.task_id w.tables s.budget ∙ h) refl
      (λ v moved. (moved, stopped refl))
spend_or_stop-IsAt env n p none s w free h =
    let more = check_replan_some s.budget free in
    plan_round-IsAt env n p (record s { budget = spend_replan s.budget }) w (left s.budget) h
      (omega arith)

check_as :
    (env : LoopEnv) (n : ℕ) (p : Option Produced) (s : LoopState) (w : World) (again : Bool)
    → status_of env.task_id w.tables ≡ some planning
    → Ensures (IsAt executing (left s.budget + (if again then 0 else 1)) env) (
        if again then spend_or_stop env n p (check_replan s.budget) s w else plan_round env n p s w)
check_as env n p s w true h =
    let same : left s.budget ≡ left s.budget + 0 = omega arith in
    subst
      (λ bound.
        Ensures (IsAt executing bound env) (spend_or_stop env n p (check_replan s.budget) s w))
      same (spend_or_stop-IsAt env n p (check_replan s.budget) s w refl h)
check_as env n p s w false h = plan_round-IsAt env n p s w _ h (omega arith)

pub check_round-IsAt :
    (env : LoopEnv) (n : ℕ) (p : Option Produced) (s : LoopState) (w : World)
    → status_of env.task_id w.tables ≡ some planning
    → Ensures (IsAt executing (rank s) env) (check_round env n p s w)
check_round-IsAt env n p s w h = check_as env n p s w s.replanning h
