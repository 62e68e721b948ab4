-- ===== src/Loop/Runs.antt =====
-- The runs of the loop: the rounds, a message and an answer.
use mathlib.Core.Path.{subst}
use lingxi_learn.Prelude.{
  ℕ, zero, suc, ◌+◌, ◌<◌, String, ◌≡◌, refl, sym, ap, ◌∙◌, true, false, Option, none, some, List,
  ◌==◌, if◌then◌else◌, arith, Bool-cases, inl, inr,
}
use lingxi_learn.Capabilities.{strip}
use lingxi_learn.RunState.{
  RuntimeStatus, planning, executing, waiting_for_user, observing, updating, replanning, completed,
  failed, is_terminal, ok, step,
}
use lingxi_learn.GoalStack.{current, Goal}
use lingxi_learn.Loop.{LoopState, World, Result, done, raised, route}
use lingxi_learn.Loop.Requests.{
  Resume, interaction_answer, other_resume, await_user, resume_pending,
}
use lingxi_learn.Loop.Nodes.{
  Interpretation, unavailable, understood, interpret_goal, interpret_with, continue_goal,
  adopt_goal, LoopEnv,
}
use lingxi_learn.Loop.Rounds.{
  start, run_turn, resume_turn, RoundInput, run_round, Stop, ended, waits, failed_with, out_of_fuel,
  after_round, go_on, run_rounds,
}
use lingxi_learn.Loop.Stages.{left, rank}
use lingxi_learn.Loop.Ends.{Fate, over, held, again, IsRound, run_round-IsRound}
use lingxi_learn.Loop.Passes.{is_terminal-cases}
use lingxi_learn.Loop.Phases.{
  is_illegal, status_of, IsSynced, Ensures, move_to-Ensures, status_of-apply_stack_operation,
}

-- A run that has come to a stop: it ended in a final phase, it waits for the user, or a node raised an
-- error that is no IllegalTransition; the state of the task has the phase of the checkpoint.
abbrev pub IsSettled : LoopEnv → Stop → Type 0
IsSettled env (ended s w) = (is_terminal s.runtime_status ≡ true) × IsSynced env s w
IsSettled env (waits s w) = (s.runtime_status ≡ waiting_for_user) × IsSynced env s w
IsSettled env (failed_with e w) = is_illegal e ≡ false
IsSettled env out_of_fuel = false ≡ true

stop-IsSettled :
    (env : LoopEnv) (bound : ℕ) (s : LoopState) (w : World) (rest : Stop)
    → IsSynced env s w
    → Fate bound s
    → (s.runtime_status ≡ replanning
        → s.replanning ≡ true
        → left s.budget < bound
        → IsSettled env rest)
    → IsSettled env (go_on (route s.runtime_status) s w rest)
unfolding route
stop-IsSettled env bound s w rest sync (over h) k = elim (is_terminal-cases s.runtime_status h) [
  | inl e ↦ subst (λ p. IsSettled env (go_on (route p) s w rest)) (sym e) (h, sync)
  | inr e ↦ subst (λ p. IsSettled env (go_on (route p) s w rest)) (sym e) (h, sync)
]
stop-IsSettled env bound s w rest sync (held e) k =
    subst (λ p. IsSettled env (go_on (route p) s w rest)) (sym e) (e, sync)
stop-IsSettled env bound s w rest sync (again e f below) k =
    subst (λ p. IsSettled env (go_on (route p) s w rest)) (sym e) (k e f below)

after_round-IsSettled :
    (env : LoopEnv) (bound : ℕ) (r : Result) (rest : LoopState → World → Stop)
    → Ensures (IsRound bound env) r
    → ((t : LoopState) (v : World)
        → IsSynced env t v
        → t.runtime_status ≡ replanning
        → t.replanning ≡ true
        → left t.budget < bound
        → IsSettled env (rest t v))
    → IsSettled env (after_round r rest)
after_round-IsSettled env bound (raised e w) rest h k = h
after_round-IsSettled env bound (done t v) rest h k =
    stop-IsSettled env bound t v (rest t v) h.0 h.1 (k t v h.0)

rank_again : (t : LoopState) → t.replanning ≡ true → rank t ≡ left t.budget
rank_again t h =
    let counted : rank t ≡ left t.budget + 0 = ap (λ b. left t.budget + (if b then 0 else 1)) h in
    let same : left t.budget + 0 ≡ left t.budget = omega arith in counted ∙ same

-- Rounds from a state whose phase is the stored one, and is final or may go to planning, settle when the
-- fuel is above the number of replans left, plus one unless the round is a replan: they end in a final
-- phase or wait for the user, with the stored phase that of the checkpoint, or a node raises an error that
-- is no IllegalTransition. The fuel does not run out.
pub run_rounds-IsSettled :
    (env : LoopEnv) (inputs : ℕ → RoundInput) (fuel n : ℕ) (s : LoopState) (w : World)
    → IsSynced env s w
    → (is_terminal s.runtime_status ≡ false → step s.runtime_status planning ≡ ok planning)
    → rank s < fuel
    → IsSettled env (run_rounds env inputs fuel n s w)
unfolding run_rounds step
run_rounds-IsSettled env inputs zero n s w sync ready below = ground arith
run_rounds-IsSettled env inputs (suc fuel) n s w sync ready below =
    after_round-IsSettled env (rank s) (run_round env (inputs n) s w) _
      (run_round-IsRound env (inputs n) s w ready sync)
      (λ t v agrees e f less.
        let counted = rank_again t f in
        run_rounds-IsSettled env inputs fuel (n + 1) t v agrees
          (λ open_. subst (λ p. step p planning ≡ ok planning) (sym e) refl) (omega arith))

-- what a start leaves: the first round may begin, and the replans are those of before
abbrev IsStarted : LoopEnv → LoopState → LoopState → World → Type 0
IsStarted env s t v =
    (rank t ≡ rank s)
    × IsSynced env t v
    × (is_terminal t.runtime_status ≡ false → step t.runtime_status planning ≡ ok planning)

start-IsSettled :
    (env : LoopEnv) (inputs : ℕ → RoundInput) (fuel : ℕ) (s : LoopState) (r : Result)
    → Ensures (IsStarted env s) r
    → rank s < fuel
    → IsSettled env (start r (run_rounds env inputs fuel 0))
start-IsSettled env inputs fuel s (raised e w) h below = h
start-IsSettled env inputs fuel s (done t v) (same, sync, ready) below =
    run_rounds-IsSettled env inputs fuel 0 t v sync ready (subst (λ k. k < fuel) (sym same) below)

begin-steps :
    (p : RuntimeStatus)
    → step p planning ≡ ok planning
    → (step p completed ≡ ok completed) × (step p failed ≡ ok failed)
unfolding step
begin-steps planning h = (refl, refl)
begin-steps replanning h = (refl, refl)
begin-steps waiting_for_user h = (refl, refl)
begin-steps executing h = ground arith
begin-steps observing h = ground arith
begin-steps updating h = ground arith
begin-steps completed h = ground arith
begin-steps failed h = ground arith

adopt_goal-IsStarted :
    (env : LoopEnv) (meaning : Interpretation) (goals : List Goal) (s : LoopState) (w : World)
    (source : RuntimeStatus)
    → status_of env.task_id w.tables ≡ some source
    → step source planning ≡ ok planning
    → Ensures (IsStarted env s) (adopt_goal env meaning goals s w)
unfolding step
adopt_goal-IsStarted env (unavailable reason) goals s w source h legal =
    move_to-Ensures (IsStarted env s) env _ s w source failed h (begin-steps source legal).1
      (λ v moved. (refl, moved, λ k. ground arith))
adopt_goal-IsStarted env (understood goal) goals s w source h legal =
    move_to-Ensures (IsStarted env s) env _ s _ source planning
      (status_of-apply_stack_operation env.task_id _ w.tables ∙ h) legal
      (λ v moved. (refl, moved, λ k. refl))

continue_goal-IsStarted :
    (env : LoopEnv) (top : Option Goal) (s : LoopState) (w : World) (source : RuntimeStatus)
    → status_of env.task_id w.tables ≡ some source
    → step source planning ≡ ok planning
    → Ensures (IsStarted env s) (continue_goal env top s w)
unfolding step
continue_goal-IsStarted env none s w source h legal =
    move_to-Ensures (IsStarted env s) env _ s w source completed h (begin-steps source legal).0
      (λ v moved. (refl, moved, λ k. ground arith))
continue_goal-IsStarted env (some goal) s w source h legal =
    move_to-Ensures (IsStarted env s) env _ s w source planning h legal
      (λ v moved. (refl, moved, λ k. refl))

interpret_with-IsStarted :
    (env : LoopEnv) (utterance : String) (meaning : Interpretation) (goals : Option (List Goal))
    (s : LoopState) (w : World) (source : RuntimeStatus)
    → status_of env.task_id w.tables ≡ some source
    → step source planning ≡ ok planning
    → Ensures (IsStarted env s) (interpret_with env utterance meaning goals s w)
interpret_with-IsStarted env utterance meaning none s w source h legal = refl
interpret_with-IsStarted env utterance meaning (some goals) s w source h legal =
    elim (Bool-cases (strip utterance == "")) [
      | inl blank ↦ rw blank (continue_goal-IsStarted env (current goals) s w source h legal)
      | inr said ↦ rw said (adopt_goal-IsStarted env meaning goals s w source h legal)
    ]

-- When the stored phase of a task may go to planning and the fuel is above the number of replans left, plus
-- one unless the round is a replan, the turn of a message settles as its rounds do, whatever the message
-- means.
pub run_turn-IsSettled :
    (env : LoopEnv) (inputs : ℕ → RoundInput) (fuel : ℕ) (utterance : String)
    (meaning : Interpretation) (s : LoopState) (w : World) (source : RuntimeStatus)
    → status_of env.task_id w.tables ≡ some source
    → step source planning ≡ ok planning
    → rank s < fuel
    → IsSettled env (run_turn env inputs fuel utterance meaning s w)
unfolding run_turn interpret_goal
run_turn-IsSettled env inputs fuel utterance meaning s w source h legal below =
    start-IsSettled env inputs fuel s _
      (interpret_with-IsStarted env utterance meaning _ s w source h legal) below

answer-IsStarted :
    (env : LoopEnv) (pending : Option String) (answer : Resume) (s : LoopState) (w : World)
    → status_of env.task_id w.tables ≡ some waiting_for_user
    → Ensures (IsStarted env s) (resume_pending env.task_id pending answer s w)
unfolding step
answer-IsStarted env none answer s w h = refl
answer-IsStarted env (some id) other_resume s w h = refl
answer-IsStarted env (some id) (interaction_answer given) s w h =
    move_to-Ensures (IsStarted env s) env (λ t. record t { pending_interaction = none }) s w
      waiting_for_user planning h refl (λ v moved. (refl, moved, λ k. refl))

-- When the stored phase of a task is waiting for the user and the fuel is above the number of replans left,
-- plus one unless the round is a replan, the turn that an answer resumes settles as its rounds do.
pub resume_turn-IsSettled :
    (env : LoopEnv) (inputs : ℕ → RoundInput) (fuel : ℕ) (answer : Resume) (s : LoopState)
    (w : World)
    → status_of env.task_id w.tables ≡ some waiting_for_user
    → rank s < fuel
    → IsSettled env (resume_turn env inputs fuel answer s w)
unfolding resume_turn await_user step
resume_turn-IsSettled env inputs fuel answer s w h below =
    start-IsSettled env inputs fuel s _ (answer-IsStarted env s.pending_interaction answer s w h)
      below
