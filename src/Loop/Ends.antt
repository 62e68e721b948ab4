-- ===== src/Loop/Ends.antt =====
-- The ends of a run: a round stops the run, waits for the user, or goes round again with fewer replans
-- left, so a run comes to a stop.
use mathlib.Core.Path.{subst}
use lingxi_learn.Prelude.{
  ℕ, ◌<◌, String, ◌≡◌, refl, sym, ap, ◌∙◌, Bool, true, false, Option, none, some, List,
  if◌then◌else◌, Bool-cases, inl, inr,
}
use lingxi_learn.Prelude.Tables.{any, all, find?}
use lingxi_learn.RunState.{
  planning, executing, waiting_for_user, observing, updating, replanning, completed, failed,
  is_terminal, ok, step,
}
use lingxi_learn.GoalStack.{Goal}
use lingxi_learn.TaskStates.{goal_stack}
use lingxi_learn.Loop.{LoopState, World, in_phase}
use lingxi_learn.Loop.Policy.{
  GoalFacts, PhaseDecision, ResultTag, goal_satisfied, turn_complete, background_pending,
  no_progress, replan, decision, completes_turn, is_stuck, last_three, decide_next_phase,
  with_patch, check_goal_satisfied,
}
use lingxi_learn.Loop.Requests.{InteractionSpec, request_interaction}
use lingxi_learn.Loop.Nodes.{
  LoopEnv, move_to, finish_round, follow_up, ask_followup, followup_for, apply_decision, decide,
  evaluate_stack, evaluate_in, evaluate_goal,
}
use lingxi_learn.Loop.Rounds.{RoundInput, run_round}
use lingxi_learn.Loop.Stages.{left, rank, Stage, stopped, paused, active, IsAt}
use lingxi_learn.Loop.Passes.{
  stopped-Ensures, paused-Ensures, orchestrate-IsAt, dispatch-IsAt, observe-IsAt,
}
use lingxi_learn.Loop.Phases.{
  status_of, IsSynced, Ensures, and_then-Ensures, move_to-Ensures, status_of-apply_stack_operation,
}

-- What a round leaves: the end of the run, a wait, or another round, with a replan fewer left.
pub data Fate (bound : ℕ) (s : LoopState) : Type 0 where
  over : is_terminal s.runtime_status ≡ true → Fate bound s
  held : s.runtime_status ≡ waiting_for_user → Fate bound s
  again : s.runtime_status ≡ replanning → s.replanning ≡ true → left s.budget < bound → Fate bound s

abbrev pub IsRound : ℕ → LoopEnv → LoopState → World → Type 0
IsRound bound env s w = IsSynced env s w × Fate bound s

-- What the decision of a round does.
abbrev pub IsDecided : ℕ → PhaseDecision → Type 0
IsDecided bound d =
    (step updating d.status ≡ ok d.status)
    × ((x : LoopState)
        → x.runtime_status ≡ d.status
        → left x.budget < bound
        → (((with_patch d x).runtime_status ≡ d.status) × Fate bound (with_patch d x)))

choose-IsDecided :
    (bound : ℕ) (satisfied more turn background stuck : Bool)
    → IsDecided bound (
        if satisfied
        then (if more
            then decision replanning goal_satisfied
            else decision completed goal_satisfied)
        else if turn
        then decision waiting_for_user turn_complete
        else if background
        then decision waiting_for_user background_pending
        else if stuck
        then decision failed no_progress
        else decision replanning replan)
unfolding step with_patch
choose-IsDecided bound true true c d f = (refl, λ x e below. (e, again e refl below))
choose-IsDecided bound true false c d f = (refl, λ x e below. (e, over (ap is_terminal e)))
choose-IsDecided bound false b true d f = (refl, λ x e below. (e, held e))
choose-IsDecided bound false b false true f = (refl, λ x e below. (e, held e))
choose-IsDecided bound false b false false true = (refl, λ x e below. (e, over (ap is_terminal e)))
choose-IsDecided bound false b false false false = (refl, λ x e below. (e, again e refl below))

pub decide-IsDecided :
    (bound : ℕ) (satisfied more : Bool) (s : LoopState) → IsDecided bound (decide satisfied more s)
unfolding decide_next_phase
decide-IsDecided bound satisfied more s =
    choose-IsDecided bound satisfied more (any completes_turn s.round_outcomes) s.background_pending
      (all is_stuck (last_three s.round_outcomes))

ask_followup-IsRound :
    (env : LoopEnv) (bound : ℕ) (id : String) (spec : Option InteractionSpec) (s : LoopState)
    (w : World)
    → IsRound bound env s w
    → Ensures (IsRound bound env) (ask_followup id spec s w)
unfolding request_interaction
ask_followup-IsRound env bound id none s w h = h
ask_followup-IsRound env bound id (some spec) s w (sync, fate) = elim (Bool-cases spec.blocking) [
  | inl e ↦ rw e (sync, moved fate)
  | inr e ↦ rw e refl
]
  where
    moved : Fate bound s → Fate bound (record s { pending_interaction = some id })
    moved (over e) = over e
    moved (held e) = held e
    moved (again e f g) = again e f g

follow_up-IsRound :
    (env : LoopEnv) (bound : ℕ) (id : String) (pending : Option String) (s : LoopState) (w : World)
    → IsRound bound env s w
    → Ensures (IsRound bound env) (follow_up id pending s w)
follow_up-IsRound env bound id (some q) s w h = h
follow_up-IsRound env bound id none s w h =
    ask_followup-IsRound env bound id (followup_for s.goal (find? completes_turn s.round_outcomes))
      s w h

finish_round-IsRound :
    (env : LoopEnv) (bound : ℕ) (tag : ResultTag) (id : String) (remaining : Option Goal)
    (s : LoopState) (w : World)
    → IsRound bound env s w
    → Ensures (IsRound bound env) (finish_round tag id remaining s w)
finish_round-IsRound env bound goal_satisfied id remaining s w (sync, over e) = (sync, over e)
finish_round-IsRound env bound goal_satisfied id remaining s w (sync, held e) = (sync, held e)
finish_round-IsRound env bound goal_satisfied id remaining s w (sync, again e f g) =
    (sync, again e f g)
finish_round-IsRound env bound turn_complete id remaining s w h =
    follow_up-IsRound env bound id s.pending_interaction s w h
finish_round-IsRound env bound background_pending id remaining s w h = h
finish_round-IsRound env bound no_progress id remaining s w h = h
finish_round-IsRound env bound replan id remaining s w h = h

apply_decision-IsRound :
    (env : LoopEnv) (bound : ℕ) (id : String) (remaining : Option Goal) (d : PhaseDecision)
    (s : LoopState) (w : World)
    → IsDecided bound d
    → status_of env.task_id w.tables ≡ some updating
    → left s.budget < bound
    → Ensures (IsRound bound env) (apply_decision env id remaining d s w)
apply_decision-IsRound env bound id remaining d s w (legal, decided) h below =
    and_then-Ensures (IsRound bound env) (IsRound bound env)
      (move_to env d.status (with_patch d) s w) _
      (move_to-Ensures (IsRound bound env) env (with_patch d) s w updating d.status h legal
        (λ v moved.
          let fate = decided (in_phase d.status s) refl below in
          (moved ∙ ap some (sym fate.0), fate.1)))
      (finish_round-IsRound env bound d.result_tag id remaining)

evaluate_stack-IsRound :
    (env : LoopEnv) (bound : ℕ) (id : String) (satisfied : Bool) (goals : Option (List Goal))
    (s : LoopState) (w : World)
    → status_of env.task_id w.tables ≡ some updating
    → left s.budget < bound
    → Ensures (IsRound bound env) (evaluate_stack env id satisfied goals s w)
evaluate_stack-IsRound env bound id false goals s w h below =
    apply_decision-IsRound env bound id none _ s w (decide-IsDecided bound false true s) h below
evaluate_stack-IsRound env bound id true none s w h below = refl
evaluate_stack-IsRound env bound id true (some goals) s w h below =
    apply_decision-IsRound env bound id _ _ s _ (decide-IsDecided bound true _ s)
      (status_of-apply_stack_operation env.task_id _ w.tables ∙ h) below

evaluate_goal-IsRound :
    (env : LoopEnv) (bound : ℕ) (id : String) (context : GoalFacts) (s : LoopState) (w : World)
    → IsSynced env s w
    → Stage updating bound s
    → Ensures (IsRound bound env) (evaluate_goal env id context s w)
unfolding evaluate_goal
evaluate_goal-IsRound env bound id context s w sync (stopped h) =
    stopped-Ensures (IsRound bound env) (λ p. evaluate_in p env id context s w) s w h refl refl
      (sync, over h)
evaluate_goal-IsRound env bound id context s w sync (paused h) =
    paused-Ensures (IsRound bound env) (λ p. evaluate_in p env id context s w) s w h refl
      (sync, held h)
evaluate_goal-IsRound env bound id context s w sync (active e below) =
    subst (λ p. Ensures (IsRound bound env) (evaluate_in p env id context s w)) (sym e)
      (evaluate_stack-IsRound env bound id (check_goal_satisfied s.condition context)
        (goal_stack env.fresh env.clock env.task_id w.tables) s w (sync ∙ ap some e) below)

pub run_round-IsRound :
    (env : LoopEnv) (i : RoundInput) (s : LoopState) (w : World)
    → (is_terminal s.runtime_status ≡ false → step s.runtime_status planning ≡ ok planning)
    → IsSynced env s w
    → Ensures (IsRound (rank s) env) (run_round env i s w)
unfolding run_round
run_round-IsRound env i s w ready sync =
    and_then-Ensures (IsAt executing (rank s) env) (IsRound (rank s) env) _ _
      (orchestrate-IsAt env i.step i.produced s w ready sync)
      (λ t u h.
        and_then-Ensures (IsAt observing (rank s) env) (IsRound (rank s) env) _ _
          (dispatch-IsAt env i.ran i.background (rank s) t u h.0 h.1)
          (λ x v k.
            and_then-Ensures (IsAt updating (rank s) env) (IsRound (rank s) env) _ _
              (observe-IsAt env (rank s) x v k.0 k.1)
              (λ y z l. evaluate_goal-IsRound env (rank s) i.followup_id i.context y z l.0 l.1)))
