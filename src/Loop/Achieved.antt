-- ===== src/Loop/Achieved.antt =====
-- server/lingxilearn/runtime/nodes/evaluation.py: what it takes to complete a task.
use mathlib.Core.Path.{subst}
use lingxi_learn.Prelude.{
  String, ◌≡◌, refl, sym, ap, ◌∙◌, Bool, true, false, Option, none, some, List, if◌then◌else◌,
  Bool-cases, inl, inr,
}
use lingxi_learn.Prelude.Tables.{any, all, find?}
use lingxi_learn.RunState.{waiting_for_user, updating, replanning, completed, failed}
use lingxi_learn.GoalStack.{Goal}
use lingxi_learn.TaskStates.{goal_stack}
use lingxi_learn.Loop.{LoopState, World, in_phase}
use lingxi_learn.Loop.Policy.{
  GoalFacts, PhaseDecision, ResultTag, goal_satisfied, turn_complete, background_pending,
  no_progress, replan, decision, completes_turn, is_stuck, last_three, decide_next_phase,
  with_patch, check_goal_satisfied,
}
use lingxi_learn.Loop.Requests.{InteractionSpec, request_interaction}
use lingxi_learn.Loop.Nodes.{
  is_none, LoopEnv, move_to, finish_round, follow_up, ask_followup, followup_for, apply_decision,
  decide, evaluate_stack, evaluate_in, evaluate_goal,
}
use lingxi_learn.Loop.Stages.{left}
use lingxi_learn.Loop.Phases.{
  status_of, IsSynced, Ensures, and_then-Ensures, move_to-Ensures, status_of-apply_stack_operation,
}
use lingxi_learn.Loop.Ends.{IsDecided, decide-IsDecided}
use lingxi_learn.Loop.Passes.{Ensures-map}
use lingxi_learn.RunState.{RuntimeStatus}
use lingxi_learn.Prelude.{◌+◌, arith, not}
use lingxi_learn.Loop.{done}
use lingxi_learn.Loop.Nodes.{on_tables}
use lingxi_learn.TaskStates.{apply_stack_operation}
use lingxi_learn.GoalStack.{current}
use lingxi_learn.GoalStack.Undo.{mutate, pop_goal}

ask_followup-HasStatus :
    (status : RuntimeStatus) (id : String) (spec : Option InteractionSpec) (s : LoopState)
    (w : World)
    → s.runtime_status ≡ status
    → Ensures (λ t v. t.runtime_status ≡ status) (ask_followup id spec s w)
unfolding request_interaction
ask_followup-HasStatus status id none s w h = h
ask_followup-HasStatus status id (some spec) s w h = elim (Bool-cases spec.blocking) [
  | inl e ↦ rw e h
  | inr e ↦ rw e refl
]

follow_up-HasStatus :
    (status : RuntimeStatus) (id : String) (pending : Option String) (s : LoopState) (w : World)
    → s.runtime_status ≡ status
    → Ensures (λ t v. t.runtime_status ≡ status) (follow_up id pending s w)
follow_up-HasStatus status id (some q) s w h = h
follow_up-HasStatus status id none s w h =
    ask_followup-HasStatus status id (followup_for s.goal (find? completes_turn s.round_outcomes)) s
      w h

finish_round-HasStatus :
    (status : RuntimeStatus) (tag : ResultTag) (id : String) (remaining : Option Goal)
    (s : LoopState) (w : World)
    → s.runtime_status ≡ status
    → Ensures (λ t v. t.runtime_status ≡ status) (finish_round tag id remaining s w)
finish_round-HasStatus status goal_satisfied id remaining s w h = h
finish_round-HasStatus status turn_complete id remaining s w h =
    follow_up-HasStatus status id s.pending_interaction s w h
finish_round-HasStatus status background_pending id remaining s w h = h
finish_round-HasStatus status no_progress id remaining s w h = h
finish_round-HasStatus status replan id remaining s w h = h

apply_decision-HasStatus :
    (env : LoopEnv) (id : String) (remaining : Option Goal) (d : PhaseDecision) (s : LoopState)
    (w : World)
    → IsDecided (left s.budget + 1) d
    → status_of env.task_id w.tables ≡ some updating
    → Ensures (λ t v. t.runtime_status ≡ d.status) (apply_decision env id remaining d s w)
apply_decision-HasStatus env id remaining d s w (legal, decided) h =
    and_then-Ensures (λ t v. t.runtime_status ≡ d.status) (λ t v. t.runtime_status ≡ d.status)
      (move_to env d.status (with_patch d) s w) _
      (move_to-Ensures (λ t v. t.runtime_status ≡ d.status) env (with_patch d) s w updating d.status
        h legal (λ v moved. (decided (in_phase d.status s) refl (omega arith)).0))
      (finish_round-HasStatus d.status d.result_tag id remaining)

choose_completed :
    (satisfied more turn background stuck : Bool)
    → (if satisfied
        then (if more
            then decision replanning goal_satisfied
            else decision completed goal_satisfied)
        else if turn
        then decision waiting_for_user turn_complete
        else if background
        then decision waiting_for_user background_pending
        else if stuck
        then decision failed no_progress
        else decision replanning replan).status
      ≡ completed
    → (satisfied ≡ true) × (more ≡ false)
choose_completed true true c d f h = ground arith
choose_completed true false c d f h = (refl, refl)
choose_completed false b true d f h = ground arith
choose_completed false b false true f h = ground arith
choose_completed false b false false true h = ground arith
choose_completed false b false false false h = ground arith

decide_completed :
    (satisfied more : Bool) (s : LoopState)
    → (decide satisfied more s).status ≡ completed
    → (satisfied ≡ true) × (more ≡ false)
unfolding decide_next_phase
decide_completed satisfied more s h =
    choose_completed satisfied more (any completes_turn s.round_outcomes) s.background_pending
      (all is_stuck (last_three s.round_outcomes)) h

-- the goal's condition holds, and the stored stack without the goal has no goal to go on with
abbrev pub IsAchieved : LoopEnv → GoalFacts → LoopState → World → Type 0
IsAchieved env context s w =
    (check_goal_satisfied s.condition context ≡ true)
    × ((goals : List Goal) × (goal_stack env.fresh env.clock env.task_id w.tables ≡ some goals)
        × (current (mutate (pop_goal "目标达成" (some s.goal.id)) goals).0 ≡ none))

none_left : (g : Option Goal) → not (is_none g) ≡ false → g ≡ none
none_left none h = refl
none_left (some g) h = ground arith

evaluate_stack-IsAchieved :
    (env : LoopEnv) (id : String) (context : GoalFacts) (satisfied : Bool)
    (goals : Option (List Goal)) (s : LoopState) (w : World)
    → check_goal_satisfied s.condition context ≡ satisfied
    → goal_stack env.fresh env.clock env.task_id w.tables ≡ goals
    → status_of env.task_id w.tables ≡ some updating
    → Ensures
        (λ t v. t.runtime_status ≡ completed → IsAchieved env context s w)
        (evaluate_stack env id satisfied goals s w)
evaluate_stack-IsAchieved env id context false goals s w holds found h =
    Ensures-map (λ t v. t.runtime_status ≡ (decide false true s).status) _
      (apply_decision env id none (decide false true s) s w)
      (λ t v same closed. ground (arith, (decide_completed false true s (sym same ∙ closed)).0))
      (apply_decision-HasStatus env id none _ s w (decide-IsDecided _ false true s) h)
evaluate_stack-IsAchieved env id context true none s w holds found h = refl
evaluate_stack-IsAchieved env id context true (some goals) s w holds found h =
    let popped = mutate (pop_goal "目标达成" (some s.goal.id)) goals in
    let more = not (is_none (current popped.0)) in
    Ensures-map (λ t v. t.runtime_status ≡ (decide true more s).status)
      (λ t v. t.runtime_status ≡ completed → IsAchieved env context s w)
      (apply_decision env id (current popped.0) (decide true more s) s
        (on_tables (apply_stack_operation env.task_id popped.1) w))
      (λ t v same closed. (
        holds,
        (
          goals,
          found,
          none_left (current popped.0) (decide_completed true more s (sym same ∙ closed)).1,
        ),
      ))
      (apply_decision-HasStatus env id _ _ s _ (decide-IsDecided _ true more s)
        (status_of-apply_stack_operation env.task_id popped.1 w.tables ∙ h))

evaluate_goal-Ensures :
    (env : LoopEnv) (id : String) (context : GoalFacts) (s : LoopState) (w : World)
    → s.runtime_status ≡ updating
    → IsSynced env s w
    → Ensures
        (λ t v. t.runtime_status ≡ completed → IsAchieved env context s w)
        (evaluate_goal env id context s w)
unfolding evaluate_goal
evaluate_goal-Ensures env id context s w e sync =
    subst
      (λ p.
        Ensures (λ t v. t.runtime_status ≡ completed → IsAchieved env context s w)
          (evaluate_in p env id context s w))
      (sym e)
      (evaluate_stack-IsAchieved env id context (check_goal_satisfied s.condition context)
        (goal_stack env.fresh env.clock env.task_id w.tables) s w refl refl (sync ∙ ap some e))

-- When the phase is updating, as the stored one is, an evaluation that completes the task has found the
-- goal's condition to hold, and the stored goal stack to have no goal to go on with once the goal is popped.
pub evaluate_goal-IsAchieved :
    (env : LoopEnv) (id : String) (context : GoalFacts) (s t : LoopState) (w v : World)
    → s.runtime_status ≡ updating
    → IsSynced env s w
    → evaluate_goal env id context s w ≡ done t v
    → t.runtime_status ≡ completed
    → IsAchieved env context s w
evaluate_goal-IsAchieved env id context s t w v e sync ran closed =
    subst (Ensures (λ x u. x.runtime_status ≡ completed → IsAchieved env context s w)) ran
      (evaluate_goal-Ensures env id context s w e sync) closed
