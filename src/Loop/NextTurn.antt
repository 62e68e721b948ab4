-- ===== src/Loop/NextTurn.antt =====
-- server/lingxilearn/runtime/nodes/goal.py: a message to a task whose last turn has ended.
use lingxi_learn.Prelude.{
  ℕ, String, ◌≡◌, refl, ap, ◌∙◌, true, false, Option, none, some, List, ◌==◌, arith, inl, inr,
}
use lingxi_learn.Capabilities.{strip}
use lingxi_learn.RunState.{RuntimeStatus, planning, is_terminal, step}
use lingxi_learn.GoalStack.{Goal}
use lingxi_learn.TaskStates.{apply_stack_operation, goal_stack}
use lingxi_learn.Loop.{LoopState, World, done, raised, and_then, transition_status}
use lingxi_learn.Loop.Nodes.{understood, interpret_goal, LoopEnv, on_tables}
use lingxi_learn.Loop.Rounds.{start, run_turn, RoundInput, failed_with, run_rounds}
use lingxi_learn.Loop.Passes.{is_terminal-cases}
use lingxi_learn.Loop.Phases.{phase_or, status_of, status_of-apply_stack_operation}
use lingxi_learn.TaskStates.{AgentTaskState, state_key, get_agent_task_state}
use lingxi_learn.Prelude.Tables.{lookup, option_map}
use lingxi_learn.RunState.{illegal_transition}
use lingxi_learn.Loop.{status_or, commit, illegal_phase}
use lingxi_learn.Loop.Nodes.{apply_to_stack}

terminal-refuses :
    (p : RuntimeStatus) → is_terminal p ≡ true → step p planning ≡ illegal_transition p planning
unfolding step
terminal-refuses p h = elim (is_terminal-cases p h) [
  | inl done_ ↦ rw done_ refl
  | inr failed_ ↦ rw failed_ refl
]

commit_refused :
    (task_id : String) (s : LoopState) (w : World) (found : Option AgentTaskState)
    (source target : RuntimeStatus)
    → option_map (λ r. r.runtime_status) found ≡ some source
    → step source target ≡ illegal_transition source target
    → commit task_id s w (step (status_or s.runtime_status found) target) ≡ raised illegal_phase w
commit_refused task_id s w none source target h bad = ground arith
commit_refused task_id s w (some r) source target h bad =
    let same : r.runtime_status ≡ source = ap (phase_or source) h in
    ap (λ p. commit task_id s w (step p target)) same ∙ ap (commit task_id s w) bad

-- A transition that the table has not raises, and writes nothing.
transition_status_refused :
    (task_id : String) (s : LoopState) (w : World) (source target : RuntimeStatus)
    → status_of task_id w.tables ≡ some source
    → step source target ≡ illegal_transition source target
    → transition_status task_id target s w ≡ raised illegal_phase w
unfolding transition_status get_agent_task_state
transition_status_refused task_id s w source target h bad =
    commit_refused task_id s w (lookup state_key task_id w.tables.states) source target h bad

-- When the stored phase of a task is completed or failed, a message that is not blank and is understood
-- as a goal puts the goal on the stored stack and then raises IllegalTransition: no turn starts.
pub run_turn-after_end :
    (env : LoopEnv) (inputs : ℕ → RoundInput) (fuel : ℕ) (utterance : String) (goal : Goal)
    (goals : List Goal) (s : LoopState) (w : World) (source : RuntimeStatus)
    → status_of env.task_id w.tables ≡ some source
    → is_terminal source ≡ true
    → goal_stack env.fresh env.clock env.task_id w.tables ≡ some goals
    → (strip utterance == "") ≡ false
    → run_turn env inputs fuel utterance (understood goal) s w
      ≡ failed_with illegal_phase
          (on_tables (apply_stack_operation env.task_id (apply_to_stack goal goals).1) w)
unfolding run_turn interpret_goal
run_turn-after_end env inputs fuel utterance goal goals s w source h finished stored said =
    let after : World =
      on_tables (apply_stack_operation env.task_id (apply_to_stack goal goals).1) w in
    let kept : status_of env.task_id after.tables ≡ some source =
      status_of-apply_stack_operation env.task_id (apply_to_stack goal goals).1 w.tables ∙ h in
    let refused : transition_status env.task_id planning s after ≡ raised illegal_phase after =
      transition_status_refused env.task_id s after source planning kept
        (terminal-refuses source finished) in
    rw stored (
      rw said (
        ap
          (λ r.
            start (and_then r (λ t v. done (record t { goal = goal }) v))
              (run_rounds env inputs fuel 0))
          refused))
