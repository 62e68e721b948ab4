-- ===== src/Loop/Tests.antt =====
-- A small task, runs of the loop on it, and instances of the theorems about runs.
use lingxi_learn.Completion.{profile_reaches, evaluate}
use lingxi_learn.GoalStack
use lingxi_learn.TaskStates.{is_changed, dicts_discrete}
use lingxi_learn.Loop.Achieved.{IsAchieved, evaluate_goal-IsAchieved}
use lingxi_learn.GoalStack.{current, pop, mark, pop_target, replace_first}
use lingxi_learn.GoalStack.Undo.{
  from_dict, rebuild, read_kind, read_status, text_or, list_or, number_or, time_or, prepend, mutate,
  change, op_name, reason_of, to_list, to_dict, kind_value, status_value, load,
}
use lingxi_learn.Prelude.{
  if◌then◌else◌, ◌==◌, arith, ℕ, String, ◌≡◌, refl, true, false, Option, none, some, [], ◌∷◌,
}
use lingxi_learn.Prelude.Int.{pos}
use lingxi_learn.Prelude.Tables.{any, all, find?, lookup, modify}
use lingxi_learn.Capabilities.{strip, strip_left, strip_right, is_space, parse, of_value, info}
use lingxi_learn.RunState.{
  RuntimeStatus, planning, updating, waiting_for_user, completed, step, is_same, allowed,
}
use lingxi_learn.GoalStack.{Goal, current_kind, open_status}
use lingxi_learn.Guardrails.{Budget, OrchestrationPlan}
use lingxi_learn.TaskStates.{
  new_state, get_agent_task_state, goal_stack, apply_stack_operation, set_runtime_status,
  change_state,
}
use lingxi_learn.Loop.{
  TaskOutcome, LoopState, World, LoopError, no_interaction, invalid_resume, illegal_phase, Result,
  done, raised, and_then, initial_state, transition_status,
}
use lingxi_learn.Loop.Policy.{GoalFacts, decide_next_phase, with_patch, check_goal_satisfied}
use lingxi_learn.Loop.Requests.{
  interaction_answer, other_resume, await_user, build_followup_interaction,
}
use lingxi_learn.Loop.Nodes.{
  LoopEnv, on_tables, Produced, understood, evaluate_goal, apply_to_stack,
}
use lingxi_learn.Loop.Rounds.{resume_turn, RoundInput, run_rounds, run_turn, failed_with}
use lingxi_learn.Loop.Runs.{
  resume_turn-IsSettled, IsSettled, run_rounds-IsSettled, run_turn-IsSettled,
}
use lingxi_learn.Loop.NextTurn.{run_turn-after_end}

abbrev goal : Goal
goal = record {
  goal_type = "learn";
  topic = "DNS";
  id = "g";
  kind = current_kind;
  knowledge_points = "dns" ∷ [];
  expected_outcome = "";
  constraints = [];
  urgency = 500;
  status = open_status;
  satisfied_when = "{}";
  created_by = "goal_interpreter";
  raw_utterance = "";
  pushed_at = 7;
}

abbrev budget : Budget
budget = record {
  steps_used = 0;
  max_steps = 8;
  replans_used = 0;
  max_replans = 2;
  tokens_used = 0;
  token_budget = 400000;
  wall_ms_used = 0;
  wall_ms_budget = 1800000;
  heavy_artifacts_used = 0;
  max_heavy_artifacts = 6;
  forged_skills_used = 0;
  max_forged_skills = 1;
}

abbrev env : LoopEnv
env = record { task_id = "t"; fresh = λ n. "goal_new"; clock = λ n. n }

abbrev world_in : RuntimeStatus → World
world_in status = record {
  tables = record {
    states = record (new_state "s" "l" "t" budget) { runtime_status = status } ∷ [];
    events = [];
  };
  interactions = [];
}

abbrev state : LoopState
state = initial_state goal budget

abbrev plan : OrchestrationPlan
plan = record {
  tasks =
      record {
        id = "a";
        capability = "teach.explain";
        rationale = "next";
        heavy_artifact = false;
        knowledge_point_id = "dns";
      }
      ∷ [];
  awaits_user = false;
  negotiation = "";
}

abbrev produced : Produced
produced = record {
  plan = plan;
  has_holds = false;
  board = "{}";
  screening = record {
    goal = goal;
    budget = budget;
    skills =
        record { enabled = true; provider = "tutor"; capabilities = "teach.explain" ∷ [] } ∷ [];
    requested_capabilities = [];
    confirmed_actions = [];
    settings_allow_list = none;
  };
  budget_exceeded = false;
  text = "{}";
  condition = none;
  interaction = none;
  interaction_id = "q";
}

abbrev outcome : String → TaskOutcome
outcome capability = record {
  task_id = "a";
  capability = capability;
  status = "completed";
  satisfied = true;
  learner_message = "";
  tokens_used = pos 5;
  duration_ms = pos 9;
  heavy = false;
}

abbrev context : GoalFacts
context = record { artifacts = none; profile = λ k. none }

-- a round that plans one task and ends with an outcome that leaves the turn open
abbrev inputs : ℕ → RoundInput
inputs n = record {
  step = n;
  produced = some produced;
  ran = outcome "graph.build" ∷ [];
  background = false;
  followup_id = "q";
  context = context;
}

run_rounds-IsSettled_example : IsSettled env (run_rounds env inputs 4 0 state (world_in planning))
unfolding lookup initial_state step is_same
run_rounds-IsSettled_example =
    run_rounds-IsSettled env inputs 4 0 state (world_in planning) refl (λ h. refl) (omega arith)

run_turn-IsSettled_example :
    IsSettled env
      (run_turn env inputs 4 "什么是DNS" (understood goal) state (world_in waiting_for_user))
unfolding lookup initial_state step is_same allowed
run_turn-IsSettled_example =
    run_turn-IsSettled env inputs 4 "什么是DNS" (understood goal) state (world_in waiting_for_user)
      waiting_for_user refl refl (omega arith)

resume_turn-IsSettled_example : IsSettled env (
    resume_turn env inputs 4
      (interaction_answer "q")
      (record state { pending_interaction = some "q" })
      (world_in waiting_for_user))
unfolding lookup initial_state
resume_turn-IsSettled_example =
    resume_turn-IsSettled env inputs 4 (interaction_answer "q")
      (record state { pending_interaction = some "q" }) (world_in waiting_for_user) refl
      (omega arith)

run_turn-after_end_example :
    run_turn env inputs 4 "什么是DNS" (understood goal) state (world_in completed)
    ≡ failed_with illegal_phase
        (on_tables (apply_stack_operation "t" (apply_to_stack goal []).1) (world_in completed))
unfolding lookup get_agent_task_state goal_stack load strip strip_left strip_right is_space
run_turn-after_end_example =
    run_turn-after_end env inputs 4 "什么是DNS" goal [] state (world_in completed) completed refl refl
      refl refl

abbrev error_of : Result → Option LoopError
error_of (done s w) = none
error_of (raised e w) = some e

-- the state after a round with a probe, whose outcome completes the turn and gets no follow-up
abbrev probed : LoopState
probed = record state { runtime_status = updating; round_outcomes = outcome "dialog.probe" ∷ [] }

unanswerable :
    error_of (
      and_then
        (evaluate_goal env "q" context probed (world_in updating))
        (await_user "t" (interaction_answer "q")))
    ≡ some no_interaction
unfolding evaluate_goal decide_next_phase with_patch check_goal_satisfied await_user
    build_followup_interaction transition_status step is_same allowed get_agent_task_state
    set_runtime_status change_state lookup modify any all find? parse of_value info strip strip_left
    strip_right is_space initial_state
unanswerable = refl

chat_refused :
    error_of (
      await_user "t" other_resume
        (record state { pending_interaction = some "q" })
        (world_in waiting_for_user))
    ≡ some invalid_resume
unfolding await_user
chat_refused = refl

-- the state at the end of a round whose goal is reached, and the world of a task whose stack another turn has emptied
abbrev reached : LoopState
reached = record state { runtime_status = updating; condition = some (profile_reaches "dns" 800) }

abbrev emptied : World
emptied = record {
  tables = record {
    states = record (new_state "s" "l" "t" budget) { runtime_status = updating } ∷ [];
    events = [];
  };
  interactions = [];
}

abbrev mastered : GoalFacts
mastered = record context { profile = λ k. if k == "dns" then some 900 else none }

abbrev state_of : Result → LoopState
state_of (done s w) = s
state_of (raised e w) = state

abbrev world_of : Result → World
world_of (done s w) = w
world_of (raised e w) = emptied

evaluate_goal-IsAchieved_example : IsAchieved env mastered reached emptied
unfolding evaluate_goal decide_next_phase with_patch check_goal_satisfied transition_status step
    is_same allowed get_agent_task_state set_runtime_status change_state lookup modify goal_stack
    load evaluate from_dict rebuild read_kind read_status text_or list_or number_or time_or prepend
    mutate change op_name reason_of to_list to_dict kind_value status_value pop mark pop_target
    replace_first GoalStack.find? current apply_stack_operation is_changed dicts_discrete
    initial_state
evaluate_goal-IsAchieved_example =
    let ran = evaluate_goal env "q" mastered reached emptied in
    evaluate_goal-IsAchieved env "q" mastered reached (state_of ran) emptied (world_of ran) refl
      refl refl refl
