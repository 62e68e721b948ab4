-- ===== src/Loop/Nodes.antt =====
-- The nodes of server/lingxilearn/runtime/nodes: goal.py, orchestration.py, execution.py, observation.py
-- and evaluation.py. What the models, the providers and the stores answer is an input of a node: the
-- goal that an utterance means, the plan and the screening of a round with the board after the holds,
-- the outcomes of the tasks that ran, and the context of the goal's condition. The update of the profile
-- is Learner/Updater; the work items of a plan are WorkLedger. Rounds' events are left out.
use lingxi_learn.Prelude.{
  ℕ, String, Bool, true, false, ◌&&◌, ◌||◌, not, Option, none, some, List, [], ◌∷◌, ◌++◌, ◌==◌,
  if◌then◌else◌,
}
use lingxi_learn.Prelude.Tables.{find?}
use lingxi_learn.Capabilities.{info, parse, strip}
use lingxi_learn.RunState.{
  RuntimeStatus, planning, executing, waiting_for_user, observing, updating, completed, failed,
  is_terminal,
}
use lingxi_learn.GoalStack.{Goal, GoalKind, interrupt, current}
use lingxi_learn.GoalStack.Undo.{
  Mutation, push_goal, pop_goal, replace_goal, mutate, StackOperation,
}
use lingxi_learn.Guardrails.{
  Budget, spend_step, spend_replan, check_replan, GuardrailFinding, GuardrailVerdict,
  OrchestrationPlan, Screening, check_plan, is_empty,
}
use lingxi_learn.Completion.{DoneCondition}
use lingxi_learn.TaskStates.{
  TaskTables, apply_stack_operation, save_plan, save_board, save_budget, goal_stack,
}
use lingxi_learn.Loop.{
  TaskOutcome, LoopState, World, planning_failed, bad_goal, bad_request, Result, done, raised,
  and_then, transition_status,
}
use lingxi_learn.Loop.Policy.{
  GoalFacts, PhaseDecision, ResultTag, turn_complete, goal_satisfied, decide_next_phase, with_patch,
  check_goal_satisfied, completes_turn,
}
use lingxi_learn.Loop.Requests.{
  InteractionSpec, is_spec, request_interaction, build_followup_interaction,
}

-- the task, and what fills the missing keys of a stored goal
pub record LoopEnv : Type 0 where
  pub task_id : String
  pub fresh : ℕ → String
  pub clock : ℕ → ℕ

abbrev pub on_tables : (TaskTables → TaskTables) → World → World
on_tables f w = record w { tables = f w.tables }

abbrev pub with_reason : String → List String → LoopState → LoopState
with_reason reason more s = record s { finished_reason = reason; messages = s.messages ++ more }

abbrev pub move_to : LoopEnv → RuntimeStatus → (LoopState → LoopState) → LoopState → World → Result
move_to env target patch s w =
    and_then (transition_status env.task_id target s w) (λ t v. done (patch t) v)

-- goal.py

-- what the model makes of an utterance
pub data Interpretation : Type 0 where
  unavailable : String → Interpretation
  understood : Goal → Interpretation

abbrev pub is_interrupt : GoalKind → Bool
is_interrupt interrupt = true
is_interrupt kind = false

abbrev pub stack_change : Goal → Option Goal → Mutation
stack_change goal none = push_goal goal "新目标"
stack_change goal (some top) =
    if is_interrupt goal.kind then push_goal goal "打断" else replace_goal goal "切换目标"

-- `goal_interpreter.apply_to_stack` as the node calls it; the utterance in a reason is left out.
unfoldable pub apply_to_stack : Goal → List Goal → List Goal × StackOperation
apply_to_stack goal goals = mutate (stack_change goal (current goals)) goals

abbrev pub continue_goal : LoopEnv → Option Goal → LoopState → World → Result
continue_goal env none s w = move_to env completed (with_reason "没有待处理的学习目标" []) s w
continue_goal env (some goal) s w = move_to env planning (λ t. record t { goal = goal }) s w

abbrev pub adopt_goal : LoopEnv → Interpretation → List Goal → LoopState → World → Result
adopt_goal env (unavailable reason) goals s w =
    move_to env failed (with_reason reason ("目标识别失败，本轮没有执行任何学习技能。" ∷ [])) s w
adopt_goal env (understood goal) goals s w =
    move_to env planning (λ t. record t { goal = goal }) s
      (on_tables (apply_stack_operation env.task_id (apply_to_stack goal goals).1) w)

abbrev pub interpret_with :
    LoopEnv → String → Interpretation → Option (List Goal) → LoopState → World → Result
interpret_with env utterance meaning none s w = raised bad_goal w
interpret_with env utterance meaning (some goals) s w =
    if strip utterance == ""
    then continue_goal env (current goals) s w
    else adopt_goal env meaning goals s w

unfoldable pub interpret_goal : LoopEnv → String → Interpretation → LoopState → World → Result
interpret_goal env utterance meaning s w =
    interpret_with env utterance meaning (goal_stack env.fresh env.clock env.task_id w.tables) s w

-- orchestration.py

-- What the planner answers: `plan` after the holds are applied, with the board; `text` and `condition`
-- are the plan's dictionary and its goal_satisfied_when; `budget_exceeded` is the answer of
-- create_work_plan; `interaction` is a dictionary that the plan may have, `interaction_id` the next id.
pub record Produced : Type 0 where
  pub plan : OrchestrationPlan
  pub has_holds : Bool
  pub board : String
  pub screening : Screening
  pub budget_exceeded : Bool
  pub text : String
  pub condition : Option DoneCondition
  pub interaction : Option InteractionSpec
  pub interaction_id : String

abbrev pub budget_message : String
budget_message = "本轮预计资源需求超过剩余预算，已停止启动新工作。"

-- `produced.awaits_user` after the holds
abbrev pub held_plan : Produced → OrchestrationPlan
held_plan p = record (p.plan) {
  awaits_user = p.plan.awaits_user || (p.has_holds && is_empty p.plan.tasks);
}

unfoldable pub verdict_of : Produced → LoopState → GuardrailVerdict
verdict_of p s =
    check_plan (held_plan p)
      (record (p.screening) { goal = s.goal; budget = s.budget; settings_allow_list = none })

abbrev pub is_awaiting : Produced → GuardrailVerdict → Bool
is_awaiting p v =
    ((held_plan p).awaits_user && is_empty v.allowed_tasks) || not (p.plan.negotiation == "")

abbrev pub planned_phase : Bool → GuardrailVerdict → RuntimeStatus
planned_phase awaiting v =
    if awaiting
    then waiting_for_user
    else if is_empty v.allowed_tasks
    then waiting_for_user
    else executing

abbrev pub ask_spec : String → InteractionSpec → LoopState → World → Result
ask_spec id spec s w =
    if is_spec spec then request_interaction id spec s w else raised bad_request w

-- the pending interaction of the round, none unless one is asked for
abbrev pub ask_user : Bool → String → Option InteractionSpec → LoopState → World → Result
ask_user awaiting id none s w = done (record s { pending_interaction = none }) w
ask_user awaiting id (some spec) s w =
    if awaiting then ask_spec id spec s w else done (record s { pending_interaction = none }) w

abbrev pub negotiated : String → List String
negotiated negotiation = if negotiation == "" then [] else negotiation ∷ []

abbrev pub settle_plan : LoopEnv → ℕ → Produced → GuardrailVerdict → LoopState → World → Result
settle_plan env step p v s w =
    and_then (ask_user (is_awaiting p v) p.interaction_id p.interaction s w) (λ t u.
      move_to env (planned_phase (is_awaiting p v) v)
        (λ x. record x {
          replanning = false;
          condition = p.condition;
          step = step;
          messages = x.messages ++ negotiated p.plan.negotiation;
        })
        t (on_tables (save_plan env.task_id p.text (some s.budget)) u))

abbrev pub stop_round : LoopEnv → ℕ → String → LoopState → World → Result
stop_round env step message s w =
    move_to env failed (λ t. record (with_reason message (message ∷ []) t) { step = step }) s w

abbrev pub guarded_message : String
guarded_message = "本轮已停止"

abbrev pub screen_plan : LoopEnv → ℕ → Produced → GuardrailVerdict → LoopState → World → Result
screen_plan env step p v s w =
    if not (is_empty p.plan.tasks) && p.budget_exceeded
    then stop_round env step budget_message s w
    else if v.fatal
    then stop_round env step guarded_message s
        (on_tables (save_plan env.task_id p.text (some s.budget)) w)
    else settle_plan env step p v s w

abbrev pub plan_round : LoopEnv → ℕ → Option Produced → LoopState → World → Result
plan_round env step none s w = raised planning_failed w
plan_round env step (some p) s w =
    screen_plan env step p (verdict_of p s) s (on_tables (save_board env.task_id p.board) w)

abbrev pub replan_message : String
replan_message = "已达到重新规划上限"

abbrev pub spend_or_stop :
    LoopEnv → ℕ → Option Produced → Option GuardrailFinding → LoopState → World → Result
spend_or_stop env step p (some f) s w =
    move_to env failed (with_reason replan_message (replan_message ∷ [])) s
      (on_tables (save_budget env.task_id s.budget) w)
spend_or_stop env step p none s w =
    plan_round env step p (record s { budget = spend_replan s.budget }) w

abbrev pub check_round : LoopEnv → ℕ → Option Produced → LoopState → World → Result
check_round env step p s w =
    if s.replanning
    then spend_or_stop env step p (check_replan s.budget) s w
    else plan_round env step p s w

-- `orchestrate`; the wording of the guardrails' messages is left out.
unfoldable pub orchestrate : LoopEnv → ℕ → Option Produced → LoopState → World → Result
orchestrate env step p s w =
    if is_terminal s.runtime_status
    then done s w
    else and_then (transition_status env.task_id planning s w) (check_round env step p)

-- execution.py

unfoldable pub spend_outcomes : List TaskOutcome → Budget → Budget
spend_outcomes [] b = b
spend_outcomes (o ∷ os) b = spend_outcomes os (spend_step o.heavy o.tokens_used o.duration_ms b)

abbrev pub is_spoken : TaskOutcome → Bool
is_spoken o =
    not (o.learner_message == "")
    && elim (parse o.capability) [ none ↦ false | some c ↦ (info c).conversational ]

unfoldable pub spoken : List TaskOutcome → List String
spoken [] = []
spoken (o ∷ os) = if is_spoken o then o.learner_message ∷ spoken os else spoken os

abbrev pub after_outcomes : List TaskOutcome → Bool → Budget → LoopState → LoopState
after_outcomes ran background budget s = record s {
  outcomes = s.outcomes ++ ran;
  round_outcomes = ran;
  budget = budget;
  messages = s.messages ++ spoken ran;
  background_pending = background;
}

abbrev pub record_outcomes : LoopEnv → List TaskOutcome → Bool → Budget → LoopState → World → Result
record_outcomes env ran background budget s w =
    move_to env observing (after_outcomes ran background budget) s
      (on_tables (save_budget env.task_id budget) w)

abbrev pub dispatch_in :
    RuntimeStatus → LoopEnv → List TaskOutcome → Bool → LoopState → World → Result
dispatch_in executing env ran background s w =
    record_outcomes env ran background (spend_outcomes ran s.budget) s w
dispatch_in status env ran background s w = done s w

-- `dispatch`, with the outcomes of the tasks that ran and whether work was left in the background; the
-- holds that it writes on the board are left out.
unfoldable pub dispatch : LoopEnv → List TaskOutcome → Bool → LoopState → World → Result
dispatch env ran background s w = dispatch_in s.runtime_status env ran background s w

-- observation.py

abbrev pub observe_in : RuntimeStatus → LoopEnv → LoopState → World → Result
observe_in observing env s w = transition_status env.task_id updating s w
observe_in executing env s w = transition_status env.task_id updating s w
observe_in status env s w = done s w

unfoldable pub observe : LoopEnv → LoopState → World → Result
observe env s w = observe_in s.runtime_status env s w

-- evaluation.py

abbrev pub first_point : List String → String
first_point [] = ""
first_point (p ∷ ps) = p

abbrev pub followup_for : Goal → Option TaskOutcome → Option InteractionSpec
followup_for goal none = none
followup_for goal (some o) =
    build_followup_interaction o.capability (first_point goal.knowledge_points) goal.topic

abbrev pub ask_followup : String → Option InteractionSpec → LoopState → World → Result
ask_followup id none s w = done s w
ask_followup id (some spec) s w = request_interaction id spec s w

-- The follow-up of an answer, unless an interaction is pending.
abbrev pub follow_up : String → Option String → LoopState → World → Result
follow_up id (some pending) s w = done s w
follow_up id none s w =
    ask_followup id (followup_for s.goal (find? completes_turn s.round_outcomes)) s w

abbrev pub goal_or : Option Goal → Goal → Goal
goal_or none g = g
goal_or (some g) old = g

abbrev pub finish_round : ResultTag → String → Option Goal → LoopState → World → Result
finish_round goal_satisfied id remaining s w = done (record s { goal = goal_or remaining s.goal }) w
finish_round turn_complete id remaining s w = follow_up id s.pending_interaction s w
finish_round tag id remaining s w = done s w

abbrev pub apply_decision :
    LoopEnv → String → Option Goal → PhaseDecision → LoopState → World → Result
apply_decision env id remaining d s w =
    and_then (move_to env d.status (with_patch d) s w) (finish_round d.result_tag id remaining)

abbrev pub is_none : Option Goal → Bool
is_none none = true
is_none (some g) = false

abbrev pub decide : Bool → Bool → LoopState → PhaseDecision
decide satisfied has_remaining s =
    decide_next_phase s.round_outcomes satisfied has_remaining s.background_pending

-- the stack's pop when the goal is satisfied
abbrev pub evaluate_stack :
    LoopEnv → String → Bool → Option (List Goal) → LoopState → World → Result
evaluate_stack env id false goals s w = apply_decision env id none (decide false true s) s w
evaluate_stack env id true none s w = raised bad_goal w
evaluate_stack env id true (some goals) s w =
    let popped = mutate (pop_goal "目标达成" (some s.goal.id)) goals in
    let remaining = current popped.0 in
    apply_decision env id remaining (decide true (not (is_none remaining)) s) s
      (on_tables (apply_stack_operation env.task_id popped.1) w)

abbrev pub evaluate_in : RuntimeStatus → LoopEnv → String → GoalFacts → LoopState → World → Result
evaluate_in failed env id context s w = done s w
evaluate_in completed env id context s w = done s w
evaluate_in waiting_for_user env id context s w = done s w
evaluate_in status env id context s w =
    evaluate_stack env id (check_goal_satisfied s.condition context)
      (goal_stack env.fresh env.clock env.task_id w.tables) s w

-- `evaluate_goal`, with the id of the next interaction
unfoldable pub evaluate_goal : LoopEnv → String → GoalFacts → LoopState → World → Result
evaluate_goal env id context s w = evaluate_in s.runtime_status env id context s w
