-- ===== src/Lib.antt =====
-- LingxiLearn, the server's coordination core (Python, under server/lingxilearn).
--
-- A learner's request becomes a goal on the goal stack; the orchestrator plans capabilities for it,
-- the guardrails cut the plan down to what may run, the plan becomes work items in the ledger, and
-- workers claim the items under leases, run them and report results. Commands of the learner travel
-- through an ordered queue to the execution that handles them. A run's phase is a status of its own.
--
-- RunState models the phases of a run (server/lingxilearn/state/agent_task_state.py: RuntimeStatus,
--   _TRANSITIONS, transition).
-- GoalStack models Goal and GoalStack of the same file: push, pop, replace, abandon, current, is_empty.
--   GoalStack/Undo models to_dict, from_dict and the StackOperation records of each mutation.
-- Capabilities models server/lingxilearn/state/capabilities.py: the vocabulary, CAPABILITY_INFO, parse.
-- Guardrails models server/lingxilearn/runtime/guardrails.py: Budget, check_plan, apply_hold_policy,
--   check_replan, and the fields of server/lingxilearn/runtime/contracts.py that they read.
-- Tiers models OrchestrationPlan.tiers of server/lingxilearn/runtime/contracts.py.
-- Completion models evaluate of server/lingxilearn/runtime/completion.py.
-- WorkLedger models the rows of server/lingxilearn/store/models/agent.py and WorkLedgerRepository of
--   server/lingxilearn/store/repositories/work_ledger.py: WorkLedger/Leases (claim_work_item, claim_work,
--   heartbeat_work, recover_expired_work), WorkLedger/Settle (finish_work, cancel_work, confirm_work,
--   reserve_budget, settle_budget), WorkLedger/Plans (create_work_plan), WorkLedger/Commands
--   (append_command, the delivery and consumption of commands). WorkLedger/Machine joins the operations
--   on work items into one machine whose runs are lists of calls, reads and commits.
-- Outbox models append_outbox, pending_outbox, mark_outbox_published and save_fact_snapshot there.
-- Dispatch/Binding models resolve of server/lingxilearn/runtime/dispatch/binding.py; Dispatch/Attempt
--   models Dispatcher.run of server/lingxilearn/runtime/dispatch/dispatcher.py with policy.py and
--   scheduler.py beside it: one attempt at a work item, on the ledger of WorkLedger.
-- Interactions models create_interaction, resolve_interaction, claim_interaction_answer,
--   save_interaction_answer and pending_interactions of
--   server/lingxilearn/store/repositories/runtime.py, which write the command queue and the outbox too.
-- Schedules, EventLog and AgentTasks model server/lingxilearn/store/repositories/agent_tasks.py: the
--   schedules with run_once of server/lingxilearn/runtime/schedules.py, the numbered events of a task
--   with the publication of outbox rows, and the rows of tasks and quiz submissions.
-- ExecutionGraph models build_execution_graph of server/lingxilearn/runtime/execution_graph.py, which
--   reads the rows of agent runs and the work dependencies.
-- PublicStream models server/lingxilearn/contracts/mothership_stream_v1.py, the envelopes and their
--   encoder; PublicStream/Plan, PublicStream/Shown and PublicStream/Projector model PublicProjector
--   of server/lingxilearn/runtime/public_projection.py: the handlers, and the calls of a host one by one.
-- Learner models server/lingxilearn/state/evidence.py and the evidence log of
--   server/lingxilearn/store/runtime_state.py; Learner/Profile and Learner/Override
--   model server/lingxilearn/store/profile_writer.py and server/lingxilearn/domain/learning_profile.py;
--   Learner/Summaries and Learner/Updater model server/lingxilearn/runtime/state_updater.py.
-- TaskStates models the state of a task and the undo log of its goal stack of
--   server/lingxilearn/store/runtime_state.py (ensure_agent_task_state to goal_stack).
-- Loop models the runtime: the checkpoint, transition_status, route and initial_state of
--   server/lingxilearn/runtime/graph.py; Loop/Policy models server/lingxilearn/runtime/evaluation.py,
--   Loop/Requests server/lingxilearn/runtime/interactions.py, Loop/Nodes the nodes of
--   server/lingxilearn/runtime/nodes with apply_to_stack of server/lingxilearn/runtime/goal_interpreter.py,
--   and Loop/Rounds the edges of build_loop: a round from orchestrate to evaluate_goal, and a run.
--   The phases go through RunState, the goals through GoalStack, the plan through Guardrails, the goal's
--   condition through Completion, and every write through TaskStates. Loop/Phases, Loop/Stages,
--   Loop/Passes and Loop/Ends hold what each node does to the phase and to the replans left,
--   Loop/Runs puts the rounds together, Loop/Achieved is about the end of a goal, Loop/NextTurn about a
--   message after the end; TaskStates/History is about the undo log.
-- Prelude holds what the parts share: tests on numbers and options, tables as lists of rows, integers,
--   the order of texts and stable sorting.
--
-- A method of a repository is a function from the tables before it to the tables after it and its
-- answer, as it runs when nothing comes between. For calls that lock their rows or update conditionally
-- this is one step. heartbeat_work, recover_expired_work, finish_work, cancel_work and confirm_work lock
-- nothing: WorkLedger/Machine/Sessions splits them into a read and a commit, which other calls may come
-- between, and WorkLedger/Machine/Kept is about such histories; a commit reads
-- the budget row and the statuses of dependencies itself. Overlapping calls of the
-- other methods are not modelled. A table is a list of rows in creation order, a JSON column is its
-- text, times are numbers of seconds, fresh identifiers and the clock are arguments. A negative amount
-- is an integer of Prelude/Int where the code clamps it. Definitions recurse on lists; tiers has as fuel
-- the number of tasks, and each round takes one task at least; a run of
-- the loop has as fuel the replans left and two rounds more; catch_up has one round more than the
-- clock's number, and each round moves the time forward by a second at least. Croniter's next time, the
-- digest of a candidate or an observation, the arithmetic of the learner model, the answer of a
-- provider and what a tool may show of its parameters and results are arguments.
--
-- Not modelled: the retries of append_command, append_evidence and create_quiz_submission after a
-- unique key is violated by a concurrent writer, the keys that a public payload may not have, the rows
-- of executions, agent runs and skill runs, the runner and the events of an attempt, the timing
-- of its heartbeats, failures of the
-- database within a transaction, the planner and its board, the decision trace, the recursion limit of
-- the graph library, the read models of the client, the wording of
-- findings and verdicts, the learner model's floating-point arithmetic, language models, HTTP and
-- files.
pub mod AgentTasks
pub mod Capabilities
pub mod Completion
pub mod Dispatch
pub mod EventLog
pub mod ExecutionGraph
pub mod GoalStack
pub mod Guardrails
pub mod Interactions
pub mod Learner
pub mod Loop
pub mod Outbox
pub mod Prelude
pub mod PublicStream
pub mod RunState
pub mod Schedules
pub mod TaskStates
pub mod Tiers
pub mod WorkLedger
