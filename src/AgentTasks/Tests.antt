-- ===== src/AgentTasks/Tests.antt =====
-- A task and a submission, and instances of the theorems about them.
use lingxi_learn.Prelude.{String, ◌≡◌, ◌↔◌, refl, false, none, some, List, [], ◌∷◌, arith}
use lingxi_learn.Prelude.Tables.{any, lookup, find?}
use lingxi_learn.AgentTasks.{
  AgentTask, task_key, created, as_claimed, create_agent_task, claim_agent_task,
}
use lingxi_learn.AgentTasks.Claims.{TaskOp, run, claim_agent_task-exclusive}
use lingxi_learn.AgentTasks.Outputs.{
  with_output, update_agent_task_output, AllBounded, update_agent_task_output-AllBounded,
}
use lingxi_learn.AgentTasks.Quiz.{
  QuizSubmission, Submitted, get_quiz_submission, create_quiz_submission,
}

abbrev task : String → AgentTask
task id = record {
  id = id;
  learner_id = "l";
  create_idempotency_key = some "k";
  prompt = "dns";
  title = "";
  is_pinned = false;
  is_unread = false;
  deleted_at = none;
  resources = "[]";
  status = "queued";
  intent = "{}";
  lecture_result = "{}";
  deck_result = "{}";
  quiz_result = "{}";
  adaptive_result = "{}";
  handoff_result = "{}";
  user_messages = [];
  visual_result = "{}";
  error = "";
  current_execution_id = none;
  thread_status = "open";
  created_at = 1;
  updated_at = 1;
}

abbrev tasks : List AgentTask
tasks = task "t" ∷ []

claim_run :
    (claim_agent_task "t" "l" (some "x") false 5 tasks).1
    ≡ some (as_claimed (some "x") 5 (task "t"))
unfolding claim_agent_task lookup
claim_run = refl

abbrev later_ops : List TaskOp
later_ops =
    TaskOp.thread_status_op "t" "awaiting_user" 6 ∷ TaskOp.output_op "t" "intent" "{}" 7 ∷ []

claim_agent_task-exclusive_example :
    claim_agent_task "t" "l"
      (some "y")
      false
      8
      (run later_ops (claim_agent_task "t" "l" (some "x") false 5 tasks).0)
    ≡ (run later_ops (claim_agent_task "t" "l" (some "x") false 5 tasks).0, none)
claim_agent_task-exclusive_example =
    claim_agent_task-exclusive "t" "l" (some "x") false 5 tasks (as_claimed (some "x") 5 (task "t"))
      later_ops claim_run (tt, (tt, tt)) "l" (some "y") 8

tasks-AllBounded : AllBounded tasks
unfolding AllBounded
tasks-AllBounded = (omega arith, tt)

update_agent_task_output-AllBounded_example :
    ((after : List AgentTask)
      → update_agent_task_output "t" "user_message" "hi" 5 tasks ≡ some after
      → AllBounded after)
    × ((update_agent_task_output "t" "user_message" "hi" 5 tasks ≡ none) ↔ (
        (t : AgentTask) × (lookup task_key "t" tasks ≡ some t)
        × (with_output "user_message" "hi" 5 t ≡ none)))
update_agent_task_output-AllBounded_example =
    update_agent_task_output-AllBounded "t" "user_message" "hi" 5 tasks tasks-AllBounded

abbrev submission : String → String → QuizSubmission
submission id answers = record {
  id = 1;
  task_id = "t";
  submission_id = id;
  answers = answers;
  per_question = "[]";
  total_score = "1.0";
  total_points = 1;
  handoff_reason = "quiz_completed";
}

submit_run :
    (create_quiz_submission (submission "s" "a") []).1 ≡ Submitted.submission (submission "s" "a")
unfolding create_quiz_submission get_quiz_submission find? any
submit_run = refl

create_run : (create_agent_task (task "t") []).1 ≡ created
unfolding create_agent_task any
create_run = refl
