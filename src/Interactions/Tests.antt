-- ===== src/Interactions/Tests.antt =====
-- A thread with one pending interaction, and instances of the theorems about it.
use lingxi_learn.Prelude.{◌≤◌, String, ◌≡◌, refl, true, none, some, [], ◌∷◌}
use lingxi_learn.Prelude.Tables.{lookup, modify, find?, any}
use lingxi_learn.WorkLedger.Commands.{CommandInbox, top_sequence}
use lingxi_learn.Interactions.{
  AgentInteraction, Thread, Claim, accepted, resolve_at, answer_of, command_of, event_of,
  newest_turn, commit_answer, answer_open, claim_interaction_answer,
}
use lingxi_learn.Interactions.Accept.{IsAccepted, claim_interaction_answer-IsAccepted}
use lingxi_learn.Interactions.Once.{answer, accepted_count, accepted_count-le_one}

abbrev question : AgentInteraction
question = record {
  id = "i";
  task_id = "t";
  turn_id = some "u";
  execution_id = none;
  agent_run_id = none;
  purpose = "clarify";
  presentation = "choice";
  blocking = true;
  request_payload = "{}";
  status = "pending";
  reason_code = "";
  resolved_at = none;
}

abbrev thread : Thread
thread = record {
  task_ids = "t" ∷ [];
  turns = [];
  interactions = question ∷ [];
  answers = [];
  commands = [];
  outbox = [];
}

abbrev reply : String → Claim
reply key = record {
  interaction = "i";
  task_id = "t";
  answers = "yes";
  idempotency_key = key;
  now = 5;
  command_id = "c";
  outbox_id = "o";
  command_payload = "{}";
  event_payload = "{}";
}

abbrev command : CommandInbox
command = command_of (reply "k") "u" 1

abbrev answered : Thread
answered = record thread {
  interactions = resolve_at 5 question ∷ [];
  answers = answer_of (reply "k") ∷ [];
  commands = command ∷ [];
  outbox = event_of (reply "k") "u" ∷ [];
}

claim_run : claim_interaction_answer (reply "k") thread ≡ (answered, accepted command)
unfolding claim_interaction_answer answer_open commit_answer newest_turn top_sequence lookup modify
    find? any
claim_run = refl

claim_interaction_answer-IsAccepted_example : IsAccepted (reply "k") thread answered command
claim_interaction_answer-IsAccepted_example =
    claim_interaction_answer-IsAccepted (reply "k") thread answered command claim_run

accepted_count-le_one_example :
    accepted_count "i" (answer (reply "k") ∷ answer (reply "l") ∷ []) thread ≤ 1
accepted_count-le_one_example =
    accepted_count-le_one "i" (answer (reply "k") ∷ answer (reply "l") ∷ []) thread
