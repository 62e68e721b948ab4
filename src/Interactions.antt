-- ===== src/Interactions.antt =====
-- server/lingxilearn/store/repositories/runtime.py: interactions with the learner and their answers
-- (rows of server/lingxilearn/store/models/runtime.py). JSON columns are their text, so that answers
-- are compared as text; a time is a number; the clock and the fresh identifiers are arguments. The
-- rollback after a violated unique key is a test for the key.
pub mod Save
pub mod Accept
pub mod Once
mod Tests
use Prim.Native.String.{◌++◌ as ◌<>◌}
use lingxi_learn.Prelude.{
  ℕ, ◌+◌, String, Bool, ◌&&◌, ◌||◌, not, Option, none, some, List, [], ◌∷◌, ◌++◌, ◌==◌, ltb,
  if◌then◌else◌, is_some,
}
use lingxi_learn.Prelude.Tables.{lookup, modify, find?, any}
use lingxi_learn.WorkLedger.{AgentTurn}
use lingxi_learn.WorkLedger.Commands.{CommandInbox, has_key, top_sequence}
use lingxi_learn.Outbox.{OutboxRow, has_event_key}

pub record AgentInteraction : Type 0 where
  pub id : String
  pub task_id : String
  pub turn_id : Option String
  pub execution_id : Option String
  pub agent_run_id : Option String
  pub purpose : String
  pub presentation : String
  pub blocking : Bool
  pub request_payload : String
  pub status : String
  pub reason_code : String
  pub resolved_at : Option ℕ

pub record InteractionAnswer : Type 0 where
  pub interaction_id : String
  pub answers : String
  pub idempotency_key : String

-- The tables that one thread's interactions read and write.
pub record Thread : Type 0 where
  pub task_ids : List String
  pub turns : List AgentTurn
  pub interactions : List AgentInteraction
  pub answers : List InteractionAnswer
  pub commands : List CommandInbox
  pub outbox : List OutboxRow

abbrev pub interaction_id : AgentInteraction → String
interaction_id i = i.id

-- the arguments of `create_interaction`
pub record NewInteraction : Type 0 where
  pub id : String
  pub task_id : String
  pub turn_id : Option String
  pub execution_id : Option String
  pub agent_run_id : Option String
  pub purpose : String
  pub presentation : String
  pub blocking : Bool
  pub request_payload : String
  pub reason_code : String

-- A primary key that is taken aborts the transaction.
unfoldable pub create_interaction : NewInteraction → Thread → Thread
create_interaction n s =
    if is_some (lookup interaction_id n.id s.interactions) then s else record s {
      interactions =
          s.interactions
          ++ record {
            id = n.id;
            task_id = n.task_id;
            turn_id = n.turn_id;
            execution_id = n.execution_id;
            agent_run_id = n.agent_run_id;
            purpose = n.purpose;
            presentation = n.presentation;
            blocking = n.blocking;
            request_payload = n.request_payload;
            status = "pending";
            reason_code = n.reason_code;
            resolved_at = none;
          }
            ∷ [];
    }

abbrev pub resolve_at : ℕ → AgentInteraction → AgentInteraction
resolve_at now i = record i { status = "resolved"; resolved_at = some now }

unfoldable pub resolve_interaction : String → ℕ → Thread → Thread
resolve_interaction id now s = record s {
  interactions = modify interaction_id id (resolve_at now) s.interactions;
}

-- One call of `claim_interaction_answer`, with its clock and its fresh identifiers.
pub record Claim : Type 0 where
  pub interaction : String
  pub task_id : String
  pub answers : String
  pub idempotency_key : String
  pub now : ℕ
  pub command_id : String
  pub outbox_id : String
  pub command_payload : String
  pub event_payload : String

pub data ClaimOutcome : Type 0 where
  not_found conflict already_resolved : ClaimOutcome
  invalid : String → ClaimOutcome
  duplicate : String → Option CommandInbox → ClaimOutcome
  accepted : CommandInbox → ClaimOutcome

unfoldable pub interaction_command_key : String → String → String
interaction_command_key id key = "interaction:" <> id <> ":" <> key

unfoldable pub interaction_resolved_event_key : String → String
interaction_resolved_event_key id = "interaction:" <> id <> ":resolved"

-- the id of the task's turn with the greatest index, or "": the first of several equal ones
unfoldable pub newest_turn : String → List AgentTurn → Option AgentTurn
newest_turn task_id [] = none
newest_turn task_id (t ∷ ts) =
    let later = newest_turn task_id ts in
    if not (t.task_id == task_id) then later else elim later [
      | none ↦ some t
      | some u ↦ if ltb t.turn_index u.turn_index then some u else some t
    ]

abbrev pub turn_id_of : Option AgentTurn → String
turn_id_of none = ""
turn_id_of (some t) = t.id

-- the turn that paused, or the newest one
abbrev pub turn_for : Option String → Option AgentTurn → String
turn_for none newest = turn_id_of newest
turn_for (some id) newest = if id == "" then turn_id_of newest else id

abbrev pub is_answer : String → String → InteractionAnswer → Bool
is_answer id key a = a.interaction_id == id && a.idempotency_key == key

abbrev pub answer_of : Claim → InteractionAnswer
answer_of c = record {
  interaction_id = c.interaction;
  answers = c.answers;
  idempotency_key = c.idempotency_key;
}

abbrev pub command_of : Claim → String → ℕ → CommandInbox
command_of c turn_id sequence = record {
  id = c.command_id;
  task_id = c.task_id;
  turn_id = turn_id;
  sequence = sequence;
  kind = "interaction_answer";
  delivery_mode = "resume";
  disposition = "pending";
  delivery_execution_id = none;
  idempotency_key = interaction_command_key c.interaction c.idempotency_key;
  payload = c.command_payload;
  delivered_at = none;
  consumed_at = none;
}

abbrev pub event_of : Claim → String → OutboxRow
event_of c turn_id = record {
  id = c.outbox_id;
  event_key = interaction_resolved_event_key c.interaction;
  task_id = c.task_id;
  turn_id = turn_id;
  plan_revision = 0;
  kind = "interaction.resolved";
  safe_payload = c.event_payload;
  published_at = none;
}

-- The election, the answer, the command and the event, committed together.
unfoldable pub commit_answer : Claim → String → Thread → Thread × ClaimOutcome
commit_answer c turn_id s =
    let command = command_of c turn_id (top_sequence c.task_id s.commands + 1) in
    if any (has_event_key (interaction_resolved_event_key c.interaction)) s.outbox
      || any (has_key c.task_id (interaction_command_key c.interaction c.idempotency_key))
          s.commands
    then (s, already_resolved)
    else (
      record s {
        interactions = modify interaction_id c.interaction (resolve_at c.now) s.interactions;
        answers = s.answers ++ answer_of c ∷ [];
        commands = s.commands ++ command ∷ [];
        outbox = s.outbox ++ event_of c turn_id ∷ [];
      },
      accepted command,
    )

unfoldable pub answer_open : Claim → AgentInteraction → Thread → Thread × ClaimOutcome
answer_open c i s =
    let turn_id = turn_for i.turn_id (newest_turn c.task_id s.turns) in
    if i.status == "resolved"
    then (s, already_resolved)
    else if not (i.status == "pending")
    then (s, invalid i.status)
    else if not i.blocking
    then (s, invalid "non_blocking")
    else if turn_id == ""
    then (s, invalid "no_turn")
    else commit_answer c turn_id s

abbrev pub on_answer :
    Claim → AgentInteraction → Option InteractionAnswer → Thread → Thread × ClaimOutcome
on_answer c i none s = answer_open c i s
on_answer c i (some a) s = if not (a.answers == c.answers) then (s, conflict) else (
  s,
  duplicate a.answers (
      find? (has_key c.task_id (interaction_command_key c.interaction c.idempotency_key))
        s.commands),
)

abbrev pub on_interaction : Claim → Option AgentInteraction → Thread → Thread × ClaimOutcome
on_interaction c none s = (s, not_found)
on_interaction c (some i) s =
    if i.task_id == c.task_id
    then on_answer c i (find? (is_answer c.interaction c.idempotency_key) s.answers) s
    else (s, not_found)

unfoldable pub claim_interaction_answer : Claim → Thread → Thread × ClaimOutcome
claim_interaction_answer c s =
    if any (λ t. t == c.task_id) s.task_ids
    then on_interaction c (lookup interaction_id c.interaction s.interactions) s
    else (s, not_found)
