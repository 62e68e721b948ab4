-- ===== src/Interactions/Accept.antt =====
-- What an accepted answer writes, and what a retry of it gives back.
use lingxi_learn.Prelude.{
  ◌+◌, String, ◌≡◌, refl, ◌∙◌, true, false, Option, none, some, [], ◌∷◌, ◌++◌, ◌==◌, if◌then◌else◌,
  arith, eq_iff, ==-self,
}
use lingxi_learn.Prelude.Tables.{
  any-find?, lookup, modify, find?, any, find?-append_none, lookup-modify,
}
use lingxi_learn.WorkLedger.Commands.{CommandInbox, has_key, top_sequence}
use lingxi_learn.Interactions.{
  AgentInteraction, InteractionAnswer, Thread, interaction_id, resolve_at, Claim, conflict,
  duplicate, accepted, interaction_command_key, newest_turn, turn_for, is_answer, answer_of,
  command_of, event_of, commit_answer, answer_open, on_interaction, claim_interaction_answer,
}

-- What an accepted claim has seen and written.
pub record IsAccepted (c : Claim) (s after : Thread) (command : CommandInbox) : Type 0 where
  pub row : AgentInteraction
  pub found : lookup interaction_id c.interaction s.interactions ≡ some row
  pub own : row.task_id ≡ c.task_id
  pub pending : row.status ≡ "pending"
  pub blocking : row.blocking ≡ true
  pub first : find? (is_answer c.interaction c.idempotency_key) s.answers ≡ none
  pub unqueued :
      any (has_key c.task_id (interaction_command_key c.interaction c.idempotency_key)) s.commands
      ≡ false
  pub turn_id : String
  pub numbered : command ≡ command_of c turn_id (top_sequence c.task_id s.commands + 1)
  pub written : after ≡ record s {
    interactions = modify interaction_id c.interaction (resolve_at c.now) s.interactions;
    answers = s.answers ++ answer_of c ∷ [];
    commands = s.commands ++ command ∷ [];
    outbox = s.outbox ++ event_of c turn_id ∷ [];
  }

answer_open-IsAccepted :
    (c : Claim) (i : AgentInteraction) (s after : Thread) (command : CommandInbox)
    → lookup interaction_id c.interaction s.interactions ≡ some i
    → i.task_id ≡ c.task_id
    → find? (is_answer c.interaction c.idempotency_key) s.answers ≡ none
    → answer_open c i s ≡ (after, accepted command)
    → IsAccepted c s after command
unfolding answer_open commit_answer
answer_open-IsAccepted c i s after command found own first e = record {
  row = i;
  found = found;
  own = own;
  pending = ground (arith, eq_iff i.status "pending", eq_iff i.status "resolved");
  blocking = ground arith;
  first = first;
  unqueued = ground arith;
  turn_id = turn_for i.turn_id (newest_turn c.task_id s.turns);
  numbered = ground arith;
  written = ground arith;
}

-- A claim is accepted only on a pending, blocking interaction of the thread without an answer under
-- the key, and then resolves it and writes the answer, its continuation command and its event at
-- once, with the command's number next in the thread, and nothing else.
pub claim_interaction_answer-IsAccepted :
    (c : Claim) (s after : Thread) (command : CommandInbox)
    → claim_interaction_answer c s ≡ (after, accepted command)
    → IsAccepted c s after command
unfolding claim_interaction_answer
claim_interaction_answer-IsAccepted c s after command e =
    go (lookup interaction_id c.interaction s.interactions)
      (find? (is_answer c.interaction c.idempotency_key) s.answers) refl refl (ground arith)
  where
    go :
        (o : Option AgentInteraction) (a : Option InteractionAnswer)
        → lookup interaction_id c.interaction s.interactions ≡ o
        → find? (is_answer c.interaction c.idempotency_key) s.answers ≡ a
        → on_interaction c o s ≡ (after, accepted command)
        → IsAccepted c s after command
    go none a f g h = absurd (ground arith)
    go (some i) none f g h =
        answer_open-IsAccepted c i s after command f (ground (arith, eq_iff i.task_id c.task_id)) g
          (ground arith)
    go (some i) (some a) f g h = absurd (ground arith)

claim_known :
    (c : Claim) (s : Thread) (i : AgentInteraction) (a : InteractionAnswer)
    (m : Option CommandInbox)
    → any (λ t. t == c.task_id) s.task_ids ≡ true
    → lookup interaction_id c.interaction s.interactions ≡ some i
    → i.task_id ≡ c.task_id
    → find? (is_answer c.interaction c.idempotency_key) s.answers ≡ some a
    → find? (has_key c.task_id (interaction_command_key c.interaction c.idempotency_key)) s.commands
      ≡ m
    → claim_interaction_answer c s
      ≡ (s, if a.answers == c.answers then duplicate a.answers m else conflict)
unfolding claim_interaction_answer
claim_known c s i a m known found own first queued =
    let own_b : (i.task_id == c.task_id) ≡ true = (eq_iff i.task_id c.task_id).1 own in
    rw (known, found, own_b, first) (ground (arith, queued))

-- A retry under the same key answers with what the first call wrote and changes nothing: the same
-- answers give the original command back, other answers are a conflict.
pub claim_interaction_answer-again :
    (c again : Claim) (s after : Thread) (command : CommandInbox)
    → claim_interaction_answer c s ≡ (after, accepted command)
    → again.interaction ≡ c.interaction
    → again.task_id ≡ c.task_id
    → again.idempotency_key ≡ c.idempotency_key
    → claim_interaction_answer again after
      ≡ (after, if c.answers == again.answers then duplicate c.answers (some command) else conflict)
unfolding claim_interaction_answer
claim_interaction_answer-again c again s after command e same task key =
    let a = claim_interaction_answer-IsAccepted c s after command e in
    let known : any (λ t. t == c.task_id) s.task_ids ≡ true = ground arith in
    let named : lookup interaction_id c.interaction after.interactions
        ≡ some (resolve_at c.now a.row) =
      rw (a.written) (
        lookup-modify interaction_id (resolve_at c.now) (λ i. refl) c.interaction c.interaction
          s.interactions
        ∙ rw (==-self c.interaction, a.found) refl) in
    let answered : find? (is_answer c.interaction c.idempotency_key) after.answers
        ≡ some (answer_of c) =
      rw (a.written) (
        find?-append_none (is_answer c.interaction c.idempotency_key) s.answers (answer_of c)
          a.first (ground (arith, ==-self c.interaction, ==-self c.idempotency_key))) in
    let key' = interaction_command_key c.interaction c.idempotency_key in
    let fits : has_key c.task_id key' command ≡ true =
      rw (a.numbered) (ground (arith, ==-self c.task_id, ==-self key')) in
    let queued : find? (has_key c.task_id key') after.commands ≡ some command = rw (a.written) (
      find?-append_none (has_key c.task_id key') s.commands command
        (any-find? (has_key c.task_id key') s.commands a.unqueued) fits) in
    claim_known again after (resolve_at c.now a.row) (answer_of c) (some command)
      (rw (a.written, task) known) (rw same named) (rw task a.own) (rw (same, key) answered)
      (rw (same, task, key) queued)
