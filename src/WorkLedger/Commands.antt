-- ===== src/WorkLedger/Commands.antt =====
-- server/lingxilearn/store/repositories/work_ledger.py: the ordered, idempotent queue of learner commands, its delivery
-- leases. `turn_id` and `command_id` are the fresh identifiers drawn,
-- times are numbers of seconds. An insert that violates a unique key is the retry path of the source
-- and needs a writer that does not take the task's row lock: it is not modelled.
pub mod Queue
use lingxi_learn.Prelude.{
  ℕ, ◌+◌, String, Bool, true, false, ◌&&◌, ◌||◌, Option, none, some, List, [], ◌∷◌, ◌++◌, ◌==◌, ltb,
  if◌then◌else◌,
}
use lingxi_learn.Prelude.Tables.{lookup, modify, find?, any}
use lingxi_learn.WorkLedger.{AgentTurn}

pub record CommandInbox : Type 0 where
  pub id : String
  pub task_id : String
  pub turn_id : String
  pub sequence : ℕ
  pub kind : String
  pub delivery_mode : String
  pub disposition : String
  pub delivery_execution_id : Option String
  pub idempotency_key : String
  pub payload : String
  pub delivered_at : Option ℕ
  pub consumed_at : Option ℕ

pub record Inbox : Type 0 where
  pub task_ids : List String
  pub turns : List AgentTurn
  pub commands : List CommandInbox

pub data Appended : Type 0 where
  unknown_task : Appended
  unknown_turn : Appended
  appended : CommandInbox → Bool → Appended

abbrev pub max_of : ℕ → ℕ → ℕ
max_of a b = if ltb a b then b else a

-- 1 + coalesce(max(turn_index), -1) over the task's turns
unfoldable pub next_turn_index : String → List AgentTurn → ℕ
next_turn_index task_id [] = 0
next_turn_index task_id (t ∷ ts) =
    if t.task_id == task_id
    then max_of (t.turn_index + 1) (next_turn_index task_id ts)
    else next_turn_index task_id ts

-- coalesce(max(sequence), 0) over the task's commands
unfoldable pub top_sequence : String → List CommandInbox → ℕ
top_sequence task_id [] = 0
top_sequence task_id (c ∷ cs) =
    if c.task_id == task_id
    then max_of c.sequence (top_sequence task_id cs)
    else top_sequence task_id cs

pub record NewCommand : Type 0 where
  pub task_id : String
  pub kind : String
  pub payload : String
  pub idempotency_key : String
  pub turn_id : Option String
  pub delivery_mode : String

abbrev pub has_key : String → String → CommandInbox → Bool
has_key task_id key c = c.task_id == task_id && c.idempotency_key == key

abbrev pub new_turn : String → ℕ → NewCommand → AgentTurn
new_turn fresh_turn index n = record {
  id = fresh_turn;
  task_id = n.task_id;
  turn_index = index;
  status = "active";
  phase = "interpreting";
  goal_status = "open";
  execution_mode = "normal";
  revision = 0;
  input_payload = n.payload;
}

abbrev pub new_command : String → String → ℕ → NewCommand → CommandInbox
new_command fresh_command turn_id sequence n = record {
  id = fresh_command;
  task_id = n.task_id;
  turn_id = turn_id;
  sequence = sequence;
  kind = n.kind;
  delivery_mode = n.delivery_mode;
  disposition = "pending";
  delivery_execution_id = none;
  idempotency_key = n.idempotency_key;
  payload = n.payload;
  delivered_at = none;
  consumed_at = none;
}

-- The insert: with a turn of its own unless the caller names one.
unfoldable pub insert_command :
    String → String → Option String → NewCommand → Inbox → Inbox × Appended
insert_command fresh_turn fresh_command none n s =
    let turn = new_turn fresh_turn (next_turn_index n.task_id s.turns) n in
    let command = new_command fresh_command fresh_turn (top_sequence n.task_id s.commands + 1) n in
    (
      record s { turns = s.turns ++ turn ∷ []; commands = s.commands ++ command ∷ [] },
      appended command true,
    )
insert_command fresh_turn fresh_command (some turn_id) n s =
    let command = new_command fresh_command turn_id (top_sequence n.task_id s.commands + 1) n in
    if any (λ (t : AgentTurn). t.id == turn_id && t.task_id == n.task_id) s.turns
    then (record s { commands = s.commands ++ command ∷ [] }, appended command true)
    else (s, unknown_turn)

unfoldable pub append_or_return :
    String → String → Option CommandInbox → NewCommand → Inbox → Inbox × Appended
append_or_return fresh_turn fresh_command none n s =
    insert_command fresh_turn fresh_command n.turn_id n s
append_or_return fresh_turn fresh_command (some existing) n s = (s, appended existing false)

unfoldable pub append_command : String → String → NewCommand → Inbox → Inbox × Appended
append_command fresh_turn fresh_command n s =
    if any (λ t. t == n.task_id) s.task_ids
    then append_or_return fresh_turn fresh_command
        (find? (has_key n.task_id n.idempotency_key) s.commands) n s
    else (s, unknown_task)

abbrev pub command_id : CommandInbox → String
command_id c = c.id

abbrev pub is_unset : Option ℕ → Bool
is_unset none = true
is_unset (some t) = false

-- An UPDATE of the command with primary key `k` where `test` holds, and its `bool(rowcount)`.
unfoldable pub update_row :
    (CommandInbox → Bool)
    → (CommandInbox → CommandInbox)
    → String
    → Option CommandInbox
    → Inbox
    → Inbox × Bool
update_row test f k none s = (s, false)
update_row test f k (some c) s =
    if test c then (record s { commands = modify command_id k f s.commands }, true) else (s, false)

unfoldable pub update_command :
    (CommandInbox → Bool) → (CommandInbox → CommandInbox) → String → Inbox → Inbox × Bool
update_command test f k s = update_row test f k (lookup command_id k s.commands) s

abbrev pub delivered_to : CommandInbox → String → Bool
delivered_to c e = elim c.delivery_execution_id [ none ↦ false | some o ↦ o == e ]

abbrev pub deliver : String → ℕ → CommandInbox → CommandInbox
deliver execution_id now c = record c {
  disposition = "delivered";
  delivery_execution_id = some execution_id;
  delivered_at = some now;
}

abbrev pub can_consume : Option String → CommandInbox → Bool
can_consume none c = is_unset c.consumed_at
can_consume (some e) c = is_unset c.consumed_at && delivered_to c e

unfoldable pub consume_command : String → Option String → ℕ → Inbox → Inbox × Bool
consume_command k execution_id now s =
    update_command (can_consume execution_id)
      (λ c. record c { disposition = "applied"; consumed_at = some now }) k s

unfoldable pub mark_command_delivered : String → String → ℕ → Inbox → Inbox × Bool
mark_command_delivered k execution_id now s =
    update_command (λ c. is_unset c.consumed_at) (deliver execution_id now) k s

-- `delivered_at < cutoff` with `cutoff = now - max(1, lease_seconds)`
abbrev pub is_stale : ℕ → ℕ → Option ℕ → Bool
is_stale seconds now none = true
is_stale seconds now (some t) = ltb (t + max_of 1 seconds) now

abbrev pub can_deliver : String → ℕ → ℕ → CommandInbox → Bool
can_deliver execution_id seconds now c =
    is_unset c.consumed_at
    && (c.disposition == "pending"
        || c.disposition == "transfer_pending"
        || delivered_to c execution_id
        || is_stale seconds now c.delivered_at)

unfoldable pub claim_command_delivery : String → String → ℕ → ℕ → Inbox → Inbox × Bool
claim_command_delivery k execution_id seconds now s =
    update_command (can_deliver execution_id seconds now) (deliver execution_id now) k s

unfoldable pub heartbeat_command_delivery : String → String → ℕ → Inbox → Inbox × Bool
heartbeat_command_delivery k execution_id now s =
    update_command (λ c. delivered_to c execution_id && is_unset c.consumed_at)
      (λ c. record c { delivered_at = some now }) k s

abbrev transferred : Option String → CommandInbox → CommandInbox
transferred none c = record c { disposition = "transfer_pending"; delivery_execution_id = none }
transferred (some mode) c = record c {
  disposition = "transfer_pending";
  delivery_execution_id = none;
  delivery_mode = mode;
}

unfoldable pub mark_command_transfer_pending : String → Option String → Inbox → Inbox × Bool
mark_command_transfer_pending k delivery_mode s =
    update_command (λ c. is_unset c.consumed_at) (transferred delivery_mode) k s
