-- ===== src/WorkLedger/Tests.antt =====
-- A small ledger and a small queue, and instances of the theorems about them.
use mathlib.Core.List.{Memᴰ}
use lingxi_learn.Prelude.{
  inl, inr, ℕ, ◌-◌, ◌<◌, String, ◌≡◌, ◌≢◌, refl, true, false, Option, none, some, List, [], ◌∷◌,
  ◌++◌, arith, eq_iff,
}
use lingxi_learn.Prelude.Int.{pos}
use lingxi_learn.Prelude.Tables.{
  take, any, all, filter, find?, lookup, modify, modify_first, sum_by,
}
use lingxi_learn.WorkLedger.{
  WorkStatus, queued, leased, succeeded, cancelled, incomplete, WorkItem, BudgetLedger, AgentTurn,
  Ledger, item_of,
}
use lingxi_learn.WorkLedger.Leases.{
  claim_work_item, claim_row, lease_row, lease, all_succeeded, dependency_states, dependency_ids,
  take_lease, recover_row, any_dead,
}
use lingxi_learn.WorkLedger.Leases.Claim.{IsGranted, claim_work_item-IsGranted}
use lingxi_learn.WorkLedger.Settle.{
  Report, plan_of, empty_row, finish_work, cancel_work, finish_row, store_result, cancel_row,
}
use lingxi_learn.WorkLedger.Settle.Budget.{cancel_work-double}
use lingxi_learn.WorkLedger.Plans.{
  WorkRequest, Limits, Plan, created, create_work_plan, submit, commit_plan, reserve, with_row,
  reservation_of, is_positive, new_items, new_item, new_snapshots,
}
use lingxi_learn.WorkLedger.Plans.Budget.{IsWithin, create_work_plan-IsWithin}
use lingxi_learn.WorkLedger.Machine.{run, finish, claim_item, recover, cancel, heartbeat}
use lingxi_learn.WorkLedger.Machine.Sessions.{
  Sessions, Step, call, commit_at, move, move_all, begin, write, nth, without, expired_rows,
  recover_each,
}
use lingxi_learn.WorkLedger.Machine.Kept.{move_all-final, move_all-leased}
use lingxi_learn.WorkLedger.Commands.{
  CommandInbox, Inbox, NewCommand, appended, append_command, append_or_return, insert_command,
  next_turn_index, top_sequence, new_command, update_command, update_row, consume_command,
  claim_command_delivery, mark_command_delivered, heartbeat_command_delivery,
  mark_command_transfer_pending,
}
use lingxi_learn.WorkLedger.Commands.Queue.{
  append_command-again, append_command-ordered, consume_command-once,
  claim_command_delivery-exclusive,
}

abbrev item : String → WorkStatus → Option String → Option ℕ → WorkItem
item id status owner until = record {
  id = id;
  task_id = "t";
  turn_id = "u";
  work_key = id;
  plan_revision = 1;
  candidate_id = "";
  capability = "teach.explain";
  skill_id = "s";
  skill_version = "1";
  skill_checksum = "c";
  provider = "tutor";
  knowledge_point_id = "dns";
  input_payload = "{}";
  status = status;
  idempotency_key = id;
  attempts = 0;
  lease_owner = owner;
  lease_until = until;
  confirmation_digest = none;
  confirmed_at = none;
  result_id = none;
  reserved_tokens = 10;
  reserved_heavy = 0;
  reserved_wall_ms = 20;
}

abbrev turn : AgentTurn
turn = record {
  id = "u";
  task_id = "t";
  turn_index = 0;
  status = "active";
  phase = "planning";
  goal_status = "open";
  execution_mode = "normal";
  revision = 0;
  input_payload = "{}";
}

abbrev plan_row : BudgetLedger
plan_row = record (empty_row "b" "t" "u" 1) { reserved_tokens = 30; reserved_wall_ms = 60 }

abbrev ledger : List WorkItem → Ledger
ledger items = record {
  task_ids = "t" ∷ [];
  turns = turn ∷ [];
  items = items;
  dependencies = record { work_id = "w"; depends_on_id = "v" } ∷ [];
  ledgers = plan_row ∷ [];
  results = [];
  snapshots = [];
}

abbrev done_item : WorkItem
done_item = item "v" succeeded none none

abbrev queued_item : WorkItem
queued_item = item "w" queued none none

abbrev leased_item : WorkItem
leased_item = item "w" leased (some "a") (some 50)

abbrev queued_db : Ledger
queued_db = ledger (done_item ∷ queued_item ∷ [])

abbrev leased_db : Ledger
leased_db = ledger (done_item ∷ leased_item ∷ [])

abbrev claimed : WorkItem
claimed = take_lease "a" 35 queued_item

claim_run :
    claim_work_item "w" "a" 30 5 queued_db
    ≡ (record queued_db { items = done_item ∷ claimed ∷ [] }, some claimed)
unfolding claim_work_item claim_row lease_row lease all_succeeded dependency_states dependency_ids
    lookup modify any all filter
claim_run = refl

claim_work_item-IsGranted_example :
    IsGranted "w" "a" 30 5 queued_db (record queued_db { items = done_item ∷ claimed ∷ [] }) claimed
claim_work_item-IsGranted_example =
    claim_work_item-IsGranted "w" "a" 30 5 queued_db
      (record queued_db { items = done_item ∷ claimed ∷ [] }) claimed claim_run

leased_found : item_of "w" leased_db.items ≡ some leased_item
unfolding lookup
leased_found = refl

done_found : item_of "v" leased_db.items ≡ some done_item
unfolding lookup
done_found = refl

plan_found : find? (plan_of leased_item) leased_db.ledgers ≡ some plan_row
unfolding find?
plan_found = refl

abbrev report : Report
report = record {
  schema_id = "task-result";
  safe_summary = "explained";
  artifact_refs = [];
  evidence_refs = [];
  usage = record { tokens = 7; heavy = 0; wall_ms = 15 };
  output_payload = "{}";
  error_code = "";
}

abbrev idle : Ledger → Sessions
idle db = record { ledger = db; pending = [] }

abbrev later_steps : List Step
later_steps =
    call (recover 10 90)
    ∷ call (cancel "t" "v")
    ∷ call (claim_item "v" "b" 30 60)
    ∷ commit_at 0
    ∷ commit_at 0
    ∷ []

move_all-final_example :
    item_of "v" (move_all later_steps (idle leased_db)).ledger.items ≡ some done_item
unfolding any
move_all-final_example =
    move_all-final "v" done_item later_steps (idle leased_db) refl refl done_found

b_ne_a : ◌≢◌ {A = String} "b" "a"
b_ne_a e = ground (arith, (eq_iff "b" "a").1 e)

v_ne_w : ◌≢◌ {A = String} "v" "w"
v_ne_w e = ground (arith, (eq_iff "v" "w").1 e)

-- A heartbeat of another owner and a recovery overlap; the owner cancels nothing and ends another item.
abbrev foreign_steps : List Step
foreign_steps =
    call (heartbeat "w" "b" 30 20)
    ∷ call (recover 10 50)
    ∷ call (claim_item "w" "b" 30 20)
    ∷ call (cancel "t" "v")
    ∷ call (finish "v" "a" succeeded none "r")
    ∷ commit_at 1
    ∷ commit_at 0
    ∷ commit_at 0
    ∷ commit_at 0
    ∷ []

move_all-leased_example :
    item_of "w" (move_all foreign_steps (idle leased_db)).ledger.items ≡ some leased_item
unfolding any
move_all-leased_example =
    move_all-leased "w" "a" 50 leased_item foreign_steps (idle leased_db) refl refl refl
      (inl b_ne_a, (omega arith, (omega arith, (v_ne_w, (inr v_ne_w, (tt, (tt, (tt, (tt, tt)))))))))
      refl leased_found

-- A recovery that read the item before its lease was renewed by a claim takes the live lease away.
abbrev racing : List Step
racing = call (recover 10 60) ∷ call (claim_item "w" "b" 30 60) ∷ commit_at 0 ∷ []

recovered_late :
    item_of "w" (move_all racing (idle leased_db)).ledger.items
    ≡ some (record queued_item { attempts = 1 })
unfolding move_all move begin write nth without expired_rows recover_each run claim_work_item
    claim_row lease_row lease all_succeeded dependency_states dependency_ids recover_row any_dead
    take lookup modify any all filter
recovered_late = refl

-- A cancellation that read the item before it ended overwrites its success.
abbrev late_cancel : List Step
late_cancel =
    call (finish "w" "a" succeeded none "r")
    ∷ call (cancel "t" "w")
    ∷ commit_at 1
    ∷ commit_at 0
    ∷ []

cancelled_late :
    item_of "w" (move_all late_cancel (idle leased_db)).ledger.items
    ≡ some (record leased_item { status = cancelled; lease_owner = none; lease_until = none })
unfolding move_all move begin write nth without finish_row store_result cancel_row lookup modify any
    filter modify_first
cancelled_late = refl

cancel_work-double_example :
    let done = (finish_work "w" "a" incomplete (some report) "r" leased_db).0 in
    (after : BudgetLedger) × ((cancel_work "t" "w" done).1 ≡ true)
    × (find? (plan_of leased_item) (cancel_work "t" "w" done).0.ledgers ≡ some after)
    × (after.reserved_tokens ≡ 30 - 10 - 10)
cancel_work-double_example =
    cancel_work-double "w" "a" "r" report leased_db leased_item plan_row leased_found refl refl
      plan_found

abbrev request : WorkRequest
request = record {
  id = "x";
  work_key = "";
  candidate_id = "c1";
  capability = "teach.explain";
  skill_id = "s";
  skill_version = "1";
  skill_checksum = "c";
  provider = "tutor";
  knowledge_point_id = "dns";
  input_payload = "{}";
  idempotency_key = "k";
  status = none;
  reserved_tokens = 10;
  reserved_heavy = 0;
  reserved_wall_ms = 20;
  confirmation_digest = "";
}

abbrev limits : Limits
limits = record { token_budget = pos 100; max_heavy_artifacts = pos 1; wall_ms_budget = pos 500 }

abbrev new_plan : Plan
new_plan = record {
  task_id = "t";
  turn_id = "u";
  expected_revision = 0;
  items = request ∷ [];
  dependencies = [];
  budget = some limits;
}

abbrev fresh : ℕ → String
fresh n = "f"

abbrev planned : Ledger
planned = (create_work_plan fresh new_plan queued_db).0

abbrev planned_items : List WorkItem
planned_items = new_items fresh 1 "t" "u" 1 (request ∷ [])

plan_run : create_work_plan fresh new_plan queued_db ≡ (planned, created 1 planned_items)
unfolding create_work_plan submit commit_plan reserve with_row reservation_of new_items new_item
    new_snapshots any find? modify_first sum_by
plan_run = refl

create_work_plan-IsWithin_example : IsWithin "t" limits planned.ledgers
create_work_plan-IsWithin_example =
    create_work_plan-IsWithin fresh new_plan limits queued_db planned 1 planned_items refl positive
      plan_run
  where
    positive : is_positive (reservation_of new_plan.items) ≡ true
    positive = unfold reservation_of sum_by in refl

abbrev command : NewCommand
command = record {
  task_id = "t";
  kind = "message";
  payload = "{}";
  idempotency_key = "k1";
  turn_id = none;
  delivery_mode = "turn";
}

abbrev inbox : Inbox
inbox = record { task_ids = "t" ∷ []; turns = turn ∷ []; commands = [] }

abbrev row : CommandInbox
row = new_command "c1" "u2" 1 command

abbrev appended_inbox : Inbox
appended_inbox = (append_command "u2" "c1" command inbox).0

append_run : append_command "u2" "c1" command inbox ≡ (appended_inbox, appended row true)
unfolding append_command append_or_return insert_command next_turn_index top_sequence any find?
append_run = refl

append_command-again_example :
    append_command "u3" "c2" command appended_inbox ≡ (appended_inbox, appended row false)
append_command-again_example =
    append_command-again "u2" "c1" "u3" "c2" command command inbox appended_inbox row true
      append_run refl refl

append_command-ordered_example :
    (appended_inbox.commands ≡ inbox.commands ++ row ∷ [])
    × (row.task_id ≡ "t")
    × ((old : CommandInbox)
        → Memᴰ old inbox.commands
        → old.task_id ≡ "t"
        → old.sequence < row.sequence)
append_command-ordered_example =
    append_command-ordered "u2" "c1" command inbox appended_inbox row append_run

abbrev one_row : Inbox
one_row = record inbox { commands = row ∷ [] }

abbrev consumed : Inbox
consumed = (consume_command "c1" none 9 one_row).0

consume_run : consume_command "c1" none 9 one_row ≡ (consumed, true)
unfolding consume_command update_command update_row lookup modify
consume_run = refl

consume_command-once_example :
    (consume_command "c1" (some "e") 10 consumed ≡ (consumed, false))
    × (mark_command_delivered "c1" "e" 10 consumed ≡ (consumed, false))
    × (claim_command_delivery "c1" "e" 30 10 consumed ≡ (consumed, false))
    × (heartbeat_command_delivery "c1" "e" 10 consumed ≡ (consumed, false))
    × (mark_command_transfer_pending "c1" none consumed ≡ (consumed, false))
consume_command-once_example =
    consume_command-once "c1" none (some "e") "e" none 9 10 30 one_row consumed consume_run

abbrev delivered_inbox : Inbox
delivered_inbox = (claim_command_delivery "c1" "a" 30 9 one_row).0

delivery_run : claim_command_delivery "c1" "a" 30 9 one_row ≡ (delivered_inbox, true)
unfolding claim_command_delivery update_command update_row lookup modify
delivery_run = refl

claim_command_delivery-exclusive_example :
    (claim_command_delivery "c1" "b" 20 20 delivered_inbox ≡ (delivered_inbox, false))
    × (heartbeat_command_delivery "c1" "b" 20 delivered_inbox ≡ (delivered_inbox, false))
    × (consume_command "c1" (some "b") 20 delivered_inbox ≡ (delivered_inbox, false))
claim_command_delivery-exclusive_example =
    claim_command_delivery-exclusive "c1" "a" "b" 30 20 9 20 one_row delivered_inbox delivery_run
      b_ne_a (omega arith)
