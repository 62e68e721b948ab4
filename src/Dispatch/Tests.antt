-- ===== src/Dispatch/Tests.antt =====
-- A registry of two skills and a ledger with one queued item, and instances of the theorems about them.
use lingxi_learn.Prelude.{ℕ, String, ◌≡◌, refl, true, false, Option, none, some, List, [], ◌∷◌}
use lingxi_learn.Prelude.Tables.{option_map, modify_first, any, all, filter, lookup, modify}
use lingxi_learn.WorkLedger.{
  item_of, leased, succeeded, WorkStatus, queued, WorkItem, BudgetLedger, AgentTurn, Ledger,
}
use lingxi_learn.WorkLedger.Leases.{
  claim_work_item, claim_row, lease_row, lease, all_succeeded, dependency_states, dependency_ids,
  heartbeat_work, heartbeat_row,
}
use lingxi_learn.WorkLedger.Settle.{empty_row, finish_work, finish_row, store_result}
use lingxi_learn.WorkLedger.Machine
use lingxi_learn.WorkLedger.Machine.{heartbeat, run_all}
use lingxi_learn.Completion.{evaluate_task}
use lingxi_learn.Prelude.Order.{sort_by}
use lingxi_learn.Dispatch.Binding.{
  SkillRow, CandidateKey, Request, resolve, is_match, is_cheaper, resolution_of, candidate_id,
}
use lingxi_learn.Dispatch.Binding.Best.{IsBinding, resolve-IsBinding}
use lingxi_learn.Dispatch.Attempt.{
  AttemptTask, returned, broken, Answer, World, Dispatcher, Attempted, run, attempt, execute,
  finish_if_claimed, check_done,
}

abbrev item : String → WorkStatus → Option String → Option ℕ → WorkItem
item id status owner until = record {
  id = id;
  task_id = "t";
  turn_id = "u";
  work_key = id;
  plan_revision = 1;
  candidate_id = "";
  capability = "teach.explain";
  skill_id = "s";
  skill_version = "1";
  skill_checksum = "c";
  provider = "tutor";
  knowledge_point_id = "dns";
  input_payload = "{}";
  status = status;
  idempotency_key = id;
  attempts = 0;
  lease_owner = owner;
  lease_until = until;
  confirmation_digest = none;
  confirmed_at = none;
  result_id = none;
  reserved_tokens = 10;
  reserved_heavy = 0;
  reserved_wall_ms = 20;
}

abbrev turn : AgentTurn
turn = record {
  id = "u";
  task_id = "t";
  turn_index = 0;
  status = "active";
  phase = "planning";
  goal_status = "open";
  execution_mode = "normal";
  revision = 0;
  input_payload = "{}";
}

abbrev plan_row : BudgetLedger
plan_row = record (empty_row "b" "t" "u" 1) { reserved_tokens = 30; reserved_wall_ms = 60 }

abbrev ledger : List WorkItem → Ledger
ledger items = record {
  task_ids = "t" ∷ [];
  turns = turn ∷ [];
  items = items;
  dependencies = [];
  ledgers = plan_row ∷ [];
  results = [];
  snapshots = [];
}

abbrev skill : String → ℕ → SkillRow
skill id cost = record {
  skill_id = id;
  capabilities = "teach.explain" ∷ [];
  provider = "tutor";
  enabled = true;
  version = "1";
  skill_version = "";
  checksum = "c";
  content_checksum = "";
  latency_weight = cost;
  display_name = id;
  status_line = "";
}

abbrev digest : CandidateKey → String
digest key = key.skill_id

abbrev skills : List SkillRow
skills = skill "slow" 3000 ∷ skill "fast" 500 ∷ []

abbrev request : Request
request = record {
  capability = "teach.explain";
  selected_candidate_id = "";
  knowledge_point_id = "dns";
  provider_available = none;
}

resolve-IsBinding_example : IsBinding digest request skills (resolve digest request skills)
resolve-IsBinding_example = resolve-IsBinding digest request skills

abbrev dispatcher : Dispatcher
dispatcher = record { owner = "a"; digest = digest; skills = skills; available = λ provider. true }

abbrev task : AttemptTask
task = record {
  id = "w";
  capability = "teach.explain";
  candidate_id = "";
  knowledge_point_id = "dns";
  heavy_artifact = false;
  done_when = none;
}

abbrev world : World
world = record {
  claimed_at = 5;
  meanwhile = [];
  answer =
      returned (record {
        status = "ok";
        schema_id = "r";
        detail = "done";
        artifacts = [];
        tokens_used = 7;
      });
  evidence_ids = [];
  duration_ms = 9;
  facts = record {
    artifacts = none;
    evidence = [];
    profile = λ point. none;
    replied = true;
    graded = false;
    result = false;
  };
  result_id = "result";
  snapshot_id = "snapshot";
  snapshot_facts = λ satisfied. "{}";
}

abbrev queued_item : WorkItem
queued_item = item "w" queued none none

abbrev db : Ledger
db = ledger (queued_item ∷ [])

abbrev status_after : Attempted → Option WorkStatus
status_after a = option_map (λ r. r.status) (item_of "w" a.ledger.items)

-- Heartbeats at 25 and 45 seconds; the provider answers at a later time.
abbrev beaten : Answer → World
beaten answer = record world {
  answer = answer;
  meanwhile = heartbeat "w" "a" 60 25 ∷ heartbeat "w" "a" 60 45 ∷ [];
}

run_ends : status_after (run dispatcher task "w" (beaten world.answer) db []) ≡ some succeeded
unfolding run attempt execute finish_if_claimed check_done finish_work finish_row store_result
    heartbeat_work heartbeat_row run_all Machine.run evaluate_task resolve is_match is_cheaper
    sort_by resolution_of candidate_id claim_work_item claim_row lease_row lease all_succeeded
    dependency_states dependency_ids lookup modify modify_first any all filter
run_ends = refl

-- An exception that the attempt does not catch leaves the item under its lease.
run_breaks : status_after (run dispatcher task "w" (beaten broken) db []) ≡ some leased
unfolding run attempt execute finish_if_claimed check_done heartbeat_work heartbeat_row run_all
    Machine.run resolve is_match is_cheaper sort_by resolution_of candidate_id claim_work_item
    claim_row lease_row lease all_succeeded dependency_states dependency_ids lookup modify any all
    filter
run_breaks = refl
