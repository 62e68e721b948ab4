-- ===== src/Dispatch/Attempt.antt =====
-- server/lingxilearn/runtime/dispatch: `Dispatcher.run` (dispatcher.py), the outcomes of policy.py and
-- the door to the ledger of scheduler.py. A provider is not modelled: its answer is an argument, as are
-- the clock, the fresh identifiers, the facts that the completion check reads, and the calls on the ledger
-- that come between the claim and the end of the attempt, the attempt's own heartbeats among them. The
-- sentences of outcomes and the events for the client are left out, as is a cancellation of the coroutine.
use lingxi_learn.Prelude.{
  ℕ, String, Bool, true, false, ◌&&◌, ◌||◌, not, Option, none, some, List, [], ◌==◌, if◌then◌else◌,
}
use lingxi_learn.WorkLedger.{WorkStatus, succeeded, failed, incomplete, WorkItem, Ledger}
use lingxi_learn.WorkLedger.Leases.{claim_work_item}
use lingxi_learn.WorkLedger.Settle.{Report, finish_work}
use lingxi_learn.WorkLedger.Machine.{LedgerOp, run_all}
use lingxi_learn.Outbox.{FactSnapshot, save_fact_snapshot}
use lingxi_learn.Completion.{DoneCondition, CompletionContext, evaluate_task}
use lingxi_learn.Dispatch.Binding.{
  SkillRow, CandidateKey, Resolution, Binding, unbound, ambiguous, bound, Request, resolve,
}

-- The statuses that an attempt gives; `skipped` is never one.
pub data OutcomeStatus : Type 0 where
  completed incomplete_run failed_run blocked_run : OutcomeStatus

pub record TaskOutcome : Type 0 where
  pub task_id : String
  pub capability : String
  pub provider : String
  pub skill_id : String
  pub status : OutcomeStatus
  pub satisfied : Bool
  pub evidence_ids : List String
  pub artifacts : List String
  pub tokens_used : ℕ
  pub duration_ms : ℕ
  pub heavy : Bool
  pub held : Bool

-- what an attempt reads of its PlannedTask
pub record AttemptTask : Type 0 where
  pub id : String
  pub capability : String
  pub candidate_id : String
  pub knowledge_point_id : String
  pub heavy_artifact : Bool
  pub done_when : Option DoneCondition

pub record ProviderResult : Type 0 where
  pub status : String
  pub schema_id : String
  pub detail : String
  pub artifacts : List String
  pub tokens_used : ℕ

-- `missing`: the provider is gone since the binding; `declined`: a ProviderError; `crashed`: another
-- exception, both with their text; `broken`: an exception of the runner's begin, of _persist or of
-- _check_done, which `run` does not catch.
pub data Answer : Type 0 where
  missing broken : Answer
  declined crashed : String → Answer
  returned : ProviderResult → Answer

-- What comes from outside during one attempt. `meanwhile` has the heartbeats of start_heartbeat too.
pub record World : Type 0 where
  pub claimed_at : ℕ
  pub meanwhile : List LedgerOp
  pub answer : Answer
  pub evidence_ids : List String
  pub duration_ms : ℕ
  pub facts : CompletionContext
  pub result_id : String
  pub snapshot_id : String
  pub snapshot_facts : Bool → String

pub record Dispatcher : Type 0 where
  pub owner : String
  pub digest : CandidateKey → String
  pub skills : List SkillRow
  pub available : String → Bool

abbrev pub request_of : Dispatcher → AttemptTask → Request
request_of d t = record {
  capability = t.capability;
  selected_candidate_id = t.candidate_id;
  knowledge_point_id = t.knowledge_point_id;
  provider_available = some d.available;
}

abbrev pub blocked_outcome : AttemptTask → String → String → TaskOutcome
blocked_outcome t provider skill_id = record {
  task_id = t.id;
  capability = t.capability;
  provider = provider;
  skill_id = skill_id;
  status = blocked_run;
  satisfied = false;
  evidence_ids = [];
  artifacts = [];
  tokens_used = 0;
  duration_ms = 0;
  heavy = false;
  held = false;
}

abbrev pub failure_outcome : AttemptTask → Resolution → ℕ → TaskOutcome
failure_outcome t r duration_ms = record (blocked_outcome t r.provider r.skill_id) {
  status = failed_run;
  duration_ms = duration_ms;
  heavy = t.heavy_artifact;
}

abbrev pub is_empty : List String → Bool
is_empty [] = true
is_empty _ = false

abbrev pub is_held : ProviderResult → Bool → Bool
is_held result satisfied = not (is_empty result.artifacts) && satisfied

abbrev pub success_outcome :
    AttemptTask → Resolution → ProviderResult → Bool → List String → ℕ → Bool → TaskOutcome
success_outcome t r result satisfied evidence_ids duration_ms held = record {
  task_id = t.id;
  capability = t.capability;
  provider = r.provider;
  skill_id = r.skill_id;
  status = if satisfied then completed else incomplete_run;
  satisfied = satisfied;
  evidence_ids = evidence_ids;
  artifacts = result.artifacts;
  tokens_used = result.tokens_used;
  duration_ms = duration_ms;
  heavy = t.heavy_artifact;
  held = held;
}

abbrev pub ledger_status_for : Bool → WorkStatus
ledger_status_for satisfied = if satisfied then succeeded else incomplete

abbrev pub failure_report : String → String → Report
failure_report summary error_code = record {
  schema_id = "";
  safe_summary = summary;
  artifact_refs = [];
  evidence_refs = [];
  usage = record { tokens = 0; heavy = 0; wall_ms = 0 };
  output_payload = "{}";
  error_code = error_code;
}

abbrev pub success_report : ProviderResult → World → Report
success_report result w = record {
  schema_id = result.schema_id;
  safe_summary = result.detail;
  artifact_refs = result.artifacts;
  evidence_refs = w.evidence_ids;
  usage = record {
    tokens = result.tokens_used;
    heavy = if is_empty result.artifacts then 0 else 1;
    wall_ms = w.duration_ms;
  };
  output_payload = "{}";
  error_code = "";
}

-- `str(result.status or "completed").casefold() in {…}`, for a status that is lower case already
abbrev pub is_success : String → Bool
is_success s = s == "" || s == "completed" || s == "success" || s == "succeeded" || s == "ok"

unfoldable pub check_done : AttemptTask → ProviderResult → World → Bool
check_done t result w =
    evaluate_task t.done_when (record (w.facts) { result = is_success result.status })

-- What the attempt leaves: the ledger, the fact snapshots and the outcome, which an exception leaves out.
pub record Attempted : Type 0 where
  pub ledger : Ledger
  pub snapshots : List FactSnapshot
  pub outcome : Option TaskOutcome

abbrev pub attempted : Ledger → List FactSnapshot → TaskOutcome → Attempted
attempted db snapshots outcome = record {
  ledger = db;
  snapshots = snapshots;
  outcome = some outcome;
}

abbrev pub snapshot_of : WorkItem → ProviderResult → Bool → World → FactSnapshot
snapshot_of item result satisfied w = record {
  id = w.snapshot_id;
  task_id = item.task_id;
  turn_id = item.turn_id;
  plan_revision = item.plan_revision;
  facts = w.snapshot_facts satisfied;
  evidence_refs = w.evidence_ids;
  artifact_refs = result.artifacts;
}

-- `scheduler.finish`, if the attempt is backed by a ledger row
unfoldable pub finish_if_claimed :
    Dispatcher → Option WorkItem → WorkStatus → Report → World → Ledger → Ledger
finish_if_claimed d none status report w db = db
finish_if_claimed d (some item) status report w db =
    (finish_work item.id d.owner status (some report) w.result_id db).0

abbrev pub snapshot_if_claimed :
    Option WorkItem → ProviderResult → Bool → World → List FactSnapshot → List FactSnapshot
snapshot_if_claimed none result satisfied w rows = rows
snapshot_if_claimed (some item) result satisfied w rows =
    (save_fact_snapshot (snapshot_of item result satisfied w) rows).0

-- The attempt once its skill is bound.
unfoldable pub execute :
    Dispatcher
    → AttemptTask
    → World
    → Option WorkItem
    → Resolution
    → Answer
    → Ledger
    → List FactSnapshot
    → Attempted
execute d t w claimed r broken db rows = record { ledger = db; snapshots = rows; outcome = none }
execute d t w claimed r missing db rows =
    attempted
      (finish_if_claimed d claimed failed
        (failure_report "provider is not implemented" "provider_missing") w db)
      rows (blocked_outcome t r.provider r.skill_id)
execute d t w claimed r (declined detail) db rows =
    attempted (finish_if_claimed d claimed failed (failure_report detail "provider_error") w db)
      rows (failure_outcome t r w.duration_ms)
execute d t w claimed r (crashed detail) db rows =
    attempted (finish_if_claimed d claimed failed (failure_report detail "provider_failed") w db)
      rows (failure_outcome t r w.duration_ms)
execute d t w claimed r (returned result) db rows =
    let satisfied = check_done t result w in
    attempted
      (finish_if_claimed d claimed (ledger_status_for satisfied) (success_report result w) w db)
      (snapshot_if_claimed claimed result satisfied w rows)
      (success_outcome t r result satisfied w.evidence_ids w.duration_ms (is_held result satisfied))

-- The rest of `run` after the claim, if any.
unfoldable pub attempt :
    Dispatcher
    → AttemptTask
    → World
    → Option WorkItem
    → Binding
    → Ledger
    → List FactSnapshot
    → Attempted
attempt d t w claimed unbound db rows =
    attempted
      (finish_if_claimed d claimed failed (failure_report "no enabled skill" "no_provider") w
        (run_all w.meanwhile db))
      rows (blocked_outcome t "" "")
attempt d t w claimed ambiguous db rows =
    attempted
      (finish_if_claimed d claimed failed (failure_report "ambiguous candidate" "no_provider") w
        (run_all w.meanwhile db))
      rows (blocked_outcome t "" "")
attempt d t w claimed (bound r) db rows =
    execute d t w claimed r w.answer (run_all w.meanwhile db) rows

abbrev pub after_claim :
    Dispatcher → AttemptTask → World → Ledger × Option WorkItem → List FactSnapshot → Attempted
after_claim d t w (db, none) rows = attempted db rows (blocked_outcome t "" "")
after_claim d t w (db, some item) rows =
    attempt d t w (some item) (resolve d.digest (request_of d t) d.skills) db rows

-- `work_id` is "" for a task without a ledger row; a lease lasts the 60 seconds of the default.
unfoldable pub run :
    Dispatcher → AttemptTask → String → World → Ledger → List FactSnapshot → Attempted
run d t work_id w db rows =
    if work_id == ""
    then attempt d t w none (resolve d.digest (request_of d t) d.skills) db rows
    else after_claim d t w (claim_work_item work_id d.owner 60 w.claimed_at db) rows
