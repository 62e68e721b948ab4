-- ===== src/Schedules.antt =====
-- server/lingxilearn/store/repositories/agent_tasks.py: schedules, the learner's decision on them, and
-- the claim of a due slot; `run_once` of server/lingxilearn/runtime/schedules.py. Times are numbers of
-- seconds; the clock, the fresh identifiers and croniter's next time are arguments; the prompt and the
-- snapshots of a schedule are its `body`. `revokes` is `inputs_snapshot["revokesScheduleId"]` or "".
-- Two pollers are serialised by the row lock, so that the violated unique key is not modelled.
pub mod Slots
pub mod CatchUp
mod Tests
use lingxi_learn.Prelude.{
  ℕ, ◌+◌, String, Bool, true, false, ◌&&◌, ◌||◌, not, Option, none, some, List, [], ◌∷◌, ◌++◌, map,
  ◌==◌, nat_beq, ltb, leb, if◌then◌else◌,
}
use lingxi_learn.Prelude.Tables.{modify, modify_first, find?}

pub record AgentSchedule : Type 0 where
  pub id : String
  pub learner_id : String
  pub source_task_id : Option String
  pub proposal_id : String
  pub body : String
  pub cron : String
  pub timezone : String
  pub revokes : String
  pub status : String
  pub approval_scope : Option String
  pub approved_at : Option ℕ
  pub revoked_at : Option ℕ
  pub next_run_at : Option ℕ
  pub last_run_at : Option ℕ
  pub lease_owner : Option String
  pub lease_until : Option ℕ

pub record ScheduleRun : Type 0 where
  pub id : String
  pub schedule_id : String
  pub scheduled_for : ℕ
  pub execution_id : Option String
  pub status : String

pub record Schedules : Type 0 where
  pub schedules : List AgentSchedule
  pub runs : List ScheduleRun

abbrev pub schedule_id : AgentSchedule → String
schedule_id r = r.id

abbrev pub run_id : ScheduleRun → String
run_id r = r.id

-- `approval_scope IN (…)` and the scope that a new proposal inherits from an active schedule
abbrev pub scope_is : String → Option String → Bool
scope_is scope none = false
scope_is scope (some s) = s == scope

abbrev pub same_text : Option String → Option String → Bool
same_text none none = true
same_text (some a) (some b) = a == b
same_text _ _ = false

unfoldable pub grants : String → Option String → AgentSchedule → Bool
grants learner_id source_task_id r =
    r.learner_id == learner_id
    && r.status == "active"
    && (scope_is "always_allow" r.approval_scope
        || (scope_is "allow_chat" r.approval_scope && same_text r.source_task_id source_task_id))

abbrev pub approve : Option AgentSchedule → ℕ → AgentSchedule → AgentSchedule
approve none now r = r
approve (some prior) now r =
    if r.revokes == ""
    then record r {
      status = "active";
      approval_scope = prior.approval_scope;
      approved_at = some now;
    }
    else r

unfoldable pub create_schedule_proposal : ℕ → AgentSchedule → Schedules → Schedules
create_schedule_proposal now r s =
    let prior = find? (grants r.learner_id r.source_task_id) s.schedules in
    record s { schedules = s.schedules ++ approve prior now r ∷ [] }

-- An answer that was applied or not, and the row's status and scope after it; `bad_decision` is the
-- ValueError.
pub data Decided : Type 0 where
  bad_decision unknown_proposal : Decided
  decided : Bool → String → Option String → Decided

abbrev pub is_decision : String → Bool
is_decision d = d == "allow" || d == "allow_chat" || d == "always_allow" || d == "skip"

abbrev pub is_proposal : String → String → AgentSchedule → Bool
is_proposal proposal_id learner_id r = r.proposal_id == proposal_id && r.learner_id == learner_id

abbrev pub is_undecided : AgentSchedule → Bool
is_undecided r = r.status == "proposed" || r.status == "pending"

abbrev pub revoke : ℕ → AgentSchedule → AgentSchedule
revoke now r = record r { status = "revoked"; revoked_at = some now }

-- the row's status after a decision that is applied
abbrev pub decided_status : String → AgentSchedule → String
decided_status decision r =
    if decision == "skip" then "rejected" else if r.revokes == "" then "active" else "revoked"

abbrev pub revokes_target : String → String → String → AgentSchedule → Bool
revokes_target decision target learner_id r =
    not (decision == "skip") && not (target == "") && r.id == target && r.learner_id == learner_id

abbrev pub apply_decision : String → String → ℕ → AgentSchedule → AgentSchedule → AgentSchedule
apply_decision decision learner_id now row r =
    let r' =
      if r.id == row.id
      then record r {
        approval_scope = some decision;
        approved_at = some now;
        status = decided_status decision row;
      }
      else r in
    if revokes_target decision row.revokes learner_id r then revoke now r' else r'

abbrev pub decide_row : String → String → ℕ → Option AgentSchedule → Schedules → Schedules × Decided
decide_row learner_id decision now none s = (s, unknown_proposal)
decide_row learner_id decision now (some row) s =
    if not (is_undecided row) then (s, decided false row.status row.approval_scope) else (
      record s { schedules = map (apply_decision decision learner_id now row) s.schedules },
      decided true (decided_status decision row) (some decision),
    )

unfoldable pub decide_schedule_permission :
    String → String → String → ℕ → Schedules → Schedules × Decided
decide_schedule_permission proposal_id learner_id decision now s =
    if is_decision decision
    then decide_row learner_id decision now (find? (is_proposal proposal_id learner_id) s.schedules)
        s
    else (s, bad_decision)

abbrev pub revoke_row : ℕ → Option AgentSchedule → Schedules → Schedules × Bool
revoke_row now none s = (s, false)
revoke_row now (some r) s =
    (record s { schedules = modify schedule_id r.id (revoke now) s.schedules }, true)

unfoldable pub revoke_schedule_proposal : String → String → ℕ → Schedules → Schedules × Bool
revoke_schedule_proposal proposal_id learner_id now s =
    revoke_row now (find? (is_proposal proposal_id learner_id) s.schedules) s

-- The condition of the query for due schedules.
abbrev pub at_or_before : Option ℕ → ℕ → Bool
at_or_before none moment = false
at_or_before (some t) moment = leb t moment

abbrev pub lease_free : ℕ → Option ℕ → Bool
lease_free moment none = true
lease_free moment (some until) = ltb until moment

unfoldable pub is_due : ℕ → AgentSchedule → Bool
is_due moment r =
    r.status == "active" && at_or_before r.next_run_at moment && lease_free moment r.lease_until

abbrev pub earlier : AgentSchedule → AgentSchedule → Bool
earlier a b = elim a.next_run_at [
  | none ↦ false
  | some t ↦ elim b.next_run_at [ none ↦ true | some u ↦ ltb t u ]
]

-- ORDER BY next_run_at LIMIT 1
unfoldable pub first_due : ℕ → List AgentSchedule → Option AgentSchedule
first_due moment [] = none
first_due moment (r ∷ rows) =
    let later = first_due moment rows in
    if not (is_due moment r)
    then later
    else elim later [ none ↦ some r | some u ↦ if earlier u r then some u else some r ]

abbrev pub slot_of : AgentSchedule → ℕ
slot_of r = elim r.next_run_at [ none ↦ 0 | some t ↦ t ]

abbrev pub is_slot : String → ℕ → ScheduleRun → Bool
is_slot schedule_id slot r = r.schedule_id == schedule_id && nat_beq r.scheduled_for slot

pub record ScheduleClaim : Type 0 where
  pub schedule_id : String
  pub run_id : String
  pub scheduled_for : ℕ

abbrev pub lend : String → ℕ → AgentSchedule → AgentSchedule
lend owner until r = record r { lease_owner = some owner; lease_until = some until }

abbrev pub unlend : AgentSchedule → AgentSchedule
unlend r = record r { lease_owner = none; lease_until = none }

abbrev pub set_schedule : String → (AgentSchedule → AgentSchedule) → Schedules → Schedules
set_schedule id f s = record s { schedules = modify schedule_id id f s.schedules }

abbrev pub new_run : String → String → ℕ → ScheduleRun
new_run id schedule_id slot = record {
  id = id;
  schedule_id = schedule_id;
  scheduled_for = slot;
  execution_id = none;
  status = "claimed";
}

abbrev pub claim_slot :
    String
    → String
    → ℕ
    → AgentSchedule
    → Option ScheduleRun
    → Schedules
    → Schedules × Option ScheduleClaim
claim_slot fresh owner until r none s = (
  record (set_schedule r.id (lend owner until) s) {
    runs = s.runs ++ new_run fresh r.id (slot_of r) ∷ [];
  },
  some (record { schedule_id = r.id; run_id = fresh; scheduled_for = slot_of r }),
)
claim_slot fresh owner until r (some run) s =
    if run.status == "started" then (set_schedule r.id unlend s, none) else (
      record (set_schedule r.id (lend owner until) s) {
        runs =
            modify_first (is_slot r.id (slot_of r)) (λ x. record x { status = "claimed" }) s.runs;
      },
      some (record { schedule_id = r.id; run_id = run.id; scheduled_for = slot_of r }),
    )

abbrev pub claim_due :
    String → String → ℕ → Option AgentSchedule → Schedules → Schedules × Option ScheduleClaim
claim_due fresh owner until none s = (s, none)
claim_due fresh owner until (some r) s =
    claim_slot fresh owner until r (find? (is_slot r.id (slot_of r)) s.runs) s

unfoldable pub claim_due_schedule :
    String → String → ℕ → ℕ → Schedules → Schedules × Option ScheduleClaim
claim_due_schedule fresh owner lease_seconds moment s =
    claim_due fresh owner (moment + lease_seconds) (first_due moment s.schedules) s

unfoldable pub finish_schedule_claim : ScheduleClaim → String → Option ℕ → Schedules → Schedules
finish_schedule_claim c execution_id next_run_at s = record s {
  runs =
      modify run_id c.run_id
        (λ x. record x { execution_id = some execution_id; status = "started" }) s.runs;
  schedules =
      modify schedule_id c.schedule_id
        (λ r. record (unlend r) { last_run_at = some c.scheduled_for; next_run_at = next_run_at })
        s.schedules;
}
