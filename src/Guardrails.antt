-- ===== src/Guardrails.antt =====
-- server/lingxilearn/runtime/guardrails.py and the plan it screens (server/lingxilearn/runtime/contracts.py).
-- The wording of a finding's `detail` is left out; a cost keeps its `heavy_artifact` flag only, the
-- one that the guardrails read. A set of tags is a list. Below: the budget (Budgets), the screened
-- plan (Screen), the hold limits (Holds).
pub mod Budgets
pub mod Screen
pub mod Holds
mod Tests
use lingxi_learn.Prelude.{
  ℕ, ◌+◌, String, Bool, true, false, ◌&&◌, ◌||◌, not, Option, none, some, List, [], ◌∷◌, ◌==◌, ◌++◌,
  map, is_some, ltb, leb, if◌then◌else◌,
}
use lingxi_learn.Prelude.Tables.{any, take, length, filter, lookup}
use lingxi_learn.Prelude.Int.{ℤ, pos_part}
use lingxi_learn.Capabilities.{CapabilityInfo, info, parse, strip}
use lingxi_learn.GoalStack.{Goal}

pub data Violation : Type 0 where
  step_budget replan_budget token_budget time_budget heavy_artifact_cap capability_not_allowed :
      Violation
  missing_rationale missing_negotiation unconfirmed_irreversible empty_plan too_many_tasks :
      Violation

abbrev pub max_tasks_per_round : ℕ
max_tasks_per_round = 3

abbrev pub max_revisions_per_task : ℕ
max_revisions_per_task = 2

abbrev pub max_open_holds : ℕ
max_open_holds = 6

pub record GuardrailFinding : Type 0 where
  pub violation : Violation
  pub task_id : String

abbrev pub finding : Violation → String → GuardrailFinding
finding v task_id = record { violation = v; task_id = task_id }

pub record Budget : Type 0 where
  pub steps_used : ℕ
  pub max_steps : ℕ
  pub replans_used : ℕ
  pub max_replans : ℕ
  pub tokens_used : ℕ
  pub token_budget : ℕ
  pub wall_ms_used : ℕ
  pub wall_ms_budget : ℕ
  pub heavy_artifacts_used : ℕ
  pub max_heavy_artifacts : ℕ
  pub forged_skills_used : ℕ
  pub max_forged_skills : ℕ

unfoldable pub exhausted : Budget → Option Violation
exhausted b =
    if leb b.max_steps b.steps_used
    then some step_budget
    else if leb b.token_budget b.tokens_used
    then some token_budget
    else if leb b.wall_ms_budget b.wall_ms_used
    then some time_budget
    else none

unfoldable pub spend_step : Bool → ℤ → ℤ → Budget → Budget
spend_step heavy tokens wall_ms b = record b {
  steps_used = b.steps_used + 1;
  tokens_used = b.tokens_used + pos_part tokens;
  wall_ms_used = b.wall_ms_used + pos_part wall_ms;
  heavy_artifacts_used = if heavy then b.heavy_artifacts_used + 1 else b.heavy_artifacts_used;
}

unfoldable pub spend_replan : Budget → Budget
spend_replan b = record b { replans_used = b.replans_used + 1 }

unfoldable pub check_replan : Budget → Option GuardrailFinding
check_replan b = if leb b.max_replans b.replans_used then some (finding replan_budget "") else none

-- A row of the skill registry: `enabled` is its value or the default, `provider` is "" when missing.
pub record SkillRow : Type 0 where
  pub enabled : Bool
  pub provider : String
  pub capabilities : List String

abbrev pub has_tag : String → List String → Bool
has_tag tag tags = any (λ t. t == tag) tags

-- `tag in allowed_capabilities(skills)`
unfoldable pub is_provided : List SkillRow → String → Bool
is_provided skills tag =
    any (λ r. r.enabled && not (r.provider == "") && has_tag tag r.capabilities) skills

pub record PlannedTask : Type 0 where
  pub id : String
  pub capability : String
  pub rationale : String
  pub heavy_artifact : Bool
  pub knowledge_point_id : String

-- The negotiation of a plan is "" when it is missing.
pub record OrchestrationPlan : Type 0 where
  pub tasks : List PlannedTask
  pub awaits_user : Bool
  pub negotiation : String

-- the arguments of `check_plan` beside the plan
pub record Screening : Type 0 where
  pub goal : Goal
  pub budget : Budget
  pub skills : List SkillRow
  pub requested_capabilities : List String
  pub confirmed_actions : List String
  pub settings_allow_list : Option (List String)

pub record GuardrailVerdict : Type 0 where
  pub findings : List GuardrailFinding
  pub allowed_tasks : List PlannedTask
  pub fatal : Bool

abbrev pub is_empty {ℓ} : {A : Type ℓ} → List A → Bool
is_empty [] = true
is_empty (x ∷ xs) = false

abbrev pub verdict : List GuardrailFinding → List PlannedTask → Bool → GuardrailVerdict
verdict findings allowed fatal = record {
  findings = findings;
  allowed_tasks = allowed;
  fatal = fatal;
}

unfoldable pub is_allow_listed : Screening → String → Bool
is_allow_listed s tag =
    is_provided s.skills tag
    && elim s.settings_allow_list [ none ↦ true | some tags ↦ has_tag tag tags ]

unfoldable pub task_deviates : PlannedTask → Goal → List String → Bool
task_deviates t goal requested =
    if not (t.knowledge_point_id == "")
      && not (is_empty goal.knowledge_points)
      && not (has_tag t.knowledge_point_id goal.knowledge_points)
    then true
    else not (is_empty requested) && not (has_tag t.capability requested)

-- The first check, which reads the capability alone: the tag's table entry, or the violation.
unfoldable pub known_info : Screening → PlannedTask → Option CapabilityInfo
known_info s t = elim (parse t.capability) [
  | none ↦ none
  | some c ↦ if is_allow_listed s t.capability then some (info c) else none
]

-- The checks after the conversational one, in the source's order.
unfoldable pub objection : Screening → String → ℕ → CapabilityInfo → PlannedTask → Option Violation
objection s negotiation heavy_planned i t =
    if strip t.rationale == ""
    then some missing_rationale
    else if i.irreversible && not (has_tag t.capability s.confirmed_actions)
    then some unconfirmed_irreversible
    else if task_deviates t s.goal s.requested_capabilities && strip negotiation == ""
    then some missing_negotiation
    else if t.heavy_artifact && leb s.budget.max_heavy_artifacts heavy_planned
    then some heavy_artifact_cap
    else none

-- Why a task is dropped, if it is: the body of the loop, in the source's order.
unfoldable pub judge : Screening → String → ℕ → ℕ → PlannedTask → Option Violation
judge s negotiation heavy talks t = elim (known_info s t) [
  | none ↦ some capability_not_allowed
  | some i ↦
      if i.conversational && ltb 0 talks
      then some too_many_tasks
      else objection s negotiation heavy i t
]

abbrev pub keep : Option Violation → PlannedTask → GuardrailVerdict → GuardrailVerdict
keep none t rest = verdict rest.findings (t ∷ rest.allowed_tasks) false
keep (some v) t rest = verdict (finding v t.id ∷ rest.findings) rest.allowed_tasks false

-- `conversational_planned`, which a task that is dropped later counts in too
abbrev pub talks_after : Option CapabilityInfo → ℕ → ℕ
talks_after none talks = talks
talks_after (some i) talks = if i.conversational then talks + 1 else talks

-- `heavy_planned`, which counts the kept tasks
abbrev pub heavy_after : Option Violation → PlannedTask → ℕ → ℕ
heavy_after none t heavy = if t.heavy_artifact then heavy + 1 else heavy
heavy_after (some v) t heavy = heavy

-- The loop over the tasks.
unfoldable pub screen : Screening → String → ℕ → ℕ → List PlannedTask → GuardrailVerdict
screen s negotiation heavy talks [] = verdict [] [] false
screen s negotiation heavy talks (t ∷ ts) =
    let v = judge s negotiation heavy talks t in
    let rest =
      screen s negotiation (heavy_after v t heavy) (talks_after (known_info s t) talks) ts in
    keep v t rest

unfoldable pub check_plan : OrchestrationPlan → Screening → GuardrailVerdict
check_plan plan s = elim (exhausted s.budget) [
  | some v ↦ verdict (finding v "" ∷ []) [] true
  | none ↦
      if is_empty plan.tasks
      then (if plan.awaits_user
          then verdict [] [] false
          else verdict (finding empty_plan "" ∷ []) [] false)
      else let body =
          screen s plan.negotiation s.budget.heavy_artifacts_used 0
            (take max_tasks_per_round plan.tasks) in
        if ltb max_tasks_per_round (length plan.tasks)
        then verdict (finding too_many_tasks "" ∷ body.findings) body.allowed_tasks false
        else body
]

pub data HoldAction : Type 0 where
  revise close : HoldAction

pub record HoldDecision : Type 0 where
  pub task_key : String
  pub action : HoldAction
  pub instruction : String

abbrev pub hold_decision : String → HoldAction → String → HoldDecision
hold_decision k action instruction = record {
  task_key = k;
  action = action;
  instruction = instruction;
}

-- An entry of `board["holds"]`; the keys of a dict are distinct.
pub record Hold : Type 0 where
  pub task_key : String
  pub revisions : ℕ

abbrev pub is_revise : HoldAction → Bool
is_revise revise = true
is_revise close = false

abbrev pub hold_key : Hold → String
hold_key h = h.task_key

abbrev pub decision_key : HoldDecision → String
decision_key d = d.task_key

-- One decision on a hold that exists.
unfoldable pub limit_hold : Budget → Bool → ℕ → HoldDecision → Hold → HoldDecision
limit_hold b satisfied open_holds d h =
    let instruction = strip d.instruction in
    if is_revise d.action && not (instruction == "")
    then (if leb max_revisions_per_task h.revisions
          || is_some (exhausted b)
          || satisfied
          || ltb max_open_holds open_holds
        then hold_decision d.task_key close ""
        else hold_decision d.task_key revise instruction)
    else hold_decision d.task_key close instruction

-- The loop over the decisions, which skips unknown holds.
unfoldable pub limit_holds : Budget → Bool → List Hold → List HoldDecision → List HoldDecision
limit_holds b satisfied holds [] = []
limit_holds b satisfied holds (d ∷ ds) =
    let rest = limit_holds b satisfied holds ds in
    elim (lookup hold_key d.task_key holds) [
      | none ↦ rest
      | some h ↦ limit_hold b satisfied (length holds) d h ∷ rest
    ]

abbrev pub closed : String → HoldDecision
closed k = hold_decision k close ""

unfoldable pub apply_hold_policy : List HoldDecision → List Hold → Budget → Bool → List HoldDecision
apply_hold_policy decisions holds b satisfied =
    let result = limit_holds b satisfied holds decisions in
    if ltb max_open_holds (length holds)
    then map (λ d. closed d.task_key)
        (result
          ++ map (λ h. closed h.task_key)
              (filter (λ h. not (any (λ d. d.task_key == h.task_key) result)) holds))
    else result
