-- ===== src/Guardrails/Tests.antt =====
-- A small plan and its screening, and instances of the theorems about them.
use mathlib.Core.List.{Memᴰ}
use lingxi_learn.Prelude.{
  ◌-◌, ◌≤◌, String, ◌≡◌, refl, Bool, true, false, none, List, [], ◌∷◌, is_some,
}
use lingxi_learn.Prelude.Int.{pos, negsuc}
use lingxi_learn.Prelude.Tables.{any, take, length, lookup, sum_by}
use lingxi_learn.Capabilities.{info, parse, strip, strip_left, strip_right, is_space, of_value}
use lingxi_learn.GoalStack.{Goal, current_kind, open_status}
use lingxi_learn.Guardrails.{
  exhausted, spend_step, check_plan, screen, judge, known_info, objection, is_allow_listed,
  is_provided, task_deviates, limit_hold, limit_holds, apply_hold_policy, verdict, finding,
  capability_not_allowed, Budget, SkillRow, PlannedTask, OrchestrationPlan, Screening, HoldDecision,
  hold_decision, revise, Hold,
}
use lingxi_learn.Guardrails.Screen.{
  heavy_one, talk_one, IsPermitted, check_plan-IsPermitted, check_plan-counts,
}
use lingxi_learn.Guardrails.Holds.{IsLimited, apply_hold_policy-IsLimited}

abbrev goal : Goal
goal = record {
  goal_type = "learn";
  topic = "DNS";
  id = "g";
  kind = current_kind;
  knowledge_points = "dns" ∷ [];
  expected_outcome = "";
  constraints = [];
  urgency = 500;
  status = open_status;
  satisfied_when = "{}";
  created_by = "goal_interpreter";
  raw_utterance = "";
  pushed_at = 7;
}

abbrev budget : Budget
budget = record {
  steps_used = 0;
  max_steps = 1;
  replans_used = 0;
  max_replans = 6;
  tokens_used = 0;
  token_budget = 400000;
  wall_ms_used = 0;
  wall_ms_budget = 1800000;
  heavy_artifacts_used = 0;
  max_heavy_artifacts = 6;
  forged_skills_used = 0;
  max_forged_skills = 1;
}

abbrev skill : SkillRow
skill = record {
  enabled = true;
  provider = "tutor";
  capabilities = "teach.explain" ∷ "content.deck" ∷ [];
}

abbrev task : String → Bool → PlannedTask
task capability heavy = record {
  id = capability;
  capability = capability;
  rationale = "next";
  heavy_artifact = heavy;
  knowledge_point_id = "dns";
}

abbrev plan : OrchestrationPlan
plan = record {
  tasks = task "teach.explain" false ∷ task "graph.build" false ∷ [];
  awaits_user = false;
  negotiation = "";
}

abbrev screening : Screening
screening = record {
  goal = goal;
  budget = budget;
  skills = skill ∷ [];
  requested_capabilities = [];
  confirmed_actions = [];
  settings_allow_list = none;
}

plan_run :
    check_plan plan screening
    ≡ verdict
        (finding capability_not_allowed "graph.build" ∷ [])
        (task "teach.explain" false ∷ [])
        false
unfolding check_plan exhausted screen judge known_info objection parse of_value strip strip_left
    strip_right is_space is_allow_listed is_provided any take task_deviates info
plan_run = refl

explain_allowed : Memᴰ (task "teach.explain" false) (check_plan plan screening).allowed_tasks
explain_allowed = rw plan_run (Memᴰ.head refl)

check_plan-IsPermitted_example : IsPermitted screening plan.negotiation (task "teach.explain" false)
check_plan-IsPermitted_example =
    check_plan-IsPermitted plan screening (task "teach.explain" false) explain_allowed

spent : is_some (exhausted (spend_step true (pos 5) (negsuc 0) budget)) ≡ true
unfolding exhausted spend_step
spent = refl

check_plan-counts_example :
    (length (check_plan plan screening).allowed_tasks ≤ 3)
    × (sum_by (λ t. talk_one (known_info screening t)) (check_plan plan screening).allowed_tasks
        ≤ 1)
    × (sum_by heavy_one (check_plan plan screening).allowed_tasks ≤ 6 - 0)
check_plan-counts_example = check_plan-counts plan screening

abbrev revision : HoldDecision
revision = hold_decision "t" revise "shorter"

abbrev holds : List Hold
holds = record { task_key = "t"; revisions = 1 } ∷ []

hold_run : apply_hold_policy (revision ∷ []) holds budget false ≡ revision ∷ []
unfolding apply_hold_policy limit_holds limit_hold lookup exhausted strip strip_left strip_right
    is_space
hold_run = refl

apply_hold_policy-IsLimited_example : IsLimited holds budget false revision
apply_hold_policy-IsLimited_example =
    apply_hold_policy-IsLimited (revision ∷ []) holds budget false revision
      (rw hold_run (Memᴰ.head refl)) refl
