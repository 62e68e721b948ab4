-- ===== src/Guardrails/Screen.antt =====
-- What a plan may run: each allowed task meets every rule, and no task is dropped without a finding.
use mathlib.Core.List.{Memᴰ}
use mathlib.Core.Path.{transport}
use lingxi_learn.Prelude.{
  ℕ, zero, suc, ◌-◌, ◌≤◌, String, ◌≡◌, ◌≢◌, ◌⊎◌, refl, ap, true, Option, none, some, List, [], ◌∷◌,
  if◌then◌else◌, arith, eq_iff, Option-cases, inl, inr,
}
use lingxi_learn.Prelude.Tables.{take, length, sum_by}
use lingxi_learn.Capabilities.{Capability, CapabilityInfo, info, parse, strip}
use lingxi_learn.Guardrails.{
  exhausted, OrchestrationPlan, Screening, check_plan, PlannedTask, GuardrailVerdict, Violation,
  judge, keep, screen, objection, known_info, is_allow_listed, task_deviates, has_tag, heavy_after,
  talks_after, max_tasks_per_round,
}

-- The rules on one task, which the capability table, the allow-list, the confirmed actions and the
-- plan's negotiation decide.
pub IsPermitted : Screening → String → PlannedTask → Type 0
IsPermitted s negotiation t =
    (c : Capability) × (parse t.capability ≡ some c)
    × (is_allow_listed s t.capability ≡ true)
    × (strip t.rationale ≢ "")
    × ((info c).irreversible ≡ true → has_tag t.capability s.confirmed_actions ≡ true)
    × (task_deviates t s.goal s.requested_capabilities ≡ true → strip negotiation ≢ "")

judge-IsPermitted :
    (s : Screening) (negotiation : String) (heavy talks : ℕ) (t : PlannedTask)
    → judge s negotiation heavy talks t ≡ none
    → IsPermitted s negotiation t
unfolding judge known_info objection IsPermitted
judge-IsPermitted s negotiation heavy talks t e = elim (Option-cases (parse t.capability)) [
  | inl none_e ↦ absurd (ground arith)
  | inr (c, some_e) ↦ (
    c,
    some_e,
    ground arith,
    λ blank. ground (arith, eq_iff (strip t.rationale) ""),
    λ i. ground arith,
    λ d blank. ground (arith, eq_iff (strip negotiation) ""),
  )
]

screen-IsPermitted :
    (s : Screening) (negotiation : String) (heavy talks : ℕ) (ts : List PlannedTask)
    (t : PlannedTask)
    → Memᴰ t (screen s negotiation heavy talks ts).allowed_tasks
    → IsPermitted s negotiation t
unfolding screen
screen-IsPermitted s negotiation heavy talks [] t m = elim m [ ]
screen-IsPermitted s negotiation heavy talks (x ∷ ts) t m =
    go (judge s negotiation heavy talks x) refl
      (screen-IsPermitted s negotiation (heavy_after (judge s negotiation heavy talks x) x heavy)
        (talks_after (known_info s x) talks) ts t)
      m
  where
    h : ℕ
    h = heavy_after (judge s negotiation heavy talks x) x heavy

    k : ℕ
    k = talks_after (known_info s x) talks

    go :
        (v : Option Violation)
        → judge s negotiation heavy talks x ≡ v
        → (Memᴰ t (screen s negotiation h k ts).allowed_tasks → IsPermitted s negotiation t)
        → Memᴰ t (keep v x (screen s negotiation h k ts)).allowed_tasks
        → IsPermitted s negotiation t
    go none e later (Memᴰ.head p) = rw p (judge-IsPermitted s negotiation heavy talks x e)
    go none e later (Memᴰ.tail n) = later n
    go (some v) e later n = later n

abbrev pub heavy_one : PlannedTask → ℕ
heavy_one t = if t.heavy_artifact then 1 else 0

abbrev pub talk_one : Option CapabilityInfo → ℕ
talk_one none = 0
talk_one (some i) = if i.conversational then 1 else 0

screen-counts :
    (s : Screening) (negotiation : String) (heavy talks : ℕ) (ts : List PlannedTask)
    → (length (screen s negotiation heavy talks ts).allowed_tasks ≤ length ts)
      × (sum_by heavy_one (screen s negotiation heavy talks ts).allowed_tasks
          ≤ s.budget.max_heavy_artifacts - heavy)
      × (sum_by (λ t. talk_one (known_info s t)) (screen s negotiation heavy talks ts).allowed_tasks
          ≤ 1 - talks)
unfolding screen sum_by judge objection
screen-counts s negotiation heavy talks [] = ground arith
screen-counts s negotiation heavy talks (x ∷ ts) =
    go (known_info s x) (judge s negotiation heavy talks x) refl refl
      (λ h k. screen-counts s negotiation h k ts)
  where
    go :
        (i : Option CapabilityInfo) (v : Option Violation)
        → known_info s x ≡ i
        → judge s negotiation heavy talks x ≡ v
        → ((h k : ℕ)
            → (length (screen s negotiation h k ts).allowed_tasks ≤ length ts)
              × (sum_by heavy_one (screen s negotiation h k ts).allowed_tasks
                  ≤ s.budget.max_heavy_artifacts - h)
              × (sum_by (λ t. talk_one (known_info s t)) (screen s negotiation h k ts).allowed_tasks
                  ≤ 1 - k))
        → (length
              (keep v x (
                screen s negotiation
                  (heavy_after v x heavy)
                  (talks_after i talks)
                  ts)).allowed_tasks
            ≤ length (x ∷ ts))
          × (sum_by heavy_one
                (keep v x (
                  screen s negotiation
                    (heavy_after v x heavy)
                    (talks_after i talks)
                    ts)).allowed_tasks
              ≤ s.budget.max_heavy_artifacts - heavy)
          × (sum_by
                (λ t. talk_one (known_info s t))
                (keep v x (
                  screen s negotiation
                    (heavy_after v x heavy)
                    (talks_after i talks)
                    ts)).allowed_tasks
              ≤ 1 - talks)
    go none none e f later = absurd (ground arith)
    go none (some v) e f later = ground (arith, later heavy talks)
    go (some i) none e f later =
        ground (arith, later (heavy_after none x heavy) (talks_after (some i) talks))
    go (some i) (some v) e f later = ground (arith, later heavy (talks_after (some i) talks))

abbrev body : OrchestrationPlan → Screening → GuardrailVerdict
body plan s =
    screen s plan.negotiation s.budget.heavy_artifacts_used 0 (take max_tasks_per_round plan.tasks)

check_plan_cases :
    (plan : OrchestrationPlan) (s : Screening)
    → ((check_plan plan s).allowed_tasks ≡ [])
      ⊎ ((check_plan plan s).allowed_tasks ≡ (body plan s).allowed_tasks)
unfolding check_plan
check_plan_cases plan s = elim (Option-cases (exhausted s.budget)) [
  | inl go_on ↦ ground arith
  | inr (v, stop) ↦ ground arith
]

-- Every task that a plan's verdict allows names a known capability, provided by an enabled skill and
-- allowed by the settings, has a rationale that is not blank, is confirmed if it is irreversible,
-- and comes with a negotiation that is not blank if it deviates from the goal.
pub check_plan-IsPermitted :
    (plan : OrchestrationPlan) (s : Screening) (t : PlannedTask)
    → Memᴰ t (check_plan plan s).allowed_tasks
    → IsPermitted s plan.negotiation t
unfolding check_plan
check_plan-IsPermitted plan s t m = elim (check_plan_cases plan s) [
  | inl e ↦ absurd (elim (transport (ap (λ ts. Memᴰ t ts) e) m) [ ])
  | inr e ↦
      screen-IsPermitted s plan.negotiation s.budget.heavy_artifacts_used 0
        (take max_tasks_per_round plan.tasks) t (transport (ap (λ ts. Memᴰ t ts) e) m)
]

length-take_le : {A : Type 0} → (n : ℕ) (xs : List A) → length (take n xs) ≤ n
unfolding take
length-take_le zero xs = omega arith
length-take_le (suc n) [] = omega arith
length-take_le (suc n) (x ∷ xs) = omega (arith, length-take_le n xs)

-- A round runs at most three tasks, at most one conversational task among them, and no more tasks
-- with a heavy artifact than the budget has left.
pub check_plan-counts :
    (plan : OrchestrationPlan) (s : Screening)
    → (length (check_plan plan s).allowed_tasks ≤ 3)
      × (sum_by (λ t. talk_one (known_info s t)) (check_plan plan s).allowed_tasks ≤ 1)
      × (sum_by heavy_one (check_plan plan s).allowed_tasks
          ≤ s.budget.max_heavy_artifacts - s.budget.heavy_artifacts_used)
unfolding sum_by
check_plan-counts plan s =
    let few = length-take_le max_tasks_per_round plan.tasks in
    let counts =
      screen-counts s plan.negotiation s.budget.heavy_artifacts_used 0
        (take max_tasks_per_round plan.tasks) in
    elim (check_plan_cases plan s) [
      | inl e ↦ rw e (ground arith)
      | inr e ↦ rw e (ground (arith, few, counts))
    ]
