-- ===== src/Schedules/Tests.antt =====
-- A daily schedule, and instances of the theorems about it.
use lingxi_learn.Prelude.{ℕ, ◌+◌, ◌≡◌, refl, none, some, List, [], ◌∷◌, arith}
use lingxi_learn.Prelude.Tables.{modify, find?}
use lingxi_learn.Schedules.{
  AgentSchedule, Schedules, ScheduleClaim, lend, new_run, is_due, first_due, claim_due_schedule,
  finish_schedule_claim,
}
use lingxi_learn.Schedules.Slots.{ScheduleOp, claim, handed_out, IsStarted, handed_out-IsStarted}
use lingxi_learn.Schedules.CatchUp.{run_once, IsFirstAfter, run_once-IsFirstAfter}

abbrev schedule : AgentSchedule
schedule = record {
  id = "s";
  learner_id = "l";
  source_task_id = none;
  proposal_id = "p";
  body = "review dns";
  cron = "0 9 * * *";
  timezone = "UTC";
  revokes = "";
  status = "active";
  approval_scope = some "allow";
  approved_at = some 1;
  revoked_at = none;
  next_run_at = some 10;
  last_run_at = none;
  lease_owner = none;
  lease_until = none;
}

abbrev started : Schedules
started = record {
  schedules = schedule ∷ [];
  runs = record (new_run "r" "s" 10) { status = "started" } ∷ [];
}

started-IsStarted : IsStarted "s" 10 started
unfolding IsStarted find?
started-IsStarted = (record (new_run "r" "s" 10) { status = "started" }, refl, refl)

abbrev polls : List ScheduleOp
polls = claim "r2" "w1" 60 12 ∷ claim "r3" "w2" 60 99 ∷ []

handed_out-IsStarted_example : handed_out "s" 10 polls started ≡ 0
handed_out-IsStarted_example = handed_out-IsStarted "s" 10 polls started started-IsStarted

abbrev idle : Schedules
idle = record { schedules = schedule ∷ []; runs = [] }

abbrev lent : Schedules
lent = record { schedules = lend "w" 85 schedule ∷ []; runs = new_run "r" "s" 10 ∷ [] }

abbrev slot : ScheduleClaim
slot = record { schedule_id = "s"; run_id = "r"; scheduled_for = 10 }

poll_run : claim_due_schedule "r" "w" 60 25 idle ≡ (lent, some slot)
unfolding claim_due_schedule first_due is_due find? modify
poll_run = refl

abbrev every_ten : ℕ → ℕ
every_ten t = t + 10

run_once-IsFirstAfter_example :
    (r : ℕ) × (run_once every_ten "r" "w" 25 (some "x") idle
      ≡ (finish_schedule_claim slot "x" (some r) lent, some slot))
    × IsFirstAfter every_ten 25 (every_ten 10) r
run_once-IsFirstAfter_example =
    run_once-IsFirstAfter every_ten "r" "w" "x" 25 idle lent slot (λ t. omega arith) poll_run
