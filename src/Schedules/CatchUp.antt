-- ===== src/Schedules/CatchUp.antt =====
-- One poll of the scheduler: a claimed slot is launched once, and the schedule moves past the clock.
use lingxi_learn.Prelude.{
  ℕ, zero, suc, ◌+◌, ◌-◌, ◌≤◌, ◌<◌, String, ◌≡◌, refl, Option, none, some, leb, if◌then◌else◌,
  arith, Bool-cases, inl, inr,
}
use lingxi_learn.Schedules.{Schedules, ScheduleClaim, claim_due_schedule, finish_schedule_claim}

-- `while next_run <= moment: next_run = next(next_run)`, with fuel; `none` when it runs out.
pub catch_up : (ℕ → ℕ) → ℕ → ℕ → ℕ → Option ℕ
catch_up next moment zero t = none
catch_up next moment (suc fuel) t =
    let rest = catch_up next moment fuel (next t) in if leb t moment then rest else some t

abbrev pub finish_launch :
    ScheduleClaim → String → Option ℕ → Schedules → Schedules × Option ScheduleClaim
finish_launch c execution_id none s = (s, none)
finish_launch c execution_id (some t) s = (finish_schedule_claim c execution_id (some t) s, some c)

-- The end of `run_once`, after the launch: `none` is a launch that failed, whose claim stays until
-- its lease is over.
pub after_launch :
    (ℕ → ℕ) → ℕ → ScheduleClaim → Option String → Schedules → Schedules × Option ScheduleClaim
unfolding catch_up
after_launch next moment c none s = (s, none)
after_launch next moment c (some execution_id) s =
    finish_launch c execution_id (catch_up next moment (suc moment) (next c.scheduled_for)) s

abbrev pub after_poll :
    (ℕ → ℕ)
    → ℕ
    → Option String
    → Schedules × Option ScheduleClaim
    → Schedules × Option ScheduleClaim
after_poll next moment launched (s, none) = (s, none)
after_poll next moment launched (s, some c) = after_launch next moment c launched s

-- `run_once`, which claims with the default lease of 60 seconds.
pub run_once :
    (ℕ → ℕ) → String → String → ℕ → Option String → Schedules → Schedules × Option ScheduleClaim
run_once next fresh owner moment launched s =
    after_poll next moment launched (claim_due_schedule fresh owner 60 moment s)

-- the k-th occurrence after a time
pub occurrence : (ℕ → ℕ) → ℕ → ℕ → ℕ
occurrence next zero t = t
occurrence next (suc k) t = occurrence next k (next t)

-- `r` is the first of the occurrences from `t` on that lies after the clock.
pub IsFirstAfter : (ℕ → ℕ) → ℕ → ℕ → ℕ → Type 0
IsFirstAfter next moment t r =
    (k : ℕ) × (r ≡ occurrence next k t)
    × (moment < r)
    × ((j : ℕ) → j < k → occurrence next j t ≤ moment)

occurrence_step :
    (next : ℕ → ℕ) (moment k t : ℕ)
    → t ≤ moment
    → ((j : ℕ) → j < k → occurrence next j (next t) ≤ moment)
    → (j : ℕ) → j < suc k
    → occurrence next j t ≤ moment
unfolding occurrence
occurrence_step next moment k t late before zero h = late
occurrence_step next moment k t late before (suc j) h = before j (omega arith)

catch_up-IsFirstAfter :
    (next : ℕ → ℕ) (moment : ℕ)
    → ((t : ℕ) → t < next t)
    → (fuel t : ℕ) → moment + 1 - t < fuel
    → (r : ℕ) × (catch_up next moment fuel t ≡ some r) × IsFirstAfter next moment t r
unfolding catch_up IsFirstAfter occurrence
catch_up-IsFirstAfter next moment grows zero t h = absurd (omega arith)
catch_up-IsFirstAfter next moment grows (suc fuel) t h = elim (Bool-cases (leb t moment)) [
  | inl missed ↦
      let late : t ≤ moment = ground arith in
      let (r, e, (k, named, after, before)) =
        catch_up-IsFirstAfter next moment grows fuel (next t) (omega (arith, grows t)) in
      (r, rw missed e, (suc k, named, after, occurrence_step next moment k t late before))
  | inr ahead ↦ (t, rw ahead refl, (0, refl, ground arith, λ j lt. absurd (omega arith)))
]

-- If croniter moves every time forward, a poll that claimed and launched a slot always ends: it
-- records the launch and sets the schedule's next run to the first occurrence that lies after the
-- clock, past all the missed ones.
pub run_once-IsFirstAfter :
    (next : ℕ → ℕ) (fresh owner execution_id : String) (moment : ℕ) (s claimed : Schedules)
    (c : ScheduleClaim)
    → ((t : ℕ) → t < next t)
    → claim_due_schedule fresh owner 60 moment s ≡ (claimed, some c)
    → (r : ℕ) × (run_once next fresh owner moment (some execution_id) s
        ≡ (finish_schedule_claim c execution_id (some r) claimed, some c))
      × IsFirstAfter next moment (next c.scheduled_for) r
unfolding run_once after_launch
run_once-IsFirstAfter next fresh owner execution_id moment s claimed c grows got =
    let (r, e, first) =
      catch_up-IsFirstAfter next moment grows (suc moment) (next c.scheduled_for)
        (omega (arith, grows c.scheduled_for)) in
    (r, rw got (rw e refl), first)
