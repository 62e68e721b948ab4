-- ===== src/RunState.antt =====
-- server/lingxilearn/state/agent_task_state.py: the phases of a run and their transition table.
-- A status travels as text, so `transition` reads both ends before it looks at the table.
pub mod Paths
mod Tests
use lingxi_learn.Prelude.{
  String, Bool, true, false, Option, none, some, List, [], ◌∷◌, ◌==◌, if◌then◌else◌,
}

pub data RuntimeStatus : Type 0 where
  planning executing waiting_for_user observing updating replanning completed failed : RuntimeStatus

pub RuntimeStatus-discrete : Discrete RuntimeStatus
RuntimeStatus-discrete = hlevel

-- the members' values
pub value : RuntimeStatus → String
value planning = "PLANNING"
value executing = "EXECUTING"
value waiting_for_user = "WAITING_FOR_USER"
value observing = "OBSERVING"
value updating = "UPDATING"
value replanning = "REPLANNING"
value completed = "COMPLETED"
value failed = "FAILED"

-- `RuntimeStatus(text)`: `none` is the ValueError of the enum.
pub of_value : String → Option RuntimeStatus
of_value s =
    if s == "PLANNING"
    then some planning
    else if s == "EXECUTING"
    then some executing
    else if s == "WAITING_FOR_USER"
    then some waiting_for_user
    else if s == "OBSERVING"
    then some observing
    else if s == "UPDATING"
    then some updating
    else if s == "REPLANNING"
    then some replanning
    else if s == "COMPLETED"
    then some completed
    else if s == "FAILED"
    then some failed
    else none

-- TERMINAL_STATUSES
abbrev pub is_terminal : RuntimeStatus → Bool
is_terminal completed = true
is_terminal failed = true
is_terminal _ = false

-- `destination is source`
unfoldable pub is_same : RuntimeStatus → RuntimeStatus → Bool
is_same planning planning = true
is_same executing executing = true
is_same waiting_for_user waiting_for_user = true
is_same observing observing = true
is_same updating updating = true
is_same replanning replanning = true
is_same completed completed = true
is_same failed failed = true
is_same _ _ = false

-- the table _TRANSITIONS
unfoldable pub allowed : RuntimeStatus → RuntimeStatus → Bool
allowed planning executing = true
allowed planning waiting_for_user = true
allowed planning completed = true
allowed planning failed = true
allowed executing observing = true
allowed executing waiting_for_user = true
allowed executing failed = true
allowed observing updating = true
allowed observing failed = true
allowed updating replanning = true
allowed updating waiting_for_user = true
allowed updating completed = true
allowed updating failed = true
allowed replanning planning = true
allowed replanning waiting_for_user = true
allowed replanning completed = true
allowed replanning failed = true
allowed waiting_for_user planning = true
allowed waiting_for_user completed = true
allowed waiting_for_user failed = true
allowed _ _ = false

pub data Outcome : Type 0 where
  ok : RuntimeStatus → Outcome
  bad_value : Outcome
  illegal_transition : RuntimeStatus → RuntimeStatus → Outcome

unfoldable pub step : RuntimeStatus → RuntimeStatus → Outcome
unfolding is_same allowed
step source destination =
    if is_same source destination
    then ok destination
    else if allowed source destination
    then ok destination
    else illegal_transition source destination

read_target : RuntimeStatus → Option RuntimeStatus → Outcome
read_target source none = bad_value
read_target source (some destination) = step source destination

read_both : Option RuntimeStatus → Option RuntimeStatus → Outcome
unfolding read_target
read_both none target = bad_value
read_both (some source) target = read_target source target

pub transition : String → String → Outcome
unfolding step read_both
transition current target = read_both (of_value current) (of_value target)

pub keep_going : Outcome → (RuntimeStatus → Outcome) → Outcome
keep_going (ok s) f = f s
keep_going bad_value f = bad_value
keep_going (illegal_transition s t) f = illegal_transition s t

-- A run's node sequence: each status written goes through `transition`, the first refusal ends it.
pub drive : RuntimeStatus → List String → Outcome
unfolding transition of_value value keep_going
drive s [] = ok s
drive s (t ∷ ts) = keep_going (transition (value s) t) (λ u. drive u ts)
