-- ===== src/GoalStack.antt =====
-- server/lingxilearn/state/agent_task_state.py: goals and the goal stack with its undo records.
-- Modules below: the dictionary form and its round trip (Undo), the working goal (Current).
-- `urgency` is a float in the source and a number of thousandths here; `satisfied_when` is the
-- text of its JSON object; a time is a number. Fresh ids and the clock are arguments.
pub mod Undo
pub mod Current
pub mod Drain
mod Tests
use mathlib.Core.List.{reverse}
use mathlib.Core.Logic.{ite}
use lingxi_learn.Prelude.{
  ℕ, String, Bool, true, false, not, ◌||◌, Option, none, some, List, [], ◌∷◌, ◌++◌, ◌==◌,
  if◌then◌else◌, String-discrete, ℕ_discrete,
}

pub data GoalKind : Type 0 where
  long_term current_kind interrupt : GoalKind

pub data GoalStatus : Type 0 where
  open_status satisfied abandoned : GoalStatus

pub record Goal : Type 0 where
  pub goal_type : String
  pub topic : String
  pub id : String
  pub kind : GoalKind
  pub knowledge_points : List String
  pub expected_outcome : String
  pub constraints : List String
  pub urgency : ℕ
  pub status : GoalStatus
  pub satisfied_when : String
  pub created_by : String
  pub raw_utterance : String
  pub pushed_at : ℕ

-- the equality of the frozen dataclass, field by field
pub Goal-discrete : Discrete Goal
Goal-discrete = hlevel (ℕ_discrete, String-discrete)

abbrev pub is_open_status : GoalStatus → Bool
is_open_status open_status = true
is_open_status _ = false

abbrev pub is_open : Goal → Bool
is_open g = is_open_status g.status

abbrev is_long_term : GoalKind → Bool
is_long_term long_term = true
is_long_term _ = false

-- `next((g for g in goals if test(g)), None)`
unfoldable pub find? : (Goal → Bool) → List Goal → Option Goal
find? test [] = none
find? test (g ∷ gs) = if test g then some g else find? test gs

-- `goals[goals.index(target)] = value`
unfoldable pub replace_first : Goal → Goal → List Goal → List Goal
replace_first target value [] = []
replace_first target value (g ∷ gs) =
    ite (Goal-discrete g target) (value ∷ gs) (g ∷ replace_first target value gs)

-- The goal the runtime is working on: the topmost open one.
unfoldable pub current : List Goal → Option Goal
unfolding find?
current goals = find? is_open (reverse goals)

pub find_long_term : List Goal → Option Goal
unfolding find?
find_long_term goals = find? (λ g. is_long_term g.kind) goals

pub any_open : List Goal → Bool
any_open [] = false
any_open (g ∷ gs) = is_open g || any_open gs

pub is_empty : List Goal → Bool
unfolding any_open
is_empty goals = not (any_open goals)

pub push : Goal → List Goal → List Goal
push goal goals = goals ++ goal ∷ []

unfoldable pub mark : GoalStatus → Option Goal → List Goal → List Goal
unfolding replace_first
mark status none goals = goals
mark status (some target) goals = replace_first target (record target { status = status }) goals

-- An absent or empty goal id means the current goal.
unfoldable pub pop_target : Option String → List Goal → Option Goal
unfolding current find?
pop_target none goals = current goals
pop_target (some goal_id) goals =
    if goal_id == "" then current goals else find? (λ g. g.id == goal_id) goals

unfoldable pub pop : Option String → List Goal → List Goal
unfolding mark pop_target
pop goal_id goals = mark satisfied (pop_target goal_id goals) goals

pub abandon : List Goal → List Goal
unfolding mark current
abandon goals = mark abandoned (current goals) goals

swap_in : Goal → Option Goal → List Goal → List Goal
unfolding replace_first
swap_in goal none goals = goals ++ goal ∷ []
swap_in goal (some target) goals = replace_first target (record goal { kind = target.kind }) goals

pub replace : Goal → List Goal → List Goal
unfolding swap_in current
replace goal goals = swap_in goal (current goals) goals
