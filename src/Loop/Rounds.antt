-- ===== src/Loop/Rounds.antt =====
-- server/lingxilearn/runtime/graph.py: the edges of the loop. A round is a pass from orchestrate to
-- evaluate_goal; a run is the interpretation of the utterance, or the answer of the user, and rounds
-- until the route leaves the circle. `fuel` bounds the rounds.
use lingxi_learn.Prelude.{ℕ, zero, suc, ◌+◌, String, Bool, Option, List}
use lingxi_learn.Loop.Policy.{GoalFacts}
use lingxi_learn.Loop.{
  TaskOutcome, LoopState, World, LoopError, Result, done, raised, and_then, Route, to_end,
  to_await_user, to_orchestrate, route,
}
use lingxi_learn.Loop.Requests.{Resume, await_user}
use lingxi_learn.Loop.Nodes.{
  LoopEnv, Interpretation, interpret_goal, Produced, orchestrate, dispatch, observe, evaluate_goal,
}

-- what the world answers in one round
pub record RoundInput : Type 0 where
  pub step : ℕ
  pub produced : Option Produced
  pub ran : List TaskOutcome
  pub background : Bool
  pub followup_id : String
  pub context : GoalFacts

unfoldable pub run_round : LoopEnv → RoundInput → LoopState → World → Result
run_round env i s w = and_then (orchestrate env i.step i.produced s w) (λ s₁ w₁.
    and_then (dispatch env i.ran i.background s₁ w₁) (λ s₂ w₂.
      and_then (observe env s₂ w₂) (λ s₃ w₃. evaluate_goal env i.followup_id i.context s₃ w₃)))

pub data Stop : Type 0 where
  ended : LoopState → World → Stop
  waits : LoopState → World → Stop
  failed_with : LoopError → World → Stop
  out_of_fuel : Stop

abbrev pub go_on : Route → LoopState → World → Stop → Stop
go_on to_end s w rest = ended s w
go_on to_await_user s w rest = waits s w
go_on to_orchestrate s w rest = rest

abbrev pub after_round : Result → (LoopState → World → Stop) → Stop
after_round (raised e w) rest = failed_with e w
after_round (done s w) rest = go_on (route s.runtime_status) s w (rest s w)

-- the rounds from `orchestrate` on, with the answers of the world by the number of the round
unfoldable pub run_rounds : LoopEnv → (ℕ → RoundInput) → ℕ → ℕ → LoopState → World → Stop
run_rounds env inputs zero n s w = out_of_fuel
run_rounds env inputs (suc fuel) n s w =
    after_round (run_round env (inputs n) s w) (λ t v. run_rounds env inputs fuel (n + 1) t v)

abbrev pub start : Result → (LoopState → World → Stop) → Stop
start (raised e w) rest = failed_with e w
start (done s w) rest = rest s w

-- a run that an utterance begins
unfoldable pub run_turn :
    LoopEnv → (ℕ → RoundInput) → ℕ → String → Interpretation → LoopState → World → Stop
run_turn env inputs fuel utterance meaning s w =
    start (interpret_goal env utterance meaning s w) (run_rounds env inputs fuel 0)

-- a run that the answer of the user resumes
unfoldable pub resume_turn : LoopEnv → (ℕ → RoundInput) → ℕ → Resume → LoopState → World → Stop
resume_turn env inputs fuel answer s w =
    start (await_user env.task_id answer s w) (run_rounds env inputs fuel 0)
