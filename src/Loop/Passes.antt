-- ===== src/Loop/Passes.antt =====
-- The passes of a round through the nodes: orchestrate, dispatch and observe each end in the phase that
-- the next one starts from, or leave a stopped or waiting state alone.
use mathlib.Core.Path.{subst}
use lingxi_learn.Prelude.{
  ℕ, ◌<◌, ◌≡◌, ◌⊎◌, refl, sym, ap, ◌∙◌, Bool, true, false, Option, some, List, if◌then◌else◌, arith,
  inl, inr,
}
use lingxi_learn.RunState.{
  RuntimeStatus, planning, executing, waiting_for_user, observing, updating, replanning, completed,
  failed, is_terminal, ok, step,
}
use lingxi_learn.Loop.{
  TaskOutcome, LoopState, World, Result, done, raised, and_then, in_phase, transition_status,
}
use lingxi_learn.Loop.Nodes.{
  LoopEnv, Produced, check_round, orchestrate, spend_outcomes, dispatch_in, dispatch, observe_in,
  observe,
}
use lingxi_learn.Loop.Stages.{
  rank, Stage, stopped, paused, active, IsAt, left-spend_outcomes, check_round-IsAt,
}
use lingxi_learn.Loop.Phases.{
  IsSynced, Ensures, and_then-Ensures, IsMoved, transition_status-IsMoved, move_to-Ensures,
  status_of-save_budget,
}

pub Ensures-map :
    (P Q : LoopState → World → Type 0) (r : Result)
    → ((s : LoopState) (w : World) → P s w → Q s w)
    → Ensures P r
    → Ensures Q r
Ensures-map P Q (done s w) f h = f s w h
Ensures-map P Q (raised e w) f h = h

pub is_terminal-cases : (p : RuntimeStatus) → is_terminal p ≡ true → (p ≡ completed) ⊎ (p ≡ failed)
is_terminal-cases completed h = inl refl
is_terminal-cases failed h = inr refl
is_terminal-cases planning h = ground arith
is_terminal-cases executing h = ground arith
is_terminal-cases waiting_for_user h = ground arith
is_terminal-cases observing h = ground arith
is_terminal-cases updating h = ground arith
is_terminal-cases replanning h = ground arith

-- A node that leaves a stopped state alone.
pub stopped-Ensures :
    (P : LoopState → World → Type 0) (f : RuntimeStatus → Result) (s : LoopState) (w : World)
    → is_terminal s.runtime_status ≡ true
    → f completed ≡ done s w
    → f failed ≡ done s w
    → P s w
    → Ensures P (f s.runtime_status)
stopped-Ensures P f s w h c d k = elim (is_terminal-cases s.runtime_status h) [
  | inl e ↦ subst (Ensures P) (sym (ap f e ∙ c)) k
  | inr e ↦ subst (Ensures P) (sym (ap f e ∙ d)) k
]

pub paused-Ensures :
    (P : LoopState → World → Type 0) (f : RuntimeStatus → Result) (s : LoopState) (w : World)
    → s.runtime_status ≡ waiting_for_user
    → f waiting_for_user ≡ done s w
    → P s w
    → Ensures P (f s.runtime_status)
paused-Ensures P f s w e c k = subst (Ensures P) (sym (ap f e ∙ c)) k

orchestrate_as :
    (env : LoopEnv) (n : ℕ) (p : Option Produced) (s : LoopState) (w : World) (b : Bool)
    → is_terminal s.runtime_status ≡ b
    → (b ≡ false → step s.runtime_status planning ≡ ok planning)
    → IsSynced env s w
    → Ensures (IsAt executing (rank s) env) (
        if b
        then done s w
        else and_then (transition_status env.task_id planning s w) (check_round env n p))
orchestrate_as env n p s w true e ready sync = (sync, stopped e)
orchestrate_as env n p s w false e ready sync =
    and_then-Ensures (IsMoved env (in_phase planning s)) (IsAt executing (rank s) env)
      (transition_status env.task_id planning s w) (check_round env n p)
      (transition_status-IsMoved env s w s.runtime_status planning sync (ready refl))
      (λ t v moved.
        subst (λ x. Ensures (IsAt executing (rank x) env) (check_round env n p t v)) moved.0
          (check_round-IsAt env n p t v moved.1))

pub orchestrate-IsAt :
    (env : LoopEnv) (n : ℕ) (p : Option Produced) (s : LoopState) (w : World)
    → (is_terminal s.runtime_status ≡ false → step s.runtime_status planning ≡ ok planning)
    → IsSynced env s w
    → Ensures (IsAt executing (rank s) env) (orchestrate env n p s w)
unfolding orchestrate
orchestrate-IsAt env n p s w ready sync =
    orchestrate_as env n p s w (is_terminal s.runtime_status) refl ready sync

pub dispatch-IsAt :
    (env : LoopEnv) (ran : List TaskOutcome) (background : Bool) (bound : ℕ) (s : LoopState)
    (w : World)
    → IsSynced env s w
    → Stage executing bound s
    → Ensures (IsAt observing bound env) (dispatch env ran background s w)
unfolding dispatch step
dispatch-IsAt env ran background bound s w sync (stopped h) =
    stopped-Ensures (IsAt observing bound env) (λ p. dispatch_in p env ran background s w) s w h
      refl refl (sync, stopped h)
dispatch-IsAt env ran background bound s w sync (paused h) =
    paused-Ensures (IsAt observing bound env) (λ p. dispatch_in p env ran background s w) s w h refl
      (sync, paused h)
dispatch-IsAt env ran background bound s w sync (active e below) =
    subst (λ p. Ensures (IsAt observing bound env) (dispatch_in p env ran background s w)) (sym e)
      (move_to-Ensures (IsAt observing bound env) env _ s _ executing observing
        (status_of-save_budget env.task_id w.tables (spend_outcomes ran s.budget)
          ∙ sync
          ∙ ap some e)
        refl
        (λ v moved. (
          moved,
          active refl (subst (λ k. k < bound) (sym (left-spend_outcomes ran s.budget)) below),
        )))

pub observe-IsAt :
    (env : LoopEnv) (bound : ℕ) (s : LoopState) (w : World)
    → IsSynced env s w
    → Stage observing bound s
    → Ensures (IsAt updating bound env) (observe env s w)
unfolding observe step
observe-IsAt env bound s w sync (stopped h) =
    stopped-Ensures (IsAt updating bound env) (λ p. observe_in p env s w) s w h refl refl
      (sync, stopped h)
observe-IsAt env bound s w sync (paused h) =
    paused-Ensures (IsAt updating bound env) (λ p. observe_in p env s w) s w h refl (sync, paused h)
observe-IsAt env bound s w sync (active e below) =
    subst (λ p. Ensures (IsAt updating bound env) (observe_in p env s w)) (sym e)
      (Ensures-map (IsMoved env (in_phase updating s)) (IsAt updating bound env)
        (transition_status env.task_id updating s w)
        (λ t v moved.
          subst (λ x. IsAt updating bound env x v) (sym moved.0) (moved.1, active refl below))
        (transition_status-IsMoved env s w observing updating (sync ∙ ap some e) refl))
