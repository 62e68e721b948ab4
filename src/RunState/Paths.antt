-- ===== src/RunState/Paths.antt =====
-- What the transition table allows: round trip of the values, absorbing ends, and reachability.
use lingxi_learn.Prelude.{
  ◌∙◌, ap, eq_iff, ◌||◌, Option-cases, String, ◌≡◌, ◌≢◌, refl, ◌⊎◌, inl, inr, Bool, true, false,
  some, List, [], ◌∷◌, arith, ◌==◌,
}
use lingxi_learn.RunState.{
  keep_going, RuntimeStatus, planning, executing, waiting_for_user, observing, updating, replanning,
  completed, failed, value, of_value, is_terminal, Outcome, ok, bad_value, illegal_transition, step,
  transition, drive,
}

pub of_value-value : (s : RuntimeStatus) → of_value (value s) ≡ some s
unfolding of_value value
of_value-value planning = refl
of_value-value _ = refl

-- Between members the text layer adds nothing: `transition` is `step`.
pub transition-value : (s t : RuntimeStatus) → transition (value s) (value t) ≡ step s t
unfolding transition
transition-value s t = rw (of_value-value s, of_value-value t)

step-terminal : (s t u : RuntimeStatus) → is_terminal s ≡ true → step s t ≡ ok u → u ≡ s
unfolding step
step-terminal s t u h e = ground arith

transition_cases :
    (s u : RuntimeStatus) (target : String)
    → transition (value s) target ≡ ok u
    → (t : RuntimeStatus) × (of_value target ≡ some t) × (step s t ≡ ok u)
unfolding transition
transition_cases s u target e = elim (Option-cases (of_value target)) [
  | inl none_e ↦ absurd (ground (arith, of_value-value s))
  | inr (t, some_e) ↦ (t, some_e, ground (arith, of_value-value s))
]

-- A completed or failed run accepts no other status, by whatever text it is asked.
pub transition-terminal :
    (s u : RuntimeStatus) (target : String)
    → is_terminal s ≡ true
    → transition (value s) target ≡ ok u
    → u ≡ s
transition-terminal s u target h e =
    let (t, _, stepped) = transition_cases s u target e in step-terminal s t u h stepped

drive-cons :
    (s u : RuntimeStatus) (t : String) (ts : List String)
    → drive s (t ∷ ts) ≡ ok u
    → (m : RuntimeStatus) × (transition (value s) t ≡ ok m) × (drive m ts ≡ ok u)
unfolding drive
drive-cons s u t ts e = go (transition (value s) t) refl e
  where
    go :
        (o : Outcome)
        → transition (value s) t ≡ o
        → keep_going o (λ m. drive m ts) ≡ ok u
        → (m : RuntimeStatus) × (transition (value s) t ≡ ok m) × (drive m ts ≡ ok u)
    go (ok m) moved rest = (m, moved, rest)
    go bad_value moved rest = cc
    go (illegal_transition a b) moved rest = cc

-- However long a run goes on, a terminal status is never left.
pub drive-terminal :
    (s u : RuntimeStatus) (targets : List String)
    → is_terminal s ≡ true
    → drive s targets ≡ ok u
    → u ≡ s
unfolding drive
drive-terminal s u [] h e = ground arith
drive-terminal s u (t ∷ ts) h e =
    let (m, moved, rest) = drive-cons s u t ts e in
    let same = transition-terminal s m t h moved in drive-terminal s u ts h (rw same at rest)

-- Shortest accepted sequences of status texts to a normal end.
pub route : RuntimeStatus → List String
route planning = "COMPLETED" ∷ []
route executing = "OBSERVING" ∷ "UPDATING" ∷ "COMPLETED" ∷ []
route waiting_for_user = "COMPLETED" ∷ []
route observing = "UPDATING" ∷ "COMPLETED" ∷ []
route updating = "COMPLETED" ∷ []
route replanning = "COMPLETED" ∷ []
route completed = []
route failed = []

-- From every status but FAILED the run can still complete.
pub drive-route : (s : RuntimeStatus) → s ≢ failed → drive s (route s) ≡ ok completed
unfolding drive route
drive-route failed h = absurd (h refl)
drive-route planning h = refl
drive-route _ h = refl

-- A work round is being executed or observed: its results are not in the state yet.
abbrev pub is_unsettled : RuntimeStatus → Bool
is_unsettled executing = true
is_unsettled observing = true
is_unsettled _ = false

-- Whether a sequence writes one of the two statuses by which a round is settled or handed back.
pub settles : List String → Bool
settles [] = false
settles (t ∷ ts) = t == "UPDATING" || t == "WAITING_FOR_USER" || settles ts

step-unsettled :
    (s t u : RuntimeStatus)
    → is_unsettled s ≡ true
    → step s t ≡ ok u
    → (is_unsettled u ≡ true) ⊎ (t ≡ updating) ⊎ (t ≡ waiting_for_user) ⊎ (u ≡ failed)
unfolding step
step-unsettled executing t u h e = ground arith
step-unsettled observing t u h e = ground arith
step-unsettled _ t u h e = cc

of_value-inj : (s : String) (t : RuntimeStatus) → of_value s ≡ some t → s ≡ value t
unfolding of_value value
of_value-inj s t e = ground (
  arith,
  eq_iff s "PLANNING",
  eq_iff s "EXECUTING",
  eq_iff s "WAITING_FOR_USER",
  eq_iff s "OBSERVING",
  eq_iff s "UPDATING",
  eq_iff s "REPLANNING",
  eq_iff s "COMPLETED",
  eq_iff s "FAILED",
)

settles-here :
    (s : String) (ts : List String)
    → (s ≡ "UPDATING") ⊎ (s ≡ "WAITING_FOR_USER")
    → settles (s ∷ ts) ≡ true
unfolding settles
settles-here s ts h = ground (arith, eq_iff s "UPDATING", eq_iff s "WAITING_FOR_USER")

settles-later : (s : String) (ts : List String) → settles ts ≡ true → settles (s ∷ ts) ≡ true
unfolding settles
settles-later s ts h = ground arith

-- A run that is executing or observing cannot complete before it writes UPDATING, in which the
-- learner state is brought up to date, or hands over to the learner.
pub drive-settles :
    (s : RuntimeStatus) (targets : List String)
    → is_unsettled s ≡ true
    → drive s targets ≡ ok completed
    → settles targets ≡ true
unfolding drive value
drive-settles s [] h e = ground arith
drive-settles s (x ∷ ts) h e =
    let (m, moved, rest) = drive-cons s completed x ts e in
    let (t, read, stepped) = transition_cases s m x moved in
    elim (step-unsettled s t m h stepped) [
      | inl still ↦ settles-later x ts (drive-settles m ts still rest)
      | inr (inl up) ↦ settles-here x ts (inl (of_value-inj x t read ∙ ap value up))
      | inr (inr (inl wait)) ↦ settles-here x ts (inr (of_value-inj x t read ∙ ap value wait))
      | inr (inr (inr lost)) ↦ absurd (cc (drive-terminal m completed ts (rw lost) rest))
    ]
