-- ===== src/GoalStack/Drain.antt =====
-- Satisfying or giving up goals one by one: the open goals run out, and no goal is discarded.
use mathlib.Core.Logic.{if_pos, if_neg}
use lingxi_learn.Prelude.{
  ℕ, zero, suc, ◌+◌, ◌-◌, ◌≤◌, String, ◌≡◌, refl, ap, ◌↔◌, inl, inr, true, false, Option, none,
  some, List, [], ◌∷◌, ◌++◌, map, arith, if◌then◌else◌, Option-cases,
}
use lingxi_learn.GoalStack.{
  Goal, GoalStatus, satisfied, abandoned, Goal-discrete, is_open, is_open_status, replace_first,
  current, is_empty, pop, abandon, any_open, mark,
}
use lingxi_learn.GoalStack.Current.{current-Split, is_empty_iff}

pub open_count : List Goal → ℕ
open_count [] = 0
open_count (g ∷ gs) = if is_open g then suc (open_count gs) else open_count gs

pub ids : List Goal → List String
ids = map (λ g. g.id)

module _ (t : Goal) (status : GoalStatus) (closed : is_open_status status ≡ false) where
  -- Closing an open goal that stands on the stack takes one from the open goals.
  open_count-replace_first :
      (before after : List Goal)
      → is_open t ≡ true
      → open_count (replace_first t (record t { status = status }) (before ++ t ∷ after)) + 1
        ≡ open_count (before ++ t ∷ after)
  unfolding open_count replace_first
  open_count-replace_first [] after h = ground arith
  open_count-replace_first (g ∷ gs) after h = ground (arith, open_count-replace_first gs after h)

  ids-replace_first :
      (goals : List Goal) → ids (replace_first t (record t { status = status }) goals) ≡ ids goals
  unfolding ids replace_first
  ids-replace_first [] = refl
  ids-replace_first (g ∷ gs) = elim (Goal-discrete g t) [
    | yes p ↦ rw (if_pos _ p) (ground arith)
    | no p ↦ rw (if_neg _ p) (ap (◌∷◌ g.id) (ids-replace_first gs))
  ]

  open_count-mark :
      (goals : List Goal)
      → current goals ≡ some t
      → open_count (mark status (current goals) goals) + 1 ≡ open_count goals
  unfolding mark
  open_count-mark goals h =
      let s = current-Split goals t h in
      rw h (rw s.shape (open_count-replace_first s.before s.after s.opened))

-- While there is a current goal, pop and abandon each close exactly one open goal.
pub open_count-pop :
    (goals : List Goal) (t : Goal)
    → current goals ≡ some t
    → (open_count (pop none goals) + 1 ≡ open_count goals)
      × (open_count (abandon goals) + 1 ≡ open_count goals)
unfolding pop abandon
open_count-pop goals t h =
    (open_count-mark t satisfied refl goals h, open_count-mark t abandoned refl goals h)

ids-mark :
    (status : GoalStatus) (o : Option Goal) (goals : List Goal)
    → is_open_status status ≡ false
    → ids (mark status o goals) ≡ ids goals
unfolding mark
ids-mark status none goals c = refl
ids-mark status (some t) goals c = ids-replace_first t status c goals

-- Whichever goal is satisfied or given up, all goals stay on the stack, in their order.
pub ids-pop :
    (goal_id : Option String) (goals : List Goal)
    → (ids (pop goal_id goals) ≡ ids goals) × (ids (abandon goals) ≡ ids goals)
unfolding pop abandon
ids-pop goal_id goals =
    (ids-mark satisfied _ goals refl, ids-mark abandoned (current goals) goals refl)

-- The run satisfies its current goal again and again.
pub drain : ℕ → List Goal → List Goal
drain zero goals = goals
drain (suc n) goals = drain n (pop none goals)

open_count-any_open : (goals : List Goal) → any_open goals ≡ false → open_count goals ≡ 0
unfolding open_count any_open
open_count-any_open [] h = refl
open_count-any_open (g ∷ gs) h = ground (arith, open_count-any_open gs)

any_open-open_count : (goals : List Goal) → open_count goals ≡ 0 → any_open goals ≡ false
unfolding open_count any_open
any_open-open_count [] h = refl
any_open-open_count (g ∷ gs) h = ground (arith, any_open-open_count gs)

open_count_of_none : (goals : List Goal) → current goals ≡ none → open_count goals ≡ 0
unfolding is_empty
open_count_of_none goals h = open_count-any_open goals (ground (arith, (is_empty_iff goals).1 h))

open_count-pop_pred : (goals : List Goal) → open_count (pop none goals) ≡ open_count goals - 1
open_count-pop_pred goals = elim (Option-cases (current goals)) [
  | inl e ↦ (unfold pop mark in rw e (omega (arith, open_count_of_none goals e)))
  | inr (t, e) ↦ omega (arith, open_count-pop goals t e)
]

-- As many satisfactions as there are open goals leave the stack with nothing to work on, and
-- fewer do not.
pub drain-is_empty :
    (n : ℕ) (goals : List Goal) → (is_empty (drain n goals) ≡ true) ↔ (open_count goals ≤ n)
unfolding drain is_empty
drain-is_empty zero goals = (
  (λ h. omega (arith, open_count-any_open goals (ground arith))),
  (λ h. rw (any_open-open_count goals (omega arith))),
)
drain-is_empty (suc n) goals =
    let ih = drain-is_empty n (pop none goals) in
    (
      (λ h. omega (arith, ih.0 h, open_count-pop_pred goals)),
      (λ h. ih.1 (omega (arith, open_count-pop_pred goals))),
    )
