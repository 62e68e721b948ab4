-- ===== src/GoalStack/Current.antt =====
-- The working goal of the stack: what push, pop, replace and abandon do to it and to the open goals.
use mathlib.Core.List.{reverse-cons}
use mathlib.Core.Logic.{if_pos, if_neg}
use lingxi_learn.Prelude.{
  ◌≡◌, refl, sym, ap, ◌∙◌, ◌≢◌, ◌↔◌, true, false, Option, none, some, List, [], ◌∷◌, ◌++◌, arith,
  if◌then◌else◌,
}
use lingxi_learn.GoalStack.{
  Goal, satisfied, Goal-discrete, is_open, find?, replace_first, current, is_empty, push, pop,
  replace, any_open,
}

-- The topmost open goal, by recursion from the bottom.
topmost : List Goal → Option Goal
topmost [] = none
topmost (g ∷ gs) = elim (topmost gs) [ some t ↦ some t | none ↦ if is_open g then some g else none ]

find?-append :
    (xs : List Goal) (g : Goal)
    → find? is_open (xs ++ g ∷ [])
      ≡ elim (find? is_open xs) [ some t ↦ some t | none ↦ if is_open g then some g else none ]
unfolding find?
find?-append [] g = refl
find?-append (x ∷ xs) g = ground (arith, find?-append xs g)

current-eq-topmost : (goals : List Goal) → current goals ≡ topmost goals
unfolding current topmost
current-eq-topmost [] = refl
current-eq-topmost (g ∷ gs) =
    rw reverse-cons (rw find?-append (ground (arith, current-eq-topmost gs)))

module _ {ℓ} where
  abbrev pub All : (Goal → Type ℓ) → List Goal → Type ℓ
  All P [] = Unit
  All P (g ∷ gs) = P g × All P gs

-- No two goals of the stack are equal; stacks of goals with different ids are such.
abbrev pub IsDistinct : List Goal → Type 0
IsDistinct [] = Unit
IsDistinct (g ∷ gs) = All (λ h. g ≢ h) gs × IsDistinct gs

-- The current goal, with what lies below it and the closed goals above it.
pub record Split (goals : List Goal) (t : Goal) : Type 0 where
  pub before : List Goal
  pub after : List Goal
  pub shape : goals ≡ before ++ t ∷ after
  pub opened : is_open t ≡ true
  pub above : any_open after ≡ false

any_open-topmost : (goals : List Goal) → topmost goals ≡ none → any_open goals ≡ false
unfolding topmost any_open
any_open-topmost [] h = refl
any_open-topmost (g ∷ gs) h = ground (arith, any_open-topmost gs)

topmost-any_open : (goals : List Goal) → any_open goals ≡ false → topmost goals ≡ none
unfolding topmost any_open
topmost-any_open [] h = refl
topmost-any_open (g ∷ gs) h = ground (arith, topmost-any_open gs)

-- The stack has nothing left to work on exactly when there is no current goal.
pub is_empty_iff : (goals : List Goal) → (is_empty goals ≡ true) ↔ (current goals ≡ none)
unfolding is_empty
is_empty_iff goals =
    rw (current-eq-topmost goals) (
      (λ h. topmost-any_open goals (ground arith)),
      (λ h. ground (arith, any_open-topmost goals h)),
    )

topmost-Split : (goals : List Goal) (t : Goal) → topmost goals ≡ some t → Split goals t
unfolding topmost
topmost-Split [] t h = cc
topmost-Split (g ∷ gs) t h = go (topmost gs) refl (topmost-Split gs) h
  where
    go :
        (o : Option Goal)
        → topmost gs ≡ o
        → ((u : Goal) → topmost gs ≡ some u → Split gs u)
        → elim o [ some u ↦ some u | none ↦ if is_open g then some g else none ] ≡ some t
        → Split (g ∷ gs) t
    go none e ih k = record {
      before = [];
      after = gs;
      shape = ground arith;
      opened = ground arith;
      above = any_open-topmost gs e;
    }
    go (some u) e ih k =
        let s = ih t (e ∙ k) in
        record {
          before = g ∷ s.before;
          after = s.after;
          shape = ap (◌∷◌ g) s.shape;
          opened = s.opened;
          above = s.above;
        }

-- Under closed goals, the working goal is the topmost open one of those below.
topmost-append :
    (before after : List Goal) (v : Goal)
    → any_open after ≡ false
    → topmost (before ++ v ∷ after) ≡ (if is_open v then some v else topmost before)
unfolding topmost
topmost-append [] after v h = ground (arith, topmost-any_open after h)
topmost-append (g ∷ gs) after v h = ground (arith, topmost-append gs after v h)

replace_first-append :
    (before after : List Goal) (t v : Goal)
    → All (λ g. g ≢ t) before
    → replace_first t v (before ++ t ∷ after) ≡ before ++ v ∷ after
unfolding replace_first
replace_first-append [] after t v h = if_pos (Goal-discrete t t) refl _ _
replace_first-append (g ∷ gs) after t v h =
    rw (if_neg _ h.0) (ap (◌∷◌ g) (replace_first-append gs after t v h.1))

All-at {ℓ} :
    (P : Goal → Type ℓ) (before after : List Goal) (t : Goal) → All P (before ++ t ∷ after) → P t
All-at P [] after t h = h.0
All-at P (g ∷ gs) after t h = All-at P gs after t h.1

before-ne :
    (before after : List Goal) (t : Goal)
    → IsDistinct (before ++ t ∷ after)
    → All (λ g. g ≢ t) before
before-ne [] after t d = tt
before-ne (g ∷ gs) after t d = (All-at (λ h. g ≢ h) gs after t d.0, before-ne gs after t d.1)

current-append :
    (before after : List Goal) (v : Goal)
    → any_open after ≡ false
    → current (before ++ v ∷ after) ≡ (if is_open v then some v else current before)
current-append before after v h =
    rw (current-eq-topmost (before ++ v ∷ after), current-eq-topmost before)
      (topmost-append before after v h)

pub current-Split : (goals : List Goal) (t : Goal) → current goals ≡ some t → Split goals t
current-Split goals t h = topmost-Split goals t (sym (current-eq-topmost goals) ∙ h)

-- A pushed open goal becomes current, and satisfying it falls back to the goal that was current
-- before; it must not equal a goal that is on the stack already.
pub pop-push :
    (goal : Goal) (goals : List Goal)
    → is_open goal ≡ true
    → All (λ g. g ≢ goal) goals
    → (current (push goal goals) ≡ some goal)
      × (current (pop none (push goal goals)) ≡ current goals)
unfolding push pop any_open
pop-push goal goals opened fresh =
    let top : current (goals ++ goal ∷ []) ≡ some goal =
      current-append goals [] goal refl ∙ rw opened in
    (
      top,
      rw top (
          rw (replace_first-append goals [] goal (record goal { status = satisfied }) fresh)
            (current-append goals [] (record goal { status = satisfied }) refl)),
    )

-- A correction puts the new open goal, with the kind of the old one, in the old one's place, and
-- leaves every other goal of the stack.
pub replace-current :
    (goal t : Goal) (goals : List Goal)
    → IsDistinct goals
    → is_open goal ≡ true
    → current goals ≡ some t
    → let new = record goal { kind = t.kind } in
      (s : Split goals t) × (replace goal goals ≡ s.before ++ new ∷ s.after)
      × (current (replace goal goals) ≡ some new)
unfolding replace
replace-current goal t goals distinct opened h =
    let s = current-Split goals t h in
    let new = record goal { kind = t.kind } in
    let ne = before-ne s.before s.after t (rw s.shape at distinct) in
    let placed : replace goal goals ≡ s.before ++ new ∷ s.after =
      rw h (rw s.shape (replace_first-append s.before s.after t new ne)) in
    (s, placed, rw placed (current-append s.before s.after new s.above ∙ rw opened))
