-- ===== src/Tiers.antt =====
-- server/lingxilearn/runtime/contracts.py: the dependency tiers of a plan (OrchestrationPlan.tiers).
-- The learning gain is in thousandths. The tasks of a plan have distinct ids, so that `remaining`, a
-- dict of tasks by id, is the list of its values. The fuel is the number of remaining tasks: each
-- round takes one of them at least.
pub mod Order
mod Tests
use Prim.Native.String.{compare}
use text.Mathlib.Text.{is_lt}
use lingxi_learn.Prelude.{
  ℕ, zero, suc, ◌+◌, String, Bool, ◌&&◌, ◌||◌, not, Option, none, some, List, [], ◌∷◌, ◌++◌, map,
  ◌==◌, nat_beq, ltb, if◌then◌else◌,
}
use lingxi_learn.Prelude.Tables.{any, all, filter, length}

pub record Task : Type 0 where
  pub id : String
  pub depends_on : List String
  pub expected_learning_gain : ℕ

abbrev pub has : List String → String → Bool
has ids id = any (λ i. i == id) ids

abbrev pub is_ready : List String → Task → Bool
is_ready done t = all (has done) t.depends_on

-- the key (-expected_learning_gain, id)
abbrev pub is_first : Task → Task → Bool
is_first a b =
    ltb b.expected_learning_gain a.expected_learning_gain
    || (nat_beq a.expected_learning_gain b.expected_learning_gain && is_lt (compare a.id b.id))

unfoldable pub insert_task : Task → List Task → List Task
insert_task t [] = t ∷ []
insert_task t (x ∷ xs) = if is_first x t then x ∷ insert_task t xs else t ∷ x ∷ xs

unfoldable pub sort_tasks : List Task → List Task
unfolding insert_task
sort_tasks [] = []
sort_tasks (t ∷ ts) = insert_task t (sort_tasks ts)

abbrev pub ids : List Task → List String
ids = map (λ (t : Task). t.id)

abbrev pub add_tier : List Task → Option (List (List Task)) → Option (List (List Task))
add_tier tier none = none
add_tier tier (some rest) = some (tier ∷ rest)

-- `none` is the ValueError on a cycle.
unfoldable pub tiers_from : ℕ → List String → List Task → Option (List (List Task))
tiers_from fuel done [] = some []
tiers_from zero done (x ∷ xs) = none
tiers_from (suc fuel) done (x ∷ xs) =
    let ready = filter (is_ready done) (x ∷ xs) in
    let waiting = filter (λ t. not (is_ready done t)) (x ∷ xs) in
    let rest = tiers_from fuel (ids ready ++ done) waiting in
    if nat_beq (length ready) 0 then none else add_tier (sort_tasks ready) rest

unfoldable pub tiers : List Task → Option (List (List Task))
tiers tasks = tiers_from (length tasks) [] tasks
