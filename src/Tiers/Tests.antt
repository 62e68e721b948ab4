-- ===== src/Tiers/Tests.antt =====
-- A plan of three tasks, a cycle, and instances of the theorems about tiers.
use lingxi_learn.Prelude.{ℕ, String, ◌≡◌, refl, Bool, none, some, List, [], ◌∷◌}
use lingxi_learn.Prelude.Tables.{any, all, filter, sum_by}
use lingxi_learn.Tiers.{Task, insert_task, sort_tasks, tiers_from, tiers}
use lingxi_learn.Tiers.Order.{IsOrdered, count, tiers-IsOrdered}

abbrev task : String → List String → ℕ → Task
task id depends_on gain = record { id = id; depends_on = depends_on; expected_learning_gain = gain }

abbrev tasks : List Task
tasks = task "quiz" ("deck" ∷ []) 500 ∷ task "deck" [] 100 ∷ task "talk" [] 300 ∷ []

abbrev answer : List (List Task)
answer = (task "talk" [] 300 ∷ task "deck" [] 100 ∷ []) ∷ (task "quiz" ("deck" ∷ []) 500 ∷ []) ∷ []

tiers_run : tiers tasks ≡ some answer
unfolding tiers tiers_from sort_tasks insert_task filter all any
tiers_run = refl

cycle_run : tiers (task "a" ("b" ∷ []) 0 ∷ task "b" ("a" ∷ []) 0 ∷ []) ≡ none
unfolding tiers tiers_from sort_tasks insert_task filter all any
cycle_run = refl

tiers-IsOrdered_example :
    IsOrdered [] answer × ((test : Task → Bool) → sum_by (count test) answer ≡ count test tasks)
tiers-IsOrdered_example = tiers-IsOrdered tasks answer tiers_run
