-- ===== src/GoalStack/Tests.antt =====
-- Small stacks, and instances of the theorems about them.
use lingxi_learn.Prelude.{ℕ, ◌≡◌, ◌≢◌, refl, String, none, some, [], ◌∷◌, arith, eq_iff}
use lingxi_learn.GoalStack.{Goal, current_kind, long_term, open_status, current}
use lingxi_learn.GoalStack.Undo.{
  IsRestorable, from_dict, to_dict, undo, load, mutate, pop_goal, from_dict-zero_urgency,
}

abbrev goal : String → ℕ → Goal
goal id urgency = record {
  goal_type = "learn";
  topic = "DNS";
  id = id;
  kind = current_kind;
  knowledge_points = [];
  expected_outcome = "";
  constraints = [];
  urgency = urgency;
  status = open_status;
  satisfied_when = "{}";
  created_by = "goal_interpreter";
  raw_utterance = "";
  pushed_at = 7;
}

abbrev a : Goal
a = record (goal "a" 500) { kind = long_term }

abbrev b : Goal
b = goal "b" 500

abbrev fresh : ℕ → String
fresh n = "goal_new"

abbrev now : ℕ → ℕ
now n = n

a_ne_b : a ≢ b
a_ne_b e = cc

id_ne : ◌≢◌ {A = String} "b" ""
id_ne e = ground (arith, (eq_iff "b" "").1 e)

a_current : current (a ∷ []) ≡ some a
unfolding current
a_current = refl

b-IsRestorable : IsRestorable b
b-IsRestorable = record {
  typed = λ e. ground (arith, (eq_iff "learn" "").1 e);
  named = id_ne;
  urgent = omega arith;
  object = λ e. ground (arith, (eq_iff "{}" "").1 e);
  authored = λ e. ground (arith, (eq_iff "goal_interpreter" "").1 e);
}

undo_example : load fresh now 0 (mutate (pop_goal "done" none) (b ∷ [])).1.before ≡ some (b ∷ [])
undo_example = undo fresh now (pop_goal "done" none) (b ∷ []) (b-IsRestorable, tt)

from_dict-zero_urgency_example : from_dict "x" 0 (to_dict (goal "b" 0)) ≡ some (goal "b" 500)
from_dict-zero_urgency_example =
    from_dict-zero_urgency "x" 0 (goal "b" 0)
      (record {
        typed = b-IsRestorable.typed;
        named = b-IsRestorable.named;
        urgent = omega arith;
        object = b-IsRestorable.object;
        authored = b-IsRestorable.authored;
      })
      refl
