-- ===== src/GoalStack/Undo.antt =====
-- The undo record of a stack operation: the stack as dictionaries, before and after.
-- A dictionary's missing key or None is `none`; `value.get(k) or d` also replaces a falsy value.
use lingxi_learn.Prelude.{
  ℕ, suc, String, ◌≡◌, refl, ◌∙◌, ◌≢◌, Option, none, some, List, [], ◌∷◌, map, arith, ◌==◌, eq_iff,
  if◌then◌else◌, nat_beq,
}
use lingxi_learn.GoalStack.{
  Goal, GoalKind, long_term, current_kind, interrupt, GoalStatus, open_status, satisfied, abandoned,
  push, pop, abandon, replace,
}

pub record GoalDict : Type 0 where
  pub goal_type : Option String
  pub topic : Option String
  pub id : Option String
  pub kind : Option String
  pub knowledge_points : Option (List String)
  pub expected_outcome : Option String
  pub constraints : Option (List String)
  pub urgency : Option ℕ
  pub status : Option String
  pub satisfied_when : Option String
  pub created_by : Option String
  pub raw_utterance : Option String
  pub pushed_at : Option ℕ

unfoldable pub kind_value : GoalKind → String
kind_value long_term = "long_term"
kind_value current_kind = "current"
kind_value interrupt = "interrupt"

unfoldable pub status_value : GoalStatus → String
status_value open_status = "open"
status_value satisfied = "satisfied"
status_value abandoned = "abandoned"

unfoldable pub read_kind : String → Option GoalKind
read_kind s =
    if s == "long_term"
    then some long_term
    else if s == "current"
    then some current_kind
    else if s == "interrupt"
    then some interrupt
    else none

unfoldable pub read_status : String → Option GoalStatus
read_status s =
    if s == "open"
    then some open_status
    else if s == "satisfied"
    then some satisfied
    else if s == "abandoned"
    then some abandoned
    else none

-- `str(value or d)`
unfoldable pub text_or : Option String → String → String
text_or none d = d
text_or (some s) d = if s == "" then d else s

unfoldable pub list_or : Option (List String) → List String
list_or none = []
list_or (some xs) = xs

unfoldable pub number_or : Option ℕ → ℕ → ℕ
number_or none d = d
number_or (some n) d = if nat_beq n 0 then d else n

unfoldable pub time_or : Option ℕ → ℕ → ℕ
time_or none d = d
time_or (some n) d = n

unfoldable pub to_dict : Goal → GoalDict
unfolding kind_value status_value
to_dict g = record {
  goal_type = some g.goal_type;
  topic = some g.topic;
  id = some g.id;
  kind = some (kind_value g.kind);
  knowledge_points = some g.knowledge_points;
  expected_outcome = some g.expected_outcome;
  constraints = some g.constraints;
  urgency = some g.urgency;
  status = some (status_value g.status);
  satisfied_when = some g.satisfied_when;
  created_by = some g.created_by;
  raw_utterance = some g.raw_utterance;
  pushed_at = some g.pushed_at;
}

-- what is left of `from_dict` once the two enum values are read
unfoldable pub rebuild : String → ℕ → GoalDict → Option GoalKind → Option GoalStatus → Option Goal
rebuild fresh now d none status = none
rebuild fresh now d (some kind) none = none
rebuild fresh now d (some kind) (some status) = some (record {
  goal_type = text_or d.goal_type "learn";
  topic = text_or d.topic "";
  id = text_or d.id fresh;
  kind = kind;
  knowledge_points = list_or d.knowledge_points;
  expected_outcome = text_or d.expected_outcome "";
  constraints = list_or d.constraints;
  urgency = number_or d.urgency 500;
  status = status;
  satisfied_when = text_or d.satisfied_when "{}";
  created_by = text_or d.created_by "goal_interpreter";
  raw_utterance = text_or d.raw_utterance "";
  pushed_at = time_or d.pushed_at now;
})

-- `none` is the ValueError of an unknown kind or status.
unfoldable pub from_dict : String → ℕ → GoalDict → Option Goal
from_dict fresh now d =
    rebuild fresh now d (read_kind (text_or d.kind "current"))
      (read_status (text_or d.status "open"))

pub record StackOperation : Type 0 where
  pub op : String
  pub before : List GoalDict
  pub after : List GoalDict
  pub reason : String

unfoldable pub to_list : List Goal → List GoalDict
unfolding to_dict
to_list = map to_dict

-- The four mutating methods; each returns what the undo log stores.
pub data Mutation : Type 0 where
  push_goal : Goal → String → Mutation
  pop_goal : String → Option String → Mutation
  replace_goal : Goal → String → Mutation
  abandon_goal : String → Mutation

unfoldable pub change : Mutation → List Goal → List Goal
unfolding push pop replace abandon
change (push_goal goal reason) goals = push goal goals
change (pop_goal reason goal_id) goals = pop goal_id goals
change (replace_goal goal reason) goals = replace goal goals
change (abandon_goal reason) goals = abandon goals

unfoldable pub op_name : Mutation → String
op_name (push_goal goal reason) = "push"
op_name (pop_goal reason goal_id) = "pop"
op_name (replace_goal goal reason) = "replace"
op_name (abandon_goal reason) = "abandon"

unfoldable pub reason_of : Mutation → String
reason_of (push_goal goal reason) = reason
reason_of (pop_goal reason goal_id) = reason
reason_of (replace_goal goal reason) = reason
reason_of (abandon_goal reason) = reason

unfoldable pub mutate : Mutation → List Goal → List Goal × StackOperation
unfolding change op_name reason_of to_list
mutate m goals =
    let goals' = change m goals in
    (
      goals',
      record {
        op = op_name m;
        before = to_list goals;
        after = to_list goals';
        reason = reason_of m;
      },
    )

unfoldable pub prepend : Option Goal → Option (List Goal) → Option (List Goal)
prepend none gs = none
prepend (some g) none = none
prepend (some g) (some gs) = some (g ∷ gs)

-- `GoalStack(goals)`: each read draws the next fresh id and the next clock value.
unfoldable pub load : (ℕ → String) → (ℕ → ℕ) → ℕ → List GoalDict → Option (List Goal)
unfolding prepend
load fresh now n [] = some []
load fresh now n (d ∷ ds) = prepend (from_dict (fresh n) (now n) d) (load fresh now (suc n) ds)

read_kind-kind_value : (k : GoalKind) → read_kind (text_or (some (kind_value k)) "current") ≡ some k
unfolding read_kind kind_value text_or
read_kind-kind_value long_term = refl
read_kind-kind_value _ = refl

read_status-status_value :
    (s : GoalStatus) → read_status (text_or (some (status_value s)) "open") ≡ some s
unfolding read_status status_value text_or
read_status-status_value open_status = refl
read_status-status_value _ = refl

-- A goal none of whose texts and numbers is one that `or` would replace.
pub record IsRestorable (g : Goal) : Type 0 where
  pub typed : g.goal_type ≢ ""
  pub named : g.id ≢ ""
  pub urgent : g.urgency ≢ 0
  pub object : g.satisfied_when ≢ ""
  pub authored : g.created_by ≢ ""

text_or-some : (s d : String) → s ≢ "" → text_or (some s) d ≡ s
unfolding text_or
text_or-some s d h = ground (arith, eq_iff s "")

text_or-empty : (s : String) → text_or (some s) "" ≡ s
unfolding text_or
text_or-empty s = ground (arith, eq_iff s "")

number_or-some : (n d : ℕ) → n ≢ 0 → number_or (some n) d ≡ n
unfolding number_or
number_or-some n d h = ground arith

number_or-zero : (n d : ℕ) → n ≡ 0 → number_or (some n) d ≡ d
unfolding number_or
number_or-zero n d h = ground arith

rebuild-to_dict :
    (fresh : String) (now : ℕ) (g : Goal)
    → IsRestorable g
    → rebuild fresh now (to_dict g) (some g.kind) (some g.status) ≡ some g
unfolding rebuild to_dict list_or time_or
rebuild-to_dict fresh now g r = simp (
  text_or-some g.goal_type "learn" r.typed,
  text_or-some g.id fresh r.named,
  text_or-some g.satisfied_when "{}" r.object,
  text_or-some g.created_by "goal_interpreter" r.authored,
  text_or-empty,
  number_or-some g.urgency 500 r.urgent,
)

from_dict-rebuild :
    (fresh : String) (now : ℕ) (g : Goal)
    → from_dict fresh now (to_dict g) ≡ rebuild fresh now (to_dict g) (some g.kind) (some g.status)
unfolding from_dict to_dict
from_dict-rebuild fresh now g = rw (read_kind-kind_value g.kind, read_status-status_value g.status)

-- A stored goal is read back as it was.
pub from_dict-to_dict :
    (fresh : String) (now : ℕ) (g : Goal)
    → IsRestorable g
    → from_dict fresh now (to_dict g) ≡ some g
from_dict-to_dict fresh now g r = from_dict-rebuild fresh now g ∙ rebuild-to_dict fresh now g r

abbrev pub AllRestorable : List Goal → Type 0
AllRestorable [] = Unit
AllRestorable (g ∷ gs) = IsRestorable g × AllRestorable gs

load-to_list :
    (fresh : ℕ → String) (now : ℕ → ℕ) (n : ℕ) (goals : List Goal)
    → AllRestorable goals
    → load fresh now n (to_list goals) ≡ some goals
unfolding load to_list
load-to_list fresh now n [] h = refl
load-to_list fresh now n (g ∷ gs) h =
    rw (from_dict-to_dict (fresh n) (now n) g h.0, load-to_list fresh now (suc n) gs h.1)

-- Undo: the `before` of any push, pop, replace or abandon rebuilds the stack it was applied to, if the
-- urgency of each of its goals is not 0 and none of their goal_type, id, satisfied_when and created_by is
-- empty; the reader replaces such a value by a default.
pub undo :
    (fresh : ℕ → String) (now : ℕ → ℕ) (m : Mutation) (goals : List Goal)
    → AllRestorable goals
    → load fresh now 0 (mutate m goals).1.before ≡ some goals
unfolding mutate
undo fresh now m goals h = load-to_list fresh now 0 goals h

-- A goal stored with urgency 0 comes back with urgency 0.5: `or 0.5` replaces the zero.
pub from_dict-zero_urgency :
    (fresh : String) (now : ℕ) (g : Goal)
    → IsRestorable (record g { urgency = 1 })
    → g.urgency ≡ 0
    → from_dict fresh now (to_dict g) ≡ some (record g { urgency = 500 })
unfolding rebuild to_dict list_or time_or
from_dict-zero_urgency fresh now g r z =
    from_dict-rebuild fresh now g
    ∙ simp (
      text_or-some g.goal_type "learn" r.typed,
      text_or-some g.id fresh r.named,
      text_or-some g.satisfied_when "{}" r.object,
      text_or-some g.created_by "goal_interpreter" r.authored,
      text_or-empty,
      number_or-zero g.urgency 500 z,
    )
