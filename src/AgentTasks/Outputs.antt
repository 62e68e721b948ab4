-- ===== src/AgentTasks/Outputs.antt =====
-- server/lingxilearn/store/repositories/agent_tasks.py: the outputs that agents leave on a task.
use mathlib.Core.Path.{subst}
use lingxi_learn.Prelude.{
  ◌||◌, ◌-◌, none, some, Option, is_some, if◌then◌else◌, ◌++◌, ◌∷◌, ℕ, zero, suc, ◌≤◌, String, ◌≡◌,
  ◌↔◌, refl, Bool, true, false, List, [], ◌==◌, arith, Bool-cases, inl, inr,
}
use lingxi_learn.Prelude.Tables.{lookup, modify, length, drop}
use lingxi_learn.AgentTasks.{UserMessage, AgentTask, task_key}

-- `[...][-100:]`
unfoldable pub last_messages : List UserMessage → List UserMessage
last_messages ms = drop (length ms - 100) ms

abbrev pub with_message : Option String → String → ℕ → AgentTask → AgentTask
with_message agent value now t = record t {
  user_messages = last_messages (t.user_messages ++ record { agent = agent; value = value } ∷ []);
  updated_at = now;
}

abbrev pub is_companion : String → Bool
is_companion agent =
    agent == "learning_companion"
    || agent == "learner_interview"
    || agent == "answer_user"
    || agent == "probe_user"

-- `none` is the ValueError of an unknown agent.
unfoldable pub with_output : String → String → ℕ → AgentTask → Option AgentTask
with_output agent value now t =
    if agent == "intent"
    then some (record t { intent = value; updated_at = now })
    else if agent == "lecture_hook"
    then some (record t { lecture_result = value; updated_at = now })
    else if agent == "interactive_lecture_deck"
    then some (record t { deck_result = value; updated_at = now })
    else if agent == "quiz_generator"
    then some (record t { quiz_result = value; updated_at = now })
    else if agent == "adaptive_pedagogy"
    then some (record t { adaptive_result = value; updated_at = now })
    else if agent == "handoff"
    then some (record t { handoff_result = value; updated_at = now })
    else if agent == "user_message"
    then some (with_message none value now t)
    else if is_companion agent
    then some (with_message (some agent) value now t)
    else if agent == "visual_explainer"
    then some (record t { visual_result = value; updated_at = now })
    else none

abbrev pub row_or : AgentTask → Option AgentTask → AgentTask
row_or old none = old
row_or old (some row) = row

-- `with_output` fails for every row or for none.
abbrev pub output_row : String → String → ℕ → AgentTask → AgentTask
output_row agent value now t = row_or t (with_output agent value now t)

abbrev pub output_of :
    String → String → String → ℕ → Option AgentTask → List AgentTask → Option (List AgentTask)
output_of task_id agent value now none tasks = some tasks
output_of task_id agent value now (some t) tasks =
    if is_some (with_output agent value now t)
    then some (modify task_key task_id (output_row agent value now) tasks)
    else none

unfoldable pub update_agent_task_output :
    String → String → String → ℕ → List AgentTask → Option (List AgentTask)
update_agent_task_output task_id agent value now tasks =
    output_of task_id agent value now (lookup task_key task_id tasks) tasks

-- What holds of the two branches holds of the conditional.
if_either :
    (P : Option AgentTask → Type 0) (b : Bool) (x y : Option AgentTask)
    → P x
    → P y
    → P (if b then x else y)
if_either P true x y h k = h
if_either P false x y h k = k

-- An output fails, changes a column that is no message, or adds a message.
pub with_output-each :
    (P : Option AgentTask → Type 0) (agent value : String) (now : ℕ) (t : AgentTask)
    → P none
    → ((r : AgentTask)
        → r.id ≡ t.id
        → r.status ≡ t.status
        → r.user_messages ≡ t.user_messages
        → P (some r))
    → ((by : Option String) → P (some (with_message by value now t)))
    → P (with_output agent value now t)
unfolding with_output
with_output-each P agent value now t fails column message =
    either "intent" (column (record t { intent = value; updated_at = now }) refl refl refl) (
      either "lecture_hook"
        (column (record t { lecture_result = value; updated_at = now }) refl refl refl)
        (either "interactive_lecture_deck"
          (column (record t { deck_result = value; updated_at = now }) refl refl refl)
          (either "quiz_generator"
            (column (record t { quiz_result = value; updated_at = now }) refl refl refl)
            (either "adaptive_pedagogy"
              (column (record t { adaptive_result = value; updated_at = now }) refl refl refl)
              (either "handoff"
                (column (record t { handoff_result = value; updated_at = now }) refl refl refl)
                (either "user_message" (message none) (
                  if_either P (is_companion agent) _ _ (message (some agent)) (
                    either "visual_explainer"
                      (column (record t { visual_result = value; updated_at = now }) refl refl refl)
                      fails))))))))
  where
    either :
        {x y : Option AgentTask} (name : String) → P x → P y → P (if agent == name then x else y)
    either {x = x} {y = y} name h k = if_either P (agent == name) x y h k

length-drop {ℓ} : {A : Type ℓ} (n : ℕ) (xs : List A) → length (drop n xs) ≡ length xs - n
unfolding drop
length-drop zero xs = omega arith
length-drop (suc n) [] = omega arith
length-drop (suc n) (x ∷ xs) = omega (arith, length-drop n xs)

abbrev pub IsBounded : AgentTask → Type 0
IsBounded t = length t.user_messages ≤ 100

with_message-IsBounded :
    (by : Option String) (value : String) (now : ℕ) (t : AgentTask)
    → IsBounded (with_message by value now t)
unfolding last_messages
with_message-IsBounded by value now t =
    let messages = t.user_messages ++ record { agent = by; value = value } ∷ [] in
    omega (arith, length-drop (length messages - 100) messages)

output_row-IsBounded :
    (agent value : String) (now : ℕ) (t : AgentTask)
    → IsBounded t
    → IsBounded (output_row agent value now t)
output_row-IsBounded agent value now t h =
    with_output-each (λ o. IsBounded (row_or t o)) agent value now t h
      (λ r id status same. rw same h) (λ by. with_message-IsBounded by value now t)

unfoldable pub AllBounded : List AgentTask → Type 0
AllBounded [] = Unit {0}
AllBounded (t ∷ ts) = IsBounded t × AllBounded ts

modify-AllBounded :
    (k : String) (f : AgentTask → AgentTask) (ts : List AgentTask)
    → ((t : AgentTask) → IsBounded t → IsBounded (f t))
    → AllBounded ts
    → AllBounded (modify task_key k f ts)
unfolding modify AllBounded
modify-AllBounded k f [] keeps h = tt
modify-AllBounded k f (t ∷ ts) keeps h = elim (Bool-cases (t.id == k)) [
  | inl e ↦ rw e (keeps t (h.0), h.1)
  | inr e ↦ rw e (h.0, modify-AllBounded k f ts keeps (h.1))
]

-- The history is bounded: if every task has at most 100 messages and an output of an agent is stored,
-- every task has at most 100 messages; and storing fails just when the task exists and the agent is
-- unknown, which is to say that the output fails for that task's row.
pub update_agent_task_output-AllBounded :
    (task_id agent value : String) (now : ℕ) (tasks : List AgentTask)
    → AllBounded tasks
    → ((after : List AgentTask)
        → update_agent_task_output task_id agent value now tasks ≡ some after
        → AllBounded after)
      × ((update_agent_task_output task_id agent value now tasks ≡ none) ↔ (
          (t : AgentTask) × (lookup task_key task_id tasks ≡ some t)
          × (with_output agent value now t ≡ none)))
unfolding update_agent_task_output
update_agent_task_output-AllBounded task_id agent value now tasks h =
    go (lookup task_key task_id tasks)
  where
    step : (o : Option AgentTask) → Type 0
    step o =
        ((after : List AgentTask)
          → output_of task_id agent value now o tasks ≡ some after
          → AllBounded after)
        × ((output_of task_id agent value now o tasks ≡ none)
            ↔ ((t : AgentTask) × (o ≡ some t) × (with_output agent value now t ≡ none)))

    stored : AllBounded (modify task_key task_id (output_row agent value now) tasks)
    stored =
        modify-AllBounded task_id (output_row agent value now) tasks
          (output_row-IsBounded agent value now) h

    put : (t : AgentTask) (p : Option AgentTask) → with_output agent value now t ≡ p → step (some t)
    put t none e =
        ((λ after f. absurd (ground (arith, rw e at f))), ((λ f. (t, refl, e)), (λ f. rw e refl)))
    put t (some row) e = (
      (λ after f. subst AllBounded (ground (arith, rw e at f)) stored),
      (
        (λ f. absurd (ground (arith, rw e at f))),
        (λ (r, same, k). absurd (ground (arith, e, k, same))),
      ),
    )

    go : (o : Option AgentTask) → step o
    go none = (
      (λ after f. subst AllBounded (ground arith) h),
      ((λ f. absurd (ground arith)), (λ (r, same, k). absurd (ground arith))),
    )
    go (some t) = put t (with_output agent value now t) refl
