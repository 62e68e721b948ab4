-- ===== src/Interactions/Save.antt =====
-- server/lingxilearn/store/repositories/runtime.py: `save_interaction_answer`, and the interactions that
-- wait for an answer. The rollback after a violated unique key is the test of the first read.
use lingxi_learn.Prelude.{
  String, ◌≡◌, refl, Bool, true, false, ◌&&◌, Option, none, some, List, [], ◌∷◌, ◌++◌, ◌==◌,
}
use lingxi_learn.Prelude.Tables.{find?, filter}
use lingxi_learn.Interactions.{AgentInteraction, InteractionAnswer, Thread, is_answer}

-- The answers of the row that holds the key, and whether the call created it.
abbrev pub save_row :
    String → String → String → Option InteractionAnswer → Thread → Thread × String × Bool
save_row id answers key (some a) s = (s, a.answers, false)
save_row id answers key none s =
    let row : InteractionAnswer = record {
      interaction_id = id;
      answers = answers;
      idempotency_key = key;
    } in
    (record s { answers = s.answers ++ row ∷ [] }, answers, true)

unfoldable pub save_interaction_answer : String → String → String → Thread → Thread × String × Bool
save_interaction_answer id answers key s =
    save_row id answers key (find? (is_answer id key) s.answers) s

unfoldable pub pending_interactions : String → Thread → List AgentInteraction
pending_interactions task_id s =
    filter (λ i. i.task_id == task_id && i.status == "pending") s.interactions

pub save_row-interactions :
    (id answers key : String) (o : Option InteractionAnswer) (s : Thread)
    → (save_row id answers key o s).0.interactions ≡ s.interactions
save_row-interactions id answers key none s = refl
save_row-interactions id answers key (some a) s = refl
