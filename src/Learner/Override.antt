-- ===== src/Learner/Override.antt =====
-- server/lingxilearn/store/profile_writer.py: set_override, a learner's own correction of a profile. An
-- error leaves the rows as they were, as its transaction is not committed.
use lingxi_learn.Prelude.{ℕ, ◌+◌, String, Bool, Option, none, some, List, [], ◌∷◌, if◌then◌else◌}
use lingxi_learn.Prelude.Tables.{find?, modify_first}
use lingxi_learn.Learner.Profile.{LearningProfile, ProfileChange, is_learning_state, is_point}

-- a field that a learner sends, by name
pub data Edit (F : Type 0) : Type 0 where
  edit_mastery : F → Edit F
  edit_learning_state : String → Edit F
  edit_progress : F → Edit F
  edit_difficulty : F → Edit F
  edit_next_step : String → Edit F
  edit_other : String → Edit F

-- `none` is InvalidProfileField
unfoldable pub edit_row : {F : Type 0} → Edit F → LearningProfile F → Option (LearningProfile F)
edit_row (edit_mastery x) r = some (record r { mastery = x })
edit_row (edit_learning_state s) r =
    if is_learning_state s then some (record r { learning_state = s }) else none
edit_row (edit_progress x) r = some (record r { progress = x })
edit_row (edit_difficulty x) r = some (record r { difficulty = x })
edit_row (edit_next_step s) r = some (record r { next_step = s })
edit_row (edit_other name) r = none

abbrev pub and_then :
    {F : Type 0}
    → Option (LearningProfile F)
    → (LearningProfile F → Option (LearningProfile F))
    → Option (LearningProfile F)
and_then none f = none
and_then (some r) f = f r

unfoldable pub edit_all :
    {F : Type 0} → List (Edit F) → LearningProfile F → Option (LearningProfile F)
edit_all [] r = some r
edit_all (e ∷ es) r = and_then (edit_row e r) (λ next. edit_all es next)

pub data Overridden (F : Type 0) : Type 0 where
  unknown_point : Overridden F
  invalid_field : Overridden F
  changed : ProfileChange F → Overridden F

abbrev pub corrected : {F : Type 0} → ℕ → LearningProfile F → LearningProfile F
corrected now r = record r { source_agent = "learner"; revision = r.revision + 1; updated_at = now }

abbrev pub learner_change :
    {F : Type 0} → String → String → LearningProfile F → LearningProfile F → ProfileChange F
learner_change learner point before after = record {
  learner_id = learner;
  knowledge_point_id = point;
  before = before;
  after = after;
  evidence_ids = [];
  source_agent = "learner";
  reason = "learner override";
}

unfoldable pub write_override :
    {F : Type 0}
    → String
    → String
    → ℕ
    → List (LearningProfile F)
    → LearningProfile F
    → Option (LearningProfile F)
    → List (LearningProfile F) × Overridden F
write_override learner point now rows before none = (rows, invalid_field)
write_override learner point now rows before (some edited) = (
  modify_first (is_point learner point) (λ r. corrected now edited) rows,
  changed (learner_change learner point before (corrected now edited)),
)

unfoldable pub override_row :
    {F : Type 0}
    → String
    → String
    → Bool
    → List (Edit F)
    → ℕ
    → List (LearningProfile F)
    → Option (LearningProfile F)
    → List (LearningProfile F) × Overridden F
override_row learner point enabled edits now rows none = (rows, unknown_point)
override_row learner point enabled edits now rows (some before) =
    write_override learner point now rows before
      (edit_all edits (record before { override_flag = enabled }))

unfoldable pub set_override :
    {F : Type 0}
    → String
    → String
    → Bool
    → List (Edit F)
    → ℕ
    → List (LearningProfile F)
    → List (LearningProfile F) × Overridden F
set_override learner point enabled edits now rows =
    override_row learner point enabled edits now rows (find? (is_point learner point) rows)
