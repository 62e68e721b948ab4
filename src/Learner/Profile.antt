-- ===== src/Learner/Profile.antt =====
-- server/lingxilearn/store/profile_writer.py and server/lingxilearn/domain/learning_profile.py: the
-- only writer of a learner's profile. A row is named by its learner and knowledge point, whose ids the
-- row's id joins; a snapshot of it is the row itself. Floats and what is computed with them are
-- arguments; a JSON object is its text.
pub mod Frozen
use lingxi_learn.Prelude.{
  ℕ, ◌+◌, String, Bool, true, false, ◌&&◌, ◌||◌, not, Option, none, some, List, [], ◌∷◌, ◌++◌, ◌==◌,
  nat_beq, if◌then◌else◌,
}
use lingxi_learn.Prelude.Tables.{find?, modify_first}
use lingxi_learn.WorkLedger.Commands.{max_of}
use lingxi_learn.Learner.{is_blank}

-- The constants of the floats, their equality, the test for 0..1, `round(x, 4)`, and `confidence` of
-- server/lingxilearn/state/scheduling.py.
pub record Floats (F : Type 0) : Type 0 where
  pub zero_value : F
  pub half : F
  pub default_mastery : F
  pub is_equal : F → F → Bool
  pub is_unit : F → Bool
  pub round4 : F → F
  pub confidence : ℕ → F

pub record LearningProfile (F : Type 0) : Type 0 where
  pub learner_id : String
  pub knowledge_point_id : String
  pub knowledge_point : String
  pub mastery : F
  pub learning_state : String
  pub progress : F
  pub my_questions : List String
  pub recent_performance : String
  pub last_studied_at : Option ℕ
  pub review_due_at : Option ℕ
  pub next_step : String
  pub confidence : F
  pub evidence_count : ℕ
  pub misconceptions : List String
  pub prerequisites : List String
  pub difficulty : F
  pub review_priority : F
  pub stability : F
  pub source_agent : String
  pub revision : ℕ
  pub override_flag : Bool
  pub last_evidence_seq : ℕ
  pub updated_at : ℕ

pub record ProfileDelta (F : Type 0) : Type 0 where
  pub learner_id : String
  pub knowledge_point_id : String
  pub evidence_ids : List String
  pub source_agent : String
  pub knowledge_point : Option String
  pub mastery : Option F
  pub learning_state : Option String
  pub progress : Option F
  pub my_questions : Option (List String)
  pub recent_performance : Option String
  pub last_studied_at : Option ℕ
  pub review_due_at : Option ℕ
  pub next_step : Option String
  pub misconceptions : Option (List String)
  pub prerequisites : Option (List String)
  pub difficulty : Option F
  pub review_priority : Option F
  pub stability : Option F
  pub evidence_count : Option ℕ
  pub last_evidence_seq : Option ℕ
  pub reason : String

pub record ProfileChange (F : Type 0) : Type 0 where
  pub learner_id : String
  pub knowledge_point_id : String
  pub before : LearningProfile F
  pub after : LearningProfile F
  pub evidence_ids : List String
  pub source_agent : String
  pub reason : String

abbrev pub is_learning_state : String → Bool
is_learning_state s =
    s == "unknown"
    || s == "not_observed"
    || s == "emerging"
    || s == "demonstrated"
    || s == "misconception_evidence"
    || s == "needs_recheck"

abbrev pub is_none_or : {A : Type 0} → (A → Bool) → Option A → Bool
is_none_or test none = true
is_none_or test (some x) = test x

abbrev pub is_empty_list : List String → Bool
is_empty_list [] = true
is_empty_list (x ∷ xs) = false

-- `__post_init__`: whether the change may be made
unfoldable pub is_delta : {F : Type 0} → Floats F → ProfileDelta F → Bool
is_delta floats d =
    not (is_blank d.learner_id)
    && not (is_blank d.knowledge_point_id)
    && not (is_empty_list d.evidence_ids)
    && not (is_blank d.source_agent)
    && is_none_or is_learning_state d.learning_state
    && is_none_or floats.is_unit d.mastery
    && is_none_or floats.is_unit d.progress
    && is_none_or floats.is_unit d.difficulty
    && is_none_or floats.is_unit d.review_priority

abbrev pub is_point : {F : Type 0} → String → String → LearningProfile F → Bool
is_point learner point r = r.learner_id == learner && r.knowledge_point_id == point

abbrev pub name_or : Option String → String → String
name_or none d = d
name_or (some s) d = if s == "" then d else s

unfoldable pub new_profile : {F : Type 0} → Floats F → ProfileDelta F → ℕ → LearningProfile F
new_profile floats d now = record {
  learner_id = d.learner_id;
  knowledge_point_id = d.knowledge_point_id;
  knowledge_point = name_or d.knowledge_point d.knowledge_point_id;
  mastery = floats.default_mastery;
  learning_state = "unknown";
  progress = floats.zero_value;
  my_questions = [];
  recent_performance = "{}";
  last_studied_at = none;
  review_due_at = none;
  next_step = "{}";
  confidence = floats.zero_value;
  evidence_count = 0;
  misconceptions = [];
  prerequisites = [];
  difficulty = floats.half;
  review_priority = floats.zero_value;
  stability = floats.zero_value;
  source_agent = "";
  revision = 0;
  override_flag = false;
  last_evidence_seq = 0;
  updated_at = now;
}

-- `put` of a field that the learner does not own
abbrev pub put : {A : Type 0} → Option A → A → A
put none old = old
put (some v) old = v

abbrev pub put_time : Option ℕ → Option ℕ → Option ℕ
put_time none old = old
put_time (some v) old = some v

-- `put` of a field that the learner owns, in a row that is frozen or not
unfoldable pub put_owned : {A : Type 0} → Bool → Option A → A → A
put_owned true v old = old
put_owned false v old = put v old

abbrev pub rounded : {F : Type 0} → Floats F → Option F → Option F
rounded floats none = none
rounded floats (some x) = some (floats.round4 x)

abbrev pub counted : {F : Type 0} → Floats F → Option ℕ → F → F
counted floats none old = old
counted floats (some n) old = floats.confidence n

abbrev pub advanced : Option ℕ → ℕ → ℕ
advanced none old = old
advanced (some n) old = max_of old n

-- `_assign`
unfoldable pub assign :
    {F : Type 0} → Floats F → ProfileDelta F → Bool → LearningProfile F → LearningProfile F
assign floats d frozen r = record r {
  knowledge_point = put d.knowledge_point r.knowledge_point;
  mastery = put_owned frozen (rounded floats d.mastery) r.mastery;
  learning_state = put_owned frozen d.learning_state r.learning_state;
  progress = put_owned frozen (rounded floats d.progress) r.progress;
  my_questions = put d.my_questions r.my_questions;
  recent_performance = put d.recent_performance r.recent_performance;
  last_studied_at = put_time d.last_studied_at r.last_studied_at;
  review_due_at = put_time d.review_due_at r.review_due_at;
  next_step = put_owned frozen d.next_step r.next_step;
  misconceptions = put d.misconceptions r.misconceptions;
  prerequisites = put d.prerequisites r.prerequisites;
  difficulty = put_owned frozen d.difficulty r.difficulty;
  review_priority = put d.review_priority r.review_priority;
  stability = put d.stability r.stability;
  evidence_count = put d.evidence_count r.evidence_count;
  confidence = counted floats d.evidence_count r.confidence;
  last_evidence_seq = advanced d.last_evidence_seq r.last_evidence_seq;
}

unfoldable pub texts_beq : List String → List String → Bool
texts_beq [] [] = true
texts_beq [] (y ∷ ys) = false
texts_beq (x ∷ xs) [] = false
texts_beq (x ∷ xs) (y ∷ ys) = x == y && texts_beq xs ys

abbrev pub times_beq : Option ℕ → Option ℕ → Bool
times_beq none none = true
times_beq none (some n) = false
times_beq (some m) none = false
times_beq (some m) (some n) = nat_beq m n

abbrev pub flags_beq : Bool → Bool → Bool
flags_beq true b = b
flags_beq false b = not b

-- whether two snapshots are equal but for the revision
unfoldable pub same_but_revision :
    {F : Type 0} → Floats F → LearningProfile F → LearningProfile F → Bool
same_but_revision floats a b =
    a.knowledge_point == b.knowledge_point
    && floats.is_equal a.mastery b.mastery
    && a.learning_state == b.learning_state
    && floats.is_equal a.progress b.progress
    && texts_beq a.my_questions b.my_questions
    && a.recent_performance == b.recent_performance
    && times_beq a.last_studied_at b.last_studied_at
    && times_beq a.review_due_at b.review_due_at
    && a.next_step == b.next_step
    && floats.is_equal a.confidence b.confidence
    && nat_beq a.evidence_count b.evidence_count
    && texts_beq a.misconceptions b.misconceptions
    && texts_beq a.prerequisites b.prerequisites
    && floats.is_equal a.difficulty b.difficulty
    && floats.is_equal a.review_priority b.review_priority
    && floats.is_equal a.stability b.stability
    && a.source_agent == b.source_agent
    && flags_beq a.override_flag b.override_flag
    && nat_beq a.last_evidence_seq b.last_evidence_seq

-- the row after a change, with the next revision
unfoldable pub updated :
    {F : Type 0} → Floats F → ProfileDelta F → ℕ → LearningProfile F → LearningProfile F
updated floats d now r = record (assign floats d r.override_flag r) {
  source_agent = d.source_agent;
  revision = r.revision + 1;
  updated_at = now;
}

unfoldable pub change_of :
    {F : Type 0} → ProfileDelta F → LearningProfile F → LearningProfile F → ProfileChange F
change_of d before after = record {
  learner_id = d.learner_id;
  knowledge_point_id = d.knowledge_point_id;
  before = before;
  after = after;
  evidence_ids = d.evidence_ids;
  source_agent = d.source_agent;
  reason = d.reason;
}

abbrev pub keep_revision :
    {F : Type 0} → Floats F → LearningProfile F → LearningProfile F → LearningProfile F
keep_revision floats before after = record after {
  revision = if same_but_revision floats before after then before.revision else after.revision;
}

-- One round of `apply`, on the row that is there or not; a change that moves nothing but the revision
-- is none.
unfoldable pub apply_one :
    {F : Type 0}
    → Floats F
    → ProfileDelta F
    → ℕ
    → List (LearningProfile F)
    → Option (LearningProfile F)
    → List (LearningProfile F) × List (ProfileChange F)
apply_one floats d now rows none =
    let before = new_profile floats d now in
    let after = updated floats d now before in (rows ++ after ∷ [], change_of d before after ∷ [])
apply_one floats d now rows (some before) =
    let after = updated floats d now before in
    (
      modify_first (is_point d.learner_id d.knowledge_point_id)
          (λ r. keep_revision floats r (updated floats d now r)) rows,
      if same_but_revision floats before after then [] else change_of d before after ∷ [],
    )

unfoldable pub apply :
    {F : Type 0}
    → Floats F
    → ℕ
    → List (ProfileDelta F)
    → List (LearningProfile F)
    → List (LearningProfile F) × List (ProfileChange F)
apply floats now [] rows = (rows, [])
apply floats now (d ∷ ds) rows =
    let first =
      apply_one floats d now rows (find? (is_point d.learner_id d.knowledge_point_id) rows) in
    let rest = apply floats now ds first.0 in (rest.0, first.1 ++ rest.1)
