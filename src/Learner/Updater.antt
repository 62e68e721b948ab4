-- ===== src/Learner/Updater.antt =====
-- server/lingxilearn/runtime/state_updater.py: StateUpdater, which folds the evidence past a learner's
-- cursor into the profile. A repository is the log, the profiles and the cursors of the projection; the
-- lock makes a call one step. The steps of mastery and stability, the review's time and priority and
-- the summary of recent performance, with their floats, are arguments; the wording of a change's reason
-- is left out.
pub mod Folds
use lingxi_learn.Prelude.{
  ℕ, ◌+◌, String, Bool, true, false, ◌||◌, Option, none, some, List, [], ◌∷◌, map, ◌==◌, ltb,
  if◌then◌else◌,
}
use lingxi_learn.Prelude.Tables.{all, filter, find?, length}
use lingxi_learn.WorkLedger.Commands.{max_of}
use lingxi_learn.Capabilities.{strip}
use lingxi_learn.Learner.{EvidenceRow, evidence_after, projection_cursor, advance_projection_cursor}
use lingxi_learn.Learner.Profile.{
  is_point, Floats, LearningProfile, ProfileDelta, ProfileChange, apply, is_delta,
}
use lingxi_learn.Learner.Summaries.{Arithmetic, learning_state, add_new, questions, misconceptions}

-- the rows of a point among those grouped
abbrev pub rows_of : {F : Type 0} → String → List (EvidenceRow F) → List (EvidenceRow F)
rows_of point rows = filter (λ r. strip r.knowledge_point == point) rows

-- the points of `_group_by_point`, in the order of their first rows
unfoldable pub points_of : {F : Type 0} → List (EvidenceRow F) → List String → List String
points_of [] found = found
points_of (r ∷ rs) found =
    let point = strip r.knowledge_point in
    points_of rs (if point == "" then found else add_new point found)

abbrev pub is_graded_row : {F : Type 0} → EvidenceRow F → Bool
is_graded_row r = r.signal == "correct" || r.signal == "incorrect" || r.signal == "no_answer"

-- Mastery and stability after the graded rows, with the index of the first
unfoldable pub fold_one :
    {F : Type 0} → Arithmetic F → F → ℕ → EvidenceRow F → Option F → F × F → F × F
fold_one arithmetic difficulty count r none levels = levels
fold_one arithmetic difficulty count r (some score) (mastery, stability) = (
  arithmetic.next_mastery mastery score r.hint_level count,
  arithmetic.next_stability stability score difficulty r.hint_level,
)

unfoldable pub fold_graded :
    {F : Type 0} → Arithmetic F → F → ℕ → List (EvidenceRow F) → F × F → F × F
fold_graded arithmetic difficulty count [] levels = levels
fold_graded arithmetic difficulty count (r ∷ rs) levels =
    fold_graded arithmetic difficulty (count + 1) rs
      (fold_one arithmetic difficulty count r r.score levels)

-- `float(x or d)`
abbrev pub float_or : {F : Type 0} → Arithmetic F → F → F → F
float_or arithmetic x d = if arithmetic.is_zero x then d else x

-- What `_delta_for` reads of the row that is there, or of none.
pub record Current (F : Type 0) : Type 0 where
  pub name : String
  pub mastery : F
  pub evidence_count : ℕ
  pub difficulty : F
  pub stability : F
  pub tags : List String
  pub asked : List String
  pub last_evidence_seq : ℕ

unfoldable pub current_of :
    {F : Type 0} → Floats F → Arithmetic F → String → Option (LearningProfile F) → Current F
current_of floats arithmetic point none = record {
  name = point;
  mastery = floats.default_mastery;
  evidence_count = 0;
  difficulty = floats.half;
  stability = floats.zero_value;
  tags = [];
  asked = [];
  last_evidence_seq = 0;
}
current_of floats arithmetic point (some r) = record {
  name = if r.knowledge_point == "" then point else r.knowledge_point;
  mastery = float_or arithmetic (floats.round4 r.mastery) floats.default_mastery;
  evidence_count = r.evidence_count;
  difficulty = float_or arithmetic (floats.round4 r.difficulty) floats.half;
  stability = floats.round4 r.stability;
  tags = r.misconceptions;
  asked = r.my_questions;
  last_evidence_seq = r.last_evidence_seq;
}

unfoldable pub max_seq : {F : Type 0} → List (EvidenceRow F) → ℕ
max_seq [] = 0
max_seq (r ∷ rs) = max_of r.seq (max_seq rs)

abbrev pub is_some_tag : List String → Bool
is_some_tag [] = false
is_some_tag (t ∷ ts) = true

unfoldable pub delta_for :
    {F : Type 0}
    → Floats F
    → Arithmetic F
    → String
    → String
    → Current F
    → List (EvidenceRow F)
    → String
    → ℕ
    → ProfileDelta F
delta_for floats arithmetic learner point c fresh source_agent now =
    let graded = filter is_graded_row fresh in
    let levels =
      fold_graded arithmetic c.difficulty c.evidence_count graded (c.mastery, c.stability) in
    let count = c.evidence_count + length fresh in
    let tags = misconceptions arithmetic c.tags fresh in
    let due = if arithmetic.is_zero levels.1 then none else some (arithmetic.due_at levels.1 now) in
    record {
      learner_id = learner;
      knowledge_point_id = point;
      evidence_ids = map (λ r. r.evidence_id) fresh;
      source_agent = source_agent;
      knowledge_point = some c.name;
      mastery = some levels.0;
      learning_state = some (
          learning_state arithmetic levels.0 count (is_some_tag tags)
            (length graded + c.evidence_count));
      progress = none;
      my_questions = some (questions c.asked fresh);
      recent_performance = some (arithmetic.recent_performance fresh);
      last_studied_at = some now;
      review_due_at = due;
      next_step = none;
      misconceptions = some tags;
      prerequisites = none;
      difficulty = none;
      review_priority = some (arithmetic.review_priority levels.0 due now count (is_some_tag tags));
      stability = some levels.1;
      evidence_count = some count;
      last_evidence_seq = some (max_seq fresh);
      reason = "";
    }

-- a point's last number that the profile has folded
abbrev pub seq_of : {F : Type 0} → Option (LearningProfile F) → ℕ
seq_of none = 0
seq_of (some r) = r.last_evidence_seq

abbrev pub watermark : {F : Type 0} → String → String → List (LearningProfile F) → ℕ
watermark learner point profiles = seq_of (find? (is_point learner point) profiles)

abbrev pub fresh_rows : {F : Type 0} → ℕ → List (EvidenceRow F) → List (EvidenceRow F)
fresh_rows mark rows = filter (λ r. ltb mark r.seq) rows

-- no change where nothing is fresh
abbrev pub add_delta :
    {F : Type 0}
    → List (EvidenceRow F)
    → ProfileDelta F
    → List (ProfileDelta F)
    → List (ProfileDelta F)
add_delta [] d ds = ds
add_delta (r ∷ rs) d ds = d ∷ ds

-- the loop of `apply` over the points
unfoldable pub deltas_of :
    {F : Type 0}
    → Floats F
    → Arithmetic F
    → String
    → String
    → ℕ
    → List (EvidenceRow F)
    → List (LearningProfile F)
    → List String
    → List (ProfileDelta F)
deltas_of floats arithmetic learner source_agent now pending profiles [] = []
deltas_of floats arithmetic learner source_agent now pending profiles (point ∷ points) =
    let c = current_of floats arithmetic point (find? (is_point learner point) profiles) in
    let fresh = fresh_rows (watermark learner point profiles) (rows_of point pending) in
    add_delta fresh (delta_for floats arithmetic learner point c fresh source_agent now)
      (deltas_of floats arithmetic learner source_agent now pending profiles points)

pub record Projection (F : Type 0) : Type 0 where
  pub log : List (EvidenceRow F)
  pub profiles : List (LearningProfile F)
  pub cursor : Option ℕ

-- The profiles after the changes of the pending rows; `none` is the error of a change that may not be
-- made.
unfoldable pub fold_pending :
    {F : Type 0}
    → Floats F
    → Arithmetic F
    → String
    → String
    → ℕ
    → List (EvidenceRow F)
    → List (LearningProfile F)
    → Option (List (LearningProfile F) × List (ProfileChange F))
fold_pending floats arithmetic learner source_agent now pending profiles =
    let ds =
      deltas_of floats arithmetic learner source_agent now pending profiles
        (points_of pending []) in
    if all (is_delta floats) ds then some (apply floats now ds profiles) else none

abbrev pub advance :
    {F : Type 0}
    → ℕ
    → Projection F
    → Option (List (LearningProfile F) × List (ProfileChange F))
    → Option (Projection F × List (ProfileChange F))
advance seq s none = none
advance seq s (some (profiles, changes)) =
    some
      (record s { profiles = profiles; cursor = advance_projection_cursor seq s.cursor }, changes)

abbrev pub update_pending :
    {F : Type 0}
    → Floats F
    → Arithmetic F
    → String
    → String
    → ℕ
    → List (EvidenceRow F)
    → Projection F
    → Option (Projection F × List (ProfileChange F))
update_pending floats arithmetic learner source_agent now [] s = some (s, [])
update_pending floats arithmetic learner source_agent now (r ∷ rs) s =
    advance (max_seq (r ∷ rs)) s
      (fold_pending floats arithmetic learner source_agent now (r ∷ rs) s.profiles)

-- `StateUpdater.apply`
unfoldable pub update :
    {F : Type 0}
    → Floats F
    → Arithmetic F
    → String
    → String
    → ℕ
    → ℕ
    → Projection F
    → Option (Projection F × List (ProfileChange F))
update floats arithmetic learner source_agent now limit s =
    update_pending floats arithmetic learner source_agent now
      (evidence_after learner (projection_cursor s.cursor) limit s.log) s
