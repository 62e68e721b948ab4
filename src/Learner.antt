-- ===== src/Learner.antt =====
-- server/lingxilearn/state/evidence.py and the evidence log of
-- server/lingxilearn/store/runtime_state.py. The floats are values of a type `F` that is an argument;
-- the digest of an observation is a function of it that is an argument; a JSON object is its text. The
-- task and the identifier of an observation stand for the row's id, which joins them.
pub mod Numbers
pub mod Replays
pub mod Profile
pub mod Override
pub mod Summaries
pub mod Updater
mod Tests
use Prim.Native.String.{◌++◌ as ◌<>◌}
use lingxi_learn.Capabilities.{strip}
use lingxi_learn.Prelude.{
  ℕ, zero, suc, ◌+◌, String, Bool, true, false, ◌&&◌, not, Option, none, some, List, [], ◌∷◌, ◌++◌,
  ◌==◌, ltb, if◌then◌else◌,
}
use lingxi_learn.Prelude.Tables.{filter, find?, take}
use lingxi_learn.Prelude.Order.{sort_by}
use lingxi_learn.WorkLedger.Commands.{max_of}

pub data Signal : Type 0 where
  correct incorrect no_answer self_report dwell_time error_pattern artifact_viewed hint_used :
      Signal

unfoldable pub signal_value : Signal → String
signal_value correct = "correct"
signal_value incorrect = "incorrect"
signal_value no_answer = "no_answer"
signal_value self_report = "self_report"
signal_value dwell_time = "dwell_time"
signal_value error_pattern = "error_pattern"
signal_value artifact_viewed = "artifact_viewed"
signal_value hint_used = "hint_used"

unfoldable pub is_graded : Signal → Bool
is_graded correct = true
is_graded incorrect = true
is_graded no_answer = true
is_graded signal = false

pub record EvidenceRecord (F : Type 0) : Type 0 where
  pub learner_id : String
  pub knowledge_point : String
  pub signal : Signal
  pub source_agent : String
  pub task_id : String
  pub summary : String
  pub score : Option F
  pub misconceptions : List String
  pub hint_level : ℕ
  pub locator : String
  pub payload : String
  pub observed_at : ℕ

abbrev pub is_blank : String → Bool
is_blank s = strip s == ""

abbrev pub is_scored : {F : Type 0} → (F → Bool) → Signal → Option F → Bool
is_scored is_unit signal none = not (is_graded signal)
is_scored is_unit signal (some score) = is_unit score

-- `__post_init__`: whether the record may be made; `is_unit` is the test for 0..1.
unfoldable pub is_evidence : {F : Type 0} → (F → Bool) → EvidenceRecord F → Bool
is_evidence is_unit e =
    not (is_blank e.learner_id)
    && not (is_blank e.knowledge_point)
    && not (is_blank e.source_agent)
    && not (is_blank e.task_id)
    && is_scored is_unit e.signal e.score

pub record EvidenceRow (F : Type 0) : Type 0 where
  pub learner_id : String
  pub task_id : String
  pub evidence_id : String
  pub kind : String
  pub source : String
  pub summary : String
  pub locator : String
  pub score : Option F
  pub misconceptions : List String
  pub hint_level : ℕ
  pub knowledge_point : String
  pub signal : String
  pub source_agent : String
  pub payload : String
  pub observed_at : ℕ
  pub seq : ℕ

-- `to_row`, with the number that the repository gives
unfoldable pub to_row :
    {F : Type 0} → (EvidenceRecord F → String) → ℕ → EvidenceRecord F → EvidenceRow F
to_row evidence_id seq e = record {
  learner_id = e.learner_id;
  task_id = e.task_id;
  evidence_id = evidence_id e;
  kind = "learner_action";
  source = e.source_agent <> ":" <> signal_value e.signal;
  summary =
      if e.summary == "" then e.knowledge_point <> " · " <> signal_value e.signal else e.summary;
  locator = e.locator;
  score = e.score;
  misconceptions = e.misconceptions;
  hint_level = e.hint_level;
  knowledge_point = e.knowledge_point;
  signal = signal_value e.signal;
  source_agent = e.source_agent;
  payload = e.payload;
  observed_at = e.observed_at;
  seq = seq;
}

-- `max(seq)` of a learner, or 0
unfoldable pub highest : {F : Type 0} → String → List (EvidenceRow F) → ℕ
highest learner [] = 0
highest learner (r ∷ rs) =
    if r.learner_id == learner then max_of r.seq (highest learner rs) else highest learner rs

abbrev pub is_row : {F : Type 0} → String → String → EvidenceRow F → Bool
is_row task_id id r = r.task_id == task_id && r.evidence_id == id

-- `next_seq`, the last numbers that the batch has read or given
unfoldable pub next_of : String → List (String × ℕ) → Option ℕ
next_of learner [] = none
next_of learner ((l, n) ∷ rest) = if l == learner then some n else next_of learner rest

abbrev pub last_or : Option ℕ → ℕ → ℕ
last_or none n = n
last_or (some m) n = m

-- What the loop has after one record.
pub record Placed (F : Type 0) : Type 0 where
  pub row : EvidenceRow F
  pub next : List (String × ℕ)
  pub rows : List (EvidenceRow F)

-- the body of the loop, with the learner's last number and the row that has the record's id
unfoldable pub place :
    {F : Type 0}
    → (EvidenceRecord F → String)
    → EvidenceRecord F
    → List (String × ℕ)
    → List (EvidenceRow F)
    → ℕ
    → Option (EvidenceRow F)
    → Placed F
place evidence_id e next rows last (some existing) = record {
  row = existing;
  next = (e.learner_id, last) ∷ next;
  rows = rows;
}
place evidence_id e next rows last none =
    let row = to_row evidence_id (last + 1) e in
    record { row = row; next = (e.learner_id, last + 1) ∷ next; rows = rows ++ row ∷ [] }

unfoldable pub place_next :
    {F : Type 0}
    → (EvidenceRecord F → String)
    → EvidenceRecord F
    → List (String × ℕ)
    → List (EvidenceRow F)
    → Placed F
place_next evidence_id e next rows =
    place evidence_id e next rows (last_or (next_of e.learner_id next) (highest e.learner_id rows))
      (find? (is_row e.task_id (evidence_id e)) rows)

-- The loop of `_append_evidence_once` with `next_seq`: the rows after it, and the rows it answers.
unfoldable pub append_from :
    {F : Type 0}
    → (EvidenceRecord F → String)
    → List (EvidenceRecord F)
    → List (String × ℕ)
    → List (EvidenceRow F)
    → List (EvidenceRow F) × List (EvidenceRow F)
append_from evidence_id [] next rows = (rows, [])
append_from evidence_id (e ∷ es) next rows =
    let placed = place_next evidence_id e next rows in
    let rest = append_from evidence_id es placed.next placed.rows in (rest.0, placed.row ∷ rest.1)

unfoldable pub append_evidence :
    {F : Type 0}
    → (EvidenceRecord F → String)
    → List (EvidenceRecord F)
    → List (EvidenceRow F)
    → List (EvidenceRow F) × List (EvidenceRow F)
append_evidence evidence_id es rows = append_from evidence_id es [] rows

abbrev pub seq_before : {F : Type 0} → EvidenceRow F → EvidenceRow F → Bool
seq_before a b = ltb a.seq b.seq

unfoldable pub evidence_after :
    {F : Type 0} → String → ℕ → ℕ → List (EvidenceRow F) → List (EvidenceRow F)
evidence_after learner seq limit rows =
    take limit (sort_by seq_before (filter (λ r. r.learner_id == learner && ltb seq r.seq) rows))

unfoldable pub evidence_for_task :
    {F : Type 0} → String → ℕ → List (EvidenceRow F) → List (EvidenceRow F)
evidence_for_task task_id limit rows =
    take limit (sort_by seq_before (filter (λ r. r.task_id == task_id) rows))

-- The cursor of a learner's projection; `none` is a row that is missing.
abbrev pub projection_cursor : Option ℕ → ℕ
projection_cursor none = 0
projection_cursor (some seq) = seq

unfoldable pub advance_projection_cursor : ℕ → Option ℕ → Option ℕ
advance_projection_cursor zero cursor = cursor
advance_projection_cursor (suc n) none = some (suc n)
advance_projection_cursor (suc n) (some seq) = if ltb seq (suc n) then some (suc n) else some seq
