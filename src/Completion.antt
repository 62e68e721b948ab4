-- ===== src/Completion.antt =====
-- server/lingxilearn/runtime/completion.py: `evaluate`, and the DoneCondition of
-- server/lingxilearn/runtime/contracts.py, one constructor for a kind with the fields that it reads.
-- The verdict's sentence is left out. Mastery is in thousandths; a missing value of a row is "" or 0.
-- The artifact store behind the probe is a pair of functions.
pub mod Progress
mod Tests
use lingxi_learn.Prelude.{
  ℕ, String, Bool, true, false, ◌&&◌, ◌||◌, Option, none, some, List, ◌==◌, leb, if◌then◌else◌,
}
use lingxi_learn.Prelude.Tables.{filter, length}

mutual
  pub data DoneCondition : Type 0 where
    always provider_result user_replied quiz_graded : DoneCondition
    artifact_exists artifact_valid : String → DoneCondition
    evidence_observed : String → String → ℕ → DoneCondition
    profile_reaches : String → ℕ → DoneCondition
    all_of any_of : Conditions → DoneCondition

  pub data Conditions : Type 0 where
    no_conditions : Conditions
    condition : DoneCondition → Conditions → Conditions

pub record ArtifactProbe : Type 0 where
  pub exists : String → Bool
  pub is_valid : String → Bool

pub record Evidence : Type 0 where
  pub signal : String
  pub knowledge_point : String

-- `profile` gives the mastery of a row, if there is a row.
pub record CompletionContext : Type 0 where
  pub artifacts : Option ArtifactProbe
  pub evidence : List Evidence
  pub profile : String → Option ℕ
  pub replied : Bool
  pub graded : Bool
  pub result : Bool

abbrev pub probe_exists : Option ArtifactProbe → String → Bool
probe_exists none artifact = false
probe_exists (some p) artifact = p.exists artifact

abbrev pub probe_valid : Option ArtifactProbe → String → Bool
probe_valid none artifact = false
probe_valid (some p) artifact = if p.exists artifact then p.is_valid artifact else false

abbrev pub is_match : String → String → Evidence → Bool
is_match signal point row = row.signal == signal && (point == "" || row.knowledge_point == point)

abbrev pub reaches : ℕ → Option ℕ → Bool
reaches mastery none = false
reaches mastery (some m) = leb mastery m

unfoldable mutual
  pub evaluate : DoneCondition → CompletionContext → Bool
  evaluate always c = true
  evaluate provider_result c = c.result
  evaluate user_replied c = c.replied
  evaluate quiz_graded c = c.graded
  evaluate (artifact_exists artifact) c = probe_exists c.artifacts artifact
  evaluate (artifact_valid artifact) c = probe_valid c.artifacts artifact
  evaluate (evidence_observed signal point count) c =
      leb count (length (filter (is_match signal point) c.evidence))
  evaluate (profile_reaches point mastery) c = reaches mastery (c.profile point)
  evaluate (all_of cs) c = evaluate_all cs c
  evaluate (any_of cs) c = evaluate_any cs c

  pub evaluate_all : Conditions → CompletionContext → Bool
  evaluate_all no_conditions c = true
  evaluate_all (condition x cs) c = evaluate x c && evaluate_all cs c

  pub evaluate_any : Conditions → CompletionContext → Bool
  evaluate_any no_conditions c = false
  evaluate_any (condition x cs) c = evaluate x c || evaluate_any cs c

-- A task without a condition is done when it ran.
unfoldable pub evaluate_task : Option DoneCondition → CompletionContext → Bool
evaluate_task none c = true
evaluate_task (some x) c = evaluate x c
