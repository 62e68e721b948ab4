-- ===== src/Learner/Tests.antt =====
-- Observations of two learners, an overridden profile, and instances of the theorems about them.
use lingxi_learn.Prelude.{ℕ, ◌+◌, String, ◌≡◌, refl, true, none, some, List, [], ◌∷◌, nat_beq, leb}
use lingxi_learn.Prelude.Tables.{find?, filter, any, all, length}
use lingxi_learn.Capabilities.{is_space, strip, strip_left, strip_right}
use lingxi_learn.Learner.{
  EvidenceRow, EvidenceRecord, correct, append_evidence, append_from, place_next, place, next_of,
  highest, to_row, signal_value,
}
use lingxi_learn.Learner.Numbers.{IsRun, numbers, append_batches, append_batches-numbers}
use lingxi_learn.Learner.Replays.{AreStored, append_evidence-again}
use lingxi_learn.Learner.Profile.{
  Floats, LearningProfile, ProfileDelta, ProfileChange, is_delta, is_point, new_profile, apply,
}
use lingxi_learn.Learner.Summaries.{
  Arithmetic, learning_state, misconceptions, add_misconceptions, add_all_new, questions,
  add_questions,
}
use lingxi_learn.Learner.Updater.{
  Current, deltas_of, delta_for, fold_pending, fold_graded, fold_one, points_of, max_seq,
  current_of,
}
use lingxi_learn.Learner.Updater.Folds.{fold_pending-again}
use lingxi_learn.Learner.Profile.Frozen.{HasFrozen, apply-HasFrozen}

-- Scores are hundredths here.
abbrev observed : String → String → EvidenceRecord ℕ
observed learner summary = record {
  learner_id = learner;
  knowledge_point = "fractions";
  signal = correct;
  source_agent = "tutor";
  task_id = learner;
  summary = summary;
  score = some 90;
  misconceptions = [];
  hint_level = 0;
  locator = "{}";
  payload = "{}";
  observed_at = 5;
}

abbrev id_of : EvidenceRecord ℕ → String
id_of e = e.summary

-- the second batch has an observation of the first again
abbrev batch : List (EvidenceRecord ℕ)
batch = observed "a" "x" ∷ observed "b" "x" ∷ observed "a" "y" ∷ []

abbrev again : List (EvidenceRecord ℕ)
again = observed "a" "y" ∷ observed "a" "z" ∷ []

append_batches-numbers_example :
    let ns = numbers "a" (append_batches id_of (batch ∷ again ∷ []) []) in
    IsRun 1 (1 + length ns) ns
append_batches-numbers_example = append_batches-numbers id_of (batch ∷ again ∷ []) "a"

log_numbers : numbers "a" (append_batches id_of (batch ∷ again ∷ []) []) ≡ 1 ∷ 2 ∷ 3 ∷ []
unfolding numbers append_batches append_evidence append_from place_next place next_of highest to_row
    signal_value find?
log_numbers = refl

append_evidence-again_example :
    let first = append_evidence id_of batch [] in
    let later = append_evidence id_of again first.0 in
    AreStored id_of batch first.1 first.0
    × (append_evidence id_of batch later.0 ≡ (later.0, first.1))
append_evidence-again_example = append_evidence-again id_of batch again []

abbrev hundredths : Floats ℕ
hundredths = record {
  zero_value = 0;
  half = 50;
  default_mastery = 35;
  is_equal = λ a b. nat_beq a b;
  is_unit = λ a. leb a 100;
  round4 = λ a. a;
  confidence = λ n. n;
}

abbrev delta : ProfileDelta ℕ
delta = record {
  learner_id = "a";
  knowledge_point_id = "fractions";
  evidence_ids = "x" ∷ [];
  source_agent = "state_updater";
  knowledge_point = none;
  mastery = some 60;
  learning_state = some "emerging";
  progress = none;
  my_questions = none;
  recent_performance = none;
  last_studied_at = some 7;
  review_due_at = none;
  next_step = none;
  misconceptions = none;
  prerequisites = none;
  difficulty = none;
  review_priority = none;
  stability = none;
  evidence_count = some 1;
  last_evidence_seq = some 1;
  reason = "";
}

abbrev corrected_row : LearningProfile ℕ
corrected_row = record (new_profile hundredths delta 3) { override_flag = true; mastery = 80 }

found_row : find? (is_point "a" "fractions") (corrected_row ∷ []) ≡ some corrected_row
unfolding find? new_profile
found_row = refl

apply-HasFrozen_example : HasFrozen corrected_row (
    find?
      (is_point "a" "fractions")
      (apply hundredths 9 (delta ∷ delta ∷ []) (corrected_row ∷ [])).0)
apply-HasFrozen_example =
    apply-HasFrozen hundredths 9 (delta ∷ delta ∷ []) (corrected_row ∷ []) "a" "fractions"
      corrected_row found_row refl

abbrev steps : Arithmetic ℕ
steps = record {
  is_zero = λ a. nat_beq a 0;
  is_demonstrated = λ a. leb 75 a;
  is_emerging = λ a. leb 45 a;
  is_clean = λ a. leb 90 a;
  next_mastery = λ mastery score hint count. score;
  next_stability = λ stability score difficulty hint. stability + 1;
  due_at = λ stability now. now + stability;
  review_priority = λ mastery due now count has_misconceptions. 50;
  recent_performance = λ rows. "{}";
}

abbrev pending : List (EvidenceRow ℕ)
pending = to_row id_of 1 (observed "a" "x") ∷ []

abbrev folded : List (LearningProfile ℕ) × List (ProfileChange ℕ)
folded =
    apply hundredths 9
      (deltas_of hundredths steps "a" "state_updater" 9 pending [] (points_of pending [])) []

fold_runs :
    fold_pending hundredths steps "a" "state_updater" 9 pending [] ≡ some (folded.0, folded.1)
unfolding fold_pending deltas_of delta_for learning_state fold_graded fold_one misconceptions
    add_misconceptions add_all_new questions add_questions points_of max_seq current_of to_row
    signal_value filter find? any all is_delta strip strip_left strip_right is_space
fold_runs = refl

fold_pending-again_example :
    fold_pending hundredths steps "a" "state_updater" 12 pending folded.0 ≡ some (folded.0, [])
fold_pending-again_example =
    fold_pending-again hundredths steps "a" "state_updater" 9 12 pending [] folded.0 folded.1
      fold_runs

-- One observation without a grade before, one with a grade now: the state is not `needs_recheck`.
abbrev viewed_before : Current ℕ
viewed_before = record {
  name = "fractions";
  mastery = 35;
  evidence_count = 1;
  difficulty = 50;
  stability = 0;
  tags = [];
  asked = [];
  last_evidence_seq = 0;
}

one_grade :
    (delta_for hundredths steps "a" "fractions" viewed_before pending "state_updater"
      9).learning_state
    ≡ some "demonstrated"
unfolding delta_for learning_state fold_graded fold_one misconceptions add_misconceptions
    add_all_new to_row signal_value filter any
one_grade = refl

-- A mastery of zero is read as the default.
zero_mastery :
    (current_of hundredths steps "fractions" (some (record corrected_row { mastery = 0 }))).mastery
    ≡ 35
unfolding current_of new_profile
zero_mastery = refl
