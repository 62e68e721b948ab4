-- ===== src/Learner/Summaries.antt =====
-- server/lingxilearn/runtime/state_updater.py: what the state updater derives from the observations of a
-- point: the learning state, the learner's questions and the misconceptions.
use lingxi_learn.Prelude.{
  ℕ, ◌-◌, String, Bool, false, ◌&&◌, not, Option, none, some, List, [], ◌∷◌, ◌++◌, ◌==◌, nat_beq,
  ltb, if◌then◌else◌,
}
use lingxi_learn.Prelude.Tables.{any, filter, drop, length}
use lingxi_learn.Capabilities.{strip}
use lingxi_learn.Learner.{EvidenceRow}

-- What is computed with floats: the tests of the code, and the functions of
-- server/lingxilearn/kernel/mastery.py and server/lingxilearn/state/scheduling.py that it calls.
pub record Arithmetic (F : Type 0) : Type 0 where
  pub is_zero : F → Bool
  pub is_demonstrated : F → Bool
  pub is_emerging : F → Bool
  pub is_clean : F → Bool
  pub next_mastery : F → F → ℕ → ℕ → F
  pub next_stability : F → F → F → ℕ → F
  pub due_at : F → ℕ → ℕ
  pub review_priority : F → Option ℕ → ℕ → ℕ → Bool → F
  pub recent_performance : List (EvidenceRow F) → String

unfoldable pub learning_state : {F : Type 0} → Arithmetic F → F → ℕ → Bool → ℕ → String
learning_state arithmetic mastery evidence_count has_misconceptions graded_count =
    if nat_beq evidence_count 0
    then "unknown"
    else if has_misconceptions
    then "misconception_evidence"
    else if ltb graded_count 2
    then "needs_recheck"
    else if arithmetic.is_demonstrated mastery
    then "demonstrated"
    else if arithmetic.is_emerging mastery
    then "emerging"
    else "not_observed"

abbrev pub contains : String → List String → Bool
contains x xs = any (λ y. y == x) xs

abbrev pub add_new : String → List String → List String
add_new x xs = if contains x xs then xs else xs ++ x ∷ []

unfoldable pub add_all_new : List String → List String → List String
add_all_new [] found = found
add_all_new (t ∷ ts) found = add_all_new ts (add_new t found)

-- the last 12
abbrev pub last_twelve : List String → List String
last_twelve xs = drop (length xs - 12) xs

unfoldable pub add_questions : {F : Type 0} → List (EvidenceRow F) → List String → List String
add_questions [] found = found
add_questions (r ∷ rs) found =
    let summary = strip r.summary in
    add_questions rs
      (if r.signal == "self_report" && not (summary == "") then add_new summary found else found)

unfoldable pub questions : {F : Type 0} → List String → List (EvidenceRow F) → List String
questions existing rows = last_twelve (add_questions rows existing)

abbrev pub is_clean_score : {F : Type 0} → Arithmetic F → Option F → Bool
is_clean_score arithmetic none = false
is_clean_score arithmetic (some score) = arithmetic.is_clean score

-- one round of `_misconceptions`: a clean correct answer retires the tags of its own row
unfoldable pub add_misconceptions :
    {F : Type 0} → Arithmetic F → EvidenceRow F → List String → List String
add_misconceptions arithmetic r found =
    let grown = add_all_new r.misconceptions found in
    if r.signal == "correct" && nat_beq r.hint_level 0 && is_clean_score arithmetic r.score
    then filter (λ tag. not (contains tag r.misconceptions)) grown
    else grown

unfoldable pub misconceptions :
    {F : Type 0} → Arithmetic F → List String → List (EvidenceRow F) → List String
misconceptions arithmetic found [] = found
misconceptions arithmetic found (r ∷ rs) =
    misconceptions arithmetic (add_misconceptions arithmetic r found) rs
