-- ===== src/Loop/Policy.antt =====
-- server/lingxilearn/runtime/evaluation.py: what follows a round.
use lingxi_learn.Prelude.{
  ℕ, none, some, Option, [], ◌-◌, String, Bool, true, false, ◌&&◌, ◌||◌, Option, none, some, List,
  [], ◌∷◌, ◌++◌, ◌==◌, if◌then◌else◌,
}
use lingxi_learn.Prelude.Tables.{any, all, drop, length}
use lingxi_learn.Capabilities.{info, parse}
use lingxi_learn.RunState.{RuntimeStatus, waiting_for_user, replanning, completed, failed}
use lingxi_learn.Completion.{ArtifactProbe, DoneCondition, CompletionContext, evaluate}
use lingxi_learn.Loop.{TaskOutcome, LoopState}

pub data ResultTag : Type 0 where
  goal_satisfied turn_complete background_pending no_progress replan : ResultTag

pub record PhaseDecision : Type 0 where
  pub status : RuntimeStatus
  pub result_tag : ResultTag

abbrev pub decision : RuntimeStatus → ResultTag → PhaseDecision
decision status tag = record { status = status; result_tag = tag }

-- A capability of an outcome is one of the vocabulary.
abbrev pub is_turn_complete : String → Bool
is_turn_complete capability = elim (parse capability) [
  | none ↦ false
  | some c ↦ (info c).turn_complete
]

abbrev pub completes_turn : TaskOutcome → Bool
completes_turn o = o.satisfied && is_turn_complete o.capability

abbrev pub is_stuck : TaskOutcome → Bool
is_stuck o = o.status == "failed" || o.status == "skipped" || o.status == "blocked"

-- `outcomes[-3:]`
abbrev pub last_three : List TaskOutcome → List TaskOutcome
last_three os = drop (length os - 3) os

unfoldable pub decide_next_phase : List TaskOutcome → Bool → Bool → Bool → PhaseDecision
decide_next_phase outcomes satisfied has_remaining_goals background =
    if satisfied
    then (if has_remaining_goals
        then decision replanning goal_satisfied
        else decision completed goal_satisfied)
    else if any completes_turn outcomes
    then decision waiting_for_user turn_complete
    else if background
    then decision waiting_for_user background_pending
    else if all is_stuck (last_three outcomes)
    then decision failed no_progress
    else decision replanning replan

-- the message of `no_progress`, and the reason of a goal that is reached
abbrev pub no_progress_message : String
no_progress_message = "本轮没有产生新的学习结果，已暂停自动编排，请换一种说法或继续补充要求。"

abbrev pub goal_patch : RuntimeStatus → LoopState → LoopState
goal_patch completed s = record s { finished_reason = "目标已达成" }
goal_patch status s = record s { replanning = true }

-- the decision's `extra_patch`
unfoldable pub with_patch : PhaseDecision → LoopState → LoopState
with_patch d s = elim d.result_tag [
  | goal_satisfied ↦ goal_patch d.status s
  | turn_complete ↦ record s { replanning = false }
  | background_pending ↦ s
  | no_progress ↦ record s {
    finished_reason = no_progress_message;
    messages = s.messages ++ no_progress_message ∷ [];
  }
  | replan ↦ record s { replanning = true }
]

-- what `evaluate_goal` reads for the goal's condition: the artifacts and the mastery of the profile's rows
pub record GoalFacts : Type 0 where
  pub artifacts : Option ArtifactProbe
  pub profile : String → Option ℕ

-- The other facts have the defaults of CompletionContext.
abbrev pub context_of : GoalFacts → CompletionContext
context_of facts = record {
  artifacts = facts.artifacts;
  evidence = [];
  profile = facts.profile;
  replied = false;
  graded = false;
  result = false;
}

-- `check_goal_satisfied`
unfoldable pub check_goal_satisfied : Option DoneCondition → GoalFacts → Bool
check_goal_satisfied none facts = false
check_goal_satisfied (some c) facts = evaluate c (context_of facts)
