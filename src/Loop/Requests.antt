-- ===== src/Loop/Requests.antt =====
-- server/lingxilearn/runtime/interactions.py: the questions that the loop may ask, their validators, the
-- follow-up of an answer, and the answer side. The id of an interaction is an argument.
use lingxi_learn.Prelude.{
  String, Bool, true, false, ◌&&◌, ◌||◌, not, Option, none, some, List, [], ◌∷◌, ◌++◌, ◌==◌, leb,
  if◌then◌else◌,
}
use lingxi_learn.Prelude.Tables.{all, length}
use Prim.Native.String.{◌++◌ as ◌<>◌}
use lingxi_learn.Capabilities.{strip}
use lingxi_learn.RunState.{planning}
use lingxi_learn.Loop.{
  LoopState, World, bad_request, no_interaction, invalid_resume, Result, done, raised, and_then,
  transition_status,
}

pub data QuestionType : Type 0 where
  single_select multi_select : QuestionType

pub record InteractionOption : Type 0 where
  pub id : String
  pub label : String

pub record InteractionQuestion : Type 0 where
  pub id : String
  pub type : QuestionType
  pub prompt : String
  pub options : List InteractionOption
  pub allow_free_text : Bool

pub data Presentation : Type 0 where
  question_presentation options_presentation : Presentation

pub record InteractionSpec : Type 0 where
  pub purpose : String
  pub presentation : Presentation
  pub blocking : Bool
  pub title : String
  pub prompt : String
  pub questions : List InteractionQuestion
  pub reason_code : String

-- `_options_required_for_select`; its second test follows from the first.
unfoldable pub is_question : InteractionQuestion → Bool
is_question q = not (q.prompt == "") && leb 2 (length q.options)

abbrev pub is_empty_list {ℓ} : {A : Type ℓ} → List A → Bool
is_empty_list [] = true
is_empty_list (x ∷ xs) = false

abbrev pub fits_presentation : Presentation → String → List InteractionQuestion → Bool
fits_presentation question_presentation prompt questions =
    not (is_empty_list questions) || not (prompt == "")
fits_presentation options_presentation prompt questions = not (is_empty_list questions)

-- `_shape_matches_presentation`, with the tests of the fields
unfoldable pub is_spec : InteractionSpec → Bool
is_spec spec =
    all is_question spec.questions
    && not (spec.reason_code == "")
    && fits_presentation spec.presentation spec.prompt spec.questions

-- `request_interaction`, with the repository's create_interaction
unfoldable pub request_interaction : String → InteractionSpec → LoopState → World → Result
request_interaction id spec s w =
    if spec.blocking
    then done (record s { pending_interaction = some id })
        (record w { interactions = w.interactions ++ id ∷ [] })
    else raised bad_request w

abbrev pub is_followup_eligible : String → Bool
is_followup_eligible capability =
    capability == "teach.explain"
    || capability == "dialog.answer"
    || capability == "dialog.converse"

abbrev pub followup_options : List InteractionOption
followup_options =
    record { id = "continue_deeper"; label = "我理解了，继续深入" }
    ∷ record { id = "explain_again"; label = "还是有点抽象，再解释一下" }
    ∷ record { id = "give_example"; label = "给我一个具体例子" }
    ∷ record { id = "quiz_me"; label = "出一道简单题检查我的理解" }
    ∷ []

abbrev pub followup_of : String → InteractionSpec
followup_of prompt = record {
  purpose = "assessment";
  presentation = options_presentation;
  blocking = true;
  title = "理解确认";
  prompt = prompt;
  questions =
      record {
        id = "followup";
        type = single_select;
        prompt = prompt;
        options = followup_options;
        allow_free_text = false;
      }
      ∷ [];
  reason_code = "post_answer_followup";
}

abbrev pub text_or : String → String → String
text_or s d = if s == "" then d else s

unfoldable pub build_followup_interaction : String → String → String → Option InteractionSpec
build_followup_interaction capability point topic =
    let subject = text_or topic (text_or point "这部分内容") in
    if is_followup_eligible capability
    then some (followup_of ("关于「" <> subject <> "」，你想接下来怎么做？"))
    else none

-- What the loop is resumed with: the answers of an interaction, or anything else.
pub data Resume : Type 0 where
  interaction_answer : String → Resume
  other_resume : Resume

abbrev pub clear_pending : LoopState → World → Result
clear_pending s w = done (record s { pending_interaction = none }) w

abbrev pub resume_with : String → Resume → LoopState → World → Result
resume_with task_id (interaction_answer id) s w =
    and_then (transition_status task_id planning s w) clear_pending
resume_with task_id other_resume s w = raised invalid_resume w

abbrev pub resume_pending : String → Option String → Resume → LoopState → World → Result
resume_pending task_id none answer s w = raised no_interaction w
resume_pending task_id (some id) answer s w = resume_with task_id answer s w

-- `await_user` with a checkpointer
unfoldable pub await_user : String → Resume → LoopState → World → Result
await_user task_id answer s w = resume_pending task_id s.pending_interaction answer s w

pub record InteractionAnswer : Type 0 where
  pub question_id : String
  pub selected_option_ids : List String
  pub text : Option String

abbrev pub is_blank_text : Option String → Bool
is_blank_text none = true
is_blank_text (some s) = strip s == ""

-- `_non_empty`
unfoldable pub is_answer : InteractionAnswer → Bool
is_answer a = not (is_empty_list a.selected_option_ids && is_blank_text a.text)
