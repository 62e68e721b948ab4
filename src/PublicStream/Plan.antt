-- ===== src/PublicStream/Plan.antt =====
-- server/lingxilearn/runtime/public_projection.py: what each handler of PublicProjector does to the
-- projector's state, and the payloads that it then emits in order. `Payload` has the keys that the
-- handlers read, "" for a missing text. A kind of event is the name of its handler. The texts that the
-- tools may show of their parameters and results are arguments.
use lingxi_learn.Prelude.{
  ℕ, String, Bool, true, false, ◌&&◌, ◌||◌, not, Option, none, some, List, [], ◌∷◌, ◌++◌, map, ◌==◌,
  if◌then◌else◌,
}
use lingxi_learn.Prelude.Tables.{any, filter, find?}
use lingxi_learn.PublicStream.{
  StreamScope, EventScope, TraceScope, SpanStartPayload, InteractionQuestionPayload, Body,
  span_start, span_end, interaction_requested, interaction_resolved, run, complete,
}

pub record Interrupt : Type 0 where
  pub kind : String
  pub interaction_id : String

pub record ToolCall : Type 0 where
  pub id : String
  pub name : String
  pub arguments : String

-- `questions` is missing unless it is a list; `blocking` and `dismissible` may be missing.
pub record Payload : Type 0 where
  pub agent_run_id : String
  pub parent_agent_run_id : String
  pub presentation_role : String
  pub provider : String
  pub provider_id : String
  pub display_name : String
  pub agent_display_name : String
  pub execution_kind : String
  pub capability : String
  pub status : String
  pub message : String
  pub interrupts : List Interrupt
  pub interaction_id : String
  pub camel_interaction_id : String
  pub purpose : String
  pub presentation : String
  pub blocking : Option Bool
  pub title : String
  pub prompt : String
  pub reason_code : String
  pub questions : Option (List InteractionQuestionPayload)
  pub dismissible : Option Bool
  pub answers : String
  pub skill_run_id : String
  pub skill_id : String
  pub version : String
  pub text : String
  pub stream_id : String
  pub delta : String
  pub calls : List ToolCall
  pub tool_call_id : String
  pub name : String
  pub content : String
  pub artifact : String
  pub artifact_record_id : String
  pub artifact_title : String
  pub relative_path : String

pub record NativeEvent : Type 0 where
  pub kind : String
  pub agent : String
  pub payload : Payload

-- server/lingxilearn/tools/public_projection.py, as far as it is called: a tool's title and what may
-- be shown of its parameters and result
pub record ToolView : Type 0 where
  pub display_title : String → String
  pub is_known_tool : String → Bool
  pub params : String → String → List (String × String)
  pub result : String → String → String → List (String × String)

-- `open_spans` is a set; `agent_runs` and `roles` are dictionaries, the last entry first.
pub record Projector : Type 0 where
  pub stream : StreamScope
  pub trace : TraceScope
  pub seq : ℕ
  pub agent_runs : List (String × String)
  pub open_spans : List String
  pub roles : List (String × String)
  pub terminated : Bool

-- A payload to emit, with its scope.
pub record Draft : Type 0 where
  pub body : Body
  pub scope : EventScope

abbrev pub draft : Body → String → String → Draft
draft body agent_run_id skill_run_id = record {
  body = body;
  scope = record { agent_run_id = agent_run_id; skill_run_id = skill_run_id };
}

abbrev pub text_or : String → String → String
text_or s d = if s == "" then d else s

-- `d.get(k, "")`
unfoldable pub get : String → List (String × String) → String
get k [] = ""
get k ((j, v) ∷ rest) = if j == k then v else get k rest

abbrev pub is_open : String → List String → Bool
is_open k spans = any (λ j. j == k) spans

abbrev pub discard : String → List String → List String
discard k spans = filter (λ j. not (j == k)) spans

abbrev pub run_of : Projector → Payload → String → String
run_of p e agent = text_or e.agent_run_id (get agent p.agent_runs)

abbrev pub run_draft : Projector → String → String → Draft
run_draft p status interaction_id = draft (run status p.stream.execution_id interaction_id) "" ""

abbrev pub interaction_of : Option Interrupt → String
interaction_of none = ""
interaction_of (some i) = i.interaction_id

unfoldable pub on_run_paused : Projector → Payload → List Draft
on_run_paused p e =
    run_draft p "checkpoint_pause"
      (interaction_of (find? (λ i. i.kind == "interaction") e.interrupts))
    ∷ []

-- `_terminal_run`, with the run's status of RUN_TERMINAL_MAP
unfoldable pub terminal_run : Projector → String → Projector × List Draft
terminal_run p status = if p.terminated then (p, []) else (
  record p { terminated = true },
  run_draft p status ""
      ∷ draft (complete (if status == "completed" then "delivered" else status)) "" ""
      ∷ [],
)

-- `_terminal_task`, with the status of TASK_TERMINAL_MAP; a failure emits its message first.
unfoldable pub terminal_task : Projector → String → List Draft → Projector × List Draft
terminal_task p status before =
    if p.terminated
    then (p, [])
    else (record p { terminated = true }, before ++ draft (complete status) "" "" ∷ [])

abbrev pub start_of : Payload → String → SpanStartPayload
start_of e agent = record {
  agent_run_id = e.agent_run_id;
  provider_id = text_or e.provider (text_or e.provider_id agent);
  display_name = text_or e.display_name (text_or e.agent_display_name agent);
  execution_kind = text_or e.execution_kind "model";
  capability = e.capability;
  presentation_role = text_or e.presentation_role "supporting";
  parent_agent_run_id = e.parent_agent_run_id;
}

unfoldable pub on_agent_started : Projector → Payload → String → Projector × List Draft
on_agent_started p e agent =
    if e.agent_run_id == "" || is_open e.agent_run_id p.open_spans then (p, []) else (
      record p {
        open_spans = e.agent_run_id ∷ p.open_spans;
        agent_runs = if agent == "" then p.agent_runs else (agent, e.agent_run_id) ∷ p.agent_runs;
        roles = (e.agent_run_id, text_or e.presentation_role "supporting") ∷ p.roles;
      },
      draft (span_start (start_of e agent)) e.agent_run_id "" ∷ [],
    )

-- the run that `_end_span` ends
abbrev pub ended_run : Projector → Payload → String → String
ended_run p e agent =
    if e.agent_run_id == "" && not (agent == "") then get agent p.agent_runs else e.agent_run_id

unfoldable pub end_span : Projector → Payload → String → String → Projector × List Draft
end_span p e agent status =
    let id = ended_run p e agent in
    if id == "" || not (is_open id p.open_spans)
    then (p, [])
    else (record p { open_spans = discard id p.open_spans }, draft (span_end id status) id "" ∷ [])

abbrev pub or_cancelled : Payload → String → String
or_cancelled e status = if e.status == "cancelled" then "cancelled" else status

abbrev pub or_true : Option Bool → Bool
or_true none = true
or_true (some b) = b

abbrev pub or_false : Option Bool → Bool
or_false none = false
or_false (some b) = b

abbrev pub question_of : InteractionQuestionPayload → InteractionQuestionPayload
question_of q = record q { kind = text_or q.kind "single_select" }

abbrev pub questions_of : Option (List InteractionQuestionPayload) → List InteractionQuestionPayload
questions_of none = []
questions_of (some qs) = map question_of qs

unfoldable pub on_interaction_requested : Payload → List Draft
on_interaction_requested e =
    let id = text_or e.interaction_id e.camel_interaction_id in
    if id == ""
    then []
    else draft
        (interaction_requested (record {
          interaction_id = id;
          purpose = text_or e.purpose "clarification";
          presentation = text_or e.presentation "question";
          blocking = or_true e.blocking;
          title = e.title;
          prompt = e.prompt;
          reason_code = e.reason_code;
          questions = questions_of e.questions;
          dismissible = or_false e.dismissible;
        }))
        "" ""
      ∷ []

unfoldable pub on_interaction_resolved : Payload → List Draft
on_interaction_resolved e =
    let id = text_or e.interaction_id e.camel_interaction_id in
    if id == "" then [] else draft (interaction_resolved id e.answers) "" "" ∷ []
