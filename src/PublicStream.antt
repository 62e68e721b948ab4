-- ===== src/PublicStream.antt =====
-- server/lingxilearn/contracts/mothership_stream_v1.py: the envelopes of the public stream and the
-- encoder that checks them. A text that is missing on the wire is "", the default of its field; the
-- time stamp is left out. A payload has the fields of its model, so that only values are checked; the
-- parameters and results of a tool are pairs of a key and a value's text, the answers are their text,
-- without the keys that may not be published.
pub mod Plan
pub mod Shown
pub mod Projector
pub mod Emits
pub mod Numbers
pub mod Handled
pub mod Completes
pub mod Spans
mod Tests
use lingxi_learn.Prelude.{
  ℕ, zero, suc, ◌+◌, ◌-◌, ◌≤◌, ◌<◌, String, ◌≡◌, ◌≢◌, ◌⊎◌, ◌↔◌, refl, sym, ap, ◌∙◌, Bool, true,
  false, ◌&&◌, ◌||◌, not, Option, none, some, List, [], ◌∷◌, ◌++◌, map, ◌==◌, nat_beq, ltb, leb,
  if◌then◌else◌, is_some, arith, eq_iff, Bool-cases, Option-cases, ==-self, inl, inr,
}
use lingxi_learn.Prelude.Tables.{all}

pub record StreamScope : Type 0 where
  pub chat_id : String
  pub turn_id : String
  pub execution_id : String
  pub stream_id : String

pub record EventScope : Type 0 where
  pub agent_run_id : String
  pub skill_run_id : String

pub record TraceScope : Type 0 where
  pub request_id : String
  pub run_id : String

pub record TextPayload : Type 0 where
  pub channel : String
  pub delta : String
  pub text : String
  pub stream_id : String
  pub source : String

pub record SpanStartPayload : Type 0 where
  pub agent_run_id : String
  pub provider_id : String
  pub display_name : String
  pub execution_kind : String
  pub capability : String
  pub presentation_role : String
  pub parent_agent_run_id : String

pub record ToolPayload : Type 0 where
  pub tool_call_id : String
  pub tool_kind : String
  pub tool_name : String
  pub display_title : String
  pub status : String
  pub safe_params : List (String × String)
  pub safe_result : List (String × String)

pub record QuestionOption : Type 0 where
  pub id : String
  pub label : String

pub record InteractionQuestionPayload : Type 0 where
  pub id : String
  pub kind : String
  pub prompt : String
  pub options : List QuestionOption
  pub allow_free_text : Bool

pub record InteractionRequestedPayload : Type 0 where
  pub interaction_id : String
  pub purpose : String
  pub presentation : String
  pub blocking : Bool
  pub title : String
  pub prompt : String
  pub reason_code : String
  pub questions : List InteractionQuestionPayload
  pub dismissible : Bool

pub record ResourceDescriptor : Type 0 where
  pub id : String
  pub title : String
  pub path : String
  pub source_agent_run_id : String
  pub artifact_kind : String

-- The payloads by type of event. `run` has its status, execution and interaction; `interaction_resolved`
-- its interaction and answers; an `error` is fatal.
pub data Body : Type 0 where
  turn : String → ℕ → String → String → Body
  text : TextPayload → Body
  span_start : SpanStartPayload → Body
  span_end : String → String → Body
  tool : ToolPayload → Body
  interaction_requested : InteractionRequestedPayload → Body
  interaction_resolved : String → String → Body
  resource : ResourceDescriptor → Body
  run : String → String → String → Body
  error : String → Body
  complete : String → Body

pub record Envelope : Type 0 where
  pub seq : ℕ
  pub body : Body
  pub stream : StreamScope
  pub scope : EventScope
  pub trace : TraceScope

abbrev pub is_turn_status : String → Bool
is_turn_status s =
    s == "started"
    || s == "awaiting_user"
    || s == "resumed"
    || s == "delivered"
    || s == "failed"
    || s == "cancelled"

abbrev pub is_run_status : String → Bool
is_run_status s =
    s == "started"
    || s == "checkpoint_pause"
    || s == "resumed"
    || s == "completed"
    || s == "failed"
    || s == "cancelled"

abbrev pub is_complete_status : String → Bool
is_complete_status s = s == "delivered" || s == "failed" || s == "cancelled" || s == "awaiting_user"

abbrev pub is_span_status : String → Bool
is_span_status s =
    s == "queued"
    || s == "running"
    || s == "awaiting_user"
    || s == "completed"
    || s == "failed"
    || s == "cancelled"

abbrev pub is_tool_status : String → Bool
is_tool_status s =
    s == "call"
    || s == "generating"
    || s == "executing"
    || s == "awaiting_approval"
    || s == "success"
    || s == "error"
    || s == "cancelled"
    || s == "skipped"
    || s == "rejected"

abbrev pub is_execution_kind : String → Bool
is_execution_kind s = s == "model" || s == "deterministic"

abbrev pub is_presentation_role : String → Bool
is_presentation_role s = s == "primary" || s == "supporting" || s == "background"

abbrev pub is_question : InteractionQuestionPayload → Bool
is_question q = q.kind == "single_select" || q.kind == "multi_select"

-- `_validate_payload_shape`: whether the payload fits a model of its type
unfoldable pub is_valid : Body → Bool
is_valid (turn turn_id turn_index status user_text) = is_turn_status status
is_valid (text p) =
    (p.channel == "assistant" || p.channel == "narration")
    && (p.source == "agent" || p.source == "system")
is_valid (span_start p) =
    is_execution_kind p.execution_kind && is_presentation_role p.presentation_role
is_valid (span_end agent_run_id status) = is_span_status status
is_valid (tool p) = (p.tool_kind == "skill" || p.tool_kind == "tool") && is_tool_status p.status
is_valid (interaction_requested p) =
    (p.purpose == "clarification" || p.purpose == "assessment" || p.purpose == "confirmation")
    && (p.presentation == "question" || p.presentation == "options")
    && all is_question p.questions
is_valid (interaction_resolved interaction_id answers) = true
is_valid (resource p) = true
is_valid (run status execution_id interaction_id) = is_run_status status
is_valid (error message) = true
is_valid (complete status) = is_complete_status status

-- `none` is the ValueError of a payload that fits no model.
unfoldable pub encode : ℕ → Body → StreamScope → EventScope → TraceScope → Option Envelope
encode seq body stream scope trace =
    if is_valid body
    then some (record { seq = seq; body = body; stream = stream; scope = scope; trace = trace })
    else none
