-- ===== src/PublicStream/Projector.antt =====
-- server/lingxilearn/runtime/public_projection.py: PublicProjector, which turns the events of one
-- execution into the envelopes of the public stream.
use lingxi_learn.Prelude.{
  ℕ, ◌+◌, String, false, ◌||◌, Option, none, some, List, [], ◌∷◌, ◌++◌, ◌==◌, if◌then◌else◌,
}
use lingxi_learn.PublicStream.{turn, error, Envelope, encode}
use lingxi_learn.PublicStream.Plan.{
  Payload, NativeEvent, ToolView, Projector, Draft, draft, text_or, run_draft, on_run_paused,
  terminal_run, terminal_task, on_agent_started, end_span, or_cancelled, on_interaction_requested,
  on_interaction_resolved,
}
use lingxi_learn.PublicStream.Shown.{
  on_skill_started, end_skill, on_agent_status, on_agent_output, on_agent_output_delta,
  on_tool_call_delta, on_tool_result, on_artifact_ready,
}

-- the handlers; `ignored` is `_generic` and the handlers that emit nothing
pub data Handler : Type 0 where
  run_started run_resumed run_paused run_ended run_completed run_failed run_cancelled : Handler
  run_timed_out run_budget_exceeded task_completed task_failed task_cancelled : Handler
  agent_started agent_completed agent_failed interaction_requested interaction_resolved : Handler
  skill_started skill_completed skill_failed agent_status agent_output agent_output_delta : Handler
  tool_call_delta tool_result artifact_ready ignored : Handler

unfoldable pub handler_of : String → Handler
handler_of kind =
    if kind == "run_started"
    then run_started
    else if kind == "run_resumed"
    then run_resumed
    else if kind == "run_paused"
    then run_paused
    else if kind == "run_ended"
    then run_ended
    else if kind == "run_completed"
    then run_completed
    else if kind == "run_failed"
    then run_failed
    else if kind == "run_cancelled"
    then run_cancelled
    else if kind == "run_timed_out"
    then run_timed_out
    else if kind == "run_budget_exceeded"
    then run_budget_exceeded
    else if kind == "task_completed"
    then task_completed
    else if kind == "task_failed"
    then task_failed
    else if kind == "task_cancelled"
    then task_cancelled
    else if kind == "agent_started"
    then agent_started
    else if kind == "agent_completed"
    then agent_completed
    else if kind == "agent_failed"
    then agent_failed
    else if kind == "interaction_requested"
    then interaction_requested
    else if kind == "interaction_resolved"
    then interaction_resolved
    else if kind == "skill_started"
    then skill_started
    else if kind == "skill_completed"
    then skill_completed
    else if kind == "skill_failed"
    then skill_failed
    else if kind == "agent_status"
    then agent_status
    else if kind == "agent_output"
    then agent_output
    else if kind == "agent_output_delta"
    then agent_output_delta
    else if kind == "tool_call_delta"
    then tool_call_delta
    else if kind == "tool_result"
    then tool_result
    else if kind == "artifact_ready"
    then artifact_ready
    else ignored

unfoldable pub handle : ToolView → Handler → Projector → Payload → String → Projector × List Draft
handle view run_started p e agent = (p, run_draft p "started" "" ∷ [])
handle view run_resumed p e agent = (p, run_draft p "resumed" "" ∷ [])
handle view run_paused p e agent = (p, on_run_paused p e)
handle view run_ended p e agent = terminal_run p "completed"
handle view run_completed p e agent = terminal_run p "completed"
handle view run_failed p e agent = terminal_run p "failed"
handle view run_cancelled p e agent = terminal_run p "cancelled"
handle view run_timed_out p e agent = terminal_run p "failed"
handle view run_budget_exceeded p e agent = terminal_run p "failed"
handle view task_completed p e agent = terminal_task p "delivered" []
handle view task_failed p e agent =
    terminal_task p "failed" (draft (error (text_or e.message "运行已结束")) "" "" ∷ [])
handle view task_cancelled p e agent = terminal_task p "cancelled" []
handle view agent_started p e agent = on_agent_started p e agent
handle view agent_completed p e agent = end_span p e agent "completed"
handle view agent_failed p e agent = end_span p e agent (or_cancelled e "failed")
handle view interaction_requested p e agent = (p, on_interaction_requested e)
handle view interaction_resolved p e agent = (p, on_interaction_resolved e)
handle view skill_started p e agent = (p, on_skill_started e)
handle view skill_completed p e agent = (p, end_skill e "success")
handle view skill_failed p e agent = (p, end_skill e (or_cancelled e "error"))
handle view agent_status p e agent = (p, on_agent_status p e agent)
handle view agent_output p e agent = (p, on_agent_output p e agent)
handle view agent_output_delta p e agent = (p, on_agent_output_delta p e agent)
handle view tool_call_delta p e agent = (p, on_tool_call_delta view p e agent)
handle view tool_result p e agent = (p, on_tool_result view p e agent)
handle view artifact_ready p e agent = (p, on_artifact_ready p e agent)
handle view ignored p e agent = (p, [])

abbrev pub numbered : Option Envelope → Projector → Projector
numbered none p = p
numbered (some envelope) p = record p { seq = p.seq + 1 }

-- `_emit`: a failure keeps the number.
unfoldable pub emit : Projector → Draft → Projector × Option Envelope
unfolding encode
emit p d =
    let envelope = encode p.seq d.body p.stream d.scope p.trace in (numbered envelope p, envelope)

abbrev pub with_first :
    Envelope → Projector × Option (List Envelope) → Projector × Option (List Envelope)
with_first envelope (p, none) = (p, none)
with_first envelope (p, some rest) = (p, some (envelope ∷ rest))

abbrev pub after_emit :
    Projector × Option Envelope
    → Projector × Option (List Envelope)
    → Projector × Option (List Envelope)
after_emit (p, none) rest = (p, none)
after_emit (p, some envelope) rest = with_first envelope rest

-- The calls of `_emit` in order; the first failure ends them.
unfoldable pub emit_all : Projector → List Draft → Projector × Option (List Envelope)
unfolding emit
emit_all p [] = (p, some [])
emit_all p (d ∷ ds) = after_emit (emit p d) (emit_all (emit p d).0 ds)

-- `none` is the exception of a payload that fits no model, after the handler changed the state.
unfoldable pub consume : ToolView → NativeEvent → Projector → Projector × Option (List Envelope)
consume view e p =
    let planned = handle view (handler_of e.kind) p e.payload e.agent in
    emit_all planned.0 planned.1

unfoldable pub set_turn : String → Projector → Projector
set_turn turn_id p =
    if turn_id == "" || turn_id == p.stream.turn_id
    then p
    else record p { stream = record (p.stream) { turn_id = turn_id } }

unfoldable pub turn_event : String → String → ℕ → String → Projector → Projector × Option Envelope
turn_event status turn_id turn_index user_text p =
    emit p (draft (turn turn_id turn_index status user_text) "" "")

unfoldable pub renumber : Projector → ℕ → List Envelope → List Envelope
renumber p base [] = []
renumber p base (e ∷ es) =
    record e {
      seq = base;
      stream = record (e.stream) {
        execution_id = text_or e.stream.execution_id p.stream.execution_id;
      };
    }
    ∷ renumber p (base + 1) es

unfoldable pub new_projector : String → String → String → String → String → Projector
new_projector chat_id execution_id turn_id stream_id request_id = record {
  stream = record {
    chat_id = chat_id;
    turn_id = turn_id;
    execution_id = execution_id;
    stream_id = text_or stream_id execution_id;
  };
  trace = record { request_id = request_id; run_id = execution_id };
  seq = 0;
  agent_runs = [];
  open_spans = [];
  roles = [];
  terminated = false;
}

-- What the host does with a projector; a failed call yields no envelope.
pub data Call : Type 0 where
  event : NativeEvent → Call
  set_turn_call : String → Call
  turn_call : String → String → ℕ → String → Call

abbrev pub envelopes_of : Option (List Envelope) → List Envelope
envelopes_of none = []
envelopes_of (some es) = es

abbrev pub envelope_of : Option Envelope → List Envelope
envelope_of none = []
envelope_of (some e) = e ∷ []

unfoldable pub call : ToolView → Call → Projector → Projector × List Envelope
call view (event e) p = let done = consume view e p in (done.0, envelopes_of done.1)
call view (set_turn_call turn_id) p = (set_turn turn_id p, [])
call view (turn_call status turn_id turn_index user_text) p =
    let done = turn_event status turn_id turn_index user_text p in (done.0, envelope_of done.1)

-- All envelopes of a run of calls, in order.
unfoldable pub run_calls : ToolView → List Call → Projector → Projector × List Envelope
unfolding call
run_calls view [] p = (p, [])
run_calls view (c ∷ cs) p =
    let first = call view c p in let rest = run_calls view cs first.0 in (rest.0, first.1 ++ rest.1)
