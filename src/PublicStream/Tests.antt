-- ===== src/PublicStream/Tests.antt =====
-- A stream with one agent, instances of the theorems about it, and a start whose role is not known: the
-- span is not published, its end is.
use lingxi_learn.Prelude.{◌+◌, String, ◌≡◌, refl, none, List, [], ◌∷◌, ◌==◌, map}
use lingxi_learn.Prelude.Tables.{any, all, filter}
use lingxi_learn.PublicStream.{span_end, is_valid, encode}
use lingxi_learn.PublicStream.Plan.{
  Payload, ToolView, Projector, get, end_span, on_agent_started, terminal_run,
}
use lingxi_learn.PublicStream.Shown.{on_agent_output, agent_text, text_channel_for}
use lingxi_learn.PublicStream.Projector.{
  Call, event, turn_call, new_projector, run_calls, call, consume, handler_of, handle, emit,
  emit_all, turn_event,
}
use lingxi_learn.PublicStream.Numbers.{IsFrom, run_calls-IsNumbered}
use lingxi_learn.PublicStream.Completes.{completes, flag, run_calls-completes}
use lingxi_learn.PublicStream.Spans.{IsAllowed, seen, run_calls-IsAllowed}

abbrev view : ToolView
view = record {
  display_title = λ name. name;
  is_known_tool = λ name. name == "search";
  params = λ name arguments. ("query", arguments) ∷ [];
  result = λ name content status. ("ok", status) ∷ [];
}

-- `role` for a start, `message` for an output
abbrev payload : String → String → String → Payload
payload id role message = record {
  agent_run_id = id;
  parent_agent_run_id = "";
  presentation_role = role;
  provider = "";
  provider_id = "";
  display_name = "";
  agent_display_name = "";
  execution_kind = "";
  capability = "";
  status = "";
  message = message;
  interrupts = [];
  interaction_id = "";
  camel_interaction_id = "";
  purpose = "";
  presentation = "";
  blocking = none;
  title = "";
  prompt = "";
  reason_code = "";
  questions = none;
  dismissible = none;
  answers = "";
  skill_run_id = "";
  skill_id = "";
  version = "";
  text = "";
  stream_id = "";
  delta = "";
  calls = [];
  tool_call_id = "";
  name = "";
  content = "";
  artifact = "";
  artifact_record_id = "";
  artifact_title = "";
  relative_path = "";
}

abbrev native : String → String → String → String → Call
native kind id role message =
    event (record { kind = kind; agent = "tutor"; payload = payload id role message })

abbrev fresh : Projector
fresh = new_projector "chat" "run" "turn" "" ""

-- The run ends twice.
abbrev calls : List Call
calls =
    turn_call "started" "turn" 0 "hello"
    ∷ native "agent_started" "a" "primary" ""
    ∷ native "agent_output" "a" "" "words"
    ∷ native "agent_completed" "a" "" ""
    ∷ native "run_ended" "" "" ""
    ∷ native "run_ended" "" "" ""
    ∷ []

run_calls-IsNumbered_example :
    IsFrom fresh.seq (run_calls view calls fresh).0.seq (run_calls view calls fresh).1
run_calls-IsNumbered_example = run_calls-IsNumbered view calls fresh

run_calls-completes_example :
    flag fresh.terminated + completes (run_calls view calls fresh).1
    ≡ flag (run_calls view calls fresh).0.terminated
run_calls-completes_example = run_calls-completes view calls fresh

run_calls-IsAllowed_example :
    IsAllowed (seen fresh) (run_calls view calls fresh).1 (seen (run_calls view calls fresh).0)
unfolding all
run_calls-IsAllowed_example = run_calls-IsAllowed view calls fresh refl

calls_seq : (run_calls view calls fresh).0.seq ≡ 6
unfolding run_calls call consume handler_of handle emit emit_all encode is_valid turn_event
    new_projector on_agent_started on_agent_output agent_text text_channel_for end_span terminal_run
    any filter get
calls_seq = refl

abbrev broken : List Call
broken = native "agent_started" "a" "chief" "" ∷ native "agent_completed" "a" "" "" ∷ []

broken_bodies : map (λ e. e.body) (run_calls view broken fresh).1 ≡ span_end "a" "completed" ∷ []
unfolding run_calls call consume handler_of handle emit emit_all encode is_valid new_projector
    on_agent_started end_span any filter
broken_bodies = refl
