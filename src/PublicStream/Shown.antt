-- ===== src/PublicStream/Shown.antt =====
-- server/lingxilearn/runtime/public_projection.py: the handlers of PublicProjector that show the work of
-- skills and agents: their tools, texts and artifacts. They leave the projector's state as it is.
use lingxi_learn.Prelude.{String, Bool, ◌&&◌, ◌||◌, not, List, [], ◌∷◌, map, ◌==◌, if◌then◌else◌}
use lingxi_learn.Prelude.Tables.{filter}
use lingxi_learn.PublicStream.{text, tool, resource}
use lingxi_learn.PublicStream.Plan.{
  draft, text_or, get, run_of, ToolCall, Payload, ToolView, Projector, Draft,
}

abbrev pub skill_draft : Payload → String → String → List (String × String) → Draft
skill_draft e title status params =
    draft
      (tool (record {
        tool_call_id = e.skill_run_id;
        tool_kind = "skill";
        tool_name = "lingxi.skill";
        display_title = title;
        status = status;
        safe_params = params;
        safe_result = [];
      }))
      e.agent_run_id e.skill_run_id

abbrev pub if_given : String → String → List (String × String)
if_given key value = if value == "" then [] else (key, value) ∷ []

unfoldable pub on_skill_started : Payload → List Draft
on_skill_started e =
    if e.skill_run_id == ""
    then []
    else skill_draft e (text_or e.display_name (text_or e.skill_id "技能")) "executing"
        (("skillId", e.skill_id) ∷ if_given "version" e.version)
      ∷ []

unfoldable pub end_skill : Payload → String → List Draft
end_skill e status =
    if e.skill_run_id == "" then [] else skill_draft e e.display_name status [] ∷ []

abbrev pub text_draft : String → String → String → String → String → String → Draft
text_draft channel words delta stream_id source agent_run_id =
    draft
      (text (record {
        channel = channel;
        delta = delta;
        text = words;
        stream_id = stream_id;
        source = source;
      }))
      agent_run_id ""

unfoldable pub on_agent_status : Projector → Payload → String → List Draft
on_agent_status p e agent =
    let id = run_of p e agent in
    if e.text == ""
    then []
    else text_draft "narration" e.text "" "" (if id == "" then "system" else "agent") id ∷ []

unfoldable pub text_channel_for : Projector → String → String
text_channel_for p id =
    if id == "" then "system" else if get id p.roles == "primary" then "assistant" else "narration"

-- The delta of a body is "" where it has a text.
unfoldable pub agent_text : Projector → Payload → String → String → String → List Draft
agent_text p e agent words delta =
    let id = run_of p e agent in
    let channel = text_channel_for p id in
    if channel == "narration"
    then if words == "" then [] else text_draft "narration" words "" "" "agent" id ∷ []
    else text_draft "assistant" words (if words == "" then delta else "") e.stream_id
        (if channel == "system" then "system" else "agent") id
      ∷ []

unfoldable pub on_agent_output : Projector → Payload → String → List Draft
on_agent_output p e agent = if e.message == "" then [] else agent_text p e agent e.message ""

unfoldable pub on_agent_output_delta : Projector → Payload → String → List Draft
on_agent_output_delta p e agent = if e.delta == "" then [] else agent_text p e agent "" e.delta

abbrev pub call_draft : ToolView → String → ToolCall → Draft
call_draft view id call =
    draft
      (tool (record {
        tool_call_id = call.id;
        tool_kind = "tool";
        tool_name = call.name;
        display_title = text_or (view.display_title call.name) call.name;
        status = "generating";
        safe_params =
            if view.is_known_tool call.name then view.params call.name call.arguments else [];
        safe_result = [];
      }))
      id ""

abbrev pub is_named_call : ToolCall → Bool
is_named_call call = not (call.id == "") && not (call.name == "")

unfoldable pub on_tool_call_delta : ToolView → Projector → Payload → String → List Draft
on_tool_call_delta view p e agent =
    map (call_draft view (run_of p e agent)) (filter is_named_call e.calls)

abbrev pub result_status : String → String
result_status s = if s == "error" || s == "failed" then "error" else "success"

unfoldable pub on_tool_result : ToolView → Projector → Payload → String → List Draft
on_tool_result view p e agent =
    let status = result_status e.status in
    if e.tool_call_id == "" || e.name == ""
    then []
    else draft
        (tool (record {
          tool_call_id = e.tool_call_id;
          tool_kind = "tool";
          tool_name = e.name;
          display_title = text_or (view.display_title e.name) e.name;
          status = status;
          safe_params = [];
          safe_result =
              if view.is_known_tool e.name
              then view.result e.name e.content e.status
              else ("ok", (if status == "success" then "true" else "false")) ∷ [];
        }))
        (run_of p e agent) ""
      ∷ []

unfoldable pub on_artifact_ready : Projector → Payload → String → List Draft
on_artifact_ready p e agent =
    let id = run_of p e agent in
    if e.artifact == "" || e.artifact_record_id == ""
    then []
    else draft
        (resource (record {
          id = e.artifact_record_id;
          title = text_or e.artifact_title e.artifact;
          path = e.relative_path;
          source_agent_run_id = id;
          artifact_kind = e.artifact;
        }))
        id ""
      ∷ []
