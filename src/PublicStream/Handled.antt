-- ===== src/PublicStream/Handled.antt =====
-- What each handler of PublicProjector does, by its effect on the spans and the end of a stream.
use lingxi_learn.Prelude.{
  String, ◌≡◌, refl, Bool, true, false, ◌&&◌, ◌||◌, not, List, [], ◌∷◌, ◌++◌, map, ◌==◌,
  if◌then◌else◌, arith, Bool-cases, inl, inr,
}
use lingxi_learn.Prelude.Tables.{all, filter}
use lingxi_learn.PublicStream.{
  Body, text, span_start, span_end, run, complete, is_valid, is_span_status,
}
use lingxi_learn.PublicStream.Plan.{
  Payload, ToolView, ToolCall, Projector, Draft, draft, text_or, get, is_open, discard, start_of,
  ended_run, run_draft, run_of, on_run_paused, terminal_run, terminal_task, on_agent_started,
  end_span, on_interaction_requested, on_interaction_resolved,
}
use lingxi_learn.PublicStream.Shown.{
  text_draft, text_channel_for, call_draft, is_named_call, on_skill_started, end_skill,
  on_agent_status, agent_text, on_agent_output, on_agent_output_delta, on_tool_call_delta,
  on_tool_result, on_artifact_ready,
}
use lingxi_learn.PublicStream.Projector.{
  Handler, run_started, run_resumed, run_paused, run_ended, run_completed, run_failed,
  run_cancelled, run_timed_out, run_budget_exceeded, task_completed, task_failed, task_cancelled,
  agent_started, agent_completed, agent_failed, interaction_requested, interaction_resolved,
  skill_started, skill_completed, skill_failed, agent_status, agent_output, agent_output_delta,
  tool_call_delta, tool_result, artifact_ready, ignored, handle,
}
use lingxi_learn.PublicStream.Emits.{is_valid_draft}

-- Text in the channel of the assistant comes from a primary agent; the payload neither starts nor ends
-- a span, nor the stream.
unfoldable pub is_quiet : List (String × String) → Body → String → Bool
unfolding get
is_quiet roles (text t) id =
    not (t.channel == "assistant" && t.source == "agent") || get id roles == "primary"
is_quiet roles (span_start s) id = false
is_quiet roles (span_end agent_run_id status) id = false
is_quiet roles (complete status) id = false
is_quiet roles body id = true

abbrev pub is_quiet_draft : List (String × String) → Draft → Bool
is_quiet_draft roles d = is_quiet roles d.body d.scope.agent_run_id

abbrev pub end_draft : String → Draft
end_draft status = draft (complete status) "" ""

pub data IsHandled (p : Projector) (e : Payload) (agent : String) (r : Projector × List Draft)
    : Type 0 where
  quiet :
      (ds : List Draft)
      → all (is_quiet_draft p.roles) ds ≡ true
      → r ≡ (p, ds)
      → IsHandled p e agent r
  terminal :
      (before : List Draft) (status : String)
      → p.terminated ≡ false
      → all (is_quiet_draft p.roles) before ≡ true
      → all is_valid_draft (before ++ end_draft status ∷ []) ≡ true
      → r ≡ (record p { terminated = true }, before ++ end_draft status ∷ [])
      → IsHandled p e agent r
  started :
      (runs : List (String × String))
      → is_open e.agent_run_id p.open_spans ≡ false
      → r ≡ (
        record p {
          open_spans = e.agent_run_id ∷ p.open_spans;
          agent_runs = runs;
          roles = (e.agent_run_id, text_or e.presentation_role "supporting") ∷ p.roles;
        },
        draft (span_start (start_of e agent)) e.agent_run_id "" ∷ [],
      )
      → IsHandled p e agent r
  ended :
      (id status : String)
      → is_open id p.open_spans ≡ true
      → is_span_status status ≡ true
      → r
        ≡ (record p { open_spans = discard id p.open_spans }, draft (span_end id status) id "" ∷ [])
      → IsHandled p e agent r

if-quiet :
    (p : Projector) (e : Payload) (agent : String) (b : Bool) (d : Draft)
    → is_quiet_draft p.roles d ≡ true
    → IsHandled p e agent (p, (if b then [] else d ∷ []))
unfolding all
if-quiet p e agent true d h = quiet [] refl refl
if-quiet p e agent false d h = quiet (d ∷ []) (rw h refl) refl

calls-quiet :
    (view : ToolView) (roles : List (String × String)) (id : String) (calls : List ToolCall)
    → all (is_quiet_draft roles) (map (call_draft view id) calls) ≡ true
unfolding all is_quiet
calls-quiet view roles id [] = refl
calls-quiet view roles id (c ∷ cs) = calls-quiet view roles id cs

narration-quiet :
    (roles : List (String × String)) (b : Bool) (words id : String)
    → all
        (is_quiet_draft roles)
        (if b then [] else text_draft "narration" words "" "" "agent" id ∷ [])
      ≡ true
unfolding all is_quiet
narration-quiet roles true words id = refl
narration-quiet roles false words id = refl

agent_text-quiet :
    (p : Projector) (e : Payload) (agent words delta : String)
    → all (is_quiet_draft p.roles) (agent_text p e agent words delta) ≡ true
unfolding agent_text text_channel_for all is_quiet
agent_text-quiet p e agent words delta = elim (Bool-cases (run_of p e agent == "")) [
  | inl nobody ↦ rw nobody refl
  | inr someone ↦ elim (Bool-cases (get (run_of p e agent) p.roles == "primary")) [
    | inl primary ↦ rw someone (rw primary (rw primary refl))
    | inr other ↦ rw someone (rw other (narration-quiet p.roles (words == "") words _))
  ]
]

unless-quiet :
    (p : Projector) (e : Payload) (agent : String) (b : Bool) (ds : List Draft)
    → all (is_quiet_draft p.roles) ds ≡ true
    → IsHandled p e agent (p, (if b then [] else ds))
unfolding all
unless-quiet p e agent true ds h = quiet [] refl refl
unless-quiet p e agent false ds h = quiet ds h refl

-- A handler that does nothing under a guard.
guard-IsHandled :
    (p : Projector) (e : Payload) (agent : String) (b : Bool) (r : Projector × List Draft)
    → (b ≡ false → IsHandled p e agent r)
    → IsHandled p e agent (if b then (p, []) else r)
unfolding all
guard-IsHandled p e agent true r h = quiet [] refl refl
guard-IsHandled p e agent false r h = h refl

terminal_run-IsHandled :
    (p : Projector) (e : Payload) (agent status : String)
    → is_valid (run status p.stream.execution_id "") ≡ true
    → is_valid (complete (if status == "completed" then "delivered" else status)) ≡ true
    → IsHandled p e agent (terminal_run p status)
unfolding terminal_run all is_quiet
terminal_run-IsHandled p e agent status h k =
    guard-IsHandled p e agent p.terminated _
      (λ running. terminal (run_draft p status "" ∷ []) _ running refl (ground arith) refl)

terminal_task-IsHandled :
    (p : Projector) (e : Payload) (agent status : String) (before : List Draft)
    → all (is_quiet_draft p.roles) before ≡ true
    → all is_valid_draft (before ++ end_draft status ∷ []) ≡ true
    → IsHandled p e agent (terminal_task p status before)
unfolding terminal_task all
terminal_task-IsHandled p e agent status before h k =
    guard-IsHandled p e agent p.terminated _ (λ running. terminal before status running h k refl)

on_agent_started-IsHandled :
    (p : Projector) (e : Payload) (agent : String)
    → IsHandled p e agent (on_agent_started p e agent)
unfolding on_agent_started all
on_agent_started-IsHandled p e agent =
    guard-IsHandled p e agent (e.agent_run_id == "" || is_open e.agent_run_id p.open_spans) _
      (λ fresh. started _ (ground arith) refl)

end_span-IsHandled :
    (p : Projector) (e : Payload) (agent status : String)
    → is_span_status status ≡ true
    → IsHandled p e agent (end_span p e agent status)
unfolding end_span all
end_span-IsHandled p e agent status valid =
    let id = ended_run p e agent in
    guard-IsHandled p e agent (id == "" || not (is_open id p.open_spans)) _
      (λ fresh. ended id status (ground arith) valid refl)

failed_or_cancelled : (b : Bool) → is_span_status (if b then "cancelled" else "failed") ≡ true
failed_or_cancelled true = refl
failed_or_cancelled false = refl

pub handle-IsHandled :
    (view : ToolView) (h : Handler) (p : Projector) (e : Payload) (agent : String)
    → IsHandled p e agent (handle view h p e agent)
unfolding handle all is_quiet is_valid on_run_paused on_interaction_requested
    on_interaction_resolved on_skill_started end_skill on_agent_status on_agent_output
    on_agent_output_delta on_tool_call_delta on_tool_result on_artifact_ready
handle-IsHandled view run_started p e agent = quiet _ refl refl
handle-IsHandled view run_resumed p e agent = quiet _ refl refl
handle-IsHandled view run_paused p e agent = quiet _ refl refl
handle-IsHandled view ignored p e agent = quiet [] refl refl
handle-IsHandled view run_ended p e agent = terminal_run-IsHandled p e agent "completed" refl refl
handle-IsHandled view run_completed p e agent =
    terminal_run-IsHandled p e agent "completed" refl refl
handle-IsHandled view run_failed p e agent = terminal_run-IsHandled p e agent "failed" refl refl
handle-IsHandled view run_cancelled p e agent =
    terminal_run-IsHandled p e agent "cancelled" refl refl
handle-IsHandled view run_timed_out p e agent = terminal_run-IsHandled p e agent "failed" refl refl
handle-IsHandled view run_budget_exceeded p e agent =
    terminal_run-IsHandled p e agent "failed" refl refl
handle-IsHandled view task_completed p e agent =
    terminal_task-IsHandled p e agent "delivered" [] refl refl
handle-IsHandled view task_failed p e agent = terminal_task-IsHandled p e agent "failed" _ refl refl
handle-IsHandled view task_cancelled p e agent =
    terminal_task-IsHandled p e agent "cancelled" [] refl refl
handle-IsHandled view agent_started p e agent = on_agent_started-IsHandled p e agent
handle-IsHandled view agent_completed p e agent = end_span-IsHandled p e agent "completed" refl
handle-IsHandled view agent_failed p e agent =
    end_span-IsHandled p e agent _ (failed_or_cancelled (e.status == "cancelled"))
handle-IsHandled view interaction_requested p e agent = if-quiet p e agent _ _ refl
handle-IsHandled view interaction_resolved p e agent = if-quiet p e agent _ _ refl
handle-IsHandled view skill_started p e agent = if-quiet p e agent _ _ refl
handle-IsHandled view skill_completed p e agent = if-quiet p e agent _ _ refl
handle-IsHandled view skill_failed p e agent = if-quiet p e agent _ _ refl
handle-IsHandled view agent_status p e agent = if-quiet p e agent _ _ refl
handle-IsHandled view tool_result p e agent = if-quiet p e agent _ _ refl
handle-IsHandled view artifact_ready p e agent = if-quiet p e agent _ _ refl
handle-IsHandled view agent_output p e agent =
    unless-quiet p e agent (e.message == "") _ (agent_text-quiet p e agent e.message "")
handle-IsHandled view agent_output_delta p e agent =
    unless-quiet p e agent (e.delta == "") _ (agent_text-quiet p e agent "" e.delta)
handle-IsHandled view tool_call_delta p e agent =
    quiet _ (calls-quiet view p.roles (run_of p e agent) (filter is_named_call e.calls)) refl
