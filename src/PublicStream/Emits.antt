-- ===== src/PublicStream/Emits.antt =====
-- What becomes of the payloads that a handler of PublicProjector emits.
use mathlib.Core.Path.{subst}
use lingxi_learn.Prelude.{
  ℕ, ◌+◌, String, ◌≡◌, refl, Bool, true, false, none, some, List, [], ◌∷◌, ◌++◌, map, ◌==◌,
  if◌then◌else◌, arith, Bool-cases, inl, inr,
}
use lingxi_learn.Prelude.Tables.{all, filter, length}
use lingxi_learn.PublicStream.{StreamScope, TraceScope, run, complete, Envelope, is_valid, encode}
use lingxi_learn.PublicStream.Plan.{
  Payload, NativeEvent, ToolView, ToolCall, Projector, Draft, draft, run_of, on_run_paused,
  terminal_run, terminal_task, on_agent_started, end_span, on_interaction_requested,
  on_interaction_resolved,
}
use lingxi_learn.PublicStream.Shown.{
  call_draft, is_named_call, on_skill_started, end_skill, on_agent_status, agent_text,
  on_agent_output, on_agent_output_delta, on_tool_call_delta, on_tool_result, on_artifact_ready,
}
use lingxi_learn.PublicStream.Projector.{
  Handler, run_started, run_resumed, run_paused, run_ended, run_completed, run_failed,
  run_cancelled, run_timed_out, run_budget_exceeded, task_completed, task_failed, task_cancelled,
  agent_started, agent_completed, agent_failed, interaction_requested, interaction_resolved,
  skill_started, skill_completed, skill_failed, agent_status, agent_output, agent_output_delta,
  tool_call_delta, tool_result, artifact_ready, ignored, handler_of, handle, emit, emit_all,
  consume, event, call, envelopes_of,
}

-- The envelopes of payloads that are all valid.
unfoldable pub stamped : StreamScope → TraceScope → ℕ → List Draft → List Envelope
stamped stream trace n [] = []
stamped stream trace n (d ∷ ds) =
    record { seq = n; body = d.body; stream = stream; scope = d.scope; trace = trace }
    ∷ stamped stream trace (n + 1) ds

abbrev pub is_valid_draft : Draft → Bool
is_valid_draft d = is_valid d.body

abbrev pub at_seq : Projector → ℕ → Projector
at_seq p n = record p { seq = n }

pub emit_all-stamped :
    (p : Projector) (ds : List Draft)
    → all is_valid_draft ds ≡ true
    → emit_all p ds ≡ (at_seq p (p.seq + length ds), some (stamped p.stream p.trace p.seq ds))
unfolding emit_all emit encode all stamped
emit_all-stamped p [] h = ground arith
emit_all-stamped p (d ∷ ds) h =
    let fits : is_valid d.body ≡ true = ground arith in
    let rest = emit_all-stamped (at_seq p (p.seq + 1)) ds (ground arith) in
    rw fits (rw rest (ground arith))

pub emit_all-invalid :
    (p : Projector) (d : Draft) (ds : List Draft)
    → is_valid d.body ≡ false
    → emit_all p (d ∷ ds) ≡ (p, none)
unfolding emit_all emit encode
emit_all-invalid p d ds h = rw h refl

-- A handler emits one payload, or payloads that all fit their models.
abbrev pub IsSafe : List Draft → Type 0
IsSafe [] = Unit {0}
IsSafe (d ∷ []) = Unit {0}
IsSafe (d ∷ e ∷ ds) = all is_valid_draft (d ∷ e ∷ ds) ≡ true

-- What a handler's payloads become.
pub data IsEmitted (p : Projector) (ds : List Draft) (r : Projector × List Envelope) : Type 0 where
  failed : (d : Draft) → ds ≡ d ∷ [] → is_valid d.body ≡ false → r ≡ (p, []) → IsEmitted p ds r
  emitted :
      all is_valid_draft ds ≡ true
      → r ≡ (at_seq p (p.seq + length ds), stamped p.stream p.trace p.seq ds)
      → IsEmitted p ds r

emit_all-IsEmitted :
    (p : Projector) (ds : List Draft)
    → IsSafe ds
    → IsEmitted p ds ((emit_all p ds).0, envelopes_of (emit_all p ds).1)
unfolding all
emit_all-IsEmitted p [] h = emitted refl (rw (emit_all-stamped p [] refl) refl)
emit_all-IsEmitted p (d ∷ []) h = elim (Bool-cases (is_valid d.body)) [
  | inl fits ↦ emitted (rw fits refl) (rw (emit_all-stamped p (d ∷ []) (rw fits refl)) refl)
  | inr broken ↦ failed d refl broken (rw (emit_all-invalid p d [] broken) refl)
]
emit_all-IsEmitted p (d ∷ e ∷ ds) h = emitted h (rw (emit_all-stamped p (d ∷ e ∷ ds) h) refl)

if-IsSafe : (b : Bool) (d : Draft) → IsSafe (if b then [] else d ∷ [])
if-IsSafe true d = tt
if-IsSafe false d = tt

pair-IsSafe :
    (b : Bool) (p q : Projector) (d : Draft)
    → IsSafe (if◌then◌else◌ {A = Projector × List Draft} b (p, []) (q, d ∷ [])).1
pair-IsSafe true p q d = tt
pair-IsSafe false p q d = tt

either-IsSafe :
    (b c : Bool) (d e : Draft) → IsSafe (if b then (if c then [] else d ∷ []) else e ∷ [])
either-IsSafe true c d e = if-IsSafe c d
either-IsSafe false c d e = tt

unless-IsSafe : (b : Bool) (ds : List Draft) → IsSafe ds → IsSafe (if b then [] else ds)
unless-IsSafe true ds h = tt
unless-IsSafe false ds h = h

pub calls-is_valid :
    (view : ToolView) (id : String) (calls : List ToolCall)
    → all is_valid_draft (map (call_draft view id) calls) ≡ true
unfolding all is_valid
calls-is_valid view id [] = refl
calls-is_valid view id (c ∷ cs) = calls-is_valid view id cs

all-IsSafe : (ds : List Draft) → all is_valid_draft ds ≡ true → IsSafe ds
all-IsSafe [] h = tt
all-IsSafe (d ∷ []) h = tt
all-IsSafe (d ∷ e ∷ ds) h = h

terminal_run-IsSafe :
    (p : Projector) (status : String)
    → is_valid (run status p.stream.execution_id "") ≡ true
    → is_valid (complete (if status == "completed" then "delivered" else status)) ≡ true
    → IsSafe (terminal_run p status).1
unfolding terminal_run all
terminal_run-IsSafe p status h k = elim (Bool-cases p.terminated) [
  | inl over ↦ rw over tt
  | inr running ↦ rw running (ground arith)
]

terminal_task-IsSafe :
    (p : Projector) (status : String) (before : List Draft)
    → IsSafe (before ++ draft (complete status) "" "" ∷ [])
    → IsSafe (terminal_task p status before).1
unfolding terminal_task
terminal_task-IsSafe p status before h = elim (Bool-cases p.terminated) [
  | inl over ↦ rw over tt
  | inr running ↦ rw running h
]

agent_text-IsSafe :
    (p : Projector) (e : Payload) (agent words delta : String)
    → IsSafe (agent_text p e agent words delta)
unfolding agent_text
agent_text-IsSafe p e agent words delta = either-IsSafe _ _ _ _

handle-IsSafe :
    (view : ToolView) (h : Handler) (p : Projector) (e : Payload) (agent : String)
    → IsSafe (handle view h p e agent).1
unfolding handle all is_valid on_run_paused on_agent_started end_span on_interaction_requested
    on_interaction_resolved on_skill_started end_skill on_agent_status on_agent_output
    on_agent_output_delta on_tool_call_delta on_tool_result on_artifact_ready
handle-IsSafe view run_started p e agent = tt
handle-IsSafe view run_resumed p e agent = tt
handle-IsSafe view run_paused p e agent = tt
handle-IsSafe view run_ended p e agent = terminal_run-IsSafe p "completed" refl refl
handle-IsSafe view run_completed p e agent = terminal_run-IsSafe p "completed" refl refl
handle-IsSafe view run_failed p e agent = terminal_run-IsSafe p "failed" refl refl
handle-IsSafe view run_cancelled p e agent = terminal_run-IsSafe p "cancelled" refl refl
handle-IsSafe view run_timed_out p e agent = terminal_run-IsSafe p "failed" refl refl
handle-IsSafe view run_budget_exceeded p e agent = terminal_run-IsSafe p "failed" refl refl
handle-IsSafe view task_completed p e agent = terminal_task-IsSafe p "delivered" [] tt
handle-IsSafe view task_failed p e agent = terminal_task-IsSafe p "failed" _ refl
handle-IsSafe view task_cancelled p e agent = terminal_task-IsSafe p "cancelled" [] tt
handle-IsSafe view agent_started p e agent = pair-IsSafe _ _ _ _
handle-IsSafe view agent_completed p e agent = pair-IsSafe _ _ _ _
handle-IsSafe view agent_failed p e agent = pair-IsSafe _ _ _ _
handle-IsSafe view interaction_requested p e agent = if-IsSafe _ _
handle-IsSafe view interaction_resolved p e agent = if-IsSafe _ _
handle-IsSafe view skill_started p e agent = if-IsSafe _ _
handle-IsSafe view skill_completed p e agent = if-IsSafe _ _
handle-IsSafe view skill_failed p e agent = if-IsSafe _ _
handle-IsSafe view agent_status p e agent = if-IsSafe _ _
handle-IsSafe view agent_output p e agent =
    unless-IsSafe (e.message == "") _ (agent_text-IsSafe p e agent e.message "")
handle-IsSafe view agent_output_delta p e agent =
    unless-IsSafe (e.delta == "") _ (agent_text-IsSafe p e agent "" e.delta)
handle-IsSafe view tool_call_delta p e agent =
    all-IsSafe _ (calls-is_valid view (run_of p e agent) (filter is_named_call e.calls))
handle-IsSafe view tool_result p e agent = if-IsSafe _ _
handle-IsSafe view artifact_ready p e agent = if-IsSafe _ _
handle-IsSafe view ignored p e agent = tt

-- What no handler changes.
pub data IsSame (p q : Projector) : Type 0 where
  is_same : q.seq ≡ p.seq → q.stream ≡ p.stream → q.trace ≡ p.trace → IsSame p q

same-if :
    (b : Bool) (p q : Projector) (ds es : List Draft)
    → IsSame p q
    → IsSame p (if◌then◌else◌ {A = Projector × List Draft} b (p, ds) (q, es)).0
same-if true p q ds es h = is_same refl refl refl
same-if false p q ds es h = h

pub handle-IsSame :
    (view : ToolView) (h : Handler) (p : Projector) (e : Payload) (agent : String)
    → IsSame p (handle view h p e agent).0
unfolding handle terminal_run terminal_task on_agent_started end_span
handle-IsSame view run_started p e agent = is_same refl refl refl
handle-IsSame view run_resumed p e agent = is_same refl refl refl
handle-IsSame view run_paused p e agent = is_same refl refl refl
handle-IsSame view run_ended p e agent = same-if _ _ _ _ _ (is_same refl refl refl)
handle-IsSame view run_completed p e agent = same-if _ _ _ _ _ (is_same refl refl refl)
handle-IsSame view run_failed p e agent = same-if _ _ _ _ _ (is_same refl refl refl)
handle-IsSame view run_cancelled p e agent = same-if _ _ _ _ _ (is_same refl refl refl)
handle-IsSame view run_timed_out p e agent = same-if _ _ _ _ _ (is_same refl refl refl)
handle-IsSame view run_budget_exceeded p e agent = same-if _ _ _ _ _ (is_same refl refl refl)
handle-IsSame view task_completed p e agent = same-if _ _ _ _ _ (is_same refl refl refl)
handle-IsSame view task_failed p e agent = same-if _ _ _ _ _ (is_same refl refl refl)
handle-IsSame view task_cancelled p e agent = same-if _ _ _ _ _ (is_same refl refl refl)
handle-IsSame view agent_started p e agent = same-if _ _ _ _ _ (is_same refl refl refl)
handle-IsSame view agent_completed p e agent = same-if _ _ _ _ _ (is_same refl refl refl)
handle-IsSame view agent_failed p e agent = same-if _ _ _ _ _ (is_same refl refl refl)
handle-IsSame view interaction_requested p e agent = is_same refl refl refl
handle-IsSame view interaction_resolved p e agent = is_same refl refl refl
handle-IsSame view skill_started p e agent = is_same refl refl refl
handle-IsSame view skill_completed p e agent = is_same refl refl refl
handle-IsSame view skill_failed p e agent = is_same refl refl refl
handle-IsSame view agent_status p e agent = is_same refl refl refl
handle-IsSame view agent_output p e agent = is_same refl refl refl
handle-IsSame view agent_output_delta p e agent = is_same refl refl refl
handle-IsSame view tool_call_delta p e agent = is_same refl refl refl
handle-IsSame view tool_result p e agent = is_same refl refl refl
handle-IsSame view artifact_ready p e agent = is_same refl refl refl
handle-IsSame view ignored p e agent = is_same refl refl refl

-- What the event of a handler becomes.
pub consume-IsEmitted :
    (view : ToolView) (e : NativeEvent) (p : Projector)
    → IsEmitted
        (handle view (handler_of e.kind) p e.payload e.agent).0
        (handle view (handler_of e.kind) p e.payload e.agent).1
        (call view (event e) p)
unfolding call consume
consume-IsEmitted view e p =
    emit_all-IsEmitted _ _ (handle-IsSafe view (handler_of e.kind) p e.payload e.agent)

-- Payloads that all fit their models are published.
pub valid-emitted :
    (p : Projector) (ds : List Draft) (r : Projector × List Envelope)
    → all is_valid_draft ds ≡ true
    → IsEmitted p ds r
    → r ≡ (at_seq p (p.seq + length ds), stamped p.stream p.trace p.seq ds)
unfolding all
valid-emitted p ds r valid (emitted fits h) = h
valid-emitted p ds r valid (failed d one broken h) =
    let lone : all is_valid_draft (d ∷ []) ≡ true =
      subst (λ xs. all is_valid_draft xs ≡ true) one valid in
    ground arith
