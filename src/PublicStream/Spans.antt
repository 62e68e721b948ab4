-- ===== src/PublicStream/Spans.antt =====
-- The spans of a public stream, and who may speak in it.
use mathlib.Core.List.{append-nil}
use mathlib.Core.Path.{subst}
use lingxi_learn.Prelude.{
  ℕ, ◌+◌, String, ◌≡◌, refl, sym, Bool, true, false, ◌&&◌, ◌||◌, not, List, [], ◌∷◌, ◌++◌, ◌==◌,
  if◌then◌else◌, arith, Bool-cases, inl, inr,
}
use lingxi_learn.Prelude.Tables.{all}
use lingxi_learn.PublicStream.{
  StreamScope, TraceScope, Body, turn, text, span_start, span_end, tool, interaction_requested,
  interaction_resolved, resource, run, error, complete, is_execution_kind, is_presentation_role,
  is_turn_status, Envelope, is_valid, encode,
}
use lingxi_learn.PublicStream.Plan.{
  Payload, ToolView, Projector, Draft, draft, text_or, get, is_open, discard, start_of,
}
use lingxi_learn.PublicStream.Projector.{
  handler_of, handle, emit, set_turn, turn_event, Call, event, set_turn_call, turn_call, call,
  run_calls,
}
use lingxi_learn.PublicStream.Emits.{
  stamped, is_valid_draft, IsEmitted, failed, emitted, valid-emitted, consume-IsEmitted,
}
use lingxi_learn.PublicStream.Handled.{
  is_quiet, is_quiet_draft, end_draft, IsHandled, quiet, terminal, started, ended, handle-IsHandled,
}

-- What a reader of the stream knows: the runs that are started and not ended, and the roles.
pub record Seen : Type 0 where
  pub running : List String
  pub roles : List (String × String)

-- Whether an envelope may come next: a span starts once, ends while it is open, and text of the
-- assistant that an agent speaks is from a run whose last start says that it is primary.
unfoldable pub is_allowed : Seen → Body → String → Bool
is_allowed s (span_start start) id = not (is_open start.agent_run_id s.running)
is_allowed s (span_end agent_run_id status) id = is_open agent_run_id s.running
is_allowed s (text t) id =
    not (t.channel == "assistant" && t.source == "agent") || get id s.roles == "primary"
is_allowed s body id = true

unfoldable pub see : Seen → Body → Seen
see s (span_start start) = record {
  running = start.agent_run_id ∷ s.running;
  roles = (start.agent_run_id, start.presentation_role) ∷ s.roles;
}
see s (span_end agent_run_id status) = record s { running = discard agent_run_id s.running }
see s body = s

-- Every envelope may come where it does, and a reader of all of them knows `t`.
unfoldable pub IsAllowed : Seen → List Envelope → Seen → Type 0
IsAllowed s [] t = t ≡ s
IsAllowed s (e ∷ es) t =
    (is_allowed s e.body e.scope.agent_run_id ≡ true) × IsAllowed (see s e.body) es t

append-IsAllowed :
    (s t u : Seen) (xs ys : List Envelope)
    → IsAllowed s xs t
    → IsAllowed t ys u
    → IsAllowed s (xs ++ ys) u
unfolding IsAllowed
append-IsAllowed s t u [] ys h next = subst (λ x. IsAllowed x ys u) h next
append-IsAllowed s t u (x ∷ xs) ys (here, h) next =
    (here, append-IsAllowed (see s x.body) t u xs ys h next)

abbrev pub seen : Projector → Seen
seen p = record { running = p.open_spans; roles = p.roles }

-- Payloads that are quiet but for an end of the stream.
unfoldable is_calm : List (String × String) → Body → String → Bool
is_calm roles (complete status) id = true
is_calm roles body id = is_quiet roles body id

abbrev is_calm_draft : List (String × String) → Draft → Bool
is_calm_draft roles d = is_calm roles d.body d.scope.agent_run_id

calm-is_allowed :
    (s : Seen) (body : Body) (id : String)
    → is_calm s.roles body id ≡ true
    → (is_allowed s body id ≡ true) × (see s body ≡ s)
unfolding is_quiet is_calm is_allowed see
calm-is_allowed s (turn turn_id turn_index status user_text) id h = (refl, refl)
calm-is_allowed s (text t) id h = (h, refl)
calm-is_allowed s (span_start start) id h = ground arith
calm-is_allowed s (span_end agent_run_id status) id h = ground arith
calm-is_allowed s (tool t) id h = (refl, refl)
calm-is_allowed s (interaction_requested i) id h = (refl, refl)
calm-is_allowed s (interaction_resolved interaction_id answers) id h = (refl, refl)
calm-is_allowed s (resource r) id h = (refl, refl)
calm-is_allowed s (run status execution_id interaction_id) id h = (refl, refl)
calm-is_allowed s (error message) id h = (refl, refl)
calm-is_allowed s (complete status) id h = (refl, refl)

quiet-is_calm :
    (roles : List (String × String)) (body : Body) (id : String)
    → is_quiet roles body id ≡ true
    → is_calm roles body id ≡ true
unfolding is_quiet is_calm
quiet-is_calm roles (turn turn_id turn_index status user_text) id h = h
quiet-is_calm roles (text t) id h = h
quiet-is_calm roles (span_start start) id h = h
quiet-is_calm roles (span_end agent_run_id status) id h = h
quiet-is_calm roles (tool t) id h = h
quiet-is_calm roles (interaction_requested i) id h = h
quiet-is_calm roles (interaction_resolved interaction_id answers) id h = h
quiet-is_calm roles (resource r) id h = h
quiet-is_calm roles (run status execution_id interaction_id) id h = h
quiet-is_calm roles (error message) id h = h
quiet-is_calm roles (complete status) id h = refl

all-is_calm :
    (roles : List (String × String)) (ds es : List Draft)
    → all (is_quiet_draft roles) ds ≡ true
    → all (is_calm_draft roles) es ≡ true
    → all (is_calm_draft roles) (ds ++ es) ≡ true
unfolding all
all-is_calm roles [] es h k = k
all-is_calm roles (d ∷ ds) es h k =
    let silent : is_quiet_draft roles d ≡ true = ground arith in
    let here = quiet-is_calm roles d.body d.scope.agent_run_id silent in
    let there = all-is_calm roles ds es (ground arith) k in ground arith

stamped-IsAllowed :
    (s : Seen) (stream : StreamScope) (trace : TraceScope) (n : ℕ) (ds : List Draft)
    → all (is_calm_draft s.roles) ds ≡ true
    → IsAllowed s (stamped stream trace n ds) s
unfolding IsAllowed stamped all
stamped-IsAllowed s stream trace n [] h = refl
stamped-IsAllowed s stream trace n (d ∷ ds) h =
    let calm : is_calm_draft s.roles d ≡ true = ground arith in
    let next = calm-is_allowed s d.body d.scope.agent_run_id calm in
    (
      next.0,
      subst (λ x. IsAllowed x (stamped stream trace (n + 1) ds) s) (sym next.1)
          (stamped-IsAllowed s stream trace (n + 1) ds (ground arith)),
    )

abbrev IsSeen : Projector → Projector × List Envelope → Type 0
IsSeen p r = IsAllowed (seen p) r.1 (seen r.0)

quiet-IsSeen :
    (p : Projector) (ds : List Draft) (r : Projector × List Envelope)
    → all (is_calm_draft p.roles) ds ≡ true
    → IsEmitted p ds r
    → IsSeen p r
unfolding IsAllowed
quiet-IsSeen p ds r calm (failed d one broken h) = rw h refl
quiet-IsSeen p ds r calm (emitted fits h) =
    rw h (stamped-IsAllowed (seen p) p.stream p.trace p.seq ds calm)

-- the kind and the role of a start are of those that the contract knows, or missing
abbrev pub is_known_start : Payload → Bool
is_known_start e =
    is_execution_kind (text_or e.execution_kind "model")
    && is_presentation_role (text_or e.presentation_role "supporting")

handled-IsSeen :
    (p : Projector) (e : Payload) (agent : String) (planned : Projector × List Draft)
    (r : Projector × List Envelope)
    → is_known_start e ≡ true
    → IsHandled p e agent planned
    → IsEmitted planned.0 planned.1 r
    → IsSeen p r
unfolding IsAllowed is_allowed see all is_valid is_calm stamped
handled-IsSeen p e agent planned r known (quiet ds silent h) published =
    quiet-IsSeen p (ds ++ []) r (all-is_calm p.roles ds [] silent refl) (
      subst (λ xs. IsEmitted p xs r) (sym (append-nil ds))
        (subst (λ x. IsEmitted x.0 x.1 r) h published))
handled-IsSeen p e agent planned r known (started runs closed h) published =
    let ds = draft (span_start (start_of e agent)) e.agent_run_id "" ∷ [] in
    let fits : all is_valid_draft ds ≡ true = ground arith in
    let done = valid-emitted _ ds r fits (subst (λ x. IsEmitted x.0 x.1 r) h published) in
    rw done (ground arith, refl)
handled-IsSeen p e agent planned r known (ended id status is_started valid h) published =
    let ds = draft (span_end id status) id "" ∷ [] in
    let fits : all is_valid_draft ds ≡ true = ground arith in
    let done = valid-emitted _ ds r fits (subst (λ x. IsEmitted x.0 x.1 r) h published) in
    rw done (is_started, refl)
handled-IsSeen p e agent planned r known (terminal before status running silent valid h) published =
    quiet-IsSeen (record p { terminated = true }) (before ++ end_draft status ∷ []) r
      (all-is_calm p.roles before _ silent refl) (subst (λ x. IsEmitted x.0 x.1 r) h published)

abbrev pub is_known_call : Call → Bool
is_known_call (event e) = is_known_start e.payload
is_known_call (set_turn_call turn_id) = true
is_known_call (turn_call status turn_id turn_index user_text) = true

turn-seen :
    (b : Bool) (p : Projector) (scope : StreamScope)
    → seen (if b then p else record p { stream = scope }) ≡ seen p
turn-seen true p scope = refl
turn-seen false p scope = refl

call-IsSeen :
    (view : ToolView) (c : Call) (p : Projector) → is_known_call c ≡ true → IsSeen p (call view c p)
unfolding call turn_event set_turn emit encode IsAllowed is_allowed see is_valid
call-IsSeen view (event e) p known =
    handled-IsSeen p e.payload e.agent (handle view (handler_of e.kind) p e.payload e.agent) _ known
      (handle-IsHandled view (handler_of e.kind) p e.payload e.agent) (consume-IsEmitted view e p)
call-IsSeen view (set_turn_call turn_id) p known = turn-seen _ p _
call-IsSeen view (turn_call status turn_id turn_index user_text) p known =
    elim (Bool-cases (is_turn_status status)) [
      | inl fits ↦ rw fits (refl, refl)
      | inr broken ↦ rw broken refl
    ]

-- If the starts of agents among a projector's calls have a kind of execution and a role that the
-- contract knows, or none, then in the published stream a span starts only while it is not open and
-- ends only while it is, an agent speaks as the assistant only where the last published start of its
-- run has the role primary, and at the end the projector's open spans and roles are those that a
-- reader of the stream has.
pub run_calls-IsAllowed :
    (view : ToolView) (cs : List Call) (p : Projector)
    → all is_known_call cs ≡ true
    → IsAllowed (seen p) (run_calls view cs p).1 (seen (run_calls view cs p).0)
unfolding run_calls IsAllowed all
run_calls-IsAllowed view [] p known = refl
run_calls-IsAllowed view (c ∷ cs) p known =
    append-IsAllowed _ _ _ (call view c p).1 _ (call-IsSeen view c p (ground arith))
      (run_calls-IsAllowed view cs (call view c p).0 (ground arith))
