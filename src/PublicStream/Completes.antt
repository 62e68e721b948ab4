-- ===== src/PublicStream/Completes.antt =====
-- A public stream ends at most once.
use mathlib.Core.Path.{subst}
use lingxi_learn.Prelude.{
  ℕ, ◌+◌, String, ◌≡◌, refl, ap, Bool, true, List, [], ◌∷◌, ◌++◌, if◌then◌else◌, arith,
}
use lingxi_learn.Prelude.Tables.{all, sum_by, sum_by-append}
use lingxi_learn.PublicStream.{
  StreamScope, TraceScope, Body, turn, text, span_start, span_end, tool, interaction_requested,
  interaction_resolved, resource, run, error, complete, Envelope, encode,
}
use lingxi_learn.PublicStream.Plan.{Payload, ToolView, Projector, Draft}
use lingxi_learn.PublicStream.Projector.{
  handler_of, handle, emit, set_turn, turn_event, Call, event, set_turn_call, turn_call, call,
  run_calls,
}
use lingxi_learn.PublicStream.Emits.{
  stamped, IsEmitted, failed, emitted, valid-emitted, consume-IsEmitted,
}
use lingxi_learn.PublicStream.Handled.{
  is_quiet, is_quiet_draft, end_draft, IsHandled, quiet, terminal, started, ended, handle-IsHandled,
}

unfoldable pub ends : Body → ℕ
ends (complete status) = 1
ends body = 0

-- the number of envelopes that end the stream
abbrev pub completes : List Envelope → ℕ
completes es = sum_by (λ e. ends e.body) es

abbrev pub flag : Bool → ℕ
flag b = if b then 1 else 0

abbrev completes_in : List Draft → ℕ
completes_in ds = sum_by (λ d. ends d.body) ds

completes-stamped :
    (stream : StreamScope) (trace : TraceScope) (n : ℕ) (ds : List Draft)
    → completes (stamped stream trace n ds) ≡ completes_in ds
unfolding stamped sum_by
completes-stamped stream trace n [] = refl
completes-stamped stream trace n (d ∷ ds) =
    ap (λ m. ends d.body + m) (completes-stamped stream trace (n + 1) ds)

quiet-ends :
    (roles : List (String × String)) (body : Body) (id : String)
    → is_quiet roles body id ≡ true
    → ends body ≡ 0
unfolding is_quiet ends
quiet-ends roles (turn turn_id turn_index status user_text) id h = refl
quiet-ends roles (text t) id h = refl
quiet-ends roles (span_start s) id h = refl
quiet-ends roles (span_end agent_run_id status) id h = refl
quiet-ends roles (tool t) id h = refl
quiet-ends roles (interaction_requested i) id h = refl
quiet-ends roles (interaction_resolved interaction_id answers) id h = refl
quiet-ends roles (resource r) id h = refl
quiet-ends roles (run status execution_id interaction_id) id h = refl
quiet-ends roles (error message) id h = refl
quiet-ends roles (complete status) id h = ground arith

completes-quiet :
    (roles : List (String × String)) (ds : List Draft)
    → all (is_quiet_draft roles) ds ≡ true
    → completes_in ds ≡ 0
unfolding all sum_by
completes-quiet roles [] h = refl
completes-quiet roles (d ∷ ds) h =
    let silent : is_quiet_draft roles d ≡ true = ground arith in
    let zero_here = quiet-ends roles d.body d.scope.agent_run_id silent in
    let zero_there = completes-quiet roles ds (ground arith) in ground arith

-- the projector ends when an envelope ends the stream
abbrev pub IsCounted : Bool → Projector × List Envelope → Type 0
IsCounted before r = flag before + completes r.1 ≡ flag r.0.terminated

emitted-IsCounted :
    (q : Projector) (ds : List Draft) (r : Projector × List Envelope)
    → completes_in ds ≡ 0
    → IsEmitted q ds r
    → IsCounted q.terminated r
unfolding sum_by
emitted-IsCounted q ds r none_ends (failed d one broken h) = rw h (ground arith)
emitted-IsCounted q ds r none_ends (emitted fits h) =
    let same = completes-stamped q.stream q.trace q.seq ds in rw h (ground arith)

handled-IsCounted :
    (p : Projector) (e : Payload) (agent : String) (planned : Projector × List Draft)
    (r : Projector × List Envelope)
    → IsHandled p e agent planned
    → IsEmitted planned.0 planned.1 r
    → IsCounted p.terminated r
unfolding sum_by ends
handled-IsCounted p e agent planned r (quiet ds silent h) published =
    emitted-IsCounted p ds r (completes-quiet p.roles ds silent)
      (subst (λ x. IsEmitted x.0 x.1 r) h published)
handled-IsCounted p e agent planned r (started runs closed h) published =
    emitted-IsCounted _ _ r refl (subst (λ x. IsEmitted x.0 x.1 r) h published)
handled-IsCounted p e agent planned r (ended id status is_started valid h) published =
    emitted-IsCounted _ _ r refl (subst (λ x. IsEmitted x.0 x.1 r) h published)
handled-IsCounted p e agent planned r (terminal before status running silent valid h) published =
    let ds = before ++ end_draft status ∷ [] in
    let done = valid-emitted _ ds r valid (subst (λ x. IsEmitted x.0 x.1 r) h published) in
    let same = completes-stamped p.stream p.trace p.seq ds in
    let one_more = sum_by-append (λ (d : Draft). ends d.body) before (end_draft status ∷ []) in
    let none_before = completes-quiet p.roles before silent in rw done (rw running (ground arith))

call-IsCounted :
    (view : ToolView) (c : Call) (p : Projector) → IsCounted p.terminated (call view c p)
unfolding call turn_event set_turn sum_by ends emit encode
call-IsCounted view (event e) p =
    handled-IsCounted p e.payload e.agent (handle view (handler_of e.kind) p e.payload e.agent) _
      (handle-IsHandled view (handler_of e.kind) p e.payload e.agent) (consume-IsEmitted view e p)
call-IsCounted view (set_turn_call turn_id) p = ground arith
call-IsCounted view (turn_call status turn_id turn_index user_text) p = ground arith

-- Over any sequence of a projector's calls, an envelope that ends the stream is published exactly when
-- the projector has become terminated in it, and then exactly one; a projector that is terminated
-- stays so and publishes none.
pub run_calls-completes :
    (view : ToolView) (cs : List Call) (p : Projector)
    → flag p.terminated + completes (run_calls view cs p).1
      ≡ flag (run_calls view cs p).0.terminated
unfolding run_calls sum_by
run_calls-completes view [] p = ground arith
run_calls-completes view (c ∷ cs) p =
    let first = call-IsCounted view c p in
    let rest = run_calls-completes view cs (call view c p).0 in
    let both =
      sum_by-append (λ (e : Envelope). ends e.body) (call view c p).1
        (run_calls view cs (call view c p).0).1 in
    ground arith
