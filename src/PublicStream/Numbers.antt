-- ===== src/PublicStream/Numbers.antt =====
-- The envelopes of a stream are numbered without gaps.
use mathlib.Core.Path.{subst}
use lingxi_learn.Prelude.{ℕ, ◌+◌, ◌≡◌, refl, sym, List, [], ◌∷◌, ◌++◌, arith, Bool-cases, inl, inr}
use lingxi_learn.Prelude.Tables.{length}
use lingxi_learn.PublicStream.{StreamScope, TraceScope, Envelope, is_valid, encode}
use lingxi_learn.PublicStream.Plan.{ToolView, Projector, Draft}
use lingxi_learn.PublicStream.Projector.{
  handler_of, emit, set_turn, turn_event, Call, event, set_turn_call, turn_call, call, run_calls,
  envelope_of,
}
use lingxi_learn.PublicStream.Emits.{
  stamped, IsEmitted, failed, emitted, IsSame, is_same, handle-IsSame, consume-IsEmitted,
}

-- The envelopes have the numbers `n`, `n + 1` and so on, and `m` is the next one.
unfoldable pub IsFrom : ℕ → ℕ → List Envelope → Type 0
IsFrom n m [] = n ≡ m
IsFrom n m (e ∷ es) = (e.seq ≡ n) × IsFrom (n + 1) m es

append-IsFrom :
    (n m k : ℕ) (xs ys : List Envelope) → IsFrom n m xs → IsFrom m k ys → IsFrom n k (xs ++ ys)
unfolding IsFrom
append-IsFrom n m k [] ys h next = subst (λ i. IsFrom i k ys) (sym h) next
append-IsFrom n m k (x ∷ xs) ys (here, h) next = (here, append-IsFrom (n + 1) m k xs ys h next)

stamped-IsFrom :
    (stream : StreamScope) (trace : TraceScope) (n : ℕ) (ds : List Draft)
    → IsFrom n (n + length ds) (stamped stream trace n ds)
unfolding IsFrom stamped
stamped-IsFrom stream trace n [] = omega arith
stamped-IsFrom stream trace n (d ∷ ds) =
    let moved : (n + 1) + length ds ≡ n + length (d ∷ ds) = ground arith in
    (
      refl,
      subst (λ m. IsFrom (n + 1) m (stamped stream trace (n + 1) ds)) moved
          (stamped-IsFrom stream trace (n + 1) ds),
    )

abbrev pub IsNumbered : ℕ → Projector × List Envelope → Type 0
IsNumbered n r = IsFrom n r.0.seq r.1

emitted-IsNumbered :
    (p : Projector) (ds : List Draft) (r : Projector × List Envelope)
    → IsEmitted p ds r
    → IsNumbered p.seq r
unfolding IsFrom
emitted-IsNumbered p ds r (failed d one broken h) = rw h refl
emitted-IsNumbered p ds r (emitted fits h) = rw h (stamped-IsFrom p.stream p.trace p.seq ds)

same-IsNumbered :
    (p q : Projector) (r : Projector × List Envelope)
    → IsSame p q
    → IsNumbered q.seq r
    → IsNumbered p.seq r
same-IsNumbered p q r (is_same seq stream trace) h = subst (λ n. IsNumbered n r) seq h

emit-IsNumbered :
    (p : Projector) (d : Draft) → IsNumbered p.seq ((emit p d).0, envelope_of (emit p d).1)
unfolding emit encode IsFrom
emit-IsNumbered p d = elim (Bool-cases (is_valid d.body)) [
  | inl fits ↦ rw fits (refl, refl)
  | inr broken ↦ rw broken refl
]

call-IsNumbered : (view : ToolView) (c : Call) (p : Projector) → IsNumbered p.seq (call view c p)
unfolding call turn_event set_turn IsFrom
call-IsNumbered view (event e) p =
    same-IsNumbered p _ (call view (event e) p)
      (handle-IsSame view (handler_of e.kind) p e.payload e.agent)
      (emitted-IsNumbered _ _ _ (consume-IsEmitted view e p))
call-IsNumbered view (set_turn_call turn_id) p = ground arith
call-IsNumbered view (turn_call status turn_id turn_index user_text) p = emit-IsNumbered p _

-- The envelopes of any sequence of a projector's calls are numbered one by one from its number, and
-- the projector's number is then the next one.
pub run_calls-IsNumbered :
    (view : ToolView) (cs : List Call) (p : Projector)
    → IsFrom p.seq (run_calls view cs p).0.seq (run_calls view cs p).1
unfolding run_calls IsFrom
run_calls-IsNumbered view [] p = refl
run_calls-IsNumbered view (c ∷ cs) p =
    append-IsFrom _ _ _ (call view c p).1 _ (call-IsNumbered view c p)
      (run_calls-IsNumbered view cs (call view c p).0)
