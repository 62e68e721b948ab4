-- ===== src/Guardrails/Holds.antt =====
-- When a hold is revised: the limits that the policy puts before the model's decision.
use mathlib.Core.List.{Memᴰ}
use lingxi_learn.Prelude.{
  ◌≤◌, ◌<◌, ◌≡◌, ◌≢◌, refl, sym, ap, ◌∙◌, Bool, false, Option, none, some, List, [], ◌∷◌, map, ltb,
  arith, eq_iff, Bool-cases, Option-cases, inl, inr,
}
use lingxi_learn.Prelude.Tables.{length, lookup}
use lingxi_learn.Capabilities.{strip}
use lingxi_learn.Guardrails.{
  Budget, exhausted, revise, close, HoldDecision, Hold, hold_key, limit_hold, limit_holds,
  apply_hold_policy, closed,
}

-- A revision is within its limits.
pub IsLimited : List Hold → Budget → Bool → HoldDecision → Type 0
IsLimited holds b satisfied d =
    (h : Hold) × (lookup hold_key d.task_key holds ≡ some h)
    × (h.revisions < 2)
    × (exhausted b ≡ none)
    × (satisfied ≡ false)
    × (length holds ≤ 6)
    × (d.instruction ≢ "")

limit_hold-IsLimited :
    (b : Budget) (satisfied : Bool) (holds : List Hold) (d : HoldDecision) (h : Hold)
    → lookup hold_key d.task_key holds ≡ some h
    → (limit_hold b satisfied (length holds) d h).action ≡ revise
    → IsLimited holds b satisfied (limit_hold b satisfied (length holds) d h)
unfolding limit_hold IsLimited
limit_hold-IsLimited b satisfied holds d h found e = elim (Option-cases (exhausted b)) [
  | inl none_e ↦ (
    h,
    ground arith,
    ground arith,
    none_e,
    ground arith,
    ground arith,
    λ blank. ground (arith, eq_iff (strip d.instruction) ""),
  )
  | inr (v, some_e) ↦ absurd (ground arith)
]

limit_holds-IsLimited :
    (b : Budget) (satisfied : Bool) (holds : List Hold) (ds : List HoldDecision) (d : HoldDecision)
    → Memᴰ d (limit_holds b satisfied holds ds)
    → d.action ≡ revise
    → IsLimited holds b satisfied d
unfolding limit_holds
limit_holds-IsLimited b satisfied holds [] d m e = elim m [ ]
limit_holds-IsLimited b satisfied holds (x ∷ ds) d m e =
    go (lookup hold_key x.task_key holds) refl
      (λ n. limit_holds-IsLimited b satisfied holds ds d n e) m
  where
    go :
        (o : Option Hold)
        → lookup hold_key x.task_key holds ≡ o
        → (Memᴰ d (limit_holds b satisfied holds ds) → IsLimited holds b satisfied d)
        → Memᴰ d (elim o [
          | none ↦ limit_holds b satisfied holds ds
          | some h ↦ limit_hold b satisfied (length holds) x h ∷ limit_holds b satisfied holds ds
        ])
        → IsLimited holds b satisfied d
    go none f later n = later n
    go (some h) f later (Memᴰ.head p) = rw p (
        limit_hold-IsLimited b satisfied holds x h f
          (ap (λ (z : HoldDecision). z.action) (sym p) ∙ e))
    go (some h) f later (Memᴰ.tail n) = later n

map-closed :
    (ds : List HoldDecision) (d : HoldDecision)
    → Memᴰ d (map (λ (x : HoldDecision). closed x.task_key) ds)
    → d.action ≡ close
map-closed [] d m = elim m [ ]
map-closed (x ∷ ds) d (Memᴰ.head p) = ap (λ (z : HoldDecision). z.action) p
map-closed (x ∷ ds) d (Memᴰ.tail m) = map-closed ds d m

-- Each revision that the policy lets through is on an open hold with fewer than two revisions, has
-- an instruction, and happens only while the budget lasts, the goal is not satisfied and at most six
-- holds are open.
pub apply_hold_policy-IsLimited :
    (ds : List HoldDecision) (holds : List Hold) (b : Budget) (satisfied : Bool) (d : HoldDecision)
    → Memᴰ d (apply_hold_policy ds holds b satisfied)
    → d.action ≡ revise
    → IsLimited holds b satisfied d
unfolding apply_hold_policy
apply_hold_policy-IsLimited ds holds b satisfied d m e = elim (Bool-cases (ltb 6 (length holds))) [
  | inl many ↦ let shut = map-closed _ d (rw many at m) in absurd (ground (arith, shut))
  | inr few ↦ limit_holds-IsLimited b satisfied holds ds d (rw few at m) e
]
