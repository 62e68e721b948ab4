-- ===== src/Interactions/Once.antt =====
-- At most one answer to an interaction is accepted, in any history of its thread.
use mathlib.Core.Path.{subst}
use lingxi_learn.Prelude.{
  ℕ, ◌+◌, ◌≤◌, String, ◌≡◌, refl, sym, ap, ◌∙◌, Bool, true, false, ◌&&◌, Option, none, some, List,
  [], ◌∷◌, ◌==◌, if◌then◌else◌, is_some, arith, eq_iff, Bool-cases, ==-self, inl, inr,
}
use lingxi_learn.Prelude.Tables.{lookup, modify, find?, any, lookup-modify, lookup-append_some}
use lingxi_learn.WorkLedger.Commands.{CommandInbox}
use lingxi_learn.Interactions.{
  AgentInteraction, InteractionAnswer, Thread, interaction_id, NewInteraction, create_interaction,
  resolve_at, resolve_interaction, Claim, ClaimOutcome, not_found, conflict, already_resolved,
  invalid, duplicate, accepted, is_answer, commit_answer, answer_open, on_interaction,
  claim_interaction_answer,
}
use lingxi_learn.Interactions.Save.{save_interaction_answer, save_row-interactions}
use lingxi_learn.Interactions.Accept.{claim_interaction_answer-IsAccepted}

-- What the application does with a thread's interactions, in any order.
pub data ThreadOp : Type 0 where
  answer : Claim → ThreadOp
  resolve : String → ℕ → ThreadOp
  create : NewInteraction → ThreadOp
  save : String → String → String → ThreadOp

pub apply : ThreadOp → Thread → Thread
apply (answer c) s = (claim_interaction_answer c s).0
apply (resolve id now) s = resolve_interaction id now s
apply (create n) s = create_interaction n s
apply (save id answers key) s = (save_interaction_answer id answers key s).0

abbrev pub is_accepted : ClaimOutcome → Bool
is_accepted (accepted command) = true
is_accepted _ = false

-- Whether an operation is an answer to `k` that the thread accepts.
pub accepts : String → Thread → ThreadOp → Bool
accepts k s (answer c) = c.interaction == k && is_accepted (claim_interaction_answer c s).1
accepts k s _ = false

pub accepted_count : String → List ThreadOp → Thread → ℕ
unfolding accepts apply
accepted_count k [] s = 0
accepted_count k (op ∷ ops) s =
    (if accepts k s op then 1 else 0) + accepted_count k ops (apply op s)

IsResolved : String → Thread → Type 0
IsResolved k s =
    (row : AgentInteraction) × (lookup interaction_id k s.interactions ≡ some row)
    × (row.status ≡ "resolved")

modify-IsResolved :
    (k id : String) (now : ℕ) (s s' : Thread)
    → IsResolved k s
    → s'.interactions ≡ modify interaction_id id (resolve_at now) s.interactions
    → IsResolved k s'
unfolding IsResolved
modify-IsResolved k id now s s' (row, found, e) w = elim (Bool-cases (id == k)) [
  | inl hit ↦ (
    resolve_at now row,
    rw w (
        lookup-modify interaction_id (resolve_at now) (λ i. refl) k id s.interactions
        ∙ rw (hit, found) refl),
    refl,
  )
  | inr miss ↦ (
    row,
    rw w (
        lookup-modify interaction_id (resolve_at now) (λ i. refl) k id s.interactions
        ∙ rw (miss, found) refl),
    e,
  )
]

accepted_of : (o : ClaimOutcome) → is_accepted o ≡ true → (c : CommandInbox) × (o ≡ accepted c)
accepted_of not_found h = absurd (ground arith)
accepted_of conflict h = absurd (ground arith)
accepted_of already_resolved h = absurd (ground arith)
accepted_of (invalid status) h = absurd (ground arith)
accepted_of (duplicate answers command) h = absurd (ground arith)
accepted_of (accepted command) h = (command, refl)

answer_open-refused :
    (c : Claim) (i : AgentInteraction) (s : Thread)
    → is_accepted (answer_open c i s).1 ≡ false
    → (answer_open c i s).0 ≡ s
unfolding answer_open commit_answer
answer_open-refused c i s h = ground arith

claim_refused :
    (c : Claim) (s : Thread)
    → is_accepted (claim_interaction_answer c s).1 ≡ false
    → (claim_interaction_answer c s).0 ≡ s
unfolding claim_interaction_answer
claim_refused c s h = elim (Bool-cases (any (λ t. t == c.task_id) s.task_ids)) [
  | inl known ↦ rw known (
      go (lookup interaction_id c.interaction s.interactions)
        (find? (is_answer c.interaction c.idempotency_key) s.answers) refl (rw known at h))
  | inr unknown ↦ rw unknown refl
]
  where
    go :
        (o : Option AgentInteraction) (a : Option InteractionAnswer)
        → find? (is_answer c.interaction c.idempotency_key) s.answers ≡ a
        → is_accepted (on_interaction c o s).1 ≡ false
        → (on_interaction c o s).0 ≡ s
    go none a g k = refl
    go (some i) none g k = ground (arith, answer_open-refused c i s)
    go (some i) (some a) g k = ground arith

claim-IsResolved :
    (c : Claim) (s : Thread)
    → is_accepted (claim_interaction_answer c s).1 ≡ true
    → IsResolved c.interaction (claim_interaction_answer c s).0
unfolding IsResolved
claim-IsResolved c s h =
    let (command, e) = accepted_of (claim_interaction_answer c s).1 h in
    let after = (claim_interaction_answer c s).0 in
    let both : claim_interaction_answer c s ≡ (after, accepted command) = λ i. (after, e i) in
    let a = claim_interaction_answer-IsAccepted c s after command both in
    (
      resolve_at c.now a.row,
      rw (a.written) (
          lookup-modify interaction_id (resolve_at c.now) (λ i. refl) c.interaction c.interaction
            s.interactions
          ∙ rw (==-self c.interaction, a.found) refl),
      refl,
    )

resolved_refuses :
    (c : Claim) (s : Thread)
    → IsResolved c.interaction s
    → is_accepted (claim_interaction_answer c s).1 ≡ false
unfolding IsResolved
resolved_refuses c s (row, found, e) =
    elim (Bool-cases (is_accepted (claim_interaction_answer c s).1)) [
      | inl h ↦
          let (command, o) = accepted_of (claim_interaction_answer c s).1 h in
          let after = (claim_interaction_answer c s).0 in
          let both : claim_interaction_answer c s ≡ (after, accepted command) = λ i. (after, o i) in
          let a = claim_interaction_answer-IsAccepted c s after command both in
          let was : a.row.status ≡ "pending" = a.pending in
          let at : lookup interaction_id c.interaction s.interactions ≡ some a.row = a.found in
          absurd (ground (arith, eq_iff "pending" "resolved"))
      | inr h ↦ h
    ]

apply-IsResolved :
    (k : String) (op : ThreadOp) (s : Thread) → IsResolved k s → IsResolved k (apply op s)
unfolding apply resolve_interaction create_interaction save_interaction_answer IsResolved
apply-IsResolved k (answer c) s r =
    elim (Bool-cases (is_accepted (claim_interaction_answer c s).1)) [
      | inl h ↦
          let (command, o) = accepted_of (claim_interaction_answer c s).1 h in
          let after = (claim_interaction_answer c s).0 in
          let both : claim_interaction_answer c s ≡ (after, accepted command) = λ i. (after, o i) in
          let a = claim_interaction_answer-IsAccepted c s after command both in
          modify-IsResolved k c.interaction c.now s after r
            (ap (λ (t : Thread). t.interactions) a.written)
      | inr h ↦ rw (claim_refused c s h) r
    ]
apply-IsResolved k (resolve id now) s r =
    modify-IsResolved k id now s (resolve_interaction id now s) r refl
apply-IsResolved k (create n) s (row, found, e) =
    elim (Bool-cases (is_some (lookup interaction_id n.id s.interactions))) [
      | inl taken ↦ rw taken (row, found, e)
      | inr free ↦ rw free (row, lookup-append_some interaction_id k s.interactions _ row found, e)
    ]
apply-IsResolved k (save id answers key) s (row, found, e) =
    (row, rw (save_row-interactions id answers key (find? (is_answer id key) s.answers) s) found, e)

accepts_resolved :
    (k : String) (op : ThreadOp) (s : Thread) → IsResolved k s → accepts k s op ≡ false
unfolding accepts
accepts_resolved k (answer c) s r = elim (Bool-cases (c.interaction == k)) [
  | inl hit ↦
      let refused =
        resolved_refuses c s
          (subst (λ j. IsResolved j s) (sym ((eq_iff c.interaction k).0 hit)) r) in
      rw (hit, refused) refl
  | inr miss ↦ rw miss refl
]
accepts_resolved k (resolve id now) s r = refl
accepts_resolved k (create n) s r = refl
accepts_resolved k (save id answers key) s r = refl

accepts-IsResolved :
    (k : String) (op : ThreadOp) (s : Thread) → accepts k s op ≡ true → IsResolved k (apply op s)
unfolding accepts apply
accepts-IsResolved k (answer c) s h =
    subst (λ j. IsResolved j (claim_interaction_answer c s).0)
      ((eq_iff c.interaction k).0 (ground arith)) (claim-IsResolved c s (ground arith))
accepts-IsResolved k (resolve id now) s h = absurd (ground arith)
accepts-IsResolved k (create n) s h = absurd (ground arith)
accepts-IsResolved k (save id answers key) s h = absurd (ground arith)

accepted_count-resolved :
    (k : String) (ops : List ThreadOp) (s : Thread) → IsResolved k s → accepted_count k ops s ≡ 0
unfolding accepted_count
accepted_count-resolved k [] s r = refl
accepted_count-resolved k (op ∷ ops) s r =
    let rest = accepted_count-resolved k ops (apply op s) (apply-IsResolved k op s r) in
    rw (accepts_resolved k op s r) (omega (arith, rest))

-- Of all the answers to one interaction in a history, at most one is accepted, whatever happens to
-- the thread in between.
pub accepted_count-le_one :
    (k : String) (ops : List ThreadOp) (s : Thread) → accepted_count k ops s ≤ 1
unfolding accepted_count
accepted_count-le_one k [] s = omega arith
accepted_count-le_one k (op ∷ ops) s = elim (Bool-cases (accepts k s op)) [
  | inl now ↦
      let rest = accepted_count-resolved k ops (apply op s) (accepts-IsResolved k op s now) in
      rw now (omega (arith, rest))
  | inr not_now ↦ rw not_now (omega (arith, accepted_count-le_one k ops (apply op s)))
]
