-- ===== src/Schedules/Slots.antt =====
-- A slot that was launched is never handed out again.
use lingxi_learn.Prelude.{
  ℕ, ◌+◌, String, ◌≡◌, ◌⊎◌, refl, sym, ◌∙◌, Bool, true, false, ◌&&◌, Option, none, some, List, [],
  ◌∷◌, ◌++◌, ◌==◌, nat_beq, if◌then◌else◌, arith, eq_iff, Bool-cases, inl, inr,
}
use lingxi_learn.Prelude.Tables.{modify, modify_first, find?}
use lingxi_learn.Schedules.{
  AgentSchedule, ScheduleRun, Schedules, run_id, create_schedule_proposal,
  decide_schedule_permission, decide_row, is_proposal, revoke_schedule_proposal, revoke_row,
  first_due, slot_of, is_slot, ScheduleClaim, claim_slot, claim_due, claim_due_schedule,
  finish_schedule_claim,
}

pub data ScheduleOp : Type 0 where
  propose : ℕ → AgentSchedule → ScheduleOp
  decide : String → String → String → ℕ → ScheduleOp
  revoke_proposal : String → String → ℕ → ScheduleOp
  claim : String → String → ℕ → ℕ → ScheduleOp
  finish : ScheduleClaim → String → Option ℕ → ScheduleOp

pub apply : ScheduleOp → Schedules → Schedules
apply (propose now r) s = create_schedule_proposal now r s
apply (decide proposal learner decision now) s =
    (decide_schedule_permission proposal learner decision now s).0
apply (revoke_proposal proposal learner now) s = (revoke_schedule_proposal proposal learner now s).0
apply (claim fresh owner seconds moment) s = (claim_due_schedule fresh owner seconds moment s).0
apply (finish c execution_id next_run_at) s = finish_schedule_claim c execution_id next_run_at s

abbrev pub is_claim_of : String → ℕ → Option ScheduleClaim → Bool
is_claim_of sid slot none = false
is_claim_of sid slot (some c) = c.schedule_id == sid && nat_beq c.scheduled_for slot

-- Whether an operation hands the slot of the schedule to a worker.
pub hands_out : String → ℕ → Schedules → ScheduleOp → Bool
hands_out sid slot s (claim fresh owner seconds moment) =
    is_claim_of sid slot (claim_due_schedule fresh owner seconds moment s).1
hands_out sid slot s _ = false

pub handed_out : String → ℕ → List ScheduleOp → Schedules → ℕ
unfolding hands_out apply
handed_out sid slot [] s = 0
handed_out sid slot (op ∷ ops) s =
    (if hands_out sid slot s op then 1 else 0) + handed_out sid slot ops (apply op s)

-- The slot's run was started.
unfoldable pub IsStarted : String → ℕ → Schedules → Type 0
IsStarted sid slot s =
    (run : ScheduleRun) × (find? (is_slot sid slot) s.runs ≡ some run) × (run.status ≡ "started")

find?-modify :
    {A : Type 0} (key : A → String) (test : A → Bool) (f : A → A) (k : String) (rows : List A)
    (r : A)
    → ((a : A) → test (f a) ≡ test a)
    → find? test rows ≡ some r
    → (find? test (modify key k f rows) ≡ some r) ⊎ (find? test (modify key k f rows) ≡ some (f r))
unfolding find? modify
find?-modify key test f k [] r keeps h = absurd (ground arith)
find?-modify key test f k (x ∷ xs) r keeps h = elim (Bool-cases (key x == k)) [
  | inl hit ↦ rw hit (elim (Bool-cases (test x)) [
    | inl e ↦ inr (ground (arith, keeps x))
    | inr e ↦ inl (ground (arith, keeps x))
  ])
  | inr miss ↦ rw miss (elim (Bool-cases (test x)) [
    | inl e ↦ inl (ground arith)
    | inr e ↦ rw e (find?-modify key test f k xs r keeps (ground arith))
  ])
]

-- A change of the first row that meets another condition is not seen.
find?-modify_first_other :
    {A : Type 0} (test other : A → Bool) (g : A → A) (rows : List A)
    → ((a : A) → other a ≡ true → test a ≡ false)
    → ((a : A) → test (g a) ≡ test a)
    → find? test (modify_first other g rows) ≡ find? test rows
unfolding find? modify_first
find?-modify_first_other test other g [] apart keeps = refl
find?-modify_first_other test other g (x ∷ xs) apart keeps =
    ground (arith, apart x, keeps x, find?-modify_first_other test other g xs apart keeps)

find?-append :
    {A : Type 0} (test : A → Bool) (xs ys : List A) (r : A)
    → find? test xs ≡ some r
    → find? test (xs ++ ys) ≡ some r
unfolding find?
find?-append test [] ys r h = absurd (ground arith)
find?-append test (x ∷ xs) ys r h = ground (arith, find?-append test xs ys r)

same_runs :
    (sid : String) (slot : ℕ) (s s' : Schedules)
    → s'.runs ≡ s.runs
    → IsStarted sid slot s
    → IsStarted sid slot s'
unfolding IsStarted
same_runs sid slot s s' e (run, found, started) = (run, rw e found, started)

-- The slot of a due schedule is the given one, or no row belongs to both.
slot_cases :
    (r : AgentSchedule) (sid : String) (slot : ℕ)
    → ((r.id ≡ sid) × (slot_of r ≡ slot))
      ⊎ ((r.id == sid && nat_beq (slot_of r) slot) ≡ false)
        × ((x : ScheduleRun) → is_slot r.id (slot_of r) x ≡ true → is_slot sid slot x ≡ false)
slot_cases r sid slot = elim (Bool-cases (r.id == sid && nat_beq (slot_of r) slot)) [
  | inl e ↦ inl ((eq_iff r.id sid).0 (ground arith), ground arith)
  | inr e ↦ inr (
    e,
    λ x h. ground (arith, eq_iff r.id sid, eq_iff x.schedule_id r.id, eq_iff x.schedule_id sid),
  )
]

claim_slot-IsStarted :
    (fresh owner : String) (until : ℕ) (r : AgentSchedule) (sid : String) (slot : ℕ) (s : Schedules)
    (o : Option ScheduleRun)
    → find? (is_slot r.id (slot_of r)) s.runs ≡ o
    → IsStarted sid slot s
    → IsStarted sid slot (claim_slot fresh owner until r o s).0
      × (is_claim_of sid slot (claim_slot fresh owner until r o s).1 ≡ false)
unfolding IsStarted
claim_slot-IsStarted fresh owner until r sid slot s none free (run, found, started) =
    elim (slot_cases r sid slot) [
      | inl (e, t) ↦ absurd (cc (sym (rw (e, t) at free) ∙ found))
      | inr (apart, _) ↦ ((run, find?-append (is_slot sid slot) s.runs _ run found, started), apart)
    ]
claim_slot-IsStarted fresh owner until r sid slot s (some old) free (run, found, started) =
    elim (slot_cases r sid slot) [
      | inl (e, t) ↦
          let same : some old ≡ some run = sym (rw (e, t) at free) ∙ found in
          let over : (old.status == "started") ≡ true =
            ground (arith, eq_iff old.status "started") in
          rw over ((run, found, started), refl)
      | inr (apart, others) ↦
          let kept : find? (is_slot sid slot) (
                modify_first (is_slot r.id (slot_of r))
                  (λ (x : ScheduleRun). record x { status = "claimed" }) s.runs)
              ≡ some run =
            find?-modify_first_other (is_slot sid slot) (is_slot r.id (slot_of r))
              (λ (x : ScheduleRun). record x { status = "claimed" }) s.runs others (λ x. refl)
            ∙ found in
          elim (Bool-cases (old.status == "started")) [
            | inl over ↦ rw over ((run, found, started), refl)
            | inr open_slot ↦ rw open_slot ((run, kept, started), apart)
          ]
    ]

claim_due-IsStarted :
    (fresh owner sid : String) (until slot : ℕ) (o : Option AgentSchedule) (s : Schedules)
    → IsStarted sid slot s
    → IsStarted sid slot (claim_due fresh owner until o s).0
      × (is_claim_of sid slot (claim_due fresh owner until o s).1 ≡ false)
claim_due-IsStarted fresh owner sid until slot none s st = (st, refl)
claim_due-IsStarted fresh owner sid until slot (some r) s st =
    claim_slot-IsStarted fresh owner until r sid slot s (find? (is_slot r.id (slot_of r)) s.runs)
      refl st

finish-IsStarted :
    (c : ScheduleClaim) (execution_id : String) (next_run_at : Option ℕ) (sid : String) (slot : ℕ)
    (s : Schedules)
    → IsStarted sid slot s
    → IsStarted sid slot (finish_schedule_claim c execution_id next_run_at s)
unfolding IsStarted finish_schedule_claim
finish-IsStarted c execution_id next_run_at sid slot s (run, found, started) =
    let f =
      λ (x : ScheduleRun). record x { execution_id = some execution_id; status = "started" } in
    elim (find?-modify run_id (is_slot sid slot) f c.run_id s.runs run (λ x. refl) found) [
      | inl e ↦ (run, e, started)
      | inr e ↦ (f run, e, refl)
    ]

decide_row-runs :
    (learner decision : String) (now : ℕ) (o : Option AgentSchedule) (s : Schedules)
    → (decide_row learner decision now o s).0.runs ≡ s.runs
decide_row-runs learner decision now none s = refl
decide_row-runs learner decision now (some r) s = ground arith

revoke_row-runs :
    (now : ℕ) (o : Option AgentSchedule) (s : Schedules) → (revoke_row now o s).0.runs ≡ s.runs
revoke_row-runs now none s = refl
revoke_row-runs now (some r) s = refl

apply-IsStarted :
    (op : ScheduleOp) (sid : String) (slot : ℕ) (s : Schedules)
    → IsStarted sid slot s
    → IsStarted sid slot (apply op s) × (hands_out sid slot s op ≡ false)
unfolding apply hands_out create_schedule_proposal decide_schedule_permission
    revoke_schedule_proposal claim_due_schedule
apply-IsStarted (propose now r) sid slot s st = (same_runs sid slot s _ refl st, refl)
apply-IsStarted (decide proposal learner decision now) sid slot s st = (
  same_runs sid slot s _
      (ground (
        arith,
        decide_row-runs learner decision now (find? (is_proposal proposal learner) s.schedules) s,
      ))
      st,
  refl,
)
apply-IsStarted (revoke_proposal proposal learner now) sid slot s st = (
  same_runs sid slot s _ (revoke_row-runs now (find? (is_proposal proposal learner) s.schedules) s)
      st,
  refl,
)
apply-IsStarted (claim fresh owner seconds moment) sid slot s st =
    claim_due-IsStarted fresh owner sid (moment + seconds) slot (first_due moment s.schedules) s st
apply-IsStarted (finish c execution_id next_run_at) sid slot s st =
    (finish-IsStarted c execution_id next_run_at sid slot s st, refl)

-- Once a slot's run was started, no history of proposals, decisions, revocations, claims and ends
-- hands the slot out to a worker again, whoever asks and whatever leases run out.
pub handed_out-IsStarted :
    (sid : String) (slot : ℕ) (ops : List ScheduleOp) (s : Schedules)
    → IsStarted sid slot s
    → handed_out sid slot ops s ≡ 0
unfolding handed_out
handed_out-IsStarted sid slot [] s st = refl
handed_out-IsStarted sid slot (op ∷ ops) s st =
    let (still, refused) = apply-IsStarted op sid slot s st in
    rw refused (omega (arith, handed_out-IsStarted sid slot ops (apply op s) still))
