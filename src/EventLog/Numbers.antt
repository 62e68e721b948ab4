-- ===== src/EventLog/Numbers.antt =====
-- The events of a task are numbered 1, 2, 3 and so on, without gaps, whatever other tasks append.
use mathlib.Core.Path.{subst}
use mathlib.Core.List.{append-nil}
use lingxi_learn.Prelude.{
  ℕ, suc, ◌+◌, String, ◌≡◌, refl, sym, ap, ◌∙◌, false, some, List, [], ◌∷◌, ◌++◌, ◌==◌, nat_beq,
  if◌then◌else◌, arith, eq_iff, Bool-cases, ==-self, inl, inr,
}
use lingxi_learn.Prelude.Tables.{filter, length}
use lingxi_learn.EventLog.{
  NewEvent, AgentTaskEvent, EventLog, highest, event_rows, write_agent_event_rows,
  append_agent_events,
}

-- The abstract log of a task: its events, in the order in which they were appended.
abbrev pub of_task : String → List AgentTaskEvent → List AgentTaskEvent
of_task task_id es = filter (λ e. e.task_id == task_id) es

abbrev pub IsNumberedFrom : ℕ → List AgentTaskEvent → Type 0
IsNumberedFrom n [] = Unit {0}
IsNumberedFrom n (e ∷ es) = (e.sequence ≡ n) × IsNumberedFrom (suc n) es

abbrev pub IsNumbered : EventLog → Type 0
IsNumbered s = (task_id : String) → IsNumberedFrom 1 (of_task task_id s.events)

highest-length :
    (task_id : String) (n : ℕ) (es : List AgentTaskEvent)
    → IsNumberedFrom (suc n) (of_task task_id es)
    → highest task_id es
      ≡ (if nat_beq (length (of_task task_id es)) 0 then 0 else n + length (of_task task_id es))
unfolding highest filter
highest-length task_id n [] h = ground arith
highest-length task_id n (e ∷ es) h = elim (Bool-cases (e.task_id == task_id)) [
  | inl mine ↦
      let (first, rest) = rw mine at h in
      let top = highest-length task_id (suc n) es rest in rw mine (ground (arith, top))
  | inr other ↦ rw other (highest-length task_id n es (rw other at h))
]

pub highest_count :
    (task_id : String) (es : List AgentTaskEvent)
    → IsNumberedFrom 1 (of_task task_id es)
    → highest task_id es ≡ length (of_task task_id es)
highest_count task_id es h = ground (arith, highest-length task_id 0 es h)

pub of_task-append :
    (task_id : String) (xs ys : List AgentTaskEvent)
    → of_task task_id (xs ++ ys) ≡ of_task task_id xs ++ of_task task_id ys
unfolding filter
of_task-append task_id [] ys = refl
of_task-append task_id (x ∷ xs) ys = ground (arith, of_task-append task_id xs ys)

of_task-event_rows :
    (task_id : String) (n : ℕ) (es : List NewEvent)
    → of_task task_id (event_rows task_id n es) ≡ event_rows task_id n es
unfolding filter event_rows
of_task-event_rows task_id n [] = refl
of_task-event_rows task_id n (e ∷ es) =
    ground (arith, ==-self task_id, of_task-event_rows task_id (suc n) es)

other-event_rows :
    (other task_id : String) (n : ℕ) (es : List NewEvent)
    → (task_id == other) ≡ false
    → of_task other (event_rows task_id n es) ≡ []
unfolding filter event_rows
other-event_rows other task_id n [] h = refl
other-event_rows other task_id n (e ∷ es) h =
    ground (arith, other-event_rows other task_id (suc n) es)

event_rows-IsNumberedFrom :
    (task_id : String) (n : ℕ) (es : List NewEvent) → IsNumberedFrom n (event_rows task_id n es)
unfolding event_rows
event_rows-IsNumberedFrom task_id n [] = tt
event_rows-IsNumberedFrom task_id n (e ∷ es) = (refl, event_rows-IsNumberedFrom task_id (suc n) es)

IsNumberedFrom-append :
    (n : ℕ) (xs ys : List AgentTaskEvent)
    → IsNumberedFrom n xs
    → IsNumberedFrom (n + length xs) ys
    → IsNumberedFrom n (xs ++ ys)
IsNumberedFrom-append n [] ys h k = subst (λ m. IsNumberedFrom m ys) (omega arith) k
IsNumberedFrom-append n (x ∷ xs) ys h k = (
  h.0,
  IsNumberedFrom-append (suc n) xs ys (h.1) (subst (λ m. IsNumberedFrom m ys) (omega arith) k),
)

length-event_rows :
    (task_id : String) (n : ℕ) (es : List NewEvent) → length (event_rows task_id n es) ≡ length es
unfolding event_rows
length-event_rows task_id n [] = refl
length-event_rows task_id n (e ∷ es) = omega (arith, length-event_rows task_id (suc n) es)

length-append : (xs ys : List AgentTaskEvent) → length (xs ++ ys) ≡ length xs + length ys
length-append [] ys = omega arith
length-append (x ∷ xs) ys = omega (arith, length-append xs ys)

-- What a batch for one task does to the logs of all tasks.
pub record IsAppended (task_id : String) (events : List NewEvent) (s after : EventLog) (total : ℕ)
    : Type 0 where
  pub numbered : IsNumbered after
  pub added :
      of_task task_id after.events
      ≡ of_task task_id s.events
        ++ event_rows task_id (length (of_task task_id s.events) + 1) events
  pub counted : total ≡ length (of_task task_id after.events)
  pub others :
      (other : String)
      → (task_id == other) ≡ false
      → of_task other after.events ≡ of_task other s.events

pub write-IsAppended :
    (task_id : String) (events : List NewEvent) (s : EventLog)
    → IsNumbered s
    → IsAppended task_id events s
        (write_agent_event_rows task_id events s).0
        (write_agent_event_rows task_id events s).1
unfolding write_agent_event_rows
write-IsAppended task_id events s h = record {
  numbered = numbered;
  added = added;
  counted = counted;
  others = others;
}
  where
    log : List AgentTaskEvent
    log = of_task task_id s.events

    rows : List AgentTaskEvent
    rows = event_rows task_id (highest task_id s.events + 1) events

    top : highest task_id s.events ≡ length log
    top = highest_count task_id s.events (h task_id)

    grown : of_task task_id (s.events ++ rows) ≡ log ++ rows
    grown =
        of_task-append task_id s.events rows
        ∙ ap (λ z. log ++ z) (of_task-event_rows task_id (highest task_id s.events + 1) events)

    others :
        (other : String)
        → (task_id == other) ≡ false
        → of_task other (s.events ++ rows) ≡ of_task other s.events
    others other apart =
        of_task-append other s.events rows
        ∙ rw (other-event_rows other task_id (highest task_id s.events + 1) events apart)
            (append-nil (of_task other s.events))

    added : of_task task_id (s.events ++ rows) ≡ log ++ event_rows task_id (length log + 1) events
    added = grown ∙ ap (λ m. log ++ event_rows task_id (m + 1) events) top

    counted : highest task_id s.events + length events ≡ length (of_task task_id (s.events ++ rows))
    counted = omega (
      arith,
      top,
      ap length grown,
      length-append log rows,
      length-event_rows task_id (highest task_id s.events + 1) events,
    )

    mine : IsNumberedFrom 1 (of_task task_id (s.events ++ rows))
    mine =
        subst (λ z. IsNumberedFrom 1 z) (sym grown)
          (IsNumberedFrom-append 1 log rows (h task_id) (
            subst (λ m. IsNumberedFrom m rows) (omega (arith, top))
              (event_rows-IsNumberedFrom task_id (highest task_id s.events + 1) events)))

    numbered : (other : String) → IsNumberedFrom 1 (of_task other (s.events ++ rows))
    numbered other = elim (Bool-cases (task_id == other)) [
      | inl same ↦
          subst (λ t. IsNumberedFrom 1 (of_task t (s.events ++ rows)))
            ((eq_iff task_id other).0 same) mine
      | inr apart ↦ subst (λ z. IsNumberedFrom 1 z) (sym (others other apart)) (h other)
    ]

-- Appending refines the abstract log: if every task's events are numbered from 1 without gaps, a
-- batch adds its events to the end of its task's log under the next numbers, in order, answers with
-- the number of events the task then has, leaves all other tasks' logs alone, and keeps the numbering.
pub append_agent_events-IsAppended :
    (task_id : String) (events : List NewEvent) (s after : EventLog) (total : ℕ)
    → IsNumbered s
    → append_agent_events task_id events s ≡ some (after, total)
    → IsAppended task_id events s after total
unfolding append_agent_events event_rows
append_agent_events-IsAppended task_id [] s after total h e =
    subst (λ t. IsAppended task_id [] s t total) same
      (record { numbered = h; added = added; counted = counted; others = λ other apart. refl })
  where
    same : s ≡ after
    same = ground arith

    added : of_task task_id s.events ≡ of_task task_id s.events ++ []
    added = sym (append-nil (of_task task_id s.events))

    answer : total ≡ highest task_id s.events
    answer = ground arith

    counted : total ≡ length (of_task task_id s.events)
    counted = answer ∙ highest_count task_id s.events (h task_id)
append_agent_events-IsAppended task_id (x ∷ xs) s after total h e =
    subst (λ (p : EventLog × ℕ). IsAppended task_id (x ∷ xs) s p.0 p.1) same
      (write-IsAppended task_id (x ∷ xs) s h)
  where
    same : write_agent_event_rows task_id (x ∷ xs) s ≡ (after, total)
    same = ground arith
