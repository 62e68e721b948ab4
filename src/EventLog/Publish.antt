-- ===== src/EventLog/Publish.antt =====
-- The publication of an outbox row into a task's log happens once.
use lingxi_learn.Prelude.{
  ℕ, String, ◌≡◌, refl, Bool, true, false, some, List, arith, Bool-cases, inl, inr,
}
use mathlib.Core.Path.{subst}
use lingxi_learn.Outbox.{OutboxRow, mark_outbox_published}
use lingxi_learn.Outbox.Once.{mark_outbox_published-once}
use lingxi_learn.EventLog.{
  NewEvent, EventLog, write_agent_event_rows, has_task, publish_claimed,
  publish_outbox_agent_events,
}
use lingxi_learn.EventLog.Numbers.{IsNumbered, IsAppended, write-IsAppended}

-- Publishing happens once and is an append: if every task's events are numbered from 1 without gaps
-- and a publication is answered with `true`, then its events stand at the end of the task's log under
-- the next numbers while all other tasks' logs are as before, and every later publication of the same
-- outbox row to that task, whatever events it brings, is answered with `false` and changes nothing.
pub publish_outbox_agent_events-once :
    (outbox_id task_id : String) (events : List NewEvent) (now : ℕ) (s after : EventLog)
    → IsNumbered s
    → publish_outbox_agent_events outbox_id task_id events now s ≡ some (after, true)
    → ((total : ℕ) × IsAppended task_id events s after total)
      × ((events' : List NewEvent) (later : ℕ)
          → publish_outbox_agent_events outbox_id task_id events' later after ≡ some (after, false))
unfolding publish_outbox_agent_events write_agent_event_rows
publish_outbox_agent_events-once outbox_id task_id events now s after h e =
    elim (Bool-cases (has_task task_id s)) [
      | inl known ↦ go (mark_outbox_published outbox_id now s.outbox) refl known (rw known at e)
      | inr unknown ↦ absurd (ground arith)
    ]
  where
    go :
        (p : List OutboxRow × Bool)
        → mark_outbox_published outbox_id now s.outbox ≡ p
        → has_task task_id s ≡ true
        → some (publish_claimed task_id events p s) ≡ some (after, true)
        → ((total : ℕ) × IsAppended task_id events s after total)
          × ((events' : List NewEvent) (later : ℕ)
              → publish_outbox_agent_events outbox_id task_id events' later after
                ≡ some (after, false))
    go (rows, false) marked known f = absurd (ground arith)
    go (rows, true) marked known f =
        subst
          (λ (t : EventLog).
            ((total : ℕ) × IsAppended task_id events s t total)
            × ((events' : List NewEvent) (later : ℕ)
                → publish_outbox_agent_events outbox_id task_id events' later t ≡ some (t, false)))
          same
          (
            (
              written.1,
              record {
                numbered = appended.numbered;
                added = appended.added;
                counted = appended.counted;
                others = appended.others;
              },
            ),
            again,
          )
      where
        written : EventLog × ℕ
        written = write_agent_event_rows task_id events s

        appended : IsAppended task_id events s written.0 written.1
        appended = write-IsAppended task_id events s h

        published : EventLog
        published = record (written.0) { outbox = rows }

        same : published ≡ after
        same = ground arith

        again :
            (events' : List NewEvent) (later : ℕ)
            → publish_outbox_agent_events outbox_id task_id events' later published
              ≡ some (published, false)
        again events' later =
            rw (known, (mark_outbox_published-once outbox_id now later s.outbox rows marked).1) refl
