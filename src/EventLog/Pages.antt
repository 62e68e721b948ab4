-- ===== src/EventLog/Pages.antt =====
-- Pages of a task's log: reading after a cursor is skipping as many events of the log.
use lingxi_learn.Prelude.{
  ℕ, zero, suc, ◌+◌, ◌<◌, String, ◌≡◌, refl, ap, ◌∙◌, Bool, ◌&&◌, List, [], ◌∷◌, ◌==◌, ltb, arith,
}
use lingxi_learn.Prelude.Tables.{filter, take, drop, filter_and}
use lingxi_learn.Prelude.Order.{insert_by, sort_by}
use lingxi_learn.EventLog.{AgentTaskEvent, EventLog, before, agent_events_after}
use lingxi_learn.EventLog.Numbers.{of_task, IsNumberedFrom, IsNumbered}

abbrev pub is_after : ℕ → AgentTaskEvent → Bool
is_after cursor e = ltb cursor e.sequence

filter-is_after_all :
    (m n : ℕ) (es : List AgentTaskEvent) → m < n → IsNumberedFrom n es → filter (is_after m) es ≡ es
unfolding filter
filter-is_after_all m n [] lt h = refl
filter-is_after_all m n (e ∷ es) lt h =
    ground (arith, h.0, filter-is_after_all m (suc n) es (omega arith) (h.1))

filter-is_after :
    (cursor n m : ℕ) (es : List AgentTaskEvent)
    → m ≡ n + cursor
    → IsNumberedFrom (suc n) es
    → filter (is_after m) es ≡ drop cursor es
unfolding filter drop
filter-is_after zero n m es at_m h = filter-is_after_all m (suc n) es (omega arith) h
filter-is_after (suc cursor) n m [] at_m h = refl
filter-is_after (suc cursor) n m (e ∷ es) at_m h =
    ground (arith, h.0, filter-is_after cursor (suc n) m es (omega arith) (h.1))

drop-IsNumberedFrom :
    (cursor n : ℕ) (es : List AgentTaskEvent)
    → IsNumberedFrom n es
    → (m : ℕ) × IsNumberedFrom m (drop cursor es)
unfolding drop
drop-IsNumberedFrom zero n es h = (n, h)
drop-IsNumberedFrom (suc cursor) n [] h = (n, h)
drop-IsNumberedFrom (suc cursor) n (e ∷ es) h = drop-IsNumberedFrom cursor (suc n) es (h.1)

insert_by-first :
    (n : ℕ) (e : AgentTaskEvent) (es : List AgentTaskEvent)
    → e.sequence ≡ n
    → IsNumberedFrom (suc n) es
    → insert_by before e es ≡ e ∷ es
unfolding insert_by
insert_by-first n e [] at_n h = refl
insert_by-first n e (x ∷ xs) at_n h = ground (arith, h.0)

sort_by-numbered : (n : ℕ) (es : List AgentTaskEvent) → IsNumberedFrom n es → sort_by before es ≡ es
unfolding sort_by
sort_by-numbered n [] h = refl
sort_by-numbered n (e ∷ es) h =
    rw (sort_by-numbered (suc n) es (h.1)) (insert_by-first n e es (h.0) (h.1))

-- Reading after a cursor is equivalent to a slice of the abstract log: if every task's events are
-- numbered from 1 without gaps, the page after `cursor` is the task's log without its first `cursor`
-- events, cut after `limit` events; so no event is left out or read twice between two pages.
pub agent_events_after-slice :
    (task_id : String) (cursor limit : ℕ) (s : EventLog)
    → IsNumbered s
    → agent_events_after task_id cursor limit s
      ≡ take limit (drop cursor (of_task task_id s.events))
unfolding agent_events_after
agent_events_after-slice task_id cursor limit s h =
    ap (take limit) (ap (sort_by before) chosen ∙ sort_by-numbered rest.0 (drop cursor log) rest.1)
  where
    log : List AgentTaskEvent
    log = of_task task_id s.events

    rest : (m : ℕ) × IsNumberedFrom m (drop cursor log)
    rest = drop-IsNumberedFrom cursor 1 log (h task_id)

    chosen : filter (λ e. e.task_id == task_id && ltb cursor e.sequence) s.events ≡ drop cursor log
    chosen =
        filter_and (λ e. e.task_id == task_id) (is_after cursor) s.events
        ∙ filter-is_after cursor 0 cursor log (omega arith) (h task_id)
