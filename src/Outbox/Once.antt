-- ===== src/Outbox/Once.antt =====
-- One outbox row for an event key, one publication for a row, one snapshot for a plan revision.
use lingxi_learn.Prelude.{
  ℕ, String, ◌≡◌, refl, ◌∙◌, true, false, Option, none, some, List, arith, Bool-cases, ==-self, inl,
  inr,
}
use lingxi_learn.Prelude.Tables.{lookup, modify, find?, find?-append_none, lookup-modify}
use lingxi_learn.Outbox.{
  OutboxRow, FactSnapshot, NewEvent, outbox_id, has_event_key, new_row, add_event, append_outbox,
  is_unpublished, publish, mark_row, mark_outbox_published, is_snapshot_of, add_snapshot,
  save_fact_snapshot,
}

append_outbox-found :
    (id : String) (e : NewEvent) (rows : List OutboxRow)
    → find? (has_event_key e.event_key) (append_outbox id e rows).0
      ≡ some (append_outbox id e rows).1
unfolding append_outbox
append_outbox-found id e rows = go (find? (has_event_key e.event_key) rows) refl
  where
    go :
        (o : Option OutboxRow)
        → find? (has_event_key e.event_key) rows ≡ o
        → find? (has_event_key e.event_key) (add_event id e o rows).0
          ≡ some (add_event id e o rows).1
    go none f =
        find?-append_none (has_event_key e.event_key) rows (new_row id e) f (==-self e.event_key)
    go (some r) f = f

append_outbox-answer :
    (id : String) (e : NewEvent) (rows : List OutboxRow) (r : OutboxRow)
    → find? (has_event_key e.event_key) rows ≡ some r
    → append_outbox id e rows ≡ (rows, r)
unfolding append_outbox
append_outbox-answer id e rows r found = rw found refl

-- A second event under the same key writes nothing and answers with the first one's row, whatever
-- the two events say.
pub append_outbox-once :
    (id id' : String) (e e' : NewEvent) (rows : List OutboxRow)
    → e'.event_key ≡ e.event_key
    → append_outbox id' e' (append_outbox id e rows).0
      ≡ ((append_outbox id e rows).0, (append_outbox id e rows).1)
append_outbox-once id id' e e' rows same =
    append_outbox-answer id' e' (append_outbox id e rows).0 (append_outbox id e rows).1
      (rw same (append_outbox-found id e rows))

-- One caller publishes a row: after a call that was answered with `true` the row carries that call's
-- time, and every later call is answered with `false` and changes nothing.
pub mark_outbox_published-once :
    (k : String) (now later : ℕ) (rows after : List OutboxRow)
    → mark_outbox_published k now rows ≡ (after, true)
    → ((r : OutboxRow) × (lookup outbox_id k rows ≡ some r)
        × (lookup outbox_id k after ≡ some (publish now r)))
      × (mark_outbox_published k later after ≡ (after, false))
unfolding mark_outbox_published
mark_outbox_published-once k now later rows after e = go (lookup outbox_id k rows) refl e
  where
    go :
        (o : Option OutboxRow)
        → lookup outbox_id k rows ≡ o
        → mark_row k now o rows ≡ (after, true)
        → ((r : OutboxRow) × (lookup outbox_id k rows ≡ some r)
            × (lookup outbox_id k after ≡ some (publish now r)))
          × (mark_row k later (lookup outbox_id k after) after ≡ (after, false))
    go none f h = absurd (ground arith)
    go (some r) f h = elim (Bool-cases (is_unpublished r)) [
      | inl open_row ↦
          let changed : lookup outbox_id k (modify outbox_id k (publish now) rows)
              ≡ some (publish now r) =
            lookup-modify outbox_id (publish now) (λ x. refl) k k rows ∙ rw (==-self k, f) refl in
          let found : lookup outbox_id k after ≡ some (publish now r) = ground (arith, changed) in
          ((r, f, found), rw found refl)
      | inr published ↦ absurd (ground arith)
    ]

save_fact_snapshot-found :
    (fresh : FactSnapshot) (rows : List FactSnapshot)
    → find?
        (is_snapshot_of fresh.task_id fresh.turn_id fresh.plan_revision)
        (save_fact_snapshot fresh rows).0
      ≡ some (save_fact_snapshot fresh rows).1
unfolding save_fact_snapshot
save_fact_snapshot-found fresh rows =
    go (find? (is_snapshot_of fresh.task_id fresh.turn_id fresh.plan_revision) rows) refl
  where
    go :
        (o : Option FactSnapshot)
        → find? (is_snapshot_of fresh.task_id fresh.turn_id fresh.plan_revision) rows ≡ o
        → find?
            (is_snapshot_of fresh.task_id fresh.turn_id fresh.plan_revision)
            (add_snapshot fresh o rows).0
          ≡ some (add_snapshot fresh o rows).1
    go none f =
        find?-append_none (is_snapshot_of fresh.task_id fresh.turn_id fresh.plan_revision) rows
          fresh f (ground (arith, ==-self fresh.task_id, ==-self fresh.turn_id))
    go (some r) f = f

save_fact_snapshot-answer :
    (fresh : FactSnapshot) (rows : List FactSnapshot) (r : FactSnapshot)
    → find? (is_snapshot_of fresh.task_id fresh.turn_id fresh.plan_revision) rows ≡ some r
    → save_fact_snapshot fresh rows ≡ (rows, r)
unfolding save_fact_snapshot
save_fact_snapshot-answer fresh rows r found = rw found refl

-- First write wins: a second snapshot for the same task, turn and plan revision writes nothing and
-- answers with the first one's row.
pub save_fact_snapshot-once :
    (fresh fresh' : FactSnapshot) (rows : List FactSnapshot)
    → fresh'.task_id ≡ fresh.task_id
    → fresh'.turn_id ≡ fresh.turn_id
    → fresh'.plan_revision ≡ fresh.plan_revision
    → save_fact_snapshot fresh' (save_fact_snapshot fresh rows).0
      ≡ ((save_fact_snapshot fresh rows).0, (save_fact_snapshot fresh rows).1)
save_fact_snapshot-once fresh fresh' rows task turn revision =
    save_fact_snapshot-answer fresh' (save_fact_snapshot fresh rows).0
      (save_fact_snapshot fresh rows).1
      (rw (task, turn, revision) (save_fact_snapshot-found fresh rows))
