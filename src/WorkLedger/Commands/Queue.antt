-- ===== src/WorkLedger/Commands/Queue.antt =====
-- The command queue: idempotent appends in sequence order, exclusive delivery, single consumption.
use mathlib.Core.List.{Memᴰ}
use lingxi_learn.Prelude.{
  ℕ, ◌+◌, ◌≤◌, ◌<◌, String, ◌≡◌, ◌≢◌, refl, ap, ◌∙◌, Bool, true, false, Option, none, some, List,
  [], ◌∷◌, ◌++◌, ◌==◌, arith, eq_iff, ==-self,
}
use lingxi_learn.Prelude.Tables.{lookup, modify, find?, any, find?-append_none, lookup-modify}
use lingxi_learn.WorkLedger.Commands.{
  CommandInbox, Inbox, appended, NewCommand, has_key, append_command, append_or_return,
  insert_command, new_command, top_sequence, next_turn_index, max_of, command_id, update_command,
  update_row, consume_command, claim_command_delivery, mark_command_delivered,
  heartbeat_command_delivery, mark_command_transfer_pending, can_consume, is_unset,
}

insert_command-find :
    (fresh_turn fresh_command : String) (turn_id : Option String) (n : NewCommand) (s after : Inbox)
    (c : CommandInbox) (made : Bool)
    → find? (has_key n.task_id n.idempotency_key) s.commands ≡ none
    → insert_command fresh_turn fresh_command turn_id n s ≡ (after, appended c made)
    → (find? (has_key n.task_id n.idempotency_key) after.commands ≡ some c)
      × (after.task_ids ≡ s.task_ids)
      × (c.sequence ≡ top_sequence n.task_id s.commands + 1)
      × (after.commands ≡ s.commands ++ c ∷ [])
      × (c.task_id ≡ n.task_id)
unfolding insert_command
insert_command-find ft fc none n s after c made absent e =
    let turn = next_turn_index n.task_id s.turns in
    let row = new_command fc ft (top_sequence n.task_id s.commands + 1) n in
    let new =
      find?-append_none (has_key n.task_id n.idempotency_key) s.commands row absent
        (ground (arith, ==-self n.task_id, ==-self n.idempotency_key)) in
    ground (arith, new)
insert_command-find ft fc (some turn_id) n s after c made absent e =
    let row = new_command fc turn_id (top_sequence n.task_id s.commands + 1) n in
    let new =
      find?-append_none (has_key n.task_id n.idempotency_key) s.commands row absent
        (ground (arith, ==-self n.task_id, ==-self n.idempotency_key)) in
    ground (arith, new)

append_command-first :
    (fresh_turn fresh_command : String) (n : NewCommand) (s after : Inbox) (c : CommandInbox)
    (made : Bool)
    → append_command fresh_turn fresh_command n s ≡ (after, appended c made)
    → (find? (has_key n.task_id n.idempotency_key) after.commands ≡ some c)
      × (any (λ t. t == n.task_id) after.task_ids ≡ true)
unfolding append_command append_or_return
append_command-first ft fc n s after c made e =
    go (find? (has_key n.task_id n.idempotency_key) s.commands) refl (ground arith)
  where
    known : any (λ t. t == n.task_id) s.task_ids ≡ true
    known = ground arith

    go :
        (o : Option CommandInbox)
        → find? (has_key n.task_id n.idempotency_key) s.commands ≡ o
        → append_or_return ft fc o n s ≡ (after, appended c made)
        → (find? (has_key n.task_id n.idempotency_key) after.commands ≡ some c)
          × (any (λ t. t == n.task_id) after.task_ids ≡ true)
    go none f h =
        let i = insert_command-find ft fc n.turn_id n s after c made f h in (i.0, rw (i.1) known)
    go (some old) f h = ground (arith, known)

-- A retried idempotency key returns the command that the first call returned, marked as not created,
-- and changes neither the queue nor the turns.
pub append_command-again :
    (fresh_turn fresh_command fresh_turn' fresh_command' : String) (n again : NewCommand)
    (s after : Inbox) (c : CommandInbox) (made : Bool)
    → append_command fresh_turn fresh_command n s ≡ (after, appended c made)
    → again.task_id ≡ n.task_id
    → again.idempotency_key ≡ n.idempotency_key
    → append_command fresh_turn' fresh_command' again after ≡ (after, appended c false)
unfolding append_command append_or_return
append_command-again ft fc ft' fc' n again s after c made e task key =
    let (found, known) = append_command-first ft fc n s after c made e in
    rw (task, key) (rw known (rw found refl))

top_sequence-le :
    (task_id : String) (cs : List CommandInbox) (c : CommandInbox)
    → Memᴰ c cs
    → c.task_id ≡ task_id
    → c.sequence ≤ top_sequence task_id cs
unfolding top_sequence
top_sequence-le task_id [] c m t = elim m [ ]
top_sequence-le task_id (x ∷ cs) c (Memᴰ.head e) t = ground (
  arith,
  ap (λ (z : CommandInbox). z.sequence) e,
  ap (λ (z : CommandInbox). z.task_id) e,
  eq_iff x.task_id task_id,
)
top_sequence-le task_id (x ∷ cs) c (Memᴰ.tail m) t =
    ground (arith, top_sequence-le task_id cs c m t)

-- A created command is put at the end of the queue with a sequence number above those of all the
-- task's earlier commands.
pub append_command-ordered :
    (fresh_turn fresh_command : String) (n : NewCommand) (s after : Inbox) (c : CommandInbox)
    → append_command fresh_turn fresh_command n s ≡ (after, appended c true)
    → (after.commands ≡ s.commands ++ c ∷ [])
      × (c.task_id ≡ n.task_id)
      × ((old : CommandInbox)
          → Memᴰ old s.commands
          → old.task_id ≡ n.task_id
          → old.sequence < c.sequence)
unfolding append_command append_or_return
append_command-ordered ft fc n s after c e =
    go (find? (has_key n.task_id n.idempotency_key) s.commands) refl (ground arith)
  where
    go :
        (o : Option CommandInbox)
        → find? (has_key n.task_id n.idempotency_key) s.commands ≡ o
        → append_or_return ft fc o n s ≡ (after, appended c true)
        → (after.commands ≡ s.commands ++ c ∷ [])
          × (c.task_id ≡ n.task_id)
          × ((old : CommandInbox)
              → Memᴰ old s.commands
              → old.task_id ≡ n.task_id
              → old.sequence < c.sequence)
    go none f h =
        let i = insert_command-find ft fc n.turn_id n s after c true f h in
        (i.3, i.4, λ old m t. omega (arith, i.2, top_sequence-le n.task_id s.commands old m t))
    go (some old) f h = absurd (ground arith)

-- After an update that took effect, the row is the changed one.
update_command-row :
    (test : CommandInbox → Bool) (f : CommandInbox → CommandInbox) (k : String) (s after : Inbox)
    → ((c : CommandInbox) → (f c).id ≡ c.id)
    → update_command test f k s ≡ (after, true)
    → (c : CommandInbox) × (lookup command_id k s.commands ≡ some c)
      × (test c ≡ true)
      × (lookup command_id k after.commands ≡ some (f c))
unfolding update_command
update_command-row test f k s after keeps e = go (lookup command_id k s.commands) refl e
  where
    go :
        (o : Option CommandInbox)
        → lookup command_id k s.commands ≡ o
        → update_row test f k o s ≡ (after, true)
        → (c : CommandInbox) × (lookup command_id k s.commands ≡ some c)
          × (test c ≡ true)
          × (lookup command_id k after.commands ≡ some (f c))
    go none found h = absurd (unfold update_row in cc (ap (λ (x : Inbox × Bool). x.1) h))
    go (some c) found h =
        let yes_c : test c ≡ true = unfold update_row in ground arith in
        let changed : lookup command_id k (modify command_id k f s.commands) ≡ some (f c) =
          lookup-modify command_id f keeps k k s.commands ∙ rw (==-self k, found) refl in
        (c, found, yes_c, unfold update_row in ground (arith, changed))

-- An update whose condition fails on the row changes nothing.
update_command-refused :
    (test : CommandInbox → Bool) (f : CommandInbox → CommandInbox) (k : String) (s : Inbox)
    (c : CommandInbox)
    → lookup command_id k s.commands ≡ some c
    → test c ≡ false
    → update_command test f k s ≡ (s, false)
unfolding update_command
update_command-refused test f k s c found no_c = rw found (unfold update_row in rw no_c refl)

can_consume-consumed :
    (e : Option String) (c : CommandInbox)
    → is_unset c.consumed_at ≡ false
    → can_consume e c ≡ false
can_consume-consumed none c e = ground arith
can_consume-consumed (some x) c e = ground arith

-- A consumed command is neither consumed again nor delivered, extended or handed over: each later
-- attempt is refused and changes nothing.
pub consume_command-once :
    (k : String) (execution_id other : Option String) (executor : String) (mode : Option String)
    (now later seconds : ℕ) (s after : Inbox)
    → consume_command k execution_id now s ≡ (after, true)
    → (consume_command k other later after ≡ (after, false))
      × (mark_command_delivered k executor later after ≡ (after, false))
      × (claim_command_delivery k executor seconds later after ≡ (after, false))
      × (heartbeat_command_delivery k executor later after ≡ (after, false))
      × (mark_command_transfer_pending k mode after ≡ (after, false))
unfolding consume_command mark_command_delivered claim_command_delivery heartbeat_command_delivery
    mark_command_transfer_pending
consume_command-once k execution_id other executor mode now later seconds s after e =
    let (c, _, _, found) = update_command-row _ _ k s after (λ c. refl) e in
    (
      update_command-refused _ _ k after _ found (can_consume-consumed other _ refl),
      update_command-refused _ _ k after _ found refl,
      update_command-refused _ _ k after _ found refl,
      update_command-refused _ _ k after _ found (ground arith),
      update_command-refused _ _ k after _ found refl,
    )

-- After a claimed delivery, as long as the lease that another execution asks with has not passed since, that
-- execution is refused the delivery, its heartbeat, and the consumption of the command under its own name,
-- and changes nothing. Deliveries and hand-overs that mark_command_delivered and
-- mark_command_transfer_pending write are not among these calls: neither asks whose delivery it is.
pub claim_command_delivery-exclusive :
    (k executor other : String) (seconds other_seconds now later : ℕ) (s after : Inbox)
    → claim_command_delivery k executor seconds now s ≡ (after, true)
    → other ≢ executor
    → later ≤ now + max_of 1 other_seconds
    → (claim_command_delivery k other other_seconds later after ≡ (after, false))
      × (heartbeat_command_delivery k other later after ≡ (after, false))
      × (consume_command k (some other) later after ≡ (after, false))
unfolding claim_command_delivery heartbeat_command_delivery consume_command
claim_command_delivery-exclusive k executor other seconds other_seconds now later s after e ne
      soon =
    let (c, _, free, found) = update_command-row _ _ k s after (λ c. refl) e in
    (
      update_command-refused _ _ k after _ found (
          ground (
            arith,
            eq_iff executor other,
            eq_iff "delivered" "pending",
            eq_iff "delivered" "transfer_pending",
          )),
      update_command-refused _ _ k after _ found (ground (arith, eq_iff executor other)),
      update_command-refused _ _ k after _ found (ground (arith, eq_iff executor other)),
    )
