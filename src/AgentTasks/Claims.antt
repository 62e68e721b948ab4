-- ===== src/AgentTasks/Claims.antt =====
-- A claimed task is not claimed again until its status is set.
use lingxi_learn.Prelude.{
  ℕ, String, ◌≡◌, refl, ◌∙◌, Bool, true, false, ◌||◌, Option, none, some, List, [], ◌∷◌, ◌==◌,
  is_some, arith, eq_iff, Bool-cases, ==-self, inl, inr,
}
use lingxi_learn.Prelude.Tables.{lookup-append_some, lookup, modify, lookup-modify, any}
use lingxi_learn.AgentTasks.Outputs.{
  with_output, row_or, output_row, output_of, update_agent_task_output, with_output-each,
}
use lingxi_learn.AgentTasks.{
  AgentTask, task_key, create_agent_task, set_agent_task_status, set_agent_thread_status,
  with_status, with_thread_status, as_claimed, is_claimable, claim_row, claim_agent_task, own_row,
  change_own, with_metadata, with_deleted, update_agent_task_metadata, set_agent_task_deleted,
  is_taken,
}

-- The calls that change rows of `agent_tasks`, with their arguments.
pub data TaskOp : Type 0 where
  create_op : AgentTask → TaskOp
  status_op : String → String → String → Option String → ℕ → TaskOp
  thread_status_op : String → String → ℕ → TaskOp
  claim_op : String → String → Option String → Bool → ℕ → TaskOp
  output_op : String → String → String → ℕ → TaskOp
  metadata_op :
      String → String → Option String → Option Bool → Option Bool → Option String → ℕ → TaskOp
  deleted_op : String → String → Bool → ℕ → TaskOp

-- The rows of a call that may fail stay as they are when it fails.
abbrev pub tasks_or : List AgentTask → Option (List AgentTask) → List AgentTask
tasks_or old none = old
tasks_or old (some new) = new

abbrev pub apply : TaskOp → List AgentTask → List AgentTask
apply (TaskOp.create_op t) tasks = (create_agent_task t tasks).0
apply (TaskOp.status_op k status error thread now) tasks =
    set_agent_task_status k status error thread now tasks
apply (TaskOp.thread_status_op k thread now) tasks = set_agent_thread_status k thread now tasks
apply (TaskOp.claim_op k learner execution reclaim now) tasks =
    (claim_agent_task k learner execution reclaim now tasks).0
apply (TaskOp.output_op k agent value now) tasks =
    tasks_or tasks (update_agent_task_output k agent value now tasks)
apply (TaskOp.metadata_op k learner title pinned unread resources now) tasks =
    (update_agent_task_metadata k learner title pinned unread resources now tasks).0
apply (TaskOp.deleted_op k learner deleted now) tasks =
    (set_agent_task_deleted k learner deleted now tasks).0

pub run : List TaskOp → List AgentTask → List AgentTask
run [] tasks = tasks
run (op ∷ ops) tasks = run ops (apply op tasks)

-- A call that does not set this task's status by `set_agent_task_status`.
abbrev pub IsQuiet : String → TaskOp → Type 0
IsQuiet task_id (TaskOp.status_op k status error thread now) = (k == task_id) ≡ false
IsQuiet task_id _ = Unit {0}

abbrev pub AllQuiet : String → List TaskOp → Type 0
AllQuiet task_id [] = Unit {0}
AllQuiet task_id (op ∷ ops) = IsQuiet task_id op × AllQuiet task_id ops

abbrev pub IsRunning : String → List AgentTask → Type 0
IsRunning task_id tasks =
    (t : AgentTask) × (lookup task_key task_id tasks ≡ some t) × (t.status ≡ "running")

modify-IsRunning :
    (task_id k : String) (f : AgentTask → AgentTask) (tasks : List AgentTask)
    → ((t : AgentTask) → task_key (f t) ≡ task_key t)
    → ((t : AgentTask) → (k == task_id) ≡ true → t.status ≡ "running" → (f t).status ≡ "running")
    → IsRunning task_id tasks
    → IsRunning task_id (modify task_key k f tasks)
modify-IsRunning task_id k f tasks keeps runs (t, found, status) =
    elim (Bool-cases (k == task_id)) [
      | inl same ↦ (
        f t,
        lookup-modify task_key f keeps task_id k tasks ∙ rw (same, found) refl,
        runs t same status,
      )
      | inr other ↦
          (t, lookup-modify task_key f keeps task_id k tasks ∙ rw (other, found) refl, status)
    ]

output_row-keeps :
    (agent value : String) (now : ℕ) (t : AgentTask)
    → ((output_row agent value now t).id ≡ t.id)
      × ((output_row agent value now t).status ≡ t.status)
output_row-keeps agent value now t =
    with_output-each (λ o. ((row_or t o).id ≡ t.id) × ((row_or t o).status ≡ t.status)) agent value
      now t (refl, refl) (λ r id status same. (id, status)) (λ by. (refl, refl))

create-IsRunning :
    (task_id : String) (t : AgentTask) (tasks : List AgentTask)
    → IsRunning task_id tasks
    → IsRunning task_id (create_agent_task t tasks).0
unfolding create_agent_task
create-IsRunning task_id t tasks (r, found, status) =
    elim (Bool-cases
      (any (λ x. x.id == t.id) tasks || is_taken t.learner_id t.create_idempotency_key tasks)) [
        | inl e ↦ rw e (r, found, status)
        | inr e ↦ rw e (r, lookup-append_some task_key task_id tasks (t ∷ []) r found, status)
      ]

claim_row-IsRunning :
    (task_id k learner : String) (execution : Option String) (reclaim : Bool) (now : ℕ)
    (o : Option AgentTask) (tasks : List AgentTask)
    → IsRunning task_id tasks
    → IsRunning task_id (claim_row k learner execution reclaim now o tasks).0
claim_row-IsRunning task_id k learner execution reclaim now none tasks h = h
claim_row-IsRunning task_id k learner execution reclaim now (some t) tasks h =
    elim (Bool-cases (is_claimable learner reclaim t)) [
      | inl e ↦ rw e (
          modify-IsRunning task_id k (as_claimed execution now) tasks (λ x. refl) (λ x s r. refl) h)
      | inr e ↦ rw e h
    ]

own_row-IsRunning :
    (task_id k learner : String) (f : AgentTask → AgentTask) (o : Option AgentTask)
    (tasks : List AgentTask)
    → ((t : AgentTask) → task_key (f t) ≡ task_key t)
    → ((t : AgentTask) → (f t).status ≡ t.status)
    → IsRunning task_id tasks
    → IsRunning task_id (own_row k learner f o tasks).0
own_row-IsRunning task_id k learner f none tasks keeps same h = h
own_row-IsRunning task_id k learner f (some t) tasks keeps same h =
    elim (Bool-cases (t.learner_id == learner)) [
      | inl e ↦ rw e (modify-IsRunning task_id k f tasks keeps (λ x s r. same x ∙ r) h)
      | inr e ↦ rw e h
    ]

output_of-IsRunning :
    (task_id k agent value : String) (now : ℕ) (o : Option AgentTask) (tasks : List AgentTask)
    → IsRunning task_id tasks
    → IsRunning task_id (tasks_or tasks (output_of k agent value now o tasks))
output_of-IsRunning task_id k agent value now none tasks h = h
output_of-IsRunning task_id k agent value now (some t) tasks h =
    elim (Bool-cases (is_some (with_output agent value now t))) [
      | inl e ↦ rw e (
          modify-IsRunning task_id k (output_row agent value now) tasks
            (λ x. (output_row-keeps agent value now x).0)
            (λ x s r. (output_row-keeps agent value now x).1 ∙ r) h)
      | inr e ↦ rw e h
    ]

apply-IsRunning :
    (task_id : String) (op : TaskOp) (tasks : List AgentTask)
    → IsQuiet task_id op
    → IsRunning task_id tasks
    → IsRunning task_id (apply op tasks)
unfolding set_agent_task_status set_agent_thread_status claim_agent_task update_agent_task_output
    change_own update_agent_task_metadata set_agent_task_deleted
apply-IsRunning task_id (TaskOp.create_op t) tasks q h = create-IsRunning task_id t tasks h
apply-IsRunning task_id (TaskOp.status_op k status error thread now) tasks q h =
    modify-IsRunning task_id k (with_status status error thread now) tasks (λ x. refl)
      (λ x s r. absurd (ground (arith, q, s))) h
apply-IsRunning task_id (TaskOp.thread_status_op k thread now) tasks q h =
    modify-IsRunning task_id k (with_thread_status thread now) tasks (λ x. refl) (λ x s r. r) h
apply-IsRunning task_id (TaskOp.claim_op k learner execution reclaim now) tasks q h =
    claim_row-IsRunning task_id k learner execution reclaim now (lookup task_key k tasks) tasks h
apply-IsRunning task_id (TaskOp.output_op k agent value now) tasks q h =
    output_of-IsRunning task_id k agent value now (lookup task_key k tasks) tasks h
apply-IsRunning task_id (TaskOp.metadata_op k learner title pinned unread resources now) tasks q h =
    own_row-IsRunning task_id k learner (with_metadata title pinned unread resources now)
      (lookup task_key k tasks) tasks (λ x. refl) (λ x. refl) h
apply-IsRunning task_id (TaskOp.deleted_op k learner deleted now) tasks q h =
    own_row-IsRunning task_id k learner (with_deleted deleted now) (lookup task_key k tasks) tasks
      (λ x. refl) (λ x. refl) h

run-IsRunning :
    (task_id : String) (ops : List TaskOp) (tasks : List AgentTask)
    → AllQuiet task_id ops
    → IsRunning task_id tasks
    → IsRunning task_id (run ops tasks)
unfolding run
run-IsRunning task_id [] tasks q h = h
run-IsRunning task_id (op ∷ ops) tasks q h =
    run-IsRunning task_id ops (apply op tasks) (q.1) (apply-IsRunning task_id op tasks (q.0) h)

claim_row-starts :
    (task_id learner : String) (execution : Option String) (reclaim : Bool) (now : ℕ)
    (o : Option AgentTask) (tasks : List AgentTask) (row : AgentTask)
    → lookup task_key task_id tasks ≡ o
    → (claim_row task_id learner execution reclaim now o tasks).1 ≡ some row
    → IsRunning task_id (claim_row task_id learner execution reclaim now o tasks).0
claim_row-starts task_id learner execution reclaim now none tasks row f e = absurd (ground arith)
claim_row-starts task_id learner execution reclaim now (some t) tasks row f e =
    elim (Bool-cases (is_claimable learner reclaim t)) [
      | inl c ↦ rw c (
        as_claimed execution now t,
        lookup-modify task_key (as_claimed execution now) (λ x. refl) task_id task_id tasks
            ∙ rw (==-self task_id, f) refl,
        refl,
      )
      | inr c ↦ absurd (ground (arith, rw c at e))
    ]

claim_row-running :
    (task_id learner : String) (execution : Option String) (now : ℕ) (o : Option AgentTask)
    (tasks : List AgentTask)
    → ((t : AgentTask) → o ≡ some t → t.status ≡ "running")
    → claim_row task_id learner execution false now o tasks ≡ (tasks, none)
claim_row-running task_id learner execution now none tasks h = refl
claim_row-running task_id learner execution now (some t) tasks h =
    ground (arith, h t refl, (eq_iff t.status "running").1 (h t refl))

-- One process runs a task: after a claim that answered with a row, whatever calls follow that do not
-- set this task's status with `set_agent_task_status`, a claim of the task that does not reclaim
-- running tasks answers nothing and changes nothing.
pub claim_agent_task-exclusive :
    (task_id learner : String) (execution : Option String) (reclaim : Bool) (now : ℕ)
    (tasks : List AgentTask) (row : AgentTask) (ops : List TaskOp)
    → (claim_agent_task task_id learner execution reclaim now tasks).1 ≡ some row
    → AllQuiet task_id ops
    → (learner' : String) (execution' : Option String) (later : ℕ)
    → claim_agent_task task_id learner' execution' false later
        (run ops (claim_agent_task task_id learner execution reclaim now tasks).0)
      ≡ (run ops (claim_agent_task task_id learner execution reclaim now tasks).0, none)
unfolding claim_agent_task
claim_agent_task-exclusive task_id learner execution reclaim now tasks row ops e q learner'
      execution' later =
    go (
      run-IsRunning task_id ops first.0 q (
        claim_row-starts task_id learner execution reclaim now (lookup task_key task_id tasks) tasks
          row refl e))
  where
    first : List AgentTask × Option AgentTask
    first = claim_row task_id learner execution reclaim now (lookup task_key task_id tasks) tasks

    go :
        IsRunning task_id (run ops first.0)
        → claim_row task_id learner' execution' false later
            (lookup task_key task_id (run ops first.0))
            (run ops first.0)
          ≡ (run ops first.0, none)
    go (t, found, status) = rw found (
        claim_row-running task_id learner' execution' later (some t) (run ops first.0)
          (λ u k. ground (arith, status, k)))
