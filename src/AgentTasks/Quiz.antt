-- ===== src/AgentTasks/Quiz.antt =====
-- server/lingxilearn/store/repositories/agent_tasks.py: the creation of tasks under a learner's key, and
-- the one quiz submission of a task. Scores and answers are their text; the row's new identifier is an
-- argument; the two ways to lose against a concurrent writer are the test of the first read.
use lingxi_learn.Prelude.{
  ℕ, String, ◌≡◌, refl, ◌∙◌, Bool, true, false, ◌||◌, Option, none, some, List, [], ◌∷◌, ◌++◌, ◌==◌,
  if◌then◌else◌, arith, Bool-cases, ==-self, inl, inr,
}
use lingxi_learn.Prelude.Tables.{find?-append_none, any-find?, find?, any}
use lingxi_learn.AgentTasks.{
  AgentTask, CreateOutcome, created, create_conflict, is_own_key, is_taken, is_given,
  create_agent_task, get_agent_task_by_create_idempotency_key,
}

pub record QuizSubmission : Type 0 where
  pub id : ℕ
  pub task_id : String
  pub submission_id : String
  pub answers : String
  pub per_question : String
  pub total_score : String
  pub total_points : ℕ
  pub handoff_reason : String

-- `integrity_error` is the violated unique key of a submission id that another task uses.
pub data Submitted : Type 0 where
  submission : QuizSubmission → Submitted
  already_submitted : Submitted
  integrity_error : Submitted

unfoldable pub get_quiz_submission : String → List QuizSubmission → Option QuizSubmission
get_quiz_submission task_id rows = find? (λ r. r.task_id == task_id) rows

abbrev pub submit :
    QuizSubmission → Option QuizSubmission → List QuizSubmission → List QuizSubmission × Submitted
submit fresh (some row) rows = (
  rows,
  (if row.submission_id == fresh.submission_id
      then Submitted.submission row
      else Submitted.already_submitted),
)
submit fresh none rows =
    if any (λ r. r.submission_id == fresh.submission_id) rows
    then (rows, Submitted.integrity_error)
    else (rows ++ fresh ∷ [], Submitted.submission fresh)

-- `fresh` is the row of the arguments, under a new identifier.
unfoldable pub create_quiz_submission :
    QuizSubmission → List QuizSubmission → List QuizSubmission × Submitted
create_quiz_submission fresh rows = submit fresh (get_quiz_submission fresh.task_id rows) rows

-- One submission per task: once a submission was answered with a row, that row is the task's
-- submission, and any later submission for the task writes nothing; it is answered with that same row
-- if it has the row's submission id, whatever else it brings, and as already submitted otherwise.
pub create_quiz_submission-once :
    (fresh fresh' row : QuizSubmission) (rows : List QuizSubmission)
    → (create_quiz_submission fresh rows).1 ≡ Submitted.submission row
    → fresh'.task_id ≡ fresh.task_id
    → (get_quiz_submission fresh.task_id (create_quiz_submission fresh rows).0 ≡ some row)
      × (create_quiz_submission fresh' (create_quiz_submission fresh rows).0 ≡ (
        (create_quiz_submission fresh rows).0,
        (if row.submission_id == fresh'.submission_id
            then Submitted.submission row
            else Submitted.already_submitted),
      ))
unfolding create_quiz_submission get_quiz_submission
create_quiz_submission-once fresh fresh' row rows e same = (stored, rw (same, stored) refl)
  where
    go :
        (o : Option QuizSubmission)
        → find? (λ r. r.task_id == fresh.task_id) rows ≡ o
        → (submit fresh o rows).1 ≡ Submitted.submission row
        → find? (λ r. r.task_id == fresh.task_id) (submit fresh o rows).0 ≡ some row
    go (some r) f k = f ∙ ground arith
    go none f k = elim (Bool-cases (any (λ r. r.submission_id == fresh.submission_id) rows)) [
      | inl used ↦ absurd (ground (arith, rw used at k))
      | inr free ↦ rw free (
          find?-append_none (λ r. r.task_id == fresh.task_id) rows fresh f (==-self fresh.task_id)
          ∙ ground (arith, rw free at k))
    ]

    stored :
        find?
          (λ r. r.task_id == fresh.task_id)
          (submit fresh (find? (λ r. r.task_id == fresh.task_id) rows) rows).0
        ≡ some row
    stored = go (find? (λ r. r.task_id == fresh.task_id) rows) refl e

any-append_last :
    (p : AgentTask → Bool) (ts : List AgentTask) (t : AgentTask)
    → p t ≡ true
    → any p (ts ++ t ∷ []) ≡ true
unfolding any
any-append_last p [] t h = rw h refl
any-append_last p (x ∷ xs) t h = ground (arith, any-append_last p xs t h)

-- the body of `create_agent_task` over its two tests
abbrev pub created_if :
    Bool → Bool → Bool → List AgentTask → List AgentTask → List AgentTask × CreateOutcome
created_if x y g old new =
    if x || y
    then (old, (if g then create_conflict else CreateOutcome.integrity_error))
    else (new, created)

created_if-created :
    (x y g : Bool) (old new : List AgentTask)
    → (created_if x y g old new).1 ≡ created
    → (created_if x y g old new ≡ (new, created)) × (y ≡ false)
created_if-created true y true old new h = absurd (ground arith)
created_if-created true y false old new h = absurd (ground arith)
created_if-created false true true old new h = absurd (ground arith)
created_if-created false true false old new h = absurd (ground arith)
created_if-created false false g old new h = (refl, refl)

created_if-conflict :
    (x : Bool) (old new : List AgentTask) → created_if x true true old new ≡ (old, create_conflict)
created_if-conflict true old new = refl
created_if-conflict false old new = refl

-- A learner's create key creates one task: after a task was created under a key that is not empty, the
-- key finds that task, and creating another task of the learner under the key is a conflict that
-- changes nothing.
pub create_agent_task-once :
    (t u : AgentTask) (key : String) (tasks : List AgentTask)
    → t.create_idempotency_key ≡ some key
    → (key == "") ≡ false
    → (create_agent_task t tasks).1 ≡ created
    → u.learner_id ≡ t.learner_id
    → u.create_idempotency_key ≡ some key
    → (get_agent_task_by_create_idempotency_key t.learner_id key (create_agent_task t tasks).0
        ≡ some t)
      × (create_agent_task u (create_agent_task t tasks).0
          ≡ ((create_agent_task t tasks).0, create_conflict))
unfolding create_agent_task get_agent_task_by_create_idempotency_key
create_agent_task-once t u key tasks t_key given e learner u_key = rw grown.0 (
  find?-append_none own tasks t (any-find? own tasks (rw t_key at grown.1)) mine,
  rw (taken, keyed)
      (created_if-conflict (any (λ r. r.id == u.id) (tasks ++ t ∷ [])) (tasks ++ t ∷ [])
        ((tasks ++ t ∷ []) ++ u ∷ [])),
)
  where
    own : AgentTask → Bool
    own = is_own_key t.learner_id key

    mine : own t ≡ true
    mine = rw t_key (ground (arith, ==-self t.learner_id, ==-self key))

    later : any own (tasks ++ t ∷ []) ≡ true
    later = any-append_last own tasks t mine

    taken : is_taken u.learner_id u.create_idempotency_key (tasks ++ t ∷ []) ≡ true
    taken = rw (u_key, learner) later

    keyed : is_given u.create_idempotency_key ≡ true
    keyed = rw (u_key, given) refl

    grown :
        (create_agent_task t tasks ≡ (tasks ++ t ∷ [], created))
        × (is_taken t.learner_id t.create_idempotency_key tasks ≡ false)
    grown =
        created_if-created (any (λ r. r.id == t.id) tasks)
          (is_taken t.learner_id t.create_idempotency_key tasks) (is_given t.create_idempotency_key)
          tasks (tasks ++ t ∷ []) e
