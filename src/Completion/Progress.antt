-- ===== src/Completion/Progress.antt =====
-- Completion is monotone: what the world gains never takes back a verdict.
use lingxi_learn.Prelude.{
  ℕ, ◌≤◌, String, ◌≡◌, refl, Bool, true, Option, none, some, List, [], ◌∷◌, ◌++◌, arith,
}
use lingxi_learn.Prelude.Tables.{filter, length}
use lingxi_learn.Completion.{
  DoneCondition, always, provider_result, user_replied, quiz_graded, artifact_exists,
  artifact_valid, evidence_observed, profile_reaches, all_of, any_of, Conditions, no_conditions,
  condition, Evidence, CompletionContext, probe_exists, probe_valid, is_match, reaches, evaluate,
  evaluate_all, evaluate_any, evaluate_task,
}

-- `d` knows all that `c` knows: the artifacts are still there and valid, evidence was only added, no
-- mastery sank, and a reply, a grade and a result stay.
pub record IsProgress (c d : CompletionContext) : Type 0 where
  pub exists : (a : String) → probe_exists c.artifacts a ≡ true → probe_exists d.artifacts a ≡ true
  pub valid : (a : String) → probe_valid c.artifacts a ≡ true → probe_valid d.artifacts a ≡ true
  pub more : List Evidence
  pub evidence : d.evidence ≡ c.evidence ++ more
  pub profile :
      (k : String) (n : ℕ) → reaches n (c.profile k) ≡ true → reaches n (d.profile k) ≡ true
  pub replied : c.replied ≡ true → d.replied ≡ true
  pub graded : c.graded ≡ true → d.graded ≡ true
  pub result : c.result ≡ true → d.result ≡ true

length-filter-append :
    (test : Evidence → Bool) (xs ys : List Evidence)
    → length (filter test xs) ≤ length (filter test (xs ++ ys))
unfolding filter
length-filter-append test [] ys = omega arith
length-filter-append test (x ∷ xs) ys = ground (arith, length-filter-append test xs ys)

mutual
  unfolding evaluate

  evaluate-kept :
      (x : DoneCondition) (c d : CompletionContext)
      → IsProgress c d
      → evaluate x c ≡ true
      → evaluate x d ≡ true
  evaluate-kept always c d p h = refl
  evaluate-kept provider_result c d p h = p.result h
  evaluate-kept user_replied c d p h = p.replied h
  evaluate-kept quiz_graded c d p h = p.graded h
  evaluate-kept (artifact_exists a) c d p h = p.exists a h
  evaluate-kept (artifact_valid a) c d p h = p.valid a h
  evaluate-kept (evidence_observed s k n) c d p h =
      rw (p.evidence) (ground (arith, length-filter-append (is_match s k) c.evidence p.more))
  evaluate-kept (profile_reaches k n) c d p h = p.profile k n h
  evaluate-kept (all_of cs) c d p h = evaluate_all-kept cs c d p h
  evaluate-kept (any_of cs) c d p h = evaluate_any-kept cs c d p h

  evaluate_all-kept :
      (cs : Conditions) (c d : CompletionContext)
      → IsProgress c d
      → evaluate_all cs c ≡ true
      → evaluate_all cs d ≡ true
  evaluate_all-kept no_conditions c d p h = refl
  evaluate_all-kept (condition x cs) c d p h =
      ground (arith, evaluate-kept x c d p, evaluate_all-kept cs c d p)

  evaluate_any-kept :
      (cs : Conditions) (c d : CompletionContext)
      → IsProgress c d
      → evaluate_any cs c ≡ true
      → evaluate_any cs d ≡ true
  evaluate_any-kept no_conditions c d p h = h
  evaluate_any-kept (condition x cs) c d p h =
      ground (arith, evaluate-kept x c d p, evaluate_any-kept cs c d p)

-- A task that is done stays done while the world only makes progress, whatever its condition says,
-- nested conditions included.
pub evaluate_task-kept :
    (x : Option DoneCondition) (c d : CompletionContext)
    → IsProgress c d
    → evaluate_task x c ≡ true
    → evaluate_task x d ≡ true
unfolding evaluate_task
evaluate_task-kept none c d p h = refl
evaluate_task-kept (some x) c d p h = evaluate-kept x c d p h
