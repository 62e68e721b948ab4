-- ===== src/Completion/Tests.antt =====
-- Two contexts of one task, and an instance of the theorem about them.
use lingxi_learn.Prelude.{◌≡◌, refl, true, false, none, some, [], ◌∷◌}
use lingxi_learn.Prelude.Tables.{filter}
use lingxi_learn.Completion.{
  DoneCondition, user_replied, evidence_observed, all_of, no_conditions, condition, Evidence,
  CompletionContext, evaluate, evaluate_task,
}
use lingxi_learn.Completion.Progress.{IsProgress}

abbrev evidence : Evidence
evidence = record { signal = "correct"; knowledge_point = "dns" }

abbrev before : CompletionContext
before = record {
  artifacts = none;
  evidence = evidence ∷ [];
  profile = λ k. none;
  replied = true;
  graded = false;
  result = false;
}

abbrev after : CompletionContext
after = record before { evidence = evidence ∷ evidence ∷ []; graded = true }

abbrev done_when : DoneCondition
done_when =
    all_of (condition (evidence_observed "correct" "dns" 1) (condition user_replied no_conditions))

before-after : IsProgress before after
before-after = record {
  exists = λ a h. h;
  valid = λ a h. h;
  more = evidence ∷ [];
  evidence = refl;
  profile = λ k n h. h;
  replied = λ h. h;
  graded = λ h. refl;
  result = λ h. h;
}

done_before : evaluate_task (some done_when) before ≡ true
unfolding evaluate_task evaluate filter
done_before = refl
