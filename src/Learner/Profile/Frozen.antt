-- ===== src/Learner/Profile/Frozen.antt =====
-- What a learner corrected in a profile stays.
use lingxi_learn.Prelude.{
  ℕ, ◌+◌, ◌≤◌, String, ◌≡◌, refl, sym, ap, ◌∙◌, Bool, true, false, Option, none, some, List, [],
  ◌∷◌, ◌++◌, if◌then◌else◌, arith, Bool-cases, inl, inr,
}
use mathlib.Core.Path.{subst}
use lingxi_learn.Prelude.Tables.{find?, modify_first}
use lingxi_learn.Learner.Profile.{
  Floats, LearningProfile, ProfileDelta, is_point, assign, put_owned, updated, keep_revision,
  advanced, apply_one, apply,
}

-- The fields of the learner are the same, the row is overridden still, and the row's last number of an
-- observation and its revision have not gone down.
pub data IsFrozen {F : Type 0} (r q : LearningProfile F) : Type 0 where
  frozen :
      q.mastery ≡ r.mastery
      → q.learning_state ≡ r.learning_state
      → q.progress ≡ r.progress
      → q.difficulty ≡ r.difficulty
      → q.next_step ≡ r.next_step
      → q.override_flag ≡ true
      → r.last_evidence_seq ≤ q.last_evidence_seq
      → r.revision ≤ q.revision
      → IsFrozen r q

abbrev pub HasFrozen : {F : Type 0} → LearningProfile F → Option (LearningProfile F) → Type 0
HasFrozen r none = true ≡ false
HasFrozen r (some q) = IsFrozen r q

IsFrozen-trans :
    {F : Type 0} (r q s : LearningProfile F) → IsFrozen r q → IsFrozen q s → IsFrozen r s
IsFrozen-trans r q s (frozen a b c d e f g h) (frozen a₁ b₁ c₁ d₁ e₁ f₁ g₁ h₁) =
    frozen (a₁ ∙ a) (b₁ ∙ b) (c₁ ∙ c) (d₁ ∙ d) (e₁ ∙ e) f₁ (omega (arith, g, g₁))
      (omega (arith, h, h₁))

pub advanced-le : (n : Option ℕ) (old : ℕ) → old ≤ advanced n old
advanced-le none old = omega arith
advanced-le (some n) old = ground arith

put_owned-frozen :
    {A : Type 0} (b : Bool) (v : Option A) (old : A) → b ≡ true → put_owned b v old ≡ old
unfolding put_owned
put_owned-frozen true v old h = refl
put_owned-frozen false v old h = ground arith

revision-le : (b : Bool) (n : ℕ) → n ≤ (if b then n else n + 1)
revision-le true n = omega arith
revision-le false n = omega arith

updated-IsFrozen :
    {F : Type 0} (floats : Floats F) (d : ProfileDelta F) (now : ℕ) (r : LearningProfile F)
    → r.override_flag ≡ true
    → IsFrozen r (keep_revision floats r (updated floats d now r))
unfolding updated assign
updated-IsFrozen floats d now r h =
    frozen (put_owned-frozen _ _ _ h) (put_owned-frozen _ _ _ h) (put_owned-frozen _ _ _ h)
      (put_owned-frozen _ _ _ h) (put_owned-frozen _ _ _ h) h (advanced-le d.last_evidence_seq _)
      (revision-le _ _)

IsFrozen-self : {F : Type 0} (r : LearningProfile F) → r.override_flag ≡ true → IsFrozen r r
IsFrozen-self r h = frozen refl refl refl refl refl h (omega arith) (omega arith)

HasFrozen-trans :
    {F : Type 0} (r q : LearningProfile F) (found : Option (LearningProfile F))
    → IsFrozen r q
    → HasFrozen q found
    → HasFrozen r found
HasFrozen-trans r q none h k = k
HasFrozen-trans r q (some s) h k = IsFrozen-trans r q s h k

frozen-override : {F : Type 0} (r q : LearningProfile F) → IsFrozen r q → q.override_flag ≡ true
frozen-override r q (frozen a b c d e f g h) = f

abbrev row_or : {F : Type 0} → LearningProfile F → Option (LearningProfile F) → LearningProfile F
row_or r none = r
row_or r (some q) = q

some-IsFrozen :
    {F : Type 0} (r q : LearningProfile F) (f : LearningProfile F → LearningProfile F)
    → IsFrozen q (f q)
    → some q ≡ some r
    → IsFrozen r (f q)
some-IsFrozen r q f h k = let same : q ≡ r = ap (row_or r) k in subst (λ x. IsFrozen x (f q)) same h

modify-HasFrozen :
    {F : Type 0} (test other : LearningProfile F → Bool) (f : LearningProfile F → LearningProfile F)
    (r : LearningProfile F)
    → ((q : LearningProfile F) → test (f q) ≡ test q)
    → ((q : LearningProfile F) → q.override_flag ≡ true → IsFrozen q (f q))
    → r.override_flag ≡ true
    → (rows : List (LearningProfile F)) → find? test rows ≡ some r
    → HasFrozen r (find? test (modify_first other f rows))
unfolding find? modify_first
modify-HasFrozen test other f r keeps freezes h [] found = ground arith
modify-HasFrozen test other f r keeps freezes h (s ∷ rows) found = elim (Bool-cases (test s)) [
  | inl own ↦
      let now : some s ≡ some r = ground arith in
      let same : s ≡ r = ap (row_or r) now in
      let fixed : s.override_flag ≡ true = subst (λ x. x.override_flag ≡ true) (sym same) h in
      elim (Bool-cases (other s)) [
        | inl here ↦ rw here (rw (keeps s) (rw own (some-IsFrozen r s f (freezes s fixed) now)))
        | inr there ↦ rw there (rw own (some-IsFrozen r s (λ x. x) (IsFrozen-self s fixed) now))
      ]
  | inr foreign ↦
      let later : find? test rows ≡ some r = ground arith in
      elim (Bool-cases (other s)) [
        | inl here ↦ rw here (rw (keeps s) (rw foreign (rw later (IsFrozen-self r h))))
        | inr there ↦
            rw there (rw foreign (modify-HasFrozen test other f r keeps freezes h rows later))
      ]
]

append-find? :
    {F : Type 0} (test : LearningProfile F → Bool) (rows more : List (LearningProfile F))
    (r : LearningProfile F)
    → find? test rows ≡ some r
    → find? test (rows ++ more) ≡ some r
unfolding find?
append-find? test [] more r h = ground arith
append-find? test (s ∷ rows) more r h = let rest = append-find? test rows more r in ground arith

apply_one-HasFrozen :
    {F : Type 0} (floats : Floats F) (d : ProfileDelta F) (now : ℕ)
    (rows : List (LearningProfile F)) (before : Option (LearningProfile F)) (learner point : String)
    (r : LearningProfile F)
    → r.override_flag ≡ true
    → find? (is_point learner point) rows ≡ some r
    → HasFrozen r (find? (is_point learner point) (apply_one floats d now rows before).0)
unfolding apply_one updated assign
apply_one-HasFrozen floats d now rows none learner point r h found =
    rw (append-find? (is_point learner point) rows _ r found) (IsFrozen-self r h)
apply_one-HasFrozen floats d now rows (some before) learner point r h found =
    modify-HasFrozen (is_point learner point) (is_point d.learner_id d.knowledge_point_id)
      (λ q. keep_revision floats q (updated floats d now q)) r (λ q. refl)
      (λ q. updated-IsFrozen floats d now q) h rows found

apply-from :
    {F : Type 0} (floats : Floats F) (now : ℕ) (ds : List (ProfileDelta F))
    (rows : List (LearningProfile F)) (learner point : String) (r : LearningProfile F)
    (found : Option (LearningProfile F))
    → find? (is_point learner point) rows ≡ found
    → r.override_flag ≡ true
    → HasFrozen r found
    → HasFrozen r (find? (is_point learner point) (apply floats now ds rows).0)
unfolding apply
apply-from floats now [] rows learner point r found same h k = rw same k
apply-from floats now (d ∷ ds) rows learner point r none same h k = ground arith
apply-from floats now (d ∷ ds) rows learner point r (some q) same h k =
    let next =
      apply_one-HasFrozen floats d now rows
        (find? (is_point d.learner_id d.knowledge_point_id) rows) learner point q
        (frozen-override r q k) same in
    apply-from floats now ds _ learner point r _ refl h (HasFrozen-trans r q _ k next)

-- Where the row of a knowledge point is overridden, the updates of any changes leave a row of that
-- point with the mastery, learning state, progress, difficulty and next step that it had; it is still
-- overridden, and its last number of an observation and its revision are not lower.
pub apply-HasFrozen :
    {F : Type 0} (floats : Floats F) (now : ℕ) (ds : List (ProfileDelta F))
    (rows : List (LearningProfile F)) (learner point : String) (r : LearningProfile F)
    → find? (is_point learner point) rows ≡ some r
    → r.override_flag ≡ true
    → HasFrozen r (find? (is_point learner point) (apply floats now ds rows).0)
apply-HasFrozen floats now ds rows learner point r found h =
    apply-from floats now ds rows learner point r (some r) found h (IsFrozen-self r h)
