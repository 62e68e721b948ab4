-- ===== src/Learner/Updater/Folds.antt =====
-- Evidence that is folded into a profile is not folded again.
use lingxi_learn.Prelude.{
  ℕ, ◌≤◌, String, ◌≡◌, refl, ap, Bool, true, false, Option, none, some, List, [], ◌∷◌, ◌++◌,
  if◌then◌else◌, arith, Bool-cases, ==-self, inl, inr,
}
use mathlib.Core.Path.{subst}
use lingxi_learn.Prelude.Tables.{
  all, filter, find?, find?-append_none, find?-modify_first, modify_first,
}
use lingxi_learn.Learner.{EvidenceRow}
use lingxi_learn.Learner.Profile.{
  Floats, LearningProfile, ProfileDelta, ProfileChange, is_point, new_profile, advanced, assign,
  updated, keep_revision, apply_one, apply, is_delta,
}
use lingxi_learn.Learner.Profile.Frozen.{advanced-le}
use lingxi_learn.Learner.Summaries.{Arithmetic}
use lingxi_learn.Learner.Updater.{
  rows_of, points_of, max_seq, delta_for, current_of, seq_of, watermark, fresh_rows, add_delta,
  deltas_of, fold_pending,
}

modify-seq_of :
    {F : Type 0} (test other : LearningProfile F → Bool) (f : LearningProfile F → LearningProfile F)
    → ((q : LearningProfile F) → test (f q) ≡ test q)
    → ((q : LearningProfile F) → q.last_evidence_seq ≤ (f q).last_evidence_seq)
    → (rows : List (LearningProfile F))
    → seq_of (find? test rows) ≤ seq_of (find? test (modify_first other f rows))
unfolding find? modify_first
modify-seq_of test other f keeps grows [] = omega arith
modify-seq_of test other f keeps grows (s ∷ rows) = elim (Bool-cases (other s)) [
  | inl here ↦ rw here (
      rw (keeps s) (elim (Bool-cases (test s)) [
        | inl own ↦ rw own (grows s)
        | inr foreign ↦ rw foreign (omega arith)
      ]))
  | inr there ↦ rw there (elim (Bool-cases (test s)) [
    | inl own ↦ rw own (omega arith)
    | inr foreign ↦ rw foreign (modify-seq_of test other f keeps grows rows)
  ])
]

append-seq_of :
    {F : Type 0} (test : LearningProfile F → Bool) (rows more : List (LearningProfile F))
    → seq_of (find? test rows) ≤ seq_of (find? test (rows ++ more))
unfolding find?
append-seq_of test [] more = omega arith
append-seq_of test (s ∷ rows) more = elim (Bool-cases (test s)) [
  | inl own ↦ rw own (omega arith)
  | inr foreign ↦ rw foreign (append-seq_of test rows more)
]

apply_one-watermark :
    {F : Type 0} (floats : Floats F) (d : ProfileDelta F) (now : ℕ)
    (rows : List (LearningProfile F)) (before : Option (LearningProfile F)) (learner point : String)
    → watermark learner point rows ≤ watermark learner point (apply_one floats d now rows before).0
unfolding apply_one updated assign
apply_one-watermark floats d now rows none learner point =
    append-seq_of (is_point learner point) rows _
apply_one-watermark floats d now rows (some before) learner point =
    modify-seq_of (is_point learner point) (is_point d.learner_id d.knowledge_point_id)
      (λ q. keep_revision floats q (updated floats d now q)) (λ q. refl)
      (λ q. advanced-le d.last_evidence_seq q.last_evidence_seq) rows

apply-watermark :
    {F : Type 0} (floats : Floats F) (now : ℕ) (ds : List (ProfileDelta F))
    (rows : List (LearningProfile F)) (learner point : String)
    → watermark learner point rows ≤ watermark learner point (apply floats now ds rows).0
unfolding apply
apply-watermark floats now [] rows learner point = omega arith
apply-watermark floats now (d ∷ ds) rows learner point =
    let found = find? (is_point d.learner_id d.knowledge_point_id) rows in
    let here = apply_one-watermark floats d now rows found learner point in
    let there = apply-watermark floats now ds (apply_one floats d now rows found).0 learner point in
    omega (arith, here, there)

advanced-covers : (n : Option ℕ) (old : ℕ) → advanced n 0 ≤ advanced n old
advanced-covers none old = omega arith
advanced-covers (some n) old = ground arith

apply_one-watermark_covers :
    {F : Type 0} (floats : Floats F) (d : ProfileDelta F) (now : ℕ)
    (rows : List (LearningProfile F)) (found : Option (LearningProfile F))
    → find? (is_point d.learner_id d.knowledge_point_id) rows ≡ found
    → advanced d.last_evidence_seq 0
      ≤ watermark d.learner_id d.knowledge_point_id (apply_one floats d now rows found).0
unfolding apply_one updated assign new_profile
apply_one-watermark_covers floats d now rows none h =
    let row = updated floats d now (new_profile floats d now) in
    let learner = ==-self d.learner_id in
    let point = ==-self d.knowledge_point_id in
    let own : is_point d.learner_id d.knowledge_point_id row ≡ true = rw learner (rw point refl) in
    rw (find?-append_none (is_point d.learner_id d.knowledge_point_id) rows row h own) (omega arith)
apply_one-watermark_covers floats d now rows (some before) h =
    rw
      (find?-modify_first (is_point d.learner_id d.knowledge_point_id)
        (λ q. keep_revision floats q (updated floats d now q)) rows (λ q. refl))
      (rw h (advanced-covers d.last_evidence_seq before.last_evidence_seq))

-- Each change's last number is folded.
abbrev IsCovered : {F : Type 0} → List (LearningProfile F) → List (ProfileDelta F) → Type 0
IsCovered rows [] = Unit {0}
IsCovered rows (d ∷ ds) =
    (advanced d.last_evidence_seq 0 ≤ watermark d.learner_id d.knowledge_point_id rows)
    × IsCovered rows ds

apply-IsCovered :
    {F : Type 0} (floats : Floats F) (now : ℕ) (ds : List (ProfileDelta F))
    (rows : List (LearningProfile F))
    → IsCovered (apply floats now ds rows).0 ds
unfolding apply
apply-IsCovered floats now [] rows = tt
apply-IsCovered floats now (d ∷ ds) rows =
    let found = find? (is_point d.learner_id d.knowledge_point_id) rows in
    let first = (apply_one floats d now rows found).0 in
    let here = apply_one-watermark_covers floats d now rows found refl in
    let there = apply-watermark floats now ds first d.learner_id d.knowledge_point_id in
    (omega (arith, here, there), apply-IsCovered floats now ds first)

fresh_rows-none :
    {F : Type 0} (rows : List (EvidenceRow F)) (m n : ℕ)
    → m ≤ n
    → max_seq (fresh_rows m rows) ≤ n
    → fresh_rows n rows ≡ []
unfolding filter max_seq
fresh_rows-none [] m n h k = refl
fresh_rows-none (r ∷ rows) m n h k =
    let rest : max_seq (fresh_rows m rows) ≤ n → fresh_rows n rows ≡ [] =
      fresh_rows-none rows m n h in
    ground arith

add_delta-IsCovered :
    {F : Type 0} (rows : List (LearningProfile F)) (fresh : List (EvidenceRow F))
    (d : ProfileDelta F) (ds : List (ProfileDelta F))
    → d.last_evidence_seq ≡ some (max_seq fresh)
    → IsCovered rows (add_delta fresh d ds)
    → (max_seq fresh ≤ watermark d.learner_id d.knowledge_point_id rows) × IsCovered rows ds
unfolding max_seq
add_delta-IsCovered rows [] d ds h k = (omega arith, k)
add_delta-IsCovered rows (r ∷ rs) d ds h (here, k) =
    let last : advanced (some (max_seq (r ∷ rs))) 0
        ≤ watermark d.learner_id d.knowledge_point_id rows =
      subst (λ n. advanced n 0 ≤ watermark d.learner_id d.knowledge_point_id rows) h here in
    (ground arith, k)

deltas_of-none :
    {F : Type 0} (floats : Floats F) (arithmetic : Arithmetic F) (learner source_agent : String)
    (now later : ℕ) (pending : List (EvidenceRow F)) (before after : List (LearningProfile F))
    → ((point : String) → watermark learner point before ≤ watermark learner point after)
    → (points : List String)
    → IsCovered after (deltas_of floats arithmetic learner source_agent now pending before points)
    → deltas_of floats arithmetic learner source_agent later pending after points ≡ []
unfolding deltas_of delta_for
deltas_of-none floats arithmetic learner source_agent now later pending before after grows [] h =
    refl
deltas_of-none floats arithmetic learner source_agent now later pending before after grows (p ∷ ps)
      h =
    let c = current_of floats arithmetic p (find? (is_point learner p) before) in
    let fresh = fresh_rows (watermark learner p before) (rows_of p pending) in
    let folded =
      add_delta-IsCovered after fresh
        (delta_for floats arithmetic learner p c fresh source_agent now)
        (deltas_of floats arithmetic learner source_agent now pending before ps) refl h in
    let none_fresh = fresh_rows-none (rows_of p pending) _ _ (grows p) folded.0 in
    rw none_fresh (
      deltas_of-none floats arithmetic learner source_agent now later pending before after grows ps
        folded.1)

abbrev rows_or :
    {F : Type 0}
    → List (LearningProfile F)
    → Option (List (LearningProfile F) × List (ProfileChange F))
    → List (LearningProfile F)
rows_or rows none = rows
rows_or rows (some x) = x.0

guarded-rows :
    {F : Type 0} (b : Bool) (x : List (LearningProfile F) × List (ProfileChange F))
    (after : List (LearningProfile F)) (changes : List (ProfileChange F))
    → (if b then some x else none) ≡ some (after, changes)
    → x.0 ≡ after
guarded-rows true x after changes h = ap (rows_or after) h
guarded-rows false x after changes h = ground arith

-- Once the profile holds the changes of the pending rows, folding the same rows again at any later
-- time, as after a crash before the cursor was stored, succeeds, changes no profile and reports no
-- change.
pub fold_pending-again :
    {F : Type 0} (floats : Floats F) (arithmetic : Arithmetic F) (learner source_agent : String)
    (now later : ℕ) (pending : List (EvidenceRow F)) (before after : List (LearningProfile F))
    (changes : List (ProfileChange F))
    → fold_pending floats arithmetic learner source_agent now pending before ≡ some (after, changes)
    → fold_pending floats arithmetic learner source_agent later pending after ≡ some (after, [])
unfolding fold_pending apply all
fold_pending-again floats arithmetic learner source_agent now later pending before after changes h =
    let points = points_of pending [] in
    let ds = deltas_of floats arithmetic learner source_agent now pending before points in
    let done : (apply floats now ds before).0 ≡ after =
      guarded-rows (all (is_delta floats) ds) _ after changes h in
    let covered = subst (λ rows. IsCovered rows ds) done (apply-IsCovered floats now ds before) in
    let nothing =
      deltas_of-none floats arithmetic learner source_agent now later pending before after
        (λ p.
          subst (λ rows. watermark learner p before ≤ watermark learner p rows) done
            (apply-watermark floats now ds before learner p))
        points covered in
    rw nothing refl
