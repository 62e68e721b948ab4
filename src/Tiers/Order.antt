-- ===== src/Tiers/Order.antt =====
-- A plan's tiers: a task comes after the tasks that it depends on, and only a cycle is refused.
use lingxi_learn.Prelude.{
  ℕ, zero, suc, ◌+◌, ◌≤◌, String, ◌≡◌, refl, sym, ◌∙◌, Bool, true, ◌||◌, not, some, List, [], ◌∷◌,
  ◌++◌, ◌==◌, nat_beq, arith, Bool-cases, Option-cases, inl, inr,
}
use lingxi_learn.Prelude.Tables.{any, all, filter, length, sum_by}
use lingxi_learn.Tiers.{Task, has, is_ready, insert_task, sort_tasks, ids, tiers_from, tiers}

-- Each task of each tier finds its dependencies in `done` or in an earlier tier.
abbrev pub IsOrdered : List String → List (List Task) → Type 0
IsOrdered done [] = Unit
IsOrdered done (tier ∷ rest) = (all (is_ready done) tier ≡ true) × IsOrdered (ids tier ++ done) rest

all-insert_task :
    (test : Task → Bool) (t : Task) (ts : List Task)
    → test t ≡ true
    → all test ts ≡ true
    → all test (insert_task t ts) ≡ true
unfolding insert_task all
all-insert_task test t [] h k = ground arith
all-insert_task test t (x ∷ xs) h k = ground (arith, all-insert_task test t xs h)

all-sort_tasks :
    (test : Task → Bool) (ts : List Task) → all test ts ≡ true → all test (sort_tasks ts) ≡ true
unfolding sort_tasks all
all-sort_tasks test [] k = k
all-sort_tasks test (x ∷ xs) k =
    all-insert_task test x (sort_tasks xs) (ground arith) (all-sort_tasks test xs (ground arith))

all-filter : (test : Task → Bool) (ts : List Task) → all test (filter test ts) ≡ true
unfolding filter all
all-filter test [] = refl
all-filter test (x ∷ xs) = ground (arith, all-filter test xs)

has-insert_task :
    (t : Task) (ts : List Task) (done : List String) (i : String)
    → has (ids (insert_task t ts) ++ done) i ≡ (t.id == i || has (ids ts ++ done) i)
unfolding insert_task any
has-insert_task t [] done i = refl
has-insert_task t (x ∷ xs) done i = ground (arith, has-insert_task t xs done i)

has-sort_tasks :
    (ts : List Task) (done : List String) (i : String)
    → has (ids (sort_tasks ts) ++ done) i ≡ has (ids ts ++ done) i
unfolding sort_tasks any
has-sort_tasks [] done i = refl
has-sort_tasks (x ∷ xs) done i =
    ground (arith, has-insert_task x (sort_tasks xs) done i, has-sort_tasks xs done i)

all-has_cong :
    (d e : List String) (xs : List String)
    → ((i : String) → has d i ≡ has e i)
    → all (has d) xs ≡ all (has e) xs
unfolding all
all-has_cong d e [] same = refl
all-has_cong d e (x ∷ xs) same = ground (arith, same x, all-has_cong d e xs same)

all_ready_cong :
    (d e : List String) (ts : List Task)
    → ((i : String) → has d i ≡ has e i)
    → all (is_ready d) ts ≡ all (is_ready e) ts
unfolding all
all_ready_cong d e [] same = refl
all_ready_cong d e (x ∷ xs) same =
    ground (arith, all-has_cong d e x.depends_on same, all_ready_cong d e xs same)

has-append :
    (ts : List Task) (d e : List String)
    → ((i : String) → has d i ≡ has e i)
    → (i : String) → has (ids ts ++ d) i ≡ has (ids ts ++ e) i
unfolding any
has-append [] d e same i = same i
has-append (x ∷ xs) d e same i = ground (arith, has-append xs d e same i)

IsOrdered-cong :
    (d e : List String) (ts : List (List Task))
    → ((i : String) → has d i ≡ has e i)
    → IsOrdered d ts
    → IsOrdered e ts
IsOrdered-cong d e [] same o = tt
IsOrdered-cong d e (tier ∷ rest) same o = (
  sym (all_ready_cong d e tier same) ∙ o.0,
  IsOrdered-cong (ids tier ++ d) (ids tier ++ e) rest (has-append tier d e same) (o.1),
)

tiers_from-IsOrdered :
    (n : ℕ) (done : List String) (ts : List Task) (out : List (List Task))
    → tiers_from n done ts ≡ some out
    → IsOrdered done out
unfolding tiers_from
tiers_from-IsOrdered n done [] out h = let made : [] ≡ out = ground arith in rw (← made) tt
tiers_from-IsOrdered zero done (x ∷ xs) out h = absurd (ground arith)
tiers_from-IsOrdered (suc n) done (x ∷ xs) out h =
    let ready = filter (is_ready done) (x ∷ xs) in
    let waiting = filter (λ t. not (is_ready done t)) (x ∷ xs) in
    elim (Option-cases (tiers_from n (ids ready ++ done) waiting)) [
      | inl none_e ↦ absurd (ground arith)
      | inr (rest, some_e) ↦
          let made : sort_tasks ready ∷ rest ≡ out = ground arith in
          rw (← made) (
            all-sort_tasks (is_ready done) ready (all-filter (is_ready done) (x ∷ xs)),
            IsOrdered-cong (ids ready ++ done) (ids (sort_tasks ready) ++ done) rest
                (λ i. sym (has-sort_tasks ready done i))
                (tiers_from-IsOrdered n (ids ready ++ done) waiting rest some_e),
          )
    ]

abbrev pub count : (Task → Bool) → List Task → ℕ
count test ts = length (filter test ts)

count-insert_task :
    (test : Task → Bool) (t : Task) (ts : List Task)
    → count test (insert_task t ts) ≡ count test (t ∷ ts)
unfolding insert_task filter
count-insert_task test t [] = refl
count-insert_task test t (x ∷ xs) = ground (arith, count-insert_task test t xs)

count-sort_tasks :
    (test : Task → Bool) (ts : List Task) → count test (sort_tasks ts) ≡ count test ts
unfolding sort_tasks filter
count-sort_tasks test [] = refl
count-sort_tasks test (x ∷ xs) =
    ground (arith, count-insert_task test x (sort_tasks xs), count-sort_tasks test xs)

count-split :
    (test ready : Task → Bool) (ts : List Task)
    → count test (filter ready ts) + count test (filter (λ t. not (ready t)) ts) ≡ count test ts
unfolding filter
count-split test ready [] = refl
count-split test ready (x ∷ xs) = ground (arith, count-split test ready xs)

tiers_from-count :
    (test : Task → Bool) (n : ℕ) (done : List String) (ts : List Task) (out : List (List Task))
    → tiers_from n done ts ≡ some out
    → sum_by (count test) out ≡ count test ts
unfolding tiers_from sum_by filter
tiers_from-count test n done [] out h = let made : [] ≡ out = ground arith in rw (← made) refl
tiers_from-count test zero done (x ∷ xs) out h = absurd (ground arith)
tiers_from-count test (suc n) done (x ∷ xs) out h =
    let ready = filter (is_ready done) (x ∷ xs) in
    let waiting = filter (λ t. not (is_ready done t)) (x ∷ xs) in
    elim (Option-cases (tiers_from n (ids ready ++ done) waiting)) [
      | inl none_e ↦ absurd (ground arith)
      | inr (rest, some_e) ↦
          let made : sort_tasks ready ∷ rest ≡ out = ground arith in
          rw (← made) (
            omega (
              arith,
              count-sort_tasks test ready,
              count-split test (is_ready done) (x ∷ xs),
              tiers_from-count test n (ids ready ++ done) waiting rest some_e,
            ))
    ]

length-filter_split :
    (test : Task → Bool) (ts : List Task)
    → length (filter test ts) + length (filter (λ t. not (test t)) ts) ≡ length ts
unfolding filter
length-filter_split test [] = refl
length-filter_split test (x ∷ xs) = ground (arith, length-filter_split test xs)

tiers_from-fuel :
    (m n : ℕ) (done : List String) (ts : List Task)
    → length ts ≤ m
    → length ts ≤ n
    → tiers_from m done ts ≡ tiers_from n done ts
unfolding tiers_from
tiers_from-fuel m n done [] g h = refl
tiers_from-fuel zero n done (x ∷ xs) g h = absurd (omega arith)
tiers_from-fuel (suc m) zero done (x ∷ xs) g h = absurd (omega arith)
tiers_from-fuel (suc m) (suc n) done (x ∷ xs) g h =
    let ready = filter (is_ready done) (x ∷ xs) in
    let waiting = filter (λ t. not (is_ready done t)) (x ∷ xs) in
    let split = length-filter_split (is_ready done) (x ∷ xs) in
    elim (Bool-cases (nat_beq (length ready) 0)) [
      | inl stuck ↦ rw stuck refl
      | inr some_ready ↦
          let fewer_m : length waiting ≤ m = ground (arith, split) in
          let fewer_n : length waiting ≤ n = ground (arith, split) in
          rw (some_ready, tiers_from-fuel m n (ids ready ++ done) waiting fewer_m fewer_n) refl
    ]

-- The number of tasks is fuel enough: with more rounds the answer is the same, so a refusal is no
-- lack of rounds.
pub tiers-enough :
    (k : ℕ) (tasks : List Task) → tiers_from (length tasks + k) [] tasks ≡ tiers tasks
unfolding tiers
tiers-enough k tasks =
    tiers_from-fuel (length tasks + k) (length tasks) [] tasks (omega arith) (omega arith)

-- When a plan has tiers, every task stands in a later tier than the tasks that it depends on, and the
-- tiers hold the plan's tasks, each as often as the plan does: they have equally many tasks with any
-- property.
pub tiers-IsOrdered :
    (tasks : List Task) (out : List (List Task))
    → tiers tasks ≡ some out
    → IsOrdered [] out × ((test : Task → Bool) → sum_by (count test) out ≡ count test tasks)
unfolding tiers
tiers-IsOrdered tasks out h = (
  tiers_from-IsOrdered (length tasks) [] tasks out h,
  λ test. tiers_from-count test (length tasks) [] tasks out h,
)
