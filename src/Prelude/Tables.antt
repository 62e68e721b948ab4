-- ===== src/Prelude/Tables.antt =====
-- Tables as lists of rows: the row with a primary key, the first row that meets a condition.
use Prim.Native.Nat.{ℕ, zero, suc, ◌+◌}
use Prim.Native.String.{String}
use text.Mathlib.Text.{◌==◌}
use text.Mathlib.TextEquality.{eq_iff}
use mathlib.Core.Path.{◌≡◌, refl, ◌∙◌}
use mathlib.Core.Bool.{Bool, true, false, ◌&&◌, ◌||◌}
use mathlib.Core.Option.{Option, none, some}
use mathlib.Core.List.{List, [], ◌∷◌, ◌++◌}
use native.Mathlib.Omega.{arith}
use lingxi_learn.Prelude.Tests.{if◌then◌else◌}

abbrev pub option_map {ℓ κ} : {A : Type ℓ} {B : Type κ} → (A → B) → Option A → Option B
option_map f none = none
option_map f (some a) = some (f a)

module _ {ℓ} {A : Type ℓ} (key : A → String) where
  -- `session.get(Model, k)`: the primary key `k` belongs to one row at most.
  unfoldable pub lookup : String → List A → Option A
  lookup k [] = none
  lookup k (r ∷ rows) = if key r == k then some r else lookup k rows

  -- A change of the row with primary key `k`.
  unfoldable pub modify : String → (A → A) → List A → List A
  modify k f [] = []
  modify k f (r ∷ rows) = if key r == k then f r ∷ rows else r ∷ modify k f rows

module _ {ℓ} {A : Type ℓ} (key : A → String) (f : A → A) (keeps : (a : A) → key (f a) ≡ key a) where
  pub lookup-modify :
      (j k : String) (rows : List A)
      → lookup key j (modify key k f rows)
        ≡ (if k == j then option_map f (lookup key j rows) else lookup key j rows)
  unfolding lookup modify
  lookup-modify j k [] = ground arith
  lookup-modify j k (r ∷ rows) = ground (
    arith,
    keeps r,
    lookup-modify j k rows,
    eq_iff (key r) k,
    eq_iff (key r) j,
    eq_iff k j,
    eq_iff (key (f r)) j,
  )

module _ {ℓ} {A : Type ℓ} where
  unfoldable pub find? : (A → Bool) → List A → Option A
  find? test [] = none
  find? test (r ∷ rows) = if test r then some r else find? test rows

  unfoldable pub modify_first : (A → Bool) → (A → A) → List A → List A
  modify_first test f [] = []
  modify_first test f (r ∷ rows) = if test r then f r ∷ rows else r ∷ modify_first test f rows

  unfoldable pub filter : (A → Bool) → List A → List A
  filter test [] = []
  filter test (r ∷ rows) = if test r then r ∷ filter test rows else filter test rows

  unfoldable pub any : (A → Bool) → List A → Bool
  any test [] = false
  any test (r ∷ rows) = test r || any test rows

  pub any-find? : (test : A → Bool) (xs : List A) → any test xs ≡ false → find? test xs ≡ none
  unfolding any find?
  any-find? test [] h = refl
  any-find? test (x ∷ xs) h = ground (arith, any-find? test xs)

  unfoldable pub all : (A → Bool) → List A → Bool
  all test [] = true
  all test (r ∷ rows) = test r && all test rows

  unfoldable pub sum_by : (A → ℕ) → List A → ℕ
  sum_by f [] = 0
  sum_by f (r ∷ rows) = f r + sum_by f rows

  unfoldable pub take : ℕ → List A → List A
  take zero xs = []
  take (suc n) [] = []
  take (suc n) (x ∷ xs) = x ∷ take n xs

  unfoldable pub drop : ℕ → List A → List A
  drop zero xs = xs
  drop (suc n) [] = []
  drop (suc n) (x ∷ xs) = drop n xs

  pub filter_and :
      (p q : A → Bool) (xs : List A) → filter (λ x. p x && q x) xs ≡ filter q (filter p xs)
  unfolding filter
  filter_and p q [] = refl
  filter_and p q (x ∷ xs) = ground (arith, filter_and p q xs)

  abbrev pub length : List A → ℕ
  length [] = 0
  length (x ∷ xs) = suc (length xs)

module _ {ℓ} {A : Type ℓ} where
  pub lookup-append_some :
      (key : A → String) (k : String) (rows more : List A) (r : A)
      → lookup key k rows ≡ some r
      → lookup key k (rows ++ more) ≡ some r
  unfolding lookup
  lookup-append_some key k [] more r h = ground arith
  lookup-append_some key k (x ∷ rows) more r h =
      ground (arith, lookup-append_some key k rows more r)

  pub lookup-key :
      (key : A → String) (k : String) (rows : List A) (r : A)
      → lookup key k rows ≡ some r
      → key r ≡ k
  unfolding lookup
  lookup-key key k [] r h = ground arith
  lookup-key key k (x ∷ rows) r h = ground (arith, lookup-key key k rows r, eq_iff (key x) k)

  pub find?-test :
      (test : A → Bool) (rows : List A) (r : A) → find? test rows ≡ some r → test r ≡ true
  unfolding find?
  find?-test test [] r h = ground arith
  find?-test test (x ∷ rows) r h = ground (arith, find?-test test rows r)

  -- What a change of the first matching row adds to a sum over the table.
  pub sum_by-modify_first :
      (f : A → ℕ) (test : A → Bool) (g : A → A) (rows : List A) (r : A)
      → find? test rows ≡ some r
      → sum_by f (modify_first test g rows) + f r ≡ sum_by f rows + f (g r)
  unfolding sum_by find? modify_first
  sum_by-modify_first f test g [] r h = ground arith
  sum_by-modify_first f test g (x ∷ rows) r h = ground (arith, sum_by-modify_first f test g rows r)

  pub sum_by-append : (f : A → ℕ) (xs ys : List A) → sum_by f (xs ++ ys) ≡ sum_by f xs + sum_by f ys
  unfolding sum_by
  sum_by-append f [] ys = omega arith
  sum_by-append f (x ∷ xs) ys = omega (arith, sum_by-append f xs ys)

  pub find?-append_none :
      (test : A → Bool) (rows : List A) (x : A)
      → find? test rows ≡ none
      → test x ≡ true
      → find? test (rows ++ x ∷ []) ≡ some x
  unfolding find?
  find?-append_none test [] x h t = ground arith
  find?-append_none test (r ∷ rows) x h t = ground (arith, find?-append_none test rows x)

  pub find?-modify_first :
      (test : A → Bool) (g : A → A) (rows : List A)
      → ((r : A) → test (g r) ≡ test r)
      → find? test (modify_first test g rows) ≡ option_map g (find? test rows)
  unfolding find? modify_first
  find?-modify_first test g [] keeps = refl
  find?-modify_first test g (r ∷ rows) keeps =
      ground (arith, keeps r, find?-modify_first test g rows keeps)

module _ {ℓ} {A : Type ℓ} (key : A → String) (f : A → A) (keeps : (a : A) → key (f a) ≡ key a) where
  pub lookup-modify_self :
      (k : String) (rows : List A) (r : A)
      → lookup key k rows ≡ some r
      → lookup key k (modify key (key r) f rows) ≡ some (f r)
  lookup-modify_self k rows r h =
      let named = lookup-key key k rows r h in
      rw named (lookup-modify key f keeps k k rows ∙ rw ((eq_iff k k).1 refl, h))
