-- ===== src/WorkLedger/Leases/Claim.antt =====
-- What a granted claim means: the item was free, its dependencies had succeeded, and only its row
-- changed.
use mathlib.Core.List.{Memᴰ}
use lingxi_learn.Prelude.{
  ℕ, ◌+◌, ◌<◌, String, ◌≡◌, ◌⊎◌, refl, sym, ap, ◌∙◌, Bool, true, ◌&&◌, ◌||◌, Option, none, some,
  List, [], ◌∷◌, map, ◌==◌, if◌then◌else◌, arith, eq_iff, Bool-cases, ==-self, inl, inr,
}
use lingxi_learn.Prelude.Tables.{modify, filter, any, all, lookup-modify, lookup-key}
use lingxi_learn.WorkLedger.{
  WorkStatus, queued, leased, succeeded, WorkItem, WorkDependency, Ledger, item_id, item_of,
  is_queued, is_leased, is_succeeded,
}
use lingxi_learn.WorkLedger.Leases.{
  claim_work_item, claim_row, lease_row, lease, is_claimable, is_before, all_succeeded, take_lease,
  dependency_ids, dependency_states,
}

-- Every item that the work depends on is there with status succeeded.
pub record IsReady (work_id : String) (db : Ledger) : Type 0 where
  pub each :
      (d : WorkDependency) (r : WorkItem)
      → Memᴰ d db.dependencies
      → d.work_id ≡ work_id
      → Memᴰ r db.items
      → r.id ≡ d.depends_on_id
      → r.status ≡ succeeded

module _ {ℓ κ} {A : Type ℓ} {B : Type κ} where
  all-filter :
      (test : B → Bool) (f : A → B) (p : A → Bool) (xs : List A) (x : A)
      → all test (map f (filter p xs)) ≡ true
      → Memᴰ x xs
      → p x ≡ true
      → test (f x) ≡ true
  unfolding all filter
  all-filter test f p [] x h m px = elim m [ ]
  all-filter test f p (y ∷ ys) x h (Memᴰ.head e) px = ground (arith, ap p e, ap (λ z. test (f z)) e)
  all-filter test f p (y ∷ ys) x h (Memᴰ.tail m) px = all-filter test f p ys x (ground arith) m px

  any-filter :
      (test : B → Bool) (f : A → B) (p : A → Bool) (xs : List A) (x : A)
      → Memᴰ x xs
      → p x ≡ true
      → test (f x) ≡ true
      → any test (map f (filter p xs)) ≡ true
  unfolding any filter
  any-filter test f p [] x m px h = elim m [ ]
  any-filter test f p (y ∷ ys) x (Memᴰ.head e) px h = ground (arith, ap p e, ap (λ z. test (f z)) e)
  any-filter test f p (y ∷ ys) x (Memᴰ.tail m) px h =
      ground (arith, any-filter test f p ys x m px h)

-- The code's test over the selected statuses is sound.
all_succeeded-IsReady :
    (work_id : String) (db : Ledger) → all_succeeded work_id db ≡ true → IsReady work_id db
unfolding all_succeeded dependency_states
all_succeeded-IsReady work_id db h = record {
  each = λ d r d_in named r_in linked.
      let listed : any (λ k. k == r.id) (dependency_ids work_id db) ≡ true =
        any-filter (λ k. k == r.id) (λ x. x.depends_on_id) (λ x. x.work_id == work_id)
          db.dependencies d d_in ((eq_iff d.work_id work_id).1 named)
          ((eq_iff d.depends_on_id r.id).1 (sym linked)) in
      let done =
        all-filter is_succeeded (λ (x : WorkItem). x.status)
          (λ (x : WorkItem). any (λ k. k == x.id) (dependency_ids work_id db)) db.items r h r_in
          listed in
      ground arith;
}

-- What a claim that returns `granted` has seen and done.
pub record IsGranted (work_id owner : String) (seconds moment : ℕ) (db after : Ledger)
    (granted : WorkItem) : Type 0 where
  pub row : WorkItem
  pub found : item_of work_id db.items ≡ some row
  pub free :
      (row.status ≡ queued)
      ⊎ (row.status ≡ leased) × (until : ℕ) × (row.lease_until ≡ some until) × (until < moment)
  pub ready : IsReady work_id db
  pub lent : granted ≡ record row {
    status = leased;
    lease_owner = some owner;
    lease_until = some (moment + lease seconds);
    attempts = row.attempts + 1;
  }
  pub rows :
      (j : String)
      → item_of j after.items ≡ (if work_id == j then some granted else item_of j db.items)

free_of_claimable :
    (moment : ℕ) (row : WorkItem)
    → is_claimable moment row ≡ true
    → (row.status ≡ queued)
      ⊎ ((row.status ≡ leased) × (until : ℕ) × (row.lease_until ≡ some until) × (until < moment))
free_of_claimable moment row h = go row.status row.lease_until refl refl h
  where
    go :
        (s : WorkStatus) (u : Option ℕ)
        → row.status ≡ s
        → row.lease_until ≡ u
        → (is_queued s || (is_leased s && is_before u moment)) ≡ true
        → (row.status ≡ queued)
          ⊎ ((row.status ≡ leased)
              × (until : ℕ) × (row.lease_until ≡ some until)
              × (until < moment))
    go queued u e f k = inl e
    go leased none e f k = cc
    go leased (some until) e f k = inr (e, until, f, ground arith)
    go _ u e f k = cc

module _ (work_id owner : String) (seconds moment : ℕ) (db : Ledger) where
  lease_row-IsGranted :
      (row : WorkItem) (after : Ledger) (granted : WorkItem)
      → item_of work_id db.items ≡ some row
      → all_succeeded row.id db ≡ true
      → lease_row owner seconds moment row db ≡ (after, some granted)
      → IsGranted work_id owner seconds moment db after granted
  unfolding lease_row
  lease_row-IsGranted row after granted found done e = elim (Bool-cases (is_claimable moment row)) [
    | inr stop ↦ absurd (cc (ap (λ (p : Ledger × Option WorkItem). p.1) (rw stop at e)))
    | inl go ↦
        let e' = rw go at e in
        let lent : take_lease owner (moment + lease seconds) row ≡ granted =
          cc (ap (λ (p : Ledger × Option WorkItem). p.1) e') in
        let changed = ap (λ (p : Ledger × Option WorkItem). p.0) e' in
        record {
          row = row;
          found = found;
          free = free_of_claimable moment row go;
          ready = all_succeeded-IsReady work_id db (rw named at done);
          lent = sym lent;
          rows = λ j. rw (← changed) (rw named (only j lent));
        }
  ]
    where
      named : row.id ≡ work_id
      named = lookup-key item_id work_id db.items row found

      only :
          (j : String)
          → take_lease owner (moment + lease seconds) row ≡ granted
          → item_of j (modify item_id work_id (take_lease owner (moment + lease seconds)) db.items)
            ≡ (if work_id == j then some granted else item_of j db.items)
      only j lent = elim (Bool-cases (work_id == j)) [
        | inl same ↦
            let p : work_id ≡ j = (eq_iff work_id j).0 same in
            rw (← p) (
              lookup-modify item_id _ (λ x. refl) work_id work_id db.items
              ∙ rw (==-self work_id, found) (ap some lent))
        | inr other ↦ lookup-modify item_id _ (λ x. refl) j work_id db.items ∙ rw other
      ]

-- A claim succeeds only on an item that is queued or whose lease is over, all of whose dependencies
-- have succeeded; the claimant then holds it until the lease's end, the attempt is counted, and no
-- other item is changed.
pub claim_work_item-IsGranted :
    (work_id owner : String) (seconds moment : ℕ) (db after : Ledger) (granted : WorkItem)
    → claim_work_item work_id owner seconds moment db ≡ (after, some granted)
    → IsGranted work_id owner seconds moment db after granted
unfolding claim_work_item claim_row
claim_work_item-IsGranted work_id owner seconds moment db after granted e =
    go (item_of work_id db.items) refl e
  where
    go :
        (o : Option WorkItem)
        → item_of work_id db.items ≡ o
        → claim_row owner seconds moment o db ≡ (after, some granted)
        → IsGranted work_id owner seconds moment db after granted
    go none f h = absurd (cc (ap (λ (p : Ledger × Option WorkItem). p.1) h))
    go (some row) f h = elim (Bool-cases (all_succeeded row.id db)) [
      | inl done ↦
          lease_row-IsGranted work_id owner seconds moment db row after granted f done
            (ground arith)
      | inr not_done ↦ absurd (ground arith)
    ]
