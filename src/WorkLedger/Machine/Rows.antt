-- ===== src/WorkLedger/Machine/Rows.antt =====
-- A row that an operation may not take is left as it is: claims and recovery.
use lingxi_learn.Prelude.{
  ℕ, String, ◌≡◌, refl, sym, ◌∙◌, Bool, true, false, ◌&&◌, ◌||◌, not, Option, none, some, List, [],
  ◌∷◌, ◌==◌, if◌then◌else◌, is_some, arith, eq_iff, Bool-cases, inl, inr,
}
use lingxi_learn.Prelude.Tables.{lookup-modify, lookup-key}
use lingxi_learn.WorkLedger.{WorkItem, Ledger, item_id, item_of, set_item, is_queued, is_leased}
use lingxi_learn.WorkLedger.Leases.{
  claim_row, claim_first, visit_row, lease_row, recover_rows, recover_row, is_claimable, is_live,
  is_expired, all_succeeded, any_dead, block,
}
use lingxi_learn.WorkLedger.Machine.{is_stable}

-- What `claim_work_item` lets through to its dependency check.
abbrev pub is_takeable : ℕ → WorkItem → Bool
is_takeable moment r = (is_queued r.status || is_leased r.status) && not (is_live moment r)

module _ (j : String) (row : WorkItem) where
  abbrev pub Holds : Ledger → Type 0
  Holds db = item_of j db.items ≡ some row

  pub Holds-if {κ} :
      {B : Type κ} (b : Bool) (x y : Ledger × B)
      → (b ≡ true → Holds x.0)
      → (b ≡ false → Holds y.0)
      → Holds (if b then x else y).0
  Holds-if true x y hx hy = hx refl
  Holds-if false x y hx hy = hy refl

  -- A change of another row leaves the row.
  pub set_item-Holds :
      (k : String) (f : WorkItem → WorkItem) (db : Ledger)
      → ((r : WorkItem) → (f r).id ≡ r.id)
      → (k == j) ≡ false
      → Holds db
      → Holds (set_item k f db)
  set_item-Holds k f db keeps other h = lookup-modify item_id f keeps j k db.items ∙ rw other h

  -- A row that an operation reads by another key, or that differs from this one, is another.
  pub other_of :
      (k : String) (r : WorkItem) (db : Ledger) (test : WorkItem → Bool)
      → Holds db
      → item_of k db.items ≡ some r
      → test r ≡ true
      → test row ≡ false
      → (r.id == j) ≡ false
  other_of k r db test h e yes_r no_row = elim (Bool-cases (r.id == j)) [
    | inr ne ↦ ne
    | inl same ↦
        let k_eq_j : k ≡ j = sym (lookup-key item_id k db.items r e) ∙ (eq_iff r.id j).0 same in
        absurd (cc)
  ]

  pub touch-Holds :
      (test : WorkItem → Bool) (k : String) (f : WorkItem → WorkItem) (r : WorkItem) (db : Ledger)
      → ((x : WorkItem) → (f x).id ≡ x.id)
      → test row ≡ false
      → test r ≡ true
      → item_of k db.items ≡ some r
      → Holds db
      → Holds (set_item r.id f db)
  touch-Holds test k f r db keeps no_row yes_r e h =
      set_item-Holds r.id f db keeps (other_of k r db test h e yes_r no_row) h

  -- A row that passes the test is not the row `j`.
  abbrev pub IsAway : (WorkItem → Bool) → Option WorkItem → Type 0
  IsAway test none = Unit
  IsAway test (some r) = test r ≡ true → (r.id == j) ≡ false

  -- A row that is read while the row `j` stands, by another key or with a test that row `j` fails.
  pub spared-IsAway :
      (test : WorkItem → Bool) (k : String) (o : Option WorkItem) (read : Ledger)
      → (not (test row) || not (k == j)) ≡ true
      → Holds read
      → item_of k read.items ≡ o
      → IsAway test o
  spared-IsAway test k none read safe h e = tt
  spared-IsAway test k (some r) read safe h e = λ yes_r. elim (Bool-cases (test row)) [
    | inr no_row ↦ other_of k r read test h e yes_r no_row
    | inl yes_row ↦
        let named = lookup-key item_id k read.items r e in rw named (ground (arith, safe, yes_row))
  ]

  pub recover_row-Holds :
      (moment : ℕ) (o : Option WorkItem) (db : Ledger)
      → IsAway (is_expired moment) o
      → Holds db
      → Holds (recover_row moment o db)
  unfolding recover_row
  recover_row-Holds moment none db away h = h
  recover_row-Holds moment (some r) db away h = elim (Bool-cases (is_expired moment r)) [
    | inr stop ↦ rw stop h
    | inl go ↦ rw go (set_item-Holds r.id _ db (λ x. refl) (away go) h)
  ]

  pub recover_rows-Holds :
      (moment : ℕ) (ks : List String) (db : Ledger)
      → is_expired moment row ≡ false
      → Holds db
      → Holds (recover_rows moment ks db)
  unfolding recover_rows
  recover_rows-Holds moment [] db no_row h = h
  recover_rows-Holds moment (k ∷ ks) db no_row h = recover_rows-Holds moment ks _ no_row (
      recover_row-Holds moment (item_of k db.items) db
        (spared-IsAway (is_expired moment) k (item_of k db.items) db (ground (arith, no_row)) h
          refl)
        h)

  module _ (moment : ℕ) (stable : is_stable moment row ≡ true) where
    pub not_claimable : is_claimable moment row ≡ false
    not_claimable = ground arith

    pub not_expired : is_expired moment row ≡ false
    not_expired = ground arith

    pub not_takeable : is_takeable moment row ≡ false
    not_takeable = ground arith

    pub lease_row-Holds :
        (owner k : String) (seconds : ℕ) (r : WorkItem) (db : Ledger)
        → item_of k db.items ≡ some r
        → Holds db
        → Holds (lease_row owner seconds moment r db).0
    unfolding lease_row
    lease_row-Holds owner k seconds r db e h = elim (Bool-cases (is_claimable moment r)) [
      | inl go ↦ rw go (touch-Holds (is_claimable moment) k _ r db (λ x. refl) not_claimable go e h)
      | inr stop ↦ rw stop h
    ]

    pub visit_row-Holds :
        (owner k : String) (seconds : ℕ) (o : Option WorkItem) (db : Ledger)
        → item_of k db.items ≡ o
        → Holds db
        → Holds (visit_row owner seconds moment o db).0
    unfolding visit_row
    visit_row-Holds owner k seconds none db e h = h
    visit_row-Holds owner k seconds (some r) db e h =
        Holds-if (not (is_claimable moment r)) _ _ (λ _. h)
          λ go.
            Holds-if (all_succeeded r.id db) _ _ (λ _. lease_row-Holds owner k seconds r db e h)
              λ _.
                Holds-if (any_dead r.id db) _ _
                  (λ _.
                    touch-Holds (is_claimable moment) k block r db (λ x. refl) not_claimable
                      (ground arith) e h)
                  (λ _. h)

    pub claim_first-Holds :
        (owner : String) (seconds : ℕ) (ks : List String) (db : Ledger)
        → Holds db
        → Holds (claim_first owner seconds moment ks db).0
    unfolding claim_first
    claim_first-Holds owner seconds [] db h = h
    claim_first-Holds owner seconds (k ∷ ks) db h =
        let visit = visit_row owner seconds moment (item_of k db.items) db in
        let kept = visit_row-Holds owner k seconds (item_of k db.items) db refl h in
        elim (Bool-cases (is_some visit.1)) [
          | inl stop ↦ rw stop kept
          | inr more ↦ rw more (claim_first-Holds owner seconds ks visit.0 kept)
        ]

    pub claim_row-Holds :
        (owner k : String) (seconds : ℕ) (o : Option WorkItem) (db : Ledger)
        → item_of k db.items ≡ o
        → Holds db
        → Holds (claim_row owner seconds moment o db).0
    unfolding claim_row
    claim_row-Holds owner k seconds none db e h = h
    claim_row-Holds owner k seconds (some r) db e h =
        Holds-if (not (is_queued r.status || is_leased r.status)) _ _ (λ _. h)
          λ listed.
            Holds-if (is_live moment r) _ _ (λ _. h)
              λ free.
                Holds-if (all_succeeded r.id db) _ _ (λ _. lease_row-Holds owner k seconds r db e h)
                  λ _.
                    Holds-if (any_dead r.id db) _ _
                      (λ _.
                        touch-Holds (is_takeable moment) k block r db (λ x. refl) not_takeable
                          (ground arith) e h)
                      (λ _. h)
