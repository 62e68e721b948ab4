-- ===== src/WorkLedger/Leases.antt =====
-- server/lingxilearn/store/repositories/work_ledger.py: claiming work under a lease, extending and recovering leases.
-- `owner` names the claimant, `moment` is the clock's value read at the start of the call.
-- heartbeat_work and recover_expired_work lock nothing; here they run with nothing in between, and
-- WorkLedger/Machine/Sessions splits them into their reads and commits.
-- A lease of `max(1, lease_seconds)` seconds is `lease lease_seconds`; a negative duration acts as 0.
pub mod Claim
use lingxi_learn.Prelude.{
  ℕ, ◌+◌, String, Bool, true, false, ◌&&◌, ◌||◌, not, Option, none, some, List, [], ◌∷◌, map, ◌==◌,
  ltb, leb, if◌then◌else◌, is_some,
}
use lingxi_learn.Prelude.Tables.{filter, any, all, take}
use lingxi_learn.WorkLedger.{
  WorkStatus, queued, leased, blocked, WorkItem, WorkDependency, Ledger, item_of, set_item,
  is_queued, is_leased, is_succeeded, is_dead,
}

unfoldable pub lease : ℕ → ℕ
lease seconds = if leb 1 seconds then seconds else 1

-- `lease_until < moment` in SQL, where NULL makes the comparison not true
abbrev pub is_before : Option ℕ → ℕ → Bool
is_before none moment = false
is_before (some until) moment = ltb until moment

-- (status == "queued") | ((status == "leased") & (lease_until < moment))
abbrev pub is_claimable : ℕ → WorkItem → Bool
is_claimable moment r = is_queued r.status || (is_leased r.status && is_before r.lease_until moment)

unfoldable pub dependency_ids : String → Ledger → List String
dependency_ids work_id db =
    map (λ (d : WorkDependency). d.depends_on_id)
      (filter (λ (d : WorkDependency). d.work_id == work_id) db.dependencies)

-- the statuses of the items that `work_id` depends on
unfoldable pub dependency_states : String → Ledger → List WorkStatus
unfolding dependency_ids
dependency_states work_id db =
    map (λ (r : WorkItem). r.status)
      (filter (λ (r : WorkItem). any (λ d. d == r.id) (dependency_ids work_id db)) db.items)

unfoldable pub all_succeeded : String → Ledger → Bool
all_succeeded work_id db = all is_succeeded (dependency_states work_id db)

unfoldable pub any_dead : String → Ledger → Bool
any_dead work_id db = any is_dead (dependency_states work_id db)

abbrev pub block : WorkItem → WorkItem
block r = record r { status = blocked }

abbrev pub take_lease : String → ℕ → WorkItem → WorkItem
take_lease owner until r = record r {
  status = leased;
  lease_owner = some owner;
  lease_until = some until;
  attempts = r.attempts + 1;
}

-- the conditional UPDATE on one row, and the row as it is read back
unfoldable pub lease_row : String → ℕ → ℕ → WorkItem → Ledger → Ledger × Option WorkItem
unfolding lease
lease_row owner lease_seconds moment row db =
    let until = moment + lease lease_seconds in
    if is_claimable moment row
    then (set_item row.id (take_lease owner until) db, some (take_lease owner until row))
    else (db, none)

-- a lease that runs still: `lease_until and lease_until >= moment`
abbrev pub is_live : ℕ → WorkItem → Bool
is_live moment r =
    is_leased r.status && elim r.lease_until [ none ↦ false | some until ↦ leb moment until ]

unfoldable pub claim_row : String → ℕ → ℕ → Option WorkItem → Ledger → Ledger × Option WorkItem
claim_row owner lease_seconds moment none db = (db, none)
claim_row owner lease_seconds moment (some row) db =
    if not (is_queued row.status || is_leased row.status)
    then (db, none)
    else if is_live moment row
    then (db, none)
    else if all_succeeded row.id db
    then lease_row owner lease_seconds moment row db
    else if any_dead row.id db
    then (set_item row.id block db, none)
    else (db, none)

unfoldable pub claim_work_item : String → String → ℕ → ℕ → Ledger → Ledger × Option WorkItem
claim_work_item work_id owner lease_seconds moment db =
    claim_row owner lease_seconds moment (item_of work_id db.items) db

-- One round of `claim_work`. The session's row is the one that has its primary key now; the
-- condition of the UPDATE is tested on it.
unfoldable pub visit_row : String → ℕ → ℕ → Option WorkItem → Ledger → Ledger × Option WorkItem
visit_row owner lease_seconds moment none db = (db, none)
visit_row owner lease_seconds moment (some row) db =
    if not (is_claimable moment row)
    then (db, none)
    else if all_succeeded row.id db
    then lease_row owner lease_seconds moment row db
    else if any_dead row.id db
    then (set_item row.id block db, none)
    else (db, none)

-- the loop of `claim_work` over the rows that the query returned, which stops at the first lease
unfoldable pub claim_first : String → ℕ → ℕ → List String → Ledger → Ledger × Option WorkItem
unfolding visit_row
claim_first owner lease_seconds moment [] db = (db, none)
claim_first owner lease_seconds moment (k ∷ ks) db =
    let visit = visit_row owner lease_seconds moment (item_of k db.items) db in
    let rest = claim_first owner lease_seconds moment ks visit.0 in
    if is_some visit.1 then visit else rest

abbrev pub keys : List WorkItem → List String
keys = map (λ (r : WorkItem). r.id)

-- At most 32 claimable rows, oldest first, are looked at.
unfoldable pub claim_work : String → ℕ → ℕ → Ledger → Ledger × Option WorkItem
claim_work owner lease_seconds moment db =
    claim_first owner lease_seconds moment (keys (take 32 (filter (is_claimable moment) db.items)))
      db

abbrev pub owned_by : String → WorkItem → Bool
owned_by owner r = elim r.lease_owner [ none ↦ false | some o ↦ o == owner ]

unfoldable pub heartbeat_row : String → ℕ → ℕ → Option WorkItem → Ledger → Ledger × Bool
unfolding lease
heartbeat_row owner lease_seconds moment none db = (db, false)
heartbeat_row owner lease_seconds moment (some row) db =
    if not (is_leased row.status && owned_by owner row)
    then (db, false)
    else if is_before row.lease_until moment
    then (db, false)
    else (
      set_item row.id (λ r. record r { lease_until = some (moment + lease lease_seconds) }) db,
      true,
    )

unfoldable pub heartbeat_work : String → String → ℕ → ℕ → Ledger → Ledger × Bool
heartbeat_work work_id owner lease_seconds moment db =
    heartbeat_row owner lease_seconds moment (item_of work_id db.items) db

abbrev pub release : WorkStatus → WorkItem → WorkItem
release status r = record r { status = status; lease_owner = none; lease_until = none }

abbrev pub is_expired : ℕ → WorkItem → Bool
is_expired moment r = is_leased r.status && is_before r.lease_until moment

unfoldable pub recover_row : ℕ → Option WorkItem → Ledger → Ledger
recover_row moment none db = db
recover_row moment (some row) db =
    if is_expired moment row
    then set_item row.id (release (if any_dead row.id db then blocked else queued)) db
    else db

-- the loop of `recover_expired_work`; each round sees what the earlier ones wrote
unfoldable pub recover_rows : ℕ → List String → Ledger → Ledger
unfolding recover_row
recover_rows moment [] db = db
recover_rows moment (k ∷ ks) db =
    recover_rows moment ks (recover_row moment (item_of k db.items) db)

unfoldable pub recover_expired_work : ℕ → ℕ → Ledger → Ledger
recover_expired_work limit moment db =
    recover_rows moment (keys (take limit (filter (is_expired moment) db.items))) db
