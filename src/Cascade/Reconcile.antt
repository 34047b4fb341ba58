-- ===== src/Cascade/Reconcile.antt =====
-- The pure decision of one scanner sweep (src/everos/memory/cascade/reconciler.py, with the value
-- types of src/everos/memory/cascade/types.py).
pub mod Table
pub mod Unique
use ever_os.Prelude.{
  if◌then◌else◌, contains, ℕ, String, Bool, true, false, ◌&&◌, ◌||◌, Option, none, some, List, [],
  ◌∷◌, ◌++◌, map, ◌==◌,
}
use ever_os.Cascade.Queue.{
  Status, ChangeType, added, modified, deleted, is_pending, is_processing, is_done, is_failed,
  is_false, mtime_stable,
}

pub record ScanInput : Type 0 where
  pub md_path : String
  pub mtime : ℕ
  pub kind : String

pub record ReconcileDecision : Type 0 where
  pub md_path : String
  pub kind : String
  pub change_type : ChangeType
  pub mtime : ℕ

pub record PriorState : Type 0 where
  pub md_path : String
  pub kind : String
  pub mtime : ℕ
  pub status : Status
  pub change_type : ChangeType
  pub retryable : Option Bool
  pub retry_count : ℕ

-- The mapping `{md_path: PriorState}`, in iteration order.
abbrev pub Snapshot : Type 0
Snapshot = List (String × PriorState)

-- `state.get(path)`
unfoldable pub prior_of : Snapshot → String → Option PriorState
prior_of [] path = none
prior_of ((key, prior) ∷ state) path = if key == path then some prior else prior_of state path

abbrev pub is_deleted : ChangeType → Bool
is_deleted deleted = true
is_deleted _ = false

decision_for : ScanInput → ChangeType → ReconcileDecision
decision_for item change = record {
  md_path = item.md_path;
  kind = item.kind;
  change_type = change;
  mtime = item.mtime;
}

-- A known path is left alone if its file is unchanged and its row is handled, waiting, or failed
-- for good.
abbrev pub is_settled : PriorState → ℕ → Bool
is_settled prior mtime =
    mtime_stable prior.mtime mtime
    && ((is_done prior.status || (is_pending prior.status || is_processing prior.status))
        || (is_failed prior.status && is_false prior.retryable))

-- The body of the loop over the scan: the decision about one item, if there is one.
decide_item : Option PriorState → ScanInput → Option ReconcileDecision
unfolding decision_for
decide_item none item = some (decision_for item added)
decide_item (some prior) item =
    if is_settled prior item.mtime then none else some (decision_for item modified)

append_decision : Option ReconcileDecision → List ReconcileDecision → List ReconcileDecision
append_decision none rest = rest
append_decision (some d) rest = d ∷ rest

scan_decisions : Snapshot → List ScanInput → List ReconcileDecision
unfolding decide_item append_decision
scan_decisions state [] = []
scan_decisions state (item ∷ items) =
    append_decision (decide_item (prior_of state item.md_path) item) (scan_decisions state items)

-- The body of the loop over the state, for a path that the scan has not seen.
decide_missing : String → PriorState → Option ReconcileDecision
decide_missing path prior =
    if is_done prior.status && is_deleted prior.change_type
    then none
    else some
        (record { md_path = path; kind = prior.kind; change_type = deleted; mtime = prior.mtime })

missing_decisions : List String → Snapshot → List ReconcileDecision
unfolding decide_missing append_decision
missing_decisions seen [] = []
missing_decisions seen ((path, prior) ∷ state) =
    if contains seen path
    then missing_decisions seen state
    else append_decision (decide_missing path prior) (missing_decisions seen state)

unfoldable pub reconcile : List ScanInput → Snapshot → List ReconcileDecision
unfolding scan_decisions missing_decisions
reconcile scan state =
    scan_decisions state scan ++ missing_decisions (map (λ item. item.md_path) scan) state
