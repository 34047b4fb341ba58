-- ===== src/Cascade/Reconcile/Table.antt =====
-- The two passes of `reconcile` decide each path by itself.
use ever_os.Prelude.{
  if◌then◌else◌, eq-cases, test-of-ne, is_some, All, contains, ℕ, String, ◌≡◌, refl, ◌≢◌, inl, inr,
  Bool, true, false, ◌&&◌, Option, none, some, List, [], ◌∷◌, ◌++◌, map, arith, ◌==◌, eq_iff,
  eq_refl,
}
use ever_os.Cascade.Queue.{Status, failed, added, modified, deleted, is_done, mtime_stable}
use ever_os.Cascade.Reconcile.{
  ScanInput, ReconcileDecision, PriorState, Snapshot, prior_of, is_deleted, is_settled, reconcile,
  decide_item, scan_decisions, missing_decisions,
}

unfoldable pub find_input : String → List ScanInput → Option ScanInput
find_input path [] = none
find_input path (item ∷ items) = if item.md_path == path then some item else find_input path items

unfoldable pub decision_at : String → List ReconcileDecision → Option ReconcileDecision
decision_at path [] = none
decision_at path (d ∷ ds) = if d.md_path == path then some d else decision_at path ds

abbrev pub UniqueInputs : List ScanInput → Type 0
UniqueInputs [] = Unit
UniqueInputs (item ∷ items) = All (λ other. other.md_path ≢ item.md_path) items × UniqueInputs items

abbrev pub UniqueKeys : Snapshot → Type 0
UniqueKeys [] = Unit
UniqueKeys (entry ∷ state) = All (λ other. other.0 ≢ entry.0) state × UniqueKeys state

abbrev pub UniqueDecisions : List ReconcileDecision → Type 0
UniqueDecisions [] = Unit
UniqueDecisions (d ∷ ds) = All (λ other. other.md_path ≢ d.md_path) ds × UniqueDecisions ds

-- The rows that an unchanged file leaves alone: all but the failed ones that may be retried.
abbrev pub at_rest : Status → Option Bool → Bool
at_rest failed (some false) = true
at_rest failed _ = false
at_rest _ _ = true

abbrev pub unchanged : PriorState → ℕ → Bool
unchanged prior mtime = mtime_stable prior.mtime mtime && at_rest prior.status prior.retryable

-- What a sweep decides about one path, from what is on disk there and the prior row: a new file is
-- added, a file is modified unless its time is the row's and the row is at rest, and a missing file
-- is deleted unless its deletion has been handled.
abbrev pub expected : String → Option ScanInput → Option PriorState → Option ReconcileDecision
expected path (some item) none =
    some (record { md_path = path; kind = item.kind; change_type = added; mtime = item.mtime })
expected path (some item) (some prior) =
    if unchanged prior item.mtime
    then none
    else some
        (record { md_path = path; kind = item.kind; change_type = modified; mtime = item.mtime })
expected path none none = none
expected path none (some prior) =
    if is_done prior.status && is_deleted prior.change_type
    then none
    else some
        (record { md_path = path; kind = prior.kind; change_type = deleted; mtime = prior.mtime })

find_input-none :
    (path : String) (items : List ScanInput)
    → All (λ other. other.md_path ≢ path) items
    → find_input path items ≡ none
unfolding find_input
find_input-none path [] h = refl
find_input-none path (item ∷ items) h =
    ground (arith, test-of-ne item.md_path path h.0, find_input-none path items h.1)

prior_of-none :
    (path : String) (state : Snapshot)
    → All (λ other. other.0 ≢ path) state
    → prior_of state path ≡ none
unfolding prior_of
prior_of-none path [] h = refl
prior_of-none path ((key, prior) ∷ state) h =
    ground (arith, test-of-ne key path h.0, prior_of-none path state h.1)

abbrev scanned :
    Option ScanInput → Option PriorState → Option ReconcileDecision → Option ReconcileDecision
unfolding decide_item
scanned none prior rest = rest
scanned (some item) prior rest = elim (decide_item prior item) [ none ↦ rest | some d ↦ some d ]

module _ (state : Snapshot) (path : String) (rest : List ReconcileDecision) where
  decision_at-scan :
      (scan : List ScanInput)
      → UniqueInputs scan
      → decision_at path (scan_decisions state scan ++ rest)
        ≡ scanned (find_input path scan) (prior_of state path) (decision_at path rest)
  unfolding decision_at scan_decisions find_input
  decision_at-scan [] u = refl
  decision_at-scan (item ∷ items) u = elim (eq-cases item.md_path path) [
    | inl e ↦
        ground
          (arith, eq_refl path, find_input-none item.md_path items u.0, decision_at-scan items u.1)
    | inr e ↦ ground (arith, decision_at-scan items u.1)
  ]

decision_at-missing :
    (seen : List String) (path : String) (state : Snapshot)
    → UniqueKeys state
    → decision_at path (missing_decisions seen state)
      ≡ (if contains seen path then none else expected path none (prior_of state path))
unfolding decision_at missing_decisions prior_of
decision_at-missing seen path [] u = ground arith
decision_at-missing seen path ((key, prior) ∷ state) u = elim (eq-cases key path) [
  | inl e ↦
      ground
        (arith, eq_refl path, prior_of-none key state u.0, decision_at-missing seen path state u.1)
  | inr e ↦ ground (arith, decision_at-missing seen path state u.1)
]

contains-find_input :
    (path : String) (scan : List ScanInput)
    → contains (map (λ item. item.md_path) scan) path ≡ is_some (find_input path scan)
unfolding find_input
contains-find_input path [] = refl
contains-find_input path (item ∷ items) = ground (arith, contains-find_input path items)

md_path-find_input :
    (path : String) (scan : List ScanInput) (item : ScanInput)
    → find_input path scan ≡ some item
    → item.md_path ≡ path
unfolding find_input
md_path-find_input path [] item h = cc
md_path-find_input path (first ∷ scan) item h =
    ground (arith, eq_iff first.md_path path, md_path-find_input path scan item)

is_settled-unchanged :
    (prior : PriorState) (mtime : ℕ) → is_settled prior mtime ≡ unchanged prior mtime
is_settled-unchanged prior mtime = ground arith

scanned-expected :
    (path : String) (found : Option ScanInput) (prior : Option PriorState)
    → ((item : ScanInput) → found ≡ some item → item.md_path ≡ path)
    → scanned found prior (if is_some found then none else expected path none prior)
      ≡ expected path found prior
unfolding decide_item
scanned-expected path none prior h = refl
scanned-expected path (some item) none h = ground (arith, h item refl)
scanned-expected path (some item) (some prior) h =
    ground (arith, h item refl, is_settled-unchanged prior item.mtime)

-- For a scan without a repeated path and a snapshot without a repeated key, the decisions of a
-- sweep are those of the table `expected`, path by path.
pub reconcile_lem :
    (scan : List ScanInput) (state : Snapshot)
    → UniqueInputs scan
    → UniqueKeys state
    → (path : String)
    → decision_at path (reconcile scan state)
      ≡ expected path (find_input path scan) (prior_of state path)
unfolding reconcile
reconcile_lem scan state u k path =
    rw (decision_at-scan, decision_at-missing, contains-find_input, u, k)
      (scanned-expected path (find_input path scan) (prior_of state path)
        (md_path-find_input path scan))
