-- ===== src/Cascade/Scan/Sweep.antt =====
-- What a sweep makes of each row of the table.

use ever_os.Prelude.{
  if◌then◌else◌, Bool-cases, eq-cases, ne-of-test, test-of-ne, All, ℕ, ◌+◌, String, ◌≡◌, refl, ◌∙◌,
  subst, ◌≢◌, inl, inr, Option, none, some, List, [], ◌∷◌, arith, ◌==◌, eq_iff, eq_refl,
}
use ever_os.Cascade.Queue.{MdChangeState, Queue, get, upsert, kind_allowed}
use ever_os.Cascade.Queue.Invariant.{Unique, IsValid}
use ever_os.Cascade.Queue.Upsert.{IsRequeued, upsert_requeues}
use ever_os.Cascade.Reconcile.{ScanInput, ReconcileDecision, PriorState, prior_of, reconcile}
use ever_os.Cascade.Reconcile.Table.{
  find_input, decision_at, UniqueInputs, UniqueKeys, UniqueDecisions, expected, reconcile_lem,
}
use ever_os.Cascade.Reconcile.Unique.{Unique-reconcile}
use ever_os.Cascade.Scan.{
  Disk, collect_scan_inputs, load_state_snapshot, scoped, apply_decisions, scan_once, prior_state,
}

-- The row at `path` after a sweep that decided this about it.
abbrev pub Swept :
    String → Option MdChangeState → Option ReconcileDecision → Option MdChangeState → Type 0
Swept path old none new = new ≡ old
Swept path old (some d) new =
    (row : MdChangeState) × (now : ℕ) × (lsn : ℕ) × (new ≡ some row)
    × IsRequeued old path d.kind d.change_type d.mtime now lsn row

decision_at-none :
    (path : String) (ds : List ReconcileDecision)
    → All (λ d. d.md_path ≢ path) ds
    → decision_at path ds ≡ none
unfolding decision_at
decision_at-none path [] h = refl
decision_at-none path (d ∷ ds) h =
    ground (arith, test-of-ne d.md_path path h.0, decision_at-none path ds h.1)

apply_decisions_lem :
    (clock : ℕ → ℕ) (ds : List ReconcileDecision) (queue : Queue)
    → UniqueDecisions ds
    → (path : String)
    → Swept path (get path queue) (decision_at path ds) (get path (apply_decisions clock ds queue))
unfolding apply_decisions decision_at
apply_decisions_lem clock [] queue u path = refl
apply_decisions_lem clock (d ∷ ds) queue u path =
    let after = upsert d.md_path d.kind d.change_type d.mtime (clock 0) queue in
    let (here, elsewhere) =
      upsert_requeues d.md_path d.kind d.change_type d.mtime (clock 0) queue in
    let rest = λ (at : String). apply_decisions_lem (λ k. clock (k + 1)) ds after.0 u.1 at in
    let final = apply_decisions (λ k. clock (k + 1)) ds after.0 in
    elim (Bool-cases (d.md_path == path)) [
      | inl e ↦ rw e (
          subst (λ at. Swept at (get at queue) (some d) (get at final))
            ((eq_iff d.md_path path).0 e)
            (
              here.0,
              clock 0,
              after.1,
              (rw (decision_at-none d.md_path ds u.0) at (rest d.md_path)) ∙ here.1,
              here.2,
            ))
      | inr e ↦ rw e (rw (elsewhere path (ne-of-test _ _ e)) at (rest path))
    ]

-- What the scanner knows of a row of the table, if the sweep looks at its kind.
abbrev pub scoped_prior : Option (List String) → Option MdChangeState → Option PriorState
unfolding prior_state
scoped_prior kinds none = none
scoped_prior kinds (some row) = if kind_allowed kinds row.kind then some (prior_state row) else none

prior_of-absent :
    (kinds : Option (List String)) (path : String) (queue : Queue)
    → All (λ other. other.md_path ≢ path) queue
    → prior_of (scoped kinds (load_state_snapshot queue)) path ≡ none
unfolding prior_of load_state_snapshot
prior_of-absent kinds path [] h = refl
prior_of-absent kinds path (row ∷ rows) h =
    ground (arith, test-of-ne row.md_path path h.0, prior_of-absent kinds path rows h.1)

pub prior_of-snapshot :
    (kinds : Option (List String)) (path : String) (queue : Queue)
    → Unique queue
    → prior_of (scoped kinds (load_state_snapshot queue)) path ≡ scoped_prior kinds (get path queue)
unfolding prior_of load_state_snapshot get
prior_of-snapshot kinds path [] u = refl
prior_of-snapshot kinds path (row ∷ rows) u = elim (eq-cases row.md_path path) [
  | inl e ↦ ground (
    arith,
    eq_refl path,
    prior_of-absent kinds row.md_path rows u.0,
    prior_of-snapshot kinds path rows u.2,
  )
  | inr e ↦ ground (arith, prior_of-snapshot kinds path rows u.2)
]

keys_absent :
    (kinds : Option (List String)) (path : String) (queue : Queue)
    → All (λ other. other.md_path ≢ path) queue
    → All (λ entry. entry.0 ≢ path) (scoped kinds (load_state_snapshot queue))
unfolding load_state_snapshot
keys_absent kinds path [] h = tt
keys_absent kinds path (row ∷ rows) h = ground (arith, h.0, keys_absent kinds path rows h.1)

pub UniqueKeys-snapshot :
    (kinds : Option (List String)) (queue : Queue)
    → Unique queue
    → UniqueKeys (scoped kinds (load_state_snapshot queue))
unfolding load_state_snapshot
UniqueKeys-snapshot kinds [] u = tt
UniqueKeys-snapshot kinds (row ∷ rows) u =
    ground (arith, keys_absent kinds row.md_path rows u.0, UniqueKeys-snapshot kinds rows u.2)

pub scan_once-walked :
    (clock : ℕ → ℕ) (disk : Disk) (kinds : Option (List String)) (queue : Queue)
    (inputs : List ScanInput)
    → collect_scan_inputs disk kinds ≡ some inputs
    → let decisions = reconcile inputs (scoped kinds (load_state_snapshot queue)) in
      scan_once clock disk kinds queue ≡ (apply_decisions clock decisions queue, some decisions)
unfolding scan_once
scan_once-walked clock disk kinds queue inputs c = rw (c, scan_once)

-- On a valid table, after a sweep whose walk has raised no error and returned no path twice, each
-- row is as the table `expected` says, from the file on disk at its path and the row that stood
-- there; a sweep limited to some kinds takes no account of the rows of other kinds.
pub scan_once_lem :
    (clock : ℕ → ℕ) (disk : Disk) (kinds : Option (List String)) (queue : Queue)
    (inputs : List ScanInput)
    → IsValid queue
    → UniqueInputs inputs
    → collect_scan_inputs disk kinds ≡ some inputs
    → (path : String)
    → Swept path
        (get path queue)
        (expected path (find_input path inputs) (scoped_prior kinds (get path queue)))
        (get path (scan_once clock disk kinds queue).0)
scan_once_lem clock disk kinds queue inputs v u c path =
    let state = scoped kinds (load_state_snapshot queue) in
    let keys = UniqueKeys-snapshot kinds queue v.unique in
    rw
      (
        scan_once-walked clock disk kinds queue inputs c,
        ← prior_of-snapshot kinds path queue v.unique,
        ← reconcile_lem inputs state u keys path,
      )
      (apply_decisions_lem clock (reconcile inputs state) queue
        (Unique-reconcile inputs state u keys) path)
