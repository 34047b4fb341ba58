-- ===== src/Cascade/Scan.antt =====
-- One sweep of the scanner (src/everos/memory/cascade/scanner.py): walk, snapshot, reconcile and
-- upsert.
pub mod Walk
pub mod Sweep
pub mod Quiet
pub mod Keeps
pub mod Tests
use ever_os.Prelude.{
  if◌then◌else◌, keep, ℕ, ◌+◌, String, Option, none, some, List, [], ◌∷◌, ◌++◌, map,
}
use ever_os.Cascade.Queue.{MdChangeState, Queue, upsert, kind_allowed}
use ever_os.Cascade.Reconcile.{ScanInput, ReconcileDecision, PriorState, Snapshot, reconcile}

-- What `stat()` answers for a path that the glob has found: a modification time, that the file is
-- gone by now, or another error of the operating system.
pub data StatReply : Type 0 where
  stat_ok : (mtime : ℕ) → StatReply
  not_found : StatReply
  os_error : StatReply

-- A path that `root.glob` yields: its name relative to the root, if it lies below the root.
pub record Globbed : Type 0 where
  pub relative : Option String
  pub stat : StatReply

-- The walk of the disk: for each registered kind, in registry order, what its glob yields.
abbrev pub Disk : Type 0
Disk = List (String × List Globbed)

abbrev add_input : String → Option String → ℕ → List ScanInput → List ScanInput
add_input kind none mtime rest = rest
add_input kind (some path) mtime rest = record { md_path = path; mtime = mtime; kind = kind } ∷ rest

-- `none`: an error other than ENOENT was raised.
stat_all : String → List Globbed → Option (List ScanInput)
stat_all kind [] = some []
stat_all kind (g ∷ rest) =
    let later = stat_all kind rest in
    elim g.stat [
      | stat_ok mtime ↦ elim later [
        | none ↦ none
        | some inputs ↦ some (add_input kind g.relative mtime inputs)
      ]
      | not_found ↦ later
      | os_error ↦ none
    ]

pub collect_scan_inputs : Disk → Option (List String) → Option (List ScanInput)
unfolding stat_all
collect_scan_inputs [] kinds = some []
collect_scan_inputs ((name, globbed) ∷ specs) kinds =
    if kind_allowed kinds name
    then elim (stat_all name globbed) [
      | none ↦ none
      | some first ↦ elim (collect_scan_inputs specs kinds) [
        | none ↦ none
        | some rest ↦ some (first ++ rest)
      ]
    ]
    else collect_scan_inputs specs kinds

prior_state : MdChangeState → PriorState
prior_state row = record {
  md_path = row.md_path;
  kind = row.kind;
  mtime = row.mtime;
  status = row.status;
  change_type = row.change_type;
  retryable = row.retryable;
  retry_count = row.retry_count;
}

pub load_state_snapshot : Queue → Snapshot
unfolding prior_state
load_state_snapshot = map (λ row. (row.md_path, prior_state row))

-- `{p: s for p, s in state.items() if s.kind in kinds}`, where `kinds` is given.
abbrev pub scoped : Option (List String) → Snapshot → Snapshot
scoped kinds = keep (λ entry. kind_allowed kinds entry.1.kind)

-- `clock k` is the time of the sweep's k-th upsert.
pub apply_decisions : (ℕ → ℕ) → List ReconcileDecision → Queue → Queue
apply_decisions clock [] queue = queue
apply_decisions clock (d ∷ ds) queue =
    apply_decisions (λ k. clock (k + 1)) ds
      (upsert d.md_path d.kind d.change_type d.mtime (clock 0) queue).0

-- The table after the sweep and the decisions, or `none` where the walk raised; the table is then
-- as it was.
pub scan_once :
    (ℕ → ℕ) → Disk → Option (List String) → Queue → Queue × Option (List ReconcileDecision)
unfolding collect_scan_inputs load_state_snapshot apply_decisions
scan_once clock disk kinds queue = elim (collect_scan_inputs disk kinds) [
  | none ↦ (queue, none)
  | some inputs ↦
      let decisions = reconcile inputs (scoped kinds (load_state_snapshot queue)) in
      (apply_decisions clock decisions queue, some decisions)
]
