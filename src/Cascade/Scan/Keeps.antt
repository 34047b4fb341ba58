-- ===== src/Cascade/Scan/Keeps.antt =====
-- What a sweep keeps of the table: its invariant, and the bound on the retry counts.
use ever_os.Prelude.{ℕ, ◌+◌, ◌<◌, String, ◌≡◌, refl, Option, none, some, List, [], ◌∷◌}
use ever_os.Cascade.Queue.{Queue}
use ever_os.Cascade.Queue.Invariant.{IsValid}
use ever_os.Cascade.Queue.Traces.{upsert-IsValid}
use ever_os.Cascade.Queue.Budget.{CountsBelow, upsert-CountsBelow}
use ever_os.Cascade.Reconcile.{ScanInput, ReconcileDecision, reconcile}
use ever_os.Cascade.Scan.{
  Disk, collect_scan_inputs, load_state_snapshot, scoped, apply_decisions, scan_once,
}

module _ (bound : ℕ) (b : 0 < bound) where
  apply_decisions-keeps :
      (clock : ℕ → ℕ) (ds : List ReconcileDecision) (queue : Queue)
      → IsValid queue
      → CountsBelow bound queue
      → IsValid (apply_decisions clock ds queue)
        × CountsBelow bound (apply_decisions clock ds queue)
  unfolding apply_decisions
  apply_decisions-keeps clock [] queue v h = (v, h)
  apply_decisions-keeps clock (d ∷ ds) queue v h =
      apply_decisions-keeps (λ k. clock (k + 1)) ds _
        (upsert-IsValid d.md_path d.kind d.change_type d.mtime (clock 0) queue v)
        (upsert-CountsBelow bound d.md_path d.kind d.change_type d.mtime (clock 0) queue b v.unique
          h)

  pub scan_once-keeps :
      (clock : ℕ → ℕ) (disk : Disk) (kinds : Option (List String)) (queue : Queue)
      → IsValid queue
      → CountsBelow bound queue
      → IsValid (scan_once clock disk kinds queue).0
        × CountsBelow bound (scan_once clock disk kinds queue).0
  unfolding scan_once
  scan_once-keeps clock disk kinds queue v h = go (collect_scan_inputs disk kinds) refl
    where
      go :
          (walk : Option (List ScanInput))
          → collect_scan_inputs disk kinds ≡ walk
          → IsValid (scan_once clock disk kinds queue).0
            × CountsBelow bound (scan_once clock disk kinds queue).0
      go none e = rw (e, scan_once) (v, h)
      go (some inputs) e =
          rw (e, scan_once)
            (apply_decisions-keeps clock
              (reconcile inputs (scoped kinds (load_state_snapshot queue))) queue v h)
