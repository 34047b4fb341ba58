-- ===== src/Cascade/Scan/Quiet.antt =====
-- What sweeps do over time: files on disk are safe, handled tables stay quiet, failed deletions
-- come back.
use ever_os.Prelude.{
  Bool-cases, ℕ, String, ◌≡◌, refl, ap, ◌∙◌, ◌≢◌, ◌⊎◌, inl, inr, true, Option, none, some, List, [],
  ◌∷◌, arith, eq_refl,
}
use ever_os.Cascade.Queue.{
  pending, done, failed, deleted, MdChangeState, Queue, get, mtime_stable, kind_allowed,
}
use ever_os.Cascade.Queue.Rows.{All-rows}
use ever_os.Cascade.Queue.Progress.{Handled}
use ever_os.Cascade.Queue.Invariant.{RowIsValid, IsValid}
use ever_os.Cascade.Reconcile.{ScanInput, ReconcileDecision, PriorState, reconcile}
use ever_os.Cascade.Reconcile.Table.{
  find_input, decision_at, UniqueInputs, unchanged, expected, reconcile_lem,
}
use ever_os.Cascade.Scan.{
  Disk, collect_scan_inputs, load_state_snapshot, scoped, apply_decisions, scan_once, prior_state,
}
use ever_os.Cascade.Scan.Sweep.{
  Swept, scoped_prior, prior_of-snapshot, UniqueKeys-snapshot, scan_once-walked, scan_once_lem,
}

module _ (clock : ℕ → ℕ) (disk : Disk) (kinds : Option (List String)) (queue : Queue)
    (inputs : List ScanInput) (v : IsValid queue) (u : UniqueInputs inputs)
    (walked : collect_scan_inputs disk kinds ≡ some inputs) (path : String) where
  -- On a valid table, a sweep whose walk has raised no error and returned no path twice marks no
  -- file that it has found on disk as deleted: the row at its path is the one that stood there, or
  -- a pending one whose change is not a deletion.
  pub found_not_deleted :
      (item : ScanInput)
      → find_input path inputs ≡ some item
      → (get path (scan_once clock disk kinds queue).0 ≡ get path queue)
        ⊎ ((row : MdChangeState) × (get path (scan_once clock disk kinds queue).0 ≡ some row)
            × (row.status ≡ pending)
            × (row.change_type ≢ deleted))
  found_not_deleted item found =
      go (get path queue) (scoped_prior kinds (get path queue))
        (rw found at (scan_once_lem clock disk kinds queue inputs v u walked path))
    where
      go :
          (old : Option MdChangeState) (prior : Option PriorState)
          → Swept path old
              (expected path (some item) prior)
              (get path (scan_once clock disk kinds queue).0)
          → (get path (scan_once clock disk kinds queue).0 ≡ old)
            ⊎ ((row : MdChangeState) × (get path (scan_once clock disk kinds queue).0 ≡ some row)
                × (row.status ≡ pending)
                × (row.change_type ≢ deleted))
      go old none (row, now, lsn, at, r) = inr (row, at, r.is_pending, λ e. cc (r.has_change))
      go old (some prior) h = elim (Bool-cases (unchanged prior item.mtime)) [
        | inl e ↦ inl (rw e at h)
        | inr e ↦
            let (row, now, lsn, at, r) = rw e at h in
            inr (row, at, r.is_pending, λ e. cc (r.has_change))
      ]

  -- On a valid table, a sweep whose walk has raised no error and returned no path twice queues a
  -- failed row of its kinds again for deletion if the file is missing, whether the failure was
  -- marked retryable or not, and with its retry count.
  pub failed_deletion_requeued :
      (old : MdChangeState)
      → get path queue ≡ some old
      → old.status ≡ failed
      → kind_allowed kinds old.kind ≡ true
      → find_input path inputs ≡ none
      → (row : MdChangeState) × (get path (scan_once clock disk kinds queue).0 ≡ some row)
        × (row.status ≡ pending)
        × (row.change_type ≡ deleted)
        × (row.retry_count ≡ old.retry_count)
  unfolding prior_state
  failed_deletion_requeued old here fails allowed missing =
      let (row, now, lsn, at, r) =
        rw (here, missing, allowed, fails) at
          (scan_once_lem clock disk kinds queue inputs v u walked path) in
      (row, at, r.is_pending, r.has_change, ground (arith, r.budget))

  -- On a valid table, a sweep whose walk has raised no error and returned no path twice leaves a
  -- file alone whose deletion has been handled and that is back with its old modification time:
  -- its row, of a kind in the sweep, still says that its deletion is done.
  pub restored_file_ignored :
      (item : ScanInput) (old : MdChangeState)
      → find_input path inputs ≡ some item
      → get path queue ≡ some old
      → kind_allowed kinds old.kind ≡ true
      → old.status ≡ done
      → old.change_type ≡ deleted
      → mtime_stable old.mtime item.mtime ≡ true
      → (row : MdChangeState) × (get path (scan_once clock disk kinds queue).0 ≡ some row)
        × (row.status ≡ done)
        × (row.change_type ≡ deleted)
  unfolding prior_state
  restored_file_ignored item old found here allowed handled gone same = (
    old,
    rw settled at (
        rw (here, found, allowed) at (scan_once_lem clock disk kinds queue inputs v u walked path)),
    handled,
    gone,
  )
    where
      settled : unchanged (prior_state old) item.mtime ≡ true
      settled = ground (arith, handled, same)

nil_of_decision_at :
    (ds : List ReconcileDecision) → ((path : String) → decision_at path ds ≡ none) → ds ≡ []
unfolding decision_at
nil_of_decision_at [] h = refl
nil_of_decision_at (d ∷ ds) h = ground (arith, h d.md_path, eq_refl d.md_path)

-- A row that a full sweep has written and the worker has handled, or one that the sweep left
-- alone, gives the next sweep nothing to decide.
settled_after :
    (path : String) (found : Option ScanInput) (old new after : Option MdChangeState)
    → ((row : MdChangeState) → old ≡ some row → RowIsValid row)
    → Swept path old (expected path found (scoped_prior none old)) new
    → Handled new after
    → expected path found (scoped_prior none after) ≡ none
unfolding prior_state
settled_after path none none none after valid s h = ground arith
settled_after path none none (some new) after valid s h = ground arith
settled_after path none (some old) none after valid s h = ground arith
settled_after path none (some old) (some new) after valid s h = ground arith
settled_after path (some item) none none after valid s h = ground arith
settled_after path (some item) none (some new) after valid s h = ground arith
settled_after path (some item) (some old) none after valid s h = ground (arith, valid old refl)
settled_after path (some item) (some old) (some new) after valid s h =
    ground (arith, valid old refl)

-- The sweeps come to rest: after a full sweep whose pending rows the worker has handled, a full
-- sweep over an unchanged disk decides nothing and leaves the table as it is.
pub next_sweep_quiet :
    (clock later : ℕ → ℕ) (disk : Disk) (queue after : Queue) (inputs : List ScanInput)
    → IsValid queue
    → IsValid after
    → UniqueInputs inputs
    → collect_scan_inputs disk none ≡ some inputs
    → ((path : String) → Handled (get path (scan_once clock disk none queue).0) (get path after))
    → scan_once later disk none after ≡ (after, some [])
unfolding apply_decisions
next_sweep_quiet clock later disk queue after inputs v w u walked handled =
    scan_once-walked later disk none after inputs walked
    ∙ ap (λ ds. (apply_decisions later ds after, some ds)) (nil_of_decision_at _ quiet)
  where
    quiet :
        (path : String)
        → decision_at path (reconcile inputs (scoped none (load_state_snapshot after))) ≡ none
    quiet path =
        reconcile_lem inputs (scoped none (load_state_snapshot after)) u
          (UniqueKeys-snapshot none after w.unique) path
        ∙ ap (expected path (find_input path inputs)) (prior_of-snapshot none path after w.unique)
        ∙ settled_after path (find_input path inputs) (get path queue) _ (get path after)
            (All-rows RowIsValid path queue v.rows)
            (scan_once_lem clock disk none queue inputs v u walked path) (handled path)
