-- ===== src/Cascade/Queue/Upsert.antt =====
-- `upsert`, and the marks of a stale claim, at the row of a path.
use ever_os.Prelude.{
  if◌then◌else◌, test-of-ne, All, All-Unit, ℕ, suc, String, ◌≡◌, refl, ◌≢◌, Bool, false, ◌&&◌,
  Option, none, some, arith, ◌==◌, eq_iff, eq_refl,
}
use ever_os.Cascade.Queue.{
  pending, ChangeType, MdChangeState, Queue, is_processing, get, max_lsn, next_lsn,
  carried_retry_count, upsert, mark_done, mark_failed, fresh_row, requeued_row,
}
use ever_os.Cascade.Queue.Rows.{get-insert_or_update, md_path-get}
use ever_os.Cascade.Queue.Invariant.{Unique, update_where-none, All-insert_or_update}

-- What a client must find at `path` after `upsert path kind change mtime now`, given the row
-- that stood there: a pending row with the new values, a cleared verdict and the fresh lsn.
pub record IsRequeued (old : Option MdChangeState) (path kind : String) (change : ChangeType)
    (mtime now lsn : ℕ) (row : MdChangeState) : Type 0 where
  pub at_path : row.md_path ≡ path
  pub has_kind : row.kind ≡ kind
  pub has_change : row.change_type ≡ change
  pub has_mtime : row.mtime ≡ mtime
  pub changed_now : row.last_changed_at ≡ now
  pub has_lsn : row.lsn ≡ lsn
  pub is_pending : row.status ≡ pending
  pub not_retryable : row.retryable ≡ none
  pub not_attempted : row.last_attempt_at ≡ none
  pub no_error : row.error ≡ none
  pub first_seen : row.first_seen_at ≡ elim old [ none ↦ now | some r ↦ r.first_seen_at ]
  pub budget : row.retry_count ≡ elim old [ none ↦ 0 | some r ↦ carried_retry_count r mtime ]

module _ (path kind : String) (change : ChangeType) (mtime now : ℕ) (queue : Queue) where
  abbrev pub requeued : Option MdChangeState → MdChangeState
  unfolding fresh_row requeued_row
  requeued none = fresh_row path kind change mtime now (suc (max_lsn queue))
  requeued (some row) = requeued_row kind change mtime now (suc (max_lsn queue)) row

  pub get-upsert :
      (other : String)
      → get other (upsert path kind change mtime now queue).0
        ≡ (if path == other then some (requeued (get other queue)) else get other queue)
  unfolding upsert requeued
  get-upsert other = ground (
    arith,
    get-insert_or_update (fresh_row path kind change mtime now (suc (max_lsn queue)))
        (requeued_row kind change mtime now (suc (max_lsn queue))) (λ r. refl) other queue,
  )

  IsRequeued-requeued :
      (old : Option MdChangeState)
      → ((row : MdChangeState) → old ≡ some row → row.md_path ≡ path)
      → IsRequeued old path kind change mtime now (suc (max_lsn queue)) (requeued old)
  unfolding requeued fresh_row requeued_row
  IsRequeued-requeued none h = ground arith
  IsRequeued-requeued (some row) h = ground (arith, h row refl)

  -- After an upsert the path has a pending row with the new values, and no other path's row
  -- has changed.
  pub upsert_requeues :
      ((row : MdChangeState) × (get path (upsert path kind change mtime now queue).0 ≡ some row)
        × IsRequeued
            (get path queue)
            path
            kind
            change
            mtime
            now
            (upsert path kind change mtime now queue).1
            row)
      × ((other : String)
          → path ≢ other
          → get other (upsert path kind change mtime now queue).0 ≡ get other queue)
  upsert_requeues = (
    (
      requeued (get path queue),
      ground (arith, get-upsert path, eq_refl path),
      unfold upsert next_lsn in IsRequeued-requeued (get path queue) (md_path-get path queue),
    ),
    λ other ne. ground (arith, get-upsert other, eq_iff path other),
  )

-- In a table without a repeated path or lsn, the verdict of a claim whose path has been upserted
-- since changes nothing: right after the upsert neither mark touches any row.
pub stale_marks_lost :
    (path kind : String) (change : ChangeType) (mtime now : ℕ) (queue : Queue)
    → Unique queue
    → (retryable : Bool) (error : String) (new_retry_count later : ℕ)
    → let after = (upsert path kind change mtime now queue).0 in
      (mark_done path later after ≡ after)
      × (mark_failed path retryable error new_retry_count later after ≡ after)
unfolding upsert mark_done mark_failed requeued_row
stale_marks_lost path kind change mtime now queue u retryable error new_retry_count later =
    (update_where-none _ _ _ idle, update_where-none _ _ _ idle)
  where
    idle :
        All
          (λ row. (row.md_path == path && is_processing row.status) ≡ false)
          (upsert path kind change mtime now queue).0
    idle =
        All-insert_or_update _ (λ row. Unit) _ _ queue u (All-Unit queue)
          (ground (arith, eq_refl path)) (λ row _ e. ground arith)
          (λ row _ ne. ground (arith, test-of-ne row.md_path path))
