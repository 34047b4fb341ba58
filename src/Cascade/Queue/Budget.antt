-- ===== src/Cascade/Queue/Budget.antt =====
-- Retry counts below a bound stay below it.
use ever_os.Prelude.{All, All-imp, ℕ, ◌<◌, String, ◌&&◌, Option, none, some, List, arith, ◌==◌}
use ever_os.Cascade.Queue.{
  done, ChangeType, Queue, is_processing, upsert, claimed, claim_pending_batch, mark_done,
}
use ever_os.Cascade.Queue.Invariant.{Unique, All-update_where, All-insert_or_update}
use ever_os.Cascade.Queue.Claim.{claim_pending_batch-table, claim_pending_batch_lem}
use ever_os.Cascade.Queue.Batches.{All-map, All-chosen}

-- Every row's retry count is below the bound.
abbrev pub CountsBelow : ℕ → Queue → Type 0
CountsBelow bound = All (λ row. row.retry_count < bound)

pub mark_done-CountsBelow :
    (bound : ℕ) (path : String) (now : ℕ) (queue : Queue)
    → CountsBelow bound queue
    → CountsBelow bound (mark_done path now queue)
unfolding mark_done
mark_done-CountsBelow bound path now queue h =
    All-update_where (λ row. row.retry_count < bound)
      (λ row. row.md_path == path && is_processing row.status)
      (λ row. record row {
        status = done;
        last_attempt_at = some now;
        error = none;
        retryable = none;
      })
      queue (λ row r e. r) h

pub claim_batch-CountsBelow :
    (bound limit : ℕ) (kinds : Option (List String)) (now : ℕ) (queue : Queue)
    → Unique queue
    → CountsBelow bound queue
    → CountsBelow bound (claim_pending_batch limit kinds now queue).0
      × CountsBelow bound (claim_pending_batch limit kinds now queue).1
unfolding claimed
claim_batch-CountsBelow bound limit kinds now queue u h = (
  rw (claim_pending_batch-table limit kinds now queue)
      (All-update_where _ _ _ queue (λ row r e. r) h),
  rw (claim_pending_batch_lem limit kinds now queue u) (
      All-map _ (claimed now) _
        (All-chosen _ limit kinds queue (All-imp _ _ queue (λ row r e. r) h))),
)

pub upsert-CountsBelow :
    (bound : ℕ) (path kind : String) (change : ChangeType) (mtime now : ℕ) (queue : Queue)
    → 0 < bound
    → Unique queue
    → CountsBelow bound queue
    → CountsBelow bound (upsert path kind change mtime now queue).0
unfolding upsert
upsert-CountsBelow bound path kind change mtime now queue b u h =
    All-insert_or_update _ _ _ _ queue u h b (λ row r e. ground arith) (λ row r e. r)
