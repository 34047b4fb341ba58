-- ===== src/Cascade/Queue/Upkeep.antt =====
-- The calls of the repository that look after the table: start-up recovery, the operator's lists and
-- resets, and the status report.
use ever_os.Prelude.{length, keep, count, ℕ, ◌&&◌, ◌||◌, none, List, []}
use ever_os.Cascade.Queue.{
  pending, MdChangeState, Queue, is_pending, is_processing, is_done, is_failed, is_true, is_false,
  update_where, max_lsn, order_by_lsn,
}

-- The new table, and the number of rows changed.
unfoldable pub recover_orphan_processing : Queue → Queue × ℕ
unfolding update_where
recover_orphan_processing queue = (
  update_where (λ row. is_processing row.status)
      (λ row. record row { status = pending; last_attempt_at = none }) queue,
  count (λ row. is_processing row.status) queue,
)

unfoldable pub list_failed : Queue → List MdChangeState
unfolding order_by_lsn
list_failed queue = order_by_lsn (keep (λ row. is_failed row.status) queue)

unfoldable pub reset_retryable_to_pending : ℕ → Queue → Queue × ℕ
unfolding update_where
reset_retryable_to_pending now queue =
    let test = λ (row : MdChangeState). is_failed row.status && is_true row.retryable in
    (
      update_where test
          (λ row. record row {
            status = pending;
            retryable = none;
            retry_count = 0;
            error = none;
            last_changed_at = now;
          })
          queue,
      count test queue,
    )

unfoldable pub reset_all : Queue → Queue × ℕ
reset_all queue = ([], length queue)

pub record QueueSummary : Type 0 where
  pub pending : ℕ
  pub done : ℕ
  pub failed_retryable : ℕ
  pub failed_permanent : ℕ
  pub max_lsn : ℕ
  pub last_processed_lsn : ℕ

unfoldable pub queue_summary : Queue → QueueSummary
unfolding max_lsn
queue_summary queue = record {
  pending = count (λ row. is_pending row.status || is_processing row.status) queue;
  done = count (λ row. is_done row.status) queue;
  failed_retryable = count (λ row. is_failed row.status && is_true row.retryable) queue;
  failed_permanent = count (λ row. is_failed row.status && is_false row.retryable) queue;
  max_lsn = max_lsn queue;
  last_processed_lsn = max_lsn (keep (λ row. is_done row.status || is_failed row.status) queue);
}
