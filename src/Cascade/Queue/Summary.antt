-- ===== src/Cascade/Queue/Summary.antt =====
-- Counting rows: the claim's effect on the backlog, start-up recovery and `queue_summary`.
use ever_os.Prelude.{
  length, keep, count, length-take, length-keep, All, contains, ℕ, suc, ◌+◌, ◌≤◌, min, String, ◌≡◌,
  refl, ap, ◌∙◌, Bool, false, ◌&&◌, ◌||◌, Option, List, [], ◌∷◌, map, arith,
}
use ever_os.Cascade.Queue.Upkeep.{recover_orphan_processing, queue_summary}
use ever_os.Cascade.Queue.{
  MdChangeState, Queue, is_pending, is_processing, is_done, is_failed, is_true, is_false,
  update_where, max_lsn, order_by_lsn, claimed, eligible, claim_pending_batch, mark_done,
  mark_failed, insert_by_lsn,
}
use ever_os.Cascade.Queue.Invariant.{RowIsValid, Unique, IsValid}
use ever_os.Cascade.Queue.Paths.{paths}
use ever_os.Cascade.Queue.Claim.{
  chosen, order-picked, is_picked, claim_pending_batch-table, claim_pending_batch_lem,
}

-- How many rows wait for the worker.
abbrev pub backlog : Queue → ℕ
backlog = count (λ row. is_pending row.status)

length-insert_by_lsn :
    (new : MdChangeState) (rows : List MdChangeState)
    → length (insert_by_lsn new rows) ≡ suc (length rows)
unfolding insert_by_lsn
length-insert_by_lsn new [] = refl
length-insert_by_lsn new (row ∷ rows) = ground (arith, length-insert_by_lsn new rows)

length-order_by_lsn : (rows : List MdChangeState) → length (order_by_lsn rows) ≡ length rows
unfolding order_by_lsn
length-order_by_lsn [] = refl
length-order_by_lsn (row ∷ rows) =
    omega (arith, length-insert_by_lsn row (order_by_lsn rows), length-order_by_lsn rows)

length-map-claimed :
    (now : ℕ) (rows : List MdChangeState) → length (map (claimed now) rows) ≡ length rows
length-map-claimed now [] = refl
length-map-claimed now (row ∷ rows) = ap suc (length-map-claimed now rows)

backlog-picks :
    (picks : List String) (now : ℕ) (queue : Queue)
    → let test = λ (row : MdChangeState). contains picks row.md_path && is_pending row.status in
      backlog (update_where test (claimed now) queue) + count test queue ≡ backlog queue
unfolding update_where claimed
backlog-picks picks now [] = refl
backlog-picks picks now (row ∷ rows) = ground (arith, backlog-picks picks now rows)

pub backlog-mark_done :
    (path : String) (now : ℕ) (queue : Queue) → backlog (mark_done path now queue) ≡ backlog queue
unfolding mark_done
backlog-mark_done path now [] = refl
backlog-mark_done path now (row ∷ rows) = ground (arith, backlog-mark_done path now rows)

pub backlog-mark_failed :
    (path : String) (retryable : Bool) (error : String) (n now : ℕ) (queue : Queue)
    → backlog (mark_failed path retryable error n now queue) ≡ backlog queue
unfolding mark_failed
backlog-mark_failed path retryable error n now [] = refl
backlog-mark_failed path retryable error n now (row ∷ rows) =
    ground (arith, backlog-mark_failed path retryable error n now rows)

module _ (limit : ℕ) (kinds : Option (List String)) (now : ℕ) (queue : Queue)
    (u : Unique queue) where
  length-batch :
      length (claim_pending_batch limit kinds now queue).1 ≡ length (chosen limit kinds queue)
  length-batch =
      ap length (claim_pending_batch_lem limit kinds now queue u) ∙ length-map-claimed now _

  -- In a table without a repeated path or lsn, a claim takes `limit` of the rows that it may take,
  -- or all of them, and takes each off the backlog.
  pub claim_takes :
      (length (claim_pending_batch limit kinds now queue).1
        ≡ min limit (count (eligible kinds) queue))
      × (backlog (claim_pending_batch limit kinds now queue).0
            + length (claim_pending_batch limit kinds now queue).1
          ≡ backlog queue)
  claim_takes = (
    omega (
      arith,
      length-batch,
      length-take limit (order_by_lsn (keep (eligible kinds) queue)),
      length-order_by_lsn (keep (eligible kinds) queue),
      length-keep (eligible kinds) queue,
    ),
    rw (claim_pending_batch-table limit kinds now queue) (
        omega (
          arith,
          length-batch,
          backlog-picks (paths (chosen limit kinds queue)) now queue,
          ap length (order-picked limit kinds queue u),
          length-order_by_lsn (keep (is_picked limit kinds now queue) queue),
          length-keep (is_picked limit kinds now queue) queue,
        )),
  )

recovered_counts :
    (queue : Queue)
    → let after = (recover_orphan_processing queue).0 in
      (count (λ row. is_processing row.status) after ≡ 0)
      × (backlog after ≡ backlog queue + count (λ row. is_processing row.status) queue)
unfolding recover_orphan_processing
recovered_counts [] = (refl, refl)
recovered_counts (row ∷ rows) = ground (arith, recovered_counts rows)

idle_recovery :
    (queue : Queue)
    → count (λ row. is_processing row.status) queue ≡ 0
    → recover_orphan_processing queue ≡ (queue, 0)
unfolding recover_orphan_processing
idle_recovery [] e = refl
idle_recovery (row ∷ rows) e = ground (arith, idle_recovery rows)

-- After the start-up recovery no row is claimed, each claimed row waits again, the count of the
-- rows changed is returned, and a second recovery changes nothing and returns 0.
pub recover_orphan_processing_lem :
    (queue : Queue)
    → let (after, changed) = recover_orphan_processing queue in
      (count (λ row. is_processing row.status) after ≡ 0)
      × (backlog after ≡ backlog queue + changed)
      × (recover_orphan_processing after ≡ (after, 0))
recover_orphan_processing_lem queue =
    let (none_left, more) = recovered_counts queue in
    (none_left, unfold recover_orphan_processing in more, idle_recovery _ none_left)

max_lsn-keep :
    (test : MdChangeState → Bool) (queue : Queue) → max_lsn (keep test queue) ≤ max_lsn queue
unfolding max_lsn
max_lsn-keep test [] = omega arith
max_lsn-keep test (row ∷ rows) = ground (arith, max_lsn-keep test rows)

counts_partition :
    (queue : Queue)
    → All RowIsValid queue
    → count (λ row. is_pending row.status || is_processing row.status) queue
        + count (λ row. is_done row.status) queue
        + count (λ row. is_failed row.status && is_true row.retryable) queue
        + count (λ row. is_failed row.status && is_false row.retryable) queue
      ≡ length queue
counts_partition [] v = refl
counts_partition (row ∷ rows) v = ground (arith, v.0.verdict, counts_partition rows v.1)

-- For a valid table the four counts of the status report add up to its rows, and the last
-- processed lsn is at most the largest.
pub queue_summary_lem :
    (queue : Queue)
    → IsValid queue
    → let s = queue_summary queue in
      (s.pending + s.done + s.failed_retryable + s.failed_permanent ≡ length queue)
      × (s.last_processed_lsn ≤ s.max_lsn)
unfolding queue_summary
queue_summary_lem queue v = (counts_partition queue v.rows, max_lsn-keep _ queue)

-- An empty backlog has no pending row.
pub idle_of_backlog :
    (queue : Queue) → backlog queue ≡ 0 → All (λ row. is_pending row.status ≡ false) queue
idle_of_backlog [] e = tt
idle_of_backlog (row ∷ rows) e = ground (arith, idle_of_backlog rows)
