-- ===== src/Cascade/Queue/Lifecycle.antt =====
-- The lifecycle of a row: pending, claimed, then done or failed.
use mathlib.Core.Option
use ever_os.Prelude.{
  if◌then◌else◌, Bool-cases, count, ℕ, String, ◌≡◌, refl, sym, ◌∙◌, subst, ◌⊎◌, inl, inr, Bool,
  true, false, Option, none, some, arith, ◌==◌,
}
use ever_os.Cascade.Queue.Upkeep.{recover_orphan_processing, reset_retryable_to_pending, reset_all}
use ever_os.Cascade.Queue.{
  pending, processing, done, failed, ChangeType, modified, MdChangeState, Queue, get, update_where,
  upsert, force_enqueue, claimed, claim_one, mark_done, mark_failed, fresh_row, requeued_row,
}
use ever_os.Cascade.Queue.Traces.{
  Call, upsert_call, force_call, claim_one_call, claim_batch_call, done_call, failed_call,
  recover_call, reset_call, reset_all_call, run_call,
}
use ever_os.Cascade.Queue.Claim.{is_picked, claim_pending_batch-table}
use ever_os.Cascade.Queue.Upsert.{requeued, get-upsert}
use ever_os.Cascade.Queue.Rows.{updated, get-update_where}

-- What one call may make of a row, other than setting it back to pending.
pub data Follows (row next : MdChangeState) : Type 0 where
  same : next ≡ row → Follows row next
  claim : row.status ≡ pending → next.status ≡ processing → Follows row next
  finish : row.status ≡ processing → next.status ≡ done → Follows row next
  fail : row.status ≡ processing → next.status ≡ failed → Follows row next

abbrev Explained : Option MdChangeState → MdChangeState → Type 0
Explained old next =
    (next.status ≡ pending) ⊎ ((row : MdChangeState) × (old ≡ some row) × Follows row next)

explain_update :
    (test : MdChangeState → Bool) (change : MdChangeState → MdChangeState)
    → ((row : MdChangeState) → (change row).md_path ≡ row.md_path)
    → ((row : MdChangeState)
        → test row ≡ true
        → ((change row).status ≡ pending) ⊎ Follows row (change row))
    → (path : String) (queue : Queue) (next : MdChangeState)
    → get path (update_where test change queue) ≡ some next
    → Explained (get path queue) next
explain_update test change path_same step path queue next h =
    go (get path queue) (sym (get-update_where test change path_same path queue) ∙ h)
  where
    explained : (row : MdChangeState) → Explained (some row) (updated test change row)
    explained row = elim (Bool-cases (test row)) [
      | inl t ↦ rw t (elim (step row t) [ inl p ↦ inl p | inr f ↦ inr (row, refl, f) ])
      | inr t ↦ rw t (inr (row, refl, same refl))
    ]

    go :
        (old : Option MdChangeState)
        → Option.map (updated test change) old ≡ some next
        → Explained old next
    go none e = cc
    go (some row) e =
        let p : updated test change row ≡ next = cc in
        subst (λ n. Explained (some row) n) p (explained row)

explain_upsert :
    (path kind : String) (change : ChangeType) (mtime now : ℕ) (queue : Queue) (at : String)
    (next : MdChangeState)
    → get at (upsert path kind change mtime now queue).0 ≡ some next
    → Explained (get at queue) next
unfolding fresh_row requeued_row
explain_upsert path kind change mtime now queue at next h =
    go (get at queue) (path == at) (sym (get-upsert path kind change mtime now queue at) ∙ h)
  where
    go :
        (old : Option MdChangeState) (hit : Bool)
        → (if hit then some (requeued path kind change mtime now queue old) else old) ≡ some next
        → Explained old next
    go none true e = inl (ground arith)
    go (some row) true e = inl (ground arith)
    go none false e = cc
    go (some row) false e = inr (row, refl, same (cc))

-- Whatever is called, a row found afterwards is pending, or it is the row that stood there, or a
-- pending row was claimed, or a claimed one was finished or failed: done and failed are reached
-- from processing alone, and processing from pending alone.
pub run_call_explained :
    (call : Call) (queue : Queue) (path : String) (next : MdChangeState)
    → get path (run_call call queue) ≡ some next
    → (next.status ≡ pending)
      ⊎ ((row : MdChangeState) × (get path queue ≡ some row) × Follows row next)
unfolding run_call force_enqueue claim_one mark_done mark_failed recover_orphan_processing
    reset_retryable_to_pending reset_all claimed
run_call_explained (upsert_call p k c m now) queue path next h =
    explain_upsert p k c m now queue path next h
run_call_explained (force_call p k now) queue path next h =
    explain_upsert p k modified 0 now queue path next h
run_call_explained (claim_one_call p now) queue path next h =
    explain_update _ _ (λ r. refl) (λ r t. inr (claim (ground arith) refl)) path queue next h
run_call_explained (claim_batch_call limit kinds now) queue path next h =
    explain_update (is_picked limit kinds now queue) (claimed now) (λ r. refl)
      (λ r t. inr (claim (ground arith) refl)) path queue next
      (rw (claim_pending_batch-table limit kinds now queue) at h)
run_call_explained (done_call p now) queue path next h =
    explain_update _ _ (λ r. refl) (λ r t. inr (finish (ground arith) refl)) path queue next h
run_call_explained (failed_call p retryable error count now) queue path next h =
    explain_update _ _ (λ r. refl) (λ r t. inr (fail (ground arith) refl)) path queue next h
run_call_explained recover_call queue path next h =
    explain_update _ _ (λ r. refl) (λ r t. inl refl) path queue next h
run_call_explained (reset_call now) queue path next h =
    explain_update _ _ (λ r. refl) (λ r t. inl refl) path queue next h
run_call_explained reset_all_call queue path next h = unfold get in cc
