-- ===== src/Cascade/Queue/Traces.antt =====
-- Every sequence of repository calls, from any callers in any order, as a list of steps.
use ever_os.Prelude.{
  eqb, Bool-cases, count, All-imp, contains, ℕ, String, ◌≡◌, refl, inl, inr, Bool, true, ◌&&◌, ◌||◌,
  Option, List, [], ◌∷◌, arith,
}
use ever_os.Cascade.Queue.Upkeep.{recover_orphan_processing, reset_retryable_to_pending, reset_all}
use ever_os.Cascade.Queue.{
  ChangeType, modified, MdChangeState, Queue, is_pending, update_where, upsert, force_enqueue,
  claimed, claim_one, claim_pending_batch, mark_done, mark_failed, is_empty_set, claim_picks,
}
use ever_os.Cascade.Queue.Invariant.{
  RowIsValid, IsValid, All-update_where, All-insert_or_update, Unique-update_where, All-lsn-le-max,
  Unique-insert_or_update,
}

-- The calls that change the table.
pub data Call : Type 0 where
  upsert_call : (path kind : String) → ChangeType → (mtime now : ℕ) → Call
  force_call : (path kind : String) → (now : ℕ) → Call
  claim_one_call : (path : String) → (now : ℕ) → Call
  claim_batch_call : (limit : ℕ) → Option (List String) → (now : ℕ) → Call
  done_call : (path : String) → (now : ℕ) → Call
  failed_call : (path : String) → Bool → (error : String) → (count now : ℕ) → Call
  recover_call : Call
  reset_call : (now : ℕ) → Call
  reset_all_call : Call

unfoldable pub run_call : Call → Queue → Queue
run_call (upsert_call path kind change mtime now) queue =
    (upsert path kind change mtime now queue).0
run_call (force_call path kind now) queue = (force_enqueue path kind now queue).0
run_call (claim_one_call path now) queue = (claim_one path now queue).0
run_call (claim_batch_call limit kinds now) queue = (claim_pending_batch limit kinds now queue).0
run_call (done_call path now) queue = mark_done path now queue
run_call (failed_call path retryable error count now) queue =
    mark_failed path retryable error count now queue
run_call recover_call queue = (recover_orphan_processing queue).0
run_call (reset_call now) queue = (reset_retryable_to_pending now queue).0
run_call reset_all_call queue = (reset_all queue).0

pub run_calls : List Call → Queue → Queue
run_calls [] queue = queue
run_calls (call ∷ calls) queue = run_calls calls (run_call call queue)

IsValid-update_where :
    (test : MdChangeState → Bool) (change : MdChangeState → MdChangeState)
    → ((row : MdChangeState) → (change row).md_path ≡ row.md_path)
    → ((row : MdChangeState) → (change row).lsn ≡ row.lsn)
    → ((row : MdChangeState) → RowIsValid row → test row ≡ true → RowIsValid (change row))
    → (queue : Queue) → IsValid queue
    → IsValid (update_where test change queue)
IsValid-update_where test change path_same lsn_same keeps queue v = record {
  unique = Unique-update_where test change path_same lsn_same queue v.unique;
  rows = All-update_where RowIsValid test change queue keeps v.rows;
}

pub upsert-IsValid :
    (path kind : String) (change : ChangeType) (mtime now : ℕ) (queue : Queue)
    → IsValid queue
    → IsValid (upsert path kind change mtime now queue).0
unfolding upsert
upsert-IsValid path kind change mtime now queue v = record {
  unique =
      Unique-insert_or_update _ _ (λ row. refl) (λ row. refl) queue
        (All-imp _ _ queue (λ row h. omega arith) (All-lsn-le-max queue)) v.unique;
  rows =
      All-insert_or_update RowIsValid RowIsValid _ _ queue v.unique v.rows (ground arith)
        (λ row _ e. ground arith) (λ row r e. r);
}

claim_picks-IsValid :
    (picks : List String) (now : ℕ) (queue : Queue)
    → IsValid queue
    → IsValid (claim_picks picks now queue).0
unfolding claim_picks
claim_picks-IsValid [] now queue v = v
claim_picks-IsValid (pick ∷ more) now queue v =
    let test =
      λ (row : MdChangeState). contains (pick ∷ more) row.md_path && is_pending row.status in
    let w : IsValid (update_where test (claimed now) queue) =
      IsValid-update_where test (claimed now) (λ row. refl) (λ row. refl) (λ row r e. ground arith)
        queue v in
    elim (Bool-cases (eqb (count test queue) 0)) [ inl e ↦ rw e w | inr e ↦ rw e w ]

pub claim_batch-IsValid :
    (limit : ℕ) (kinds : Option (List String)) (now : ℕ) (queue : Queue)
    → IsValid queue
    → IsValid (claim_pending_batch limit kinds now queue).0
unfolding claim_pending_batch
claim_batch-IsValid limit kinds now queue v =
    elim (Bool-cases (eqb limit 0 || is_empty_set kinds)) [
      | inl e ↦ rw e v
      | inr e ↦ rw e (claim_picks-IsValid _ now queue v)
    ]

pub mark_done-IsValid :
    (path : String) (now : ℕ) (queue : Queue) → IsValid queue → IsValid (mark_done path now queue)
unfolding mark_done
mark_done-IsValid path now queue v =
    IsValid-update_where _ _ (λ row. refl) (λ row. refl) (λ row r e. ground arith) queue v

pub mark_failed-IsValid :
    (path : String) (retryable : Bool) (error : String) (n now : ℕ) (queue : Queue)
    → IsValid queue
    → IsValid (mark_failed path retryable error n now queue)
unfolding mark_failed
mark_failed-IsValid path retryable error n now queue v =
    IsValid-update_where _ _ (λ row. refl) (λ row. refl) (λ row r e. ground arith) queue v

-- Every call keeps the invariant.
pub run_call-IsValid : (call : Call) (queue : Queue) → IsValid queue → IsValid (run_call call queue)
unfolding run_call force_enqueue claim_one mark_done mark_failed recover_orphan_processing
    reset_retryable_to_pending reset_all claimed
run_call-IsValid (upsert_call path kind change mtime now) queue v =
    upsert-IsValid path kind change mtime now queue v
run_call-IsValid (force_call path kind now) queue v =
    upsert-IsValid path kind modified 0 now queue v
run_call-IsValid (claim_one_call path now) queue v =
    IsValid-update_where _ _ (λ row. refl) (λ row. refl) (λ row r e. ground arith) queue v
run_call-IsValid (claim_batch_call limit kinds now) queue v =
    claim_batch-IsValid limit kinds now queue v
run_call-IsValid (done_call path now) queue v = mark_done-IsValid path now queue v
run_call-IsValid (failed_call path retryable error count now) queue v =
    mark_failed-IsValid path retryable error count now queue v
run_call-IsValid recover_call queue v =
    IsValid-update_where _ _ (λ row. refl) (λ row. refl) (λ row r e. ground arith) queue v
run_call-IsValid (reset_call now) queue v =
    IsValid-update_where _ _ (λ row. refl) (λ row. refl) (λ row r e. ground arith) queue v
run_call-IsValid reset_all_call queue v = record { unique = tt; rows = tt }

-- The invariant holds after any sequence of whole calls, if it holds before: no two rows share a
-- path, no two share an lsn, and a row carries a verdict and an error message exactly while it is
-- failed. Calls do not overlap here: no write comes between the read of an upsert's lsn and its own
-- write, without which two rows may share an lsn.
pub run_calls-IsValid :
    (calls : List Call) (queue : Queue) → IsValid queue → IsValid (run_calls calls queue)
unfolding run_calls
run_calls-IsValid [] queue v = v
run_calls-IsValid (call ∷ calls) queue v =
    run_calls-IsValid calls (run_call call queue) (run_call-IsValid call queue v)
