-- ===== src/Cascade/Queue/Races.antt =====
-- Writers whose upserts overlap: the read of the lsn and the write of the row are two steps, and
-- other calls may come between them
-- (src/everos/infra/persistence/sqlite/repos/md_change_state.py, upsert and _next_lsn).
use ever_os.Prelude.{
  eqb, if◌then◌else◌, Bool-cases, ne-of-test, count, All, contains, ℕ, String, ◌≡◌, refl, sym, ◌∙◌,
  ◌≢◌, inl, inr, Bool, true, ◌&&◌, ◌||◌, Option, List, [], ◌∷◌, arith, ◌==◌,
}
use ever_os.Cascade.Queue.Upkeep.{recover_orphan_processing, reset_retryable_to_pending, reset_all}
use ever_os.Cascade.Queue.{
  ChangeType, modified, MdChangeState, Queue, is_pending, update_where, insert_or_update, next_lsn,
  write_upsert, upsert, force_enqueue, claimed, claim_one, claim_pending_batch, mark_done,
  mark_failed, is_empty_set, claim_picks,
}
use ever_os.Cascade.Queue.Invariant.{RowIsValid, All-update_where}
use ever_os.Cascade.Queue.Traces.{
  Call, upsert_call, force_call, claim_one_call, claim_batch_call, done_call, failed_call,
  recover_call, reset_call, reset_all_call, run_call,
}

-- The table, and the lsn that each writer has read last.
pub record Race : Type 0 where
  pub queue : Queue
  pub held : String → ℕ

pub data RaceStep : Type 0 where
  whole_call : Call → RaceStep
  read_lsn : (writer : String) → RaceStep
  write_row : (writer path kind : String) → ChangeType → (mtime now : ℕ) → RaceStep

unfoldable pub race_step : RaceStep → Race → Race
race_step (whole_call call) race = record race { queue = run_call call race.queue }
race_step (read_lsn writer) race = record race {
  held = λ w. if w == writer then next_lsn race.queue else race.held w;
}
race_step (write_row writer path kind change mtime now) race = record race {
  queue = write_upsert (race.held writer) path kind change mtime now race.queue;
}

unfoldable pub run_race : List RaceStep → Race → Race
run_race [] race = race
run_race (step ∷ steps) race = run_race steps (race_step step race)

abbrev pub NoPath : String → Queue → Type 0
NoPath path = All (λ row. row.md_path ≢ path)

abbrev pub UniquePaths : Queue → Type 0
UniquePaths [] = Unit
UniquePaths (row ∷ rows) = NoPath row.md_path rows × UniquePaths rows

-- No two rows share a path, and a row carries a verdict and a message exactly while it is failed.
pub record IsSound (queue : Queue) : Type 0 where
  pub paths : UniquePaths queue
  pub rows : All RowIsValid queue

module _ (new : MdChangeState) (change : MdChangeState → MdChangeState)
    (path_same : (row : MdChangeState) → (change row).md_path ≡ row.md_path) where
  NoPath-insert :
      (path : String) (queue : Queue)
      → new.md_path ≢ path
      → NoPath path queue
      → NoPath path (insert_or_update new change queue)
  unfolding insert_or_update
  NoPath-insert path [] n h = (n, tt)
  NoPath-insert path (row ∷ rows) n h = elim (Bool-cases (row.md_path == new.md_path)) [
    | inl e ↦ rw e ((λ q. h.0 (sym (path_same row) ∙ q)), h.1)
    | inr e ↦ rw e (h.0, NoPath-insert path rows n h.1)
  ]

  UniquePaths-insert :
      (queue : Queue) → UniquePaths queue → UniquePaths (insert_or_update new change queue)
  unfolding insert_or_update
  UniquePaths-insert [] u = (tt, tt)
  UniquePaths-insert (row ∷ rows) u = elim (Bool-cases (row.md_path == new.md_path)) [
    | inl e ↦ rw e (rw (path_same row) u.0, u.1)
    | inr e ↦ rw e (
      NoPath-insert row.md_path rows (λ q. ne-of-test _ _ e (sym q)) u.0,
      UniquePaths-insert rows u.1,
    )
  ]

All-insert :
    (P : MdChangeState → Type 0) (new : MdChangeState) (change : MdChangeState → MdChangeState)
    (queue : Queue)
    → P new
    → ((row : MdChangeState) → P row → P (change row))
    → All P queue
    → All P (insert_or_update new change queue)
unfolding insert_or_update
All-insert P new change [] n c h = (n, tt)
All-insert P new change (row ∷ rows) n c h = elim (Bool-cases (row.md_path == new.md_path)) [
  | inl e ↦ rw e (c row h.0, h.1)
  | inr e ↦ rw e (h.0, All-insert P new change rows n c h.1)
]

UniquePaths-update_where :
    (test : MdChangeState → Bool) (change : MdChangeState → MdChangeState)
    → ((row : MdChangeState) → (change row).md_path ≡ row.md_path)
    → (queue : Queue) → UniquePaths queue
    → UniquePaths (update_where test change queue)
unfolding update_where
UniquePaths-update_where test change path_same [] u = tt
UniquePaths-update_where test change path_same (row ∷ rows) u =
    let a : NoPath row.md_path (update_where test change rows) =
      All-update_where (λ other. other.md_path ≢ row.md_path) test change rows
        (λ other n _ e. n (sym (path_same other) ∙ e)) u.0 in
    let b = UniquePaths-update_where test change path_same rows u.1 in
    elim (Bool-cases (test row)) [ inl e ↦ rw (e, path_same row) (a, b) | inr e ↦ rw e (a, b) ]

IsSound-update_where :
    (test : MdChangeState → Bool) (change : MdChangeState → MdChangeState)
    → ((row : MdChangeState) → (change row).md_path ≡ row.md_path)
    → ((row : MdChangeState) → RowIsValid row → test row ≡ true → RowIsValid (change row))
    → (queue : Queue) → IsSound queue
    → IsSound (update_where test change queue)
IsSound-update_where test change path_same keeps queue s = record {
  paths = UniquePaths-update_where test change path_same queue s.paths;
  rows = All-update_where RowIsValid test change queue keeps s.rows;
}

write_upsert-IsSound :
    (lsn : ℕ) (path kind : String) (change : ChangeType) (mtime now : ℕ) (queue : Queue)
    → IsSound queue
    → IsSound (write_upsert lsn path kind change mtime now queue)
unfolding write_upsert
write_upsert-IsSound lsn path kind change mtime now queue s = record {
  paths = UniquePaths-insert _ _ (λ row. refl) queue s.paths;
  rows = All-insert RowIsValid _ _ queue (ground arith) (λ row r. ground arith) s.rows;
}

claim_picks-IsSound :
    (picks : List String) (now : ℕ) (queue : Queue)
    → IsSound queue
    → IsSound (claim_picks picks now queue).0
unfolding claim_picks
claim_picks-IsSound [] now queue s = s
claim_picks-IsSound (pick ∷ more) now queue s =
    let test =
      λ (row : MdChangeState). contains (pick ∷ more) row.md_path && is_pending row.status in
    let w : IsSound (update_where test (claimed now) queue) =
      IsSound-update_where test (claimed now) (λ row. refl) (λ row r e. ground arith) queue s in
    elim (Bool-cases (eqb (count test queue) 0)) [ inl e ↦ rw e w | inr e ↦ rw e w ]

claim_batch-IsSound :
    (limit : ℕ) (kinds : Option (List String)) (now : ℕ) (queue : Queue)
    → IsSound queue
    → IsSound (claim_pending_batch limit kinds now queue).0
unfolding claim_pending_batch
claim_batch-IsSound limit kinds now queue s =
    elim (Bool-cases (eqb limit 0 || is_empty_set kinds)) [
      | inl e ↦ rw e s
      | inr e ↦ rw e (claim_picks-IsSound _ now queue s)
    ]

run_call-IsSound : (call : Call) (queue : Queue) → IsSound queue → IsSound (run_call call queue)
unfolding run_call upsert force_enqueue claim_one mark_done mark_failed recover_orphan_processing
    reset_retryable_to_pending reset_all claimed
run_call-IsSound (upsert_call path kind change mtime now) queue s =
    write_upsert-IsSound _ path kind change mtime now queue s
run_call-IsSound (force_call path kind now) queue s =
    write_upsert-IsSound _ path kind modified 0 now queue s
run_call-IsSound (claim_one_call path now) queue s =
    IsSound-update_where _ _ (λ row. refl) (λ row r e. ground arith) queue s
run_call-IsSound (claim_batch_call limit kinds now) queue s =
    claim_batch-IsSound limit kinds now queue s
run_call-IsSound (done_call path now) queue s =
    IsSound-update_where _ _ (λ row. refl) (λ row r e. ground arith) queue s
run_call-IsSound (failed_call path retryable error n now) queue s =
    IsSound-update_where _ _ (λ row. refl) (λ row r e. ground arith) queue s
run_call-IsSound recover_call queue s =
    IsSound-update_where _ _ (λ row. refl) (λ row r e. ground arith) queue s
run_call-IsSound (reset_call now) queue s =
    IsSound-update_where _ _ (λ row. refl) (λ row r e. ground arith) queue s
run_call-IsSound reset_all_call queue s = record { paths = tt; rows = tt }

race_step-IsSound :
    (step : RaceStep) (race : Race) → IsSound race.queue → IsSound (race_step step race).queue
unfolding race_step
race_step-IsSound (whole_call call) race s = run_call-IsSound call race.queue s
race_step-IsSound (read_lsn writer) race s = s
race_step-IsSound (write_row writer path kind change mtime now) race s =
    write_upsert-IsSound (race.held writer) path kind change mtime now race.queue s

-- Whatever writers overlap, also where two upserts have read one lsn before either has written: if
-- no two rows share a path and a row carries a verdict and an error message exactly while it is
-- failed, then so it is after any sequence of whole calls, reads of an lsn and writes of a row.
-- Nothing is said of the lsns, which may then be equal.
pub run_race-IsSound :
    (steps : List RaceStep) (race : Race) → IsSound race.queue → IsSound (run_race steps race).queue
unfolding run_race
run_race-IsSound [] race s = s
run_race-IsSound (step ∷ steps) race s =
    run_race-IsSound steps (race_step step race) (race_step-IsSound step race s)
