-- ===== src/Cascade/Queue/Tests.antt =====
-- The theorems on the queue at a table of three rows.
use mathlib.Core.Option
use ever_os.Prelude.{
  ne-of-test, All, contains, ◌≡◌, refl, ◌⊎◌, true, false, none, some, List, [], ◌∷◌, map, arith,
}
use ever_os.Cascade.Queue.{
  pending, processing, done, failed, added, modified, deleted, MdChangeState, Queue, get, max_lsn,
  next_lsn, write_upsert, upsert, claimed, claim_pending_batch, mark_done, mark_failed,
}
use ever_os.Cascade.Queue.Invariant.{IsValid}
use ever_os.Cascade.Queue.Upsert.{stale_marks_lost}
use ever_os.Cascade.Queue.Paths.{paths}
use ever_os.Cascade.Queue.Claim.{chosen, claim_pending_batch_lem}
use ever_os.Cascade.Queue.Batches.{claims_disjoint}
use ever_os.Cascade.Queue.Traces.{
  Call, upsert_call, claim_batch_call, done_call, failed_call, reset_call, run_call, run_calls,
  run_calls-IsValid,
}
use ever_os.Cascade.Queue.Races.{
  Race, RaceStep, whole_call, read_lsn, write_row, race_step, run_race, IsSound, run_race-IsSound,
}
use ever_os.Cascade.Queue.Lifecycle.{Follows, run_call_explained}

abbrev pub waiting : MdChangeState
waiting = record {
  md_path = "a.md";
  kind = "episode";
  change_type = added;
  mtime = 5;
  first_seen_at = 1;
  last_changed_at = 1;
  lsn = 4;
  status = pending;
  retryable = none;
  last_attempt_at = none;
  retry_count = 0;
  error = none;
}

abbrev pub in_flight : MdChangeState
in_flight = record waiting {
  md_path = "b.md";
  lsn = 2;
  status = processing;
  last_attempt_at = some 7;
}

abbrev pub broken : MdChangeState
broken = record waiting {
  md_path = "c.md";
  kind = "profile";
  change_type = modified;
  lsn = 3;
  status = failed;
  retryable = some false;
  retry_count = 2;
  error = some "no frontmatter";
}

abbrev pub table : Queue
table = waiting ∷ in_flight ∷ broken ∷ []

pub table-IsValid : IsValid table
table-IsValid = record {
  unique = (
    (ne-of-test _ _ refl, (ne-of-test _ _ refl, tt)),
    (omega arith, (omega arith, tt)),
    ((ne-of-test _ _ refl, tt), (omega arith, tt), (tt, tt, tt)),
  );
  rows = (
    record { verdict = refl; message = refl },
    (record { verdict = refl; message = refl }, (record { verdict = refl; message = refl }, tt)),
  );
}

stale_marks_lost_example :
    let after = (upsert "b.md" "episode" deleted 5 9 table).0 in
    (mark_done "b.md" 10 after ≡ after) × (mark_failed "b.md" true "timeout" 1 10 after ≡ after)
stale_marks_lost_example =
    stale_marks_lost "b.md" "episode" deleted 5 9 table table-IsValid.unique true "timeout" 1 10

claim_pending_batch_lem_example :
    (claim_pending_batch 2 none 9 table).1 ≡ map (claimed 9) (chosen 2 none table)
claim_pending_batch_lem_example = claim_pending_batch_lem 2 none 9 table table-IsValid.unique

claims_disjoint_example :
    All
      (λ row. contains (paths (claim_pending_batch 1 none 9 table).1) row.md_path ≡ false)
      (claim_pending_batch 5 (some ("episode" ∷ [])) 10 (claim_pending_batch 1 none 9 table).0).1
claims_disjoint_example = claims_disjoint 1 5 none (some ("episode" ∷ [])) 9 10 table table-IsValid

abbrev day : List Call
day =
    upsert_call "d.md" "episode" added 3 8
    ∷ claim_batch_call 2 none 9
    ∷ failed_call "d.md" true "timeout" 3 10
    ∷ done_call "a.md" 11
    ∷ reset_call 12
    ∷ []

run_calls-IsValid_example : IsValid (run_calls day table)
run_calls-IsValid_example = run_calls-IsValid day table table-IsValid

run_call_explained_example :
    ((record in_flight { status = done; last_attempt_at = some 9 }).status ≡ pending)
    ⊎ ((row : MdChangeState) × (get "b.md" table ≡ some row)
        × Follows row (record in_flight { status = done; last_attempt_at = some 9 }))
unfolding get run_call mark_done
run_call_explained_example = run_call_explained (done_call "b.md" 9) table "b.md" _ refl

-- Tests of the definitions on the same table.
claims_lowest_lsn :
    paths
      (claim_pending_batch 1 none 9 (waiting ∷ record waiting { md_path = "d.md"; lsn = 1 } ∷ [])).1
    ≡ "d.md" ∷ []
unfolding claim_pending_batch
claims_lowest_lsn = refl

next_lsn_is_largest : (upsert "z.md" "episode" added 1 9 table).1 ≡ 5
unfolding upsert max_lsn
next_lsn_is_largest = refl

keeps_retry_count :
    Option.map (λ row. row.retry_count) (get "c.md" (upsert "c.md" "profile" modified 5 9 table).0)
    ≡ some 2
unfolding get upsert
keeps_retry_count = refl

-- Two writers that read the lsn before either of them writes.
abbrev overlapping : List RaceStep
overlapping =
    read_lsn "watcher"
    ∷ read_lsn "scanner"
    ∷ write_row "watcher" "x.md" "episode" added 5 10
    ∷ whole_call (claim_batch_call 1 none 11)
    ∷ write_row "scanner" "y.md" "episode" added 6 12
    ∷ []

abbrev at_table : Race
at_table = record { queue = table; held = λ w. 0 }

same_lsn : map (λ row. row.lsn) (run_race overlapping at_table).queue ≡ 4 ∷ 2 ∷ 3 ∷ 5 ∷ 5 ∷ []
unfolding run_race race_step run_call write_upsert claim_pending_batch max_lsn next_lsn
same_lsn = refl

table-IsSound : IsSound table
table-IsSound = record {
  paths = ((ne-of-test _ _ refl, (ne-of-test _ _ refl, tt)), ((ne-of-test _ _ refl, tt), (tt, tt)));
  rows = table-IsValid.rows;
}

run_race-IsSound_example : IsSound (run_race overlapping at_table).queue
run_race-IsSound_example = run_race-IsSound overlapping at_table table-IsSound
