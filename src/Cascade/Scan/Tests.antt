-- ===== src/Cascade/Scan/Tests.antt =====
-- The theorems on a sweep at a disk of two files and the table of three rows.
use ever_os.Prelude.{ne-of-test, ◌≡◌, refl, ◌≢◌, ◌⊎◌, none, some, List, [], ◌∷◌}
use ever_os.Cascade.Queue.{pending, done, deleted, MdChangeState, get, upsert}
use ever_os.Cascade.Queue.Summary.{backlog}
use ever_os.Cascade.Queue.Tests.{waiting, broken, table, table-IsValid}
use ever_os.Cascade.Reconcile.{ScanInput, prior_of, reconcile}
use ever_os.Cascade.Reconcile.Table.{find_input, UniqueInputs, expected}
use ever_os.Cascade.Scan.{stat_ok, not_found, Disk, collect_scan_inputs, scan_once}
use ever_os.Cascade.Scan.Sweep.{Swept, scoped_prior, scan_once_lem}
use ever_os.Cascade.Scan.Quiet.{found_not_deleted, failed_deletion_requeued, restored_file_ignored}

-- `a.md` is unchanged, `n.md` is new, one path is gone by now, and `c.md` is missing.
abbrev pub disk : Disk
disk =
    (
      "episode",
      record { relative = some "a.md"; stat = stat_ok 5 }
          ∷ record { relative = some "x.md"; stat = not_found }
          ∷ record { relative = some "n.md"; stat = stat_ok 8 }
          ∷ [],
    )
    ∷ ("profile", [])
    ∷ []

abbrev pub inputs : List ScanInput
inputs =
    record { md_path = "a.md"; mtime = 5; kind = "episode" }
    ∷ record { md_path = "n.md"; mtime = 8; kind = "episode" }
    ∷ []

pub inputs-Unique : UniqueInputs inputs
inputs-Unique = ((ne-of-test _ _ refl, tt), (tt, tt))

pub walked : collect_scan_inputs disk none ≡ some inputs
unfolding collect_scan_inputs
walked = refl

found_not_deleted_example :
    (get "a.md" (scan_once (λ k. k) disk none table).0 ≡ get "a.md" table)
    ⊎ ((row : MdChangeState) × (get "a.md" (scan_once (λ k. k) disk none table).0 ≡ some row)
        × (row.status ≡ pending)
        × (row.change_type ≢ deleted))
unfolding find_input
found_not_deleted_example =
    found_not_deleted (λ k. k) disk none table inputs table-IsValid inputs-Unique walked "a.md"
      (record { md_path = "a.md"; mtime = 5; kind = "episode" }) refl

failed_deletion_requeued_example :
    (row : MdChangeState) × (get "c.md" (scan_once (λ k. k) disk none table).0 ≡ some row)
    × (row.status ≡ pending)
    × (row.change_type ≡ deleted)
    × (row.retry_count ≡ 2)
unfolding find_input get
failed_deletion_requeued_example =
    failed_deletion_requeued (λ k. k) disk none table inputs table-IsValid inputs-Unique walked
      "c.md" broken refl refl refl refl

scan_once_lem_example :
    Swept "c.md"
      (get "c.md" table)
      (expected "c.md" (find_input "c.md" inputs) (scoped_prior none (get "c.md" table)))
      (get "c.md" (scan_once (λ k. k) disk none table).0)
scan_once_lem_example =
    scan_once_lem (λ k. k) disk none table inputs table-IsValid inputs-Unique walked "c.md"

-- The sweep leaves every path pending: one waits as before, two are missing, one is new.
pub swept-backlog : backlog (scan_once (λ k. k) disk none table).0 ≡ 4
unfolding scan_once reconcile upsert get prior_of
swept-backlog = refl

-- `a.md` was deleted, its deletion is done, and the file is back with its old time.
abbrev erased : MdChangeState
erased = record waiting { status = done; change_type = deleted }

restored_file_ignored_example :
    (row : MdChangeState) × (get "a.md" (scan_once (λ k. k) disk none (erased ∷ [])).0 ≡ some row)
    × (row.status ≡ done)
    × (row.change_type ≡ deleted)
unfolding find_input get
restored_file_ignored_example =
    restored_file_ignored (λ k. k) disk none (erased ∷ []) inputs
      (record { unique = (tt, tt, tt); rows = (record { verdict = refl; message = refl }, tt) })
      inputs-Unique walked "a.md" (record { md_path = "a.md"; mtime = 5; kind = "episode" }) erased
      refl refl refl refl refl refl
