-- ===== src/Cascade/Queue.antt =====
-- The table `md_change_state`, the work queue of the cascade
-- (src/everos/infra/persistence/sqlite/tables/md_change_state.py), and its repository
-- (src/everos/infra/persistence/sqlite/repos/md_change_state.py).
-- A table is the list of its rows in insertion order; each repository call is one transaction.
-- `now` stands for what `get_utc_now` returns in the call. An `mtime` counts nanoseconds.
pub mod Upkeep
pub mod Rows
pub mod Order
pub mod Invariant
pub mod Upsert
pub mod Paths
pub mod Claim
pub mod Traces
pub mod Races
pub mod Batches
pub mod Summary
pub mod Lifecycle
pub mod Finish
pub mod Progress
pub mod Budget
pub mod Tests
use ever_os.Prelude.{
  ltb, leb, eqb, if◌then◌else◌, take, keep, count, contains, ℕ, suc, ◌+◌, ◌-◌, max, String, Bool,
  true, false, ◌&&◌, ◌||◌, Option, none, some, List, [], ◌∷◌, map, ◌==◌,
}

pub data Status : Type 0 where
  pending processing done failed : Status

pub data ChangeType : Type 0 where
  added modified deleted : ChangeType

pub record MdChangeState : Type 0 where
  pub md_path : String
  pub kind : String
  pub change_type : ChangeType
  pub mtime : ℕ
  pub first_seen_at : ℕ
  pub last_changed_at : ℕ
  pub lsn : ℕ
  pub status : Status
  pub retryable : Option Bool
  pub last_attempt_at : Option ℕ
  pub retry_count : ℕ
  pub error : Option String

abbrev pub Queue : Type 0
Queue = List MdChangeState

abbrev pub is_pending : Status → Bool
is_pending pending = true
is_pending _ = false

abbrev pub is_processing : Status → Bool
is_processing processing = true
is_processing _ = false

abbrev pub is_done : Status → Bool
is_done done = true
is_done _ = false

abbrev pub is_failed : Status → Bool
is_failed failed = true
is_failed _ = false

-- SQL's `retryable IS TRUE` and `retryable IS FALSE`: NULL passes neither.
abbrev pub is_true : Option Bool → Bool
is_true (some true) = true
is_true _ = false

abbrev pub is_false : Option Bool → Bool
is_false (some false) = true
is_false _ = false

-- `SELECT ... WHERE md_path = ?`
unfoldable pub get : String → Queue → Option MdChangeState
get path [] = none
get path (row ∷ rows) = if row.md_path == path then some row else get path rows

-- `UPDATE md_change_state SET <change> WHERE <test>`
pub update_where : (MdChangeState → Bool) → (MdChangeState → MdChangeState) → Queue → Queue
update_where test change = map (λ row. if test row then change row else row)

-- `INSERT ... ON CONFLICT (md_path) DO UPDATE SET <change>`
pub insert_or_update : MdChangeState → (MdChangeState → MdChangeState) → Queue → Queue
insert_or_update new change [] = new ∷ []
insert_or_update new change (row ∷ rows) =
    if row.md_path == new.md_path then change row ∷ rows else row ∷ insert_or_update new change rows

-- `SELECT coalesce(max(lsn), 0)`
pub max_lsn : Queue → ℕ
max_lsn [] = 0
max_lsn (row ∷ rows) = max row.lsn (max_lsn rows)

pub next_lsn : Queue → ℕ
next_lsn queue = suc (max_lsn queue)

insert_by_lsn : MdChangeState → Queue → Queue
insert_by_lsn new [] = new ∷ []
insert_by_lsn new (row ∷ rows) =
    if leb new.lsn row.lsn then new ∷ row ∷ rows else row ∷ insert_by_lsn new rows

-- `ORDER BY lsn`; rows with one lsn stay in insertion order.
pub order_by_lsn : Queue → Queue
unfolding insert_by_lsn
order_by_lsn [] = []
order_by_lsn (row ∷ rows) = insert_by_lsn row (order_by_lsn rows)

-- 0.01 s
abbrev pub mtime_tolerance : ℕ
mtime_tolerance = 10000000

-- `abs(a - b) < MTIME_TOLERANCE_SECONDS`
abbrev pub mtime_stable : ℕ → ℕ → Bool
mtime_stable a b = ltb ((a - b) + (b - a)) mtime_tolerance

-- The `CASE` on `retry_count`: a failed row whose file is unchanged keeps its count.
abbrev pub carried_retry_count : MdChangeState → ℕ → ℕ
carried_retry_count row new_mtime =
    if is_failed row.status && mtime_stable row.mtime new_mtime then row.retry_count else 0

fresh_row : String → String → ChangeType → ℕ → ℕ → ℕ → MdChangeState
fresh_row path kind change mtime now lsn = record {
  md_path = path;
  kind = kind;
  change_type = change;
  mtime = mtime;
  first_seen_at = now;
  last_changed_at = now;
  lsn = lsn;
  status = pending;
  retryable = none;
  last_attempt_at = none;
  retry_count = 0;
  error = none;
}

requeued_row : String → ChangeType → ℕ → ℕ → ℕ → MdChangeState → MdChangeState
requeued_row kind change mtime now lsn row = record row {
  kind = kind;
  change_type = change;
  mtime = mtime;
  last_changed_at = now;
  lsn = lsn;
  status = pending;
  retryable = none;
  last_attempt_at = none;
  error = none;
  retry_count = carried_retry_count row mtime;
}

-- The write half of `upsert`, with an lsn that has been read.
unfoldable pub write_upsert : ℕ → String → String → ChangeType → ℕ → ℕ → Queue → Queue
unfolding fresh_row requeued_row insert_or_update
write_upsert new_lsn path kind change mtime now queue =
    insert_or_update (fresh_row path kind change mtime now new_lsn)
      (requeued_row kind change mtime now new_lsn) queue

-- The new table and the assigned lsn. The read of the lsn and the write are one step here; for
-- writers that come between the two see Queue/Races.
unfoldable pub upsert : String → String → ChangeType → ℕ → ℕ → Queue → Queue × ℕ
unfolding write_upsert next_lsn
upsert path kind change mtime now queue =
    let new_lsn = next_lsn queue in (write_upsert new_lsn path kind change mtime now queue, new_lsn)

pub force_enqueue : String → String → ℕ → Queue → Queue × ℕ
unfolding upsert
force_enqueue path kind now queue = upsert path kind modified 0 now queue

pub claimed : ℕ → MdChangeState → MdChangeState
claimed now row = record row { status = processing; last_attempt_at = some now }

pub claim_one : String → ℕ → Queue → Queue × Option MdChangeState
unfolding claimed update_where get
claim_one path now queue =
    let test = λ (row : MdChangeState). row.md_path == path && is_pending row.status in
    let after = update_where test (claimed now) queue in
    (after, if eqb (count test queue) 1 then get path after else none)

-- `None` claims every kind.
abbrev pub kind_allowed : Option (List String) → String → Bool
kind_allowed none kind = true
kind_allowed (some kinds) kind = contains kinds kind

-- The rows that `pick_stmt` may select.
abbrev pub eligible : Option (List String) → MdChangeState → Bool
eligible kinds row = is_pending row.status && kind_allowed kinds row.kind

abbrev is_empty_set : Option (List String) → Bool
is_empty_set (some []) = true
is_empty_set _ = false

claim_picks : List String → ℕ → Queue → Queue × List MdChangeState
unfolding claimed update_where order_by_lsn
claim_picks [] now queue = (queue, [])
claim_picks (pick ∷ more) now queue =
    let picks = pick ∷ more in
    let test = λ (row : MdChangeState). contains picks row.md_path && is_pending row.status in
    let after = update_where test (claimed now) queue in
    if eqb (count test queue) 0 then (after, []) else (
      after,
      order_by_lsn (keep (λ row. contains picks row.md_path && is_processing row.status) after),
    )

pub claim_pending_batch : ℕ → Option (List String) → ℕ → Queue → Queue × List MdChangeState
unfolding claim_picks
claim_pending_batch limit kinds now queue =
    if eqb limit 0 || is_empty_set kinds
    then (queue, [])
    else claim_picks
        (map (λ row. row.md_path) (take limit (order_by_lsn (keep (eligible kinds) queue)))) now
        queue

pub mark_done : String → ℕ → Queue → Queue
unfolding update_where
mark_done path now =
    update_where (λ row. row.md_path == path && is_processing row.status)
      (λ row. record row {
        status = done;
        last_attempt_at = some now;
        error = none;
        retryable = none;
      })

pub mark_failed : String → Bool → String → ℕ → ℕ → Queue → Queue
unfolding update_where
mark_failed path retryable error new_retry_count now =
    update_where (λ row. row.md_path == path && is_processing row.status)
      (λ row. record row {
        status = failed;
        retryable = some retryable;
        last_attempt_at = some now;
        error = some error;
        retry_count = new_retry_count;
      })
