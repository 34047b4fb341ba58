-- ===== src/Ome/RunRecord.antt =====
-- The store of run records (src/everos/infra/ome/_stores/run_record.py, records.py). A table is the
-- list of its rows; rows that started at one time are listed newest insertion first.
pub mod Ring
pub mod Running
use ever_os.Prelude.{
  leb, if◌then◌else◌, take, keep, contains, ℕ, String, Bool, true, false, not, ◌&&◌, Option, none,
  some, List, [], ◌∷◌, map, ◌==◌,
}

pub data RunStatus : Type 0 where
  running success failed dead_letter crashed : RunStatus

pub record RunRecord : Type 0 where
  pub run_id : String
  pub strategy_name : String
  pub status : RunStatus
  pub attempt : ℕ
  pub started_at : ℕ
  pub finished_at : Option ℕ
  pub error : Option String
  pub event_topic : String
  pub event_payload : String
  pub max_retries_snapshot : ℕ
  pub event_id : String

abbrev pub RunTable : Type 0
RunTable = List RunRecord

-- What `mark_running` is told about an attempt.
pub record Start : Type 0 where
  pub run_id : String
  pub strategy_name : String
  pub attempt : ℕ
  pub event_topic : String
  pub event_payload : String
  pub max_retries_snapshot : ℕ
  pub event_id : String

abbrev pub has_run_id : String → RunRecord → Bool
has_run_id run_id row = row.run_id == run_id

pub find_run : String → RunTable → Option RunRecord
find_run run_id [] = none
find_run run_id (row ∷ rows) = if has_run_id run_id row then some row else find_run run_id rows

started_row : Start → ℕ → RunRecord
started_row start now = record {
  run_id = start.run_id;
  strategy_name = start.strategy_name;
  status = running;
  attempt = start.attempt;
  started_at = now;
  finished_at = none;
  error = none;
  event_topic = start.event_topic;
  event_payload = start.event_payload;
  max_retries_snapshot = start.max_retries_snapshot;
  event_id = start.event_id;
}

insert_newest : RunRecord → RunTable → RunTable
insert_newest new [] = new ∷ []
insert_newest new (row ∷ rows) =
    if leb row.started_at new.started_at then new ∷ row ∷ rows else row ∷ insert_newest new rows

-- `ORDER BY started_at DESC`
pub newest_first : RunTable → RunTable
unfolding insert_newest
newest_first [] = []
newest_first (row ∷ rows) = insert_newest row (newest_first rows)

abbrev pub of_strategy : String → RunRecord → Bool
of_strategy name row = row.strategy_name == name

-- `DELETE ... WHERE strategy_name = ? AND run_id NOT IN (SELECT ... LIMIT ?)`
pub trim : ℕ → String → RunTable → RunTable
unfolding newest_first
trim max_records name table =
    let kept =
      map (λ row. row.run_id) (take max_records (newest_first (keep (of_strategy name) table))) in
    keep (λ row. not (of_strategy name row && not (contains kept row.run_id))) table

-- `none`: the INSERT fails, since `run_id` is the primary key.
unfoldable pub mark_running : ℕ → Start → ℕ → RunTable → Option RunTable
unfolding find_run started_row trim
mark_running max_records start now table = elim (find_run start.run_id table) [
  | some row ↦ none
  | none ↦ some (trim max_records start.strategy_name (started_row start now ∷ table))
]

abbrev set_status : String → RunStatus → ℕ → Option String → RunRecord → RunRecord
set_status run_id status finished_at error row =
    if has_run_id run_id row
    then record row { status = status; finished_at = some finished_at; error = error }
    else row

-- `_update_status`
unfoldable pub update_status : String → RunStatus → ℕ → Option String → RunTable → RunTable
update_status run_id status finished_at error = map (set_status run_id status finished_at error)

unfoldable pub mark_success : String → ℕ → RunTable → RunTable
unfolding update_status
mark_success run_id finished_at = update_status run_id success finished_at none

unfoldable pub mark_failed : String → ℕ → String → RunTable → RunTable
unfolding update_status
mark_failed run_id finished_at error = update_status run_id failed finished_at (some error)

unfoldable pub mark_dead_letter : String → ℕ → String → RunTable → RunTable
unfolding update_status
mark_dead_letter run_id finished_at error =
    update_status run_id dead_letter finished_at (some error)

unfoldable pub mark_crashed : String → ℕ → String → RunTable → RunTable
unfolding update_status
mark_crashed run_id finished_at error = update_status run_id crashed finished_at (some error)

abbrev pub is_running : RunStatus → Bool
is_running running = true
is_running _ = false

-- The query names no order; the rows come in the order of the table here.
unfoldable pub find_running : RunTable → List RunRecord
find_running = keep (λ row. is_running row.status)
