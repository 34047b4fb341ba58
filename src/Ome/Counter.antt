-- ===== src/Ome/Counter.antt =====
-- The store of the Counter gate (src/everos/infra/ome/_stores/counter.py): one row per strategy and
-- bucket. Times are in microseconds; each call is one transaction.
pub mod Rows
pub mod Rate
use ever_os.Prelude.{
  leb, eqb, if◌then◌else◌, ℕ, ◌+◌, ◌*◌, String, Bool, true, ◌&&◌, ◌||◌, Option, none, some, List,
  [], ◌∷◌, ◌==◌,
}

pub record CounterRow : Type 0 where
  pub strategy_name : String
  pub bucket_key : String
  pub counter : ℕ
  pub last_passed_ts : Option ℕ

abbrev pub CounterTable : Type 0
CounterTable = List CounterRow

abbrev pub has_key : String → String → CounterRow → Bool
has_key name bucket row = row.strategy_name == name && row.bucket_key == bucket

-- `SELECT ... WHERE strategy_name = ? AND bucket_key = ?`
unfoldable pub fetch : String → String → CounterTable → Option CounterRow
fetch name bucket [] = none
fetch name bucket (row ∷ rows) =
    if has_key name bucket row then some row else fetch name bucket rows

-- `INSERT ... ON CONFLICT (strategy_name, bucket_key) DO UPDATE`
store : CounterRow → CounterTable → CounterTable
store new [] = new ∷ []
store new (row ∷ rows) =
    if has_key new.strategy_name new.bucket_key row
    then record row { counter = new.counter; last_passed_ts = new.last_passed_ts } ∷ rows
    else row ∷ store new rows

-- The counter's value in a fetched row, 0 without a row.
abbrev pub counter_of : Option CounterRow → ℕ
counter_of none = 0
counter_of (some row) = row.counter

abbrev pub last_passed_of : Option CounterRow → Option ℕ
last_passed_of none = none
last_passed_of (some row) = row.last_passed_ts

abbrev pub microseconds : ℕ → ℕ
microseconds seconds = seconds * 1000000

-- `now - last_passed >= timedelta(seconds=cooldown_seconds)`, where there is a last pass.
abbrev pub elapsed : Option ℕ → ℕ → ℕ → Bool
elapsed none cooldown_seconds now = true
elapsed (some last_passed) cooldown_seconds now =
    leb (last_passed + microseconds cooldown_seconds) now

abbrev pub cooldown_ok : Option ℕ → ℕ → ℕ → Bool
cooldown_ok last_passed cooldown_seconds now =
    eqb cooldown_seconds 0 || elapsed last_passed cooldown_seconds now

-- The new table, whether the gate passes, and the counter at the moment of the check.
pub incr_and_check : String → String → ℕ → ℕ → ℕ → CounterTable → CounterTable × Bool × ℕ
unfolding fetch store
incr_and_check name bucket threshold cooldown_seconds now table =
    let row = fetch name bucket table in
    let counter = counter_of row + 1 in
    let last_passed = last_passed_of row in
    let passed = leb threshold counter && cooldown_ok last_passed cooldown_seconds now in
    (
      store
          (record {
            strategy_name = name;
            bucket_key = bucket;
            counter = if passed then 0 else counter;
            last_passed_ts = if passed then some now else last_passed;
          })
          table,
      passed,
      counter,
    )

unfoldable pub get_progress : String → String → CounterTable → ℕ
unfolding fetch
get_progress name bucket table = counter_of (fetch name bucket table)
