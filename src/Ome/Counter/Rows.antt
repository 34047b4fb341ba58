-- ===== src/Ome/Counter/Rows.antt =====
-- What a call of `incr_and_check` does to each row.
use ever_os.Prelude.{
  leb, if◌then◌else◌, ℕ, ◌+◌, String, ◌≡◌, refl, Bool, ◌&&◌, some, [], ◌∷◌, arith, ◌==◌, eq_iff,
}
use ever_os.Ome.Counter.{
  CounterRow, CounterTable, fetch, counter_of, last_passed_of, cooldown_ok, incr_and_check,
  get_progress, store,
}

-- Two keys agree in both parts.
abbrev pub same_key : String → String → String → String → Bool
same_key name bucket name' bucket' = name == name' && bucket == bucket'

-- Seen at any key, a stored row is the one found at its own key, and no other is touched.
fetch-store :
    (new : CounterRow) (name bucket : String) (table : CounterTable)
    → (counter_of (fetch name bucket (store new table)) ≡ (
        if same_key new.strategy_name new.bucket_key name bucket
        then new.counter
        else counter_of (fetch name bucket table)))
      × (last_passed_of (fetch name bucket (store new table)) ≡ (
          if same_key new.strategy_name new.bucket_key name bucket
          then new.last_passed_ts
          else last_passed_of (fetch name bucket table)))
unfolding fetch store
fetch-store new name bucket [] = ground arith
fetch-store new name bucket (row ∷ rows) = ground (
  arith,
  eq_iff row.strategy_name name,
  eq_iff row.strategy_name new.strategy_name,
  eq_iff new.strategy_name name,
  eq_iff row.bucket_key bucket,
  eq_iff row.bucket_key new.bucket_key,
  eq_iff new.bucket_key bucket,
  fetch-store new name bucket rows,
)

pub get_progress_lem :
    (name bucket : String) (table : CounterTable)
    → get_progress name bucket table ≡ counter_of (fetch name bucket table)
unfolding get_progress
get_progress_lem name bucket table = refl

module _ (name bucket : String) (threshold cooldown_seconds now : ℕ) (table : CounterTable) where
  -- What a call leaves at any key: at its own the counter is reset by a pass and counts the call
  -- otherwise, and the time of the last pass follows; another key keeps both.
  pub incr_and_check_lem :
      (name' bucket' : String)
      → let (after, passed, counter) =
          incr_and_check name bucket threshold cooldown_seconds now table in
        (counter_of (fetch name' bucket' after) ≡ (
          if same_key name bucket name' bucket'
          then (if passed then 0 else counter)
          else counter_of (fetch name' bucket' table)))
        × (last_passed_of (fetch name' bucket' after) ≡ (
            if same_key name bucket name' bucket'
            then (if passed then some now else last_passed_of (fetch name bucket table))
            else last_passed_of (fetch name' bucket' table)))
  unfolding incr_and_check
  incr_and_check_lem name' bucket' = fetch-store _ name' bucket' table

  pub incr_and_check-counter :
      (incr_and_check name bucket threshold cooldown_seconds now table).2
      ≡ get_progress name bucket table + 1
  unfolding incr_and_check get_progress
  incr_and_check-counter = refl

  pub incr_and_check-passed :
      (incr_and_check name bucket threshold cooldown_seconds now table).1 ≡ (
        leb threshold (get_progress name bucket table + 1)
        && cooldown_ok (last_passed_of (fetch name bucket table)) cooldown_seconds now)
  unfolding incr_and_check get_progress
  incr_and_check-passed = refl
