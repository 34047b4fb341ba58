-- ===== src/Ome/RunTests.antt =====
-- The theorems on runs at a table of two records.
use ever_os.Prelude.{
  ne-of-test, keep, count, ℕ, ◌+◌, ◌≤◌, String, ◌≡◌, refl, ◌≢◌, true, false, none, some, [], ◌∷◌,
  map, arith,
}
use ever_os.Ome.RunRecord.{
  running, success, failed, dead_letter, RunRecord, RunTable, Start, of_strategy, mark_running,
  mark_failed, mark_dead_letter,
}
use ever_os.Ome.RunRecord.Ring.{UniqueRuns, mark_running-bound}
use ever_os.Ome.RunRecord.Running.{AttemptsBounded}
use ever_os.Ome.Runner.{raised, Run, RunState, run_all}
use ever_os.Ome.Runner.Rest.{Ended, run_ends}

abbrev hanging : RunRecord
hanging = record {
  run_id = "r1";
  strategy_name = "atomic";
  status = running;
  attempt = 0;
  started_at = 10;
  finished_at = none;
  error = none;
  event_topic = "everos.memory.events:EpisodeSaved";
  event_payload = "{}";
  max_retries_snapshot = 2;
  event_id = "e1";
}

abbrev past : RunRecord
past = record hanging { run_id = "r2"; status = success; started_at = 20; finished_at = some 30 }

abbrev runs : RunTable
runs = past ∷ hanging ∷ []

runs-UniqueRuns : UniqueRuns runs
runs-UniqueRuns = ((ne-of-test _ _ refl, tt), (tt, tt))

abbrev third : Start
third = record {
  run_id = "r3";
  strategy_name = "atomic";
  attempt = 0;
  event_topic = "everos.memory.events:EpisodeSaved";
  event_payload = "{}";
  max_retries_snapshot = 2;
  event_id = "e2";
}

-- Of three rows of the strategy the two newest stay.
mark_running-bound_example :
    let after =
      record past {
        run_id = "r3";
        status = running;
        started_at = 40;
        finished_at = none;
        event_id = "e2";
      }
      ∷ past
      ∷ [] in
    (count (of_strategy "atomic") after ≤ 2)
    × UniqueRuns after
    × ((other : String)
        → "atomic" ≢ other
        → keep (of_strategy other) after ≡ keep (of_strategy other) runs)
unfolding mark_running
mark_running-bound_example = mark_running-bound 2 third 40 runs _ runs-UniqueRuns refl

-- The strategy raises at every call; the world is a clock and a source of ids.
abbrev failing_run : Run ℕ
failing_run = record {
  strategy_name = "atomic";
  event_topic = "everos.memory.events:EpisodeSaved";
  event_payload = "{}";
  event_id = "e2";
  max_retries_snapshot = 1;
  max_records = 10;
  func = λ w. (w + 1, raised "timeout");
  get_utc_now = λ w. w;
  uuid = λ w. (w, "r4");
  sleep_backoff = λ attempt w. w + attempt;
  start_write_fails = λ w. false;
  end_write_fails = λ w. false;
  has_on_dead_letter = true;
}

abbrev before : RunState ℕ
before = record { world = 40; runs = runs; dead_letters = [] }

run_ends_example :
    Ended failing_run ("r1" ∷ []) (run_all failing_run "r3" before)
    × AttemptsBounded (run_all failing_run "r3" before).0.runs
run_ends_example =
    run_ends failing_run ("r1" ∷ []) "r3" before ((λ e. cc), ((λ e. refl), tt))
      (omega arith, (omega arith, tt))

-- Tests: a run that fails twice leaves a FAILED and a DEAD_LETTER row and calls back once.
fails_twice :
    map (λ row. row.status) (run_all failing_run "r3" before).0.runs
    ≡ dead_letter ∷ failed ∷ success ∷ running ∷ []
unfolding run_all mark_running mark_failed mark_dead_letter
fails_twice = refl
