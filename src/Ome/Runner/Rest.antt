-- ===== src/Ome/Runner/Rest.antt =====
-- What a run leaves behind.
use ever_os.Prelude.{
  ltb, Bool-cases, Option-cases, ℕ, zero, suc, ◌+◌, ◌≤◌, String, ◌≡◌, refl, ◌≢◌, inl, inr, Bool,
  true, false, some, List, ◌∷◌, arith,
}
use ever_os.Ome.RunRecord.{
  success, failed, dead_letter, RunTable, mark_success, mark_failed, mark_dead_letter,
}
use ever_os.Ome.RunRecord.Running.{
  RunningAmong, AttemptsBounded, mark_running-keeps, update_status-keeps,
}
use ever_os.Ome.Runner.{
  StrategyReply, strategy_returned, cancelled, contract_error, raised, Ending, terminated, retry,
  aborted, Run, RunState, record_start, terminate_dead_letter, run_one_attempt, attempts, run_all,
  start_of, settle, next_attempt,
}

abbrev is_retry : Ending → Bool
is_retry retry = true
is_retry _ = false

abbrev is_aborted : Ending → Bool
is_aborted aborted = true
is_aborted _ = false

module _ {World : Type 0} (run : Run World) where
  abbrev Tidy : List String → RunTable → Type 0
  Tidy ids table = RunningAmong ids table × AttemptsBounded table

  dead_letter-Tidy :
      (ids : List String) (run_id error : String) (state : RunState World)
      → Tidy (run_id ∷ ids) state.runs
      → Tidy ids (terminate_dead_letter run run_id error state).runs
  unfolding terminate_dead_letter mark_dead_letter
  dead_letter-Tidy ids run_id error state (r, b) =
      update_status-keeps ids run_id dead_letter _ _ state.runs refl r b

  -- What an ending leaves: a row may still be RUNNING under the attempt's own id where an exception
  -- has left the runner, and only there.
  abbrev Leaves : List String → String → RunTable → Ending → Type 0
  Leaves ids run_id table terminated = Tidy ids table
  Leaves ids run_id table retry = Tidy ids table
  Leaves ids run_id table aborted = Tidy (run_id ∷ ids) table

  abbrev AfterAttempt : List String → String → RunState World × Ending → Type 0
  AfterAttempt ids run_id (state, ending) = Leaves ids run_id state.runs ending

  settle-Leaves :
      (ids : List String) (run_id : String) (attempt : ℕ) (state : RunState World)
      (reply : StrategyReply)
      → Tidy (run_id ∷ ids) state.runs
      → AfterAttempt ids run_id (settle run run_id attempt state reply)
  unfolding settle mark_success mark_failed
  settle-Leaves ids run_id attempt state strategy_returned h =
      elim (Bool-cases (run.end_write_fails state.world)) [
        | inl f ↦ rw f h
        | inr f ↦ rw f (update_status-keeps ids run_id success _ _ state.runs refl h.0 h.1)
      ]
  settle-Leaves ids run_id attempt state cancelled h = h
  settle-Leaves ids run_id attempt state (contract_error error) h =
      elim (Bool-cases (run.end_write_fails state.world)) [
        | inl f ↦ rw f h
        | inr f ↦ rw f (dead_letter-Tidy ids run_id error state h)
      ]
  settle-Leaves ids run_id attempt state (raised error) h =
      elim (Bool-cases (run.end_write_fails state.world)) [
        | inl f ↦ rw f h
        | inr f ↦ elim (Bool-cases (ltb attempt run.max_retries_snapshot)) [
          | inl e ↦ rw (f, e) (update_status-keeps ids run_id failed _ _ state.runs refl h.0 h.1)
          | inr e ↦ rw (f, e) (dead_letter-Tidy ids run_id error state h)
        ]
      ]

  record_start-Tidy :
      (ids : List String) (run_id : String) (attempt : ℕ) (state : RunState World) (runs : RunTable)
      → attempt ≤ run.max_retries_snapshot
      → Tidy ids state.runs
      → record_start run run_id attempt state ≡ some runs
      → Tidy (run_id ∷ ids) runs
  unfolding record_start
  record_start-Tidy ids run_id attempt state runs fits (r, b) e =
      mark_running-keeps ids run.max_records (start_of run run_id attempt)
        (run.get_utc_now state.world) state.runs runs fits r b (ground (arith, e))

  run_one_attempt-Leaves :
      (ids : List String) (run_id : String) (attempt : ℕ) (state : RunState World)
      → attempt ≤ run.max_retries_snapshot
      → Tidy ids state.runs
      → AfterAttempt ids run_id (run_one_attempt run run_id attempt state)
  unfolding run_one_attempt
  run_one_attempt-Leaves ids run_id attempt state fits h =
      elim (Option-cases (record_start run run_id attempt state)) [
        | inl e ↦ rw (e, run_one_attempt) h
        | inr (runs, e) ↦
            rw (e, run_one_attempt)
              (settle-Leaves ids run_id attempt _ (run.func state.world).1
                (record_start-Tidy ids run_id attempt state runs fits h e))
      ]

  settle-ends :
      (run_id : String) (attempt : ℕ) (state : RunState World) (reply : StrategyReply)
      → run.max_retries_snapshot ≤ attempt
      → is_retry (settle run run_id attempt state reply).1 ≡ false
  unfolding settle
  settle-ends run_id attempt state strategy_returned last = ground arith
  settle-ends run_id attempt state cancelled last = refl
  settle-ends run_id attempt state (contract_error error) last = ground arith
  settle-ends run_id attempt state (raised error) last = ground arith

  -- The attempt after the last retry asks for no other.
  run_one_attempt-ends :
      (run_id : String) (attempt : ℕ) (state : RunState World)
      → run.max_retries_snapshot ≤ attempt
      → is_retry (run_one_attempt run run_id attempt state).1 ≡ false
  unfolding run_one_attempt
  run_one_attempt-ends run_id attempt state last =
      elim (Option-cases (record_start run run_id attempt state)) [
        | inl e ↦ rw (e, run_one_attempt) refl
        | inr (runs, e) ↦
            rw (e, run_one_attempt) (settle-ends run_id attempt _ (run.func state.world).1 last)
      ]

  -- What a run leaves. With its end nothing of its own is RUNNING. Where an exception leaves the
  -- runner, one more row may be, and asking for a retry is no end.
  abbrev pub Ended : List String → RunState World × Ending → Type 0
  Ended ids (state, terminated) = RunningAmong ids state.runs
  Ended ids (state, aborted) = (last_id : String) × RunningAmong (last_id ∷ ids) state.runs
  Ended ids (state, retry) = ⊥

  abbrev EndedTidy : List String → RunState World × Ending → Type 0
  EndedTidy ids after = Ended ids after × AttemptsBounded after.0.runs

  ended_last :
      (ids : List String) (run_id : String) (after : RunState World × Ending)
      → AfterAttempt ids run_id after
      → is_retry after.1 ≡ false
      → EndedTidy ids after
  ended_last ids run_id (state, terminated) h n = h
  ended_last ids run_id (state, aborted) h n = ((run_id, h.0), h.1)
  ended_last ids run_id (state, retry) h n = cc

  ended_with_rest :
      (ids : List String) (run_id : String) (after rest : RunState World × Ending)
      → AfterAttempt ids run_id after
      → (Tidy ids after.0.runs → EndedTidy ids rest)
      → EndedTidy ids (elim after.1 [
        | terminated ↦ (after.0, terminated)
        | aborted ↦ (after.0, aborted)
        | retry ↦ rest
      ])
  ended_with_rest ids run_id (state, terminated) rest h go = h
  ended_with_rest ids run_id (state, aborted) rest h go = ((run_id, h.0), h.1)
  ended_with_rest ids run_id (state, retry) rest h go = go h

  attempts_lem :
      (ids : List String) (left attempt : ℕ) (run_id : String) (state : RunState World)
      → attempt + left ≡ run.max_retries_snapshot
      → Tidy ids state.runs
      → EndedTidy ids (attempts run left attempt run_id state)
  unfolding attempts next_attempt
  attempts_lem ids zero attempt run_id state total h =
      ended_last ids run_id (run_one_attempt run run_id attempt state)
        (run_one_attempt-Leaves ids run_id attempt state (omega arith) h)
        (run_one_attempt-ends run_id attempt state (omega arith))
  attempts_lem ids (suc left) attempt run_id state total h =
      let after = run_one_attempt run run_id attempt state in
      let (slept, next_id) = next_attempt run (attempt + 1) after.0 in
      ended_with_rest ids run_id after (attempts run left (attempt + 1) next_id slept)
        (run_one_attempt-Leaves ids run_id attempt state (omega arith) h)
        (λ tidy. attempts_lem ids left (attempt + 1) next_id slept (omega arith) tidy)

  -- No write at the end of an attempt fails, and no call is cancelled.
  abbrev Whole : Type 0
  Whole = ((w : World) → run.end_write_fails w ≡ false) × ((w : World) → (run.func w).1 ≢ cancelled)

  -- A run comes to an end within its attempts, whether the strategy returns, raises or is
  -- cancelled and whether the writes of the runner succeed or fail. If every row that was RUNNING
  -- before has one of some ids, then so has every row that is RUNNING afterwards when the run has
  -- reached its end; when an exception has left the runner, from a failed write at the end of an
  -- attempt or a cancellation, the rows of one more id may be RUNNING. If no attempt beyond its
  -- retries was recorded before, none is recorded by the run.
  pub run_ends :
      (ids : List String) (run_id : String) (state : RunState World)
      → RunningAmong ids state.runs
      → AttemptsBounded state.runs
      → Ended ids (run_all run run_id state) × AttemptsBounded (run_all run run_id state).0.runs
  unfolding run_all
  run_ends ids run_id state r b =
      attempts_lem ids run.max_retries_snapshot 0 run_id state (omega arith) (r, b)
