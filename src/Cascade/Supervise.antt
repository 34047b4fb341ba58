-- ===== src/Cascade/Supervise.antt =====
-- The supervision of the worker's loops (src/everos/memory/cascade/worker.py, `_supervise`). Times
-- are in seconds. What happens to the loop's body is a list of rounds, one for each start of it.
pub mod Restarts
mod Tests
use ever_os.Prelude.{
  ltb, leb, if◌then◌else◌, length, ℕ, zero, suc, ◌+◌, Bool, ◌&&◌, ◌||◌, Option, List, [], ◌∷◌,
}
use ever_os.Cascade.Optimizer.{backoff_at}

-- How the body ends: it returns, is cancelled, or raises after a time.
pub data BodyEnd : Type 0 where
  body_returned body_cancelled : BodyEnd
  body_raised : (ran : ℕ) → BodyEnd

-- One round of the loop: whether a stop comes during the wait before it, whether a stop is set when
-- the body would start, and how the body ends.
pub record Round : Type 0 where
  pub stopped_in_wait : Bool
  pub stop_is_set : Bool
  pub body : BodyEnd

-- How `_supervise` ends; `running`: the rounds are over and it goes on.
pub data SuperviseEnd : Type 0 where
  stopped finished was_cancelled exit_requested running : SuperviseEnd

-- 5 s, 15 s and 45 s
abbrev pub loop_restart_backoffs : List ℕ
loop_restart_backoffs = 5 ∷ 15 ∷ 45 ∷ []

abbrev pub loop_stable_run : ℕ
loop_stable_run = 60

abbrev pub budget : ℕ
budget = length loop_restart_backoffs

-- The strikes after a crash.
abbrev pub strike : ℕ → ℕ → ℕ
strike strikes ran = (if leb loop_stable_run ran then 0 else strikes) + 1

-- The entry of the tuple that a wait reads; `none` where the index is out of range.
abbrev waits_before : ℕ → List (Option ℕ) → List (Option ℕ)
waits_before zero waits = waits
waits_before (suc i) waits = backoff_at loop_restart_backoffs i ∷ waits

abbrev pub is_stopped : ℕ → Round → Bool
is_stopped strikes round = (ltb 0 strikes && round.stopped_in_wait) || round.stop_is_set

-- How it ends, and the waits before its rounds.
pub supervise : ℕ → List Round → SuperviseEnd × List (Option ℕ)
supervise strikes [] = (running, [])
supervise strikes (round ∷ rounds) = elim round.body [
  | body_returned ↦
      (if is_stopped strikes round then stopped else finished, waits_before strikes [])
  | body_cancelled ↦
      (if is_stopped strikes round then stopped else was_cancelled, waits_before strikes [])
  | body_raised ran ↦
      let rest = supervise (strike strikes ran) rounds in
      if is_stopped strikes round
      then (stopped, waits_before strikes [])
      else if ltb budget (strike strikes ran)
      then (exit_requested, waits_before strikes [])
      else (rest.0, waits_before strikes rest.1)
]
