-- ===== src/Cascade/Supervise/Tests.antt =====
-- The theorems on the supervision at a body that crashes.
use ever_os.Prelude.{count, ℕ, ◌≤◌, ◌≡◌, refl, false, some, List, [], ◌∷◌}
use ever_os.Cascade.Supervise.{body_raised, Round, exit_requested, supervise}
use ever_os.Cascade.Supervise.Restarts.{is_quick_crash, exit_needs_quick_crashes, crash_loop_exits}

abbrev crash_after : ℕ → Round
crash_after ran = record { stopped_in_wait = false; stop_is_set = false; body = body_raised ran }

abbrev crashes : List Round
crashes =
    crash_after 300
    ∷ crash_after 2
    ∷ crash_after 90
    ∷ crash_after 1
    ∷ crash_after 0
    ∷ crash_after 3
    ∷ []

exit_needs_quick_crashes_example : 3 ≤ count is_quick_crash crashes
unfolding supervise
exit_needs_quick_crashes_example = exit_needs_quick_crashes crashes refl

crash_loop_exits_example :
    supervise 0 (crash_after 1 ∷ crash_after 0 ∷ crash_after 2 ∷ crash_after 0 ∷ [])
    ≡ (exit_requested, some 5 ∷ some 15 ∷ some 45 ∷ [])
crash_loop_exits_example =
    crash_loop_exits (crash_after 1) (crash_after 0) (crash_after 2) (crash_after 0) []
      (refl, (refl, (refl, (refl, tt)))) (refl, (refl, (refl, (refl, tt))))
