-- ===== src/Cascade/Supervise/Restarts.antt =====
-- When the supervision gives up.
use ever_os.Prelude.{
  ltb, Bool-cases, is_some, count, All, ℕ, zero, suc, ◌-◌, ◌≤◌, min, ◌≡◌, refl, inl, inr, Bool,
  true, false, ◌||◌, Option, some, List, [], ◌∷◌, arith,
}
use ever_os.Cascade.Supervise.{
  BodyEnd, body_returned, body_cancelled, body_raised, Round, SuperviseEnd, exit_requested,
  loop_stable_run, budget, strike, is_stopped, supervise, waits_before,
}

-- The body raised before it had run for long enough.
abbrev pub is_quick_crash : Round → Bool
is_quick_crash round = elim round.body [
  | body_returned ↦ false
  | body_cancelled ↦ false
  | body_raised ran ↦ ltb ran loop_stable_run
]

abbrev pub is_exit : SuperviseEnd → Bool
is_exit exit_requested = true
is_exit _ = false

exit_lem :
    (rounds : List Round) (strikes : ℕ)
    → strikes ≤ budget
    → is_exit (supervise strikes rounds).0 ≡ true
    → min 3 (4 - strikes) ≤ count is_quick_crash rounds
unfolding supervise
exit_lem [] strikes low e = ground arith
exit_lem (round ∷ rounds) strikes low e = go round.body refl (λ s. exit_lem rounds s)
  where
    go :
        (body : BodyEnd)
        → round.body ≡ body
        → ((s : ℕ)
            → s ≤ budget
            → is_exit (supervise s rounds).0 ≡ true
            → min 3 (4 - s) ≤ count is_quick_crash rounds)
        → min 3 (4 - strikes) ≤ count is_quick_crash (round ∷ rounds)
    go body_returned b ih = ground (arith, b)
    go body_cancelled b ih = ground (arith, b)
    go (body_raised ran) b ih = ground (arith, b, ih (strike strikes ran))

-- The process is asked to exit only after three crashes of a body that had not run for a minute:
-- crashes after longer runs, however many, never end it.
pub exit_needs_quick_crashes :
    (rounds : List Round) → is_exit (supervise 0 rounds).0 ≡ true → 3 ≤ count is_quick_crash rounds
exit_needs_quick_crashes rounds e = omega (arith, exit_lem rounds 0 (omega arith) e)

abbrev HasEntry : List (Option ℕ) → Type 0
HasEntry = All (λ wait. is_some wait ≡ true)

waits_before_lem :
    (strikes : ℕ) (waits : List (Option ℕ))
    → strikes ≤ budget
    → HasEntry waits
    → HasEntry (waits_before strikes waits)
waits_before_lem zero waits low h = h
waits_before_lem (suc zero) waits low h = (refl, h)
waits_before_lem (suc (suc zero)) waits low h = (refl, h)
waits_before_lem (suc (suc (suc zero))) waits low h = (refl, h)
waits_before_lem (suc (suc (suc (suc n)))) waits low h = absurd (omega arith)

-- Started with at most three strikes, every wait before a restart finds its entry in the tuple of
-- backoffs, whatever happens to the body: the index is never out of range.
pub waits_have_entries :
    (rounds : List Round) (strikes : ℕ)
    → strikes ≤ budget
    → All (λ wait. is_some wait ≡ true) (supervise strikes rounds).1
unfolding supervise
waits_have_entries [] strikes low = tt
waits_have_entries (round ∷ rounds) strikes low =
    go round.body refl (λ s. waits_have_entries rounds s)
  where
    alone : HasEntry (waits_before strikes [])
    alone = waits_before_lem strikes [] low tt

    go :
        (body : BodyEnd)
        → round.body ≡ body
        → ((s : ℕ) → s ≤ budget → HasEntry (supervise s rounds).1)
        → HasEntry (supervise strikes (round ∷ rounds)).1
    go body_returned b ih = rw b alone
    go body_cancelled b ih = rw b alone
    go (body_raised ran) b ih = rw b (elim (Bool-cases (is_stopped strikes round)) [
      | inl e ↦ rw e alone
      | inr e ↦ rw e (elim (Bool-cases (ltb budget (strike strikes ran))) [
        | inl t ↦ rw t alone
        | inr t ↦ rw t (waits_before_lem strikes _ low (ih (strike strikes ran) (ground arith)))
      ])
    ])

-- A body that crashes four times in a row, each time before a minute has passed and with no stop
-- in between, is started four times, with waits of 5, 15 and 45 seconds, and then the process is
-- asked to exit.
pub crash_loop_exits :
    (first second third fourth : Round) (rest : List Round)
    → All (λ r. is_quick_crash r ≡ true) (first ∷ second ∷ third ∷ fourth ∷ [])
    → All (λ r. (r.stopped_in_wait || r.stop_is_set) ≡ false) (first ∷ second ∷ third ∷ fourth ∷ [])
    → supervise 0 (first ∷ second ∷ third ∷ fourth ∷ rest)
      ≡ (exit_requested, some 5 ∷ some 15 ∷ some 45 ∷ [])
unfolding supervise
crash_loop_exits first second third fourth rest quick free = ground arith
