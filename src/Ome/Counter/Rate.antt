-- ===== src/Ome/Counter/Rate.antt =====
-- How often a gate passes, over any interleaving of checks by all strategies and buckets.
use ever_os.Prelude.{
  leb, if◌then◌else◌, Bool-cases, count, All, ℕ, suc, ◌+◌, ◌*◌, ◌≤◌, ◌<◌, String, ◌≡◌, refl, ap,
  ◌∙◌, inl, inr, Bool, true, false, ◌&&◌, Option, some, List, [], ◌∷◌, arith, eq_iff,
}
use ever_os.Ome.Counter.{
  CounterTable, fetch, counter_of, last_passed_of, microseconds, cooldown_ok, incr_and_check,
}
use ever_os.Ome.Counter.Rows.{
  same_key, get_progress_lem, incr_and_check_lem, incr_and_check-counter, incr_and_check-passed,
}

-- One call of `incr_and_check`, with the time at which it runs.
pub record GateCheck : Type 0 where
  pub strategy_name : String
  pub bucket_key : String
  pub threshold : ℕ
  pub cooldown_seconds : ℕ
  pub now : ℕ

abbrev pub check_one : GateCheck → CounterTable → CounterTable × Bool × ℕ
check_one c table =
    incr_and_check c.strategy_name c.bucket_key c.threshold c.cooldown_seconds c.now table

abbrev pub run_checks : List GateCheck → CounterTable → CounterTable
run_checks [] table = table
run_checks (c ∷ cs) table = run_checks cs (check_one c table).0

-- The account of one check: it counts for a pass or for the counter, which stays below.
account_step :
    (here passed : Bool) (threshold p prog next last k : ℕ)
    → (here ≡ true → passed ≡ leb threshold (prog + 1))
    → prog < threshold
    → next ≡ (if here then (if passed then 0 else prog + 1) else prog)
    → p * threshold + last ≡ next + k
    → (if here && passed then suc p else p) * threshold + last ≡ prog + (if here then suc k else k)
account_step true true threshold p prog next last k t low n e = ground (arith, t refl)
account_step true false threshold p prog next last k t low n e = ground (arith, t refl)
account_step false passed threshold p prog next last k t low n e = ground arith

stays_low :
    (here passed : Bool) (threshold prog next : ℕ)
    → (here ≡ true → passed ≡ leb threshold (prog + 1))
    → prog < threshold
    → next ≡ (if here then (if passed then 0 else prog + 1) else prog)
    → next < threshold
stays_low true true threshold prog next t low n = ground (arith, t refl)
stays_low true false threshold prog next t low n = ground (arith, t refl)
stays_low false passed threshold prog next t low n = ground arith

-- A pass comes no earlier than the cooldown after the one before.
space_step :
    (here passed : Bool) (before : Option ℕ) (threshold count cooldown_seconds now start : ℕ)
    → (here ≡ true → passed ≡ (leb threshold count && cooldown_ok before cooldown_seconds now))
    → before ≡ some start
    → 0 < cooldown_seconds
    → (here && passed) ≡ true
    → start + microseconds cooldown_seconds ≤ now
space_step true passed before threshold count cooldown_seconds now start t at some_wait e =
    ground (arith, t refl)
space_step false passed before threshold count cooldown_seconds now start t at some_wait e = cc

module _ (name bucket : String) where
  abbrev pub is_here : GateCheck → Bool
  is_here c = same_key c.strategy_name c.bucket_key name bucket

  -- The checks of this bucket that pass.
  abbrev pub passes : List GateCheck → CounterTable → ℕ
  passes [] table = 0
  passes (c ∷ cs) table =
      let rest = passes cs (check_one c table).0 in
      if is_here c && (check_one c table).1 then suc rest else rest

  abbrev pub progress : CounterTable → ℕ
  progress table = counter_of (fetch name bucket table)

  abbrev pub last_pass : CounterTable → Option ℕ
  last_pass table = last_passed_of (fetch name bucket table)

  -- One check, seen at this bucket.
  check_one-progress :
      (c : GateCheck) (table : CounterTable)
      → progress (check_one c table).0 ≡ (
          if is_here c
          then (if (check_one c table).1 then 0 else progress table + 1)
          else progress table)
  check_one-progress c table = ground (
    arith,
    eq_iff c.strategy_name name,
    eq_iff c.bucket_key bucket,
    (incr_and_check_lem c.strategy_name c.bucket_key c.threshold c.cooldown_seconds c.now table name
        bucket).0,
    incr_and_check-counter c.strategy_name c.bucket_key c.threshold c.cooldown_seconds c.now table,
    get_progress_lem c.strategy_name c.bucket_key table,
  )

  check_one-last_pass :
      (c : GateCheck) (table : CounterTable)
      → last_pass (check_one c table).0
        ≡ (if is_here c && (check_one c table).1 then some c.now else last_pass table)
  check_one-last_pass c table = ground (
    arith,
    eq_iff c.strategy_name name,
    eq_iff c.bucket_key bucket,
    (incr_and_check_lem c.strategy_name c.bucket_key c.threshold c.cooldown_seconds c.now table name
        bucket).1,
  )

  check_one-passed :
      (c : GateCheck) (table : CounterTable)
      → is_here c ≡ true
      → (check_one c table).1 ≡ (
          leb c.threshold (progress table + 1)
          && cooldown_ok (last_pass table) c.cooldown_seconds c.now)
  check_one-passed c table here = ground (
    arith,
    eq_iff c.strategy_name name,
    eq_iff c.bucket_key bucket,
    incr_and_check-passed c.strategy_name c.bucket_key c.threshold c.cooldown_seconds c.now table,
    get_progress_lem c.strategy_name c.bucket_key table,
  )

  -- Where all checks of a bucket have one threshold and no cooldown, and its counter starts below
  -- the threshold, the gate passes once in every `threshold` checks of its bucket: each check is
  -- either counted by a pass or stands in the counter, which stays below the threshold, whatever
  -- other strategies and buckets do in between.
  pub threshold_rate :
      (threshold : ℕ)
      → (checks : List GateCheck) (table : CounterTable)
      → All (λ c. is_here c ≡ true → (c.threshold ≡ threshold) × (c.cooldown_seconds ≡ 0)) checks
      → progress table < threshold
      → (passes checks table * threshold + progress (run_checks checks table)
          ≡ progress table + count is_here checks)
        × (progress (run_checks checks table) < threshold)
  threshold_rate threshold [] table same low = (omega arith, low)
  threshold_rate threshold (c ∷ cs) table same low =
      let next = (check_one c table).0 in
      let step = check_one-progress c table in
      let low' = stays_low (is_here c) _ threshold _ _ passed low step in
      let (account, below) = threshold_rate threshold cs next same.1 low' in
      (
        account_step (is_here c) _ threshold (passes cs next) _ _ (progress (run_checks cs next))
            (count is_here cs) passed low step account,
        below,
      )
    where
      passed : is_here c ≡ true → (check_one c table).1 ≡ leb threshold (progress table + 1)
      passed here = ground (arith, same.0 here, check_one-passed c table here)

  -- Where all checks of a bucket have one positive cooldown and a last pass is recorded, passes of
  -- the bucket are spaced: from the last pass before the checks to the last one after them, each
  -- pass takes at least the cooldown, at whatever times the checks are made.
  pub cooldown_spacing :
      (cooldown_seconds : ℕ)
      → 0 < cooldown_seconds
      → (checks : List GateCheck) (table : CounterTable) (start : ℕ)
      → All (λ c. is_here c ≡ true → c.cooldown_seconds ≡ cooldown_seconds) checks
      → last_pass table ≡ some start
      → (last : ℕ) × (last_pass (run_checks checks table) ≡ some last)
        × (start + passes checks table * microseconds cooldown_seconds ≤ last)
  cooldown_spacing cooldown_seconds some_wait [] table start same at = (start, at, omega arith)
  cooldown_spacing cooldown_seconds some_wait (c ∷ cs) table start same at =
      elim (Bool-cases (is_here c && (check_one c table).1)) [
        | inl e ↦
            let (last, at', le) =
              cooldown_spacing cooldown_seconds some_wait cs (check_one c table).0 c.now same.1 (
                check_one-last_pass c table
                ∙ ap (λ b. if b then some c.now else last_pass table) e) in
            let wait =
              space_step (is_here c) (check_one c table).1 (last_pass table) c.threshold
                (progress table + 1) cooldown_seconds c.now start
                (λ here.
                  check_one-passed c table here
                  ∙ ap
                      (λ s.
                        leb c.threshold (progress table + 1)
                        && cooldown_ok (last_pass table) s c.now)
                      (same.0 here))
                at some_wait e in
            (last, at', rw e (omega (arith, wait, le)))
        | inr e ↦
            let (last, at', le) =
              cooldown_spacing cooldown_seconds some_wait cs (check_one c table).0 start same.1 (
                check_one-last_pass c table
                ∙ ap (λ b. if b then some c.now else last_pass table) e
                ∙ at) in
            (last, at', rw e le)
      ]
