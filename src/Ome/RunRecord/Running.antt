-- ===== src/Ome/RunRecord/Running.antt =====
-- Which rows are RUNNING, and which attempts are recorded.
use ever_os.Prelude.{
  Bool-cases, Option-cases, take, keep, All, All-keep, All-imp, contains, ℕ, ◌≤◌, String, ◌≡◌,
  subst, inl, inr, true, false, not, ◌&&◌, Option, some, List, [], ◌∷◌, map, arith, eq_iff, eq_refl,
}
use ever_os.Ome.RunRecord.{
  RunStatus, RunRecord, RunTable, Start, has_run_id, find_run, newest_first, of_strategy, trim,
  mark_running, update_status, is_running, started_row,
}

-- Every RUNNING row has one of these ids.
abbrev pub RunningAmong : List String → RunTable → Type 0
RunningAmong ids = All (λ row. is_running row.status ≡ true → contains ids row.run_id ≡ true)

-- No row has an attempt beyond its retries.
abbrev pub AttemptsBounded : RunTable → Type 0
AttemptsBounded = All (λ row. row.attempt ≤ row.max_retries_snapshot)

All-trim :
    (P : RunRecord → Type 0) (max_records : ℕ) (name : String) (table : RunTable)
    → All P table
    → All P (trim max_records name table)
unfolding trim
All-trim P max_records name table h =
    All-keep P
      (λ row. not (
        of_strategy name row
        && not (
            contains
              (map (λ r. r.run_id)
                (take max_records (newest_first (keep (of_strategy name) table))))
              row.run_id)))
      table h

pub mark_running-keeps :
    (ids : List String) (max_records : ℕ) (start : Start) (now : ℕ) (table after : RunTable)
    → start.attempt ≤ start.max_retries_snapshot
    → RunningAmong ids table
    → AttemptsBounded table
    → mark_running max_records start now table ≡ some after
    → RunningAmong (start.run_id ∷ ids) after × AttemptsBounded after
unfolding mark_running started_row
mark_running-keeps ids max_records start now table after fits r b e =
    elim (Option-cases (find_run start.run_id table)) [
      | inr (row, taken) ↦ absurd (ground (arith, taken, e))
      | inl free ↦
          let rows = started_row start now ∷ table in
          let same : trim max_records start.strategy_name rows ≡ after = ground (arith, free, e) in
          subst (λ t. RunningAmong (start.run_id ∷ ids) t × AttemptsBounded t) same
            (
              All-trim
                  (λ row.
                    is_running row.status ≡ true → contains (start.run_id ∷ ids) row.run_id ≡ true)
                  max_records start.strategy_name rows
                  (
                    λ h. ground (arith, eq_refl start.run_id),
                    All-imp _ _ table (λ row f h. ground (arith, f h)) r,
                  ),
              All-trim (λ row. row.attempt ≤ row.max_retries_snapshot) max_records
                  start.strategy_name rows (fits, b),
            )
    ]

pub update_status-keeps :
    (ids : List String) (run_id : String) (status : RunStatus) (now : ℕ) (error : Option String)
    (table : RunTable)
    → is_running status ≡ false
    → RunningAmong (run_id ∷ ids) table
    → AttemptsBounded table
    → RunningAmong ids (update_status run_id status now error table)
      × AttemptsBounded (update_status run_id status now error table)
unfolding update_status
update_status-keeps ids run_id status now error [] ended r b = (tt, tt)
update_status-keeps ids run_id status now error (row ∷ rows) ended r b =
    let (r', b') = update_status-keeps ids run_id status now error rows ended r.1 b.1 in
    elim (Bool-cases (has_run_id run_id row)) [
      | inl e ↦ rw e ((λ h. absurd (ground (arith, h, ended)), r'), (b.0, b'))
      | inr e ↦ rw e (
        (λ h. ground (arith, e, r.0 h, eq_iff run_id row.run_id, eq_iff row.run_id run_id), r'),
        (b.0, b'),
      )
    ]
