-- ===== src/Ome/RunRecord/Ring.antt =====
-- The ring buffer: what `mark_running` keeps of each strategy.
use ever_os.Prelude.{
  Bool-cases, Option-cases, test-of-ne, length, take, keep, count, length-take, All, All-keep,
  contains, ℕ, ◌+◌, ◌≤◌, String, ◌≡◌, refl, ◌∙◌, subst, ◌≢◌, inl, inr, Bool, false, not, ◌&&◌, ◌||◌,
  none, some, List, [], ◌∷◌, map, arith, ◌==◌, eq_iff,
}
use ever_os.Ome.RunRecord.{
  RunRecord, RunTable, Start, has_run_id, find_run, newest_first, of_strategy, trim, mark_running,
  started_row,
}

-- No two rows share a run id.
abbrev pub UniqueRuns : RunTable → Type 0
UniqueRuns [] = Unit
UniqueRuns (row ∷ rows) = All (λ other. other.run_id ≢ row.run_id) rows × UniqueRuns rows

-- A run id stands in at most one row.
count-has_run_id :
    (run_id : String) (table : RunTable) → UniqueRuns table → count (has_run_id run_id) table ≤ 1
count-has_run_id run_id [] u = omega arith
count-has_run_id run_id (row ∷ rows) u = elim (Bool-cases (has_run_id run_id row)) [
  | inl e ↦
      let gone =
        absent rows (
          subst (λ r. All (λ other. other.run_id ≢ r) rows) ((eq_iff row.run_id run_id).0 e) u.0) in
      rw e (omega (arith, gone))
  | inr e ↦ rw e (count-has_run_id run_id rows u.1)
]
  where
    absent :
        (others : RunTable)
        → All (λ other. other.run_id ≢ run_id) others
        → count (has_run_id run_id) others ≡ 0
    absent [] h = refl
    absent (o ∷ os) h = ground (arith, test-of-ne o.run_id run_id h.0, absent os h.1)

count-or :
    (p q : RunRecord → Bool) (table : RunTable)
    → count (λ row. p row || q row) table ≤ count p table + count q table
count-or p q [] = omega arith
count-or p q (row ∷ rows) = ground (arith, count-or p q rows)

count-none : (table : RunTable) → count (λ (row : RunRecord). false) table ≡ 0
count-none [] = refl
count-none (row ∷ rows) = count-none rows

-- A list of run ids selects at most as many rows as it has entries.
count-contains :
    (ids : List String) (table : RunTable)
    → UniqueRuns table
    → count (λ row. contains ids row.run_id) table ≤ length ids
count-contains [] table u = omega (arith, count-none table)
count-contains (id ∷ ids) table u = omega (
  arith,
  count-or (λ row. id == row.run_id) (λ row. contains ids row.run_id) table,
  count-flip table,
  count-has_run_id id table u,
  count-contains ids table u,
)
  where
    count-flip :
        (rows : RunTable) → count (λ row. id == row.run_id) rows ≡ count (has_run_id id) rows
    count-flip [] = refl
    count-flip (row ∷ rows) =
        ground (arith, eq_iff id row.run_id, eq_iff row.run_id id, count-flip rows)

-- The rows of one strategy that a trim keeps are among the listed ones.
count-kept :
    (name : String) (ids : List String) (table : RunTable)
    → count
        (of_strategy name)
        (keep (λ row. not (of_strategy name row && not (contains ids row.run_id))) table)
      ≤ count (λ row. contains ids row.run_id) table
count-kept name ids [] = omega arith
count-kept name ids (row ∷ rows) = ground (arith, count-kept name ids rows)

keep-others :
    (name other : String) (ids : List String) (table : RunTable)
    → name ≢ other
    → keep
        (of_strategy other)
        (keep (λ row. not (of_strategy name row && not (contains ids row.run_id))) table)
      ≡ keep (of_strategy other) table
keep-others name other ids [] ne = refl
keep-others name other ids (row ∷ rows) ne = ground (
  arith,
  eq_iff row.strategy_name name,
  eq_iff row.strategy_name other,
  keep-others name other ids rows,
)

UniqueRuns-keep :
    (p : RunRecord → Bool) (table : RunTable) → UniqueRuns table → UniqueRuns (keep p table)
UniqueRuns-keep p [] u = u
UniqueRuns-keep p (row ∷ rows) u =
    ground (arith, All-keep (λ o. o.run_id ≢ row.run_id) p rows u.0, UniqueRuns-keep p rows u.1)

unused :
    (run_id : String) (table : RunTable)
    → find_run run_id table ≡ none
    → All (λ other. other.run_id ≢ run_id) table
unfolding find_run
unused run_id [] e = tt
unused run_id (row ∷ rows) e = ground (arith, eq_iff row.run_id run_id, unused run_id rows)

length-ids : (rows : RunTable) → length (map (λ row. row.run_id) rows) ≡ length rows
length-ids [] = refl
length-ids (row ∷ rows) = ground (arith, length-ids rows)

-- What a trim leaves.
abbrev Trimmed : ℕ → String → RunTable → RunTable → Type 0
Trimmed max_records name table after =
    (count (of_strategy name) after ≤ max_records)
    × UniqueRuns after
    × ((other : String)
        → name ≢ other
        → keep (of_strategy other) after ≡ keep (of_strategy other) table)

trim_lem :
    (max_records : ℕ) (name : String) (table : RunTable)
    → UniqueRuns table
    → Trimmed max_records name table (trim max_records name table)
unfolding trim
trim_lem max_records name table u =
    let rows = newest_first (keep (of_strategy name) table) in
    let ids = map (λ row. row.run_id) (take max_records rows) in
    (
      omega (
        arith,
        count-kept name ids table,
        count-contains ids table u,
        length-ids (take max_records rows),
        length-take max_records rows,
      ),
      UniqueRuns-keep _ table u,
      λ other ne. keep-others name other ids table ne,
    )

-- In a table of different run ids, a start that the table takes leaves at most `max_records` rows
-- of its strategy, all rows of every other strategy in their order, and run ids that are
-- different.
pub mark_running-bound :
    (max_records : ℕ) (start : Start) (now : ℕ) (table after : RunTable)
    → UniqueRuns table
    → mark_running max_records start now table ≡ some after
    → (count (of_strategy start.strategy_name) after ≤ max_records)
      × UniqueRuns after
      × ((other : String)
          → start.strategy_name ≢ other
          → keep (of_strategy other) after ≡ keep (of_strategy other) table)
unfolding mark_running started_row
mark_running-bound max_records start now table after u e =
    elim (Option-cases (find_run start.run_id table)) [
      | inl free ↦
          let rows = started_row start now ∷ table in
          let (bound, unique, others) =
            trim_lem max_records start.strategy_name rows (unused start.run_id table free, u) in
          subst (Trimmed max_records start.strategy_name table) (ground (arith, free, e)) (
            bound,
            unique,
            λ other ne. others other ne ∙ ground (arith, test-of-ne start.strategy_name other ne),
          )
      | inr (row, taken) ↦ absurd (ground (arith, taken, e))
    ]
