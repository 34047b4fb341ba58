-- ===== src/Cascade/DailyLog/Keys.antt =====
-- The diff of a daily-log file, read at one key of the index.
use text.Mathlib.TextLemmas.{append_cancel_left}
use ever_os.Prelude.{
  if◌then◌else◌, Bool-cases, eq-cases, length, any, All, contains, ◌+◌, String, ◌≡◌, refl, subst,
  inl, inr, Bool, true, false, not, ◌&&◌, Option, none, some, List, [], ◌∷◌, arith, ◌==◌, eq_iff,
  eq_refl,
}
use ever_os.Cascade.DailyLog.{
  Row, ParsedEntry, row_id, existing_by_entry, is_current, has_entry, diff_entries, to_delete_ids,
}
use ever_os.Cascade.DailyLog.Lance.{keyed, UniqueIds}

pub row_id_inj : (owner a b : String) → row_id owner a ≡ row_id owner b → a ≡ b
unfolding row_id
row_id_inj owner a b e = append_cancel_left "_" a b (append_cancel_left owner _ _ e)

module _ {Structured : Type 0} where
  -- The entry of a key.
  abbrev pub entry_for :
      String → String → List (ParsedEntry Structured) → Option (ParsedEntry Structured)
  entry_for owner key [] = none
  entry_for owner key (entry ∷ entries) =
      if row_id owner entry.entry_id == key then some entry else entry_for owner key entries

  abbrev pub Distinct : List (ParsedEntry Structured) → Type 0
  Distinct [] = Unit
  Distinct (entry ∷ entries) = (has_entry entry.entry_id entries ≡ false) × Distinct entries

  pub entry_for_absent :
      (owner entry_id : String) (entries : List (ParsedEntry Structured))
      → has_entry entry_id entries ≡ false
      → entry_for owner (row_id owner entry_id) entries ≡ none
  unfolding has_entry
  entry_for_absent owner entry_id [] h = refl
  entry_for_absent owner entry_id (e ∷ es) h = ground (
    arith,
    eq_iff (row_id owner e.entry_id) (row_id owner entry_id),
    row_id_inj owner e.entry_id entry_id,
    eq_iff e.entry_id entry_id,
    entry_for_absent owner entry_id es,
  )

  pub has_entry_for :
      (owner key : String) (entries : List (ParsedEntry Structured))
      (entry : ParsedEntry Structured)
      → entry_for owner key entries ≡ some entry
      → (row_id owner entry.entry_id ≡ key) × (has_entry entry.entry_id entries ≡ true)
  unfolding has_entry
  has_entry_for owner key [] entry h = cc
  has_entry_for owner key (e ∷ es) entry h = elim (eq-cases (row_id owner e.entry_id) key) [
    | inl same ↦ (
      ground (arith, eq_iff (row_id owner e.entry_id) key, eq_refl key),
      ground (arith, eq_iff (row_id owner e.entry_id) key, eq_refl key, eq_refl e.entry_id),
    )
    | inr differs ↦
        let (k, m) = has_entry_for owner key es entry (ground arith) in (k, ground (arith, m))
  ]

module _ {Payload : Type 0} where
  abbrev pub AllKeyed : String → List (Row Payload) → Type 0
  AllKeyed owner = All (λ (row : Row Payload). row.id ≡ row_id owner row.entry_id)

  -- The last row of an entry is the one under its key.
  pub existing_by_entry-keyed :
      (owner entry_id : String) (rows : List (Row Payload))
      → UniqueIds rows
      → AllKeyed owner rows
      → existing_by_entry entry_id rows ≡ keyed (row_id owner entry_id) rows
  unfolding existing_by_entry
  existing_by_entry-keyed owner entry_id [] u a = refl
  existing_by_entry-keyed owner entry_id (row ∷ rows) u a = ground (
    arith,
    existing_by_entry-keyed owner entry_id rows,
    eq_iff row.entry_id entry_id,
    eq_iff row.id (row_id owner entry_id),
    row_id_inj owner row.entry_id entry_id,
  )

  abbrev pub has_row : String → List (Row Payload) → Bool
  has_row entry_id rows = any (λ row. row.entry_id == entry_id) rows

  pub keyed-has_row :
      (key : String) (rows : List (Row Payload)) (row : Row Payload)
      → keyed key rows ≡ some row
      → has_row row.entry_id rows ≡ true
  keyed-has_row key [] row h = cc
  keyed-has_row key (r ∷ rows) row h = elim (Bool-cases (r.id == key)) [
    | inl same ↦ ground (arith, eq_refl r.entry_id)
    | inr differs ↦ ground (arith, keyed-has_row key rows row)
  ]

module _ {Payload Structured : Type 0} where
  pub contains-to_delete_ids :
      (entry_id : String) (entries : List (ParsedEntry Structured)) (rows : List (Row Payload))
      → contains (to_delete_ids entries rows) entry_id
        ≡ (has_row entry_id rows && not (has_entry entry_id entries))
  unfolding to_delete_ids
  contains-to_delete_ids entry_id entries [] = refl
  contains-to_delete_ids entry_id entries (row ∷ rows) =
      ground (arith, eq_iff row.entry_id entry_id, contains-to_delete_ids entry_id entries rows)

  -- An entry that its row, if any, does not match.
  abbrev pub filter_changed :
      List (Row Payload) → Option (ParsedEntry Structured) → Option (ParsedEntry Structured)
  filter_changed existing none = none
  filter_changed existing (some e) =
      if is_current (existing_by_entry e.entry_id existing) e.content_sha256 then none else some e

  pub has_entry-diff :
      (entry_id : String) (entries : List (ParsedEntry Structured)) (existing : List (Row Payload))
      → has_entry entry_id entries ≡ false
      → has_entry entry_id (diff_entries entries existing).0 ≡ false
  unfolding diff_entries has_entry
  has_entry-diff entry_id [] existing h = refl
  has_entry-diff entry_id (e ∷ es) existing h = ground (arith, has_entry-diff entry_id es existing)

  pub diff_entries-Distinct :
      (entries : List (ParsedEntry Structured)) (existing : List (Row Payload))
      → Distinct entries
      → Distinct (diff_entries entries existing).0
  unfolding diff_entries
  diff_entries-Distinct [] existing d = tt
  diff_entries-Distinct (e ∷ es) existing d =
      ground (arith, has_entry-diff e.entry_id es existing, diff_entries-Distinct es existing)

  pub length-diff_entries :
      (entries : List (ParsedEntry Structured)) (existing : List (Row Payload))
      → length (diff_entries entries existing).0 + (diff_entries entries existing).1
        ≡ length entries
  unfolding diff_entries
  length-diff_entries [] existing = omega arith
  length-diff_entries (e ∷ es) existing = ground (arith, length-diff_entries es existing)

  -- The entries that the diff keeps, at one key.
  pub entry_for-diff :
      (owner key : String) (entries : List (ParsedEntry Structured)) (existing : List (Row Payload))
      → Distinct entries
      → entry_for owner key (diff_entries entries existing).0
        ≡ filter_changed existing (entry_for owner key entries)
  unfolding diff_entries
  entry_for-diff owner key [] existing d = refl
  entry_for-diff owner key (e ∷ es) existing d = elim (eq-cases (row_id owner e.entry_id) key) [
    | inl same ↦ ground (
      arith,
      eq_iff (row_id owner e.entry_id) key,
      same,
      rw (same) at (entry_for_absent owner e.entry_id es d.0),
      entry_for-diff owner key es existing,
    )
    | inr differs ↦ ground (arith, entry_for-diff owner key es existing)
  ]

module _ {Structured : Type 0} where
  pub entry_for-none :
      (owner entry_id : String) (entries : List (ParsedEntry Structured))
      → entry_for owner (row_id owner entry_id) entries ≡ none
      → has_entry entry_id entries ≡ false
  unfolding has_entry
  entry_for-none owner entry_id [] h = refl
  entry_for-none owner entry_id (e ∷ es) h = elim (eq-cases e.entry_id entry_id) [
    | inl same ↦ ground (arith, same, eq_refl (row_id owner entry_id))
    | inr differs ↦ ground (
      arith,
      eq_iff (row_id owner e.entry_id) (row_id owner entry_id),
      entry_for-none owner entry_id es,
    )
  ]

  pub All-entry_for {κ} :
      (P : ParsedEntry Structured → Type κ) (owner key : String)
      (entries : List (ParsedEntry Structured)) (entry : ParsedEntry Structured)
      → All P entries
      → entry_for owner key entries ≡ some entry
      → P entry
  All-entry_for P owner key [] entry a h = cc
  All-entry_for P owner key (e ∷ es) entry a h =
      elim (Bool-cases (row_id owner e.entry_id == key)) [
        | inl same ↦ let same_entry : e ≡ entry = ground arith in subst P same_entry a.0
        | inr differs ↦ All-entry_for P owner key es entry a.1 (ground arith)
      ]
