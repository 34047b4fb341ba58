-- ===== src/Cascade/DailyLog/Step.antt =====
-- The handler's changes under one key, from what the table held there.
use ever_os.Prelude.{
  if◌then◌else◌, Option-cases, eq-cases, All, String, ◌≡◌, refl, sym, ap, ◌∙◌, ◌≢◌, inl, inr, Bool,
  true, false, not, Option, none, some, List, [], ◌∷◌, arith, ◌==◌, eq_iff,
}
use ever_os.Cascade.DailyLog.{
  Row, LanceTable, ParsedEntry, Scope, row_id, existing_by_entry, is_current, has_entry,
  to_delete_ids, DailyLogKind, row_of, build_row,
}
use ever_os.Cascade.DailyLog.Lance.{filter_row, or_else, keyed, UniqueIds}
use ever_os.Cascade.DailyLog.Keys.{
  row_id_inj, entry_for, has_entry_for, AllKeyed, existing_by_entry-keyed, keyed-has_row,
  contains-to_delete_ids, filter_changed, entry_for-none, All-entry_for,
}
use ever_os.Cascade.DailyLog.Rows.{of_path, still_current, gone, AllBuild, synced, built}

module _ {Payload Structured : Type 0} (md_path : String) (entries : List (ParsedEntry Structured))
    (existing : List (Row Payload)) where
  -- A row whose entry is in the file stays.
  stays :
      (row : Row Payload)
      → has_entry row.entry_id entries ≡ true
      → gone md_path (to_delete_ids entries existing) row ≡ false
  stays row h = ground (arith, contains-to_delete_ids row.entry_id entries existing)

module _ {Payload Structured : Type 0} (scope : Scope) (md_path key : String)
    (entries : List (ParsedEntry Structured)) (existing : List (Row Payload)) where
  step_none :
      (row : Row Payload)
      → keyed key existing ≡ filter_row (λ r. r.md_path == md_path) (some row)
      → row.id ≡ key
      → (row.md_path ≡ md_path → row.id ≡ row_id scope.owner_id row.entry_id)
      → entry_for scope.owner_id key entries ≡ none
      → gone md_path (to_delete_ids entries existing) row ≡ (row.md_path == md_path)
  step_none row k i own n = elim (eq-cases row.md_path md_path) [
    | inl same ↦
        let there = keyed-has_row key existing row (ground (arith, eq_iff row.md_path md_path)) in
        let key_of : key ≡ row_id scope.owner_id row.entry_id = sym i ∙ own same in
        let absent = entry_for-none scope.owner_id row.entry_id entries (rw key_of at n) in
        ground (
          arith,
          there,
          absent,
          contains-to_delete_ids row.entry_id entries existing,
          eq_iff row.md_path md_path,
        )
    | inr differs ↦ ground arith
  ]

module _ {Payload Table : Type 0} (lance : LanceTable Payload Table) where
  -- The rows that the table holds for the file carry the ids of the file's owner.
  abbrev pub OwnRows : Scope → String → Table → Type 0
  OwnRows scope md_path table =
      (key : String) (row : Row Payload)
      → lance.get table key ≡ some row
      → row.md_path ≡ md_path
      → row.id ≡ row_id scope.owner_id row.entry_id

  pub existing_keyed :
      (scope : Scope) (md_path : String) (table : Table)
      → OwnRows scope md_path table
      → (rows : List (Row Payload))
      → All
          (λ (row : Row Payload).
            (lance.get table row.id ≡ some row) × (of_path md_path row ≡ true))
          rows
      → AllKeyed scope.owner_id rows
  existing_keyed scope md_path table own [] a = tt
  existing_keyed scope md_path table own (row ∷ rows) a = (
    own row.id row a.0.0 ((eq_iff row.md_path md_path).0 a.0.1),
    existing_keyed scope md_path table own rows a.1,
  )

module _ {Payload Structured : Type 0} (handler : DailyLogKind Payload Structured) where
  -- The diff skips an entry exactly when the row under its key is the file's and has its content.
  is_current-still_current :
      (scope : Scope) (md_path key : String) (existing : List (Row Payload))
      (old : Option (Row Payload)) (entry : ParsedEntry Structured)
      → keyed key existing ≡ filter_row (of_path md_path) old
      → UniqueIds existing
      → AllKeyed scope.owner_id existing
      → row_id scope.owner_id entry.entry_id ≡ key
      → is_current (existing_by_entry entry.entry_id existing) entry.content_sha256
        ≡ still_current md_path old entry.content_sha256
  unfolding is_current
  is_current-still_current scope md_path key existing old entry k u a e =
      let found =
        existing_by_entry-keyed scope.owner_id entry.entry_id existing u a
        ∙ ap (λ (x : String). keyed x existing) e
        ∙ k in
      rw found
        (elim old
          as (λ o.
            is_current (filter_row (of_path md_path) o) entry.content_sha256
            ≡ still_current md_path o entry.content_sha256) [
              | none ↦ refl
              | some row ↦ ground arith
            ])

  step_some :
      (scope : Scope) (md_path key : String) (entries : List (ParsedEntry Structured))
      (existing : List (Row Payload)) (old : Option (Row Payload)) (entry : ParsedEntry Structured)
      → ((row : Row Payload)
          → old ≡ some row
          → row.md_path ≡ md_path
          → row.entry_id ≡ entry.entry_id)
      → handler.build_payload entry.structured ≢ none
      → has_entry entry.entry_id entries ≡ true
      → (changed : Bool) → changed ≡ still_current md_path old entry.content_sha256
      → filter_row
          (λ row. not (gone md_path (to_delete_ids entries existing) row))
          (or_else (built handler scope md_path (if changed then none else some entry)) old)
        ≡ (if changed then old else build_row handler scope md_path entry)
  unfolding build_row row_of
  step_some scope md_path key entries existing old entry own b h false c =
      elim (Option-cases (handler.build_payload entry.structured)) [
        | inl n ↦ absurd (b n)
        | inr (payload, p) ↦
            let row = row_of handler scope md_path entry payload in
            ground (arith, p, stays md_path entries existing row h)
      ]
  step_some scope md_path key entries existing none entry own b h true c = refl
  step_some scope md_path key entries existing (some row) entry own b h true c =
      let same = own row refl (ground (arith, eq_iff row.md_path md_path)) in
      ground (arith, stays md_path entries existing row (rw same h))

  -- One key after the changes, from what the table held under it.
  pub step_synced :
      (scope : Scope) (md_path key : String) (entries : List (ParsedEntry Structured))
      (existing : List (Row Payload)) (old : Option (Row Payload))
      (entry : Option (ParsedEntry Structured))
      → keyed key existing ≡ filter_row (of_path md_path) old
      → ((row : Row Payload) → old ≡ some row → row.id ≡ key)
      → ((row : Row Payload)
          → old ≡ some row
          → row.md_path ≡ md_path
          → row.id ≡ row_id scope.owner_id row.entry_id)
      → UniqueIds existing
      → AllKeyed scope.owner_id existing
      → AllBuild handler entries
      → entry_for scope.owner_id key entries ≡ entry
      → filter_row
          (λ row. not (gone md_path (to_delete_ids entries existing) row))
          (or_else (built handler scope md_path (filter_changed existing entry)) old)
        ≡ synced handler scope md_path entry old
  step_synced scope md_path key entries existing none none k i own u a b e = refl
  step_synced scope md_path key entries existing (some row) none k i own u a b e =
      ground
        (arith, step_none scope md_path key entries existing row k (i row refl) (own row refl) e)
  step_synced scope md_path key entries existing old (some entry) k i own u a b e =
      let (at_key, there) = has_entry_for scope.owner_id key entries entry e in
      let agree = is_current-still_current scope md_path key existing old entry k u a at_key in
      let same = λ (row : Row Payload) (o : old ≡ some row) (p : row.md_path ≡ md_path).
        row_id_inj scope.owner_id row.entry_id entry.entry_id
          (sym (own row o p) ∙ i row o ∙ sym at_key) in
      let builds =
        All-entry_for (λ (x : ParsedEntry Structured). handler.build_payload x.structured ≢ none)
          scope.owner_id key entries entry b e in
      rw agree (step_some scope md_path key entries existing old entry same builds there _ refl)
