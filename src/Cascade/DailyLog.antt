-- ===== src/Cascade/DailyLog.antt =====
-- src/everos/memory/cascade/handlers/_daily_log_base.py: bringing the index rows of one daily-log
-- file in line with its entries. The LanceDB table is a parameter with the operations that
-- src/everos/core/persistence/lancedb/repository.py calls.
use Prim.Native.String.{◌++◌ as str_append}
use ever_os.Cascade.Worker.{HandlerOutcome}
use ever_os.Prelude.{
  if◌then◌else◌, length, any, contains, ℕ, ◌+◌, String, Bool, false, ◌&&◌, Option, none, some, List,
  [], ◌∷◌, ◌++◌, ◌==◌,
}
pub mod Lance
pub mod Keys
pub mod Rows
pub mod Step
pub mod Refines
mod ListTable
mod Tests

-- The columns that the handler reads or writes; all others are the payload.
pub record Row (Payload : Type 0) : Type 0 where
  pub id : String
  pub entry_id : String
  pub owner_id : String
  pub app_id : String
  pub project_id : String
  pub md_path : String
  pub content_sha256 : String
  pub deprecated_by : Option String
  pub payload : Payload

-- The table: the row under an id, and the calls that the repository makes.
pub record LanceTable (Payload Table : Type 0) : Type 0 where
  pub get : Table → String → Option (Row Payload)
  pub find_where : (Row Payload → Bool) → ℕ → Table → List (Row Payload)
  pub merge_insert : List (Row Payload) → Table → Table
  pub delete : (Row Payload → Bool) → Table → Table × ℕ
  pub update : (Row Payload → Bool) → (Row Payload → Row Payload) → Table → Table

-- An entry of the file with the digest of the content that its kind watches.
pub record ParsedEntry (Structured : Type 0) : Type 0 where
  pub entry_id : String
  pub structured : Structured
  pub content_sha256 : String

-- What the frontmatter and the path give for a file: the owner and the scope.
pub record Scope : Type 0 where
  pub owner_id : String
  pub app_id : String
  pub project_id : String

-- A file as the reader gives it: its entries, and the frontmatter's deprecated entries.
pub record ParsedFile (Structured : Type 0) : Type 0 where
  pub entries : List (String × Structured)
  pub deprecated_entries : List (String × String)
  pub scope : Scope

abbrev pub find_limit : ℕ
find_limit = 10000

-- The key of a row, `f"{owner_id}_{entry_id}"`.
unfoldable pub row_id : String → String → String
row_id owner_id entry_id = str_append owner_id (str_append "_" entry_id)

module _ {Payload : Type 0} where
  -- `{row.entry_id: row for row in existing}`, read at one key: the last row wins.
  unfoldable pub existing_by_entry : String → List (Row Payload) → Option (Row Payload)
  existing_by_entry entry_id [] = none
  existing_by_entry entry_id (row ∷ rows) = elim (existing_by_entry entry_id rows) [
    | some later ↦ some later
    | none ↦ if row.entry_id == entry_id then some row else none
  ]

  unfoldable pub is_current : Option (Row Payload) → String → Bool
  is_current none digest = false
  is_current (some prior) digest = prior.content_sha256 == digest

unfoldable pub has_entry : {Structured : Type 0} → String → List (ParsedEntry Structured) → Bool
has_entry entry_id entries = any (λ e. e.entry_id == entry_id) entries

module _ {Payload Structured : Type 0} where
  -- The entries to build rows for, and how many are skipped.
  unfoldable pub diff_entries :
      List (ParsedEntry Structured) → List (Row Payload) → List (ParsedEntry Structured) × ℕ
  diff_entries [] existing = ([], 0)
  diff_entries (entry ∷ entries) existing =
      let (to_build, skipped) = diff_entries entries existing in
      if is_current (existing_by_entry entry.entry_id existing) entry.content_sha256
      then (to_build, skipped + 1)
      else (entry ∷ to_build, skipped)

  -- The entry ids of the rows whose entry is gone from the file.
  unfoldable pub to_delete_ids : List (ParsedEntry Structured) → List (Row Payload) → List String
  to_delete_ids entries [] = []
  to_delete_ids entries (row ∷ rows) =
      if has_entry row.entry_id entries
      then to_delete_ids entries rows
      else row.entry_id ∷ to_delete_ids entries rows

-- What a kind of daily log supplies: the digest of its watched fields, and the row of an
-- entry but for the columns that follow from the file. Building fails where a required field does.
pub record DailyLogKind (Payload Structured : Type 0) : Type 0 where
  pub digest : Structured → String
  pub build_payload : Structured → Option Payload

unfoldable pub in_scope : {Payload : Type 0} → Scope → String → Row Payload → Bool
in_scope scope entry_id row =
    row.owner_id == scope.owner_id
    && row.entry_id == entry_id
    && row.app_id == scope.app_id
    && row.project_id == scope.project_id

module _ {Payload Structured : Type 0} (handler : DailyLogKind Payload Structured) where
  unfoldable pub parse_entries : List (String × Structured) → List (ParsedEntry Structured)
  parse_entries [] = []
  parse_entries ((entry_id, structured) ∷ rest) =
      record {
        entry_id = entry_id;
        structured = structured;
        content_sha256 = handler.digest structured;
      }
      ∷ parse_entries rest

  unfoldable pub row_of : Scope → String → ParsedEntry Structured → Payload → Row Payload
  row_of scope md_path entry payload = record {
    id = row_id scope.owner_id entry.entry_id;
    entry_id = entry.entry_id;
    owner_id = scope.owner_id;
    app_id = scope.app_id;
    project_id = scope.project_id;
    md_path = md_path;
    content_sha256 = entry.content_sha256;
    deprecated_by = none;
    payload = payload;
  }

  unfoldable pub build_row : Scope → String → ParsedEntry Structured → Option (Row Payload)
  build_row scope md_path entry = elim (handler.build_payload entry.structured) [
    | none ↦ none
    | some payload ↦ some (row_of scope md_path entry payload)
  ]

  -- One failure fails the whole `gather`.
  unfoldable pub embed_entries :
      Scope → String → List (ParsedEntry Structured) → Option (List (Row Payload))
  embed_entries scope md_path [] = some []
  embed_entries scope md_path (entry ∷ entries) = elim (build_row scope md_path entry) [
    | none ↦ none
    | some row ↦ elim (embed_entries scope md_path entries) [
      | none ↦ none
      | some rows ↦ some (row ∷ rows)
    ]
  ]

module _ {Payload Table : Type 0} (lance : LanceTable Payload Table) where
  unfoldable pub upsert_rows : List (Row Payload) → Table → Table
  upsert_rows [] table = table
  upsert_rows (row ∷ rows) table = lance.merge_insert (row ∷ rows) table

  unfoldable pub delete_entries : List String → String → Table → Table
  delete_entries [] md_path table = table
  delete_entries (entry_id ∷ rest) md_path table =
      let gone =
        λ (row : Row Payload). row.md_path == md_path && contains (entry_id ∷ rest) row.entry_id in
      (lance.delete gone table).0

  unfoldable pub apply_lance_changes : List (Row Payload) → List String → String → Table → Table
  apply_lance_changes to_upsert delete_ids md_path table =
      delete_entries delete_ids md_path (upsert_rows to_upsert table)

  unfoldable pub propagate_deprecations : Scope → List (String × String) → Table → Table
  propagate_deprecations scope [] table = table
  propagate_deprecations scope ((entry_id, deprecated_by) ∷ rest) table =
      propagate_deprecations scope rest (
        lance.update (in_scope scope entry_id)
          (λ row. record row { deprecated_by = some deprecated_by }) table)

module _ {Payload Structured Table : Type 0} (lance : LanceTable Payload Table)
    (handler : DailyLogKind Payload Structured) where
  -- `none` is a failure before anything is written.
  unfoldable pub handle_added_or_modified :
      String → ParsedFile Structured → Table → Option (Table × HandlerOutcome)
  handle_added_or_modified md_path file table =
      let new_entries = parse_entries handler file.entries in
      let existing = lance.find_where (λ row. row.md_path == md_path) find_limit table in
      let (to_build, skipped) = diff_entries new_entries existing in
      elim (embed_entries handler file.scope md_path to_build) [
        | none ↦ none
        | some to_upsert ↦
            let delete_ids = to_delete_ids new_entries existing in
            let changed = apply_lance_changes lance to_upsert delete_ids md_path table in
            some (
              propagate_deprecations lance file.scope file.deprecated_entries changed,
              record {
                upserted = length to_upsert;
                deleted = length delete_ids;
                skipped = skipped;
              },
            )
      ]

  unfoldable pub handle_deleted : String → Table → Table × HandlerOutcome
  handle_deleted md_path table =
      let (left, deleted) = lance.delete (λ row. row.md_path == md_path) table in
      (left, record { upserted = 0; deleted = deleted; skipped = 0 })
