-- ===== src/Cascade/DailyLog/Lance.antt =====
-- What the daily-log handler relies on of a LanceDB table, read at one id.
use ever_os.Prelude.{
  if◌then◌else◌, length, All, ℕ, ◌<◌, String, ◌≡◌, Bool, true, not, Option, none, some, List, [],
  ◌∷◌, ◌==◌,
}
use ever_os.Cascade.DailyLog.{Row, LanceTable}

module _ {Payload : Type 0} where
  abbrev pub filter_row : (Row Payload → Bool) → Option (Row Payload) → Option (Row Payload)
  filter_row p none = none
  filter_row p (some row) = if p row then some row else none

  abbrev pub or_else : Option (Row Payload) → Option (Row Payload) → Option (Row Payload)
  or_else none other = other
  or_else (some row) other = some row

  abbrev pub map_if :
      (Row Payload → Bool)
      → (Row Payload → Row Payload)
      → Option (Row Payload)
      → Option (Row Payload)
  map_if p f none = none
  map_if p f (some row) = some (if p row then f row else row)

  -- The row with an id.
  abbrev pub keyed : String → List (Row Payload) → Option (Row Payload)
  keyed key [] = none
  keyed key (row ∷ rows) = if row.id == key then some row else keyed key rows

  abbrev pub UniqueIds : List (Row Payload) → Type 0
  UniqueIds [] = Unit
  UniqueIds (row ∷ rows) = (keyed row.id rows ≡ none) × UniqueIds rows

-- The documented behaviour of the calls: a query under its limit returns each row that fits, once;
-- `merge_insert` replaces or inserts whole rows by id; `delete` and `update` act on the rows that
-- fit.
pub record IsLance {Payload Table : Type 0} (lance : LanceTable Payload Table) : Type 0 where
  pub found :
      (p : Row Payload → Bool) (limit : ℕ) (table : Table) (key : String)
      → length (lance.find_where p limit table) < limit
      → keyed key (lance.find_where p limit table) ≡ filter_row p (lance.get table key)
  pub found_unique :
      (p : Row Payload → Bool) (limit : ℕ) (table : Table)
      → UniqueIds (lance.find_where p limit table)
  pub found_rows :
      (p : Row Payload → Bool) (limit : ℕ) (table : Table)
      → All
          (λ (row : Row Payload). (lance.get table row.id ≡ some row) × (p row ≡ true))
          (lance.find_where p limit table)
  pub got :
      (table : Table) (key : String) (row : Row Payload)
      → lance.get table key ≡ some row
      → row.id ≡ key
  pub merged :
      (rows : List (Row Payload)) (table : Table) (key : String)
      → UniqueIds rows
      → lance.get (lance.merge_insert rows table) key
        ≡ or_else (keyed key rows) (lance.get table key)
  pub deleted :
      (p : Row Payload → Bool) (table : Table) (key : String)
      → lance.get (lance.delete p table).0 key
        ≡ filter_row (λ row. not (p row)) (lance.get table key)
  pub updated :
      (p : Row Payload → Bool) (f : Row Payload → Row Payload) (table : Table) (key : String)
      → ((row : Row Payload) → (f row).id ≡ row.id)
      → lance.get (lance.update p f table) key ≡ map_if p f (lance.get table key)
