-- ===== src/Cascade/DailyLog/Rows.antt =====
-- The handler's steps, read at one key of the index.
use ever_os.Prelude.{
  if◌then◌else◌, Option-cases, length, All, contains, String, ◌≡◌, refl, sym, ap, ◌∙◌, subst, ◌≢◌,
  inl, inr, Bool, false, not, ◌&&◌, Option, none, some, List, [], ◌∷◌, arith, ◌==◌,
}
use ever_os.Cascade.DailyLog.{
  Row, LanceTable, ParsedEntry, Scope, row_id, DailyLogKind, in_scope, parse_entries, row_of,
  build_row, embed_entries, upsert_rows, delete_entries, propagate_deprecations,
}
use ever_os.Cascade.DailyLog.Lance.{filter_row, or_else, map_if, keyed, UniqueIds, IsLance}
use ever_os.Cascade.DailyLog.Keys.{entry_for, Distinct, entry_for_absent}

module _ {Payload : Type 0} where
  abbrev pub of_path : String → Row Payload → Bool
  of_path md_path row = row.md_path == md_path

  -- A row under the key, taken from the file, still has the file's content.
  abbrev pub still_current : String → Option (Row Payload) → String → Bool
  still_current md_path none digest = false
  still_current md_path (some row) digest = row.md_path == md_path && row.content_sha256 == digest

  abbrev pub drop_path : String → Option (Row Payload) → Option (Row Payload)
  drop_path md_path none = none
  drop_path md_path (some row) = if row.md_path == md_path then none else some row

  -- A frontmatter's deprecations of a row, the last one that fits.
  abbrev pub mark_row : Scope → List (String × String) → Row Payload → Row Payload
  mark_row scope [] row = row
  mark_row scope ((entry_id, by) ∷ rest) row =
      mark_row scope rest
        (if in_scope scope entry_id row then record row { deprecated_by = some by } else row)

  abbrev pub mark : Scope → List (String × String) → Option (Row Payload) → Option (Row Payload)
  mark scope deprecated none = none
  mark scope deprecated (some row) = some (mark_row scope deprecated row)

  -- The rows that the delete takes.
  abbrev pub gone : String → List String → Row Payload → Bool
  gone md_path delete_ids row = row.md_path == md_path && contains delete_ids row.entry_id

module _ {Payload Structured : Type 0} (handler : DailyLogKind Payload Structured) where
  -- Every entry's row can be built.
  abbrev pub AllBuild : List (ParsedEntry Structured) → Type 0
  AllBuild = All (λ (e : ParsedEntry Structured). handler.build_payload e.structured ≢ none)

  -- What the index holds under a key after the file's entries: the row of the file's entry, kept in
  -- every column if its content has not changed and built anew otherwise; no row of the file
  -- without an entry; any other row as it was.
  abbrev pub synced :
      Scope → String → Option (ParsedEntry Structured) → Option (Row Payload) → Option (Row Payload)
  synced scope md_path none old = drop_path md_path old
  synced scope md_path (some entry) old =
      if still_current md_path old entry.content_sha256
      then old
      else build_row handler scope md_path entry

  -- The rows built for a list of entries are a row for its head and the rows of its tail.
  pub embed_entries-cons :
      (scope : Scope) (md_path : String) (e : ParsedEntry Structured)
      (es : List (ParsedEntry Structured)) (rows : List (Row Payload))
      → embed_entries handler scope md_path (e ∷ es) ≡ some rows
      → (row : Row Payload) × (more : List (Row Payload)) × (build_row handler scope md_path e
          ≡ some row)
        × (embed_entries handler scope md_path es ≡ some more)
        × (rows ≡ row ∷ more)
        × (row.id ≡ row_id scope.owner_id e.entry_id)
        × (row.entry_id ≡ e.entry_id)
  unfolding embed_entries build_row row_of
  embed_entries-cons scope md_path e es rows h =
      elim (Option-cases (handler.build_payload e.structured)) [
        | inl n ↦ ground arith
        | inr (payload, p) ↦ elim (Option-cases (embed_entries handler scope md_path es)) [
          | inl n ↦ ground arith
          | inr (more, m) ↦ (
            row_of handler scope md_path e payload,
            more,
            ground arith,
            m,
            ground arith,
            refl,
            refl,
          )
        ]
      ]

  abbrev pub built : Scope → String → Option (ParsedEntry Structured) → Option (Row Payload)
  built scope md_path none = none
  built scope md_path (some e) = build_row handler scope md_path e

  pub keyed-embed_entries :
      (scope : Scope) (md_path key : String) (entries : List (ParsedEntry Structured))
      (rows : List (Row Payload))
      → embed_entries handler scope md_path entries ≡ some rows
      → keyed key rows ≡ built scope md_path (entry_for scope.owner_id key entries)
  keyed-embed_entries scope md_path key [] rows h = unfold embed_entries in ground arith
  keyed-embed_entries scope md_path key (e ∷ es) rows h =
      let (row, more, b, m, r, i, _) = embed_entries-cons scope md_path e es rows h in
      ground (arith, b, r, i, keyed-embed_entries scope md_path key es more m)

  pub embed_entries-UniqueIds :
      (scope : Scope) (md_path : String) (entries : List (ParsedEntry Structured))
      (rows : List (Row Payload))
      → Distinct entries
      → embed_entries handler scope md_path entries ≡ some rows
      → UniqueIds rows
  embed_entries-UniqueIds scope md_path [] [] d h = tt
  embed_entries-UniqueIds scope md_path [] (row ∷ rows) d h = unfold embed_entries in cc
  embed_entries-UniqueIds scope md_path (e ∷ es) rows d h =
      let (row, more, b, m, r, i, _) = embed_entries-cons scope md_path e es rows h in
      let absent : keyed row.id more ≡ none =
        rw (keyed-embed_entries scope md_path row.id es more m) (
          ap (λ (k : String). built scope md_path (entry_for scope.owner_id k es)) i
          ∙ ap (built scope md_path) (entry_for_absent scope.owner_id e.entry_id es d.0)) in
      subst UniqueIds (sym r) (absent, embed_entries-UniqueIds scope md_path es more d.1 m)

  pub embed_entries_total :
      (scope : Scope) (md_path : String) (entries : List (ParsedEntry Structured))
      → All (λ (e : ParsedEntry Structured). handler.build_payload e.structured ≢ none) entries
      → (rows : List (Row Payload)) × (embed_entries handler scope md_path entries ≡ some rows)
  unfolding embed_entries build_row
  embed_entries_total scope md_path [] a = ([], refl)
  embed_entries_total scope md_path (e ∷ es) a =
      elim (Option-cases (handler.build_payload e.structured)) [
        | inl n ↦ absurd (a.0 n)
        | inr (payload, p) ↦
            let (more, m) = embed_entries_total scope md_path es a.1 in
            (row_of handler scope md_path e payload ∷ more, ground (arith, p, m))
      ]

  pub length-embed_entries :
      (scope : Scope) (md_path : String) (entries : List (ParsedEntry Structured))
      (rows : List (Row Payload))
      → embed_entries handler scope md_path entries ≡ some rows
      → length rows ≡ length entries
  length-embed_entries scope md_path [] rows h = unfold embed_entries in ground arith
  length-embed_entries scope md_path (e ∷ es) rows h =
      let (row, more, b, m, r, _, _) = embed_entries-cons scope md_path e es rows h in
      omega (arith, length-embed_entries scope md_path es more m, ap (length {A = Row Payload}) r)

  pub length-parse_entries :
      (entries : List (String × Structured))
      → length (parse_entries handler entries) ≡ length entries
  unfolding parse_entries
  length-parse_entries [] = refl
  length-parse_entries ((i, s) ∷ rest) = omega (arith, length-parse_entries rest)

module _ {Payload Table : Type 0} (lance : LanceTable Payload Table) (laws : IsLance lance) where
  pub get-propagate_deprecations :
      (scope : Scope) (deprecated : List (String × String)) (table : Table) (key : String)
      → lance.get (propagate_deprecations lance scope deprecated table) key
        ≡ mark scope deprecated (lance.get table key)
  unfolding propagate_deprecations
  get-propagate_deprecations scope [] table key =
      elim (lance.get table key) as (λ o. o ≡ mark scope [] o) [ none ↦ refl | some row ↦ refl ]
  get-propagate_deprecations scope ((entry_id, by) ∷ rest) table key =
      let fits = in_scope scope entry_id in
      let set = λ (row : Row Payload). record row { deprecated_by = some by } in
      get-propagate_deprecations scope rest (lance.update fits set table) key
      ∙ ap (mark scope rest) (laws.updated fits set table key (λ row. refl))
      ∙ elim (lance.get table key)
          as (λ o. mark scope rest (map_if fits set o) ≡ mark scope ((entry_id, by) ∷ rest) o) [
            | none ↦ refl
            | some row ↦ refl
          ]

  pub get-upsert_rows :
      (rows : List (Row Payload)) (key : String) (table : Table)
      → UniqueIds rows
      → lance.get (upsert_rows lance rows table) key
        ≡ or_else (keyed key rows) (lance.get table key)
  unfolding upsert_rows
  get-upsert_rows [] key table u = refl
  get-upsert_rows (row ∷ rows) key table u = laws.merged (row ∷ rows) table key u

  pub get-delete_entries :
      (delete_ids : List String) (md_path key : String) (table : Table)
      → lance.get (delete_entries lance delete_ids md_path table) key
        ≡ filter_row (λ row. not (gone md_path delete_ids row)) (lance.get table key)
  unfolding delete_entries
  get-delete_entries [] md_path key table = elim (Option-cases (lance.get table key)) [
    | inl e ↦ rw e refl
    | inr (row, e) ↦ rw e (ground arith)
  ]
  get-delete_entries (i ∷ is) md_path key table = laws.deleted (gone md_path (i ∷ is)) table key
