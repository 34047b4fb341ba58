-- ===== src/Cascade/DailyLog/Refines.antt =====
-- What the handler makes of the index, under every id.
use ever_os.Cascade.Worker.{HandlerOutcome}
use ever_os.Prelude.{
  Bool-cases, Option-cases, test-of-ne, length, ◌+◌, ◌<◌, String, ◌≡◌, refl, ap, ◌∙◌, ◌≢◌, inl, inr,
  not, Option, none, some, List, [], ◌∷◌, arith, eq_iff,
}
use ever_os.Cascade.DailyLog.{
  Row, LanceTable, ParsedEntry, Scope, ParsedFile, find_limit, existing_by_entry, is_current,
  diff_entries, to_delete_ids, DailyLogKind, parse_entries, row_of, build_row, upsert_rows,
  apply_lance_changes, propagate_deprecations, handle_added_or_modified,
}
use ever_os.Cascade.DailyLog.Lance.{filter_row, or_else, keyed, IsLance}
use ever_os.Cascade.DailyLog.Keys.{
  entry_for, Distinct, filter_changed, diff_entries-Distinct, length-diff_entries, entry_for-diff,
  All-entry_for,
}
use ever_os.Cascade.DailyLog.Rows.{
  of_path, mark, gone, AllBuild, synced, built, keyed-embed_entries, embed_entries-UniqueIds,
  embed_entries_total, length-embed_entries, length-parse_entries, get-propagate_deprecations,
  get-upsert_rows, get-delete_entries,
}
use ever_os.Cascade.DailyLog.Step.{OwnRows, existing_keyed, step_synced}

module _ {Payload Structured : Type 0} (handler : DailyLogKind Payload Structured) where
  AllBuild-diff :
      (entries : List (ParsedEntry Structured)) (existing : List (Row Payload))
      → AllBuild handler entries
      → AllBuild handler (diff_entries entries existing).0
  unfolding diff_entries
  AllBuild-diff [] existing b = tt
  AllBuild-diff (e ∷ es) existing b =
      elim (Bool-cases (is_current (existing_by_entry e.entry_id existing) e.content_sha256)) [
        | inl c ↦ rw c (AllBuild-diff es existing b.1)
        | inr c ↦ rw c (b.0, AllBuild-diff es existing b.1)
      ]

  build_row-some :
      (scope : Scope) (md_path : String) (entry : ParsedEntry Structured) (payload : Payload)
      → handler.build_payload entry.structured ≡ some payload
      → build_row handler scope md_path entry ≡ some (row_of handler scope md_path entry payload)
  unfolding build_row
  build_row-some scope md_path entry payload p = rw (p, build_row) refl

module _ {Payload Structured Table : Type 0} (lance : LanceTable Payload Table)
    (handler : DailyLogKind Payload Structured) (laws : IsLance lance) where
  -- With the laws of the table, fewer rows of the file than the query's limit, rows of the file
  -- under ids of its owner, entries with distinct ids, and a row that can be built for each entry,
  -- the handler returns, counts each entry once as upserted or skipped, and leaves under every id
  -- of the index: the row of the entry with that id, where the file has one, kept in every column
  -- where it is the file's and its content is unchanged and built anew otherwise; nothing where the
  -- old row was the file's and the entry is gone; the old row in all other cases. Then the
  -- deprecations that the frontmatter lists are marked. A row that is kept keeps an earlier mark
  -- that the frontmatter no longer lists.
  pub handle_added_or_modified-synced :
      (md_path : String) (file : ParsedFile Structured) (table : Table)
      → length (lance.find_where (of_path md_path) find_limit table) < find_limit
      → OwnRows lance file.scope md_path table
      → Distinct (parse_entries handler file.entries)
      → AllBuild handler (parse_entries handler file.entries)
      → (after : Table) × (outcome : HandlerOutcome) × (handle_added_or_modified lance handler
            md_path file table
          ≡ some (after, outcome))
        × (outcome.upserted + outcome.skipped ≡ length file.entries)
        × ((key : String)
            → lance.get after key
              ≡ mark file.scope file.deprecated_entries (
                  synced handler file.scope md_path
                    (entry_for file.scope.owner_id key (parse_entries handler file.entries))
                    (lance.get table key)))
  unfolding handle_added_or_modified apply_lance_changes
  handle_added_or_modified-synced md_path file table few own distinct builds =
      let entries = parse_entries handler file.entries in
      let existing = lance.find_where (of_path md_path) find_limit table in
      let unique = laws.found_unique (of_path md_path) find_limit table in
      let keyed_rows =
        existing_keyed lance file.scope md_path table own existing
          (laws.found_rows (of_path md_path) find_limit table) in
      let (rows, e) =
        embed_entries_total handler file.scope md_path (diff_entries entries existing).0
          (AllBuild-diff handler entries existing builds) in
      let delete_ids = to_delete_ids entries existing in
      let changed = apply_lance_changes lance rows delete_ids md_path table in
      let after = propagate_deprecations lance file.scope file.deprecated_entries changed in
      let skipped = (diff_entries entries existing).1 in
      let outcome : HandlerOutcome = record {
        upserted = length rows;
        deleted = length delete_ids;
        skipped = skipped;
      } in
      let ids =
        embed_entries-UniqueIds handler file.scope md_path (diff_entries entries existing).0 rows
          (diff_entries-Distinct entries existing distinct) e in
      let counted : length rows + skipped ≡ length file.entries = omega (
        arith,
        length-embed_entries handler file.scope md_path (diff_entries entries existing).0 rows e,
        length-diff_entries entries existing,
        length-parse_entries handler file.entries,
      ) in
      (
        after,
        outcome,
        rw (e, handle_added_or_modified) refl,
        counted,
        λ key.
            let entry = entry_for file.scope.owner_id key entries in
            let row_keyed = laws.found (of_path md_path) find_limit table key few in
            let built_rows : keyed key rows
                ≡ built handler file.scope md_path (filter_changed existing entry) =
              keyed-embed_entries handler file.scope md_path key (diff_entries entries existing).0
                rows e
              ∙ ap (built handler file.scope md_path)
                  (entry_for-diff file.scope.owner_id key entries existing distinct) in
            get-propagate_deprecations lance laws file.scope file.deprecated_entries changed key
            ∙ ap (mark file.scope file.deprecated_entries) (
                get-delete_entries lance laws delete_ids md_path key (upsert_rows lance rows table)
                ∙ ap (filter_row (λ row. not (gone md_path delete_ids row))) (
                    get-upsert_rows lance laws rows key table ids
                    ∙ ap (λ (o : Option (Row Payload)). or_else o (lance.get table key)) built_rows)
                ∙ step_synced handler file.scope md_path key entries existing (lance.get table key)
                    entry row_keyed (laws.got table key) (own key) unique keyed_rows builds refl),
      )

  -- With the laws of the table, fewer rows of the file than the query's limit, rows of the file
  -- under ids of its owner, entries with distinct ids, a row that can be built for each entry, and
  -- no deprecations in the frontmatter: where the index holds,
  -- under the id of one of the file's entries, the row of an entry of another file, as two projects
  -- of one owner give on one day, the handler replaces it. The row under that id is then the one
  -- built for this file, and the other file's entry is no longer in the index.
  pub handle_added_or_modified_collides :
      (md_path : String) (file : ParsedFile Structured) (table : Table)
      (entry : ParsedEntry Structured) (theirs : Row Payload)
      → length (lance.find_where (of_path md_path) find_limit table) < find_limit
      → OwnRows lance file.scope md_path table
      → Distinct (parse_entries handler file.entries)
      → AllBuild handler (parse_entries handler file.entries)
      → file.deprecated_entries ≡ []
      → entry_for file.scope.owner_id theirs.id (parse_entries handler file.entries) ≡ some entry
      → lance.get table theirs.id ≡ some theirs
      → theirs.md_path ≢ md_path
      → (after : Table) × (outcome : HandlerOutcome) × (mine : Row Payload)
        × (handle_added_or_modified lance handler md_path file table ≡ some (after, outcome))
        × (lance.get after theirs.id ≡ some mine)
        × (mine.md_path ≡ md_path)
  handle_added_or_modified_collides md_path file table entry theirs few own distinct builds d e g
        n =
      let (after, outcome, done, _, view) =
        handle_added_or_modified-synced md_path file table few own distinct builds in
      let payload_builds =
        All-entry_for (λ (x : ParsedEntry Structured). handler.build_payload x.structured ≢ none)
          file.scope.owner_id theirs.id (parse_entries handler file.entries) entry builds e in
      let old_kept = view theirs.id in
      elim (Option-cases (handler.build_payload entry.structured)) [
        | inl none_built ↦ absurd (payload_builds none_built)
        | inr (payload, p) ↦
            let mine = row_of handler file.scope md_path entry payload in
            let differs = test-of-ne theirs.md_path md_path n in
            let spec : mark file.scope file.deprecated_entries (
                  synced handler file.scope md_path
                    (entry_for file.scope.owner_id theirs.id (parse_entries handler file.entries))
                    (lance.get table theirs.id))
                ≡ some mine =
              rw (d, e, g)
                (rw (differs) (
                  ap (mark file.scope [])
                    (build_row-some handler file.scope md_path entry payload p))) in
            (after, outcome, mine, done, old_kept ∙ spec, unfold row_of in refl)
      ]

  -- With the laws of the table, fewer rows of the file than the query's limit, rows of the file
  -- under ids of its owner, entries with distinct ids, and a row that can be built for each entry:
  -- a row of the file whose entry is unchanged stays as it is in every column when the frontmatter
  -- lists no deprecation, so with the mark of an earlier deprecation if it has one. A deprecation
  -- that is taken out of the frontmatter stays in the index.
  pub stale_deprecation_kept :
      (md_path : String) (file : ParsedFile Structured) (table : Table)
      (entry : ParsedEntry Structured) (old : Row Payload)
      → length (lance.find_where (of_path md_path) find_limit table) < find_limit
      → OwnRows lance file.scope md_path table
      → Distinct (parse_entries handler file.entries)
      → AllBuild handler (parse_entries handler file.entries)
      → file.deprecated_entries ≡ []
      → entry_for file.scope.owner_id old.id (parse_entries handler file.entries) ≡ some entry
      → lance.get table old.id ≡ some old
      → old.md_path ≡ md_path
      → old.content_sha256 ≡ entry.content_sha256
      → (after : Table) × (outcome : HandlerOutcome) × (handle_added_or_modified lance handler
            md_path file table
          ≡ some (after, outcome))
        × (lance.get after old.id ≡ some old)
  unfolding is_current
  stale_deprecation_kept md_path file table entry old few own distinct builds d e g p c =
      let (after, outcome, done, _, view) =
        handle_added_or_modified-synced md_path file table few own distinct builds in
      let spec : mark file.scope file.deprecated_entries (
            synced handler file.scope md_path
              (entry_for file.scope.owner_id old.id (parse_entries handler file.entries))
              (lance.get table old.id))
          ≡ some old =
        rw (d, e, g)
          (rw
            ((eq_iff old.md_path md_path).1 p, (eq_iff old.content_sha256 entry.content_sha256).1 c)
            refl) in
      (after, outcome, done, view old.id ∙ spec)
