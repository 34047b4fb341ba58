-- ===== src/Cascade/DailyLog/Tests.antt =====
-- The daily-log handler on a concrete table, and instances of its theorems.
use ever_os.Cascade.Worker.{HandlerOutcome}
use ever_os.Prelude.{
  ne-of-test, length, ℕ, ◌+◌, ◌<◌, String, ◌≡◌, refl, Option, none, some, List, [], ◌∷◌, arith,
}
use ever_os.Cascade.DailyLog.{
  Row, ParsedEntry, ParsedFile, find_limit, row_id, existing_by_entry, is_current, has_entry,
  diff_entries, to_delete_ids, DailyLogKind, parse_entries, build_row, embed_entries,
  handle_added_or_modified,
}
use ever_os.Cascade.DailyLog.Lance.{keyed}
use ever_os.Cascade.DailyLog.Keys.{entry_for, Distinct}
use ever_os.Cascade.DailyLog.Rows.{of_path, mark, AllBuild, synced}
use ever_os.Cascade.DailyLog.Step.{OwnRows}
use ever_os.Cascade.DailyLog.Refines.{
  handle_added_or_modified-synced, handle_added_or_modified_collides, stale_deprecation_kept,
}
use ever_os.Cascade.DailyLog.ListTable.{list_table, list_table-IsLance, All-keyed}

-- Entries whose content is a text, which serves as its own digest.
abbrev episodes : DailyLogKind String String
episodes = record { digest = λ s. s; build_payload = λ s. some s }

abbrev stored : String → String → String → Row String
stored md_path entry_id text = record {
  id = row_id "u1" entry_id;
  entry_id = entry_id;
  owner_id = "u1";
  app_id = "default";
  project_id = "default";
  md_path = md_path;
  content_sha256 = text;
  deprecated_by = none;
  payload = text;
}

-- An unchanged entry, a changed one, one that is gone, and a row of another file.
abbrev table : List (Row String)
table =
    stored "a.md" "e1" "one"
    ∷ stored "a.md" "e2" "old"
    ∷ stored "a.md" "e3" "gone"
    ∷ stored "b.md" "e9" "other"
    ∷ []

abbrev edited_file : ParsedFile String
edited_file = record {
  entries = ("e1", "one") ∷ ("e2", "new") ∷ ("e4", "four") ∷ [];
  deprecated_entries = ("e1", "e4") ∷ [];
  scope = record { owner_id = "u1"; app_id = "default"; project_id = "default" };
}

-- What a run counts: upserted, deleted and skipped.
abbrev counts : Option (List (Row String) × HandlerOutcome) → ℕ × ℕ × ℕ
counts none = (0, 0, 0)
counts (some (_, outcome)) = (outcome.upserted, outcome.deleted, outcome.skipped)

edited_counts :
    counts (handle_added_or_modified list_table episodes "a.md" edited_file table) ≡ (2, 1, 1)
unfolding handle_added_or_modified parse_entries diff_entries existing_by_entry is_current
    embed_entries build_row to_delete_ids has_entry row_id
edited_counts = refl

own_rows : OwnRows list_table edited_file.scope "a.md" table
own_rows key row h p =
    All-keyed (λ (r : Row String). r.id ≡ row_id "u1" r.entry_id) key table row
      (refl, (refl, (refl, (refl, tt)))) h

few_rows :
    length (list_table.find_where (of_path {Payload = String} "a.md") find_limit table) < find_limit
unfolding row_id
few_rows = omega arith

edited_Distinct : Distinct (parse_entries episodes edited_file.entries)
unfolding parse_entries has_entry
edited_Distinct = (refl, (refl, (refl, tt)))

edited_AllBuild : AllBuild episodes (parse_entries episodes edited_file.entries)
unfolding parse_entries
edited_AllBuild = (λ h. cc, (λ h. cc, (λ h. cc, tt)))

handle_added_or_modified-synced_example :
    (after : List (Row String)) × (outcome : HandlerOutcome) × (handle_added_or_modified list_table
        episodes "a.md" edited_file table
      ≡ some (after, outcome))
    × (outcome.upserted + outcome.skipped ≡ 3)
    × ((key : String)
        → keyed key after
          ≡ mark edited_file.scope edited_file.deprecated_entries (
              synced episodes edited_file.scope "a.md"
                (entry_for "u1" key (parse_entries episodes edited_file.entries))
                (keyed key table)))
handle_added_or_modified-synced_example =
    handle_added_or_modified-synced list_table episodes list_table-IsLance "a.md" edited_file table
      few_rows own_rows edited_Distinct edited_AllBuild

-- The same owner's log of the same day, in another project.
abbrev second_project : ParsedFile String
second_project = record {
  entries = ("e1", "mine") ∷ [];
  deprecated_entries = [];
  scope = record { owner_id = "u1"; app_id = "default"; project_id = "second" };
}

abbrev my_entry : ParsedEntry String
my_entry = record { entry_id = "e1"; structured = "mine"; content_sha256 = "mine" }

abbrev theirs : Row String
theirs = stored "first.md" "e1" "one"

handle_added_or_modified_collides_example :
    (after : List (Row String)) × (outcome : HandlerOutcome) × (mine : Row String)
    × (handle_added_or_modified list_table episodes "second.md" second_project (theirs ∷ [])
        ≡ some (after, outcome))
    × (keyed (row_id "u1" "e1") after ≡ some mine)
    × (mine.md_path ≡ "second.md")
handle_added_or_modified_collides_example =
    handle_added_or_modified_collides list_table episodes list_table-IsLance "second.md"
      second_project (theirs ∷ []) my_entry theirs (omega arith)
      (λ key row h p.
        All-keyed (λ (r : Row String). r.id ≡ row_id "u1" r.entry_id) key (theirs ∷ []) row
          (refl, tt) h)
      (unfold parse_entries has_entry in (refl, tt)) (unfold parse_entries in (λ h. cc, tt)) refl
      (unfold parse_entries row_id in refl) (unfold row_id in refl)
      (ne-of-test "first.md" "second.md" refl)

-- The mark of an earlier deprecation, which the file no longer lists.
abbrev marked : Row String
marked = record (stored "a.md" "e1" "one") { deprecated_by = some "e4" }

abbrev unmarked_file : ParsedFile String
unmarked_file = record {
  entries = ("e1", "one") ∷ [];
  deprecated_entries = [];
  scope = record { owner_id = "u1"; app_id = "default"; project_id = "default" };
}

abbrev same_entry : ParsedEntry String
same_entry = record { entry_id = "e1"; structured = "one"; content_sha256 = "one" }

stale_deprecation_kept_example :
    (after : List (Row String)) × (outcome : HandlerOutcome) × (handle_added_or_modified list_table
        episodes "a.md" unmarked_file
        (marked ∷ [])
      ≡ some (after, outcome))
    × (keyed marked.id after ≡ some marked)
stale_deprecation_kept_example =
    stale_deprecation_kept list_table episodes list_table-IsLance "a.md" unmarked_file (marked ∷ [])
      same_entry marked (omega arith)
      (λ key row h p.
        All-keyed (λ (r : Row String). r.id ≡ row_id "u1" r.entry_id) key (marked ∷ []) row
          (refl, tt) h)
      (unfold parse_entries has_entry in (refl, tt)) (unfold parse_entries in (λ h. cc, tt)) refl
      (unfold parse_entries row_id in refl) (unfold row_id in refl) refl refl
