-- ===== src/Markdown/Tests.antt =====
-- The markdown modules on concrete files, and instances of their theorems.
use ever_os.Prelude.{
  if◌then◌else◌, ne-of-test, ℕ, ◌≡◌, refl, ◌≢◌, true, Option, none, some, List, [], ◌∷◌, ◌++◌, map,
  ◌==◌,
}
use ever_os.Markdown.Text.{Text, strip_prefix, literal, search_first, ends_with_newline}
use ever_os.Markdown.Entries.{
  codes, is_id_char, span_id, open_marker, close_marker, match_suffix, match_id, match_open,
  match_close, Entry, strip_leading, strip_trailing, strip_one_newline, entry_at, split_from,
  split_entries, find_entry, entry_block,
}
use ever_os.Markdown.EntryId.{
  Calendar, EntryId, parsed, digits_from, digits, zeros, padded, format, parse, next_for,
}
use ever_os.Markdown.EntryId.RoundTrip.{parse-format}
use ever_os.Markdown.Frontmatter.{
  scalar, Meta, failed, dict, Yaml, is_space, is_blank, first_line, rstrip_return, same_text,
  is_delim_line, find_closing, find_closing_delim, after_opening, parse_frontmatter,
}
use ever_os.Markdown.Frontmatter.RoundTrip.{IsFaithful}
use ever_os.Markdown.Writer.{
  FilePath, Files, ok, FileSystem, is_relative_to, translate_newlines, set_key, update,
  append_blocks, write, merge_key, merge_updates, read, patch_frontmatter, append_entries,
}
use ever_os.Markdown.Entries.Scan.{Splits}
use ever_os.Markdown.Entries.RoundTrip.{entry_block-Splits}
use ever_os.Markdown.Writer.Atomic.{Left, write_atomic, Works}
use ever_os.Markdown.Writer.RoundTrip.{
  said, AllWritable, Holds, absent, present, read-append_entries, read-patch_frontmatter,
}

-- Dates as texts, with the one layout that the ids use.
abbrev plain_calendar : Calendar Text
plain_calendar = record { strftime = λ d. d; strptime = λ s. some s }

abbrev first_id : EntryId Text
first_id = next_for (codes "ep") (codes "20260101") 0

first_id_text : format plain_calendar first_id ≡ codes "ep_20260101_00000001"
unfolding format padded digits digits_from zeros next_for
first_id_text = refl

parse-format_example : parse plain_calendar (format plain_calendar first_id) ≡ parsed first_id
parse-format_example =
    parse-format plain_calendar first_id (unfold next_for in λ h. cc) refl (unfold next_for in refl)

abbrev two_entries : Text
two_entries =
    codes
      "intro\n<!-- entry:a -->\nfirst\n<!-- /entry:a -->\n<!-- entry:b -->second<!-- /entry:b -->"

split_two :
    map said (split_entries two_entries)
    ≡ (codes "first", codes "a") ∷ (codes "second", codes "b") ∷ []
unfolding split_entries split_from search_first match_open match_id match_suffix span_id is_id_char
    strip_prefix match_close literal close_marker open_marker entry_at strip_one_newline
    strip_leading strip_trailing
split_two = refl

-- An open marker that nothing closes ends the scan.
split_unterminated : split_entries (codes "<!-- entry:a -->text<!-- /entry:b -->") ≡ []
unfolding split_entries split_from search_first match_open match_id match_suffix span_id is_id_char
    strip_prefix match_close literal close_marker open_marker
split_unterminated = refl

abbrev said_of : Option Entry → Option (Text × Text)
said_of none = none
said_of (some entry) = some (said entry)

find_second : said_of (find_entry two_entries (codes "b")) ≡ some (codes "second", codes "b")
unfolding find_entry search_first strip_prefix match_close literal close_marker open_marker entry_at
    strip_one_newline strip_leading strip_trailing
find_second = refl

-- A YAML library that knows one mapping.
abbrev count_one : Meta ℕ
count_one = ("entry_count", scalar 1) ∷ []

abbrev tiny_yaml : Yaml ℕ
tiny_yaml = record {
  safe_load = λ s. if same_text s (codes "entry_count: 1\n") then dict count_one else failed;
  safe_dump = λ m. codes "entry_count: 1\n";
}

tiny_yaml-IsFaithful : IsFaithful tiny_yaml count_one
unfolding same_text is_blank is_space ends_with_newline find_closing_delim find_closing
    is_delim_line rstrip_return first_line
tiny_yaml-IsFaithful = record {
  loads = refl;
  not_blank = refl;
  lines = refl;
  no_delim = refl;
  no_return = refl;
}

abbrev healthy_disk : FileSystem
healthy_disk = record {
  root = "mem" ∷ [];
  resolve = λ p. "mem" ∷ p ∷ [];
  staging = λ p. "tmp";
  mkdir_works = true;
  torn = none;
  replace_works = true;
  unlink_works = true;
}

healthy_disk-Works : Works healthy_disk "log.md"
unfolding is_relative_to
healthy_disk-Works = record {
  within = refl;
  mkdir_works = refl;
  whole = refl;
  replace_works = refl;
  apart = ne-of-test "tmp" "log.md" refl;
}

abbrev no_files : Files
no_files p = none

abbrev one_entry : List (Text × Text)
one_entry = (codes "hello", codes "ep_1") ∷ []

one_entry-AllWritable : AllWritable one_entry
unfolding is_id_char search_first match_close literal strip_prefix close_marker
one_entry-AllWritable =
    (record { id_chars = refl; id_ne_nil = λ h. cc; no_close = refl; no_return = refl }, tt)

read-append_entries_example :
    let (written, result) =
      append_entries tiny_yaml healthy_disk "log.md" one_entry count_one no_files in
    (more : List Entry) × (map said more ≡ one_entry)
    × (result ≡ ok "log.md")
    × (read tiny_yaml "log.md" written
        ≡ ok (update [] count_one, append_blocks [] one_entry, [] ++ more))
    × Holds tiny_yaml written "log.md"
        (update [] count_one)
        (append_blocks [] one_entry)
        ([] ++ more)
read-append_entries_example =
    read-append_entries tiny_yaml healthy_disk "log.md" one_entry count_one [] [] [] no_files
      healthy_disk-Works (absent refl) (unfold update set_key in λ h. cc)
      (unfold update set_key in tiny_yaml-IsFaithful) one_entry-AllWritable

-- A file without frontmatter that holds one entry.
abbrev held_body : Text
held_body = entry_block (codes "ep_1") (codes "hello")

abbrev held_block :
    (entry : Entry) × (entry.id ≡ codes "ep_1")
    × (entry.body ≡ codes "hello")
    × Splits 0 held_body (entry ∷ [])
held_block = entry_block-Splits 0 (codes "ep_1") (codes "hello") one_entry-AllWritable.0

abbrev one_file : Files
one_file p = if p == "log.md" then some held_body else none

one_file-Holds : Holds tiny_yaml one_file "log.md" [] held_body (held_block.0 ∷ [])
unfolding entry_block parse_frontmatter translate_newlines open_marker close_marker after_opening
    strip_prefix
one_file-Holds = present refl refl refl held_block.3

read-patch_frontmatter_example :
    let (written, result) = patch_frontmatter tiny_yaml healthy_disk "log.md" count_one one_file in
    (result ≡ ok tt)
    × (read tiny_yaml "log.md" written
        ≡ ok (merge_updates [] count_one, held_body, held_block.0 ∷ []))
    × Holds tiny_yaml written "log.md" (merge_updates [] count_one) held_body (held_block.0 ∷ [])
read-patch_frontmatter_example =
    read-patch_frontmatter tiny_yaml healthy_disk "log.md" count_one [] held_body held_body
      (held_block.0 ∷ []) one_file healthy_disk-Works refl one_file-Holds
      (unfold merge_updates merge_key set_key in λ h. cc)
      (unfold merge_updates merge_key set_key in tiny_yaml-IsFaithful)

write_atomic_example :
    Left "log.md" "tmp" (codes "x") no_files (write healthy_disk "log.md" (codes "x") no_files)
    × ((p : FilePath)
        → p ≢ "log.md"
        → p ≢ "tmp"
        → (write healthy_disk "log.md" (codes "x") no_files).0 p ≡ no_files p)
write_atomic_example =
    write_atomic healthy_disk "log.md" (codes "x") no_files (ne-of-test "tmp" "log.md" refl)
