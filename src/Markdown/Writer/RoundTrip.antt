-- ===== src/Markdown/Writer/RoundTrip.antt =====
-- What was appended to a file is read back from it, behind what it held.
use mathlib.Core.List.{append-nil}
use ever_os.Prelude.{
  Bool-cases, length, All, ℕ, ◌+◌, ◌≡◌, refl, ap, ◌≢◌, inl, inr, true, false, none, some, List, [],
  ◌∷◌, ◌++◌, map, arith,
}
use ever_os.Markdown.Text.{Text, newline, carriage_return, search_first, ends_with_newline}
use ever_os.Markdown.Text.Search.{is_lines, has, ends-append}
use ever_os.Markdown.Entries.{match_open, Entry, split_entries, entry_block}
use ever_os.Markdown.Entries.Scan.{Splits, stop, split_from-Splits, Splits-append, Splits-line}
use ever_os.Markdown.Entries.RoundTrip.{
  IsWritable, entry_block-Splits, entry_block-is_lines, entry_block-return,
}
use ever_os.Markdown.Frontmatter.{Meta, Yaml, delim, parse_frontmatter, dump_frontmatter}
use ever_os.Markdown.Frontmatter.RoundTrip.{IsFaithful, parse_frontmatter-dump_frontmatter}
use ever_os.Markdown.Entries.Markers.{has-append}
use ever_os.Markdown.Writer.Atomic.{Works, write-Works}
use ever_os.Markdown.Writer.{
  FilePath, Files, Result, ok, raised, FileSystem, translate_newlines, update, blocks, with_newline,
  append_blocks, write, merge_updates, read, load_existing, write_markdown, patch_frontmatter,
  append_entries,
}

translate_newlines_same : (s : Text) → has carriage_return s ≡ false → translate_newlines s ≡ s
unfolding translate_newlines
translate_newlines_same [] h = refl
translate_newlines_same (c ∷ []) h = ground arith
translate_newlines_same (c ∷ d ∷ s) h = ground (arith, translate_newlines_same (d ∷ s))

-- The body and the id of an entry.
abbrev pub said : Entry → Text × Text
said entry = (entry.body, entry.id)

abbrev pub AllWritable : List (Text × Text) → Type 0
AllWritable = All (λ (entry : Text × Text). IsWritable entry.1 entry.0)

nothing_open : search_first match_open [] ≡ none
unfolding search_first
nothing_open = refl

blocks-Splits :
    (pos : ℕ) (entries : List (Text × Text))
    → AllWritable entries
    → (read_back : List Entry) × (map said read_back ≡ entries)
      × Splits pos (blocks entries) read_back
unfolding blocks
blocks-Splits pos [] w = ([], refl, stop nothing_open)
blocks-Splits pos ((body, id) ∷ rest) w =
    let (entry, i, b, s) = entry_block-Splits pos id body w.0 in
    let (others, e, t) = blocks-Splits (pos + length (entry_block id body)) rest w.1 in
    (entry ∷ others, cc, Splits-append s (entry_block-is_lines id body) refl t)

with_newline-Splits :
    (body : Text) (entries : List Entry)
    → Splits 0 body entries
    → Splits 0 (with_newline body) entries × (is_lines (with_newline body) ≡ true)
unfolding with_newline
with_newline-Splits [] entries s = (s, refl)
with_newline-Splits (c ∷ body) entries s = elim (Bool-cases (ends_with_newline (c ∷ body))) [
  | inl e ↦ (rw e s, rw e e)
  | inr e ↦
      (rw e (Splits-line s), rw e (unfold ends_with_newline in ends-append (c ∷ body) newline []))
]

-- The body that the writer puts behind the frontmatter holds the old entries and the new ones.
append_blocks-Splits :
    (body : Text) (old : List Entry) (entries : List (Text × Text))
    → AllWritable entries
    → Splits 0 body old
    → (more : List Entry) × (map said more ≡ entries)
      × Splits 0 (append_blocks body entries) (old ++ more)
unfolding append_blocks
append_blocks-Splits body old [] w s = ([], refl, rw append-nil s)
append_blocks-Splits body old (entry ∷ entries) w s =
    let (t, l) = with_newline-Splits body old s in
    let (more, e, u) = blocks-Splits (0 + length (with_newline body)) (entry ∷ entries) w in
    (more, e, Splits-append t l refl u)

blocks-return :
    (entries : List (Text × Text))
    → AllWritable entries
    → has carriage_return (blocks entries) ≡ false
unfolding blocks
blocks-return [] w = refl
blocks-return ((body, id) ∷ rest) w =
    has-append carriage_return (entry_block id body) _ (entry_block-return id body w.0)
      (blocks-return rest w.1)

with_newline-return :
    (body : Text)
    → has carriage_return body ≡ false
    → has carriage_return (with_newline body) ≡ false
unfolding with_newline
with_newline-return [] h = refl
with_newline-return (c ∷ body) h = elim (Bool-cases (ends_with_newline (c ∷ body))) [
  | inl e ↦ rw e h
  | inr e ↦ rw e (has-append carriage_return (c ∷ body) (newline ∷ []) h refl)
]

append_blocks-return :
    (body : Text) (entries : List (Text × Text))
    → has carriage_return body ≡ false
    → AllWritable entries
    → has carriage_return (append_blocks body entries) ≡ false
unfolding append_blocks
append_blocks-return body [] h w = h
append_blocks-return body (entry ∷ entries) h w =
    has-append carriage_return (with_newline body) _ (with_newline-return body h)
      (blocks-return (entry ∷ entries) w)

module _ {S : Type 0} (yaml : Yaml S) where
  -- The file holds this frontmatter and this body, whose entries are all closed. A file that is not
  -- there counts as an empty one.
  pub data Holds (files : Files) (path : FilePath) : Meta S → Text → List Entry → Type 0 where
    absent : files path ≡ none → Holds files path [] [] []
    present :
        {raw body : Text} {meta : Meta S} {entries : List Entry}
        → files path ≡ some raw
        → parse_frontmatter yaml (translate_newlines raw) ≡ some (meta, body)
        → has carriage_return body ≡ false
        → Splits 0 body entries
        → Holds files path meta body entries

  dump_frontmatter-return :
      (meta : Meta S)
      → IsFaithful yaml meta
      → has carriage_return (dump_frontmatter yaml meta) ≡ false
  unfolding dump_frontmatter
  dump_frontmatter-return [] faithful = refl
  dump_frontmatter-return (entry ∷ meta) faithful =
      has-append carriage_return (yaml.safe_dump (entry ∷ meta)) (delim ++ newline ∷ [])
        faithful.no_return refl

  load_existing_lem :
      (files : Files) (path : FilePath) {meta : Meta S} {body : Text} {entries : List Entry}
      → Holds files path meta body entries
      → load_existing yaml path files ≡ ok (meta, body)
  unfolding load_existing read
  load_existing_lem files path (absent e) = rw (e, load_existing) refl
  load_existing_lem files path (present e p n s) = rw (e, load_existing) (rw (e, read) (rw p refl))

  pub read-Holds :
      (files : Files) (path : FilePath) {meta : Meta S} {body raw : Text} {entries : List Entry}
      → files path ≡ some raw
      → Holds files path meta body entries
      → read yaml path files ≡ ok (meta, body, entries)
  unfolding read split_entries
  read-Holds files path e (absent a) = cc
  read-Holds files path e (present {body = body} {meta = meta} a p n s) =
      rw (a, read)
        (rw p (
          ap (λ (es : List Entry). ok (meta, body, es))
            (split_from-Splits (length body) s (omega arith))))

  Holds-body :
      (files : Files) (path : FilePath) {meta : Meta S} {body : Text} {entries : List Entry}
      → Holds files path meta body entries
      → (has carriage_return body ≡ false) × Splits 0 body entries
  Holds-body files path (absent e) = (refl, stop nothing_open)
  Holds-body files path (present e p n s) = (n, s)

  module _ (disk : FileSystem) where
    -- Where no call of the file system fails, the merged frontmatter is not empty and the YAML
    -- library loads what it dumps for it, the old body holds closed entries only, and each new entry has an
    -- id in the marker's alphabet and a body without its own close marker and without carriage
    -- returns, appending returns the path, and reading the file back gives the merged frontmatter
    -- and the old entries, unchanged, followed by the new ones in order; the new body again holds
    -- closed entries only, so the next append finds the same.
    pub read-append_entries :
        (path : FilePath) (entries : List (Text × Text)) (updates meta : Meta S) (body : Text)
        (old : List Entry) (files : Files)
        → Works disk path
        → Holds files path meta body old
        → update meta updates ≢ []
        → IsFaithful yaml (update meta updates)
        → AllWritable entries
        → let (written, result) = append_entries yaml disk path entries updates files in
          (more : List Entry) × (map said more ≡ entries)
          × (result ≡ ok path)
          × (read yaml path written
              ≡ ok (update meta updates, append_blocks body entries, old ++ more))
          × Holds written path (update meta updates) (append_blocks body entries) (old ++ more)
    unfolding append_entries write_markdown
    read-append_entries path entries updates meta body old files w h ne faithful a =
        let merged = update meta updates in
        let all = append_blocks body entries in
        let text = dump_frontmatter yaml merged ++ all in
        let (plain, split) = Holds-body files path h in
        let (more, said_more, split_all) = append_blocks-Splits body old entries a split in
        let (done, kept) = write-Works disk path text files w in
        let steps : append_entries yaml disk path entries updates files
            ≡ write disk path text files =
          rw (w.within, append_entries)
            (rw (load_existing_lem files path h, append_entries) refl) in
        let no_return = append_blocks-return body entries plain a in
        let clean =
          has-append carriage_return (dump_frontmatter yaml merged) all
            (dump_frontmatter-return merged faithful) no_return in
        let parsed : parse_frontmatter yaml (translate_newlines text) ≡ some (merged, all) =
          rw (translate_newlines_same text clean)
            (parse_frontmatter-dump_frontmatter yaml merged all ne faithful) in
        let held = present kept parsed no_return split_all in
        (
          more,
          said_more,
          rw (steps) done,
          rw (steps) (read-Holds _ path kept held),
          rw (steps) held,
        )

    -- Where no call of the file system fails, the merged frontmatter is not empty and the YAML
    -- library loads what it dumps for it, and the file is there with closed entries only, patching
    -- the frontmatter succeeds, and reading the file back gives the merged frontmatter with the
    -- body and the entries unchanged.
    pub read-patch_frontmatter :
        (path : FilePath) (updates meta : Meta S) (raw body : Text) (old : List Entry)
        (files : Files)
        → Works disk path
        → files path ≡ some raw
        → Holds files path meta body old
        → merge_updates meta updates ≢ []
        → IsFaithful yaml (merge_updates meta updates)
        → let (written, result) = patch_frontmatter yaml disk path updates files in
          (result ≡ ok tt)
          × (read yaml path written ≡ ok (merge_updates meta updates, body, old))
          × Holds written path (merge_updates meta updates) body old
    unfolding patch_frontmatter
    read-patch_frontmatter path updates meta raw body old files w there (absent e) ne faithful = cc
    read-patch_frontmatter path updates meta raw body old files w there (present e p n s) ne
          faithful =
        let merged = merge_updates meta updates in
        let text = dump_frontmatter yaml merged ++ body in
        let (done, kept) = write-Works disk path text files w in
        let clean =
          has-append carriage_return (dump_frontmatter yaml merged) body
            (dump_frontmatter-return merged faithful) n in
        let parsed : parse_frontmatter yaml (translate_newlines text) ≡ some (merged, body) =
          rw (translate_newlines_same text clean)
            (parse_frontmatter-dump_frontmatter yaml merged body ne faithful) in
        let held = present kept parsed n s in
        let after = write disk path text files in
        let steps : patch_frontmatter yaml disk path updates files ≡ (
          after.0,
          elim after.1 as (λ r. Result (Unit {0})) [ ok _ ↦ ok tt | raised x ↦ raised x ],
        ) =
          rw (e, patch_frontmatter) (rw (p, patch_frontmatter) refl) in
        (rw (steps) (rw done refl), rw (steps) (read-Holds _ path kept held), rw (steps) held)
