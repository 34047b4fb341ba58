-- ===== src/Markdown/Writer.antt =====
-- src/everos/core/persistence/markdown/writer.py and reader.py: appending entries to a file, with
-- the frontmatter merged and the file replaced in one step. The lock of the path is held over each
-- call, so a call is one step of the model. The file system's answers are parameters.
pub mod Atomic
pub mod RoundTrip
use ever_os.Prelude.{
  eqb, if◌then◌else◌, String, Bool, true, false, not, ◌&&◌, Option, none, some, List, [], ◌∷◌, ◌++◌,
  ◌==◌,
}
use ever_os.Markdown.Text.{Text, newline, carriage_return, ends_with_newline}
use ever_os.Markdown.Entries.{Entry, split_entries, entry_block}
use ever_os.Markdown.Frontmatter.{
  Value, scalar, mapping, Meta, Yaml, parse_frontmatter, dump_frontmatter,
}

abbrev pub FilePath : Type 0
FilePath = String

abbrev pub Files : Type 0
Files = FilePath → Option Text

pub data Error : Type 0 where
  path_traversal : Error
  os_error : Error
  yaml_error : Error
  file_not_found : Error

pub data Result (A : Type 0) : Type 0 where
  ok : A → Result A
  raised : Error → Result A

-- The memory root, and what the file system answers: `resolve` as path segments, the name of the
-- staging file, what a failed staging leaves in it, and whether each other call succeeds.
pub record FileSystem : Type 0 where
  pub root : List String
  pub resolve : FilePath → List String
  pub staging : FilePath → FilePath
  pub mkdir_works : Bool
  pub torn : Option Text
  pub replace_works : Bool
  pub unlink_works : Bool

unfoldable pub put : FilePath → Option Text → Files → Files
put path content files p = if path == p then content else files p

-- `Path.is_relative_to`.
unfoldable pub is_relative_to : List String → List String → Bool
is_relative_to [] path = true
is_relative_to (r ∷ root) [] = false
is_relative_to (r ∷ root) (p ∷ path) = r == p && is_relative_to root path

-- Reading in text mode turns each line end into a newline.
unfoldable pub translate_newlines : Text → Text
translate_newlines [] = []
translate_newlines (c ∷ []) = if eqb c carriage_return then newline ∷ [] else c ∷ []
translate_newlines (c ∷ d ∷ s) =
    let rest = translate_newlines (d ∷ s) in
    if eqb c carriage_return then (if eqb d newline then rest else newline ∷ rest) else c ∷ rest

-- `dict.update`: a key that is there keeps its place.
unfoldable pub set_key {ℓ} : {V : Type ℓ} → String → V → List (String × V) → List (String × V)
set_key key value [] = (key, value) ∷ []
set_key key value ((k, v) ∷ rest) =
    if k == key then (k, value) ∷ rest else (k, v) ∷ set_key key value rest

unfoldable pub update {ℓ} : {V : Type ℓ} → List (String × V) → List (String × V) → List (String × V)
update entries [] = entries
update entries ((key, value) ∷ rest) = update (set_key key value entries) rest

unfoldable pub get_key {ℓ} : {V : Type ℓ} → String → List (String × V) → Option V
get_key key [] = none
get_key key ((k, v) ∷ rest) = if k == key then some v else get_key key rest

-- The new entries are pairs of a body and the text of an id.
unfoldable pub blocks : List (Text × Text) → Text
blocks [] = []
blocks ((body, id) ∷ rest) = entry_block id body ++ blocks rest

unfoldable pub with_newline : Text → Text
with_newline [] = []
with_newline (c ∷ s) = if ends_with_newline (c ∷ s) then c ∷ s else (c ∷ s) ++ newline ∷ []

unfoldable pub append_blocks : Text → List (Text × Text) → Text
append_blocks body [] = body
append_blocks body (entry ∷ entries) = with_newline body ++ blocks (entry ∷ entries)

-- `_unlink_quiet`.
unfoldable pub unlink_quiet : Bool → FilePath → Files → Files
unlink_quiet works tmp staged = if works then put tmp none staged else staged

-- The staging file is written, then moved onto the target; a failure of either takes it away.
unfoldable pub stage_and_replace :
    Option Text → Bool → Bool → FilePath → FilePath → Text → Files → Files × Result FilePath
stage_and_replace (some part) replaces unlinks tmp path content files =
    (unlink_quiet unlinks tmp (put tmp (some part) files), raised os_error)
stage_and_replace none replaces unlinks tmp path content files =
    let staged = put tmp (some content) files in
    if replaces
    then (put tmp none (put path (some content) staged), ok path)
    else (unlink_quiet unlinks tmp staged, raised os_error)

module _ (disk : FileSystem) where
  unfoldable pub write : FilePath → Text → Files → Files × Result FilePath
  write path content files =
      if not (is_relative_to disk.root (disk.resolve path))
      then (files, raised path_traversal)
      else if not disk.mkdir_works
      then (files, raised os_error)
      else stage_and_replace disk.torn disk.replace_works disk.unlink_works (disk.staging path) path
          content files

module _ {S : Type 0} where
  unfoldable pub merge_key : String → Value S → Meta S → Meta S
  merge_key key (scalar v) meta = set_key key (scalar v) meta
  merge_key key (mapping more) meta = elim (get_key key meta) [
    | some (mapping old) ↦ set_key key (mapping (update old more)) meta
    | _ ↦ set_key key (mapping more) meta
  ]

  unfoldable pub merge_updates : Meta S → Meta S → Meta S
  merge_updates meta [] = meta
  merge_updates meta ((key, value) ∷ rest) = merge_updates (merge_key key value meta) rest

module _ {S : Type 0} (yaml : Yaml S) where
  -- `MarkdownReader.read`: the frontmatter, the body and its entries.
  unfoldable pub read : FilePath → Files → Result (Meta S × Text × List Entry)
  read path files = elim (files path) [
    | none ↦ raised file_not_found
    | some raw ↦ elim (parse_frontmatter yaml (translate_newlines raw)) [
      | none ↦ raised yaml_error
      | some (meta, body) ↦ ok (meta, body, split_entries body)
    ]
  ]

  unfoldable pub load_existing : FilePath → Files → Result (Meta S × Text)
  load_existing path files = elim (files path) [
    | none ↦ ok ([], [])
    | some _ ↦ elim (read path files) [ ok (meta, body, _) ↦ ok (meta, body) | raised e ↦ raised e ]
  ]

module _ {S : Type 0} (yaml : Yaml S) (disk : FileSystem) where
  unfoldable pub write_markdown : FilePath → Meta S → Text → Files → Files × Result FilePath
  write_markdown path meta body files = write disk path (dump_frontmatter yaml meta ++ body) files

  unfoldable pub patch_frontmatter : FilePath → Meta S → Files → Files × Result (Unit {0})
  patch_frontmatter path updates files = elim (files path) [
    | none ↦ (files, raised file_not_found)
    | some raw ↦ elim (parse_frontmatter yaml (translate_newlines raw)) [
      | none ↦ (files, raised yaml_error)
      | some (meta, remainder) ↦
          let merged = merge_updates meta updates in
          let (next, written) = write disk path (dump_frontmatter yaml merged ++ remainder) files in
          (next, elim written [ ok _ ↦ ok tt | raised e ↦ raised e ])
    ]
  ]

  unfoldable pub append_entries :
      FilePath → List (Text × Text) → Meta S → Files → Files × Result FilePath
  append_entries path entries updates files =
      if not (is_relative_to disk.root (disk.resolve path))
      then (files, raised path_traversal)
      else elim (load_existing yaml path files) [
        | raised e ↦ (files, raised e)
        | ok (meta, body) ↦
            write_markdown path (update meta updates) (append_blocks body entries) files
      ]
