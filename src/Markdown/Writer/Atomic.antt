-- ===== src/Markdown/Writer/Atomic.antt =====
-- One write replaces the file whole, or leaves it.
use ever_os.Prelude.{
  Bool-cases, ◌≡◌, refl, sym, ◌∙◌, ◌≢◌, inl, inr, Bool, true, false, Option, none, some, arith,
  eq_iff, eq_refl,
}
use ever_os.Markdown.Text.{Text}
use ever_os.Markdown.Writer.{
  FilePath, Files, path_traversal, Result, ok, raised, FileSystem, put, is_relative_to,
  unlink_quiet, stage_and_replace, write,
}

-- A call that ends in this result left the file whole, and no staging file beside a new one.
abbrev pub Left : FilePath → FilePath → Text → Files → Files × Result FilePath → Type 0
Left path tmp content files (next, ok p) =
    (p ≡ path) × (next path ≡ some content) × (next tmp ≡ none)
Left path tmp content files (next, raised e) = next path ≡ files path

put_here :
    (path : FilePath) (content : Option Text) (files : Files)
    → put path content files path ≡ content
unfolding put
put_here path content files = rw (eq_refl path) refl

put_elsewhere :
    (path p : FilePath) (content : Option Text) (files : Files)
    → p ≢ path
    → put path content files p ≡ files p
unfolding put
put_elsewhere path p content files n = ground (arith, eq_iff path p)

module _ (path tmp : FilePath) (content : Text) (files : Files) (apart : tmp ≢ path) where
  unlink_quiet-elsewhere :
      (works : Bool) (part : Text) (p : FilePath)
      → p ≢ tmp
      → unlink_quiet works tmp (put tmp (some part) files) p ≡ files p
  unfolding unlink_quiet
  unlink_quiet-elsewhere true part p n =
      put_elsewhere tmp p none _ n ∙ put_elsewhere tmp p (some part) files n
  unlink_quiet-elsewhere false part p n = put_elsewhere tmp p (some part) files n

  stage_and_replace-Left :
      (torn : Option Text) (replaces unlinks : Bool)
      → Left path tmp content files (stage_and_replace torn replaces unlinks tmp path content files)
  unfolding stage_and_replace
  stage_and_replace-Left (some part) r u = unlink_quiet-elsewhere u part path (λ e. apart (sym e))
  stage_and_replace-Left none true u = (
    refl,
    put_elsewhere tmp path none _ (λ e. apart (sym e)) ∙ put_here path (some content) _,
    put_here tmp none _,
  )
  stage_and_replace-Left none false u = unlink_quiet-elsewhere u content path (λ e. apart (sym e))

  stage_and_replace-elsewhere :
      (torn : Option Text) (replaces unlinks : Bool) (p : FilePath)
      → p ≢ path
      → p ≢ tmp
      → (stage_and_replace torn replaces unlinks tmp path content files).0 p ≡ files p
  unfolding stage_and_replace
  stage_and_replace-elsewhere (some part) r u p n m = unlink_quiet-elsewhere u part p m
  stage_and_replace-elsewhere none true u p n m =
      put_elsewhere tmp p none _ m
      ∙ put_elsewhere path p (some content) _ n
      ∙ put_elsewhere tmp p (some content) files m
  stage_and_replace-elsewhere none false u p n m = unlink_quiet-elsewhere u content p m

module _ (disk : FileSystem) (path : FilePath) (content : Text) (files : Files) where
  -- When the staging file is another than the target, a write that returns has put the whole
  -- content at its path and removed the staging file, and a write that raises has left what was
  -- there, whatever the file system does; no path but the target and the staging file changes.
  pub write_atomic :
      disk.staging path ≢ path
      → Left path (disk.staging path) content files (write disk path content files)
        × ((p : FilePath)
            → p ≢ path
            → p ≢ disk.staging path
            → (write disk path content files).0 p ≡ files p)
  unfolding write put
  write_atomic apart = elim (Bool-cases (is_relative_to disk.root (disk.resolve path))) [
    | inr e ↦ (rw e refl, λ p n m. rw e refl)
    | inl e ↦ elim (Bool-cases disk.mkdir_works) [
      | inr g ↦ (rw (e, g) refl, λ p n m. rw (e, g) refl)
      | inl g ↦ (
        rw (e, g)
            (stage_and_replace-Left path (disk.staging path) content files apart disk.torn
              disk.replace_works disk.unlink_works),
        λ p n m.
            rw (e, g)
              (stage_and_replace-elsewhere path (disk.staging path) content files apart disk.torn
                disk.replace_works disk.unlink_works p n m),
      )
    ]
  ]

  -- A path that resolves outside the memory root is refused, and nothing is written or staged.
  pub write_outside :
      is_relative_to disk.root (disk.resolve path) ≡ false
      → write disk path content files ≡ (files, raised path_traversal)
  unfolding write
  write_outside h = rw (h, write) refl

-- The path lies under the memory root, no call of the file system fails, and the staging file is
-- another file.
pub record Works (disk : FileSystem) (path : FilePath) : Type 0 where
  pub within : is_relative_to disk.root (disk.resolve path) ≡ true
  pub mkdir_works : disk.mkdir_works ≡ true
  pub whole : disk.torn ≡ none
  pub replace_works : disk.replace_works ≡ true
  pub apart : disk.staging path ≢ path

-- Then a write returns the path, and the file holds the content.
pub write-Works :
    (disk : FileSystem) (path : FilePath) (content : Text) (files : Files)
    → Works disk path
    → ((write disk path content files).1 ≡ ok path)
      × ((write disk path content files).0 path ≡ some content)
unfolding write stage_and_replace
write-Works disk path content files w =
    let tmp = disk.staging path in
    let kept =
      put_elsewhere tmp path none (put path (some content) (put tmp (some content) files))
        (λ e. w.apart (sym e))
      ∙ put_here path (some content) _ in
    rw (w.within, w.mkdir_works) (rw (w.whole, w.replace_works) (refl, kept))
