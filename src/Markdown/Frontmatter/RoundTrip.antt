-- ===== src/Markdown/Frontmatter/RoundTrip.antt =====
-- A document that starts with a dumped frontmatter is parsed back.
use mathlib.Core.List.{append_assoc, append-nil}
use ever_os.Prelude.{
  eqb, ◌≡◌, refl, ap, ◌∙◌, ◌≢◌, Bool, true, false, Option, none, some, [], ◌∷◌, ◌++◌, arith,
}
use ever_os.Markdown.Text.{Text, newline, carriage_return, strip_prefix, ends_with_newline}
use ever_os.Markdown.Text.Search.{has, ends-cons}
use ever_os.Markdown.Entries.{strip_leading}
use ever_os.Markdown.Frontmatter.{
  Meta, dict, Yaml, delim, is_blank, first_line, rstrip_return, same_text, is_delim_line,
  find_closing, find_closing_delim, after_opening, drop, load_block, parse_frontmatter,
  dump_frontmatter,
}

-- What the writer relies on of the YAML library for a frontmatter: its dump is made of lines of
-- which none is the delimiter, not all of them blank, without carriage returns, and is loaded back.
pub record IsFaithful {S : Type 0} (yaml : Yaml S) (meta : Meta S) : Type 0 where
  pub loads : yaml.safe_load (yaml.safe_dump meta) ≡ dict meta
  pub not_blank : is_blank (yaml.safe_dump meta) ≡ false
  pub lines : ends_with_newline (yaml.safe_dump meta) ≡ true
  pub no_delim : find_closing_delim (yaml.safe_dump meta) ≡ none
  pub no_return : has carriage_return (yaml.safe_dump meta) ≡ false

first_line-append : (s t : Text) → ends_with_newline s ≡ true → first_line (s ++ t) ≡ first_line s
unfolding first_line
first_line-append [] t h = unfold ends_with_newline in cc
first_line-append (c ∷ s) t h = ground (arith, ends-cons c s, first_line-append s t)

is_delim_line-append :
    (s t : Text) → ends_with_newline s ≡ true → is_delim_line (s ++ t) ≡ is_delim_line s
unfolding is_delim_line
is_delim_line-append s t h = rw (first_line-append s t h) refl

abbrev shift_pair : Text → Option (Text × Text) → Option (Text × Text)
shift_pair s none = none
shift_pair s (some (before, from)) = some (s ++ before, from)

-- Behind whole lines without a delimiter the search goes on at the start of a line.
find_closing-append :
    (at_start : Bool) (s t : Text)
    → ends_with_newline s ≡ true
    → find_closing at_start s ≡ none
    → find_closing at_start (s ++ t) ≡ shift_pair s (find_closing true t)
unfolding find_closing ends_with_newline
find_closing-append at_start [] t l h = cc
find_closing-append at_start (c ∷ []) t l h = ground (arith, is_delim_line-append (c ∷ []) t)
find_closing-append at_start (c ∷ d ∷ s) t l h =
    ground
      (arith, is_delim_line-append (c ∷ d ∷ s) t, find_closing-append (eqb c newline) (d ∷ s) t l)

find_closing_here :
    (t : Text) → find_closing true (delim ++ (newline ∷ t)) ≡ some ([], delim ++ (newline ∷ t))
unfolding find_closing is_delim_line first_line rstrip_return same_text
find_closing_here t = refl

strip_leading-newline : (t : Text) → strip_leading (newline ∷ t) ≡ t
unfolding strip_leading
strip_leading-newline [] = refl
strip_leading-newline (c ∷ t) = refl

module _ {S : Type 0} (yaml : Yaml S) where
  -- A document made of a frontmatter that is not empty and a body is parsed into the two.
  pub parse_frontmatter-dump_frontmatter :
      (meta : Meta S) (body : Text)
      → meta ≢ []
      → IsFaithful yaml meta
      → parse_frontmatter yaml (dump_frontmatter yaml meta ++ body) ≡ some (meta, body)
  unfolding parse_frontmatter dump_frontmatter load_block after_opening strip_prefix
      find_closing_delim drop
  parse_frontmatter-dump_frontmatter [] body ne faithful = absurd (ne refl)
  parse_frontmatter-dump_frontmatter (entry ∷ meta) body ne faithful =
      let full = entry ∷ meta in
      let dump = yaml.safe_dump full in
      let closing = delim ++ (newline ∷ body) in
      let found : find_closing true (dump ++ closing) ≡ some (dump, closing) =
        find_closing-append true dump closing (faithful.lines) (faithful.no_delim)
        ∙ rw (find_closing_here body) (rw append-nil refl) in
      rw (append_assoc dump (delim ++ newline ∷ []) body) (
        rw (found, parse_frontmatter)
          (rw (faithful.not_blank, load_block)
            (rw (faithful.loads, load_block)
              (ap (λ (t : Text). some (full, t)) (strip_leading-newline body)))))
