-- ===== src/Markdown/Entries/RoundTrip.antt =====
-- The blocks that the writer appends, read back by the scan.
use mathlib.Core.List.{append_assoc, append-nil}
use ever_os.Prelude.{
  ℕ, ◌+◌, ◌≡◌, refl, ◌∙◌, subst, ◌≢◌, true, false, none, some, [], ◌∷◌, ◌++◌, arith,
}
use ever_os.Markdown.Text.{
  Text, newline, carriage_return, strip_prefix, search_first, ends_with_newline,
}
use ever_os.Markdown.Text.Search.{
  is_lines, has, ends-append, search_first-none, Found, here, search_first-Found, Found-of_search,
  literal_self, search_first-append_none, match_newline, search_first_line,
}
use ever_os.Markdown.Entries.{
  open_marker, close_marker, match_open, match_close, Entry, strip_leading, strip_trailing,
  strip_one_newline, entry_at, entry_block, marker_suffix,
}
use ever_os.Markdown.Entries.Markers.{
  all_id, match_open-marker, has-append, all_id-return, match_close-IsMarker,
}
use ever_os.Markdown.Entries.Scan.{Splits, stop, next}

-- What an entry must be for the scan to read it back: an id in the alphabet of the marker, and a
-- body without its own close marker and without carriage returns.
pub record IsWritable (id body : Text) : Type 0 where
  pub id_chars : all_id id ≡ true
  pub id_ne_nil : id ≢ []
  pub no_close : search_first (match_close id) body ≡ none
  pub no_return : has carriage_return body ≡ false

strip_leading-newline : (c : ℕ) (s : Text) → strip_leading (newline ∷ c ∷ s) ≡ c ∷ s
unfolding strip_leading
strip_leading-newline c s = refl

strip_trailing-newline :
    (s : Text) → has carriage_return s ≡ false → strip_trailing (s ++ newline ∷ []) ≡ s
unfolding strip_trailing
strip_trailing-newline [] h = refl
strip_trailing-newline (c ∷ []) h = ground arith
strip_trailing-newline (c ∷ d ∷ []) h = ground (arith, strip_trailing-newline (d ∷ []))
strip_trailing-newline (c ∷ d ∷ e ∷ s) h = ground (arith, strip_trailing-newline (d ∷ e ∷ s))

-- The scan takes the two newlines around the body off again.
strip_one_newline-framed :
    (body : Text)
    → has carriage_return body ≡ false
    → strip_one_newline (newline ∷ (body ++ newline ∷ [])) ≡ body
unfolding strip_one_newline
strip_one_newline-framed [] h = unfold strip_trailing strip_leading in refl
strip_one_newline-framed (c ∷ s) h =
    rw (strip_leading-newline c (s ++ newline ∷ [])) (strip_trailing-newline (c ∷ s) h)

match_close_self :
    (id rest : Text) → match_close id (close_marker id ++ rest) ≡ some (close_marker id, rest)
unfolding match_close
match_close_self id rest = literal_self (close_marker id) rest

-- The first close marker behind the framed body is the one that the writer put there.
close-Found :
    (id body : Text)
    → IsWritable id body
    → let framed = newline ∷ (body ++ newline ∷ []) in
      Found
        (match_close id)
        (framed ++ (close_marker id ++ newline ∷ []))
        framed
        (close_marker id)
        (newline ∷ [])
unfolding ends_with_newline
close-Found id body w =
    let framed = newline ∷ (body ++ newline ∷ []) in
    let marks = match_close-IsMarker id w.id_chars in
    let nowhere =
      search_first-none (match_close id) newline (body ++ newline ∷ [])
        (match_newline (match_close id) marks (body ++ newline ∷ []))
        (search_first_line (match_close id) marks body w.no_close) in
    let marker : Found (match_close id) (close_marker id ++ newline ∷ []) [] (close_marker id)
        (newline ∷ []) =
      unfold close_marker in here (match_close_self id (newline ∷ [])) in
    let behind =
      search_first-append_none (match_close id) marks framed (close_marker id ++ newline ∷ [])
        (ends-append (newline ∷ body) newline []) nowhere in
    let found = behind ∙ rw (search_first-Found marker) (rw append-nil refl) in
    Found-of_search (match_close id) _ framed (close_marker id) (newline ∷ []) found

blank_Splits : search_first match_open (newline ∷ []) ≡ none
unfolding search_first match_open strip_prefix
blank_Splits = refl

-- A block holds its entry, and leaves no open marker behind.
pub entry_block-Splits :
    (pos : ℕ) (id body : Text)
    → IsWritable id body
    → (entry : Entry) × (entry.id ≡ id)
      × (entry.body ≡ body)
      × Splits pos (entry_block id body) (entry ∷ [])
unfolding entry_block entry_at
entry_block-Splits pos [] body w = absurd (w.id_ne_nil refl)
entry_block-Splits pos (c ∷ id) body w =
    let framed = newline ∷ (body ++ newline ∷ []) in
    let tail = framed ++ (close_marker (c ∷ id) ++ newline ∷ []) in
    let entry = entry_at (pos + 0) (c ∷ id) framed in
    let opened : Found match_open (open_marker (c ∷ id) ++ tail) [] (c ∷ id) tail =
      unfold open_marker in here (match_open-marker c id tail w.id_chars) in
    let splits = next {pos = pos} opened (close-Found (c ∷ id) body w) refl (stop blank_Splits) in
    (
      entry,
      refl,
      strip_one_newline-framed body w.no_return,
      subst (λ (t : Text). Splits pos (open_marker (c ∷ id) ++ t) (entry ∷ []))
          (append_assoc (newline ∷ body) (newline ∷ []) (close_marker (c ∷ id) ++ newline ∷ []))
          splits,
    )

pub entry_block-is_lines : (id body : Text) → is_lines (entry_block id body) ≡ true
unfolding entry_block open_marker ends_with_newline
entry_block-is_lines id body =
    let closing = close_marker id ++ newline ∷ [] in
    ends-append (open_marker id) newline (body ++ newline ∷ closing)
    ∙ ends-append (newline ∷ body) newline closing
    ∙ ends-append (newline ∷ close_marker id) newline []

-- The writer adds no carriage return.
pub entry_block-return :
    (id body : Text) → IsWritable id body → has carriage_return (entry_block id body) ≡ false
unfolding entry_block open_marker close_marker
entry_block-return id body w =
    let plain = has-append carriage_return id marker_suffix (all_id-return id w.id_chars) refl in
    has-append carriage_return (open_marker id) _ plain (
      has-append carriage_return body _ w.no_return
        (has-append carriage_return (close_marker id) (newline ∷ []) plain refl))
