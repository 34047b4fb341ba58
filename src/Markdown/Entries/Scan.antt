-- ===== src/Markdown/Entries/Scan.antt =====
-- A body whose entries are all closed, and the scan of such bodies put one behind the other.
use ever_os.Prelude.{
  length, length-append, ℕ, zero, suc, ◌+◌, ◌≤◌, ◌≡◌, refl, ap, ◌∙◌, ◌≢◌, true, none, List, [], ◌∷◌,
  ◌++◌, arith,
}
use ever_os.Markdown.Text.{Text, newline, search_first}
use ever_os.Markdown.Text.Search.{
  is_lines, Found, here, later, search_first-Found, Found-of_search, Found-length, Found-append,
  search_first-append_none, Found-shrinks, Found-is_lines, Found-line, search_first_line,
}
use ever_os.Markdown.Entries.{
  open_marker, close_marker, match_open, match_close, Entry, entry_at, split_from,
}
use ever_os.Markdown.Entries.Markers.{
  all_id, match_open_id, match_open-IsMarker, match_close-IsMarker, match_open-length,
  match_close-length,
}

-- From offset `pos` the text holds these entries, each one closed, and no open marker behind them.
pub data Splits : ℕ → Text → List Entry → Type 0 where
  stop : {pos : ℕ} {s : Text} → search_first match_open s ≡ none → Splits pos s []
  next :
      {pos : ℕ} {s before id after content close rest : Text} {entry : Entry} {entries : List Entry}
      → Found match_open s before id after
      → Found (match_close id) after content close rest
      → entry ≡ entry_at (pos + length before) id content
      → Splits entry.stop rest entries
      → Splits pos s (entry ∷ entries)

Found-id :
    {s before id after : Text} → Found match_open s before id after → (all_id id ≡ true) × (id ≢ [])
Found-id (here {c} {s} {found} {rest} h) =
    let (_, _, a, n, _, _) = match_open_id (c ∷ s) found rest h in (a, n)
Found-id (later h f) = Found-id f

-- What is left behind an entry starts at its end.
stop-length :
    {s before id after content close rest : Text} (pos : ℕ) (entry : Entry)
    → Found match_open s before id after
    → Found (match_close id) after content close rest
    → entry ≡ entry_at (pos + length before) id content
    → entry.stop + length rest ≡ pos + length s
unfolding entry_at
stop-length {id = id} pos entry f g e =
    let wide = λ (found : Text). length (open_marker found) in
    let close_wide = λ (found : Text). length (close_marker id) in
    ground (
      arith,
      Found-length match_open wide match_open-length f,
      Found-length (match_close id) close_wide (match_close-length id) g,
    )

-- The scan returns every entry of such a body, with any fuel from its length on.
pub split_from-Splits :
    {pos : ℕ} {s : Text} {entries : List Entry} (fuel : ℕ)
    → Splits pos s entries
    → length s ≤ fuel
    → split_from fuel pos s ≡ entries
unfolding split_from
split_from-Splits zero (stop h) l = refl
split_from-Splits (suc fuel) (stop h) l = rw (h, split_from) refl
split_from-Splits zero (next f g e r) l =
    absurd (omega (arith, Found-shrinks match_open match_open-IsMarker f))
split_from-Splits (suc fuel) (next {id = id} {entry = entry} f g e r) l =
    let close = match_close-IsMarker id (Found-id f).0 in
    let rest = split_from-Splits fuel r (
      omega (
        arith,
        Found-shrinks match_open match_open-IsMarker f,
        Found-shrinks (match_close id) close g,
      )) in
    rw (search_first-Found f, split_from)
      (rw (search_first-Found g, split_from) (rw (← e) (ap (◌∷◌ entry) rest)))

-- Lines without an open marker before such a body shift it.
pub Splits-behind :
    {pos : ℕ} {t : Text} {entries : List Entry} (s : Text) (at : ℕ)
    → is_lines s ≡ true
    → search_first match_open s ≡ none
    → at + length s ≡ pos
    → Splits pos t entries
    → Splits at (s ++ t) entries
Splits-behind s at l h e (stop n) =
    stop (search_first-append_none match_open match_open-IsMarker s _ l h ∙ rw n refl)
Splits-behind s at l h e
      (next {pos} {before = before} {id = id} {after = after} {content = content} f g q r) =
    let place : pos + length before ≡ at + length (s ++ before) =
      omega (arith, e, length-append s before) in
    let found =
      search_first-append_none match_open match_open-IsMarker s _ l h
      ∙ rw (search_first-Found f) refl in
    next (Found-of_search match_open _ (s ++ before) id after found) g
      (q ∙ ap (λ (n : ℕ). entry_at n id content) place) r

-- Such a body behind another holds the entries of both.
pub Splits-append :
    {pos mid : ℕ} {s t : Text} {entries more : List Entry}
    → Splits pos s entries
    → is_lines s ≡ true
    → pos + length s ≡ mid
    → Splits mid t more
    → Splits pos (s ++ t) (entries ++ more)
Splits-append (stop {pos} {s} h) l e k = Splits-behind s pos l h e k
Splits-append (next {pos} {id = id} {entry = entry} f g q r) l e k =
    let close = match_close-IsMarker id (Found-id f).0 in
    let after_lines = Found-is_lines match_open match_open-IsMarker l f in
    next (Found-append match_open match_open-IsMarker _ l f)
      (Found-append (match_close id) close _ after_lines g) q
      (Splits-append r (Found-is_lines (match_close id) close after_lines g)
        (omega (arith, e, stop-length pos entry f g q)) k)

-- Such a body with a newline behind holds the same entries.
pub Splits-line :
    {pos : ℕ} {s : Text} {entries : List Entry}
    → Splits pos s entries
    → Splits pos (s ++ newline ∷ []) entries
Splits-line (stop {s = s} h) = stop (search_first_line match_open match_open-IsMarker s h)
Splits-line (next {id = id} f g q r) =
    next (Found-line match_open match_open-IsMarker [] f)
      (Found-line (match_close id) (match_close-IsMarker id (Found-id f).0) [] g) q (Splits-line r)
