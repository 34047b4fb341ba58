-- ===== src/Markdown/Entries.antt =====
-- src/everos/core/persistence/markdown/entries.py: the ids of entries, the marked spans of a body.
pub mod Markers
pub mod Scan
pub mod RoundTrip
use Prim.Native.Char.{code}
use ever_os.Prelude.{
  leb, eqb, if◌then◌else◌, length, ℕ, zero, suc, ◌+◌, String, Bool, ◌&&◌, ◌||◌, Option, none, some,
  List, [], ◌∷◌, ◌++◌,
}
use ever_os.Markdown.Text.{
  Text, Pattern, newline, carriage_return, strip_prefix, literal, search_first,
}

-- The code points of a text literal.
abbrev pub codes : String → Text
codes String.[] = []
codes (String.◌∷◌ c s) = code c ∷ codes s

-- The alphabet of an id in a marker.
unfoldable pub is_id_char : ℕ → Bool
is_id_char c =
    (leb b'A' c && leb c b'Z')
    || (leb b'a' c && leb c b'z')
    || (leb b'0' c && leb c b'9')
    || eqb c b'_'
    || eqb c b'-'

-- The longest run of id characters, and the rest.
unfoldable pub span_id : Text → Text × Text
unfolding is_id_char
span_id [] = ([], [])
span_id (c ∷ s) = let (id, rest) = span_id s in if is_id_char c then (c ∷ id, rest) else ([], c ∷ s)

abbrev open_prefix : Text
open_prefix = codes "<!-- entry:"

abbrev close_prefix : Text
close_prefix = codes "<!-- /entry:"

abbrev marker_suffix : Text
marker_suffix = codes " -->"

unfoldable pub open_marker : Text → Text
open_marker id = open_prefix ++ (id ++ marker_suffix)

unfoldable pub close_marker : Text → Text
close_marker id = close_prefix ++ (id ++ marker_suffix)

-- The open marker's pattern, after its prefix. A space ends the id, so the longest run is the only
-- one that fits.
unfoldable pub match_suffix : Text → Text → Option (Text × Text)
match_suffix [] s = none
match_suffix (c ∷ id) s = elim (strip_prefix marker_suffix s) [
  | none ↦ none
  | some rest ↦ some (c ∷ id, rest)
]

unfoldable pub match_id : Text → Option (Text × Text)
match_id s = let (id, rest) = span_id s in match_suffix id rest

unfoldable pub match_open : Pattern
match_open s = elim (strip_prefix open_prefix s) [ none ↦ none | some after ↦ match_id after ]

unfoldable pub match_close : Text → Pattern
match_close id = literal (close_marker id)

pub record Entry : Type 0 where
  pub id : Text
  pub body : Text
  pub start : ℕ
  pub stop : ℕ

unfoldable pub strip_leading : Text → Text
strip_leading [] = []
strip_leading (c ∷ []) = if eqb c newline then [] else c ∷ []
strip_leading (c ∷ d ∷ s) =
    if eqb c carriage_return && eqb d newline then s else if eqb c newline then d ∷ s else c ∷ d ∷ s

unfoldable pub strip_trailing : Text → Text
strip_trailing [] = []
strip_trailing (c ∷ []) = if eqb c newline then [] else c ∷ []
strip_trailing (c ∷ d ∷ []) =
    if eqb d newline then (if eqb c carriage_return then [] else c ∷ []) else c ∷ d ∷ []
strip_trailing (c ∷ d ∷ e ∷ s) = c ∷ strip_trailing (d ∷ e ∷ s)

unfoldable pub strip_one_newline : Text → Text
strip_one_newline text = strip_trailing (strip_leading text)

-- The entry whose open marker stands at offset `start`.
unfoldable pub entry_at : ℕ → Text → Text → Entry
entry_at start id content = record {
  id = id;
  body = strip_one_newline content;
  start = start;
  stop = start + length (open_marker id) + length content + length (close_marker id);
}

-- One round of the scan from offset `pos` of the body. The fuel bounds the rounds.
unfoldable pub split_from : ℕ → ℕ → Text → List Entry
split_from zero pos s = []
split_from (suc fuel) pos s = elim (search_first match_open s) [
  | none ↦ []
  | some (before, id, after) ↦ elim (search_first (match_close id) after) [
    | none ↦ []
    | some (content, _, rest) ↦
        let entry = entry_at (pos + length before) id content in
        entry ∷ split_from fuel entry.stop rest
  ]
]

unfoldable pub split_entries : Text → List Entry
split_entries body = split_from (length body) 0 body

unfoldable pub find_entry : Text → Text → Option Entry
find_entry body id = elim (search_first (literal (open_marker id)) body) [
  | none ↦ none
  | some (before, _, after) ↦ elim (search_first (match_close id) after) [
    | none ↦ none
    | some (content, _, _) ↦ some (entry_at (length before) id content)
  ]
]

-- The text that the writer appends for one entry: its markers, with the body on lines of its own.
unfoldable pub entry_block : Text → Text → Text
entry_block id body =
    open_marker id ++ (newline ∷ (body ++ (newline ∷ (close_marker id ++ newline ∷ []))))
