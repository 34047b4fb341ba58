-- ===== src/Markdown/Frontmatter.antt =====
-- src/everos/core/persistence/markdown/frontmatter.py: the YAML block at the head of a document.
-- The YAML library is a parameter.
pub mod RoundTrip
use ever_os.Prelude.{
  leb, eqb, if◌then◌else◌, ℕ, zero, suc, String, Bool, true, false, ◌&&◌, ◌||◌, Option, none, some,
  List, [], ◌∷◌, ◌++◌,
}
use ever_os.Markdown.Text.{Text, newline, carriage_return, strip_prefix}
use ever_os.Markdown.Entries.{codes, strip_leading}

-- A value of the frontmatter: a mapping, or any other.
pub data Value (S : Type 0) : Type 0 where
  scalar : S → Value S
  mapping : List (String × S) → Value S

abbrev pub Meta : Type 0 → Type 0
Meta S = List (String × Value S)

-- What `yaml.safe_load` makes of a text.
pub data Loaded (S : Type 0) : Type 0 where
  failed : Loaded S
  null : Loaded S
  dict : Meta S → Loaded S
  other : Loaded S

pub record Yaml (S : Type 0) : Type 0 where
  pub safe_load : Text → Loaded S
  pub safe_dump : Meta S → Text

abbrev pub delim : Text
delim = codes "---"

-- `str.isspace` of one character.
unfoldable pub is_space : ℕ → Bool
is_space c =
    (leb 9 c && leb c 13)
    || (leb 28 c && leb c 32)
    || eqb c 0x85
    || eqb c 0xa0
    || eqb c 0x1680
    || (leb 0x2000 c && leb c 0x200a)
    || eqb c 0x2028
    || eqb c 0x2029
    || eqb c 0x202f
    || eqb c 0x205f
    || eqb c 0x3000

-- `not text.strip()`.
unfoldable pub is_blank : Text → Bool
is_blank [] = true
is_blank (c ∷ s) = is_space c && is_blank s

unfoldable pub first_line : Text → Text
first_line [] = []
first_line (c ∷ s) = if eqb c newline then [] else c ∷ first_line s

-- `line.rstrip("\r")`.
unfoldable pub rstrip_return : Text → Text
rstrip_return [] = []
rstrip_return (c ∷ s) = elim (rstrip_return s) [
  | [] ↦ if eqb c carriage_return then [] else c ∷ []
  | d ∷ t ↦ c ∷ d ∷ t
]

unfoldable pub same_text : Text → Text → Bool
same_text [] [] = true
same_text [] (d ∷ t) = false
same_text (c ∷ s) [] = false
same_text (c ∷ s) (d ∷ t) = eqb c d && same_text s t

unfoldable pub is_delim_line : Text → Bool
is_delim_line s = same_text (rstrip_return (first_line s)) delim

-- The first line that is the delimiter, tried at each start of a line: the text before it, and
-- the text from it on.
unfoldable pub find_closing : Bool → Text → Option (Text × Text)
find_closing at_start [] = none
find_closing at_start (c ∷ s) =
    let later = find_closing (eqb c newline) s in
    if at_start && is_delim_line (c ∷ s)
    then some ([], c ∷ s)
    else elim later [ none ↦ none | some (before, from) ↦ some (c ∷ before, from) ]

unfoldable pub find_closing_delim : Text → Option (Text × Text)
find_closing_delim text = find_closing true text

-- The opening delimiter and the newline that must follow it, taken off.
unfoldable pub after_opening : Text → Option Text
after_opening text = elim (strip_prefix delim text) [
  | none ↦ none
  | some rest ↦ elim (strip_prefix (carriage_return ∷ newline ∷ []) rest) [
    | some r ↦ some r
    | none ↦ strip_prefix (newline ∷ []) rest
  ]
]

unfoldable pub drop : ℕ → Text → Text
drop zero s = s
drop (suc n) [] = []
drop (suc n) (c ∷ s) = drop n s

module _ {S : Type 0} (yaml : Yaml S) where
  unfoldable pub load_block : Text → Text → Text → Option (Meta S × Text)
  load_block text block remainder =
      if is_blank block then some ([], remainder) else elim (yaml.safe_load block) [
        | failed ↦ none
        | null ↦ some ([], remainder)
        | dict meta ↦ some (meta, remainder)
        | other ↦ some ([], text)
      ]

  -- The frontmatter and the text behind it; `none` where the YAML library raises.
  unfoldable pub parse_frontmatter : Text → Option (Meta S × Text)
  parse_frontmatter text = elim (after_opening text) [
    | none ↦ some ([], text)
    | some rest ↦ elim (find_closing_delim rest) [
      | none ↦ some ([], text)
      | some (block, from) ↦ load_block text block (strip_leading (drop 3 from))
    ]
  ]

  unfoldable pub dump_frontmatter : Meta S → Text
  dump_frontmatter [] = []
  dump_frontmatter (entry ∷ meta) =
      delim ++ (newline ∷ (yaml.safe_dump (entry ∷ meta) ++ (delim ++ newline ∷ [])))
