-- ===== src/Markdown/Text.antt =====
-- Texts as lists of code points: Python's `startswith`, `endswith`, and the search of a regular
-- expression that matches no empty text.
pub mod Search
use ever_os.Prelude.{eqb, if◌then◌else◌, ℕ, Bool, false, Option, none, some, List, [], ◌∷◌}

abbrev pub Text : Type 0
Text = List ℕ

-- A pattern takes what it matches off the front of a text, and leaves the rest.
abbrev pub Pattern : Type 0
Pattern = Text → Option (Text × Text)

abbrev pub newline : ℕ
newline = 10

abbrev pub carriage_return : ℕ
carriage_return = 13

unfoldable pub strip_prefix : Text → Text → Option Text
strip_prefix [] s = some s
strip_prefix (c ∷ p) [] = none
strip_prefix (c ∷ p) (d ∷ s) = if eqb c d then strip_prefix p s else none

-- The pattern that matches one text.
unfoldable pub literal : Text → Pattern
literal p s = elim (strip_prefix p s) [ none ↦ none | some rest ↦ some (p, rest) ]

-- `Pattern.search`: the text before the first match, the match, and the text after it.
unfoldable pub search_first : Pattern → Text → Option (Text × Text × Text)
search_first match [] = none
search_first match (c ∷ s) = elim (match (c ∷ s)) [
  | some (found, rest) ↦ some ([], found, rest)
  | none ↦ elim (search_first match s) [
    | none ↦ none
    | some (before, found, rest) ↦ some (c ∷ before, found, rest)
  ]
]

unfoldable pub ends_with_newline : Text → Bool
ends_with_newline [] = false
ends_with_newline (c ∷ []) = eqb c newline
ends_with_newline (c ∷ d ∷ s) = ends_with_newline (d ∷ s)
