-- ===== src/Markdown/EntryId.antt =====
-- src/everos/core/persistence/markdown/entries.py: `EntryId`, the id `<prefix>_<YYYYMMDD>_<seq>`.
-- Formatting and parsing dates is the standard library's, and a parameter.
pub mod RoundTrip
use ever_os.Prelude.{
  ltb, leb, eqb, if◌then◌else◌, length, ℕ, zero, suc, ◌+◌, ◌-◌, ◌*◌, ◌/◌, ◌%◌, ◌&&◌, Option, none,
  some, [], ◌∷◌, ◌++◌,
}
use ever_os.Markdown.Text.{Text}
use ever_os.Markdown.Frontmatter.{is_space}

pub record Calendar (Date : Type 0) : Type 0 where
  pub strftime : Date → Text
  pub strptime : Text → Option Date

pub record EntryId (Date : Type 0) : Type 0 where
  pub prefix : Text
  pub date : Date
  pub seq : ℕ

pub data Parsed (Date : Type 0) : Type 0 where
  parsed : EntryId Date → Parsed Date
  value_error : Parsed Date

abbrev pub underscore : ℕ
underscore = b'_'

abbrev pub seq_digits : ℕ
seq_digits = 8

-- The decimal digits of a number, put before what is there. The fuel bounds the divisions.
unfoldable pub digits_from : ℕ → ℕ → Text → Text
digits_from zero n behind = (b'0' + n) ∷ behind
digits_from (suc fuel) n behind =
    let rest = digits_from fuel (n / 10) ((b'0' + n % 10) ∷ behind) in
    if ltb n 10 then (b'0' + n) ∷ behind else rest

unfoldable pub digits : ℕ → Text
digits n = digits_from n n []

unfoldable pub zeros : ℕ → Text
zeros zero = []
zeros (suc n) = b'0' ∷ zeros n

-- `f"{seq:08d}"`.
unfoldable pub padded : ℕ → Text
padded n = zeros (seq_digits - length (digits n)) ++ digits n

-- The number that a run of digits stands for, and nothing at any other character.
unfoldable pub digits_value : ℕ → Text → Option ℕ
digits_value value [] = some value
digits_value value (c ∷ s) =
    if leb b'0' c && leb c b'9' then digits_value (value * 10 + (c - b'0')) s else none

unfoldable pub lstrip : Text → Text
lstrip [] = []
lstrip (c ∷ s) = if is_space c then lstrip s else c ∷ s

unfoldable pub rstrip : Text → Text
rstrip [] = []
rstrip (c ∷ s) = elim (rstrip s) [ [] ↦ if is_space c then [] else c ∷ [] | d ∷ t ↦ c ∷ d ∷ t ]

unfoldable pub number : Text → Option ℕ
number [] = none
number (c ∷ s) = digits_value 0 (c ∷ s)

-- `int(seq_str)` and the refusal of a negative number, for texts of ASCII digits. There is no
-- underscore in the last part of the split.
unfoldable pub read_seq : Text → Option ℕ
read_seq text = elim (rstrip (lstrip text)) [
  | [] ↦ none
  | c ∷ s ↦
      if eqb c b'+'
      then number s
      else if eqb c b'-'
      then elim (number s) [ none ↦ none | some n ↦ if eqb n 0 then some 0 else none ]
      else number (c ∷ s)
]

-- The text before and behind the last underscore.
unfoldable pub rsplit_once : Text → Option (Text × Text)
rsplit_once [] = none
rsplit_once (c ∷ s) = elim (rsplit_once s) [
  | some (before, behind) ↦ some (c ∷ before, behind)
  | none ↦ if eqb c underscore then some ([], s) else none
]

module _ {Date : Type 0} (calendar : Calendar Date) where
  unfoldable pub format : EntryId Date → Text
  format eid =
      eid.prefix ++ (underscore ∷ (calendar.strftime eid.date ++ (underscore ∷ padded eid.seq)))

  unfoldable pub parse_parts : Text → Text → Text → Parsed Date
  parse_parts [] date_str seq_str = value_error
  parse_parts (c ∷ prefix) date_str seq_str = elim (calendar.strptime date_str) [
    | none ↦ value_error
    | some date ↦ elim (read_seq seq_str) [
      | none ↦ value_error
      | some seq ↦ parsed (record { prefix = c ∷ prefix; date = date; seq = seq })
    ]
  ]

  unfoldable pub parse : Text → Parsed Date
  parse s = elim (rsplit_once s) [
    | none ↦ value_error
    | some (before, seq_str) ↦ elim (rsplit_once before) [
      | none ↦ value_error
      | some (prefix, date_str) ↦ parse_parts prefix date_str seq_str
    ]
  ]

-- `current_count` is never negative here.
unfoldable pub next_for : {Date : Type 0} → Text → Date → ℕ → EntryId Date
next_for prefix date current_count = record {
  prefix = prefix;
  date = date;
  seq = current_count + 1;
}
