-- ===== src/Search/Filters.antt =====
-- src/everos/memory/search/filters.py: the filters of a request, and the texts that their compiler
-- puts together.
pub mod Compile
pub mod Scan
pub mod Sealed
pub mod Pinned
use ever_os.Prelude.{
  eqb, if◌then◌else◌, ℕ, ◌<◌, String, Bool, false, ◌||◌, Option, none, some, List, [], ◌∷◌, ◌++◌,
  ◌==◌,
}
use ever_os.Markdown.Text.{Text}
use ever_os.Markdown.Entries.{codes}

-- A number of milliseconds and a datetime are both `timed`. What no kind of field takes as a
-- single value (a truth value, null, an object) is `other`.
pub data Scalar (Moment : Type 0) : Type 0 where
  text : Text → Scalar Moment
  timed : Moment → Scalar Moment
  other : Scalar Moment

pub data OpValue (Moment : Type 0) : Type 0 where
  one : Scalar Moment → OpValue Moment
  many : List (Scalar Moment) → OpValue Moment

-- An operator map, or the shorthand for equality.
pub data FieldValue (Moment : Type 0) : Type 0 where
  operators : List (String × OpValue Moment) → FieldValue Moment
  shorthand : OpValue Moment → FieldValue Moment

mutual
  -- A node: what stands under AND and under OR, and the fields.
  pub data FilterNode (Moment : Type 0) : Type 0 where
    node :
        Combinator Moment
        → Combinator Moment
        → List (String × FieldValue Moment)
        → FilterNode Moment

  pub data Combinator (Moment : Type 0) : Type 0 where
    missing : Combinator Moment
    not_array : Combinator Moment
    children : Children Moment → Combinator Moment

  pub data Children (Moment : Type 0) : Type 0 where
    no_more : Children Moment
    child : FilterNode Moment → Children Moment → Children Moment
    not_object : Children Moment → Children Moment

pub data FieldKind : Type 0 where
  str : FieldKind
  ts : FieldKind
  array_str : FieldKind

-- The column and the kind of a field that is allowed.
unfoldable pub allowed_field : String → Option (Text × FieldKind)
allowed_field field =
    if field == "session_id"
    then some (codes "session_id", str)
    else if field == "parent_type"
    then some (codes "parent_type", str)
    else if field == "parent_id"
    then some (codes "parent_id", str)
    else if field == "timestamp"
    then some (codes "timestamp", ts)
    else if field == "sender_id"
    then some (codes "sender_ids", array_str)
    else none

unfoldable pub is_reserved : String → Bool
is_reserved field =
    field == "owner_id" || field == "owner_type" || field == "app_id" || field == "project_id"

unfoldable pub sql_op : String → Option Text
sql_op op =
    if op == "eq"
    then some (codes "=")
    else if op == "ne"
    then some (codes "!=")
    else if op == "gt"
    then some (codes ">")
    else if op == "gte"
    then some (codes ">=")
    else if op == "lt"
    then some (codes "<")
    else if op == "lte"
    then some (codes "<=")
    else if op == "in"
    then some (codes "IN")
    else none

abbrev pub quote : ℕ
quote = 39

-- `value.replace("'", "''")`.
unfoldable pub escape_str : Text → Text
escape_str [] = []
escape_str (c ∷ s) = if eqb c quote then quote ∷ quote ∷ escape_str s else c ∷ escape_str s

unfoldable pub has_quote : Text → Bool
has_quote [] = false
has_quote (c ∷ s) = eqb c quote || has_quote s

unfoldable pub quoted : Text → Text
quoted s = quote ∷ (escape_str s ++ quote ∷ [])

-- `glue.join(parts)`.
unfoldable pub join : Text → List Text → Text
join glue [] = []
join glue (p ∷ []) = p
join glue (p ∷ q ∷ ps) = p ++ (glue ++ join glue (q ∷ ps))

unfoldable pub parens : Text → Text
parens s = codes "(" ++ (s ++ codes ")")

abbrev pub and_glue : Text
and_glue = codes " AND "

abbrev pub or_glue : Text
or_glue = codes " OR "

-- The parts that are not empty.
unfoldable pub non_empty : List Text → List Text
non_empty [] = []
non_empty ([] ∷ ps) = non_empty ps
non_empty ((c ∷ p) ∷ ps) = (c ∷ p) ∷ non_empty ps

pub data OwnerType : Type 0 where
  user : OwnerType
  agent : OwnerType

unfoldable pub owner_type_text : OwnerType → Text
owner_type_text user = codes "user"
owner_type_text agent = codes "agent"

-- Who asks, and the scope.
pub record Partition : Type 0 where
  pub owner_id : Text
  pub owner_type : OwnerType
  pub app_id : Text
  pub project_id : Text

-- Only the tables of users have the column of superseded entries.
unfoldable pub not_deprecated : OwnerType → List Text
not_deprecated user = codes "deprecated_by IS NULL" ∷ []
not_deprecated agent = []

-- The clauses that pin the owner and the scope.
unfoldable pub base_clauses : Partition → List Text
base_clauses partition =
    (codes "owner_id = " ++ quoted partition.owner_id)
    ∷ (codes "owner_type = '" ++ (owner_type_text partition.owner_type ++ codes "'"))
    ∷ (codes "app_id = " ++ quoted partition.app_id)
    ∷ (codes "project_id = " ++ quoted partition.project_id)
    ∷ not_deprecated partition.owner_type
