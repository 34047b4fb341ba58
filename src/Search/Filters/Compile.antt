-- ===== src/Search/Filters/Compile.antt =====
-- src/everos/memory/search/filters.py: the compiler from the filters of a request to the `where`
-- text of the index. The layout of a moment as ISO text is a parameter.
use ever_os.Prelude.{if◌then◌else◌, String, Option, none, some, List, [], ◌∷◌, ◌++◌, ◌==◌}
use ever_os.Markdown.Entries.{codes}
use ever_os.Markdown.Text.{Text}
use ever_os.Search.Filters.{
  Scalar, text, timed, other, OpValue, one, many, FieldValue, operators, shorthand, FilterNode,
  node, Combinator, missing, not_array, children, Children, no_more, child, not_object, FieldKind,
  str, ts, array_str, allowed_field, is_reserved, sql_op, has_quote, quoted, join, parens, and_glue,
  or_glue, non_empty, Partition, base_clauses,
}

-- A text, a FilterError, or another error that leaves the compiler.
pub data Compiled (A : Type 0) : Type 0 where
  compiled : A → Compiled A
  filter_error time_error : Compiled A

infixl 5 ◌>>=◌
abbrev pub ◌>>=◌ : {A B : Type 0} → Compiled A → (A → Compiled B) → Compiled B
compiled a >>= k = k a
filter_error >>= k = filter_error
time_error >>= k = time_error

abbrev pub or_filter_error : {A : Type 0} → Option A → Compiled A
or_filter_error none = filter_error
or_filter_error (some a) = compiled a

-- `from_timestamp` raises a ValueError or an OverflowError for a moment outside its range; it is not
-- caught.
abbrev pub or_time_error : Option Text → Compiled Text
or_time_error none = time_error
or_time_error (some s) = compiled s

module _ {Moment : Type 0} (iso : Moment → Option Text) where
  unfoldable pub render_literal : FieldKind → Scalar Moment → Compiled Text
  render_literal str (text s) = compiled (quoted s)
  render_literal str _ = filter_error
  render_literal ts (text s) =
      if has_quote s then filter_error else compiled (codes "TIMESTAMP '" ++ (s ++ codes "'"))
  render_literal ts (timed m) =
      or_time_error (iso m) >>= λ s. compiled (codes "TIMESTAMP '" ++ (s ++ codes "'"))
  render_literal ts other = filter_error
  render_literal array_str _ = filter_error

  unfoldable pub render_all :
      (Scalar Moment → Compiled Text) → List (Scalar Moment) → Compiled (List Text)
  render_all render [] = compiled []
  render_all render (v ∷ vs) =
      render v >>= λ s. render_all render vs >>= λ rest. compiled (s ∷ rest)

  unfoldable pub array_has : Text → Scalar Moment → Compiled Text
  array_has column (text s) =
      compiled (codes "array_has(" ++ (column ++ (codes ", " ++ (quoted s ++ codes ")"))))
  array_has column _ = filter_error

  -- A list that is empty or no list at all is refused where `in` wants one.
  unfoldable pub compile_in : Text → FieldKind → OpValue Moment → Compiled Text
  compile_in column kind (one v) = filter_error
  compile_in column kind (many []) = filter_error
  compile_in column array_str (many (v ∷ vs)) =
      render_all (array_has column) (v ∷ vs) >>= λ items. compiled (parens (join or_glue items))
  compile_in column kind (many (v ∷ vs)) = render_all (render_literal kind) (v ∷ vs) >>= λ items.
      compiled (column ++ (codes " IN " ++ parens (join (codes ", ") items)))

  -- A single operator; a list is no literal.
  unfoldable pub compile_single : Text → FieldKind → String → Text → OpValue Moment → Compiled Text
  compile_single column kind op symbol (many vs) = filter_error
  compile_single column array_str op symbol (one v) =
      if op == "eq" then array_has column v else filter_error
  compile_single column kind op symbol (one v) = render_literal kind v >>= λ s.
      compiled (column ++ (codes " " ++ (symbol ++ (codes " " ++ s))))

  unfoldable pub compile_op_clause : Text → FieldKind → String → OpValue Moment → Compiled Text
  compile_op_clause column kind op value = or_filter_error (sql_op op) >>= λ symbol.
      if op == "in"
      then compile_in column kind value
      else compile_single column kind op symbol value

  unfoldable pub compile_clauses :
      Text → FieldKind → List (String × OpValue Moment) → Compiled (List Text)
  compile_clauses column kind [] = compiled []
  compile_clauses column kind ((op, value) ∷ ops) = compile_op_clause column kind op value >>= λ s.
      compile_clauses column kind ops >>= λ rest. compiled (s ∷ rest)

  unfoldable pub wrap_clauses : List Text → Compiled Text
  wrap_clauses [] = filter_error
  wrap_clauses (s ∷ []) = compiled s
  wrap_clauses (s ∷ t ∷ rest) = compiled (parens (join and_glue (s ∷ t ∷ rest)))

  unfoldable pub compile_predicate : Text → FieldKind → FieldValue Moment → Compiled Text
  compile_predicate column kind (shorthand value) = compile_op_clause column kind "eq" value
  compile_predicate column kind (operators ops) =
      compile_clauses column kind ops >>= λ clauses. wrap_clauses clauses

  unfoldable pub compile_fields : List (String × FieldValue Moment) → Compiled (List Text)
  compile_fields [] = compiled []
  compile_fields ((field, value) ∷ fields) =
      if is_reserved field
      then filter_error
      else or_filter_error (allowed_field field) >>= λ spec.
          compile_predicate spec.0 spec.1 value >>= λ s.
          compile_fields fields >>= λ rest. compiled (s ∷ rest)

  unfoldable pub glue_fragments : Text → List Text → Text
  glue_fragments glue [] = []
  glue_fragments glue (s ∷ []) = s
  glue_fragments glue (s ∷ t ∷ rest) = parens (join glue (s ∷ t ∷ rest))

  -- A part that is not empty, in parentheses, before the others.
  unfoldable pub add_fragment : Text → List Text → List Text
  add_fragment [] rest = rest
  add_fragment (c ∷ s) rest = parens (c ∷ s) ∷ rest

  unfoldable mutual
    pub compile_node : FilterNode Moment → Compiled Text
    compile_node (node ands ors fields) = compile_combinator and_glue ands >>= λ a.
        compile_combinator or_glue ors >>= λ o.
        compile_fields fields >>= λ fs. compiled (join and_glue (non_empty (a ∷ o ∷ fs)))

    pub compile_combinator : Text → Combinator Moment → Compiled Text
    compile_combinator glue missing = compiled []
    compile_combinator glue not_array = filter_error
    compile_combinator glue (children cs) =
        compile_children cs >>= λ fragments. compiled (glue_fragments glue fragments)

    pub compile_children : Children Moment → Compiled (List Text)
    compile_children no_more = compiled []
    compile_children (not_object cs) = filter_error
    compile_children (child n cs) =
        compile_node n >>= λ s. compile_children cs >>= λ rest. compiled (add_fragment s rest)

  unfoldable pub append_compiled : List Text → Text → Text
  append_compiled base [] = join and_glue base
  append_compiled base (c ∷ s) = join and_glue (base ++ (c ∷ s) ∷ [])

  -- Without a node there is nothing to add to the base.
  unfoldable pub compile_filters : Partition → Option (FilterNode Moment) → Compiled Text
  compile_filters partition none = compiled (join and_glue (base_clauses partition))
  compile_filters partition (some n) =
      compile_node n >>= λ s. compiled (append_compiled (base_clauses partition) s)
