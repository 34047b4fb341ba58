-- ===== src/Search/Filters/Sealed.antt =====
-- Compiled filters close what they open, so that the pinned clauses keep their meaning.
use ever_os.Prelude.{
  Bool-cases, Option-cases, All, suc, String, ◌≡◌, refl, ◌∙◌, inl, inr, false, Option, some, List,
  [], ◌∷◌, ◌++◌, arith, ◌==◌,
}
use ever_os.Markdown.Text.{Text}
use ever_os.Markdown.Entries.{codes}
use ever_os.Search.Filters.{
  Scalar, text, timed, other, OpValue, one, many, FieldKind, str, ts, array_str, allowed_field,
  sql_op, quote, has_quote, quoted, join, parens, and_glue, or_glue,
}
use ever_os.Search.Filters.Compile.{
  Compiled, compiled, filter_error, time_error, ◌>>=◌, or_filter_error, or_time_error,
  render_literal, render_all, array_has, compile_in, compile_single, compile_op_clause,
}
use ever_os.Search.Filters.Scan.{
  after_char, scan, Sealed, Nested, Sealed-Nested, scan-append, append-Sealed, quoted-Sealed,
  literal-Sealed, parens-Sealed, join-Nested,
}

-- What holds of a result, where there is one.
abbrev pub OnSome : {A : Type 0} → (A → Type 0) → Compiled A → Type 0
OnSome P (compiled a) = P a
OnSome P filter_error = Unit
OnSome P time_error = Unit

pub bind-OnSome :
    {A B : Type 0} (P : A → Type 0) (Q : B → Type 0) (o : Compiled A) (k : A → Compiled B)
    → OnSome P o
    → ((a : A) → P a → OnSome Q (k a))
    → OnSome Q (o >>= k)
bind-OnSome P Q (compiled a) k h g = g a h
bind-OnSome P Q filter_error k h g = tt
bind-OnSome P Q time_error k h g = tt

pub column-Sealed :
    (field : String) → OnSome (λ spec. Sealed spec.0) (or_filter_error (allowed_field field))
unfolding allowed_field scan after_char
column-Sealed field =
    let session : Sealed (codes "session_id") = λ d. refl in
    let kind : Sealed (codes "parent_type") = λ d. refl in
    let parent : Sealed (codes "parent_id") = λ d. refl in
    let time : Sealed (codes "timestamp") = λ d. refl in
    let sender : Sealed (codes "sender_ids") = λ d. refl in
    ground (arith, session, kind, parent, time, sender)

symbol-Sealed : (op : String) → OnSome Sealed (or_filter_error (sql_op op))
unfolding sql_op scan after_char
symbol-Sealed op =
    let eq : Sealed (codes "=") = λ d. refl in
    let ne : Sealed (codes "!=") = λ d. refl in
    let gt : Sealed (codes ">") = λ d. refl in
    let gte : Sealed (codes ">=") = λ d. refl in
    let lt : Sealed (codes "<") = λ d. refl in
    let lte : Sealed (codes "<=") = λ d. refl in
    let among : Sealed (codes "IN") = λ d. refl in ground (arith, eq, ne, gt, gte, lt, lte, among)

space-Sealed : Sealed (codes " ")
unfolding scan after_char
space-Sealed d = refl

comma-Sealed : Sealed (codes ", ")
unfolding scan after_char
comma-Sealed d = refl

in-Sealed : Sealed (codes " IN ")
unfolding scan after_char
in-Sealed d = refl

pub and_glue-Sealed : Sealed and_glue
unfolding scan after_char
and_glue-Sealed d = refl

pub or_glue-Nested : Nested or_glue
unfolding scan after_char
or_glue-Nested d = refl

timestamp-Sealed :
    (s : Text) → has_quote s ≡ false → Sealed (codes "TIMESTAMP '" ++ (s ++ codes "'"))
unfolding scan after_char
timestamp-Sealed s h =
    let word : Sealed (codes "TIMESTAMP ") = λ d. refl in
    append-Sealed (codes "TIMESTAMP ") (quote ∷ (s ++ codes "'")) word (literal-Sealed s h)

module _ {Moment : Type 0} (iso : Moment → Option Text)
    (iso_plain : (m : Moment) (s : Text) → iso m ≡ some s → has_quote s ≡ false) where
  moment_plain : (m : Moment) → OnSome (λ s. has_quote s ≡ false) (or_time_error (iso m))
  moment_plain m = elim (Option-cases (iso m)) [
    | inl e ↦ rw e tt
    | inr (s, e) ↦ rw e (iso_plain m s e)
  ]

  render_literal-Sealed :
      (kind : FieldKind) (v : Scalar Moment) → OnSome Sealed (render_literal iso kind v)
  unfolding render_literal
  render_literal-Sealed str (text s) = quoted-Sealed s
  render_literal-Sealed str (timed m) = tt
  render_literal-Sealed str other = tt
  render_literal-Sealed ts (text s) = elim (Bool-cases (has_quote s)) [
    | inl e ↦ rw e tt
    | inr e ↦ rw e (timestamp-Sealed s e)
  ]
  render_literal-Sealed ts (timed m) =
      bind-OnSome (λ s. has_quote s ≡ false) Sealed (or_time_error (iso m)) _ (moment_plain m)
        (λ s h. timestamp-Sealed s h)
  render_literal-Sealed ts other = tt
  render_literal-Sealed array_str v = tt

  render_all-Sealed :
      (render : Scalar Moment → Compiled Text) (vs : List (Scalar Moment))
      → ((v : Scalar Moment) → OnSome Sealed (render v))
      → OnSome (All Sealed) (render_all iso render vs)
  unfolding render_all
  render_all-Sealed render [] h = tt
  render_all-Sealed render (v ∷ vs) h = bind-OnSome Sealed (All Sealed) (render v) _ (h v) (λ s p.
      bind-OnSome (All Sealed) (All Sealed) (render_all iso render vs) _
        (render_all-Sealed render vs h) (λ rest q. (p, q)))

  array_has-Sealed :
      (column : Text) (v : Scalar Moment) → Sealed column → OnSome Sealed (array_has iso column v)
  unfolding array_has scan after_char
  array_has-Sealed column (text s) c = λ depth.
      scan-append column (codes ", " ++ (quoted s ++ codes ")")) (false, suc depth)
        (false, suc depth) (c (suc depth))
      ∙ scan-append (quoted s) (codes ")") (false, suc depth) (false, suc depth)
          (quoted-Sealed s (suc depth))
  array_has-Sealed column (timed m) c = tt
  array_has-Sealed column other c = tt

  -- The `in` list of a column.
  in_list-Sealed :
      (column : Text) (items : List Text)
      → Sealed column
      → All Sealed items
      → Sealed (column ++ (codes " IN " ++ parens (join (codes ", ") items)))
  in_list-Sealed column items c h =
      append-Sealed column (codes " IN " ++ parens (join (codes ", ") items)) c (
        append-Sealed (codes " IN ") (parens (join (codes ", ") items)) in-Sealed (
          parens-Sealed (join (codes ", ") items)
            (join-Nested (codes ", ") items (Sealed-Nested (codes ", ") comma-Sealed) h)))

  compile_in-Sealed :
      (column : Text) (kind : FieldKind) (value : OpValue Moment)
      → Sealed column
      → OnSome Sealed (compile_in iso column kind value)
  unfolding compile_in
  compile_in-Sealed column str (one v) c = tt
  compile_in-Sealed column ts (one v) c = tt
  compile_in-Sealed column array_str (one v) c = tt
  compile_in-Sealed column str (many []) c = tt
  compile_in-Sealed column ts (many []) c = tt
  compile_in-Sealed column array_str (many []) c = tt
  compile_in-Sealed column array_str (many (v ∷ vs)) c =
      bind-OnSome (All Sealed) Sealed (render_all iso (array_has iso column) (v ∷ vs)) _
        (render_all-Sealed (array_has iso column) (v ∷ vs) (λ w. array_has-Sealed column w c))
        (λ items h. parens-Sealed (join or_glue items) (join-Nested or_glue items or_glue-Nested h))
  compile_in-Sealed column str (many (v ∷ vs)) c =
      bind-OnSome (All Sealed) Sealed (render_all iso (render_literal iso str) (v ∷ vs)) _
        (render_all-Sealed (render_literal iso str) (v ∷ vs) (render_literal-Sealed str))
        (λ items h. in_list-Sealed column items c h)
  compile_in-Sealed column ts (many (v ∷ vs)) c =
      bind-OnSome (All Sealed) Sealed (render_all iso (render_literal iso ts) (v ∷ vs)) _
        (render_all-Sealed (render_literal iso ts) (v ∷ vs) (render_literal-Sealed ts))
        (λ items h. in_list-Sealed column items c h)

  comparison-Sealed :
      (column symbol s : Text)
      → Sealed column
      → Sealed symbol
      → Sealed s
      → Sealed (column ++ (codes " " ++ (symbol ++ (codes " " ++ s))))
  comparison-Sealed column symbol s c y h = append-Sealed column _ c (
      append-Sealed (codes " ") (symbol ++ (codes " " ++ s)) space-Sealed
        (append-Sealed symbol (codes " " ++ s) y (append-Sealed (codes " ") s space-Sealed h)))

  compile_single-Sealed :
      (column : Text) (kind : FieldKind) (op : String) (symbol : Text) (value : OpValue Moment)
      → Sealed column
      → Sealed symbol
      → OnSome Sealed (compile_single iso column kind op symbol value)
  unfolding compile_single
  compile_single-Sealed column str op symbol (many vs) c y = tt
  compile_single-Sealed column ts op symbol (many vs) c y = tt
  compile_single-Sealed column array_str op symbol (many vs) c y = tt
  compile_single-Sealed column array_str op symbol (one v) c y = elim (Bool-cases (op == "eq")) [
    | inl e ↦ rw e (array_has-Sealed column v c)
    | inr e ↦ rw e tt
  ]
  compile_single-Sealed column str op symbol (one v) c y =
      bind-OnSome Sealed Sealed (render_literal iso str v) _ (render_literal-Sealed str v)
        (λ s h. comparison-Sealed column symbol s c y h)
  compile_single-Sealed column ts op symbol (one v) c y =
      bind-OnSome Sealed Sealed (render_literal iso ts v) _ (render_literal-Sealed ts v)
        (λ s h. comparison-Sealed column symbol s c y h)

  pub compile_op_clause-Sealed :
      (column : Text) (kind : FieldKind) (op : String) (value : OpValue Moment)
      → Sealed column
      → OnSome Sealed (compile_op_clause iso column kind op value)
  unfolding compile_op_clause
  compile_op_clause-Sealed column kind op value c =
      bind-OnSome Sealed Sealed (or_filter_error (sql_op op)) _ (symbol-Sealed op) (λ symbol y.
        elim (Bool-cases (op == "in")) [
          | inl e ↦ rw e (compile_in-Sealed column kind value c)
          | inr e ↦ rw e (compile_single-Sealed column kind op symbol value c y)
        ])
