-- ===== src/Search/Filters/Pinned.antt =====
-- The text of a request's filters: the pinned clauses, and a sealed rest behind them.
use mathlib.Core.List.{append_assoc}
use ever_os.Prelude.{
  Bool-cases, All, String, ◌≡◌, refl, ◌⊎◌, inl, inr, false, Option, none, some, List, [], ◌∷◌, ◌++◌,
}
use ever_os.Markdown.Entries.{codes}
use ever_os.Markdown.Text.{Text}
use ever_os.Search.Filters.{
  OpValue, FieldValue, operators, shorthand, FilterNode, node, Combinator, missing, not_array,
  children, Children, no_more, child, not_object, FieldKind, allowed_field, is_reserved, has_quote,
  quoted, join, and_glue, or_glue, non_empty, OwnerType, user, agent, owner_type_text, Partition,
  not_deprecated, base_clauses,
}
use ever_os.Search.Filters.Compile.{
  or_filter_error, compile_op_clause, compile_clauses, wrap_clauses, compile_predicate,
  compile_fields, glue_fragments, add_fragment, compile_node, compile_combinator, compile_children,
  append_compiled, compile_filters,
}
use ever_os.Search.Filters.Scan.{
  after_char, scan, Sealed, Nested, Sealed-Nested, append-Sealed, nil-Sealed, quoted-Sealed,
  parens-Sealed, join-Sealed, join-Nested,
}
use ever_os.Search.Filters.Sealed.{
  OnSome, bind-OnSome, column-Sealed, and_glue-Sealed, or_glue-Nested, compile_op_clause-Sealed,
}

non_empty-Sealed : (ps : List Text) → All Sealed ps → All Sealed (non_empty ps)
unfolding non_empty
non_empty-Sealed [] h = tt
non_empty-Sealed ([] ∷ ps) h = non_empty-Sealed ps h.1
non_empty-Sealed ((c ∷ p) ∷ ps) h = (h.0, non_empty-Sealed ps h.1)

module _ {Moment : Type 0} (iso : Moment → Option Text)
    (iso_plain : (m : Moment) (s : Text) → iso m ≡ some s → has_quote s ≡ false) where
  compile_clauses-Sealed :
      (column : Text) (kind : FieldKind) (ops : List (String × OpValue Moment))
      → Sealed column
      → OnSome (All Sealed) (compile_clauses iso column kind ops)
  unfolding compile_clauses
  compile_clauses-Sealed column kind [] c = tt
  compile_clauses-Sealed column kind ((op, value) ∷ ops) c =
      bind-OnSome Sealed (All Sealed) (compile_op_clause iso column kind op value) _
        (compile_op_clause-Sealed iso iso_plain column kind op value c)
        (λ s p.
          bind-OnSome (All Sealed) (All Sealed) (compile_clauses iso column kind ops) _
            (compile_clauses-Sealed column kind ops c) (λ rest q. (p, q)))

  wrap_clauses-Sealed : (ps : List Text) → All Sealed ps → OnSome Sealed (wrap_clauses iso ps)
  unfolding wrap_clauses
  wrap_clauses-Sealed [] h = tt
  wrap_clauses-Sealed (s ∷ []) h = h.0
  wrap_clauses-Sealed (s ∷ t ∷ rest) h =
      parens-Sealed (join and_glue (s ∷ t ∷ rest))
        (join-Nested and_glue (s ∷ t ∷ rest) (Sealed-Nested and_glue and_glue-Sealed) h)

  compile_predicate-Sealed :
      (column : Text) (kind : FieldKind) (value : FieldValue Moment)
      → Sealed column
      → OnSome Sealed (compile_predicate iso column kind value)
  unfolding compile_predicate
  compile_predicate-Sealed column kind (shorthand value) c =
      compile_op_clause-Sealed iso iso_plain column kind "eq" value c
  compile_predicate-Sealed column kind (operators ops) c =
      bind-OnSome (All Sealed) Sealed (compile_clauses iso column kind ops) _
        (compile_clauses-Sealed column kind ops c) (wrap_clauses-Sealed)

  compile_fields-Sealed :
      (fields : List (String × FieldValue Moment)) → OnSome (All Sealed) (compile_fields iso fields)
  unfolding compile_fields
  compile_fields-Sealed [] = tt
  compile_fields-Sealed ((field, value) ∷ fields) = elim (Bool-cases (is_reserved field)) [
    | inl e ↦ rw e tt
    | inr e ↦ rw e (
        bind-OnSome (λ spec. Sealed spec.0) (All Sealed) (or_filter_error (allowed_field field)) _
          (column-Sealed field)
          (λ spec c.
            bind-OnSome Sealed (All Sealed) (compile_predicate iso spec.0 spec.1 value) _
              (compile_predicate-Sealed spec.0 spec.1 value c)
              (λ s p.
                bind-OnSome (All Sealed) (All Sealed) (compile_fields iso fields) _
                  (compile_fields-Sealed fields) (λ rest q. (p, q)))))
  ]

  glue_fragments-Sealed :
      (glue : Text) (ps : List Text)
      → Nested glue
      → All Sealed ps
      → Sealed (glue_fragments iso glue ps)
  unfolding glue_fragments
  glue_fragments-Sealed glue [] g h = nil-Sealed
  glue_fragments-Sealed glue (s ∷ []) g h = h.0
  glue_fragments-Sealed glue (s ∷ t ∷ rest) g h =
      parens-Sealed (join glue (s ∷ t ∷ rest)) (join-Nested glue (s ∷ t ∷ rest) g h)

  add_fragment-Sealed :
      (s : Text) (rest : List Text)
      → Sealed s
      → All Sealed rest
      → All Sealed (add_fragment iso s rest)
  unfolding add_fragment
  add_fragment-Sealed [] rest p q = q
  add_fragment-Sealed (c ∷ s) rest p q = (parens-Sealed (c ∷ s) (Sealed-Nested (c ∷ s) p), q)

  mutual
    unfolding compile_node compile_combinator compile_children

    compile_node-Sealed : (n : FilterNode Moment) → OnSome Sealed (compile_node iso n)
    compile_node-Sealed (node ands ors fields) =
        bind-OnSome Sealed Sealed (compile_combinator iso and_glue ands) _
          (compile_combinator-Sealed and_glue ands (Sealed-Nested and_glue and_glue-Sealed))
          (λ a p.
            bind-OnSome Sealed Sealed (compile_combinator iso or_glue ors) _
              (compile_combinator-Sealed or_glue ors or_glue-Nested)
              (λ o q.
                bind-OnSome (All Sealed) Sealed (compile_fields iso fields) _
                  (compile_fields-Sealed fields)
                  (λ fs r.
                    join-Sealed and_glue (non_empty (a ∷ o ∷ fs)) and_glue-Sealed
                      (non_empty-Sealed (a ∷ o ∷ fs) (p, (q, r))))))

    compile_combinator-Sealed :
        (glue : Text) (c : Combinator Moment)
        → Nested glue
        → OnSome Sealed (compile_combinator iso glue c)
    compile_combinator-Sealed glue missing g = nil-Sealed
    compile_combinator-Sealed glue not_array g = tt
    compile_combinator-Sealed glue (children cs) g =
        bind-OnSome (All Sealed) Sealed (compile_children iso cs) _ (compile_children-Sealed cs)
          (λ ps h. glue_fragments-Sealed glue ps g h)

    compile_children-Sealed : (cs : Children Moment) → OnSome (All Sealed) (compile_children iso cs)
    compile_children-Sealed no_more = tt
    compile_children-Sealed (not_object cs) = tt
    compile_children-Sealed (child n cs) =
        bind-OnSome Sealed (All Sealed) (compile_node iso n) _ (compile_node-Sealed n) (λ s p.
          bind-OnSome (All Sealed) (All Sealed) (compile_children iso cs) _
            (compile_children-Sealed cs) (λ rest q. add_fragment-Sealed s rest p q))

join-last :
    (glue p : Text) (ps : List Text) (last : Text)
    → join glue ((p ∷ ps) ++ last ∷ []) ≡ join glue (p ∷ ps) ++ (glue ++ last)
unfolding join
join-last glue p [] last = refl
join-last glue p (q ∷ ps) last =
    let tail = join glue (q ∷ ps) in
    cc (
      join-last glue q ps last,
      append_assoc p (glue ++ tail) (glue ++ last),
      append_assoc glue tail (glue ++ last),
    )

not_deprecated-Sealed : (t : OwnerType) → All Sealed (not_deprecated t)
unfolding not_deprecated scan after_char
not_deprecated-Sealed user = ((λ d. refl), tt)
not_deprecated-Sealed agent = tt

owner_type-Sealed :
    (t : OwnerType) → Sealed (codes "owner_type = '" ++ (owner_type_text t ++ codes "'"))
unfolding owner_type_text scan after_char
owner_type-Sealed user d = refl
owner_type-Sealed agent d = refl

base_clauses-Sealed : (partition : Partition) → All Sealed (base_clauses partition)
unfolding base_clauses scan after_char
base_clauses-Sealed partition =
    let owner : Sealed (codes "owner_id = ") = λ d. refl in
    let app : Sealed (codes "app_id = ") = λ d. refl in
    let project : Sealed (codes "project_id = ") = λ d. refl in
    (
      append-Sealed (codes "owner_id = ") (quoted partition.owner_id) owner
          (quoted-Sealed partition.owner_id),
      (
        owner_type-Sealed partition.owner_type,
        (
          append-Sealed (codes "app_id = ") (quoted partition.app_id) app
              (quoted-Sealed partition.app_id),
          (
            append-Sealed (codes "project_id = ") (quoted partition.project_id) project
                (quoted-Sealed partition.project_id),
            not_deprecated-Sealed partition.owner_type,
          ),
        ),
      ),
    )

-- The text stands for the pinned clauses of the partition, alone or joined by AND to one more text
-- that is sealed.
abbrev pub PinnedTo : Partition → Text → Type 0
PinnedTo partition s =
    let pinned = join and_glue (base_clauses partition) in
    Sealed pinned
    × ((s ≡ pinned) ⊎ ((rest : Text) × (s ≡ pinned ++ (and_glue ++ rest)) × Sealed rest))

-- Where the ISO text of a moment has no quote, whatever texts the owner, the scope and the filters
-- hold, the compiler raises, or its text starts with the clauses of the owner and the scope. These
-- stand alone, or AND and one more text follow, and both are sealed: read with its literals, such a
-- text closes every literal and every parenthesis that it opens and no other, and has no capital O,
-- so no OR as the compiler writes it, outside of its literals and parentheses. So no value in a
-- request ends its literal, and no filter of a request stands beside the clauses as an alternative.
pub compile_filters-PinnedTo :
    {Moment : Type 0} (iso : Moment → Option Text) (partition : Partition)
    (request : Option (FilterNode Moment))
    → ((m : Moment) (s : Text) → iso m ≡ some s → has_quote s ≡ false)
    → OnSome (PinnedTo partition) (compile_filters iso partition request)
unfolding compile_filters append_compiled base_clauses
compile_filters-PinnedTo iso partition none iso_plain = (
  join-Sealed and_glue (base_clauses partition) and_glue-Sealed (base_clauses-Sealed partition),
  inl refl,
)
compile_filters-PinnedTo iso partition (some n) iso_plain =
    let pinned =
      join-Sealed and_glue (base_clauses partition) and_glue-Sealed
        (base_clauses-Sealed partition) in
    bind-OnSome Sealed (PinnedTo partition) (compile_node iso n) _
      (compile_node-Sealed iso iso_plain n) (λ s p. (pinned, appended s p))
  where
    appended :
        (s : Text)
        → Sealed s
        → (append_compiled iso (base_clauses partition) s ≡ join and_glue (base_clauses partition))
          ⊎ ((rest : Text) × (append_compiled iso (base_clauses partition) s
                ≡ join and_glue (base_clauses partition) ++ (and_glue ++ rest))
              × Sealed rest)
    appended [] p = inl refl
    appended (c ∷ s) p = inr (c ∷ s, join-last and_glue _ _ (c ∷ s), p)
