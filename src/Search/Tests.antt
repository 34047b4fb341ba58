-- ===== src/Search/Tests.antt =====
-- A run of the heap expansion with natural numbers as scores, and filters with a hostile value.
use mathlib.Core.Option.{some-injective}
use ever_os.Prelude.{
  ltb, if◌then◌else◌, Bool-cases, length, All, ℕ, ◌+◌, ◌-◌, ◌*◌, ◌≤◌, String, ◌≡◌, refl, subst, inl,
  inr, false, Option, none, some, List, [], ◌∷◌, map,
}
use ever_os.Markdown.Entries.{codes}
use ever_os.Markdown.Text.{Text}
use ever_os.Search.Filters.{
  text, timed, one, operators, shorthand, FilterNode, node, missing, children, no_more, child, ts,
  allowed_field, is_reserved, sql_op, escape_str, has_quote, quoted, join, parens, non_empty, agent,
  Partition,
}
use ever_os.Search.Filters.Compile.{
  compiled, time_error, render_literal, compile_single, compile_op_clause, compile_clauses,
  wrap_clauses, compile_predicate, compile_fields, glue_fragments, add_fragment, compile_node,
  compile_combinator, compile_children, compile_filters,
}
use ever_os.Search.Filters.Sealed.{OnSome}
use ever_os.Search.Filters.Pinned.{PinnedTo, compile_filters-PinnedTo}
use ever_os.Search.Hierarchy.{
  Candidate, Ranking, Dict, put_key, del_key, get_or, keys_within, worst, min_topn_score,
  drop_worst, insert_by_score, sort_scored, enter_fact, enter_facts, blend, score_facts,
}
use ever_os.Search.Hierarchy.Expand.{
  ScoredItem, parent_of, text_before, expand_one_episode, pops_before, heappush, build_heap,
  next_count, expansion_rounds, score_by_id, init_topn, insert_slot, sorted_entries, scored_item,
  converge, fusion_settings, heap_expand,
}
use ever_os.Search.Hierarchy.Bound.{length-heap_expand}
use ever_os.Search.Hierarchy.Sources.{Justified, heap_expand-Justified}

abbrev natural_scores : Ranking ℕ
natural_scores = record {
  zero_score = 0;
  lt_score = ltb;
  lr = λ dense sparse. dense;
  rrf = λ sparse dense. sparse;
  cosine_to_lr_score = λ cosine bm25. cosine + bm25;
  one = 1;
  plus = ◌+◌;
  minus = ◌-◌;
  times = ◌*◌;
}

abbrev candidate : String → ℕ → Candidate ℕ
candidate id score = record { id = id; score = score }

abbrev sparse_hits : List (Candidate ℕ)
sparse_hits = candidate "e1" 3 ∷ candidate "e2" 2 ∷ candidate "e3" 1 ∷ []

abbrev dense_hits : List (Candidate ℕ)
dense_hits = candidate "e1" 4 ∷ candidate "e2" 9 ∷ []

abbrev facts_of : Dict (List (Candidate ℕ))
facts_of = ("e1", candidate "f1" 5 ∷ candidate "f2" 2 ∷ []) ∷ ("e3", candidate "f3" 1 ∷ []) ∷ []

abbrev result : List (ScoredItem ℕ)
result = heap_expand natural_scores facts_of 2 1 10 3 sparse_hits dense_hits

-- The fact of the first episode takes the place of its episode.
expanded_result :
    map {B = String × ℕ × Option String}
      (λ (item : ScoredItem ℕ). (item.id, item.score, item.parent_episode_id))
      result
    ≡ ("e2", 9, none) ∷ ("f1", 8, some "e1") ∷ []
unfolding heap_expand fusion_settings converge expansion_rounds expand_one_episode build_heap
    heappush pops_before text_before init_topn score_by_id put_key get_or del_key enter_facts
    enter_fact sort_scored insert_by_score score_facts blend drop_worst worst min_topn_score
    next_count keys_within sorted_entries insert_slot scored_item parent_of
expanded_result = refl

length-heap_expand_example :
    length (heap_expand natural_scores facts_of 2 1 10 3 sparse_hits dense_hits) ≤ 2
length-heap_expand_example =
    length-heap_expand natural_scores facts_of 2 1 10 3 sparse_hits dense_hits

heap_expand-Justified_example :
    All
      (Justified natural_scores
        (fusion_settings natural_scores facts_of 2 1 10 3 sparse_hits dense_hits))
      (heap_expand natural_scores facts_of 2 1 10 3 sparse_hits dense_hits)
heap_expand-Justified_example =
    heap_expand-Justified natural_scores facts_of 2 1 10 3 sparse_hits dense_hits

abbrev partition : Partition
partition = record {
  owner_id = codes "o'1";
  owner_type = agent;
  app_id = codes "a";
  project_id = codes "p";
}

-- A session id that tries to leave its literal, beside a timestamp.
abbrev hostile : FilterNode ℕ
hostile =
    node missing
      (children (
        child
          (node missing missing (("session_id", shorthand (one (text (codes "x' OR '1")))) ∷ []))
          (child
            (node missing missing (("timestamp", operators (("gte", one (timed 7)) ∷ [])) ∷ []))
            no_more)))
      []

-- The years from 10000 on are out of range.
abbrev new_year : ℕ → Option Text
new_year m = if ltb m 253402300800000 then some (codes "2026-01-01") else none

compiled_hostile :
    compile_node new_year hostile
    ≡ compiled (codes "((session_id = 'x'' OR ''1') OR (timestamp >= TIMESTAMP '2026-01-01'))")
unfolding compile_node compile_combinator compile_children compile_fields compile_predicate
    compile_clauses wrap_clauses compile_op_clause compile_single render_literal glue_fragments
    add_fragment is_reserved allowed_field sql_op quoted escape_str join parens non_empty
compiled_hostile = refl

new_year-plain : (m : ℕ) (s : Text) → new_year m ≡ some s → has_quote s ≡ false
unfolding has_quote
new_year-plain m s h = elim (Bool-cases (ltb m 253402300800000)) [
  | inl e ↦
      subst (λ t. has_quote t ≡ false) (some-injective (codes "2026-01-01") s (rw e at h)) refl
  | inr e ↦ cc (rw e at h)
]

-- A moment out of range is no FilterError.
far_future :
    compile_predicate new_year (codes "timestamp") ts (shorthand (one (timed 1000000000000000000)))
    ≡ time_error
unfolding compile_predicate compile_op_clause sql_op compile_single render_literal
far_future = refl

compile_filters-PinnedTo_example :
    OnSome (PinnedTo partition) (compile_filters new_year partition (some hostile))
compile_filters-PinnedTo_example =
    compile_filters-PinnedTo new_year partition (some hostile) new_year-plain
