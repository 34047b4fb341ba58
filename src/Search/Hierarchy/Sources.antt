-- ===== src/Search/Hierarchy/Sources.antt =====
-- Where the items of the result come from.
use ever_os.Prelude.{
  Bool-cases, take, All, ℕ, ◌*◌, String, ◌≡◌, refl, inl, inr, Bool, true, false, Option, none, some,
  List, [], ◌∷◌, map, arith,
}
use ever_os.Search.Hierarchy.{
  Candidate, ItemType, episode, atomic_fact, Slot, Ranking, Dict, put_key, get_or, TopN, worst,
  drop_worst, sort_scored, enter_fact, enter_facts, blend, score_facts,
}
use ever_os.Search.Hierarchy.Values.{
  OneOf, All-OneOf, All-take, Values, Values-put_key, Values-del_key, All-sort_scored,
}
use ever_os.Search.Hierarchy.Expand.{
  ScoredItem, parent_of, Settings, expand_one_episode, build_heap, next_count, expansion_rounds,
  init_topn, insert_slot, sorted_entries, scored_item, converge, fusion_settings, heap_expand,
}

module _ {Score : Type 0} (ranking : Ranking Score) (settings : Settings Score) where
  -- The blended score of a fact of an episode.
  abbrev pub blended : String → Candidate Score → Score
  blended source fact =
      blend ranking settings.alpha
        (ranking.cosine_to_lr_score fact.score
          (get_or ranking.zero_score source settings.bm25_scores))
        (get_or ranking.zero_score source settings.episode_scores)

  -- An episode has its fused score. A fact is one of those of the episode that it comes from and
  -- has its blended score, which is above zero.
  abbrev pub BackedAs : ItemType → Candidate Score → Score → String → Type 0
  BackedAs episode item score source =
      score ≡ get_or ranking.zero_score item.id settings.episode_scores
  BackedAs atomic_fact item score source =
      OneOf item (get_or [] source settings.episode_to_facts)
      × (score ≡ blended source item)
      × (ranking.lt_score ranking.zero_score score ≡ true)

  abbrev pub Backed : Slot Score → Type 0
  Backed slot = BackedAs slot.item_type slot.item slot.score slot.source

  -- A scored fact that may enter for an episode.
  abbrev FactOf : String → Score × Candidate Score → Type 0
  FactOf source (score, fact) =
      OneOf fact (get_or [] source settings.episode_to_facts) × (score ≡ blended source fact)

  drop_worst-Backed :
      (topn : TopN Score) → Values Backed topn → Values Backed (drop_worst ranking topn)
  unfolding drop_worst
  drop_worst-Backed [] h = tt
  drop_worst-Backed (entry ∷ rest) h =
      Values-del_key Backed (worst ranking entry rest).0 (entry ∷ rest) h

  enter_fact-Backed :
      (top_k : ℕ) (source : String) (fact : Score × Candidate Score) (state : TopN Score × Bool)
      → FactOf source fact
      → Values Backed state.0
      → Values Backed (enter_fact ranking top_k source fact state).0
  unfolding enter_fact
  enter_fact-Backed top_k source (score, fact) (topn, entered) from h =
      let slot : Slot Score = record {
        item = fact;
        score = score;
        item_type = atomic_fact;
        source = source;
      } in
      elim (Bool-cases (ranking.lt_score ranking.zero_score score)) [
        | inl positive ↦
            (let added = Values-put_key Backed fact.id slot topn (from.0, from.1, positive) h in
              ground
                (arith, positive, h, added, drop_worst-Backed (put_key fact.id slot topn) added))
        | inr bad ↦ ground (arith, bad, h)
      ]

  enter_facts-Backed :
      (top_k : ℕ) (source : String) (facts : List (Score × Candidate Score))
      (state : TopN Score × Bool)
      → All (FactOf source) facts
      → Values Backed state.0
      → Values Backed (enter_facts ranking top_k source facts state).0
  unfolding enter_facts
  enter_facts-Backed top_k source [] state from h = h
  enter_facts-Backed top_k source (fact ∷ facts) state from h =
      enter_facts-Backed top_k source facts (enter_fact ranking top_k source fact state) from.1
        (enter_fact-Backed top_k source fact state from.0 h)

  score_facts-FactOf :
      (source : String) (facts : List (Candidate Score))
      → All (λ fact. OneOf fact (get_or [] source settings.episode_to_facts)) facts
      → All (FactOf source) (
          score_facts ranking settings.alpha
            (get_or ranking.zero_score source settings.bm25_scores)
            (get_or ranking.zero_score source settings.episode_scores)
            facts)
  unfolding score_facts
  score_facts-FactOf source [] h = tt
  score_facts-FactOf source (fact ∷ facts) h = ((h.0, refl), score_facts-FactOf source facts h.1)

  expand_one_episode-Backed :
      (source : String) (topn : TopN Score)
      → Values Backed topn
      → Values Backed (expand_one_episode ranking settings source topn)
  unfolding expand_one_episode
  expand_one_episode-Backed source topn h =
      let listed = get_or [] source settings.episode_to_facts in
      let facts = take (settings.facts_per_episode * 2) listed in
      let scored =
        score_facts ranking settings.alpha (get_or ranking.zero_score source settings.bm25_scores)
          (get_or ranking.zero_score source settings.episode_scores) facts in
      let from = score_facts-FactOf source facts (
        All-take (λ fact. OneOf fact listed) (settings.facts_per_episode * 2) listed
          (All-OneOf (λ fact. OneOf fact listed) listed (λ x m. m))) in
      let top_facts = take settings.facts_per_episode (sort_scored ranking scored) in
      let entered =
        enter_facts-Backed settings.top_k source top_facts (topn, false)
          (All-take (FactOf source) settings.facts_per_episode (sort_scored ranking scored)
            (All-sort_scored ranking (FactOf source) scored from))
          h in
      ground (
        arith,
        entered,
        Values-del_key Backed source
            (enter_facts ranking settings.top_k source top_facts (topn, false)).0 entered,
      )

  expansion_rounds-Backed :
      (heap : List (Candidate Score)) (unchanged : ℕ) (topn : TopN Score)
      → Values Backed topn
      → Values Backed (expansion_rounds ranking settings heap unchanged topn)
  unfolding expansion_rounds
  expansion_rounds-Backed [] unchanged topn h = h
  expansion_rounds-Backed (doc ∷ heap) unchanged topn h =
      let expanded = expand_one_episode ranking settings doc.id topn in
      let rest =
        expansion_rounds-Backed heap (next_count ranking unchanged topn expanded) expanded
          (expand_one_episode-Backed doc.id topn h) in
      ground (arith, rest, h)

  init_topn-Backed :
      (docs : List (Candidate Score)) (topn : TopN Score)
      → Values Backed topn
      → Values Backed (init_topn ranking settings.episode_scores docs topn)
  unfolding init_topn
  init_topn-Backed [] topn h = h
  init_topn-Backed (doc ∷ docs) topn h =
      let slot : Slot Score = record {
        item = doc;
        score = get_or ranking.zero_score doc.id settings.episode_scores;
        item_type = episode;
        source = doc.id;
      } in
      init_topn-Backed docs (put_key doc.id slot topn)
        (Values-put_key Backed doc.id slot topn refl h)

  insert_slot-Backed :
      (x : Slot Score) (ys : List (Slot Score))
      → Backed x
      → All Backed ys
      → All Backed (insert_slot ranking x ys)
  unfolding insert_slot
  insert_slot-Backed x [] p h = (p, tt)
  insert_slot-Backed x (y ∷ ys) p h = elim (Bool-cases (ranking.lt_score x.score y.score)) [
    | inl lower ↦ ground (arith, lower, p, h, insert_slot-Backed x ys p h.1)
    | inr upper ↦ ground (arith, upper, p, h)
  ]

  sorted_entries-Backed :
      (topn : TopN Score) → Values Backed topn → All Backed (sorted_entries ranking topn)
  unfolding sorted_entries
  sorted_entries-Backed [] h = tt
  sorted_entries-Backed ((key, slot) ∷ rest) h =
      insert_slot-Backed slot (sorted_entries ranking rest) h.0 (sorted_entries-Backed rest h.1)

  -- An episode of the result has its fused score and names no parent. A fact names an episode as
  -- its parent, is one of the facts of that episode, and has its blended score there, which is
  -- above zero.
  abbrev pub JustifiedAs : ItemType → String → Score → Option String → Type 0
  JustifiedAs episode id score parent =
      (parent ≡ none) × (score ≡ get_or ranking.zero_score id settings.episode_scores)
  JustifiedAs atomic_fact id score parent =
      (source : String) × (fact : Candidate Score) × (parent ≡ some source)
      × (id ≡ fact.id)
      × OneOf fact (get_or [] source settings.episode_to_facts)
      × (score ≡ blended source fact)
      × (ranking.lt_score ranking.zero_score score ≡ true)

  abbrev pub Justified : ScoredItem Score → Type 0
  Justified item = JustifiedAs item.item_type item.id item.score item.parent_episode_id

  scored_item-Justified : (slot : Slot Score) → Backed slot → Justified (scored_item ranking slot)
  unfolding scored_item parent_of
  scored_item-Justified slot p = justify slot.item_type slot.item slot.score slot.source p
    where
      justify :
          (t : ItemType) (item : Candidate Score) (score : Score) (source : String)
          → BackedAs t item score source
          → JustifiedAs t item.id score (parent_of t source)
      justify episode item score source p = (refl, p)
      justify atomic_fact item score source p = (source, item, refl, refl, p.0, p.1, p.2)

  scored_items-Justified :
      (slots : List (Slot Score))
      → All Backed slots
      → All Justified (map (scored_item ranking) slots)
  scored_items-Justified [] h = tt
  scored_items-Justified (slot ∷ slots) h =
      (scored_item-Justified slot h.0, scored_items-Justified slots h.1)

-- Every item of `heap_expand` is justified by its input. An episode has the score that the fusion
-- gives it, or zero, and names no parent. A fact names an episode as its parent, is one of the
-- facts that were fetched for that episode, and has the blend of its own and that episode's score,
-- which is above zero. So a fact never appears under an episode that it does not belong to.
pub heap_expand-Justified :
    {Score : Type 0} (ranking : Ranking Score) (episode_to_facts : Dict (List (Candidate Score)))
    (top_k : ℕ) (alpha : Score) (rounds facts_per_episode : ℕ)
    (sparse dense : List (Candidate Score))
    → All
        (Justified ranking (
          fusion_settings ranking episode_to_facts top_k alpha rounds facts_per_episode sparse
            dense))
        (heap_expand ranking episode_to_facts top_k alpha rounds facts_per_episode sparse dense)
unfolding heap_expand converge
heap_expand-Justified ranking episode_to_facts top_k alpha rounds facts_per_episode sparse dense =
    let settings =
      fusion_settings ranking episode_to_facts top_k alpha rounds facts_per_episode sparse dense in
    let fused = ranking.rrf sparse dense in
    let first = init_topn ranking settings.episode_scores (take settings.top_k fused) [] in
    let heap = build_heap ranking fused [] in
    let backed =
      expansion_rounds-Backed ranking settings heap 0 first
        (init_topn-Backed ranking settings (take settings.top_k fused) [] tt) in
    ground (
      arith,
      scored_items-Justified ranking settings
          (sorted_entries ranking (expansion_rounds ranking settings heap 0 first))
          (sorted_entries-Backed ranking settings (expansion_rounds ranking settings heap 0 first)
            backed),
    )
