-- ===== src/Search/Hierarchy/Bound.antt =====
-- The number of entries of `topn`, and of items of the result.
use ever_os.Prelude.{
  length, take, length-take, ℕ, suc, ◌+◌, ◌*◌, ◌≤◌, String, ◌≡◌, refl, ap, Bool, true, false, List,
  [], ◌∷◌, map, arith, eq_refl,
}
use ever_os.Search.Hierarchy.{
  Candidate, episode, atomic_fact, Slot, Ranking, Dict, has_key, put_key, del_key, get_or, TopN,
  worst, drop_worst, sort_scored, enter_fact, enter_facts, score_facts,
}
use ever_os.Search.Hierarchy.Expand.{
  Settings, expand_one_episode, build_heap, next_count, expansion_rounds, init_topn, insert_slot,
  sorted_entries, scored_item, converge, fusion_settings, heap_expand,
}

module _ {V : Type 0} where
  length-put_key :
      (key : String) (value : V) (d : Dict V) → length (put_key key value d) ≤ suc (length d)
  unfolding put_key
  length-put_key key value [] = omega arith
  length-put_key key value ((k, v) ∷ rest) = ground (arith, length-put_key key value rest)

  length-del_key_le : (key : String) (d : Dict V) → length (del_key key d) ≤ length d
  unfolding del_key
  length-del_key_le key [] = omega arith
  length-del_key_le key ((k, v) ∷ rest) = ground (arith, length-del_key_le key rest)

  length-del_key :
      (key : String) (d : Dict V) → has_key key d ≡ true → suc (length (del_key key d)) ≡ length d
  unfolding del_key
  length-del_key key [] h = ground arith
  length-del_key key ((k, v) ∷ rest) h = ground (arith, length-del_key key rest)

module _ {Score : Type 0} (ranking : Ranking Score) where
  worst-has_key :
      (best : String × Slot Score) (rest : TopN Score)
      → has_key (worst ranking best rest).0 (best ∷ rest) ≡ true
  unfolding worst
  worst-has_key best [] = ground (arith, eq_refl best.0)
  worst-has_key best (entry ∷ rest) =
      let here = worst-has_key best rest in
      let there = worst-has_key entry rest in ground (arith, here, there)

  drop_worst_fits :
      (top_k : ℕ) (topn : TopN Score)
      → length topn ≤ suc top_k
      → length (drop_worst ranking topn) ≤ top_k
  unfolding drop_worst
  drop_worst_fits top_k [] h = omega arith
  drop_worst_fits top_k (entry ∷ rest) h =
      ground (
        arith,
        length-del_key (worst ranking entry rest).0 (entry ∷ rest) (worst-has_key entry rest),
      )

  enter_fact_fits :
      (top_k : ℕ) (episode_id : String) (fact : Score × Candidate Score) (state : TopN Score × Bool)
      → length state.0 ≤ top_k
      → length (enter_fact ranking top_k episode_id fact state).0 ≤ top_k
  unfolding enter_fact
  enter_fact_fits top_k episode_id (score, fact) (topn, entered) h =
      let slot : Slot Score = record {
        item = fact;
        score = score;
        item_type = atomic_fact;
        source = episode_id;
      } in
      ground
        (arith, length-put_key fact.id slot topn, drop_worst_fits top_k (put_key fact.id slot topn))

  enter_facts_fits :
      (top_k : ℕ) (episode_id : String) (facts : List (Score × Candidate Score))
      (state : TopN Score × Bool)
      → length state.0 ≤ top_k
      → length (enter_facts ranking top_k episode_id facts state).0 ≤ top_k
  unfolding enter_facts
  enter_facts_fits top_k episode_id [] state h = h
  enter_facts_fits top_k episode_id (fact ∷ facts) state h =
      enter_facts_fits top_k episode_id facts (enter_fact ranking top_k episode_id fact state)
        (enter_fact_fits top_k episode_id fact state h)

  expand_one_episode_fits :
      (settings : Settings Score) (episode_id : String) (topn : TopN Score)
      → length topn ≤ settings.top_k
      → length (expand_one_episode ranking settings episode_id topn) ≤ settings.top_k
  unfolding expand_one_episode
  expand_one_episode_fits settings episode_id topn h =
      let facts = take settings.facts_per_episode (
        sort_scored ranking (
          score_facts ranking settings.alpha
            (get_or ranking.zero_score episode_id settings.bm25_scores)
            (get_or ranking.zero_score episode_id settings.episode_scores)
            (take (settings.facts_per_episode * 2)
              (get_or [] episode_id settings.episode_to_facts)))) in
      let entered = enter_facts ranking settings.top_k episode_id facts (topn, false) in
      ground (
        arith,
        enter_facts_fits settings.top_k episode_id facts (topn, false) h,
        length-del_key_le episode_id entered.0,
      )

  expansion_rounds_fits :
      (settings : Settings Score) (heap : List (Candidate Score)) (unchanged : ℕ)
      (topn : TopN Score)
      → length topn ≤ settings.top_k
      → length (expansion_rounds ranking settings heap unchanged topn) ≤ settings.top_k
  unfolding expansion_rounds
  expansion_rounds_fits settings [] unchanged topn h = h
  expansion_rounds_fits settings (doc ∷ heap) unchanged topn h =
      let expanded = expand_one_episode ranking settings doc.id topn in
      let rest =
        expansion_rounds_fits settings heap (next_count ranking unchanged topn expanded) expanded
          (expand_one_episode_fits settings doc.id topn h) in
      ground (arith, rest)

module _ {Score : Type 0} (ranking : Ranking Score) where
  length-init_topn :
      (scores : Dict Score) (docs : List (Candidate Score)) (topn : TopN Score)
      → length (init_topn ranking scores docs topn) ≤ length docs + length topn
  unfolding init_topn
  length-init_topn scores [] topn = omega arith
  length-init_topn scores (doc ∷ docs) topn =
      let slot : Slot Score = record {
        item = doc;
        score = get_or ranking.zero_score doc.id scores;
        item_type = episode;
        source = doc.id;
      } in
      omega (
        arith,
        length-init_topn scores docs (put_key doc.id slot topn),
        length-put_key doc.id slot topn,
      )

  length-insert_slot :
      (x : Slot Score) (ys : List (Slot Score))
      → length (insert_slot ranking x ys) ≡ suc (length ys)
  unfolding insert_slot
  length-insert_slot x [] = refl
  length-insert_slot x (y ∷ ys) = ground (arith, length-insert_slot x ys)

  length-sorted_entries : (topn : TopN Score) → length (sorted_entries ranking topn) ≡ length topn
  unfolding sorted_entries
  length-sorted_entries [] = refl
  length-sorted_entries ((key, slot) ∷ rest) =
      omega
        (arith, length-insert_slot slot (sorted_entries ranking rest), length-sorted_entries rest)

  length-scored_items :
      (slots : List (Slot Score)) → length (map (scored_item ranking) slots) ≡ length slots
  length-scored_items [] = refl
  length-scored_items (slot ∷ slots) = ap suc (length-scored_items slots)

  converge_fits :
      (settings : Settings Score) (fused : List (Candidate Score))
      → length (converge ranking settings fused) ≤ settings.top_k
  unfolding converge
  converge_fits settings fused =
      expansion_rounds_fits ranking settings (build_heap ranking fused []) 0
        (init_topn ranking settings.episode_scores (take settings.top_k fused) [])
        (omega (
          arith,
          length-init_topn settings.episode_scores (take settings.top_k fused) [],
          length-take settings.top_k fused,
        ))

-- Whatever the ranking computes and however many facts the episodes have, `heap_expand` returns at
-- most `top_k` items.
pub length-heap_expand :
    {Score : Type 0} (ranking : Ranking Score) (episode_to_facts : Dict (List (Candidate Score)))
    (top_k : ℕ) (alpha : Score) (rounds facts_per_episode : ℕ)
    (sparse dense : List (Candidate Score))
    → length
        (heap_expand ranking episode_to_facts top_k alpha rounds facts_per_episode sparse dense)
      ≤ top_k
unfolding heap_expand fusion_settings
length-heap_expand ranking episode_to_facts top_k alpha rounds facts_per_episode sparse dense =
    let settings =
      fusion_settings ranking episode_to_facts top_k alpha rounds facts_per_episode sparse dense in
    let topn = converge ranking settings (ranking.rrf sparse dense) in
    ground (
      arith,
      converge_fits ranking settings (ranking.rrf sparse dense),
      length-sorted_entries ranking topn,
      length-scored_items ranking (sorted_entries ranking topn),
    )
