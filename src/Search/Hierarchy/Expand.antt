-- ===== src/Search/Hierarchy/Expand.antt =====
-- src/everos/memory/search/hierarchy.py: the rounds of `heap_expand`, one episode each.
use Prim.Native.Nat.{Ordering}
use Prim.Native.String.{compare as compare_text}
use ever_os.Prelude.{
  ltb, eqb, if◌then◌else◌, length, take, ℕ, suc, ◌*◌, String, Bool, true, false, not, ◌&&◌, ◌||◌,
  Option, none, some, List, [], ◌∷◌, map,
}
use ever_os.Search.Hierarchy.{
  Candidate, ItemType, episode, atomic_fact, Slot, Ranking, Dict, has_key, put_key, del_key, get_or,
  keys_within, TopN, sort_scored, enter_facts, score_facts,
}

-- An item of the result; a fact names the episode that it comes from.
pub record ScoredItem (Score : Type 0) : Type 0 where
  pub id : String
  pub score : Score
  pub item_type : ItemType
  pub parent_episode_id : Option String

unfoldable pub parent_of : ItemType → String → Option String
parent_of episode source = none
parent_of atomic_fact source = some source

-- `<` on texts.
unfoldable pub text_before : String → String → Bool
text_before x y = elim (compare_text x y) [ Ordering.lt ↦ true | _ ↦ false ]

-- What stays the same from round to round.
pub record Settings (Score : Type 0) : Type 0 where
  pub episode_to_facts : Dict (List (Candidate Score))
  pub bm25_scores : Dict Score
  pub episode_scores : Dict Score
  pub top_k : ℕ
  pub alpha : Score
  pub facts_per_episode : ℕ
  pub max_convergence_rounds : ℕ

module _ {Score : Type 0} (ranking : Ranking Score) where
  open ranking use {zero_score, lt_score, lr, rrf}

  -- The facts of one episode against the entries of `topn`. Without facts none enters.
  unfoldable pub expand_one_episode : Settings Score → String → TopN Score → TopN Score
  expand_one_episode settings episode_id topn =
      let facts =
        take (settings.facts_per_episode * 2) (get_or [] episode_id settings.episode_to_facts) in
      let parent_bm25 = get_or zero_score episode_id settings.bm25_scores in
      let parent_lr = get_or zero_score episode_id settings.episode_scores in
      let scored =
        sort_scored ranking (score_facts ranking settings.alpha parent_bm25 parent_lr facts) in
      let top_facts = take settings.facts_per_episode scored in
      let entered = enter_facts ranking settings.top_k episode_id top_facts (topn, false) in
      if entered.1 && has_key episode_id entered.0 then del_key episode_id entered.0 else entered.0

  -- The order in which the heap gives the episodes back: by `(-score, id)`.
  unfoldable pub pops_before : Candidate Score → Candidate Score → Bool
  pops_before x y =
      lt_score y.score x.score || (not (lt_score x.score y.score) && text_before x.id y.id)

  unfoldable pub heappush : Candidate Score → List (Candidate Score) → List (Candidate Score)
  heappush x [] = x ∷ []
  heappush x (y ∷ heap) = if pops_before x y then x ∷ y ∷ heap else y ∷ heappush x heap

  unfoldable pub build_heap :
      List (Candidate Score) → List (Candidate Score) → List (Candidate Score)
  build_heap [] heap = heap
  build_heap (doc ∷ docs) heap = build_heap docs (heappush doc heap)

  unfoldable pub next_count : ℕ → TopN Score → TopN Score → ℕ
  next_count unchanged previous topn =
      if keys_within topn previous && keys_within previous topn then suc unchanged else 0

  -- The loop over the heap, which ends early after rounds that changed no key.
  unfoldable pub expansion_rounds :
      Settings Score → List (Candidate Score) → ℕ → TopN Score → TopN Score
  expansion_rounds settings [] unchanged topn = topn
  expansion_rounds settings (doc ∷ heap) unchanged topn =
      let expanded = expand_one_episode settings doc.id topn in
      let rest = expansion_rounds settings heap (next_count unchanged topn expanded) expanded in
      if ltb unchanged settings.max_convergence_rounds then rest else topn

  unfoldable pub score_by_id : List (Candidate Score) → Dict Score → Dict Score
  score_by_id [] scores = scores
  score_by_id (c ∷ cs) scores = score_by_id cs (put_key c.id c.score scores)

  unfoldable pub init_topn : Dict Score → List (Candidate Score) → TopN Score → TopN Score
  init_topn episode_scores [] topn = topn
  init_topn episode_scores (doc ∷ docs) topn =
      let slot : Slot Score = record {
        item = doc;
        score = get_or zero_score doc.id episode_scores;
        item_type = episode;
        source = doc.id;
      } in
      init_topn episode_scores docs (put_key doc.id slot topn)

  -- `sorted(topn.values(), key=..., reverse=True)`.
  unfoldable pub insert_slot : Slot Score → List (Slot Score) → List (Slot Score)
  insert_slot x [] = x ∷ []
  insert_slot x (y ∷ ys) = if lt_score x.score y.score then y ∷ insert_slot x ys else x ∷ y ∷ ys

  unfoldable pub sorted_entries : TopN Score → List (Slot Score)
  sorted_entries [] = []
  sorted_entries ((key, slot) ∷ rest) = insert_slot slot (sorted_entries rest)

  unfoldable pub scored_item : Slot Score → ScoredItem Score
  scored_item slot = record {
    id = slot.item.id;
    score = slot.score;
    item_type = slot.item_type;
    parent_episode_id = parent_of slot.item_type slot.source;
  }

  -- Phase 1 to 3: the fusion, the first entries and the rounds over the heap.
  unfoldable pub converge : Settings Score → List (Candidate Score) → TopN Score
  converge settings fused =
      expansion_rounds settings (build_heap fused []) 0
        (init_topn settings.episode_scores (take settings.top_k fused) [])

  unfoldable pub fusion_settings :
      Dict (List (Candidate Score))
      → ℕ
      → Score
      → ℕ
      → ℕ
      → List (Candidate Score)
      → List (Candidate Score)
      → Settings Score
  fusion_settings episode_to_facts top_k alpha rounds facts_per_episode sparse dense = record {
    episode_to_facts = episode_to_facts;
    bm25_scores = score_by_id sparse [];
    episode_scores = score_by_id (lr dense sparse) [];
    top_k = top_k;
    alpha = alpha;
    facts_per_episode = facts_per_episode;
    max_convergence_rounds = rounds;
  }

  -- No fused result gives no item: the heap and `topn` are empty then.
  unfoldable pub heap_expand :
      Dict (List (Candidate Score))
      → ℕ
      → Score
      → ℕ
      → ℕ
      → List (Candidate Score)
      → List (Candidate Score)
      → List (ScoredItem Score)
  heap_expand episode_to_facts top_k alpha rounds facts_per_episode sparse dense =
      if eqb (length sparse) 0 && eqb (length dense) 0
      then []
      else map scored_item (
          sorted_entries (
            converge
              (fusion_settings episode_to_facts top_k alpha rounds facts_per_episode sparse dense)
              (rrf sparse dense)))
