-- ===== src/Search/Hierarchy.antt =====
-- src/everos/memory/search/hierarchy.py: episodes and their facts compete for the places of the
-- result. Scores and their order, and the fusion and calibration of the ranking library, are
-- parameters.
pub mod Expand
pub mod Values
pub mod Bound
pub mod Sources
use ever_os.Prelude.{
  ltb, if◌then◌else◌, length, ℕ, String, Bool, true, false, not, ◌&&◌, ◌||◌, List, [], ◌∷◌, ◌==◌,
}

-- An episode candidate or a fact candidate.
pub record Candidate (Score : Type 0) : Type 0 where
  pub id : String
  pub score : Score

pub data ItemType : Type 0 where
  episode : ItemType
  atomic_fact : ItemType

-- A value of `topn`: the candidate, its score, its kind, and the episode that it comes from.
pub record Slot (Score : Type 0) : Type 0 where
  pub item : Candidate Score
  pub score : Score
  pub item_type : ItemType
  pub source : String

-- Scores with their order and arithmetic, and the fusions and the calibration of the ranking
-- library.
pub record Ranking (Score : Type 0) : Type 0 where
  pub zero_score : Score
  pub lt_score : Score → Score → Bool
  pub lr : List (Candidate Score) → List (Candidate Score) → List (Candidate Score)
  pub rrf : List (Candidate Score) → List (Candidate Score) → List (Candidate Score)
  pub cosine_to_lr_score : Score → Score → Score
  pub one : Score
  pub plus : Score → Score → Score
  pub minus : Score → Score → Score
  pub times : Score → Score → Score

abbrev pub Dict : Type 0 → Type 0
Dict V = List (String × V)

module _ {V : Type 0} where
  abbrev pub has_key : String → Dict V → Bool
  has_key key [] = false
  has_key key ((k, v) ∷ rest) = k == key || has_key key rest

  unfoldable pub put_key : String → V → Dict V → Dict V
  put_key key value [] = (key, value) ∷ []
  put_key key value ((k, v) ∷ rest) =
      if k == key then (k, value) ∷ rest else (k, v) ∷ put_key key value rest

  unfoldable pub del_key : String → Dict V → Dict V
  del_key key [] = []
  del_key key ((k, v) ∷ rest) = if k == key then rest else (k, v) ∷ del_key key rest

  unfoldable pub get_or : V → String → Dict V → V
  get_or default key [] = default
  get_or default key ((k, v) ∷ rest) = if k == key then v else get_or default key rest

  -- Every key of the first is one of the second.
  unfoldable pub keys_within : Dict V → Dict V → Bool
  keys_within [] other = true
  keys_within ((k, v) ∷ rest) other = has_key k other && keys_within rest other

abbrev pub TopN : Type 0 → Type 0
TopN Score = Dict (Slot Score)

module _ {Score : Type 0} (ranking : Ranking Score) where
  open ranking use {zero_score, lt_score, lr, rrf, cosine_to_lr_score, one, plus, minus, times}

  -- `min(topn, key=...)`: the first entry with the least score.
  unfoldable pub worst : String × Slot Score → TopN Score → String × Slot Score
  worst best [] = best
  worst best (entry ∷ rest) =
      worst (if lt_score entry.1.score best.1.score then entry else best) rest

  unfoldable pub min_topn_score : TopN Score → Score
  min_topn_score [] = zero_score
  min_topn_score (entry ∷ rest) = (worst entry rest).1.score

  unfoldable pub drop_worst : TopN Score → TopN Score
  drop_worst [] = []
  drop_worst (entry ∷ rest) = del_key (worst entry rest).0 (entry ∷ rest)

  unfoldable pub insert_by_score :
      Score × Candidate Score → List (Score × Candidate Score) → List (Score × Candidate Score)
  insert_by_score x [] = x ∷ []
  insert_by_score x (y ∷ ys) = if lt_score x.0 y.0 then y ∷ insert_by_score x ys else x ∷ y ∷ ys

  -- `scored.sort(reverse=True)`, which is stable.
  unfoldable pub sort_scored : List (Score × Candidate Score) → List (Score × Candidate Score)
  sort_scored [] = []
  sort_scored (x ∷ xs) = insert_by_score x (sort_scored xs)

  -- One fact tries to enter; the flag says whether any has.
  unfoldable pub enter_fact :
      ℕ → String → Score × Candidate Score → TopN Score × Bool → TopN Score × Bool
  enter_fact top_k episode_id (score, fact) (topn, entered) =
      if not (lt_score zero_score score)
      then (topn, entered)
      else if ltb (length topn) top_k || lt_score (min_topn_score topn) score
      then (let slot : Slot Score = record {
        item = fact;
        score = score;
        item_type = atomic_fact;
        source = episode_id;
      } in
          let added = put_key fact.id slot topn in
          (if ltb top_k (length added) then drop_worst added else added, true))
      else (topn, entered)

  unfoldable pub enter_facts :
      ℕ → String → List (Score × Candidate Score) → TopN Score × Bool → TopN Score × Bool
  enter_facts top_k episode_id [] state = state
  enter_facts top_k episode_id (fact ∷ facts) state =
      enter_facts top_k episode_id facts (enter_fact top_k episode_id fact state)

  -- `alpha * child_lr + (1.0 - alpha) * parent_lr`.
  unfoldable pub blend : Score → Score → Score → Score
  blend alpha child_lr parent_lr = plus (times alpha child_lr) (times (minus one alpha) parent_lr)

  unfoldable pub score_facts :
      Score → Score → Score → List (Candidate Score) → List (Score × Candidate Score)
  score_facts alpha parent_bm25 parent_lr [] = []
  score_facts alpha parent_bm25 parent_lr (fact ∷ facts) =
      (blend alpha (cosine_to_lr_score fact.score parent_bm25) parent_lr, fact)
      ∷ score_facts alpha parent_bm25 parent_lr facts
