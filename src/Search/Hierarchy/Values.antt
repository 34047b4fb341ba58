-- ===== src/Search/Hierarchy/Values.antt =====
-- A predicate of the values of a dictionary, of the scored facts and of a list's prefix.
use ever_os.Prelude.{
  take, All, ℕ, zero, suc, String, ◌≡◌, refl, ◌⊎◌, inl, inr, List, [], ◌∷◌, arith,
}
use ever_os.Search.Hierarchy.{
  Candidate, Ranking, Dict, put_key, del_key, insert_by_score, sort_scored,
}

abbrev pub OneOf : {A : Type 0} → A → List A → Type 0
OneOf x [] = ⊥
OneOf x (y ∷ ys) = (x ≡ y) ⊎ OneOf x ys

pub All-OneOf :
    {A : Type 0} (P : A → Type 0) (xs : List A) → ((x : A) → OneOf x xs → P x) → All P xs
All-OneOf P [] h = tt
All-OneOf P (x ∷ xs) h = (h x (inl refl), All-OneOf P xs (λ y m. h y (inr m)))

pub All-take : {A : Type 0} (P : A → Type 0) (n : ℕ) (xs : List A) → All P xs → All P (take n xs)
All-take P zero xs h = tt
All-take P (suc n) [] h = tt
All-take P (suc n) (x ∷ xs) h = (h.0, All-take P n xs h.1)

-- A predicate of the values of a dictionary.
module _ {V : Type 0} (P : V → Type 0) where
  abbrev pub Values : Dict V → Type 0
  Values = All (λ entry. P entry.1)

  pub Values-put_key :
      (key : String) (value : V) (d : Dict V) → P value → Values d → Values (put_key key value d)
  unfolding put_key
  Values-put_key key value [] p h = (p, tt)
  Values-put_key key value ((k, v) ∷ rest) p h = ground (arith, Values-put_key key value rest p h.1)

  pub Values-del_key : (key : String) (d : Dict V) → Values d → Values (del_key key d)
  unfolding del_key
  Values-del_key key [] h = tt
  Values-del_key key ((k, v) ∷ rest) h = ground (arith, Values-del_key key rest h.1)

module _ {Score : Type 0} (ranking : Ranking Score) (P : Score × Candidate Score → Type 0) where
  pub All-insert_by_score :
      (x : Score × Candidate Score) (ys : List (Score × Candidate Score))
      → P x
      → All P ys
      → All P (insert_by_score ranking x ys)
  unfolding insert_by_score
  All-insert_by_score x [] p h = (p, tt)
  All-insert_by_score x (y ∷ ys) p h = ground (arith, All-insert_by_score x ys p h.1)

  pub All-sort_scored :
      (xs : List (Score × Candidate Score)) → All P xs → All P (sort_scored ranking xs)
  unfolding sort_scored
  All-sort_scored [] h = tt
  All-sort_scored (x ∷ xs) h =
      All-insert_by_score x (sort_scored ranking xs) h.0 (All-sort_scored xs h.1)
