-- ===== src/Cascade/Queue/Batches.antt =====
-- What one claim leaves to the next.
use ever_os.Prelude.{
  take, keep, All, All-imp, contains, ℕ, zero, suc, String, ◌≡◌, refl, ap, ◌∙◌, Bool, true, false,
  Option, List, [], ◌∷◌, map, arith,
}
use ever_os.Cascade.Queue.{
  MdChangeState, Queue, is_pending, update_where, claimed, eligible, claim_pending_batch,
}
use ever_os.Cascade.Queue.Invariant.{Unique, IsValid}
use ever_os.Cascade.Queue.Traces.{claim_batch-IsValid}
use ever_os.Cascade.Queue.Order.{All-order_by_lsn}
use ever_os.Cascade.Queue.Paths.{paths}
use ever_os.Cascade.Queue.Claim.{chosen, claim_pending_batch-table, claim_pending_batch_lem}

module _ (P : MdChangeState → Type 0) where
  All-take : (n : ℕ) (rows : List MdChangeState) → All P rows → All P (take n rows)
  All-take zero rows h = tt
  All-take (suc n) [] h = h
  All-take (suc n) (row ∷ rows) h = (h.0, All-take n rows h.1)

  pub All-map :
      (change : MdChangeState → MdChangeState) (rows : List MdChangeState)
      → All (λ row. P (change row)) rows
      → All P (map change rows)
  All-map change [] h = h
  All-map change (row ∷ rows) h = (h.0, All-map change rows h.1)

  -- What holds of every row that passes the test holds of every row of a batch of such rows.
  pub All-chosen :
      (limit : ℕ) (kinds : Option (List String)) (queue : Queue)
      → All (λ row. eligible kinds row ≡ true → P row) queue
      → All P (chosen limit kinds queue)
  All-chosen limit kinds queue h = All-take limit _ (All-order_by_lsn P _ (All-passing queue h))
    where
      All-passing :
          (rows : List MdChangeState)
          → All (λ row. eligible kinds row ≡ true → P row) rows
          → All P (keep (eligible kinds) rows)
      All-passing [] k = k
      All-passing (row ∷ rows) k = ground (arith, k.0, All-passing rows k.1)

pub paths-map-claimed :
    (now : ℕ) (rows : List MdChangeState) → paths (map (claimed now) rows) ≡ paths rows
unfolding claimed
paths-map-claimed now [] = refl
paths-map-claimed now (row ∷ rows) = rw (paths-map-claimed now rows)

All-updated :
    (P : MdChangeState → Type 0) (test : MdChangeState → Bool)
    (change : MdChangeState → MdChangeState)
    → ((row : MdChangeState) → test row ≡ true → P (change row))
    → ((row : MdChangeState) → test row ≡ false → P row)
    → (queue : Queue) → All P (update_where test change queue)
unfolding update_where
All-updated P test change hit miss [] = tt
All-updated P test change hit miss (row ∷ rows) =
    ground (arith, hit row, miss row, All-updated P test change hit miss rows)

module _ (limit : ℕ) (kinds : Option (List String)) (now : ℕ) (queue : Queue)
    (u : Unique queue) where
  pub paths-batch :
      paths (claim_pending_batch limit kinds now queue).1 ≡ paths (chosen limit kinds queue)
  paths-batch = ap paths (claim_pending_batch_lem limit kinds now queue u) ∙ paths-map-claimed now _

  -- What a claim leaves pending is not in its batch.
  left_pending :
      All
        (λ row.
          is_pending row.status ≡ true
          → contains (paths (claim_pending_batch limit kinds now queue).1) row.md_path ≡ false)
        (claim_pending_batch limit kinds now queue).0
  unfolding claimed
  left_pending =
      rw (paths-batch, claim_pending_batch-table limit kinds now queue)
        (All-updated _ _ (claimed now) (λ row e p. cc) (λ row e p. ground arith) queue)

-- On a valid table, a claim that directly follows another one, with any limit and kinds, returns
-- no path of the first batch.
pub claims_disjoint :
    (limit₁ limit₂ : ℕ) (kinds₁ kinds₂ : Option (List String)) (now₁ now₂ : ℕ) (queue : Queue)
    → IsValid queue
    → let first = claim_pending_batch limit₁ kinds₁ now₁ queue in
      All
        (λ row. contains (paths first.1) row.md_path ≡ false)
        (claim_pending_batch limit₂ kinds₂ now₂ first.0).1
unfolding claimed
claims_disjoint limit₁ limit₂ kinds₁ kinds₂ now₁ now₂ queue v =
    let after = (claim_pending_batch limit₁ kinds₁ now₁ queue).0 in
    let w : IsValid after = claim_batch-IsValid limit₁ kinds₁ now₁ queue v in
    rw (claim_pending_batch_lem limit₂ kinds₂ now₂ after w.unique) (
      All-map _ (claimed now₂) _ (
        All-chosen _ limit₂ kinds₂ after (
          All-imp _ _ after (λ row f e. f (ground arith))
            (left_pending limit₁ kinds₁ now₁ queue v.unique))))
