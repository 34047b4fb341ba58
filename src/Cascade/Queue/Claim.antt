-- ===== src/Cascade/Queue/Claim.antt =====
-- `claim_pending_batch` returns the pending rows of lowest lsn, and claims exactly those.
use ever_os.Prelude.{
  eqb, Bool-cases, take, keep, count, All, All-Unit, All-imp, contains, ℕ, zero, suc, String, ◌≡◌,
  refl, sym, ap, ◌∙◌, inl, inr, Bool, true, ◌&&◌, ◌||◌, Option, none, some, List, [], ◌∷◌, map,
  arith,
}
use ever_os.Cascade.Queue.{
  MdChangeState, Queue, is_pending, is_processing, update_where, order_by_lsn, claimed, eligible,
  claim_pending_batch, is_empty_set, claim_picks,
}
use ever_os.Cascade.Queue.Invariant.{Unique, update_where-none}
use ever_os.Cascade.Queue.Paths.{
  paths, contains-order_by_lsn, contains-take, keep-same, keep-none, keep-keep, All-unit-false,
  keep-take, passes_by_path,
}
use ever_os.Cascade.Queue.Order.{
  keep-order_by_lsn, order_by_lsn-map, Unique-order_by_lsn, Unique-keep,
}

module _ (limit : ℕ) (kinds : Option (List String)) (queue : Queue) where
  -- The rows that a batch is made of: the eligible ones, the `limit` of lowest lsn.
  abbrev pub chosen : List MdChangeState
  chosen = take limit (order_by_lsn (keep (eligible kinds) queue))

  pub eligible_by_path :
      Unique queue
      → All (λ row. contains (paths chosen) row.md_path ≡ true → eligible kinds row ≡ true) queue
  eligible_by_path u =
      All-imp _ _ queue
        (λ row f h. f (
          sym (contains-order_by_lsn (keep (eligible kinds) queue) row.md_path)
          ∙ contains-take limit (order_by_lsn (keep (eligible kinds) queue)) row.md_path h))
        (passes_by_path (eligible kinds) queue u)

  pub order-picked :
      Unique queue
      → order_by_lsn
          (keep (λ row. contains (paths chosen) row.md_path && is_pending row.status) queue)
        ≡ chosen
  order-picked u =
      let picked = λ (row : MdChangeState). contains (paths chosen) row.md_path in
      ap order_by_lsn (
        keep-same _ (λ row. eligible kinds row && picked row) queue
          (All-imp _ _ queue (λ row f. ground (arith, f)) (eligible_by_path u))
        ∙ sym (keep-keep picked (eligible kinds) queue))
      ∙ sym (keep-order_by_lsn picked (keep (eligible kinds) queue))
      ∙ keep-take limit (order_by_lsn (keep (eligible kinds) queue))
          (Unique-order_by_lsn _ (Unique-keep (eligible kinds) queue u))

-- The rows read back after the `UPDATE` are the claimed ones.
keep-claimed :
    (picks : List String) (now : ℕ) (queue : Queue)
    → All (λ row. contains picks row.md_path ≡ true → is_pending row.status ≡ true) queue
    → keep
        (λ row. contains picks row.md_path && is_processing row.status)
        (update_where
          (λ row. contains picks row.md_path && is_pending row.status)
          (claimed now)
          queue)
      ≡ map (claimed now) (keep (λ row. contains picks row.md_path && is_pending row.status) queue)
unfolding update_where claimed
keep-claimed picks now [] h = refl
keep-claimed picks now (row ∷ rows) h = ground (arith, h.0, keep-claimed picks now rows h.1)

-- A count of zero keeps no row.
keep-of-count_zero :
    (test : MdChangeState → Bool) (queue : Queue)
    → eqb (count test queue) 0 ≡ true
    → keep test queue ≡ []
keep-of-count_zero test [] e = refl
keep-of-count_zero test (row ∷ rows) e = ground (arith, keep-of-count_zero test rows)

claim_picks_lem :
    (picks : List String) (now : ℕ) (queue : Queue) (rows : List MdChangeState)
    → picks ≡ paths rows
    → All (λ row. contains picks row.md_path ≡ true → is_pending row.status ≡ true) queue
    → order_by_lsn (keep (λ row. contains picks row.md_path && is_pending row.status) queue) ≡ rows
    → (claim_picks picks now queue).1 ≡ map (claimed now) rows
unfolding claim_picks
claim_picks_lem [] now queue [] e h o = refl
claim_picks_lem [] now queue (row ∷ rows) e h o = cc
claim_picks_lem (pick ∷ more) now queue [] e h o = cc
claim_picks_lem (pick ∷ more) now queue (row ∷ rows) e h o =
    elim (Bool-cases (eqb (count test queue) 0)) [
      | inl z ↦ cc (o, ap order_by_lsn (keep-of-count_zero test queue z))
      | inr z ↦ rw z (
          ap order_by_lsn (keep-claimed (pick ∷ more) now queue h)
          ∙ order_by_lsn-map (claimed now) (λ r. unfold claimed in refl) (keep test queue)
          ∙ ap (map (claimed now)) o)
    ]
  where
    test : MdChangeState → Bool
    test r = contains (pick ∷ more) r.md_path && is_pending r.status

-- With no path picked, nothing is written.
update_where-no_picks :
    (change : MdChangeState → MdChangeState) (queue : Queue)
    → update_where (λ row. contains [] row.md_path && is_pending row.status) change queue ≡ queue
update_where-no_picks change queue = update_where-none _ change queue (All-unit-false queue)

claim_picks-table :
    (picks : List String) (now : ℕ) (queue : Queue)
    → (claim_picks picks now queue).0
      ≡ update_where
          (λ row. contains picks row.md_path && is_pending row.status)
          (claimed now)
          queue
unfolding claim_picks
claim_picks-table [] now queue = sym (update_where-no_picks (claimed now) queue)
claim_picks-table (pick ∷ more) now queue = ground arith

chosen-empty_set :
    (limit : ℕ) (kinds : Option (List String)) (queue : Queue)
    → (eqb limit 0 || is_empty_set kinds) ≡ true
    → chosen limit kinds queue ≡ []
chosen-empty_set zero kinds queue e = refl
chosen-empty_set (suc limit) none queue e = absurd (ground arith)
chosen-empty_set (suc limit) (some (k ∷ ks)) queue e = absurd (ground arith)
chosen-empty_set (suc limit) (some []) queue e =
    rw
      (keep-none (eligible (some [])) queue
        (All-imp _ _ queue (λ row _. ground arith) (All-Unit queue)))
      (unfold order_by_lsn in refl)

module _ (limit : ℕ) (kinds : Option (List String)) (now : ℕ) (queue : Queue) where
  -- The rows that the `UPDATE` of a claim finds.
  abbrev pub is_picked : MdChangeState → Bool
  is_picked row = contains (paths (chosen limit kinds queue)) row.md_path && is_pending row.status

  -- A claim writes to the picked rows and to no other.
  pub claim_pending_batch-table :
      (claim_pending_batch limit kinds now queue).0 ≡ update_where is_picked (claimed now) queue
  unfolding claim_pending_batch
  claim_pending_batch-table = elim (Bool-cases (eqb limit 0 || is_empty_set kinds)) [
    | inl e ↦
        rw (e, chosen-empty_set limit kinds queue e)
          (sym (update_where-no_picks (claimed now) queue))
    | inr e ↦ rw e (claim_picks-table _ now queue)
  ]

  -- In a table without a repeated path or lsn, the batch consists of the pending rows of the
  -- allowed kinds, the `limit` of lowest lsn, in lsn order, each now processing. With a limit of 0
  -- or an empty set of kinds it is empty.
  pub claim_pending_batch_lem :
      Unique queue
      → (claim_pending_batch limit kinds now queue).1 ≡ map (claimed now) (chosen limit kinds queue)
  unfolding claim_pending_batch
  claim_pending_batch_lem u = elim (Bool-cases (eqb limit 0 || is_empty_set kinds)) [
    | inl e ↦ rw (e, chosen-empty_set limit kinds queue e)
    | inr e ↦ rw e (
        claim_picks_lem _ now queue _ refl
          (All-imp _ _ queue (λ row f h. ground (arith, f h))
            (eligible_by_path limit kinds queue u))
          (order-picked limit kinds queue u))
  ]
