-- ===== src/Cascade/Reconcile/Unique.antt =====
-- A sweep decides each path once at most.
use ever_os.Prelude.{
  All, All-imp, contains, String, ◌≡◌, refl, ◌∙◌, ◌≢◌, true, false, Option, none, some, List, [],
  ◌∷◌, ◌++◌, map, arith, eq_refl,
}
use ever_os.Cascade.Reconcile.{
  ScanInput, ReconcileDecision, PriorState, Snapshot, prior_of, reconcile, decide_item,
  append_decision, scan_decisions, missing_decisions,
}
use ever_os.Cascade.Reconcile.Table.{UniqueInputs, UniqueKeys, UniqueDecisions}

module _ (P : String → Type 0) where
  All-scan_decisions :
      (state : Snapshot) (scan : List ScanInput)
      → All (λ item. P item.md_path) scan
      → All (λ d. P d.md_path) (scan_decisions state scan)
  unfolding scan_decisions
  All-scan_decisions state [] h = h
  All-scan_decisions state (item ∷ items) h = ground (arith, All-scan_decisions state items h.1)

  All-missing_decisions :
      (seen : List String) (state : Snapshot)
      → All (λ entry. P entry.0) state
      → All (λ d. P d.md_path) (missing_decisions seen state)
  unfolding missing_decisions
  All-missing_decisions seen [] h = h
  All-missing_decisions seen ((key, prior) ∷ state) h =
      ground (arith, All-missing_decisions seen state h.1)

missing-unseen :
    (seen : List String) (state : Snapshot)
    → All (λ d. contains seen d.md_path ≡ false) (missing_decisions seen state)
unfolding missing_decisions
missing-unseen seen [] = tt
missing-unseen seen ((key, prior) ∷ state) = ground (arith, missing-unseen seen state)

md_path-decide_item :
    (prior : Option PriorState) (item : ScanInput) (d : ReconcileDecision)
    → decide_item prior item ≡ some d
    → d.md_path ≡ item.md_path
unfolding decide_item
md_path-decide_item none item d h = ground arith
md_path-decide_item (some prior) item d h = ground arith

Unique-append_decision :
    (path : String) (o : Option ReconcileDecision) (rest : List ReconcileDecision)
    → ((d : ReconcileDecision) → o ≡ some d → d.md_path ≡ path)
    → All (λ d. d.md_path ≢ path) rest
    → UniqueDecisions rest
    → UniqueDecisions (append_decision o rest)
unfolding append_decision
Unique-append_decision path none rest at h u = u
Unique-append_decision path (some d) rest at h u =
    (All-imp _ _ rest (λ other n e. n (e ∙ at d refl)) h, u)

Unique-scan_decisions :
    (state : Snapshot) (scan : List ScanInput)
    → UniqueInputs scan
    → UniqueDecisions (scan_decisions state scan)
unfolding scan_decisions
Unique-scan_decisions state [] u = u
Unique-scan_decisions state (item ∷ items) u =
    Unique-append_decision item.md_path _ _ (md_path-decide_item (prior_of state item.md_path) item)
      (All-scan_decisions (λ p. p ≢ item.md_path) state items u.0)
      (Unique-scan_decisions state items u.1)

Unique-missing_decisions :
    (seen : List String) (state : Snapshot)
    → UniqueKeys state
    → UniqueDecisions (missing_decisions seen state)
unfolding missing_decisions
Unique-missing_decisions seen [] u = u
Unique-missing_decisions seen ((key, prior) ∷ state) u = ground (
  arith,
  All-missing_decisions (λ p. p ≢ key) seen state u.0,
  Unique-missing_decisions seen state u.1,
)

All-append {ℓ κ} :
    {A : Type ℓ} (P : A → Type κ) (xs ys : List A) → All P xs → All P ys → All P (xs ++ ys)
All-append P [] ys h k = k
All-append P (x ∷ xs) ys h k = (h.0, All-append P xs ys h.1 k)

Unique-append :
    (ds es : List ReconcileDecision)
    → UniqueDecisions ds
    → UniqueDecisions es
    → All (λ d. All (λ other. other.md_path ≢ d.md_path) es) ds
    → UniqueDecisions (ds ++ es)
Unique-append [] es u w h = w
Unique-append (d ∷ ds) es u w h = (All-append _ ds es u.0 h.0, Unique-append ds es u.1 w h.1)

contains-paths :
    (extra : List String) (scan : List ScanInput)
    → ((path : String)
        → contains (map (λ (item : ScanInput). item.md_path) scan) path ≡ true
        → contains extra path ≡ true)
    → All (λ item. contains extra item.md_path ≡ true) scan
contains-paths extra [] h = tt
contains-paths extra (item ∷ items) h = (
  h item.md_path (ground (arith, eq_refl item.md_path)),
  contains-paths extra items (λ path e. h path (ground arith)),
)

-- No path is decided twice.
pub Unique-reconcile :
    (scan : List ScanInput) (state : Snapshot)
    → UniqueInputs scan
    → UniqueKeys state
    → UniqueDecisions (reconcile scan state)
unfolding reconcile
Unique-reconcile scan state u k =
    let seen = map (λ (item : ScanInput). item.md_path) scan in
    Unique-append _ _ (Unique-scan_decisions state scan u) (Unique-missing_decisions seen state k) (
      All-imp _ _ _
        (λ d s.
          All-imp _ _ (missing_decisions seen state) (λ other m e. ground arith)
            (missing-unseen seen state))
        (All-scan_decisions (λ p. contains seen p ≡ true) state scan
          (contains-paths seen scan (λ p e. e))))
