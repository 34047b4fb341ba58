-- ===== src/Cascade/Queue/Paths.antt =====
-- Rows found by their paths, and rows that pass a test.
use ever_os.Prelude.{
  test-of-ne, take, keep, All, All-keep, All-imp, All-zip, contains, ℕ, zero, suc, String, ◌≡◌,
  refl, sym, ap, ◌∙◌, ◌≢◌, Bool, true, false, ◌&&◌, ◌||◌, List, [], ◌∷◌, map, arith, ◌==◌, eq_refl,
}
use ever_os.Cascade.Queue.{MdChangeState, Queue, order_by_lsn, insert_by_lsn}
use ever_os.Cascade.Queue.Invariant.{Unique}

abbrev pub paths : List MdChangeState → List String
paths = map (λ row. row.md_path)

contains-insert_by_lsn :
    (new : MdChangeState) (rows : List MdChangeState) (path : String)
    → contains (paths (insert_by_lsn new rows)) path
      ≡ (new.md_path == path || contains (paths rows) path)
unfolding insert_by_lsn
contains-insert_by_lsn new [] path = refl
contains-insert_by_lsn new (row ∷ rows) path = ground (arith, contains-insert_by_lsn new rows path)

pub contains-order_by_lsn :
    (rows : List MdChangeState) (path : String)
    → contains (paths (order_by_lsn rows)) path ≡ contains (paths rows) path
unfolding order_by_lsn
contains-order_by_lsn [] path = refl
contains-order_by_lsn (row ∷ rows) path =
    ground
      (arith, contains-insert_by_lsn row (order_by_lsn rows) path, contains-order_by_lsn rows path)

pub contains-take :
    (n : ℕ) (rows : List MdChangeState) (path : String)
    → contains (paths (take n rows)) path ≡ true
    → contains (paths rows) path ≡ true
contains-take zero rows path h = cc
contains-take (suc n) [] path h = h
contains-take (suc n) (row ∷ rows) path h = ground (arith, contains-take n rows path)

-- A path that no row has is not among the rows' paths.
not-contains :
    (path : String) (rows : List MdChangeState)
    → All (λ other. other.md_path ≢ path) rows
    → contains (paths rows) path ≡ false
not-contains path [] h = refl
not-contains path (row ∷ rows) h =
    ground (arith, test-of-ne row.md_path path h.0, not-contains path rows h.1)

-- Two tests that agree on the rows keep the same rows.
pub keep-same :
    (p q : MdChangeState → Bool) (rows : List MdChangeState)
    → All (λ row. p row ≡ q row) rows
    → keep p rows ≡ keep q rows
keep-same p q [] h = refl
keep-same p q (row ∷ rows) h = ground (arith, h.0, keep-same p q rows h.1)

pub keep-none :
    (p : MdChangeState → Bool) (rows : List MdChangeState)
    → All (λ row. p row ≡ false) rows
    → keep p rows ≡ []
keep-none p [] h = refl
keep-none p (row ∷ rows) h = ground (arith, h.0, keep-none p rows h.1)

pub keep-keep :
    (p q : MdChangeState → Bool) (rows : List MdChangeState)
    → keep p (keep q rows) ≡ keep (λ row. q row && p row) rows
keep-keep p q [] = refl
keep-keep p q (row ∷ rows) = ground (arith, keep-keep p q rows)

pub All-unit-false :
    (rows : List MdChangeState)
    → All (λ (row : MdChangeState). contains [] row.md_path ≡ false) rows
All-unit-false [] = tt
All-unit-false (row ∷ rows) = (refl, All-unit-false rows)

-- Rows are found again by the paths of a prefix of theirs.
pub keep-take :
    (n : ℕ) (rows : List MdChangeState)
    → Unique rows
    → keep (λ row. contains (paths (take n rows)) row.md_path) rows ≡ take n rows
keep-take zero rows u = keep-none _ rows (All-unit-false rows)
keep-take (suc n) [] u = refl
keep-take (suc n) (row ∷ rows) u = rw eq_refl (
    ap (λ l. row ∷ l)
      (keep-same _ _ rows (
          All-imp _ _ rows
            (λ o ne. ground (arith, test-of-ne row.md_path o.md_path (λ e. ne (sym e)))) u.0)
        ∙ keep-take n rows u.2))

-- In a table, a row whose path is among those of the rows that pass a test passes it.
pub passes_by_path :
    (p : MdChangeState → Bool) (queue : Queue)
    → Unique queue
    → All (λ row. contains (paths (keep p queue)) row.md_path ≡ true → p row ≡ true) queue
passes_by_path p [] u = tt
passes_by_path p (row ∷ rows) u = (
  λ h. ground (arith, not-contains row.md_path (keep p rows) (All-keep _ p rows u.0)),
  All-zip _ _ _ rows
      (λ o ne ih h. ground (arith, ih, test-of-ne row.md_path o.md_path (λ e. ne (sym e)))) u.0
      (passes_by_path p rows u.2),
)
