-- ===== src/Cascade/Queue/Invariant.antt =====
-- What holds of the table between two repository calls.
use ever_os.Prelude.{
  Bool-cases, ne-of-test, is_some, All, All-imp, All-zip, ℕ, ◌≤◌, ◌<◌, String, ◌≡◌, refl, sym, ◌∙◌,
  ◌≢◌, inl, inr, Bool, true, false, [], ◌∷◌, arith, ◌==◌, eq_iff,
}
use ever_os.Cascade.Queue.{MdChangeState, Queue, is_failed, update_where, insert_or_update, max_lsn}

-- A row carries a verdict and a message exactly while it is failed.
pub record RowIsValid (row : MdChangeState) : Type 0 where
  pub verdict : is_some row.retryable ≡ is_failed row.status
  pub message : is_some row.error ≡ is_failed row.status

-- No two rows share a path, and no two share an lsn.
abbrev pub Unique : Queue → Type 0
Unique [] = Unit
Unique (row ∷ rows) =
    All (λ other. other.md_path ≢ row.md_path) rows
    × All (λ other. other.lsn ≢ row.lsn) rows
    × Unique rows

pub record IsValid (queue : Queue) : Type 0 where
  pub unique : Unique queue
  pub rows : All RowIsValid queue

module _ (P : MdChangeState → Type 0) (test : MdChangeState → Bool)
    (change : MdChangeState → MdChangeState) where
  pub All-update_where :
      (queue : Queue)
      → ((row : MdChangeState) → P row → test row ≡ true → P (change row))
      → All P queue
      → All P (update_where test change queue)
  unfolding update_where
  All-update_where [] step h = h
  All-update_where (row ∷ rows) step h = ground (arith, step row, All-update_where rows step h.1)

pub update_where-none :
    (test : MdChangeState → Bool) (change : MdChangeState → MdChangeState) (queue : Queue)
    → All (λ row. test row ≡ false) queue
    → update_where test change queue ≡ queue
unfolding update_where
update_where-none test change [] h = refl
update_where-none test change (row ∷ rows) h =
    ground (arith, update_where-none test change rows h.1)

-- Every row after the statement has `P`, if the new row has it, and each row that stood there,
-- changed if its path is the new one.
pub All-insert_or_update :
    (P Q : MdChangeState → Type 0) (new : MdChangeState) (change : MdChangeState → MdChangeState)
    (queue : Queue)
    → Unique queue
    → All Q queue
    → P new
    → ((row : MdChangeState) → Q row → row.md_path ≡ new.md_path → P (change row))
    → ((row : MdChangeState) → Q row → row.md_path ≢ new.md_path → P row)
    → All P (insert_or_update new change queue)
unfolding insert_or_update
All-insert_or_update P Q new change [] u h at_new at_old other = (at_new, tt)
All-insert_or_update P Q new change (row ∷ rows) u h at_new at_old other =
    elim (Bool-cases (row.md_path == new.md_path)) [
      | inl e ↦
          let p = (eq_iff row.md_path new.md_path).0 e in
          rw e
            (at_old row h.0 p, All-zip Q _ P rows (λ o q n. other o q (λ r. n (r ∙ sym p))) h.1 u.0)
      | inr e ↦ rw e (
        other row h.0 (ne-of-test _ _ e),
        All-insert_or_update P Q new change rows u.2 h.1 at_new at_old other,
      )
    ]

module _ (test : MdChangeState → Bool) (change : MdChangeState → MdChangeState)
    (path_same : (row : MdChangeState) → (change row).md_path ≡ row.md_path)
    (lsn_same : (row : MdChangeState) → (change row).lsn ≡ row.lsn) where
  All-path :
      (path : String) (queue : Queue)
      → All (λ other. other.md_path ≢ path) queue
      → All (λ other. other.md_path ≢ path) (update_where test change queue)
  All-path path queue h =
      All-update_where (λ other. other.md_path ≢ path) test change queue
        (λ row n _ e. n (sym (path_same row) ∙ e)) h

  All-lsn :
      (lsn : ℕ) (queue : Queue)
      → All (λ other. other.lsn ≢ lsn) queue
      → All (λ other. other.lsn ≢ lsn) (update_where test change queue)
  All-lsn lsn queue h =
      All-update_where (λ other. other.lsn ≢ lsn) test change queue
        (λ row n _ e. n (sym (lsn_same row) ∙ e)) h

  -- An `UPDATE` of other columns keeps paths and lsns apart.
  pub Unique-update_where : (queue : Queue) → Unique queue → Unique (update_where test change queue)
  unfolding update_where
  Unique-update_where [] u = u
  Unique-update_where (row ∷ rows) u =
      let a : All (λ other. other.md_path ≢ row.md_path) (update_where test change rows) =
        All-path row.md_path rows u.0 in
      let b : All (λ other. other.lsn ≢ row.lsn) (update_where test change rows) =
        All-lsn row.lsn rows u.1 in
      let c : Unique (update_where test change rows) = Unique-update_where rows u.2 in
      elim (Bool-cases (test row)) [
        | inl e ↦ rw (e, path_same row, lsn_same row) (a, b, c)
        | inr e ↦ rw e (a, b, c)
      ]

pub All-lsn-le-max : (queue : Queue) → All (λ row. row.lsn ≤ max_lsn queue) queue
unfolding max_lsn
All-lsn-le-max [] = tt
All-lsn-le-max (row ∷ rows) =
    (omega arith, All-imp _ _ rows (λ o h. omega arith) (All-lsn-le-max rows))

-- The statement keeps paths and lsns apart if it assigns an lsn above all that are there.
pub Unique-insert_or_update :
    (new : MdChangeState) (change : MdChangeState → MdChangeState)
    → ((row : MdChangeState) → (change row).md_path ≡ row.md_path)
    → ((row : MdChangeState) → (change row).lsn ≡ new.lsn)
    → (queue : Queue) → All (λ row. row.lsn < new.lsn) queue
    → Unique queue
    → Unique (insert_or_update new change queue)
unfolding insert_or_update
Unique-insert_or_update new change path_same lsn_new [] below u = (tt, tt, tt)
Unique-insert_or_update new change path_same lsn_new (row ∷ rows) below u =
    elim (Bool-cases (row.md_path == new.md_path)) [
      | inl e ↦ rw e (
        All-imp _ _ rows (λ o n q. n (q ∙ path_same row)) u.0,
        All-imp _ _ rows (λ o h q. omega (arith, lsn_new row)) below.1,
        u.2,
      )
      | inr e ↦ rw e (
        All-insert_or_update (λ o. o.md_path ≢ row.md_path) (λ o. o.md_path ≢ row.md_path) new
            change rows u.2 u.0 (λ q. ne-of-test _ _ e (sym q))
            (λ o n p q. n (sym (path_same o) ∙ q)) (λ o n p. n),
        All-insert_or_update (λ o. o.lsn ≢ row.lsn) (λ o. o.lsn ≢ row.lsn) new change rows u.2 u.1
            (omega arith) (λ o n p. omega (arith, lsn_new o)) (λ o n p. n),
        Unique-insert_or_update new change path_same lsn_new rows below.1 u.2,
      )
    ]
