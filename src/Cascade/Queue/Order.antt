-- ===== src/Cascade/Queue/Order.antt =====
-- `ORDER BY lsn` is a stable sort that commutes with `WHERE` and with changes of other columns.
use ever_os.Prelude.{
  leb, if◌then◌else◌, Bool-cases, keep, All, All-keep, All-imp, ◌≤◌, ◌≡◌, refl, sym, ◌≢◌, inl, inr,
  Bool, List, [], ◌∷◌, map, arith,
}
use ever_os.Cascade.Queue.{MdChangeState, order_by_lsn, insert_by_lsn}
use ever_os.Cascade.Queue.Invariant.{Unique}

abbrev pub IsOrdered : List MdChangeState → Type 0
IsOrdered [] = Unit
IsOrdered (row ∷ rows) = All (λ other. row.lsn ≤ other.lsn) rows × IsOrdered rows

module _ (P : MdChangeState → Type 0) where
  All-insert_by_lsn :
      (new : MdChangeState) (rows : List MdChangeState)
      → P new
      → All P rows
      → All P (insert_by_lsn new rows)
  unfolding insert_by_lsn
  All-insert_by_lsn new [] h all = (h, tt)
  All-insert_by_lsn new (row ∷ rows) h all = ground (arith, All-insert_by_lsn new rows h all.1)

  pub All-order_by_lsn : (rows : List MdChangeState) → All P rows → All P (order_by_lsn rows)
  unfolding order_by_lsn
  All-order_by_lsn [] all = all
  All-order_by_lsn (row ∷ rows) all = All-insert_by_lsn row _ all.0 (All-order_by_lsn rows all.1)

insert_by_lsn-IsOrdered :
    (new : MdChangeState) (rows : List MdChangeState)
    → IsOrdered rows
    → IsOrdered (insert_by_lsn new rows)
unfolding insert_by_lsn
insert_by_lsn-IsOrdered new [] o = (tt, tt)
insert_by_lsn-IsOrdered new (row ∷ rows) o = elim (Bool-cases (leb new.lsn row.lsn)) [
  | inl e ↦ rw e ((ground arith, All-imp _ _ rows (λ other h. ground arith) o.0), o)
  | inr e ↦ rw e (
    All-insert_by_lsn (λ other. row.lsn ≤ other.lsn) new rows (ground arith) o.0,
    insert_by_lsn-IsOrdered new rows o.1,
  )
]

pub order_by_lsn-IsOrdered : (rows : List MdChangeState) → IsOrdered (order_by_lsn rows)
unfolding order_by_lsn
order_by_lsn-IsOrdered [] = tt
order_by_lsn-IsOrdered (row ∷ rows) = insert_by_lsn-IsOrdered row _ (order_by_lsn-IsOrdered rows)

insert_by_lsn-below :
    (new : MdChangeState) (rows : List MdChangeState)
    → All (λ other. new.lsn ≤ other.lsn) rows
    → insert_by_lsn new rows ≡ new ∷ rows
unfolding insert_by_lsn
insert_by_lsn-below new [] h = refl
insert_by_lsn-below new (row ∷ rows) h = ground arith

keep-insert_by_lsn :
    (p : MdChangeState → Bool) (new : MdChangeState) (rows : List MdChangeState)
    → IsOrdered rows
    → keep p (insert_by_lsn new rows)
      ≡ (if p new then insert_by_lsn new (keep p rows) else keep p rows)
unfolding insert_by_lsn
keep-insert_by_lsn p new [] o = ground arith
keep-insert_by_lsn p new (row ∷ rows) o = elim (Bool-cases (leb new.lsn row.lsn)) [
  | inl e ↦ ground (
    arith,
    insert_by_lsn-below new (keep p rows) (
        All-keep (λ other. new.lsn ≤ other.lsn) p rows
          (All-imp _ _ rows (λ other h. ground arith) o.0)),
  )
  | inr e ↦ ground (arith, keep-insert_by_lsn p new rows o.1)
]

pub keep-order_by_lsn :
    (p : MdChangeState → Bool) (rows : List MdChangeState)
    → keep p (order_by_lsn rows) ≡ order_by_lsn (keep p rows)
unfolding order_by_lsn
keep-order_by_lsn p [] = refl
keep-order_by_lsn p (row ∷ rows) = ground (
  arith,
  keep-insert_by_lsn p row (order_by_lsn rows) (order_by_lsn-IsOrdered rows),
  keep-order_by_lsn p rows,
)

module _ (change : MdChangeState → MdChangeState)
    (lsn_same : (row : MdChangeState) → (change row).lsn ≡ row.lsn) where
  map-insert_by_lsn :
      (new : MdChangeState) (rows : List MdChangeState)
      → insert_by_lsn (change new) (map change rows) ≡ map change (insert_by_lsn new rows)
  unfolding insert_by_lsn
  map-insert_by_lsn new [] = refl
  map-insert_by_lsn new (row ∷ rows) =
      ground (arith, lsn_same new, lsn_same row, map-insert_by_lsn new rows)

  pub order_by_lsn-map :
      (rows : List MdChangeState) → order_by_lsn (map change rows) ≡ map change (order_by_lsn rows)
  unfolding order_by_lsn
  order_by_lsn-map [] = refl
  order_by_lsn-map (row ∷ rows) =
      rw (order_by_lsn-map rows) (map-insert_by_lsn row (order_by_lsn rows))

Unique-insert_by_lsn :
    (new : MdChangeState) (rows : List MdChangeState)
    → Unique (new ∷ rows)
    → Unique (insert_by_lsn new rows)
unfolding insert_by_lsn
Unique-insert_by_lsn new [] u = u
Unique-insert_by_lsn new (row ∷ rows) u = elim (Bool-cases (leb new.lsn row.lsn)) [
  | inl e ↦ rw e u
  | inr e ↦ rw e (
    All-insert_by_lsn (λ o. o.md_path ≢ row.md_path) new rows (λ p. u.0.0 (sym p)) u.2.0,
    All-insert_by_lsn (λ o. o.lsn ≢ row.lsn) new rows (λ p. u.1.0 (sym p)) u.2.1,
    Unique-insert_by_lsn new rows (u.0.1, u.1.1, u.2.2),
  )
]

pub Unique-order_by_lsn : (rows : List MdChangeState) → Unique rows → Unique (order_by_lsn rows)
unfolding order_by_lsn
Unique-order_by_lsn [] u = u
Unique-order_by_lsn (row ∷ rows) u =
    Unique-insert_by_lsn row _
      (All-order_by_lsn _ rows u.0, All-order_by_lsn _ rows u.1, Unique-order_by_lsn rows u.2)

pub Unique-keep :
    (p : MdChangeState → Bool) (rows : List MdChangeState) → Unique rows → Unique (keep p rows)
Unique-keep p [] u = u
Unique-keep p (row ∷ rows) u = ground (
  arith,
  All-keep (λ o. o.md_path ≢ row.md_path) p rows u.0,
  All-keep (λ o. o.lsn ≢ row.lsn) p rows u.1,
  Unique-keep p rows u.2,
)
