-- ===== src/Cascade/Queue/Rows.antt =====
-- Laws of the table operations of Cascade/Queue.antt, one row at a time.
use mathlib.Core.Option
use ever_os.Prelude.{
  if◌then◌else◌, Bool-cases, All, String, ◌≡◌, refl, subst, inl, inr, Bool, none, some, [], ◌∷◌,
  arith, ◌==◌, eq_iff,
}
use ever_os.Cascade.Queue.{MdChangeState, Queue, get, update_where, insert_or_update}

-- What an `UPDATE` makes of one row.
abbrev pub updated :
    (MdChangeState → Bool) → (MdChangeState → MdChangeState) → MdChangeState → MdChangeState
updated test change row = if test row then change row else row

-- An `UPDATE` that leaves `md_path` alone is seen at each path separately.
pub get-update_where :
    (test : MdChangeState → Bool) (change : MdChangeState → MdChangeState)
    → ((row : MdChangeState) → (change row).md_path ≡ row.md_path)
    → (path : String) (queue : Queue)
    → get path (update_where test change queue) ≡ Option.map (updated test change) (get path queue)
unfolding get update_where
get-update_where test change same path [] = refl
get-update_where test change same path (row ∷ rows) =
    ground (arith, same row, get-update_where test change same path rows)

-- A path that the statement does not insert keeps its row.
pub get-insert_or_update :
    (new : MdChangeState) (change : MdChangeState → MdChangeState)
    → ((row : MdChangeState) → (change row).md_path ≡ row.md_path)
    → (path : String) (queue : Queue)
    → get path (insert_or_update new change queue) ≡ (
        if new.md_path == path
        then some (elim (get path queue) [ none ↦ new | some row ↦ change row ])
        else get path queue)
unfolding get insert_or_update
get-insert_or_update new change same path [] = ground arith
get-insert_or_update new change same path (row ∷ rows) = ground (
  arith,
  same row,
  eq_iff row.md_path path,
  eq_iff row.md_path new.md_path,
  eq_iff new.md_path path,
  get-insert_or_update new change same path rows,
)

-- The row found under a path has that path.
pub md_path-get :
    (path : String) (queue : Queue) (row : MdChangeState)
    → get path queue ≡ some row
    → row.md_path ≡ path
unfolding get
md_path-get path [] row h = cc
md_path-get path (first ∷ rows) row h =
    ground (arith, eq_iff first.md_path path, md_path-get path rows row)

-- What holds of every row holds of the one found under a path.
pub All-rows :
    (P : MdChangeState → Type 0) (path : String) (queue : Queue)
    → All P queue
    → (row : MdChangeState) → get path queue ≡ some row
    → P row
unfolding get
All-rows P path [] h row e = cc
All-rows P path (first ∷ rows) h row e = elim (Bool-cases (first.md_path == path)) [
  | inl t ↦ let p : first ≡ row = ground arith in subst P p h.0
  | inr t ↦ All-rows P path rows h.1 row (rw t at e)
]
