-- ===== src/Cascade/Queue/Finish.antt =====
-- What finishing a set of paths makes of each row.
use mathlib.Core.Option
use ever_os.Prelude.{
  ℕ, String, ◌≡◌, refl, sym, subst, Bool, true, false, ◌&&◌, ◌||◌, Option, none, some, arith, ◌==◌,
  eq_iff,
}
use ever_os.Cascade.Queue.{done, MdChangeState, Queue, is_processing, get, mark_done}
use ever_os.Cascade.Queue.Rows.{updated, get-update_where, md_path-get}

-- A processing row is done, with no verdict and no error, and keeps all else but the time of the
-- last attempt; another one stays.
pub record IsFinished (row after : MdChangeState) : Type 0 where
  pub same_kind : after.kind ≡ row.kind
  pub same_change : after.change_type ≡ row.change_type
  pub same_mtime : after.mtime ≡ row.mtime
  pub same_path : after.md_path ≡ row.md_path
  pub same_lsn : after.lsn ≡ row.lsn
  pub same_first_seen : after.first_seen_at ≡ row.first_seen_at
  pub same_last_changed : after.last_changed_at ≡ row.last_changed_at
  pub same_retry_count : after.retry_count ≡ row.retry_count
  pub no_error : after.error ≡ none
  pub now_done : after.status ≡ done
  pub no_verdict : after.retryable ≡ none

abbrev pub FinRow : Bool → MdChangeState → MdChangeState → Type 0
FinRow true row after = IsFinished row after
FinRow false row after = after ≡ row

abbrev pub Fin : Bool → Option MdChangeState → Option MdChangeState → Type 0
Fin hit none new = new ≡ none
Fin hit (some row) new =
    (after : MdChangeState) × (new ≡ some after)
    × FinRow (hit && is_processing row.status) row after

FinRow-compose :
    (a b : Bool) (row mid last : MdChangeState)
    → FinRow (a && is_processing row.status) row mid
    → FinRow (b && is_processing mid.status) mid last
    → FinRow ((a || b) && is_processing row.status) row last
FinRow-compose a b row mid last r t = ground arith

pub Fin-compose :
    (a b : Bool) (old mid new : Option MdChangeState)
    → Fin a old mid
    → Fin b mid new
    → Fin (a || b) old new
Fin-compose a b none none new f g = g
Fin-compose a b none (some m) new f g = cc
Fin-compose a b (some row) none new f g = cc
Fin-compose a b (some row) (some m) new (after, e, r) (last, d, t) = (
  last,
  d,
  FinRow-compose a b row m last (subst (λ x. FinRow (a && is_processing row.status) row x) (cc) r)
      t,
)

-- One mark of a finished row, seen at any path.
pub Fin-mark_done :
    (at path : String) (now : ℕ) (queue : Queue)
    → Fin (at == path) (get path queue) (get path (mark_done at now queue))
unfolding mark_done
Fin-mark_done at path now queue =
    subst (Fin (at == path) (get path queue)) (sym (get-update_where _ _ (λ row. refl) path queue))
      (go (get path queue) (λ row e. md_path-get path queue row e))
  where
    go :
        (old : Option MdChangeState)
        → ((row : MdChangeState) → old ≡ some row → row.md_path ≡ path)
        → Fin (at == path) old (
            Option.map
              (updated
                (λ row. row.md_path == at && is_processing row.status)
                (λ row. record row {
                  status = done;
                  last_attempt_at = some now;
                  error = none;
                  retryable = none;
                }))
              old)
    go none h = refl
    go (some row) h = (_, refl, ground (arith, h row refl, eq_iff at path, eq_iff path at))

pub Fin-refl : (old : Option MdChangeState) → Fin false old old
Fin-refl none = refl
Fin-refl (some row) = (row, refl, refl)
