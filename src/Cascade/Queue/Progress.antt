-- ===== src/Cascade/Queue/Progress.antt =====
-- What a claim whose batch is then finished makes of each row, over several passes.
use mathlib.Core.Option
use ever_os.Prelude.{
  if◌then◌else◌, All-zip, contains, ℕ, String, ◌≡◌, refl, sym, ap, ◌∙◌, subst, Bool, true, false,
  ◌&&◌, Option, none, some, List, arith,
}
use ever_os.Cascade.Queue.{
  pending, done, MdChangeState, Queue, is_pending, is_processing, get, claimed, claim_pending_batch,
}
use ever_os.Cascade.Queue.Invariant.{RowIsValid, IsValid}
use ever_os.Cascade.Queue.Rows.{updated, get-update_where, md_path-get, All-rows}
use ever_os.Cascade.Queue.Paths.{paths}
use ever_os.Cascade.Queue.Claim.{chosen, eligible_by_path, is_picked, claim_pending_batch-table}
use ever_os.Cascade.Queue.Batches.{paths-batch}
use ever_os.Cascade.Queue.Finish.{IsFinished, FinRow, Fin}

-- What the worker makes of a row when its handler succeeds: a pending row is done, and all else
-- but the time of the last attempt stays.
pub record IsHandled (row after : MdChangeState) : Type 0 where
  pub same_kind : after.kind ≡ row.kind
  pub same_change : after.change_type ≡ row.change_type
  pub same_mtime : after.mtime ≡ row.mtime
  pub same_path : after.md_path ≡ row.md_path
  pub same_lsn : after.lsn ≡ row.lsn
  pub same_first_seen : after.first_seen_at ≡ row.first_seen_at
  pub same_last_changed : after.last_changed_at ≡ row.last_changed_at
  pub same_retry_count : after.retry_count ≡ row.retry_count
  pub same_error : after.error ≡ row.error
  pub now_done : after.status ≡ elim row.status [ pending ↦ done | other ↦ other ]
  pub same_verdict : after.retryable ≡ row.retryable

-- A row that was not pending stays as it was in every column.
abbrev pub Handled : Option MdChangeState → Option MdChangeState → Type 0
Handled none after = after ≡ none
Handled (some row) after =
    (row' : MdChangeState) × (after ≡ some row')
    × IsHandled row row'
    × (is_pending row.status ≡ false → row' ≡ row)

-- A row stays as it was, or was pending and is handled.
pub data Moved (row after : MdChangeState) : Type 0 where
  stay : after ≡ row → Moved row after
  now_handled : row.status ≡ pending → IsHandled row after → Moved row after

abbrev pub Progress : Option MdChangeState → Option MdChangeState → Type 0
Progress none new = new ≡ none
Progress (some row) new = (after : MdChangeState) × (new ≡ some after) × Moved row after

claimed_then_finished :
    (hit : Bool) (now : ℕ) (row after : MdChangeState)
    → RowIsValid row
    → (hit ≡ true → is_pending row.status ≡ true)
    → (let mid = (if hit && is_pending row.status then claimed now row else row) in
        FinRow (hit && is_processing mid.status) mid after)
    → Moved row after
unfolding claimed
claimed_then_finished false now row after v p r = stay r
claimed_then_finished true now row after v p r = finish_pending (rw (p refl) at r)
  where
    finish_pending : IsFinished (claimed now row) after → Moved row after
    finish_pending f = now_handled (ground (arith, p refl)) (record {
      same_kind = f.same_kind;
      same_change = f.same_change;
      same_mtime = f.same_mtime;
      same_path = f.same_path;
      same_lsn = f.same_lsn;
      same_first_seen = f.same_first_seen;
      same_last_changed = f.same_last_changed;
      same_retry_count = f.same_retry_count;
      same_error = ground (arith, p refl, f.no_error, v.message);
      now_done = ground (arith, p refl, f.now_done);
      same_verdict = ground (arith, p refl, f.no_verdict, v.verdict);
    })

-- A claim whose batch is then finished moves each row of the table forward.
pub claim_finish-Progress :
    (limit : ℕ) (kinds : Option (List String)) (now : ℕ) (queue : Queue)
    → IsValid queue
    → (path : String) (new : Option MdChangeState)
    → Fin
        (contains (paths (claim_pending_batch limit kinds now queue).1) path)
        (get path (claim_pending_batch limit kinds now queue).0)
        new
    → Progress (get path queue) new
unfolding claimed
claim_finish-Progress limit kinds now queue v path new f =
    go (get path queue) (λ row e. md_path-get path queue row e)
      (All-rows _ path queue (
        All-zip _ _
          (λ row.
            RowIsValid row
            × (contains (paths (chosen limit kinds queue)) row.md_path ≡ true
                → is_pending row.status ≡ true))
          queue (λ row r e. (r, λ h. ground (arith, e h))) v.rows
          (eligible_by_path limit kinds queue v.unique)))
      (rw (sym (paths-batch limit kinds now queue v.unique), sym after_claim) f)
  where
    after_claim :
        get path (claim_pending_batch limit kinds now queue).0
        ≡ Option.map (updated (is_picked limit kinds now queue) (claimed now)) (get path queue)
    after_claim =
        ap (get path) (claim_pending_batch-table limit kinds now queue)
        ∙ get-update_where _ _ (λ row. refl) path queue

    go :
        (old : Option MdChangeState)
        → ((row : MdChangeState) → old ≡ some row → row.md_path ≡ path)
        → ((row : MdChangeState)
            → old ≡ some row
            → RowIsValid row
              × (contains (paths (chosen limit kinds queue)) row.md_path ≡ true
                  → is_pending row.status ≡ true))
        → Fin
            (contains (paths (chosen limit kinds queue)) path)
            (Option.map (updated (is_picked limit kinds now queue) (claimed now)) old)
            new
        → Progress old new
    go none at facts f = f
    go (some row) at facts (after, e, r) = (
      after,
      e,
      claimed_then_finished (contains (paths (chosen limit kinds queue)) row.md_path) now row after
          (facts row refl).0 (facts row refl).1
          (subst
            (λ p.
              FinRow
                (contains (paths (chosen limit kinds queue)) p
                  && is_processing
                      (updated (is_picked limit kinds now queue) (claimed now) row).status)
                (updated (is_picked limit kinds now queue) (claimed now) row) after)
            (sym (at row refl)) r),
    )

Moved-trans : (row mid last : MdChangeState) → Moved row mid → Moved mid last → Moved row last
Moved-trans row mid last (stay e) (stay d) = stay (d ∙ e)
Moved-trans row mid last (stay e) (now_handled p h) =
    now_handled (cc) (subst (λ r. IsHandled r last) e h)
Moved-trans row mid last (now_handled p h) (stay e) =
    now_handled p (subst (IsHandled row) (sym e) h)
Moved-trans row mid last (now_handled p h) (now_handled q k) = absurd (ground (arith, h.now_done))

pub Progress-refl : (old : Option MdChangeState) → Progress old old
Progress-refl none = refl
Progress-refl (some row) = (row, refl, stay refl)

pub Progress-trans :
    (old mid new : Option MdChangeState) → Progress old mid → Progress mid new → Progress old new
Progress-trans none none new p q = q
Progress-trans none (some m) new p q = cc
Progress-trans (some row) none new p q = cc
Progress-trans (some row) (some m) new (mid, e, r) (last, d, t) =
    (last, d, Moved-trans row mid last r (subst (λ x. Moved x last) (cc) t))

-- With nothing left pending, each row has been handled, or was not pending at first.
pub Handled-of-Progress :
    (old new : Option MdChangeState)
    → Progress old new
    → ((row : MdChangeState) → new ≡ some row → is_pending row.status ≡ false)
    → Handled old new
Handled-of-Progress none new p idle = p
Handled-of-Progress (some row) new (last, e, stay d) idle = (
  last,
  e,
  subst (IsHandled row) (sym d) (record {
    same_kind = refl;
    same_change = refl;
    same_mtime = refl;
    same_path = refl;
    same_lsn = refl;
    same_first_seen = refl;
    same_last_changed = refl;
    same_retry_count = refl;
    same_error = refl;
    now_done = ground (arith, idle last e, d);
    same_verdict = refl;
  }),
  λ _. d,
)
Handled-of-Progress (some row) new (last, e, now_handled p h) idle =
    (last, e, h, λ q. absurd (ground (arith, p, q)))
