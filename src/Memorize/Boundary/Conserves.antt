-- ===== src/Memorize/Boundary/Conserves.antt =====
-- The boundary stage loses no message and duplicates none.
use mathlib.Core.List.{append-nil, append_assoc, map-append}
use ever_os.Prelude.{
  eqb, Bool-cases, length, count, any, length-append, ℕ, zero, suc, ◌+◌, ◌-◌, ◌≤◌, String, ◌≡◌,
  refl, sym, ap, ◌∙◌, subst, ◌≢◌, ◌⊎◌, inl, inr, Bool, false, not, ◌&&◌, Option, none, some, List,
  [], ◌∷◌, ◌++◌, map, arith,
}
use ever_os.Memorize.Message.{
  CanonicalMessage, Mode, ConversationItem, is_empty, is_user, filter_for_mode,
}
use ever_os.Memorize.Merge.{Messages, merge_dedupe_sort}
use ever_os.Memorize.Merge.Laws.{merged_nil}
use ever_os.Memorize.Detect.{
  MemCell, value_error, detector_error, index_error, storage_error, Result, ok, raised, Detector,
  boundary_max_attempts, detect_attempts, detect, message_ids, split_at, split_messages_per_cell,
  drop_messages, slice_tail, unique_all_senders, last_cell_ts,
}
use ever_os.Memorize.Boundary.{
  MemcellRow, Session, Status, accumulated, extracted, skipped, BoundaryOutcome, empty_outcome,
  replace_buffer, touch_last_message_ts, Commit, insert_memcells, touch_memcell_ts, replace_rows,
  touch_message_ts, commit, keep_merged, mint_ids, memcell_rows, insert_rows, touch_last_memcell_ts,
  touch_memcell, store_cells, prepare_detected, prepare_merged, prepare_cells,
}

abbrev pub flatten : List (List String) → List String
flatten [] = []
flatten (ids ∷ rest) = ids ++ flatten rest

abbrev pub item_count : List MemCell → ℕ
item_count [] = 0
item_count (cell ∷ cells) = length cell.items + item_count cells

abbrev pub ledger : Session → List (List String)
ledger session = map (λ (row : MemcellRow). row.message_ids) session.memcells

-- What a call leaves behind that a failed commit has ended: the ledger is as it was, and the buffer
-- is as it was or holds the merged messages; or the ledger has gained the rows of cells whose
-- messages are a front part of the merged ones, and the buffer is as it was.
abbrev pub Interrupted : Messages → Session → Session → Type 0
Interrupted merged session next =
    ((ledger next ≡ ledger session) × ((next.buffer ≡ session.buffer) ⊎ (next.buffer ≡ merged)))
    ⊎ ((per_cell : List (List String)) × (left : List String) × (ledger next
          ≡ ledger session ++ per_cell)
        × (flatten per_cell ++ left ≡ message_ids merged)
        × (next.buffer ≡ session.buffer))

-- A result accounts for the merged messages: the ids of the new cells' messages, in the order of
-- the cells, and then those of the buffer are the ids of the merged messages, and the ledger has
-- grown by one row for each cell. An error of the detection leaves the session as it was, and there
-- is none of the split.
abbrev pub Accounts : Messages → Session → Session × Result BoundaryOutcome → Type 0
Accounts merged session (next, ok outcome) =
    (flatten outcome.per_cell_message_ids ++ message_ids next.buffer ≡ message_ids merged)
    × (ledger next ≡ ledger session ++ outcome.per_cell_message_ids)
Accounts merged session (next, raised index_error) = ⊥
Accounts merged session (next, raised value_error) = next ≡ session
Accounts merged session (next, raised detector_error) = next ≡ session
Accounts merged session (next, raised storage_error) = Interrupted merged session next

split_at_lem :
    (n : ℕ) (ms : Messages)
    → n ≤ length ms
    → (first : Messages) × (rest : Messages) × (split_at n ms ≡ some (first, rest))
      × (first ++ rest ≡ ms)
      × (length rest + n ≡ length ms)
unfolding split_at
split_at_lem zero ms l = ([], ms, refl, refl, omega arith)
split_at_lem (suc n) [] l = elim l [ ]
split_at_lem (suc n) (m ∷ ms) l =
    let (first, rest, e, joined, count) = split_at_lem n ms (omega arith) in
    (m ∷ first, rest, rw (e, split_at) refl, ap (◌∷◌ m) joined, omega (arith, count))

drop_messages-append : (first rest : Messages) → drop_messages (length first) (first ++ rest) ≡ rest
unfolding drop_messages
drop_messages-append [] rest = refl
drop_messages-append (m ∷ first) rest = drop_messages-append first rest

-- The cells take their messages off the front, and leave the rest.
split_messages_per_cell_lem :
    (cells : List MemCell) (merged : Messages)
    → item_count cells ≤ length merged
    → (per_cell : List (List String)) × (taken : Messages) × (left : Messages)
      × (split_messages_per_cell merged cells ≡ some per_cell)
      × (length per_cell ≡ length cells)
      × (flatten per_cell ≡ message_ids taken)
      × (taken ++ left ≡ merged)
      × (length left + item_count cells ≡ length merged)
unfolding split_messages_per_cell
split_messages_per_cell_lem [] merged l = ([], [], merged, refl, refl, refl, refl, omega arith)
split_messages_per_cell_lem (cell ∷ cells) merged l =
    let (first, rest, e, joined, count) = split_at_lem (length cell.items) merged (omega arith) in
    let (others, taken, left, f, n, g, j, c) =
      split_messages_per_cell_lem cells rest (omega (arith, count)) in
    (
      message_ids first ∷ others,
      first ++ taken,
      left,
      rw (e, split_messages_per_cell) (rw (f, split_messages_per_cell) refl),
      omega (arith, n),
      ap (◌++◌ (message_ids first)) g
          ∙ sym (map-append (λ (m : CanonicalMessage). m.message_id) first taken),
      append_assoc first taken left ∙ ap (◌++◌ first) j ∙ joined,
      omega (arith, count, c),
    )

-- The tail of a complete detection is what the cells leave.
slice_tail_lem :
    (taken left : Messages) (tail : List ConversationItem)
    → length left ≡ length tail
    → slice_tail (taken ++ left) tail ≡ left
unfolding slice_tail
slice_tail_lem taken [] [] e = refl
slice_tail_lem taken (m ∷ left) [] e = absurd (omega arith)
slice_tail_lem taken left (item ∷ tail) e =
    let front : length (taken ++ left) - length (item ∷ tail) ≡ length taken =
      omega (arith, length-append taken left) in
    rw front (drop_messages-append taken left)

memcell_rows_ids :
    (mode : Mode) (cells : List MemCell) (ids : List String) (per_cell : List (List String))
    → length ids ≡ length cells
    → length per_cell ≡ length cells
    → map (λ (row : MemcellRow). row.message_ids) (memcell_rows mode cells ids per_cell) ≡ per_cell
unfolding memcell_rows
memcell_rows_ids mode [] ids [] h k = refl
memcell_rows_ids mode [] ids (p ∷ per_cell) h k = absurd (omega arith)
memcell_rows_ids mode (cell ∷ cells) [] per_cell h k = absurd (omega arith)
memcell_rows_ids mode (cell ∷ cells) (i ∷ ids) [] h k = absurd (omega arith)
memcell_rows_ids mode (cell ∷ cells) (i ∷ ids) (p ∷ per_cell) h k =
    ap (◌∷◌ p) (memcell_rows_ids mode cells ids per_cell (omega arith) (omega arith))

length-mint_ids :
    (mint : ℕ → String) (n : ℕ) (cells : List MemCell)
    → length (mint_ids mint n cells) ≡ length cells
unfolding mint_ids
length-mint_ids mint n [] = refl
length-mint_ids mint n (cell ∷ cells) = omega (arith, length-mint_ids mint (n + 1) cells)

commit-Accounts :
    (works : Commit → Bool) (call : Commit) (change : Session → Session)
    (go : Session → Session × Result BoundaryOutcome) (merged : Messages) (start session : Session)
    → Interrupted merged start session
    → Accounts merged start (go (change session))
    → Accounts merged start (commit works call change go session)
unfolding commit
commit-Accounts works call change go merged start session interrupted goes =
    elim (Bool-cases (works call)) [ inl e ↦ rw e goes | inr e ↦ rw e interrupted ]

touch_memcell-Accounts :
    (works : Commit → Bool) (ts : ℕ) (go : Session → Session × Result BoundaryOutcome)
    (merged : Messages) (start session : Session)
    → Interrupted merged start session
    → Accounts merged start (go session)
    → Accounts merged start (go (touch_last_memcell_ts ts session))
    → Accounts merged start (touch_memcell works ts go session)
unfolding touch_memcell
touch_memcell-Accounts works ts go merged start session interrupted plain touched =
    elim (Bool-cases (eqb ts 0)) [
      | inl e ↦ rw e plain
      | inr e ↦ rw e (
          commit-Accounts works touch_memcell_ts (touch_last_memcell_ts ts) go merged start session
            interrupted touched)
    ]

-- The last commit of a call that stores cells, from a session whose ledger has grown.
replace-Accounts :
    (works : Commit → Bool) (merged rest : Messages) (outcome : BoundaryOutcome)
    (start session : Session)
    → (ledger session ≡ ledger start ++ outcome.per_cell_message_ids)
    → (session.buffer ≡ start.buffer)
    → (flatten outcome.per_cell_message_ids ++ message_ids rest ≡ message_ids merged)
    → Accounts merged start
        (commit works replace_rows (replace_buffer rest) (λ next. (next, ok outcome)) session)
unfolding replace_buffer
replace-Accounts works merged rest outcome start session grown same together =
    commit-Accounts works replace_rows (replace_buffer rest) (λ next. (next, ok outcome)) merged
      start session (inr (outcome.per_cell_message_ids, message_ids rest, grown, together, same))
      (together, grown)

store_cells-Accounts :
    (works : Commit → Bool) (mint : ℕ → String) (mode : Mode) (fresh_count : ℕ) (merged : Messages)
    (cells : List MemCell) (tail : List ConversationItem) (session : Session)
    → item_count cells + length tail ≡ length merged
    → Accounts merged session (store_cells works mint mode fresh_count merged cells tail session)
unfolding store_cells insert_rows touch_last_memcell_ts
store_cells-Accounts works mint mode fresh_count merged cells tail session complete =
    let (per_cell, taken, left, e, n, f, joined, c) =
      split_messages_per_cell_lem cells merged (omega (arith, complete)) in
    let ids = mint_ids mint (length session.memcells) cells in
    let rows = memcell_rows mode cells ids per_cell in
    let inserted = insert_rows rows session in
    let rest = slice_tail merged tail in
    let outcome : BoundaryOutcome = record {
      cells = cells;
      memcell_ids = ids;
      per_cell_message_ids = per_cell;
      per_cell_all_senders = map unique_all_senders cells;
      status = extracted;
      message_count = fresh_count;
    } in
    let tail_left : rest ≡ left =
      subst (λ (ms : Messages). slice_tail ms tail ≡ left) joined
        (slice_tail_lem taken left tail (omega (arith, c, complete))) in
    let together =
      ap (λ (ms : Messages). flatten per_cell ++ message_ids ms) tail_left
      ∙ ap (λ (ids : List String). ids ++ message_ids left) f
      ∙ sym (map-append (λ (m : CanonicalMessage). m.message_id) taken left)
      ∙ ap message_ids joined in
    let grown =
      map-append (λ (row : MemcellRow). row.message_ids) session.memcells rows
      ∙ ap (◌++◌ (ledger session)) (
          memcell_rows_ids mode cells ids per_cell
            (length-mint_ids mint (length session.memcells) cells) n) in
    let last =
      λ (s : Session) (g : ledger s ≡ ledger session ++ per_cell) (b : s.buffer ≡ session.buffer).
        replace-Accounts works merged rest outcome session s g b together in
    rw (e, store_cells)
      (commit-Accounts works insert_memcells (insert_rows rows) _ merged session session
        (inl (refl, inl refl))
        (touch_memcell-Accounts works (last_cell_ts cells) _ merged session inserted
          (inr (per_cell, message_ids rest, grown, together, refl)) (last inserted grown refl)
          (last (touch_last_memcell_ts (last_cell_ts cells) inserted) grown refl)))

keep_merged-Accounts :
    (works : Commit → Bool) (merged : Messages) (status : Status) (fresh_count : ℕ)
    (session : Session)
    → Accounts merged session (keep_merged works merged status fresh_count session)
unfolding keep_merged touch_last_message_ts replace_buffer empty_outcome
keep_merged-Accounts works merged status fresh_count session =
    commit-Accounts works replace_rows (replace_buffer merged) _ merged session session
      (inl (refl, inl refl))
      (commit-Accounts works touch_message_ts (touch_last_message_ts merged) _ merged session
        (replace_buffer merged session) (inl (refl, inr refl))
        (refl, sym (append-nil (ledger session))))

-- What the detector must give: cells and a tail that hold as many items as it was given.
abbrev pub IsComplete : Messages → Result (List MemCell × List ConversationItem) → Type 0
IsComplete merged (ok (cells, tail)) = item_count cells + length tail ≡ length merged
IsComplete merged (raised e) = Unit

detect_attempts_failure :
    (detector : Detector) (mode : Mode) (is_final : Bool) (left attempt : ℕ) (merged : Messages)
    → detect_attempts detector mode is_final left attempt merged ≢ raised index_error
unfolding detect_attempts
detect_attempts_failure detector mode is_final zero attempt merged h = cc
detect_attempts_failure detector mode is_final (suc left) attempt merged h =
    ground (arith, detect_attempts_failure detector mode is_final left (attempt + 1) merged)

prepare_detected-Accounts :
    (works : Commit → Bool) (mint : ℕ → String) (mode : Mode) (fresh_count : ℕ) (merged : Messages)
    (result : Result (List MemCell × List ConversationItem)) (session : Session)
    → result ≢ raised index_error
    → IsComplete merged result
    → Accounts merged session (prepare_detected works mint mode fresh_count merged result session)
unfolding prepare_detected
prepare_detected-Accounts works mint mode fresh_count merged (raised value_error) session n c = refl
prepare_detected-Accounts works mint mode fresh_count merged (raised storage_error) session n c =
    inl (refl, inl refl)
prepare_detected-Accounts works mint mode fresh_count merged (raised detector_error) session n c =
    refl
prepare_detected-Accounts works mint mode fresh_count merged (raised index_error) session n c =
    n refl
prepare_detected-Accounts works mint mode fresh_count merged (ok ([], tail)) session n c =
    keep_merged-Accounts works merged accumulated fresh_count session
prepare_detected-Accounts works mint mode fresh_count merged (ok (cell ∷ cells, tail)) session n c =
    store_cells-Accounts works mint mode fresh_count merged (cell ∷ cells) tail session c

prepare_merged-Accounts :
    (works : Commit → Bool) (mint : ℕ → String) (client : Option Detector) (mode : Mode)
    (is_final : Bool) (fresh_count : ℕ) (merged : Messages) (session : Session)
    → (merged ≡ [] → session.buffer ≡ [])
    → ((detector : Detector)
        → client ≡ some detector
        → IsComplete merged (detect detector mode is_final merged))
    → Accounts merged session
        (prepare_merged works mint client mode is_final fresh_count merged session)
unfolding prepare_merged
prepare_merged-Accounts works mint client mode is_final fresh_count [] session empty complete =
    unfold empty_outcome in (ap message_ids (empty refl), sym (append-nil (ledger session)))
prepare_merged-Accounts works mint client mode is_final fresh_count (m ∷ ms) session empty
      complete =
    elim (Bool-cases (not is_final && not (any (λ x. is_user x.role) (m ∷ ms)))) [
      | inl e ↦ rw e (keep_merged-Accounts works (m ∷ ms) accumulated fresh_count session)
      | inr e ↦ rw e (with_client client complete)
    ]
  where
    with_client :
        (c : Option Detector)
        → ((detector : Detector)
            → c ≡ some detector
            → IsComplete (m ∷ ms) (detect detector mode is_final (m ∷ ms)))
        → Accounts (m ∷ ms) session (elim c as (λ _. Session × Result BoundaryOutcome) [
          | none ↦
              commit works replace_rows
                (replace_buffer (m ∷ ms))
                (λ next. (next, ok (empty_outcome skipped fresh_count)))
                session
          | some detector ↦
              prepare_detected works mint mode fresh_count
                (m ∷ ms)
                (detect detector mode is_final (m ∷ ms))
                session
        ])
    with_client none complete =
        commit-Accounts works replace_rows (replace_buffer (m ∷ ms)) _ (m ∷ ms) session session
          (inl (refl, inl refl))
          (unfold replace_buffer empty_outcome in (refl, sym (append-nil (ledger session))))
    with_client (some detector) complete =
        prepare_detected-Accounts works mint mode fresh_count (m ∷ ms)
          (detect detector mode is_final (m ∷ ms)) session
          (unfold detect in
            detect_attempts_failure detector mode is_final boundary_max_attempts 0 (m ∷ ms))
          (complete detector refl)

-- Where there is a fresh message or the flush is final, and the detector, if there is one, divides
-- what it is given into the cells and the tail, a call ends in one of three ways. It returns: the
-- ids of the new cells' messages, cell by cell, followed by the ids in the buffer, are those of the
-- merged messages in their order, and the ledger has gained one row for each cell, with that cell's
-- ids. The detection fails: the session is as it was. One of the commits fails: no row has left the
-- ledger, and the buffer is as it was or, where no cell has been stored, holds the merged messages;
-- cells that have been stored by then are a front part of the merged messages, which stay in the
-- buffer as far as they were there. The split of the messages among the cells never fails.
pub prepare_cells-Accounts :
    (works : Commit → Bool) (mint : ℕ → String) (client : Option Detector) (messages : Messages)
    (mode : Mode) (is_final : Bool) (session : Session)
    → let fresh = filter_for_mode messages mode in
      let merged = merge_dedupe_sort session.buffer fresh in
      (is_empty fresh && not is_final) ≡ false
      → ((detector : Detector)
          → client ≡ some detector
          → IsComplete merged (detect detector mode is_final merged))
      → Accounts merged session (prepare_cells works mint client messages mode is_final session)
unfolding prepare_cells
prepare_cells-Accounts works mint client messages mode is_final session go complete =
    let fresh = filter_for_mode messages mode in
    rw (go) (
      prepare_merged-Accounts works mint client mode is_final (length fresh)
        (merge_dedupe_sort session.buffer fresh) session (merged_nil session.buffer fresh) complete)
