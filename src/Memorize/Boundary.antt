-- ===== src/Memorize/Boundary.antt =====
-- src/everos/service/_boundary.py: buffering and boundary detection for one session, under the
-- session's lock. The detector, the minting of ids and whether a commit succeeds are parameters.
pub mod Conserves
mod Tests
use ever_os.Prelude.{
  eqb, if◌then◌else◌, length, count, any, ℕ, ◌+◌, String, Bool, not, ◌&&◌, Option, none, some, List,
  [], ◌∷◌, ◌++◌, map,
}
use ever_os.Memorize.Message.{
  Mode, chat, agent, ConversationItem, is_empty, is_user, filter_for_mode,
}
use ever_os.Memorize.Detect.{
  MemCell, index_error, storage_error, Result, ok, raised, Detector, detect, message_ids,
  split_messages_per_cell, slice_tail, unique_all_senders, max_timestamp, last_cell_ts,
}
use ever_os.Memorize.Merge.{Messages, merge_dedupe_sort}

-- A row of the memcell ledger.
pub record MemcellRow : Type 0 where
  pub memcell_id : String
  pub raw_type : String
  pub message_ids : List String
  pub sender_ids : List String
  pub timestamp : ℕ

-- What the service keeps for one session: the buffered messages, the ledger, and the times of the
-- last message and of the last cell.
pub record Session : Type 0 where
  pub buffer : Messages
  pub memcells : List MemcellRow
  pub last_message_ts : Option ℕ
  pub last_memcell_ts : Option ℕ

pub data Status : Type 0 where
  accumulated : Status
  extracted : Status
  skipped : Status

pub record BoundaryOutcome : Type 0 where
  pub cells : List MemCell
  pub memcell_ids : List String
  pub per_cell_message_ids : List (List String)
  pub per_cell_all_senders : List (List String)
  pub status : Status
  pub message_count : ℕ

unfoldable pub empty_outcome : Status → ℕ → BoundaryOutcome
empty_outcome status message_count = record {
  cells = [];
  memcell_ids = [];
  per_cell_message_ids = [];
  per_cell_all_senders = [];
  status = status;
  message_count = message_count;
}

unfoldable pub replace_buffer : Messages → Session → Session
replace_buffer messages session = record session { buffer = messages }

unfoldable pub touch_last_message_ts : Messages → Session → Session
touch_last_message_ts merged session = record session {
  last_message_ts = some (max_timestamp merged);
}

-- The calls that commit, each on its own.
pub data Commit : Type 0 where
  insert_memcells touch_memcell_ts replace_rows touch_message_ts : Commit

-- A commit and what comes after it; where it fails, the error leaves the call at once.
unfoldable pub commit :
    (Commit → Bool)
    → Commit
    → (Session → Session)
    → (Session → Session × Result BoundaryOutcome)
    → Session
    → Session × Result BoundaryOutcome
commit works call change go session =
    if works call then go (change session) else (session, raised storage_error)

unfoldable pub keep_merged :
    (Commit → Bool) → Messages → Status → ℕ → Session → Session × Result BoundaryOutcome
keep_merged works merged status count = commit works replace_rows (replace_buffer merged) (
    commit works touch_message_ts (touch_last_message_ts merged)
      (λ session. (session, ok (empty_outcome status count))))

unfoldable pub buffer_messages :
    (Commit → Bool) → Messages → Mode → Session → Session × Result BoundaryOutcome
buffer_messages works messages mode session =
    let fresh = filter_for_mode messages mode in
    elim fresh [
      | [] ↦ (session, ok (empty_outcome skipped 0))
      | m ∷ ms ↦
          keep_merged works (merge_dedupe_sort session.buffer (m ∷ ms)) accumulated
            (length (m ∷ ms)) session
    ]

abbrev pub raw_type_by_mode : Mode → String
raw_type_by_mode chat = "Conversation"
raw_type_by_mode agent = "AgentTrajectory"

-- One id for each cell, from the `n`-th one minted on.
unfoldable pub mint_ids : (ℕ → String) → ℕ → List MemCell → List String
mint_ids mint n [] = []
mint_ids mint n (cell ∷ cells) = mint n ∷ mint_ids mint (n + 1) cells

unfoldable pub memcell_rows :
    Mode → List MemCell → List String → List (List String) → List MemcellRow
memcell_rows mode (cell ∷ cells) (id ∷ ids) (messages ∷ others) =
    record {
      memcell_id = id;
      raw_type = raw_type_by_mode mode;
      message_ids = messages;
      sender_ids = unique_all_senders cell;
      timestamp = cell.timestamp;
    }
    ∷ memcell_rows mode cells ids others
memcell_rows mode _ _ _ = []

unfoldable pub insert_rows : List MemcellRow → Session → Session
insert_rows rows session = record session { memcells = session.memcells ++ rows }

unfoldable pub touch_last_memcell_ts : ℕ → Session → Session
touch_last_memcell_ts ts session = record session { last_memcell_ts = some ts }

-- The time of the last cell is not written when it is 0.
unfoldable pub touch_memcell :
    (Commit → Bool)
    → ℕ
    → (Session → Session × Result BoundaryOutcome)
    → Session
    → Session × Result BoundaryOutcome
touch_memcell works ts go session =
    if eqb ts 0
    then go session
    else commit works touch_memcell_ts (touch_last_memcell_ts ts) go session

-- `mint` gives the ids of new rows.
unfoldable pub store_cells :
    (Commit → Bool)
    → (ℕ → String)
    → Mode
    → ℕ
    → Messages
    → List MemCell
    → List ConversationItem
    → Session
    → Session × Result BoundaryOutcome
store_cells works mint mode count merged cells tail session =
    elim (split_messages_per_cell merged cells) [
      | none ↦ (session, raised index_error)
      | some per_cell ↦
          let ids = mint_ids mint (length session.memcells) cells in
          let outcome : BoundaryOutcome = record {
            cells = cells;
            memcell_ids = ids;
            per_cell_message_ids = per_cell;
            per_cell_all_senders = map unique_all_senders cells;
            status = extracted;
            message_count = count;
          } in
          commit works insert_memcells (insert_rows (memcell_rows mode cells ids per_cell))
            (touch_memcell works (last_cell_ts cells) (
              commit works replace_rows (replace_buffer (slice_tail merged tail))
                (λ next. (next, ok outcome))))
            session
    ]

unfoldable pub prepare_detected :
    (Commit → Bool)
    → (ℕ → String)
    → Mode
    → ℕ
    → Messages
    → Result (List MemCell × List ConversationItem)
    → Session
    → Session × Result BoundaryOutcome
prepare_detected works mint mode count merged (raised e) session = (session, raised e)
prepare_detected works mint mode count merged (ok ([], tail)) session =
    keep_merged works merged accumulated count session
prepare_detected works mint mode count merged (ok (cell ∷ cells, tail)) session =
    store_cells works mint mode count merged (cell ∷ cells) tail session

unfoldable pub prepare_merged :
    (Commit → Bool)
    → (ℕ → String)
    → Option Detector
    → Mode
    → Bool
    → ℕ
    → Messages
    → Session
    → Session × Result BoundaryOutcome
prepare_merged works mint client mode is_final count [] session =
    (session, ok (empty_outcome accumulated 0))
prepare_merged works mint client mode is_final count (m ∷ ms) session =
    let merged = m ∷ ms in
    if not is_final && not (any (λ x. is_user x.role) merged)
    then keep_merged works merged accumulated count session
    else elim client [
      | none ↦
          commit works replace_rows (replace_buffer merged)
            (λ next. (next, ok (empty_outcome skipped count))) session
      | some detector ↦
          prepare_detected works mint mode count merged (detect detector mode is_final merged)
            session
    ]

unfoldable pub prepare_cells :
    (Commit → Bool)
    → (ℕ → String)
    → Option Detector
    → Messages
    → Mode
    → Bool
    → Session
    → Session × Result BoundaryOutcome
prepare_cells works mint client messages mode is_final session =
    let fresh = filter_for_mode messages mode in
    if is_empty fresh && not is_final
    then (session, ok (empty_outcome skipped 0))
    else prepare_merged works mint client mode is_final (length fresh)
        (merge_dedupe_sort session.buffer fresh) session
