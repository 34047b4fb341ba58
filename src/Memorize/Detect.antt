-- ===== src/Memorize/Detect.antt =====
-- src/everos/service/_boundary.py: the detection of boundaries with its retries, and what the cells
-- that it gives say of the messages. The detector is a parameter.
pub mod Retries
use ever_os.Prelude.{
  eqb, if◌then◌else◌, length, any, contains, ℕ, zero, suc, ◌+◌, ◌-◌, max, String, Bool, not, ◌&&◌,
  Option, none, some, List, [], ◌∷◌, ◌++◌, map, ◌==◌,
}
use ever_os.Memorize.Message.{
  Role, Mode, chat, agent, ConversationItem, to_chat_message, to_conversation_items, item_sender,
}
use ever_os.Memorize.Merge.{Messages}

pub record MemCell : Type 0 where
  pub items : List ConversationItem
  pub timestamp : ℕ

-- What one call of the detector gives.
pub data Detected : Type 0 where
  detected : List MemCell → List ConversationItem → Detected
  invalid_response : Detected
  failed : Detected

pub data Failure : Type 0 where
  value_error : Failure
  detector_error : Failure
  index_error : Failure
  storage_error : Failure

pub data Result (A : Type 0) : Type 0 where
  ok : A → Result A
  raised : Failure → Result A

-- The detector is told the attempt, whether it is the final flush, and the items; the attempt
-- decides whether the prompt carries the repair suffix. Its library's `ChatMessage` accepts some
-- roles and raises a ValueError for the others.
pub record Detector : Type 0 where
  pub ask : ℕ → Bool → List ConversationItem → Detected
  pub accepts_role : Role → Bool

abbrev pub boundary_max_attempts : ℕ
boundary_max_attempts = 3

-- The prompt for an attempt carries the suffix from the second one on.
unfoldable pub boundary_prompt_for_attempt : String → String → ℕ → String
boundary_prompt_for_attempt prompt repaired attempt = if eqb attempt 0 then prompt else repaired

-- In agent mode user and assistant messages are taken to have accepted roles.
unfoldable pub message_items : Detector → Mode → Messages → Option (List ConversationItem)
message_items detector chat merged =
    if any (λ m. not (detector.accepts_role m.role)) merged
    then none
    else some (map to_chat_message merged)
message_items detector agent merged = to_conversation_items merged

unfoldable pub detect_once : Detector → Mode → Bool → ℕ → Messages → Detected
detect_once detector mode is_final attempt merged = elim (message_items detector mode merged) [
  | none ↦ invalid_response
  | some items ↦ detector.ask attempt is_final items
]

-- The attempts that are left, from number `attempt` on.
unfoldable pub detect_attempts :
    Detector → Mode → Bool → ℕ → ℕ → Messages → Result (List MemCell × List ConversationItem)
detect_attempts detector mode is_final zero attempt merged = raised value_error
detect_attempts detector mode is_final (suc left) attempt merged =
    elim (detect_once detector mode is_final attempt merged) [
      | detected cells tail ↦ ok (cells, tail)
      | failed ↦ raised detector_error
      | invalid_response ↦ detect_attempts detector mode is_final left (attempt + 1) merged
    ]

unfoldable pub detect :
    Detector → Mode → Bool → Messages → Result (List MemCell × List ConversationItem)
detect detector mode is_final merged =
    detect_attempts detector mode is_final boundary_max_attempts 0 merged

abbrev pub message_ids : Messages → List String
message_ids = map (λ m. m.message_id)

-- The first `n` messages and the rest; `none` where there are fewer.
unfoldable pub split_at : ℕ → Messages → Option (Messages × Messages)
split_at zero ms = some ([], ms)
split_at (suc n) [] = none
split_at (suc n) (m ∷ ms) = elim (split_at n ms) [
  | none ↦ none
  | some (first, rest) ↦ some (m ∷ first, rest)
]

unfoldable pub split_messages_per_cell : Messages → List MemCell → Option (List (List String))
split_messages_per_cell merged [] = some []
split_messages_per_cell merged (cell ∷ cells) = elim (split_at (length cell.items) merged) [
  | none ↦ none
  | some (first, rest) ↦ elim (split_messages_per_cell rest cells) [
    | none ↦ none
    | some others ↦ some (message_ids first ∷ others)
  ]
]

unfoldable pub drop_messages : ℕ → Messages → Messages
drop_messages zero ms = ms
drop_messages (suc n) [] = []
drop_messages (suc n) (m ∷ ms) = drop_messages n ms

-- `merged[-n:]`, and nothing for an empty tail.
unfoldable pub slice_tail : Messages → List ConversationItem → Messages
slice_tail merged [] = []
slice_tail merged (item ∷ tail) = drop_messages (length merged - length (item ∷ tail)) merged

unfoldable pub add_senders : List String → List ConversationItem → List String
add_senders senders [] = senders
add_senders senders (item ∷ items) =
    let sid = item_sender item in
    add_senders
      (if not (sid == "") && not (contains senders sid) then senders ++ sid ∷ [] else senders) items

unfoldable pub unique_all_senders : MemCell → List String
unique_all_senders cell = add_senders [] cell.items

unfoldable pub max_timestamp : Messages → ℕ
max_timestamp [] = 0
max_timestamp (m ∷ ms) = max m.timestamp (max_timestamp ms)

unfoldable pub last_cell_ts : List MemCell → ℕ
last_cell_ts [] = 0
last_cell_ts (cell ∷ cells) = max cell.timestamp (last_cell_ts cells)
