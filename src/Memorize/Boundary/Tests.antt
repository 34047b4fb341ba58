-- ===== src/Memorize/Boundary/Tests.antt =====
-- The boundary stage on a concrete session, and instances of its theorems.
use mathlib.Core.Option.{some-injective}
use ever_os.Prelude.{
  eqb, if◌then◌else◌, ℕ, String, ◌≡◌, refl, subst, Bool, true, false, none, some, List, [], ◌∷◌,
}
use ever_os.Memorize.Message.{
  Role, user, tool, CanonicalMessage, chat, ConversationItem, filter_for_mode, to_chat_message,
}
use ever_os.Memorize.Merge.{
  Messages, find_message, put_message, put_messages, set_default, set_defaults, insert_sorted,
  sort_messages, merge_dedupe_sort,
}
use ever_os.Memorize.Detect.{
  Detected, detected, invalid_response, Detector, message_items, detect_once, detect_attempts,
  detect, message_ids, split_at, split_messages_per_cell, drop_messages, slice_tail, last_cell_ts,
}
use ever_os.Memorize.Boundary.{
  Session, replace_buffer, Commit, commit, insert_rows, touch_last_memcell_ts, touch_memcell,
  store_cells, prepare_detected, prepare_merged, prepare_cells,
}
use ever_os.Memorize.Merge.Laws.{or_else, find_last, UniqueIds, merge_dedupe_sort_keeps}
use ever_os.Memorize.Boundary.Conserves.{Accounts, IsComplete, prepare_cells-Accounts}

abbrev said : String → ℕ → CanonicalMessage
said id at = record {
  message_id = id;
  sender_id = "u1";
  role = user;
  timestamp = at;
  text = "hi";
  tool_calls = [];
  tool_call_id = none;
}

abbrev session : Session
session = record {
  buffer = said "m2" 20 ∷ [];
  memcells = [];
  last_message_ts = some 20;
  last_memcell_ts = none;
}

-- The second message is there already, and the first is older than it.
abbrev arrived : Messages
arrived = said "m3" 30 ∷ said "m2" 99 ∷ said "m1" 10 ∷ []

merged_ids : message_ids (merge_dedupe_sort session.buffer arrived) ≡ "m1" ∷ "m2" ∷ "m3" ∷ []
unfolding merge_dedupe_sort sort_messages insert_sorted set_defaults set_default put_messages
    put_message
merged_ids = refl

-- A detector that closes a cell over all items but the last, at its second attempt.
abbrev all_but_last : List ConversationItem → List ConversationItem × List ConversationItem
all_but_last [] = ([], [])
all_but_last (x ∷ []) = ([], x ∷ [])
all_but_last (x ∷ y ∷ rest) = let (front, last) = all_but_last (y ∷ rest) in (x ∷ front, last)

abbrev answer : ℕ → Bool → List ConversationItem → Detected
answer attempt is_final items =
    let (front, last) = all_but_last items in
    if eqb attempt 0
    then invalid_response
    else detected (record { items = front; timestamp = 20 } ∷ []) last

abbrev takes_chat : Role → Bool
takes_chat tool = false
takes_chat _ = true

abbrev hesitant : Detector
hesitant = record { ask = answer; accepts_role = takes_chat }

abbrev name_cell : ℕ → String
name_cell n = if eqb n 0 then "mc_0" else "mc_1"

abbrev all_work : Commit → Bool
all_work call = true

run_ids :
    message_ids
      (prepare_cells all_work name_cell (some hesitant) arrived chat false session).0.buffer
    ≡ "m3" ∷ []
unfolding prepare_cells prepare_merged prepare_detected store_cells detect detect_attempts
    detect_once message_items merge_dedupe_sort sort_messages insert_sorted set_defaults set_default
    put_messages put_message filter_for_mode to_chat_message split_messages_per_cell split_at
    slice_tail drop_messages replace_buffer touch_last_memcell_ts last_cell_ts commit touch_memcell
    insert_rows
run_ids = refl

hesitant-IsComplete :
    IsComplete
      (merge_dedupe_sort session.buffer (filter_for_mode arrived chat))
      (detect hesitant chat false (merge_dedupe_sort session.buffer (filter_for_mode arrived chat)))
unfolding detect detect_attempts detect_once message_items filter_for_mode merge_dedupe_sort
    sort_messages insert_sorted set_defaults set_default put_messages put_message
hesitant-IsComplete = refl

prepare_cells-Accounts_example :
    Accounts
      (merge_dedupe_sort session.buffer (filter_for_mode arrived chat))
      session
      (prepare_cells all_work name_cell (some hesitant) arrived chat false session)
prepare_cells-Accounts_example =
    prepare_cells-Accounts all_work name_cell (some hesitant) arrived chat false session
      (unfold filter_for_mode in refl)
      (λ detector e.
        subst
          (λ (d : Detector).
            IsComplete (merge_dedupe_sort session.buffer (filter_for_mode arrived chat)) (
              detect d chat false
                (merge_dedupe_sort session.buffer (filter_for_mode arrived chat))))
          (some-injective hesitant detector e) hesitant-IsComplete)

merge_dedupe_sort_keeps_example :
    UniqueIds (merge_dedupe_sort session.buffer arrived)
    × ((id : String)
        → find_message id (merge_dedupe_sort session.buffer arrived)
          ≡ or_else (find_last id session.buffer) (find_message id arrived))
merge_dedupe_sort_keeps_example = merge_dedupe_sort_keeps session.buffer arrived
