-- ===== src/Memorize/Message.antt =====
-- src/everos/memory/models.py: the canonical message; src/everos/service/_boundary.py: what the
-- boundary detector is given for it.
use ever_os.Prelude.{
  if◌then◌else◌, keep, ℕ, String, Bool, true, false, ◌&&◌, Option, none, some, List, [], ◌∷◌, ◌==◌,
}

pub data Role : Type 0 where
  user : Role
  assistant : Role
  tool : Role

-- An absent list of tool calls and an empty one are the same to the service.
pub record CanonicalMessage : Type 0 where
  pub message_id : String
  pub sender_id : String
  pub role : Role
  pub timestamp : ℕ
  pub text : String
  pub tool_calls : List String
  pub tool_call_id : Option String

pub data Mode : Type 0 where
  chat : Mode
  agent : Mode

pub data ConversationItem : Type 0 where
  chat_message : String → Role → String → String → ℕ → ConversationItem
  tool_call_request : List String → ℕ → Option String → String → ConversationItem
  tool_call_result : String → String → ℕ → ConversationItem

abbrev pub is_empty {ℓ} : {A : Type ℓ} → List A → Bool
is_empty [] = true
is_empty (x ∷ xs) = false

abbrev pub is_chat_role : Role → Bool
is_chat_role tool = false
is_chat_role _ = true

abbrev pub is_user : Role → Bool
is_user user = true
is_user _ = false

unfoldable pub filter_for_mode : List CanonicalMessage → Mode → List CanonicalMessage
filter_for_mode msgs chat = keep (λ m. is_chat_role m.role && is_empty m.tool_calls) msgs
filter_for_mode msgs agent = msgs

unfoldable pub to_chat_message : CanonicalMessage → ConversationItem
to_chat_message m = chat_message m.message_id m.role m.sender_id m.text m.timestamp

-- `m.text or None`.
unfoldable pub text_or_none : String → Option String
text_or_none text = if text == "" then none else some text

unfoldable pub tool_item : CanonicalMessage → Option String → Option ConversationItem
tool_item m none = none
tool_item m (some call_id) =
    if call_id == "" then none else some (tool_call_result call_id m.text m.timestamp)

unfoldable pub assistant_item : CanonicalMessage → List String → ConversationItem
assistant_item m [] = to_chat_message m
assistant_item m (call ∷ calls) =
    tool_call_request (call ∷ calls) m.timestamp (text_or_none m.text) m.sender_id

-- `none` is the `ValueError` for an orphan tool row.
unfoldable pub to_conversation_item : CanonicalMessage → Option ConversationItem
to_conversation_item m = elim m.role [
  | tool ↦ tool_item m m.tool_call_id
  | assistant ↦ some (assistant_item m m.tool_calls)
  | user ↦ some (to_chat_message m)
]

unfoldable pub to_conversation_items : List CanonicalMessage → Option (List ConversationItem)
to_conversation_items [] = some []
to_conversation_items (m ∷ ms) = elim (to_conversation_item m) [
  | none ↦ none
  | some item ↦ elim (to_conversation_items ms) [ none ↦ none | some items ↦ some (item ∷ items) ]
]

-- `getattr(item, "sender_id", None)`; an empty one does not count.
abbrev pub item_sender : ConversationItem → String
item_sender (chat_message _ _ sender _ _) = sender
item_sender (tool_call_request _ _ _ sender) = sender
item_sender (tool_call_result _ _ _) = ""
