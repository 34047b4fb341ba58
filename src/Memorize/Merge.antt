-- ===== src/Memorize/Merge.antt =====
-- src/everos/service/_boundary.py: merging the buffered messages of a session with the fresh ones.
use Prim.Native.Nat.{Ordering}
use Prim.Native.String.{compare as compare_text}
pub mod Laws
use ever_os.Prelude.{
  ltb, eqb, if◌then◌else◌, String, Bool, true, false, ◌&&◌, ◌||◌, Option, none, some, List, [], ◌∷◌,
  ◌==◌,
}
use ever_os.Memorize.Message.{CanonicalMessage}

abbrev pub Messages : Type 0
Messages = List CanonicalMessage

abbrev pub find_message : String → Messages → Option CanonicalMessage
find_message id [] = none
find_message id (m ∷ ms) = if m.message_id == id then some m else find_message id ms

-- `seen[m.message_id] = m`: a key that is there keeps its place.
unfoldable pub put_message : CanonicalMessage → Messages → Messages
put_message m [] = m ∷ []
put_message m (x ∷ xs) = if x.message_id == m.message_id then m ∷ xs else x ∷ put_message m xs

unfoldable pub put_messages : Messages → Messages → Messages
put_messages seen [] = seen
put_messages seen (m ∷ ms) = put_messages (put_message m seen) ms

-- `seen.setdefault(m.message_id, m)`.
unfoldable pub set_default : CanonicalMessage → Messages → Messages
set_default m [] = m ∷ []
set_default m (x ∷ xs) = if x.message_id == m.message_id then x ∷ xs else x ∷ set_default m xs

unfoldable pub set_defaults : Messages → Messages → Messages
set_defaults seen [] = seen
set_defaults seen (m ∷ ms) = set_defaults (set_default m seen) ms

abbrev pub text_le : String → String → Bool
text_le s t = elim (compare_text s t) [ Ordering.gt ↦ false | _ ↦ true ]

-- The sort key, `(m.timestamp, m.message_id)`.
abbrev pub not_after : CanonicalMessage → CanonicalMessage → Bool
not_after m x =
    ltb m.timestamp x.timestamp
    || (eqb m.timestamp x.timestamp && text_le m.message_id x.message_id)

unfoldable pub insert_sorted : CanonicalMessage → Messages → Messages
insert_sorted m [] = m ∷ []
insert_sorted m (x ∷ xs) = if not_after m x then m ∷ x ∷ xs else x ∷ insert_sorted m xs

-- `sorted`, which is stable.
unfoldable pub sort_messages : Messages → Messages
sort_messages [] = []
sort_messages (m ∷ ms) = insert_sorted m (sort_messages ms)

unfoldable pub merge_dedupe_sort : Messages → Messages → Messages
merge_dedupe_sort buffered fresh = sort_messages (set_defaults (put_messages [] buffered) fresh)
