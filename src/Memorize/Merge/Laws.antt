-- ===== src/Memorize/Merge/Laws.antt =====
-- The merged messages, read at one message id.
use ever_os.Prelude.{
  if◌then◌else◌, Bool-cases, eq-cases, String, ◌≡◌, refl, ap, ◌∙◌, inl, inr, Option, none, some, [],
  ◌∷◌, arith, ◌==◌, eq_iff, eq_refl,
}
use ever_os.Memorize.Message.{CanonicalMessage}
use ever_os.Memorize.Merge.{
  Messages, find_message, put_message, put_messages, set_default, set_defaults, not_after,
  insert_sorted, sort_messages, merge_dedupe_sort,
}

abbrev pub or_else : Option CanonicalMessage → Option CanonicalMessage → Option CanonicalMessage
or_else none other = other
or_else (some m) other = some m

-- The last message with an id.
abbrev pub find_last : String → Messages → Option CanonicalMessage
find_last id [] = none
find_last id (m ∷ ms) = or_else (find_last id ms) (if m.message_id == id then some m else none)

abbrev pub UniqueIds : Messages → Type 0
UniqueIds [] = Unit
UniqueIds (m ∷ ms) = (find_message m.message_id ms ≡ none) × UniqueIds ms

find-put_message :
    (id : String) (m : CanonicalMessage) (seen : Messages)
    → find_message id (put_message m seen)
      ≡ (if m.message_id == id then some m else find_message id seen)
unfolding put_message
find-put_message id m [] = refl
find-put_message id m (x ∷ xs) = ground (
  arith,
  find-put_message id m xs,
  eq_iff x.message_id m.message_id,
  eq_iff x.message_id id,
  eq_iff m.message_id id,
)

find-put_messages :
    (id : String) (seen ms : Messages)
    → find_message id (put_messages seen ms) ≡ or_else (find_last id ms) (find_message id seen)
unfolding put_messages
find-put_messages id seen [] = refl
find-put_messages id seen (m ∷ ms) =
    ground (arith, find-put_messages id (put_message m seen) ms, find-put_message id m seen)

find-set_default :
    (id : String) (m : CanonicalMessage) (seen : Messages)
    → find_message id (set_default m seen)
      ≡ or_else (find_message id seen) (if m.message_id == id then some m else none)
unfolding set_default
find-set_default id m [] = ground arith
find-set_default id m (x ∷ xs) = ground (
  arith,
  find-set_default id m xs,
  eq_iff x.message_id m.message_id,
  eq_iff x.message_id id,
  eq_iff m.message_id id,
)

find-set_defaults :
    (id : String) (seen ms : Messages)
    → find_message id (set_defaults seen ms) ≡ or_else (find_message id seen) (find_message id ms)
unfolding set_defaults
find-set_defaults id seen [] = ground arith
find-set_defaults id seen (m ∷ ms) =
    ground (arith, find-set_defaults id (set_default m seen) ms, find-set_default id m seen)

put_message-UniqueIds :
    (m : CanonicalMessage) (seen : Messages) → UniqueIds seen → UniqueIds (put_message m seen)
unfolding put_message
put_message-UniqueIds m [] u = (refl, tt)
put_message-UniqueIds m (x ∷ xs) u = elim (eq-cases x.message_id m.message_id) [
  | inl same ↦ rw (same, eq_refl m.message_id) (rw same at u.0, u.1)
  | inr differs ↦ rw differs (
    ground (
      arith,
      find-put_message x.message_id m xs,
      eq_iff m.message_id x.message_id,
      eq_iff x.message_id m.message_id,
    ),
    put_message-UniqueIds m xs u.1,
  )
]

set_default-UniqueIds :
    (m : CanonicalMessage) (seen : Messages) → UniqueIds seen → UniqueIds (set_default m seen)
unfolding set_default
set_default-UniqueIds m [] u = (refl, tt)
set_default-UniqueIds m (x ∷ xs) u = elim (eq-cases x.message_id m.message_id) [
  | inl same ↦ rw (same, eq_refl m.message_id) (rw same at u.0, u.1)
  | inr differs ↦ rw differs (
    ground (
      arith,
      find-set_default x.message_id m xs,
      eq_iff m.message_id x.message_id,
      eq_iff x.message_id m.message_id,
    ),
    set_default-UniqueIds m xs u.1,
  )
]

find-insert_sorted :
    (id : String) (m : CanonicalMessage) (ms : Messages)
    → find_message m.message_id ms ≡ none
    → find_message id (insert_sorted m ms)
      ≡ (if m.message_id == id then some m else find_message id ms)
unfolding insert_sorted
find-insert_sorted id m [] n = refl
find-insert_sorted id m (x ∷ xs) n = ground (
  arith,
  find-insert_sorted id m xs,
  eq_iff x.message_id m.message_id,
  eq_iff x.message_id id,
  eq_iff m.message_id id,
)

insert_sorted-UniqueIds :
    (m : CanonicalMessage) (ms : Messages)
    → find_message m.message_id ms ≡ none
    → UniqueIds ms
    → UniqueIds (insert_sorted m ms)
unfolding insert_sorted
insert_sorted-UniqueIds m [] n u = (refl, tt)
insert_sorted-UniqueIds m (x ∷ xs) n u = elim (Bool-cases (not_after m x)) [
  | inl e ↦ rw e (n, u)
  | inr e ↦
      let tail : find_message m.message_id xs ≡ none = ground (arith, n) in
      rw e (
        ground (
          arith,
          find-insert_sorted x.message_id m xs,
          eq_iff m.message_id x.message_id,
          eq_iff x.message_id m.message_id,
        ),
        insert_sorted-UniqueIds m xs tail u.1,
      )
]

find-sort_messages :
    (id : String) (ms : Messages)
    → UniqueIds ms
    → (find_message id (sort_messages ms) ≡ find_message id ms) × UniqueIds (sort_messages ms)
unfolding sort_messages
find-sort_messages id [] u = (refl, tt)
find-sort_messages id (m ∷ ms) u =
    let (f, w) = find-sort_messages id ms u.1 in
    let (absent, _) = find-sort_messages m.message_id ms u.1 in
    let gone = absent ∙ u.0 in
    (
      ground (arith, find-insert_sorted id m (sort_messages ms), gone, f),
      insert_sorted-UniqueIds m (sort_messages ms) gone w,
    )

put_messages-UniqueIds : (seen ms : Messages) → UniqueIds seen → UniqueIds (put_messages seen ms)
unfolding put_messages
put_messages-UniqueIds seen [] u = u
put_messages-UniqueIds seen (m ∷ ms) u =
    put_messages-UniqueIds (put_message m seen) ms (put_message-UniqueIds m seen u)

set_defaults-UniqueIds : (seen ms : Messages) → UniqueIds seen → UniqueIds (set_defaults seen ms)
unfolding set_defaults
set_defaults-UniqueIds seen [] u = u
set_defaults-UniqueIds seen (m ∷ ms) u =
    set_defaults-UniqueIds (set_default m seen) ms (set_default-UniqueIds m seen u)

-- Merging keeps one message for each id that is buffered or fresh, and no other: the last buffered
-- one where the id is buffered, and the first fresh one otherwise.
pub merge_dedupe_sort_keeps :
    (buffered fresh : Messages)
    → UniqueIds (merge_dedupe_sort buffered fresh)
      × ((id : String)
          → find_message id (merge_dedupe_sort buffered fresh)
            ≡ or_else (find_last id buffered) (find_message id fresh))
unfolding merge_dedupe_sort
merge_dedupe_sort_keeps buffered fresh =
    let seen = put_messages [] buffered in
    let unique = set_defaults-UniqueIds seen fresh (put_messages-UniqueIds [] buffered tt) in
    (
      (find-sort_messages "" (set_defaults seen fresh) unique).1,
      λ id.
          (find-sort_messages id (set_defaults seen fresh) unique).0
          ∙ find-set_defaults id seen fresh
          ∙ ap (λ (o : Option CanonicalMessage). or_else o (find_message id fresh))
              (find-put_messages id [] buffered
                ∙ elim (find_last id buffered) as (λ o. or_else o none ≡ o) [
                  | none ↦ refl
                  | some m ↦ refl
                ]),
    )

-- Nothing is merged only where nothing was buffered.
pub merged_nil : (buffered fresh : Messages) → merge_dedupe_sort buffered fresh ≡ [] → buffered ≡ []
merged_nil [] fresh e = refl
merged_nil (m ∷ ms) fresh e =
    let kept = (merge_dedupe_sort_keeps (m ∷ ms) fresh).1 m.message_id in
    let nothing = ap (find_message m.message_id) e in
    ground (arith, kept, nothing, eq_refl m.message_id)
