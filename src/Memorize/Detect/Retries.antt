-- ===== src/Memorize/Detect/Retries.antt =====
-- The retries of the boundary detection.
use ever_os.Prelude.{ℕ, suc, ◌+◌, ◌≡◌, refl, ◌∙◌, Bool, none, List, [], ◌∷◌}
use ever_os.Memorize.Message.{Mode, ConversationItem}
use ever_os.Memorize.Merge.{Messages}
use ever_os.Memorize.Detect.{
  MemCell, Detected, detected, invalid_response, failed, value_error, detector_error, Result, ok,
  raised, Detector, message_items, detect_once, detect_attempts, detect,
}

-- The outcome of a run of attempts, read off the answers in order: the first one that is valid, the
-- first failure, or the last error when all are invalid.
abbrev pub first_valid : List Detected → Result (List MemCell × List ConversationItem)
first_valid [] = raised value_error
first_valid (detected cells tail ∷ rest) = ok (cells, tail)
first_valid (failed ∷ rest) = raised detector_error
first_valid (invalid_response ∷ rest) = first_valid rest

detect_attempts_step :
    (detector : Detector) (mode : Mode) (is_final : Bool) (left attempt : ℕ) (merged : Messages)
    (answer : Detected) (rest : List Detected)
    → detect_once detector mode is_final attempt merged ≡ answer
    → detect_attempts detector mode is_final left (attempt + 1) merged ≡ first_valid rest
    → detect_attempts detector mode is_final (suc left) attempt merged ≡ first_valid (answer ∷ rest)
unfolding detect_attempts
detect_attempts_step detector mode is_final left attempt merged (detected cells tail) rest e h =
    rw (e, detect_attempts) refl
detect_attempts_step detector mode is_final left attempt merged invalid_response rest e h =
    rw (e, detect_attempts) h
detect_attempts_step detector mode is_final left attempt merged failed rest e h =
    rw (e, detect_attempts) refl

invalid_items :
    (detector : Detector) (mode : Mode) (is_final : Bool) (n : ℕ) (merged : Messages)
    → message_items detector mode merged ≡ none
    → detect_once detector mode is_final n merged ≡ invalid_response
unfolding detect_once
invalid_items detector mode is_final n merged h = rw (h, detect_once) refl

-- Detection answers as the first of three attempts that is valid: a failure of the detector ends it
-- at once, three invalid answers raise the value error, and so do messages that give no items.
detect-first_valid :
    (detector : Detector) (mode : Mode) (is_final : Bool) (merged : Messages)
    → (detect detector mode is_final merged
        ≡ first_valid (
            detect_once detector mode is_final 0 merged
            ∷ detect_once detector mode is_final 1 merged
            ∷ detect_once detector mode is_final 2 merged
            ∷ []))
      × (message_items detector mode merged ≡ none
          → detect detector mode is_final merged ≡ raised value_error)
unfolding detect
detect-first_valid detector mode is_final merged =
    let ask = λ (n : ℕ). detect_once detector mode is_final n merged in
    let third =
      detect_attempts_step detector mode is_final 0 2 merged (ask 2) [] refl
        (unfold detect_attempts in refl) in
    let second =
      detect_attempts_step detector mode is_final 1 1 merged (ask 1) (ask 2 ∷ []) refl third in
    let first =
      detect_attempts_step detector mode is_final 2 0 merged (ask 0) (ask 1 ∷ ask 2 ∷ []) refl
        second in
    (
      first,
      λ h.
          let invalid = λ (n : ℕ). invalid_items detector mode is_final n merged h in
          first ∙ rw (invalid 0, invalid 1, invalid 2) refl,
    )
