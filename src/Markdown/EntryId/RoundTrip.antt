-- ===== src/Markdown/EntryId/RoundTrip.antt =====
-- A formatted id is parsed back, and may stand in a marker.
use mathlib.Core.List.{append_assoc}
use ever_os.Prelude.{
  leb, length, ℕ, zero, suc, ◌+◌, ◌-◌, ◌/◌, ◌%◌, ◌≤◌, ◌≡◌, refl, ◌∙◌, ◌≢◌, Bool, true, false, ◌&&◌,
  none, some, [], ◌∷◌, ◌++◌, arith,
}
use ever_os.Markdown.Text.{Text}
use ever_os.Markdown.Text.Search.{has, behind}
use ever_os.Markdown.Frontmatter.{is_space}
use ever_os.Markdown.EntryId.{
  Calendar, EntryId, parsed, underscore, seq_digits, digits_from, digits, zeros, padded,
  digits_value, lstrip, rstrip, number, read_seq, rsplit_once, format, parse_parts, parse,
}

-- Every character is a decimal digit.
abbrev all_digits : Text → Bool
all_digits [] = true
all_digits (c ∷ s) = (leb b'0' c && leb c b'9') && all_digits s

digits_from_digits :
    (fuel n : ℕ) (behind : Text)
    → n ≤ fuel
    → all_digits behind ≡ true
    → all_digits (digits_from fuel n behind) ≡ true
unfolding digits_from
digits_from_digits zero n behind l h = ground arith
digits_from_digits (suc fuel) n behind l h =
    ground (arith, digits_from_digits fuel (n / 10) ((b'0' + n % 10) ∷ behind))

digits_value-digits_from :
    (fuel n : ℕ) (behind : Text)
    → n ≤ fuel
    → digits_value 0 (digits_from fuel n behind) ≡ digits_value n behind
unfolding digits_from digits_value
digits_value-digits_from zero n behind l = ground arith
digits_value-digits_from (suc fuel) n behind l =
    ground (arith, digits_value-digits_from fuel (n / 10) ((b'0' + n % 10) ∷ behind))

zeros_digits : (k : ℕ) (s : Text) → all_digits s ≡ true → all_digits (zeros k ++ s) ≡ true
unfolding zeros
zeros_digits zero s h = h
zeros_digits (suc k) s h = ground (arith, zeros_digits k s h)

digits_value-zeros : (k : ℕ) (s : Text) → digits_value 0 (zeros k ++ s) ≡ digits_value 0 s
unfolding zeros digits_value
digits_value-zeros zero s = refl
digits_value-zeros (suc k) s = digits_value-zeros k s

padded_digits : (n : ℕ) → all_digits (padded n) ≡ true
unfolding padded digits
padded_digits n = zeros_digits _ _ (digits_from_digits n n [] (omega arith) refl)

padded_value : (n : ℕ) → digits_value 0 (padded n) ≡ some n
unfolding padded digits
padded_value n =
    digits_value-zeros _ (digits_from n n [])
    ∙ digits_value-digits_from n n [] (omega arith)
    ∙ unfold digits_value in refl

rstrip_digits : (s : Text) → all_digits s ≡ true → rstrip s ≡ s
unfolding rstrip is_space
rstrip_digits [] h = refl
rstrip_digits (c ∷ s) h = ground (arith, rstrip_digits s)

read_seq_digits :
    (s : Text) (n : ℕ)
    → s ≢ []
    → all_digits s ≡ true
    → digits_value 0 s ≡ some n
    → read_seq s ≡ some n
unfolding read_seq lstrip is_space number
read_seq_digits [] n ne h v = absurd (ne refl)
read_seq_digits (c ∷ s) n ne h v = ground (arith, rstrip_digits (c ∷ s) h)

rsplit_once_absent : (s : Text) → has underscore s ≡ false → rsplit_once s ≡ none
unfolding rsplit_once
rsplit_once_absent [] h = refl
rsplit_once_absent (c ∷ s) h = ground (arith, rsplit_once_absent s)

rsplit_once-last :
    (a b : Text) → has underscore b ≡ false → rsplit_once (a ++ underscore ∷ b) ≡ some (a, b)
unfolding rsplit_once
rsplit_once-last [] b h = rw (rsplit_once_absent b h) refl
rsplit_once-last (c ∷ a) b h = rw (rsplit_once-last a b h) refl

digits_plain : (s : Text) → all_digits s ≡ true → has underscore s ≡ false
digits_plain [] h = refl
digits_plain (c ∷ s) h = ground (arith, digits_plain s)

zeros_ne_nil : (k c : ℕ) (s : Text) → zeros k ++ c ∷ s ≢ []
unfolding zeros
zeros_ne_nil zero c s h = cc
zeros_ne_nil (suc k) c s h = cc

pad_ne_nil : (s : Text) → zeros (seq_digits - length s) ++ s ≢ []
pad_ne_nil [] h = unfold zeros in cc
pad_ne_nil (c ∷ s) h = zeros_ne_nil _ c s h

padded_ne_nil : (n : ℕ) → padded n ≢ []
unfolding padded
padded_ne_nil n = pad_ne_nil (digits n)

module _ {Date : Type 0} (calendar : Calendar Date) where
  parse_parts_lem :
      (prefix : Text) (date : Date) (seq : ℕ) (date_str seq_str : Text)
      → prefix ≢ []
      → calendar.strptime date_str ≡ some date
      → read_seq seq_str ≡ some seq
      → parse_parts calendar prefix date_str seq_str
        ≡ parsed (record { prefix = prefix; date = date; seq = seq })
  unfolding parse_parts
  parse_parts_lem [] date seq date_str seq_str ne d n = absurd (ne refl)
  parse_parts_lem (c ∷ prefix) date seq date_str seq_str ne d n =
      rw (d, parse_parts) (rw (n, parse_parts) refl)

  -- An id whose prefix is not empty is parsed back from its text, whatever underscores the prefix
  -- holds and however long the number is, where the calendar parses the date that it formats and
  -- formats it without underscores.
  pub parse-format :
      (eid : EntryId Date)
      → eid.prefix ≢ []
      → calendar.strptime (calendar.strftime eid.date) ≡ some eid.date
      → has underscore (calendar.strftime eid.date) ≡ false
      → parse calendar (format calendar eid) ≡ parsed eid
  unfolding parse format parse_parts
  parse-format eid ne d u =
      let date = calendar.strftime eid.date in
      let seq = padded eid.seq in
      let last =
        rsplit_once-last (eid.prefix ++ underscore ∷ date) seq
          (digits_plain seq (padded_digits eid.seq)) in
      let whole = rw (append_assoc eid.prefix (underscore ∷ date) (underscore ∷ seq)) at last in
      let number =
        read_seq_digits seq eid.seq (padded_ne_nil eid.seq) (padded_digits eid.seq)
          (padded_value eid.seq) in
      rw (whole, parse)
        (rw (rsplit_once-last eid.prefix date u, parse)
          (parse_parts_lem eid.prefix eid.date eid.seq date seq ne d number))
