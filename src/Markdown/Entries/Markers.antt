-- ===== src/Markdown/Entries/Markers.antt =====
-- What the patterns of the two markers take.
use mathlib.Core.List.{append_assoc}
use ever_os.Prelude.{
  eqb, Bool-cases, Option-cases, length, length-append, ℕ, ◌+◌, ◌≡◌, refl, ap, ◌≢◌, inl, inr, Bool,
  true, false, ◌&&◌, some, [], ◌∷◌, ◌++◌, arith,
}
use ever_os.Markdown.Text.{Text, newline, carriage_return, strip_prefix, ends_with_newline}
use ever_os.Markdown.Text.Search.{
  is_lines, has, extend, IsMarker, is_lines-tail, ends-cons, strip_prefix_self, strip_prefix-append,
  strip_prefix-length, strip_prefix-is_lines, strip_prefix-ends, strip_prefix-line,
  literal-IsMarker, literal-length,
}
use ever_os.Markdown.Entries.{
  is_id_char, span_id, open_marker, close_marker, match_suffix, match_id, match_open, match_close,
  open_prefix, marker_suffix,
}

-- Every character of a text may stand in an id.
abbrev pub all_id : Text → Bool
all_id [] = true
all_id (c ∷ s) = is_id_char c && all_id s

id_not_newline : (c : ℕ) → is_id_char c ≡ true → eqb c newline ≡ false
unfolding is_id_char
id_not_newline c h = ground arith

newline_not_id : (c : ℕ) → is_id_char c ≡ true → eqb newline c ≡ false
unfolding is_id_char
newline_not_id c h = ground arith

pub all_id-newline : (id : Text) → all_id id ≡ true → has newline id ≡ false
all_id-newline [] h = refl
all_id-newline (c ∷ s) h = ground (arith, newline_not_id c, all_id-newline s)

span_id_all : (s : Text) → all_id (span_id s).0 ≡ true
unfolding span_id
span_id_all [] = refl
span_id_all (c ∷ s) = ground (arith, span_id_all s)

span_id-length : (s : Text) → length (span_id s).0 + length (span_id s).1 ≡ length s
unfolding span_id
span_id-length [] = omega arith
span_id-length (c ∷ s) = ground (arith, span_id-length s)

span_id-is_lines : (s : Text) → is_lines s ≡ true → is_lines (span_id s).1 ≡ true
unfolding span_id
span_id-is_lines [] h = refl
span_id-is_lines (c ∷ s) h = ground (arith, is_lines-tail c s h, span_id-is_lines s)

-- The run stays within its line.
span_id-append :
    (s t : Text)
    → ends_with_newline s ≡ true
    → (span_id (s ++ t) ≡ ((span_id s).0, (span_id s).1 ++ t))
      × (ends_with_newline (span_id s).1 ≡ true)
unfolding span_id
span_id-append [] t h = unfold ends_with_newline in cc
span_id-append (c ∷ s) t h = elim (Bool-cases (is_id_char c)) [
  | inl e ↦
      let (f, g) = span_id-append s t (ends-cons c s (id_not_newline c e) h) in
      (ground (arith, f), ground arith)
  | inr e ↦ (ground arith, ground arith)
]

-- The run of an id that a space follows is the id.
pub span_id_space :
    (id rest : Text) → all_id id ≡ true → span_id (id ++ b' ' ∷ rest) ≡ (id, b' ' ∷ rest)
unfolding span_id is_id_char
span_id_space [] rest h = refl
span_id_space (c ∷ s) rest h = ground (arith, span_id_space s rest)

match_id_marker :
    (c : ℕ) (id rest : Text)
    → all_id (c ∷ id) ≡ true
    → match_id (c ∷ id ++ (marker_suffix ++ rest)) ≡ some (c ∷ id, rest)
unfolding match_id match_suffix
match_id_marker c id rest h =
    rw (span_id_space (c ∷ id) (b'-' ∷ b'-' ∷ b'>' ∷ rest) h)
      (rw (strip_prefix_self marker_suffix rest, match_suffix) refl)

pub match_open-marker :
    (c : ℕ) (id rest : Text)
    → all_id (c ∷ id) ≡ true
    → match_open (open_marker (c ∷ id) ++ rest) ≡ some (c ∷ id, rest)
unfolding match_open open_marker
match_open-marker c id rest h =
    let e = strip_prefix_self open_prefix (c ∷ id ++ (marker_suffix ++ rest)) in
    rw (append_assoc (c ∷ id) marker_suffix rest) (rw (e, match_open) (match_id_marker c id rest h))

match_suffix_id :
    (id s found rest : Text)
    → all_id id ≡ true
    → match_suffix id s ≡ some (found, rest)
    → (all_id found ≡ true)
      × (found ≢ [])
      × (strip_prefix marker_suffix s ≡ some rest)
      × (found ≡ id)
unfolding match_suffix
match_suffix_id [] s found rest a h = cc
match_suffix_id (c ∷ id) s found rest a h = elim (Option-cases (strip_prefix marker_suffix s)) [
  | inl e ↦ ground arith
  | inr (r, e) ↦ (ground arith, λ z. ground arith, ground arith, ground arith)
]

match_suffix-append :
    (id s t : Text)
    → ends_with_newline s ≡ true
    → match_suffix id (s ++ t) ≡ extend t (match_suffix id s)
unfolding match_suffix
match_suffix-append [] s t h = refl
match_suffix-append (c ∷ id) s t h = ground (arith, strip_prefix-append marker_suffix s t refl h)

match_id-append :
    (s t : Text) → ends_with_newline s ≡ true → match_id (s ++ t) ≡ extend t (match_id s)
unfolding match_id
match_id-append s t h =
    let (f, g) = span_id-append s t h in rw f (match_suffix-append (span_id s).0 (span_id s).1 t g)

span_id_line :
    (s t : Text) → span_id (s ++ newline ∷ t) ≡ ((span_id s).0, (span_id s).1 ++ newline ∷ t)
unfolding span_id is_id_char
span_id_line [] t = refl
span_id_line (c ∷ s) t = ground (arith, span_id_line s t)

match_suffix_line :
    (id s t : Text) → match_suffix id (s ++ newline ∷ t) ≡ extend (newline ∷ t) (match_suffix id s)
unfolding match_suffix
match_suffix_line [] s t = refl
match_suffix_line (c ∷ id) s t = ground (arith, strip_prefix-line marker_suffix s t refl)

match_id_line : (s t : Text) → match_id (s ++ newline ∷ t) ≡ extend (newline ∷ t) (match_id s)
unfolding match_id
match_id_line s t = rw (span_id_line s t) (match_suffix_line (span_id s).0 (span_id s).1 t)

-- What the open marker's pattern takes.
pub match_open_id :
    (s id rest : Text)
    → match_open s ≡ some (id, rest)
    → (after : Text) × (strip_prefix open_prefix s ≡ some after)
      × (all_id id ≡ true)
      × (id ≢ [])
      × (strip_prefix marker_suffix (span_id after).1 ≡ some rest)
      × (id ≡ (span_id after).0)
unfolding match_open match_id
match_open_id s id rest h = elim (Option-cases (strip_prefix open_prefix s)) [
  | inl e ↦ ground arith
  | inr (after, e) ↦
      let (a, n, r, same) =
        match_suffix_id (span_id after).0 (span_id after).1 id rest (span_id_all after)
          (ground arith) in
      (after, e, a, n, r, same)
]

pub match_open-IsMarker : IsMarker match_open
unfolding match_open
match_open-IsMarker = record {
  grows = λ s t h. elim (Option-cases (strip_prefix open_prefix s)) [
    | inl e ↦ ground (arith, strip_prefix-append open_prefix s t refl h)
    | inr (after, e) ↦ ground (
      arith,
      strip_prefix-append open_prefix s t refl h,
      strip_prefix-ends open_prefix s after refl h e,
      match_id-append after t,
    )
  ];
  grows_line = λ s t. elim (Option-cases (strip_prefix open_prefix s)) [
    | inl e ↦ ground (arith, strip_prefix-line open_prefix s t refl)
    | inr (after, e) ↦ ground (arith, strip_prefix-line open_prefix s t refl, match_id_line after t)
  ];
  shrinks = λ s found rest h.
      let (after, e, _, _, r, _) = match_open_id s found rest h in
      omega (
        arith,
        strip_prefix-length open_prefix s after e,
        span_id-length after,
        strip_prefix-length marker_suffix (span_id after).1 rest r,
      );
  leaves_lines = λ s found rest l h.
      let (after, e, _, _, r, _) = match_open_id s found rest h in
      strip_prefix-is_lines marker_suffix (span_id after).1 rest
        (span_id-is_lines after (strip_prefix-is_lines open_prefix s after l e)) r;
}

pub has-append : (c : ℕ) (s t : Text) → has c s ≡ false → has c t ≡ false → has c (s ++ t) ≡ false
has-append c [] t h k = k
has-append c (d ∷ s) t h k = ground (arith, has-append c s t)

return_not_id : (c : ℕ) → is_id_char c ≡ true → eqb carriage_return c ≡ false
unfolding is_id_char
return_not_id c h = ground arith

pub all_id-return : (id : Text) → all_id id ≡ true → has carriage_return id ≡ false
all_id-return [] h = refl
all_id-return (c ∷ s) h = ground (arith, return_not_id c, all_id-return s)

pub close_marker-newline : (id : Text) → all_id id ≡ true → has newline (close_marker id) ≡ false
unfolding close_marker
close_marker-newline id h = has-append newline id marker_suffix (all_id-newline id h) refl

pub match_close-IsMarker : (id : Text) → all_id id ≡ true → IsMarker (match_close id)
unfolding match_close close_marker
match_close-IsMarker id h = literal-IsMarker _ _ (close_marker-newline id h)

pub match_open-length :
    (s id rest : Text)
    → match_open s ≡ some (id, rest)
    → length s ≡ length (open_marker id) + length rest
unfolding open_marker
match_open-length s id rest h =
    let (after, e, _, _, r, same) = match_open_id s id rest h in
    omega (
      arith,
      strip_prefix-length open_prefix s after e,
      span_id-length after,
      strip_prefix-length marker_suffix (span_id after).1 rest r,
      length-append id marker_suffix,
      ap (length {A = ℕ}) same,
    )

pub match_close-length :
    (id s found rest : Text)
    → match_close id s ≡ some (found, rest)
    → length s ≡ length (close_marker id) + length rest
unfolding match_close
match_close-length id s found rest h = literal-length (close_marker id) s found rest h
