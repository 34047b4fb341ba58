-- ===== src/Markdown/Text/Search.antt =====
-- The search of a marker: a pattern without a newline does not match across the end of a line.
use ever_os.Prelude.{
  eqb, Option-cases, length, any, ℕ, suc, ◌+◌, ◌≤◌, ◌≡◌, refl, sym, ◌∙◌, subst, inl, inr, Bool,
  true, false, Option, none, some, [], ◌∷◌, ◌++◌, arith,
}
use ever_os.Markdown.Text.{
  Text, Pattern, newline, strip_prefix, literal, search_first, ends_with_newline,
}

-- A text is empty or ends a line.
abbrev pub is_lines : Text → Bool
is_lines [] = true
is_lines (c ∷ s) = ends_with_newline (c ∷ s)

abbrev pub has : ℕ → Text → Bool
has c s = any (eqb c) s

-- What a pattern finds with more text behind.
abbrev pub extend : Text → Option (Text × Text) → Option (Text × Text)
extend t none = none
extend t (some (found, rest)) = some (found, rest ++ t)

-- A pattern that takes something, within one line.
pub record IsMarker (match : Pattern) : Type 0 where
  pub grows : (s t : Text) → ends_with_newline s ≡ true → match (s ++ t) ≡ extend t (match s)
  pub grows_line : (s t : Text) → match (s ++ newline ∷ t) ≡ extend (newline ∷ t) (match s)
  pub shrinks : (s found rest : Text) → match s ≡ some (found, rest) → suc (length rest) ≤ length s
  pub leaves_lines :
      (s found rest : Text)
      → is_lines s ≡ true
      → match s ≡ some (found, rest)
      → is_lines rest ≡ true

pub is_lines-tail : (c : ℕ) (s : Text) → is_lines (c ∷ s) ≡ true → is_lines s ≡ true
unfolding ends_with_newline
is_lines-tail c [] h = refl
is_lines-tail c (d ∷ s) h = h

pub ends-cons :
    (c : ℕ) (s : Text)
    → eqb c newline ≡ false
    → ends_with_newline (c ∷ s) ≡ true
    → ends_with_newline s ≡ true
unfolding ends_with_newline
ends-cons c [] n h = ground arith
ends-cons c (d ∷ s) n h = h

pub ends-append :
    (s : Text) (c : ℕ) (t : Text) → ends_with_newline (s ++ c ∷ t) ≡ ends_with_newline (c ∷ t)
unfolding ends_with_newline
ends-append [] c t = refl
ends-append (d ∷ []) c t = refl
ends-append (d ∷ e ∷ s) c t = ends-append (e ∷ s) c t

pub strip_prefix_self : (p s : Text) → strip_prefix p (p ++ s) ≡ some s
unfolding strip_prefix
strip_prefix_self [] s = refl
strip_prefix_self (c ∷ p) s = ground (arith, strip_prefix_self p s)

abbrev pub behind : Text → Option Text → Option Text
behind t none = none
behind t (some rest) = some (rest ++ t)

pub strip_prefix-append :
    (p s t : Text)
    → has newline p ≡ false
    → ends_with_newline s ≡ true
    → strip_prefix p (s ++ t) ≡ behind t (strip_prefix p s)
unfolding strip_prefix
strip_prefix-append [] s t n h = refl
strip_prefix-append (c ∷ p) [] t n h = unfold ends_with_newline in cc
strip_prefix-append (c ∷ p) (d ∷ s) t n h = ground (arith, ends-cons d s, strip_prefix-append p s t)

pub strip_prefix-length :
    (p s rest : Text) → strip_prefix p s ≡ some rest → length p + length rest ≡ length s
unfolding strip_prefix
strip_prefix-length [] s rest h = ground arith
strip_prefix-length (c ∷ p) [] rest h = cc
strip_prefix-length (c ∷ p) (d ∷ s) rest h = ground (arith, strip_prefix-length p s rest)

pub strip_prefix-is_lines :
    (p s rest : Text) → is_lines s ≡ true → strip_prefix p s ≡ some rest → is_lines rest ≡ true
unfolding strip_prefix
strip_prefix-is_lines [] s rest l h = ground arith
strip_prefix-is_lines (c ∷ p) [] rest l h = cc
strip_prefix-is_lines (c ∷ p) (d ∷ s) rest l h =
    ground (arith, is_lines-tail d s l, strip_prefix-is_lines p s rest)

pub strip_prefix-ends :
    (p s rest : Text)
    → has newline p ≡ false
    → ends_with_newline s ≡ true
    → strip_prefix p s ≡ some rest
    → ends_with_newline rest ≡ true
unfolding strip_prefix
strip_prefix-ends [] s rest n l h = ground arith
strip_prefix-ends (c ∷ p) [] rest n l h = cc
strip_prefix-ends (c ∷ p) (d ∷ s) rest n l h =
    ground (arith, ends-cons d s, strip_prefix-ends p s rest)

-- A newline behind a text ends what a pattern without one may take.
pub strip_prefix-line :
    (p s t : Text)
    → has newline p ≡ false
    → strip_prefix p (s ++ newline ∷ t) ≡ behind (newline ∷ t) (strip_prefix p s)
unfolding strip_prefix
strip_prefix-line [] s t n = refl
strip_prefix-line (c ∷ p) [] t n = ground arith
strip_prefix-line (c ∷ p) (d ∷ s) t n = ground (arith, strip_prefix-line p s t)

pub literal-IsMarker : (c : ℕ) (p : Text) → has newline (c ∷ p) ≡ false → IsMarker (literal (c ∷ p))
unfolding literal
literal-IsMarker c p n = record {
  grows = λ s t h. ground (arith, strip_prefix-append (c ∷ p) s t n h);
  grows_line = λ s t. ground (arith, strip_prefix-line (c ∷ p) s t n);
  shrinks = λ s found rest h. ground (arith, strip_prefix-length (c ∷ p) s rest);
  leaves_lines = λ s found rest l h. ground (arith, strip_prefix-is_lines (c ∷ p) s rest l);
}

-- A search fails where the pattern fits nowhere.
pub search_first-none :
    (match : Pattern) (c : ℕ) (s : Text)
    → match (c ∷ s) ≡ none
    → search_first match s ≡ none
    → search_first match (c ∷ s) ≡ none
unfolding search_first
search_first-none match c s m h = rw (m, search_first) (rw (h, search_first) refl)

pub search_first_nowhere :
    (match : Pattern) (c : ℕ) (s : Text)
    → search_first match (c ∷ s) ≡ none
    → (match (c ∷ s) ≡ none) × (search_first match s ≡ none)
unfolding search_first
search_first_nowhere match c s h = (ground arith, ground arith)

-- A search succeeds at the first place where the pattern fits.
pub data Found (match : Pattern) : Text → Text → Text → Text → Type 0 where
  here :
      {c : ℕ} {s found rest : Text}
      → match (c ∷ s) ≡ some (found, rest)
      → Found match (c ∷ s) [] found rest
  later :
      {c : ℕ} {s before found rest : Text}
      → match (c ∷ s) ≡ none
      → Found match s before found rest
      → Found match (c ∷ s) (c ∷ before) found rest

pub search_first-Found :
    {match : Pattern} {s before found rest : Text}
    → Found match s before found rest
    → search_first match s ≡ some (before, found, rest)
unfolding search_first
search_first-Found (here h) = rw (h, search_first)
search_first-Found (later h f) = rw (h, search_first-Found f, search_first)

tail_found :
    (match : Pattern) (c : ℕ) (s before found rest : Text)
    → match (c ∷ s) ≡ none
    → search_first match (c ∷ s) ≡ some (before, found, rest)
    → (b : Text) × (before ≡ c ∷ b) × (search_first match s ≡ some (b, found, rest))
unfolding search_first
tail_found match c s before found rest n h = elim (Option-cases (search_first match s)) [
  | inl e ↦ ground arith
  | inr ((b, f, r), e) ↦ (b, ground arith, ground arith)
]

head_found :
    (match : Pattern) (c : ℕ) (s f r before found rest : Text)
    → match (c ∷ s) ≡ some (f, r)
    → search_first match (c ∷ s) ≡ some (before, found, rest)
    → (before ≡ []) × (match (c ∷ s) ≡ some (found, rest))
unfolding search_first
head_found match c s f r before found rest m h = ground arith

pub Found-of_search :
    (match : Pattern) (s before found rest : Text)
    → search_first match s ≡ some (before, found, rest)
    → Found match s before found rest
unfolding search_first
Found-of_search match [] before found rest h = cc
Found-of_search match (c ∷ s) before found rest h = elim (Option-cases (match (c ∷ s))) [
  | inl n ↦
      let (b, e, t) = tail_found match c s before found rest n h in
      subst (λ (x : Text). Found match (c ∷ s) x found rest) (sym e)
        (later n (Found-of_search match s b found rest t))
  | inr ((f, r), m) ↦
      let (e, t) = head_found match c s f r before found rest m h in
      subst (λ (x : Text). Found match (c ∷ s) x found rest) (sym e) (here t)
]

-- The lengths of the three parts, where the pattern takes `width found` of the text.
pub Found-length :
    (match : Pattern) (width : Text → ℕ) {s before found rest : Text}
    → ((s found rest : Text) → match s ≡ some (found, rest) → length s ≡ width found + length rest)
    → Found match s before found rest
    → length s ≡ length before + width found + length rest
Found-length match width w (here {c} {s} {found} {rest} h) = omega (arith, w (c ∷ s) found rest h)
Found-length match width w (later h f) = omega (arith, Found-length match width w f)

pub literal_self : (p rest : Text) → literal p (p ++ rest) ≡ some (p, rest)
unfolding literal
literal_self p rest = rw (strip_prefix_self p rest, literal) refl

pub literal-length :
    (p s found rest : Text) → literal p s ≡ some (found, rest) → length s ≡ length p + length rest
unfolding literal
literal-length p s found rest h = ground (arith, strip_prefix-length p s rest)

-- A search that fails in whole lines goes on behind them.
abbrev pub shift : Text → Option (Text × Text × Text) → Option (Text × Text × Text)
shift s none = none
shift s (some (before, found, rest)) = some (s ++ before, found, rest)

module _ (match : Pattern) (m : IsMarker match) where
  pub Found-append :
      {s before found rest : Text} (t : Text)
      → is_lines s ≡ true
      → Found match s before found rest
      → Found match (s ++ t) before found (rest ++ t)
  Found-append t l (here {c} {s} h) = here (m.grows (c ∷ s) t l ∙ rw h refl)
  Found-append t l (later {c} {s} h f) =
      later (m.grows (c ∷ s) t l ∙ rw h refl) (Found-append t (is_lines-tail c s l) f)

  pub search_first-append_none :
      (s t : Text)
      → is_lines s ≡ true
      → search_first match s ≡ none
      → search_first match (s ++ t) ≡ shift s (search_first match t)
  unfolding search_first
  search_first-append_none [] t l h = ground arith
  search_first-append_none (c ∷ s) t l h =
      ground (arith, m.grows (c ∷ s) t l, is_lines-tail c s l, search_first-append_none s t)

  pub Found-shrinks :
      {s before found rest : Text} → Found match s before found rest → suc (length rest) ≤ length s
  Found-shrinks (here {c} {s} {found} {rest} h) = m.shrinks (c ∷ s) found rest h
  Found-shrinks (later h f) = omega (arith, Found-shrinks f)

  pub Found-is_lines :
      {s before found rest : Text}
      → is_lines s ≡ true
      → Found match s before found rest
      → is_lines rest ≡ true
  Found-is_lines l (here {c} {s} {found} {rest} h) = m.leaves_lines (c ∷ s) found rest l h
  Found-is_lines l (later {c} {s} h f) = Found-is_lines (is_lines-tail c s l) f

  match_nil : match [] ≡ none
  match_nil = elim (Option-cases (match [])) [
    | inl e ↦ e
    | inr ((found, rest), e) ↦ absurd (omega (arith, m.shrinks [] found rest e))
  ]

  pub match_newline : (t : Text) → match (newline ∷ t) ≡ none
  match_newline t = m.grows_line [] t ∙ rw match_nil refl

  pub Found-line :
      {s before found rest : Text} (t : Text)
      → Found match s before found rest
      → Found match (s ++ newline ∷ t) before found (rest ++ newline ∷ t)
  Found-line t (here {c} {s} h) = here (m.grows_line (c ∷ s) t ∙ rw h refl)
  Found-line t (later {c} {s} h f) = later (m.grows_line (c ∷ s) t ∙ rw h refl) (Found-line t f)

  pub search_first_line :
      (s : Text) → search_first match s ≡ none → search_first match (s ++ newline ∷ []) ≡ none
  search_first_line [] h = search_first-none match newline [] (match_newline []) h
  search_first_line (c ∷ s) h =
      let (n, t) = search_first_nowhere match c s h in
      search_first-none match c _ (m.grows_line (c ∷ s) [] ∙ rw n refl) (search_first_line s t)
