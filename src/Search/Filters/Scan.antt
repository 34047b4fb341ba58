-- ===== src/Search/Filters/Scan.antt =====
-- Reading a `where` text from left to right, in and out of literals and parentheses.
use ever_os.Prelude.{
  eqb, if◌then◌else◌, Option-cases, All, ℕ, zero, suc, ◌≡◌, refl, sym, ◌∙◌, inl, inr, Bool, true,
  false, not, Option, none, some, List, [], ◌∷◌, ◌++◌, arith,
}
use ever_os.Markdown.Text.{Text}
use ever_os.Markdown.Entries.{codes}
use ever_os.Search.Filters.{quote, escape_str, has_quote, quoted, join, parens}

-- One character: whether it is read inside a literal, and how many parentheses are open. `none`: a
-- parenthesis that was open before is closed, or a capital O stands outside all parentheses, as
-- the keyword OR would have it.
unfoldable pub after_char : ℕ → Bool × ℕ → Option (Bool × ℕ)
after_char c (true, depth) = some (not (eqb c quote), depth)
after_char c (false, depth) =
    if eqb c quote
    then some (true, depth)
    else if eqb c 40
    then some (false, suc depth)
    else if eqb c 41
    then elim depth [ zero ↦ none | suc d ↦ some (false, d) ]
    else if eqb c 79
    then elim depth [ zero ↦ none | suc d ↦ some (false, suc d) ]
    else some (false, depth)

unfoldable pub scan : Text → Bool × ℕ → Option (Bool × ℕ)
scan [] state = some state
scan (c ∷ s) state = elim (after_char c state) [ none ↦ none | some next ↦ scan s next ]

-- A text that closes what it opens and nothing else, at any depth: then no OR stands outside the text's own parentheses and literals.
abbrev pub Sealed : Text → Type 0
Sealed s = (depth : ℕ) → scan s (false, depth) ≡ some (false, depth)

-- Inside parentheses.
abbrev pub Nested : Text → Type 0
Nested s = (depth : ℕ) → scan s (false, suc depth) ≡ some (false, suc depth)

pub Sealed-Nested : (s : Text) → Sealed s → Nested s
Sealed-Nested s h depth = h (suc depth)

pub scan-append :
    (s t : Text) (state next : Bool × ℕ)
    → scan s state ≡ some next
    → scan (s ++ t) state ≡ scan t next
unfolding scan
scan-append [] t state next h = cc
scan-append (c ∷ s) t state next h = elim (Option-cases (after_char c state)) [
  | inl e ↦ ground (arith, e, h)
  | inr (mid, e) ↦ rw (e, scan) (scan-append s t mid next (sym (rw (e, scan) refl) ∙ h))
]

pub append-Sealed : (s t : Text) → Sealed s → Sealed t → Sealed (s ++ t)
append-Sealed s t hs ht depth = scan-append s t (false, depth) (false, depth) (hs depth) ∙ ht depth

pub nil-Sealed : Sealed []
unfolding scan
nil-Sealed depth = refl

-- Inside a literal, escaped text is read as text.
scan-escape_str :
    (s t : Text) (depth : ℕ)
    → scan (quote ∷ (escape_str s ++ t)) (false, depth) ≡ scan (quote ∷ t) (false, depth)
unfolding scan after_char escape_str
scan-escape_str [] t depth = refl
scan-escape_str (c ∷ s) t depth = ground (arith, scan-escape_str s t depth)

pub quoted-Sealed : (s : Text) → Sealed (quoted s)
unfolding quoted scan after_char
quoted-Sealed s depth = scan-escape_str s (quote ∷ []) depth ∙ refl

-- Text without a quote is read as text as well.
scan-has_quote :
    (s t : Text) (depth : ℕ)
    → has_quote s ≡ false
    → scan (s ++ t) (true, depth) ≡ scan t (true, depth)
unfolding scan after_char has_quote
scan-has_quote [] t depth h = refl
scan-has_quote (c ∷ s) t depth h = ground (arith, scan-has_quote s t depth)

pub literal-Sealed : (s : Text) → has_quote s ≡ false → Sealed (quote ∷ (s ++ quote ∷ []))
unfolding scan after_char
literal-Sealed s h depth = scan-has_quote s (quote ∷ []) depth h ∙ refl

pub parens-Sealed : (s : Text) → Nested s → Sealed (parens s)
unfolding parens scan after_char
parens-Sealed s h depth =
    scan-append s (codes ")") (false, suc depth) (false, suc depth) (h depth) ∙ refl

pub join-Sealed :
    (glue : Text) (ps : List Text) → Sealed glue → All Sealed ps → Sealed (join glue ps)
unfolding join
join-Sealed glue [] g h = nil-Sealed
join-Sealed glue (p ∷ []) g h = h.0
join-Sealed glue (p ∷ q ∷ ps) g h =
    append-Sealed p (glue ++ join glue (q ∷ ps)) h.0
      (append-Sealed glue (join glue (q ∷ ps)) g (join-Sealed glue (q ∷ ps) g h.1))

pub append-Nested : (s t : Text) → Nested s → Nested t → Nested (s ++ t)
append-Nested s t hs ht depth =
    scan-append s t (false, suc depth) (false, suc depth) (hs depth) ∙ ht depth

pub join-Nested :
    (glue : Text) (ps : List Text) → Nested glue → All Sealed ps → Nested (join glue ps)
unfolding join scan
join-Nested glue [] g h = λ depth. refl
join-Nested glue (p ∷ []) g h = Sealed-Nested p h.0
join-Nested glue (p ∷ q ∷ ps) g h =
    append-Nested p (glue ++ join glue (q ∷ ps)) (Sealed-Nested p h.0)
      (append-Nested glue (join glue (q ∷ ps)) g (join-Nested glue (q ∷ ps) g h.1))
