-- ===== src/Http/Header/Lines.antt =====
-- `http_header` on headers that are written line by line.
use hyperflux.Common.{
  ℕ, zero, suc, ◌≤◌, ◌≡◌, refl, sym, ap, ◌∙◌, inl, inr, Bool, true, false, Option, none, some, List,
  [], ◌∷◌, ◌++◌, arith, ◌==◌, Bool-cases, Option-cases, length, length-append, Every,
}
use hyperflux.Libc.{Text, after_prefix_nocase, to_lower}
use hyperflux.Libc.Cuts.{Free, text_of}
use hyperflux.Http.Header.{past_line, header_from, http_header}

abbrev is_newline : ℕ → Bool
is_newline c = c == b'\n'

-- What stands behind the header in the first line that starts with it, in any case of its letters.
unfoldable pub first_line : Text → List Text → Option Text
first_line header [] = none
first_line header (line ∷ rest) = elim (after_prefix_nocase header line) [
  | some value ↦ some (value ++ (b'\n' ∷ text_of rest))
  | none ↦ first_line header rest
]

nocase_same :
    (p c : ℕ) (ps s : Text)
    → (to_lower p == to_lower c) ≡ true
    → after_prefix_nocase (p ∷ ps) (c ∷ s) ≡ after_prefix_nocase ps s
unfolding after_prefix_nocase
nocase_same p c ps s e = rw (e, after_prefix_nocase) refl

nocase_ne :
    (p c : ℕ) (ps s : Text)
    → (to_lower p == to_lower c) ≡ false
    → after_prefix_nocase (p ∷ ps) (c ∷ s) ≡ none
unfolding after_prefix_nocase
nocase_ne p c ps s e = rw (e, after_prefix_nocase) refl

abbrev onto : Text → Option Text → Option Text
onto after none = none
onto after (some value) = some (value ++ after)

-- The header is not found across the end of a line.
nocase-append :
    (header line after : Text)
    → Free is_newline header
    → after_prefix_nocase header (line ++ (b'\n' ∷ after))
      ≡ onto (b'\n' ∷ after) (after_prefix_nocase header line)
unfolding Free
nocase-append [] line after free = unfold after_prefix_nocase in refl
nocase-append (p ∷ ps) [] after free =
    nocase_ne p b'\n' ps after (ground (arith, free.0)) ∙ (unfold after_prefix_nocase in refl)
nocase-append (p ∷ ps) (c ∷ line) after free = elim (Bool-cases (to_lower p == to_lower c)) [
  | inl e ↦
      nocase_same p c ps (line ++ (b'\n' ∷ after)) e
      ∙ nocase-append ps line after free.1
      ∙ ap (onto (b'\n' ∷ after)) (sym (nocase_same p c ps line e))
  | inr e ↦
      nocase_ne p c ps (line ++ (b'\n' ∷ after)) e
      ∙ ap (onto (b'\n' ∷ after)) (sym (nocase_ne p c ps line e))
]

past_line-append :
    (line after : Text) → Free is_newline line → past_line (line ++ (b'\n' ∷ after)) ≡ after
unfolding past_line Free
past_line-append [] after free = refl
past_line-append (c ∷ line) after free = rw free.0 (past_line-append line after free.1)

header_from-some :
    (fuel : ℕ) (header p value : Text)
    → after_prefix_nocase header p ≡ some value
    → header_from (suc fuel) header p ≡ some value
unfolding header_from
header_from-some fuel header p value e = rw (e, header_from) refl

-- The search in the next line, if there is one.
next_line : ℕ → Text → Text → Option Text
next_line fuel header [] = none
next_line fuel header (c ∷ s) = header_from fuel header (c ∷ s)

header_from-none :
    (fuel : ℕ) (header p : Text)
    → after_prefix_nocase header p ≡ none
    → header_from (suc fuel) header p ≡ next_line fuel header (past_line p)
unfolding header_from next_line
header_from-none fuel header p e = rw (e, header_from) refl

next_line-append :
    (fuel : ℕ) (header line after : Text)
    → next_line fuel header (line ++ (b'\n' ∷ after))
      ≡ header_from fuel header (line ++ (b'\n' ∷ after))
unfolding next_line
next_line-append fuel header [] after = refl
next_line-append fuel header (c ∷ line) after = refl

header_from-lines :
    (fuel : ℕ) (header : Text) (lines : List Text)
    → Free is_newline header
    → Every (Free is_newline) lines
    → length (text_of lines) ≤ fuel
    → next_line fuel header (text_of lines) ≡ first_line header lines
unfolding text_of Every first_line
header_from-lines fuel header [] free h enough = unfold next_line in refl
header_from-lines zero header (line ∷ rest) free h enough =
    absurd (omega (arith, enough, length-append line (b'\n' ∷ text_of rest)))
header_from-lines (suc fuel) header (line ∷ rest) free h enough =
    let after = text_of rest in
    let read = nocase-append header line after free in
    let room : length after ≤ fuel = omega (arith, enough, length-append line (b'\n' ∷ after)) in
    next_line-append (suc fuel) header line after
    ∙ elim (Option-cases (after_prefix_nocase header line)) [
      | inr (value, e) ↦
          rw (e, first_line)
            (header_from-some fuel header _ (value ++ (b'\n' ∷ after))
              (read ∙ ap (onto (b'\n' ∷ after)) e))
      | inl e ↦
          rw (e, first_line)
            (header_from-none fuel header _ (read ∙ ap (onto (b'\n' ∷ after)) e)
              ∙ ap (next_line fuel header) (past_line-append line after h.0)
              ∙ header_from-lines fuel header rest free h.1 room)
    ]

-- In headers that are written line by line, `http_header` finds the first line that starts with the
-- header asked for, in any case of its letters, and gives what stands behind it. There is a line, and
-- the header has no newline.
pub http_header-first_line :
    (header line : Text) (rest : List Text)
    → Free is_newline header
    → Every (Free is_newline) (line ∷ rest)
    → http_header (text_of (line ∷ rest)) header ≡ first_line header (line ∷ rest)
unfolding http_header text_of
http_header-first_line header line rest free h =
    sym (next_line-append (suc (length (text_of (line ∷ rest)))) header line (text_of rest))
    ∙ header_from-lines (suc (length (text_of (line ∷ rest)))) header (line ∷ rest) free h
        (omega arith)
