-- ===== src/Extractor/Tokens.antt =====
-- The pieces of a line of a configuration, in src/extractor.c.
use hyperflux.Common.{
  ℕ, Bool, true, ◌&&◌, ◌||◌, Option, none, some, List, [], ◌∷◌, ◌==◌, if◌then◌else◌,
}
use hyperflux.Extractor.{Text}

abbrev pub is_blank : ℕ → Bool
is_blank c = c == b' ' || c == b'\t'

-- The whitespace of `trim`.
abbrev pub is_space : ℕ → Bool
is_space c = c == b' ' || (c == b'\t' || c == b'\r')

unfoldable pub trim_start : Text → Text
trim_start [] = []
trim_start (c ∷ s) = let rest = trim_start s in if is_space c then rest else c ∷ s

unfoldable pub trim_end : Text → Text
trim_end [] = []
trim_end (c ∷ s) = elim (trim_end s) [ [] ↦ if is_space c then [] else c ∷ [] | d ∷ t ↦ c ∷ d ∷ t ]

unfoldable pub trim : Text → Text
trim s = trim_end (trim_start s)

-- The loop of `strip_comment`.
unfoldable pub strip_from : Bool → Text → Text
strip_from prev_ws [] = []
strip_from prev_ws (c ∷ s) =
    let rest = strip_from (is_blank c) s in if c == b'#' && prev_ws then [] else c ∷ rest

unfoldable pub strip_comment : Text → Text
strip_comment s = strip_from true s

unfoldable pub blanks_off : Text → Text
blanks_off [] = []
blanks_off (c ∷ s) = let rest = blanks_off s in if is_blank c then rest else c ∷ s

-- The bytes up to a blank, and those behind the blank.
unfoldable pub word : Text → Text × Text
word [] = ([], [])
word (c ∷ s) = let (w, after) = word s in if is_blank c then ([], s) else (c ∷ w, after)

-- The token, empty for NULL, and `*cur`.
unfoldable pub next_token : Text → Text × Text
next_token s = elim (blanks_off s) [ [] ↦ ([], s) | c ∷ rest ↦ word (c ∷ rest) ]

-- The lines of the text, in which a last newline starts no other one.
unfoldable pub onto_line : ℕ → List Text → List Text
onto_line c [] = (c ∷ []) ∷ []
onto_line c (l ∷ ls) = (c ∷ l) ∷ ls

unfoldable pub lines : Text → List Text
lines [] = []
lines (c ∷ s) = if c == b'\n' then [] ∷ lines s else onto_line c (lines s)

-- `strchr(kv, '=')`: what stands before the sign and after it; `none` if it is missing or first.
unfoldable pub cut_at_equals : Text → Option (Text × Text)
cut_at_equals [] = none
cut_at_equals (c ∷ s) =
    let rest = cut_at_equals s in
    if c == b'=' then none else elim s [
      | [] ↦ none
      | d ∷ t ↦
          if d == b'='
          then some (c ∷ [], t)
          else elim rest [ none ↦ none | some kv ↦ some (c ∷ kv.0, kv.1) ]
    ]
