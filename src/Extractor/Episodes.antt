-- ===== src/Extractor/Episodes.antt =====
-- `extractor_parse_episodes` of src/extractor.c: a selection such as "1,3-5,8".
pub mod Total
pub mod Ranges
pub mod Written
use hyperflux.Common.{
  ℕ, zero, suc, ◌+◌, ◌-◌, ◌*◌, Bool, true, false, ◌&&◌, ◌||◌, Option, none, some, List, [], ◌∷◌,
  ltb, leb, ◌==◌, if◌then◌else◌, length, replicate,
}
use hyperflux.Extractor.{Text, extractor_max_episodes}
use hyperflux.UrlGlob.Number.{is_digit}

-- The digits of `parse_uint`, with its clamp.
unfoldable pub digits_from : ℕ → Text → ℕ × Text
digits_from v [] = (v, [])
digits_from v (c ∷ s) =
    let v' = v * 10 + (c - b'0') in
    let clamped = if ltb (extractor_max_episodes + 1) v' then extractor_max_episodes + 1 else v' in
    let rest = digits_from clamped s in if is_digit c then rest else (v, c ∷ s)

-- `parse_uint`; `none` for -1.
unfoldable pub parse_number : Text → Option (ℕ × Text)
parse_number [] = none
parse_number (c ∷ s) = if is_digit c then some (digits_from 0 (c ∷ s)) else none

unfoldable pub skip_blanks : Text → Text
skip_blanks [] = []
skip_blanks (c ∷ s) = let rest = skip_blanks s in if c == b' ' || c == b'\t' then rest else c ∷ s

-- A number that is tested against its bounds; `none` for `ok = 0`.
unfoldable pub number_within : ℕ → ℕ → Text → Option (ℕ × Text)
number_within low count s = elim (parse_number s) [
  | none ↦ none
  | some (v, after) ↦ if ltb v low || ltb count v then none else some (v, after)
]

-- The end of a range that starts at `a`: `a` itself without a '-'.
unfoldable pub range_end : ℕ → ℕ → Text → Option (ℕ × Text)
range_end count a [] = some (a, [])
range_end count a (c ∷ s) =
    if c == b'-' then number_within a count (skip_blanks s) else some (a, c ∷ s)

-- The loop that sets `sel[a - 1]` to `sel[b - 1]`; `i` is the index of the first entry.
unfoldable pub mark : ℕ → ℕ → ℕ → List Bool → List Bool
mark i a b [] = []
mark i a b (x ∷ sel) = (x || leb a (i + 1) && leb (i + 1) b) ∷ mark (i + 1) a b sel

-- One pass of the loop: the range and the text behind it.
unfoldable pub parse_range : ℕ → Text → Option ((ℕ × ℕ) × Text)
parse_range count s = elim (number_within 1 count (skip_blanks s)) [
  | none ↦ none
  | some (a, s1) ↦ elim (range_end count a (skip_blanks s1)) [
    | none ↦ none
    | some (b, s2) ↦ some ((a, b), skip_blanks s2)
  ]
]

-- The loop; `none` for `ok = 0`.
unfoldable pub select_from : ℕ → ℕ → Text → List Bool → Option (List Bool)
select_from zero count s sel = none
select_from (suc fuel) count [] sel = some sel
select_from (suc fuel) count (c ∷ s) sel = elim (parse_range count (c ∷ s)) [
  | none ↦ none
  | some ((a, b), []) ↦ some (mark 0 a b sel)
  | some ((a, b), d ∷ after) ↦ elim (d == b',') [
    | true ↦ select_from fuel count after (mark 0 a b sel)
    | false ↦ none
  ]
]

unfoldable pub selected : List Bool → ℕ
selected [] = 0
selected (x ∷ sel) = if x then suc (selected sel) else selected sel

-- `none` for -1.
unfoldable pub parse_episodes : Text → ℕ → Option (List Bool × ℕ)
parse_episodes spec count =
    if count == 0
    then none
    else elim (select_from (length spec + 1) count spec (replicate count false)) [
      | none ↦ none
      | some sel ↦ if selected sel == 0 then none else some (sel, selected sel)
    ]
