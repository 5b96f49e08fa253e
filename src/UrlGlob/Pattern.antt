-- ===== src/UrlGlob/Pattern.antt =====
-- The builders of src/url_glob.c: what a group in braces or brackets stands for.
pub mod Ranges
use hyperflux.Common.{
  ℕ, zero, suc, ◌+◌, ◌-◌, ◌*◌, ◌/◌, ◌%◌, max, Bool, true, false, not, ◌&&◌, ◌||◌, Option, none,
  some, List, [], ◌∷◌, map, ltb, leb, ◌==◌, if◌then◌else◌, length, take, drop,
}
use mathlib.Core.Option
use hyperflux.UrlGlob.{Bytes, url_glob_max_urls, Built, literal, error, alts}
use hyperflux.UrlGlob.Number.{parse_uint, format_padded}

-- `memchr`, as the index.
unfoldable pub index_of : ℕ → Bytes → Option ℕ
index_of c [] = none
index_of c (x ∷ xs) = if x == c then some 0 else Option.map suc (index_of c xs)

-- `mem_find` with "..", as the index.
unfoldable pub find_dots : Bytes → Option ℕ
find_dots [] = none
find_dots (x ∷ []) = none
find_dots (x ∷ y ∷ ys) =
    if x == b'.' && y == b'.' then some 0 else Option.map suc (find_dots (y ∷ ys))

-- The parts of a list, cut at the commas.
unfoldable pub cut_front : ℕ → List Bytes → List Bytes
cut_front c [] = (c ∷ []) ∷ []
cut_front c (x ∷ xs) = (c ∷ x) ∷ xs

unfoldable pub split_commas : Bytes → List Bytes
split_commas [] = [] ∷ []
split_commas (c ∷ cs) =
    let rest = split_commas cs in if c == b',' then [] ∷ rest else cut_front c rest

unfoldable pub count_commas : Bytes → ℕ
count_commas [] = 0
count_commas (c ∷ cs) = (if c == b',' then 1 else 0) + count_commas cs

unfoldable pub build_list : Bytes → Built
build_list c = if ltb url_glob_max_urls (1 + count_commas c) then error else alts (split_commas c)

-- The parts of a range: its start, its end and its step, if there is one.
pub record Parts : Type 0 where
  pub start : Bytes
  pub end : Bytes
  pub step : Option Bytes

unfoldable pub split_braces : Bytes → Option Parts
split_braces c = elim (find_dots c) [
  | none ↦ none
  | some i ↦
      let rest = drop (i + 2) c in
      some (elim (find_dots rest) [
        | some j ↦ record { start = take i c; end = take j rest; step = some (drop (j + 2) rest) }
        | none ↦ record { start = take i c; end = rest; step = none }
      ])
]

unfoldable pub split_brackets : Bytes → Option Parts
split_brackets c = elim (index_of b'-' c) [
  | none ↦ none
  | some i ↦
      let rest = drop (i + 1) c in
      some (elim (index_of b':' rest) [
        | some j ↦ record { start = take i c; end = take j rest; step = some (drop (j + 1) rest) }
        | none ↦ record { start = take i c; end = rest; step = none }
      ])
]

-- `isalpha` in the C locale.
unfoldable pub is_alpha : ℕ → Bool
is_alpha c = leb b'a' c && leb c b'z' || leb b'A' c && leb c b'Z'

-- `stepv`, or `none` where the step makes the group no range.
unfoldable pub step_value : Option Bytes → Option ℕ
step_value none = some 1
step_value (some s) = elim (parse_uint s) [
  | none ↦ none
  | some v ↦ if ltb v 1 then none else some v
]

-- `lo` and `hi`, with whether they are letters; `none` for no range.
unfoldable pub single_letters : Bytes → Bytes → Option (Bool × ℕ × ℕ)
single_letters (a ∷ []) (b ∷ []) = if is_alpha a && is_alpha b then some (true, a, b) else none
single_letters _ _ = none

unfoldable pub range_ends : Bytes → Bytes → Option (Bool × ℕ × ℕ)
range_ends start end = elim (parse_uint start) [
  | none ↦ single_letters start end
  | some lo ↦ elim (parse_uint end) [
    | none ↦ single_letters start end
    | some hi ↦ some (false, lo, hi)
  ]
]

unfoldable pub starts_with_zero : Bytes → Bool
starts_with_zero [] = false
starts_with_zero (c ∷ cs) = c == b'0'

-- `width`
unfoldable pub pad_width : Bytes → Bytes → ℕ
pad_width start end =
    if ltb 1 (length start) && starts_with_zero start || ltb 1 (length end) && starts_with_zero end
    then max (length start) (length end)
    else 0

-- `v` for the `k`-th item.
unfoldable pub range_value : ℕ → ℕ → ℕ → ℕ → ℕ
range_value lo hi step k = if leb lo hi then lo + k * step else lo - k * step

unfoldable pub range_count : ℕ → ℕ → ℕ → ℕ
range_count lo hi step = (if leb lo hi then hi - lo else lo - hi) / step + 1

-- One item. `none` where it does not fit the buffer of 32 bytes.
unfoldable pub range_item : Bool → ℕ → ℕ → Option Bytes
range_item alpha width v =
    let text = if alpha then (v % 256) ∷ [] else format_padded width v in
    if leb 32 (length text) then none else some text

-- The loop over `k`.
unfoldable pub range_items : Bool → ℕ → ℕ → ℕ → ℕ → ℕ → ℕ → Option (List Bytes)
range_items alpha width lo hi step zero k = some []
range_items alpha width lo hi step (suc n) k =
    elim (range_item alpha width (range_value lo hi step k)) [
      | none ↦ none
      | some text ↦ Option.map (◌∷◌ text) (range_items alpha width lo hi step n (k + 1))
    ]

unfoldable pub build_items : Bool → ℕ → ℕ → ℕ → ℕ → Built
build_items alpha width lo hi step =
    if ltb url_glob_max_urls (range_count lo hi step)
    then error
    else elim (range_items alpha width lo hi step (range_count lo hi step) 0) [
      | none ↦ error
      | some items ↦ alts items
    ]

unfoldable pub build_parts : ℕ → Parts → Built
build_parts open_char p = elim (step_value p.step) [
  | none ↦ literal
  | some step ↦ elim (range_ends p.start p.end) [
    | none ↦ literal
    | some (alpha, lo, hi) ↦
        if open_char == b'[' && not (leb lo hi)
        then literal
        else build_items alpha (if alpha then 0 else pad_width p.start p.end) lo hi step
  ]
]

unfoldable pub build_range : ℕ → Bytes → Built
build_range open_char c = elim (if open_char == b'{' then split_braces c else split_brackets c) [
  | none ↦ literal
  | some p ↦ build_parts open_char p
]

unfoldable pub is_some : Option ℕ → Bool
is_some none = false
is_some (some i) = true

unfoldable pub build_pattern : ℕ → Bytes → Built
build_pattern open_char c =
    if open_char == b'{'
    then (if is_some (find_dots c)
        then build_range open_char c
        else if is_some (index_of b',' c)
        then build_list c
        else literal)
    else build_range open_char c
