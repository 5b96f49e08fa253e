-- ===== src/UrlGlob/Expand.antt =====
-- The generating loop of `url_glob` in src/url_glob.c: an odometer over the patterns.
pub mod Cartesian
pub mod Odometer
pub mod Equivalence
pub mod Total
use hyperflux.Common.{
  ℕ, zero, suc, ◌+◌, ◌*◌, Bool, true, false, not, Option, none, some, List, [], ◌∷◌, ◌++◌, ltb, leb,
  ◌==◌, if◌then◌else◌, length, get_or,
}
use hyperflux.UrlGlob.{Bytes}
use hyperflux.UrlGlob.Scan.{Seg, lit, pat, scan}

-- `url_glob_t`
pub record Item : Type 0 where
  pub url : Bytes
  pub caps : List Bytes

unfoldable pub patterns : List Seg → List (List Bytes)
patterns [] = []
patterns (lit l ∷ segs) = patterns segs
patterns (pat texts ∷ segs) = texts ∷ patterns segs

unfoldable pub product_of : List (List Bytes) → ℕ
product_of [] = 1
product_of (p ∷ ps) = length p * product_of ps

-- The loop over the segments for one URL: `none` where it does not fit in `max_len` bytes.
unfoldable pub render : ℕ → Bytes → List Seg → List ℕ → Option Bytes
render max_len buf [] idx = some buf
render max_len buf (lit l ∷ segs) idx =
    let rest = render max_len (buf ++ l) segs idx in
    if leb max_len (length buf + length l) then none else rest
render max_len buf (pat texts ∷ segs) [] = none
render max_len buf (pat texts ∷ segs) (i ∷ idx) =
    let text = get_or texts i [] in
    let rest = render max_len (buf ++ text) segs idx in
    if leb max_len (length buf + length text) then none else rest

-- The captures.
unfoldable pub captures : List (List Bytes) → List ℕ → List Bytes
captures [] idx = []
captures (p ∷ ps) [] = []
captures (p ∷ ps) (i ∷ idx) = get_or p i [] ∷ captures ps idx

-- The step of the odometer, the last index first; the flag says that all the indices wrapped.
unfoldable pub advance : List (List Bytes) → List ℕ → List ℕ × Bool
advance [] idx = ([], true)
advance (p ∷ ps) [] = ([], true)
advance (p ∷ ps) (i ∷ idx) =
    let (idx', wrapped) = advance ps idx in
    if not wrapped
    then (i ∷ idx', false)
    else if ltb (i + 1) (length p)
    then ((i + 1) ∷ idx', false)
    else (0 ∷ idx', true)

-- The loop over `n`: `count` items from the indices `idx` on.
unfoldable pub generate : ℕ → List Seg → ℕ → List ℕ → Option (List Item)
generate max_len segs zero idx = some []
generate max_len segs (suc count) idx = elim (render max_len [] segs idx) [
  | none ↦ none
  | some url ↦ elim (generate max_len segs count (advance (patterns segs) idx).0) [
    | none ↦ none
    | some items ↦ some (record { url = url; caps = captures (patterns segs) idx } ∷ items)
  ]
]

unfoldable pub zeros : List (List Bytes) → List ℕ
zeros [] = []
zeros (p ∷ ps) = 0 ∷ zeros ps

-- `none` for -1.
unfoldable pub url_glob : Bytes → ℕ → Option (List Item)
url_glob src max_len = if max_len == 0 then none else elim (scan (length src + 1) 1 [] src) [
  | none ↦ none
  | some (segs, product) ↦ generate max_len segs product (zeros (patterns segs))
]
