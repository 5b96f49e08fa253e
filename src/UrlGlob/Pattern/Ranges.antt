-- ===== src/UrlGlob/Pattern/Ranges.antt =====
-- The items of a numeric range are the numbers of the range.
use hyperflux.Common.{
  ℕ, zero, suc, ◌+◌, ◌-◌, ◌*◌, ◌/◌, ◌≤◌, ◌<◌, ◌≡◌, refl, true, false, some, List, [], ◌∷◌, arith,
  dec_le, ltb, leb, length,
}
use native.Mathlib.Nat.{div-add-mod, mod-lt}
use hyperflux.UrlGlob.{Bytes, url_glob_max_urls, error, alts}
use hyperflux.UrlGlob.Number.{long_max, parse_uint, format_padded}
use hyperflux.UrlGlob.Number.Print.{parse_uint-format_padded, length-format_padded}
use hyperflux.UrlGlob.Pattern.{range_value, range_count, range_item, range_items, build_items}

steps_fit :
    (span step k : ℕ)
    → 0 < step
    → k < span / step + 1
    → (k * step ≤ span) × (span < (span / step + 1) * step)
steps_fit span step k s h =
    let split = div-add-mod span step in
    let fewer : k * step ≤ span / step * step = grind arith in
    (grind (arith, split), grind (arith, split, mod-lt span s))

-- The values go from one end towards the other and do not pass it, and one more would.
pub range_value_bounds :
    (lo hi step k : ℕ)
    → 0 < step
    → k < range_count lo hi step
    → (lo ≤ hi
        → (lo ≤ range_value lo hi step k)
          × (range_value lo hi step k ≤ hi)
          × (hi < lo + range_count lo hi step * step))
      × (hi < lo
          → (hi ≤ range_value lo hi step k)
            × (range_value lo hi step k ≤ lo)
            × (lo < hi + range_count lo hi step * step))
unfolding range_value range_count
range_value_bounds lo hi step k s h = (
  λ up.
      let t : leb lo hi ≡ true = ground arith in
      let (inside, beyond) = steps_fit (hi - lo) step k s (rw t at h) in
      rw t (omega arith, omega (arith, inside), omega (arith, beyond)),
  λ down.
      let t : leb lo hi ≡ false = ground arith in
      let (inside, beyond) = steps_fit (lo - hi) step k s (rw t at h) in
      rw t (omega (arith, inside), omega arith, omega (arith, beyond)),
)

-- No value is outside what a `long` holds.
range_value-le :
    (lo hi step k : ℕ)
    → 0 < step
    → k < range_count lo hi step
    → lo ≤ long_max
    → hi ≤ long_max
    → range_value lo hi step k ≤ long_max
range_value-le lo hi step k s h a b =
    let (up, down) = range_value_bounds lo hi step k s h in
    elim (dec_le lo hi) [
      | yes u ↦ omega (arith, (up u).1)
      | no d ↦ omega (arith, (down (omega arith)).1)
    ]

-- `texts` are the numbers from the `k`-th value on, `n` of them.
abbrev pub AreNumbers : ℕ → ℕ → ℕ → ℕ → List Bytes → Type 0
AreNumbers lo hi step k [] = Unit {0}
AreNumbers lo hi step k (t ∷ ts) =
    (parse_uint t ≡ some (range_value lo hi step k)) × AreNumbers lo hi step (k + 1) ts

module _ (width lo hi step : ℕ) (w : width ≤ 19) (s : 0 < step) (a : lo ≤ long_max)
    (b : hi ≤ long_max) where
  range_item-some :
      (k : ℕ)
      → k < range_count lo hi step
      → range_item false width (range_value lo hi step k)
        ≡ some (format_padded width (range_value lo hi step k))
  unfolding range_item
  range_item-some k h =
      let v = range_value lo hi step k in
      let fits = length-format_padded width v w (range_value-le lo hi step k s h a b) in
      ground (arith, fits)

  range_items-some :
      (n k : ℕ)
      → k + n ≤ range_count lo hi step
      → (ts : List Bytes) × (range_items false width lo hi step n k ≡ some ts)
        × (length ts ≡ n)
        × AreNumbers lo hi step k ts
  unfolding range_items
  range_items-some zero k h = ([], refl, refl, tt)
  range_items-some (suc n) k h =
      let v = range_value lo hi step k in
      let here = range_item-some k (omega arith) in
      let (ts, eq, len, rest) = range_items-some n (k + 1) (omega arith) in
      (
        format_padded width v ∷ ts,
        rw (here, range_items) (rw eq refl),
        omega arith,
        (
          parse_uint-format_padded width v w (range_value-le lo hi step k s (omega arith) a b),
          rest,
        ),
      )

  -- A numeric range of at most 10000 numbers becomes as many texts, each of which reads as the
  -- number of its place in the range; a longer one is an error.
  pub build_items-AreNumbers :
      (range_count lo hi step ≤ url_glob_max_urls
        → (ts : List Bytes) × (build_items false width lo hi step ≡ alts ts)
          × (length ts ≡ range_count lo hi step)
          × AreNumbers lo hi step 0 ts)
      × (url_glob_max_urls < range_count lo hi step → build_items false width lo hi step ≡ error)
  unfolding build_items
  build_items-AreNumbers = (
    λ few.
        let t : ltb url_glob_max_urls (range_count lo hi step) ≡ false = ground arith in
        let (ts, eq, len, num) = range_items-some (range_count lo hi step) 0 (omega arith) in
        (ts, rw t (rw eq refl), len, num),
    λ many.
        let t : ltb url_glob_max_urls (range_count lo hi step) ≡ true = ground arith in rw t refl,
  )
