-- ===== src/UrlGlob/Number.antt =====
-- Decimal numbers in src/url_glob.c: `parse_uint`, and `snprintf` with "%0*ld".
pub mod Value
pub mod Print
use hyperflux.Common.{
  ℕ, zero, suc, ◌+◌, ◌-◌, ◌*◌, ◌/◌, ◌%◌, ◌^◌, Bool, not, ◌&&◌, ◌||◌, Option, none, some, [], ◌∷◌,
  ◌++◌, ltb, leb, ◌==◌, if◌then◌else◌, length, replicate,
}
use hyperflux.UrlGlob.{Bytes}

abbrev pub is_digit : ℕ → Bool
is_digit c = leb b'0' c && leb c b'9'

-- LONG_MAX
abbrev pub long_max : ℕ
long_max = 2 ^ 63 - 1

-- The loop of `parse_uint`: `v` is an `unsigned long long`.
unfoldable pub parse_digits : ℕ → Bytes → Option ℕ
parse_digits v [] = some v
parse_digits v (c ∷ cs) =
    let v' = (v * 10 + (c - b'0')) % 2 ^ 64 in
    let rest = parse_digits v' cs in
    if not (is_digit c) then none else if ltb long_max v' then none else rest

-- `none` for -1.
unfoldable pub parse_uint : Bytes → Option ℕ
parse_uint s = if length s == 0 || ltb 19 (length s) then none else parse_digits 0 s

-- The digits of a number below 10 ^ fuel.
unfoldable pub decimal_digits : ℕ → ℕ → Bytes
decimal_digits zero n = []
decimal_digits (suc fuel) n =
    let front = decimal_digits fuel (n / 10) in
    if ltb n 10 then (b'0' + n) ∷ [] else front ++ ((b'0' + n % 10) ∷ [])

-- A `long` that is not negative has 19 digits at most.
unfoldable pub decimal : ℕ → Bytes
decimal n = decimal_digits 20 n

-- "%0*ld": zeros on the left up to a width.
unfoldable pub format_padded : ℕ → ℕ → Bytes
format_padded width n = let d = decimal n in replicate (width - length d) b'0' ++ d
