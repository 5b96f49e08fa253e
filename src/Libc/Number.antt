-- ===== src/Libc/Number.antt =====
-- `strtol` with base 10, and the conversion %d of `sscanf`.
use hyperflux.Common.{
  ℕ, ◌+◌, ◌-◌, ◌*◌, ◌^◌, min, Bool, true, false, ◌&&◌, ◌||◌, Option, none, some, [], ◌∷◌, ltb, leb,
  ◌==◌, if◌then◌else◌,
}
use hyperflux.Libc.{Text}
use hyperflux.Libc.Int.{ℤ, pos, negsuc, to_int32}

abbrev pub is_digit : ℕ → Bool
is_digit c = leb b'0' c && leb c b'9'

-- `isspace` in the C locale.
abbrev pub is_space : ℕ → Bool
is_space c = c == b' ' || leb 9 c && leb c 13

unfoldable pub skip_space : Text → Text
skip_space [] = []
skip_space (c ∷ s) = let rest = skip_space s in if is_space c then rest else c ∷ s

-- The number that the digits at the start stand for, `v` before them, and the rest.
unfoldable pub read_digits : ℕ → Text → ℕ × Text
read_digits v [] = (v, [])
read_digits v (c ∷ s) =
    let rest = read_digits (v * 10 + (c - b'0')) s in if is_digit c then rest else (v, c ∷ s)

-- A `long`: out of range, the nearest one.
abbrev pub to_long : Bool → ℕ → ℤ
to_long negative n =
    if negative && ltb 0 n then negsuc (min n (2 ^ 63) - 1) else pos (min n (2 ^ 63 - 1))

unfoldable pub read_number : Bool → Text → Option (ℤ × Text)
read_number negative [] = none
read_number negative (c ∷ s) =
    let r = read_digits 0 (c ∷ s) in if is_digit c then some (to_long negative r.0, r.1) else none

unfoldable pub read_signed : Text → Option (ℤ × Text)
read_signed [] = none
read_signed (c ∷ s) =
    if c == b'-'
    then read_number true s
    else if c == b'+'
    then read_number false s
    else read_number false (c ∷ s)

-- `strtol(s, &end, 10)`: the number and `end`; 0 and `s` itself without a number.
unfoldable pub strtol : Text → ℤ × Text
strtol s = elim (read_signed (skip_space s)) [ none ↦ (pos 0, s) | some r ↦ r ]

-- The conversion %d into an `int`; `none` for a matching failure. A number that fits no `int` is cut
-- to 32 bits.
unfoldable pub scan_int : Text → Option (ℤ × Text)
scan_int s = elim (read_signed (skip_space s)) [ none ↦ none | some r ↦ some (to_int32 r.0, r.1) ]

abbrev pub is_hex : ℕ → Bool
is_hex c = is_digit c || (leb b'a' c && leb c b'f' || leb b'A' c && leb c b'F')

abbrev pub hex_value : ℕ → ℕ
hex_value c = if is_digit c then c - b'0' else if leb b'a' c then c - b'a' + 10 else c - b'A' + 10

unfoldable pub read_hex : ℕ → Text → ℕ × Text
read_hex v [] = (v, [])
read_hex v (c ∷ s) =
    let rest = read_hex (v * 16 + hex_value c) s in if is_hex c then rest else (v, c ∷ s)

unfoldable pub read_octal : ℕ → Text → ℕ × Text
read_octal v [] = (v, [])
read_octal v (c ∷ s) =
    let rest = read_octal (v * 8 + (c - b'0')) s in
    if leb b'0' c && leb c b'7' then rest else (v, c ∷ s)

-- Behind a 0: "x" and hexadecimal digits, or octal digits.
unfoldable pub read_zero : Text → Option (ℕ × Text)
read_zero [] = some (0, [])
read_zero (x ∷ []) = if x == b'x' || x == b'X' then none else some (read_octal 0 (x ∷ []))
read_zero (x ∷ c ∷ s) =
    if x == b'x' || x == b'X'
    then if is_hex c then some (read_hex 0 (c ∷ s)) else none
    else some (read_octal 0 (x ∷ c ∷ s))

-- The digits of the conversion %i, whose base is told by how they start.
unfoldable pub read_based : Text → Option (ℕ × Text)
read_based [] = none
read_based (c ∷ s) =
    if c == b'0' then read_zero s else if is_digit c then some (read_digits 0 (c ∷ s)) else none

abbrev pub signed : Bool → Option (ℕ × Text) → Option ℤ
signed negative none = none
signed negative (some r) = some (to_int32 (to_long negative r.0))

-- The conversion %i into an `int`.
unfoldable pub scan_based : Text → Option ℤ
scan_based s = elim (skip_space s) [
  | [] ↦ none
  | c ∷ rest ↦
      if c == b'-'
      then signed true (read_based rest)
      else if c == b'+'
      then signed false (read_based rest)
      else signed false (read_based (c ∷ rest))
]
