-- ===== src/Http/Header.antt =====
-- `http_header`, `http_size` and `http_size_from_range` of src/http.c.
pub mod Lines
use hyperflux.Common.{
  ℕ, zero, suc, Bool, true, false, not, ◌&&◌, Option, none, some, [], ◌∷◌, ◌==◌, if◌then◌else◌,
  length,
}
use hyperflux.Libc.{Text, after_prefix_nocase, cut_at}
use hyperflux.Libc.Int.{ℤ, pos, negsuc}
use hyperflux.Libc.Number.{strtol}

-- The two loops: past the end of a line, and what stands behind the header at the start of one.
unfoldable pub past_line : Text → Text
past_line [] = []
past_line (c ∷ s) = if c == b'\n' then s else past_line s

unfoldable pub header_from : ℕ → Text → Text → Option Text
header_from zero header p = none
header_from (suc fuel) header p = elim (after_prefix_nocase header p) [
  | some rest ↦ some rest
  | none ↦ elim (past_line p) [ [] ↦ none | c ∷ s ↦ header_from fuel header (c ∷ s) ]
]

-- Each line has a byte or more, so the length of the text is fuel enough.
unfoldable pub http_header : Text → Text → Option Text
http_header headers header = header_from (suc (length headers)) header headers

-- The 64-bit number is `strtoll`'s; without digits `sscanf` leaves `j` as it was, which is arbitrary.
unfoldable pub http_size : ℤ → Text → ℤ
http_size arbitrary headers =
    elim (http_header headers (
      b'C' ∷ b'o' ∷ b'n' ∷ b't' ∷ b'e' ∷ b'n' ∷ b't' ∷ b'-' ∷ b'L' ∷ b'e' ∷ b'n' ∷ b'g' ∷ b't'
      ∷ b'h' ∷ b':' ∷ [])) [
        | none ↦ negsuc 1
        | some i ↦ if length (strtol i).1 == length i then arbitrary else (strtol i).0
      ]

abbrev pub is_zero_ℤ : ℤ → Bool
is_zero_ℤ (pos zero) = true
is_zero_ℤ (pos (suc n)) = false
is_zero_ℤ (negsuc n) = false

abbrev pub starts_with_zero : Text → Bool
starts_with_zero [] = false
starts_with_zero (c ∷ s) = c == b'0'

unfoldable pub http_size_from_range : Text → ℤ
http_size_from_range headers =
    elim (http_header headers (
      b'C' ∷ b'o' ∷ b'n' ∷ b't' ∷ b'e' ∷ b'n' ∷ b't' ∷ b'-' ∷ b'R' ∷ b'a' ∷ b'n' ∷ b'g' ∷ b'e'
      ∷ b':' ∷ [])) [
        | none ↦ negsuc 1
        | some i ↦ elim (cut_at b'/' i) [
          | none ↦ negsuc 1
          | some p ↦
              if is_zero_ℤ (strtol p.1).0 && not (starts_with_zero p.1)
              then negsuc 2
              else (strtol p.1).0
        ]
      ]
