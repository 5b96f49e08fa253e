-- ===== src/Hls/Iv.antt =====
-- The initialisation vectors of src/hls.c: from a sequence number, and from hexadecimal digits.
pub mod Value
pub mod Length
use hyperflux.Common.{
  ℕ, zero, suc, ◌+◌, ◌-◌, ◌*◌, ◌/◌, ◌%◌, ◌^◌, ◌&&◌, ◌||◌, Option, none, some, List, [], ◌∷◌, leb,
  ◌==◌, if◌then◌else◌, length, set, replicate,
}
use hyperflux.Libc.{Text}
use hyperflux.Hls.{hls_aes_block}

-- The loop from `i`: the bytes go in from the end of `iv`.
unfoldable pub put_bytes : ℕ → ℕ → ℕ → List ℕ → List ℕ
put_bytes zero i seq iv = iv
put_bytes (suc left) i seq iv =
    put_bytes left (suc i) seq (set iv (hls_aes_block - 1 - i) (seq / 2 ^ (8 * i) % 2 ^ 8))

unfoldable pub hls_iv_from_sequence : ℕ → List ℕ
hls_iv_from_sequence seq = put_bytes 8 0 seq (replicate hls_aes_block 0)

-- `none` for -1.
unfoldable pub hex_nibble : ℕ → Option ℕ
hex_nibble c =
    if leb b'0' c && leb c b'9'
    then some (c - b'0')
    else if leb b'a' c && leb c b'f'
    then some (c - b'a' + 10)
    else if leb b'A' c && leb c b'F'
    then some (c - b'A' + 10)
    else none

-- `(hi << 4) | lo` of two numbers below 16 is hi * 16 + lo.
unfoldable pub hex_bytes : Text → Option (List ℕ)
hex_bytes [] = some []
hex_bytes (a ∷ []) = none
hex_bytes (a ∷ b ∷ s) = elim (hex_nibble a) [
  | none ↦ none
  | some hi ↦ elim (hex_nibble b) [
    | none ↦ none
    | some lo ↦ elim (hex_bytes s) [
      | none ↦ none
      | some bytes ↦ some ((hi * 16 + lo) % 2 ^ 8 ∷ bytes)
    ]
  ]
]

abbrev pub prefix_off : Text → Text
prefix_off [] = []
prefix_off (a ∷ []) = a ∷ []
prefix_off (a ∷ b ∷ s) = if a == b'0' && (b == b'x' || b == b'X') then s else a ∷ b ∷ s

unfoldable pub hls_parse_iv : Text → Option (List ℕ)
hls_parse_iv hex =
    if length (prefix_off hex) == hls_aes_block * 2 then hex_bytes (prefix_off hex) else none
