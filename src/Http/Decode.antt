-- ===== src/Http/Decode.antt =====
-- `http_decode` of src/http.c. A `char` is signed: a byte from 128 on compares as a negative number.
use hyperflux.Common.{
  ℕ, ◌+◌, ◌-◌, ◌*◌, ◌/◌, ◌%◌, ◌<◌, ◌≡◌, refl, ap, ap₂, ◌∙◌, inl, inr, Bool, true, false, ◌||◌, [],
  ◌∷◌, arith, ltb, leb, ◌==◌, if◌then◌else◌, all_below, all_below-lt, Bool-cases,
}
use Prim.Native.Nat.{bit_or}
use hyperflux.Libc.{Text}

-- The `char` as the byte that it is stored in.
unfoldable pub decode_nibble : ℕ → ℕ
decode_nibble n =
    if leb n b'9' || leb 128 n
    then (n + 256 - b'0') % 256
    else if leb b'a' n
    then (n - 32 + 256 - b'A' + 10) % 256
    else (n + 256 - b'A' + 10) % 256

-- `(decode_nibble(s[1]) << 4) | decode_nibble(s[2])`, stored as a byte.
unfoldable pub decode_byte : ℕ → ℕ → ℕ
decode_byte a b = bit_or (decode_nibble a * 16 % 256) (decode_nibble b)

-- A '%' without two bytes behind it ends the text.
unfoldable pub http_decode : Text → Text
http_decode [] = []
http_decode (c ∷ []) = if c == b'%' then [] else c ∷ []
http_decode (c ∷ a ∷ []) = let rest = http_decode (a ∷ []) in if c == b'%' then [] else c ∷ rest
http_decode (c ∷ a ∷ b ∷ s) =
    let decoded = http_decode s in
    let kept = http_decode (a ∷ b ∷ s) in if c == b'%' then decode_byte a b ∷ decoded else c ∷ kept

-- A text in which the bytes of `reserved` are written as '%' and two hexadecimal digits.
unfoldable pub hex_digit : ℕ → ℕ
hex_digit n = if ltb n 10 then b'0' + n else b'A' + (n - 10)

unfoldable pub encode : (ℕ → Bool) → Text → Text
encode reserved [] = []
encode reserved (c ∷ s) =
    let rest = encode reserved s in
    if reserved c then b'%' ∷ hex_digit (c / 16) ∷ hex_digit (c % 16) ∷ rest else c ∷ rest

unfoldable pub AreBytes : Text → Type 0
AreBytes [] = Unit {0}
AreBytes (c ∷ s) = (c < 256) × AreBytes s

reads_back : ℕ → Bool
reads_back c = decode_byte (hex_digit (c / 16)) (hex_digit (c % 16)) == c

all_read_back : all_below 256 reads_back ≡ true
unfolding reads_back decode_byte decode_nibble hex_digit
all_read_back = refl

decode_byte-hex_digit :
    (c : ℕ) → c < 256 → decode_byte (hex_digit (c / 16)) (hex_digit (c % 16)) ≡ c
unfolding reads_back
decode_byte-hex_digit c h = ground (arith, all_below-lt 256 reads_back all_read_back c h)

http_decode-byte :
    (a b : ℕ) (s : Text) → http_decode (b'%' ∷ a ∷ b ∷ s) ≡ decode_byte a b ∷ http_decode s
unfolding http_decode
http_decode-byte a b s = refl

http_decode-nil : http_decode [] ≡ []
unfolding http_decode
http_decode-nil = refl

http_decode-plain :
    (c : ℕ) (s : Text) → (c == b'%') ≡ false → http_decode (c ∷ s) ≡ c ∷ http_decode s
unfolding http_decode
http_decode-plain c [] e = rw e refl
http_decode-plain c (a ∷ []) e = rw e refl
http_decode-plain c (a ∷ b ∷ s) e = rw e refl

not_percent :
    (reserved : ℕ → Bool) (c : ℕ) → reserved b'%' ≡ true → reserved c ≡ false → (c == b'%') ≡ false
not_percent reserved c percent e = elim (Bool-cases (c == b'%')) [
  | inr plain ↦ plain
  | inl is ↦
      let same : c ≡ b'%' = ground (arith, is) in
      absurd (ground (arith, percent, e, ap reserved same))
]

-- Decoding gives back what was encoded, whatever bytes were written as '%' and two digits, if '%' itself
-- is one of them.
pub http_decode-encode :
    (reserved : ℕ → Bool) (s : Text)
    → reserved b'%' ≡ true
    → AreBytes s
    → http_decode (encode reserved s) ≡ s
unfolding encode AreBytes
http_decode-encode reserved [] percent h = http_decode-nil
http_decode-encode reserved (c ∷ s) percent h = elim (Bool-cases (reserved c)) [
  | inl e ↦ rw e (
      http_decode-byte (hex_digit (c / 16)) (hex_digit (c % 16)) (encode reserved s)
      ∙ ap₂ ◌∷◌ (decode_byte-hex_digit c h.0) (http_decode-encode reserved s percent h.1))
  | inr e ↦
      let plain : (c == b'%') ≡ false = not_percent reserved c percent e in
      rw e (
        http_decode-plain c (encode reserved s) plain
        ∙ ap (◌∷◌ c) (http_decode-encode reserved s percent h.1))
]
