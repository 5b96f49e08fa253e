-- ===== src/Hls/Iv/Value.antt =====
-- The number that an initialisation vector stands for, and its hexadecimal digits.
use hyperflux.Common.{
  ℕ, ◌+◌, ◌-◌, ◌*◌, ◌/◌, ◌%◌, ◌^◌, ◌<◌, ◌≡◌, refl, ap, ap₂, ◌≢◌, true, false, ◌&&◌, ◌||◌, some,
  List, [], ◌∷◌, arith, ltb, ◌==◌, if◌then◌else◌, length,
}
use hyperflux.Libc.{Text}
use hyperflux.Hls.{hls_aes_block}
use hyperflux.Hls.Iv.{
  put_bytes, hls_iv_from_sequence, hex_nibble, hex_bytes, prefix_off, hls_parse_iv,
}

-- Big-endian, with `high` in front.
unfoldable pub big_endian : ℕ → List ℕ → ℕ
big_endian high [] = high
big_endian high (b ∷ bytes) = big_endian (high * 2 ^ 8 + b) bytes

unfoldable pub AreBytes : List ℕ → Type 0
AreBytes [] = Unit {0}
AreBytes (b ∷ bytes) = (b < 2 ^ 8) × AreBytes bytes

-- The vector of a sequence number of 64 bits has 16 bytes, and read as one number in network order it
-- is the sequence number.
pub hls_iv_from_sequence_lem :
    (seq : ℕ)
    → seq < 2 ^ 64
    → (length (hls_iv_from_sequence seq) ≡ hls_aes_block)
      × (AreBytes (hls_iv_from_sequence seq) × (big_endian 0 (hls_iv_from_sequence seq) ≡ seq))
unfolding hls_iv_from_sequence put_bytes big_endian AreBytes
hls_iv_from_sequence_lem seq h = (refl, (ground arith, omega (arith, h)))

unfoldable pub hex_digit : ℕ → ℕ
hex_digit n = if ltb n 10 then b'0' + n else b'a' + (n - 10)

unfoldable pub hex_text : List ℕ → Text
hex_text [] = []
hex_text (b ∷ bytes) = hex_digit (b / 16) ∷ hex_digit (b % 16) ∷ hex_text bytes

hex_nibble-hex_digit : (n : ℕ) → n < 16 → hex_nibble (hex_digit n) ≡ some n
unfolding hex_nibble hex_digit
hex_nibble-hex_digit n h = ground (arith, h)

hex_bytes-hex_text : (bytes : List ℕ) → AreBytes bytes → hex_bytes (hex_text bytes) ≡ some bytes
unfolding hex_text AreBytes hex_bytes
hex_bytes-hex_text [] h = refl
hex_bytes-hex_text (b ∷ bytes) h =
    rw (hex_nibble-hex_digit (b / 16) (omega (arith, h.0)), hex_bytes)
      (rw (hex_nibble-hex_digit (b % 16) (omega arith))
        (rw (hex_bytes-hex_text bytes h.1) (ap some (ap₂ ◌∷◌ (omega (arith, h.0)) refl))))

length-hex_text : (bytes : List ℕ) → length (hex_text bytes) ≡ length bytes * 2
unfolding hex_text
length-hex_text [] = refl
length-hex_text (b ∷ bytes) = omega (arith, length-hex_text bytes)

hex_digit_ne : (n : ℕ) → n < 16 → (hex_digit n ≢ b'x') × (hex_digit n ≢ b'X')
unfolding hex_digit
hex_digit_ne n h = (λ e. ground (arith, h, e), λ e. ground (arith, h, e))

prefix_off-hex_text : (bytes : List ℕ) → prefix_off (hex_text bytes) ≡ hex_text bytes
unfolding hex_text
prefix_off-hex_text [] = refl
prefix_off-hex_text (b ∷ bytes) =
    let (no_x, no_upper) = hex_digit_ne (b % 16) (omega arith) in
    let digit = hex_digit (b % 16) in
    let plain : (hex_digit (b / 16) == b'0' && (digit == b'x' || digit == b'X')) ≡ false =
      ground (arith, no_x, no_upper) in
    rw plain refl

-- The 32 hexadecimal digits of 16 bytes are read back as these bytes, with "0x" in front of them or
-- without.
pub hls_parse_iv-hex_text :
    (bytes : List ℕ)
    → AreBytes bytes
    → length bytes ≡ hls_aes_block
    → (hls_parse_iv (hex_text bytes) ≡ some bytes)
      × (hls_parse_iv (b'0' ∷ b'x' ∷ hex_text bytes) ≡ some bytes)
unfolding hls_parse_iv
hls_parse_iv-hex_text bytes h n =
    let long : (length (hex_text bytes) == hls_aes_block * 2) ≡ true =
      ground (arith, n, length-hex_text bytes) in
    (
      rw (prefix_off-hex_text bytes) (rw long (hex_bytes-hex_text bytes h)),
      rw long (hex_bytes-hex_text bytes h),
    )
