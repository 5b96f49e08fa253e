-- ===== src/Hls/Iv/Length.antt =====
-- Every initialisation vector has a block's length.
use hyperflux.Common.{
  ℕ, ◌*◌, ◌≡◌, refl, inl, inr, Option, none, some, List, [], ◌∷◌, arith, ◌==◌, Bool-cases,
  Option-cases, length,
}
use hyperflux.Libc.{Text}
use hyperflux.Hls.{hls_aes_block}
use hyperflux.Hls.Iv.{
  put_bytes, hls_iv_from_sequence, hex_nibble, hex_bytes, prefix_off, hls_parse_iv,
}

pub length-hls_iv_from_sequence : (seq : ℕ) → length (hls_iv_from_sequence seq) ≡ hls_aes_block
unfolding hls_iv_from_sequence put_bytes
length-hls_iv_from_sequence seq = refl

-- Bytes that come from `n` digits, if they come at all.
unfoldable pub HalfOf : ℕ → Option (List ℕ) → Type 0
HalfOf n none = Unit {0}
HalfOf n (some bytes) = length bytes * 2 ≡ n

hex_bytes-HalfOf : (s : Text) → HalfOf (length s) (hex_bytes s)
unfolding hex_bytes HalfOf
hex_bytes-HalfOf [] = refl
hex_bytes-HalfOf (a ∷ []) = tt
hex_bytes-HalfOf (a ∷ b ∷ s) = elim (Option-cases (hex_nibble a)) [
  | inl e ↦ rw (e, hex_bytes) tt
  | inr (hi, e) ↦ elim (Option-cases (hex_nibble b)) [
    | inl e' ↦ rw (e, hex_bytes) (rw e' tt)
    | inr (lo, e') ↦ elim (Option-cases (hex_bytes s)) [
      | inl e'' ↦ rw (e, hex_bytes) (rw e' (rw e'' tt))
      | inr (bytes, e'') ↦
          let half : HalfOf (length s) (some bytes) = rw e'' at (hex_bytes-HalfOf s) in
          rw (e, hex_bytes) (rw e' (rw e'' (omega (arith, half))))
    ]
  ]
]

pub hls_parse_iv-length :
    (hex : Text) (iv : List ℕ) → hls_parse_iv hex ≡ some iv → length iv ≡ hls_aes_block
unfolding hls_parse_iv HalfOf
hls_parse_iv-length hex iv h = elim (Bool-cases (length (prefix_off hex) == hls_aes_block * 2)) [
  | inr e ↦ ground (arith, h, e)
  | inl e ↦
      let s = prefix_off hex in
      let read : hex_bytes s ≡ some iv = ground (arith, h, e) in
      let half : HalfOf (length s) (some iv) = rw read at (hex_bytes-HalfOf s) in
      ground (arith, e, half)
]
