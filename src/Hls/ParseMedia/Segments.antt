-- ===== src/Hls/ParseMedia/Segments.antt =====
-- What holds of every segment of a media playlist that is read.
use hyperflux.Common.{
  ℕ, ◌≤◌, ◌≡◌, refl, ◌⊎◌, inl, inr, Option, none, some, List, [], ◌∷◌, arith, leb, ◌==◌, Bool-cases,
  Option-cases, Sum-cases, length, length-append, Every, Every-append,
}
use hyperflux.Libc.{Text, after_prefix}
use hyperflux.Extractor.Tokens.{lines}
use hyperflux.Hls.{
  Enc, enc_none, enc_aes_128, enc_sample_aes, Segment, Failure, hls_aes_block, hls_max_segments,
}
use hyperflux.Hls.Playlist.{hls_trim, hls_is_m3u8}
use hyperflux.Hls.Iv.Length.{length-hls_iv_from_sequence}
use hyperflux.Hls.ParseMedia.{
  KeyState, media_apply_key, Scanning, segment_key, segment_iv, segment_at, segment_url, with_key,
  keyed, extinf_tag, sequence_tag, key_tag, map_tag, late_line, media_line, media_lines,
  scanning_start, hls_parse_media,
}
use hyperflux.Hls.ParseMedia.Keys.{IfRead, IsIv, HasKey, IsKeyOf, IsKey, media_apply_key-IsKey}
use hyperflux.Hls.ParseMedia.Lines.{
  media_line-extinf, media_line-sequence, media_line-key, media_line-late, late_line-nil,
  late_line-map, late_line-tag, late_line-url,
}

unfoldable pub HasIv : Option (List ℕ) → Type 0
HasIv none = ⊥
HasIv (some iv) = length iv ≡ hls_aes_block

-- A segment can be decrypted: no key and no vector without encryption, both with AES-128.
unfoldable pub IsCompleteFor : Enc → Option Text → Option (List ℕ) → Type 0
IsCompleteFor enc_none key_url iv = (key_url ≡ none) × (iv ≡ none)
IsCompleteFor enc_aes_128 key_url iv = HasKey key_url × HasIv iv
IsCompleteFor enc_sample_aes key_url iv = ⊥

unfoldable pub IsComplete : Segment → Type 0
IsComplete g = IsCompleteFor g.enc g.key_url g.iv

segment_keys :
    (enc : Enc) (key_url : Option Text) (iv : Option (List ℕ)) (default : List ℕ)
    → length default ≡ hls_aes_block
    → IsKeyOf enc key_url iv
    → IsCompleteFor enc (segment_key enc key_url) (segment_iv enc iv default)
unfolding IsKeyOf IsCompleteFor segment_key segment_iv HasIv IsIv
segment_keys enc_none key_url iv default n h = (refl, refl)
segment_keys enc_aes_128 key_url none default n h = (h.0, n)
segment_keys enc_aes_128 key_url (some iv) default n h = h
segment_keys enc_sample_aes key_url iv default n h = h

segment_at-IsComplete :
    (base line : Text) (s : Scanning) → IsKey s.ks → IsComplete (segment_at base line s)
unfolding IsComplete segment_at IsKey
segment_at-IsComplete base line s h =
    segment_keys s.ks.enc s.ks.key_url s.ks.iv _ (length-hls_iv_from_sequence _) h

-- The segments that a media playlist may hold.
unfoldable pub IsPlayable : List Segment → Type 0
IsPlayable segments = Every IsComplete segments × (length segments ≤ hls_max_segments)

ScanInv : Scanning → Type 0
ScanInv s = IsKey s.ks × IsPlayable s.m.segments

segment_url-ScanInv :
    (base line : Text) (s : Scanning) → ScanInv s → IfRead ScanInv (segment_url base line s)
unfolding ScanInv IfRead segment_url IsPlayable Every segment_at
segment_url-ScanInv base line s h = elim (Bool-cases s.pending) [
  | inr e ↦ rw e h
  | inl e ↦ elim (Bool-cases (leb hls_max_segments (length s.m.segments))) [
    | inl e' ↦ rw (e, e') tt
    | inr e' ↦
        let new = segment_at base line s in
        rw (e, e')
          (
            h.0,
            (
              Every-append IsComplete s.m.segments (new ∷ []) h.1.0
                  (segment_at-IsComplete base line s h.0, tt),
              ground (arith, e', length-append s.m.segments (new ∷ [])),
            ),
          )
  ]
]

with_key-ScanInv : (ks : KeyState) (s : Scanning) → IsKey ks → ScanInv s → ScanInv (with_key ks s)
unfolding ScanInv with_key
with_key-ScanInv ks s k h = (k, h.1)

keyed-ScanInv :
    (read : Failure ⊎ KeyState) (s : Scanning)
    → IfRead IsKey read
    → ScanInv s
    → IfRead ScanInv (keyed read s)
unfolding IfRead keyed
keyed-ScanInv (inl e) s k h = tt
keyed-ScanInv (inr ks) s k h = with_key-ScanInv ks s k h

late_line-ScanInv :
    (base line : Text) (s : Scanning) → ScanInv s → IfRead ScanInv (late_line base line s)
unfolding IfRead
late_line-ScanInv base [] s h = rw (late_line-nil base s) h
late_line-ScanInv base (c ∷ line) s h = elim (Option-cases (after_prefix map_tag (c ∷ line))) [
  | inr (rest, e) ↦ rw (late_line-map base c line rest s e) tt
  | inl e ↦ elim (Bool-cases (c == b'#')) [
    | inl e' ↦ rw (late_line-tag base c line s e e') h
    | inr e' ↦ rw (late_line-url base c line s e e') (segment_url-ScanInv base (c ∷ line) s h)
  ]
]

media_line-ScanInv :
    (base line : Text) (s : Scanning) → ScanInv s → IfRead ScanInv (media_line base line s)
unfolding IfRead ScanInv
media_line-ScanInv base line s h = elim (Option-cases (after_prefix extinf_tag line)) [
  | inr (dur, e) ↦ rw (media_line-extinf base line s dur e) h
  | inl e ↦ elim (Option-cases (after_prefix sequence_tag line)) [
    | inr (n, e') ↦ rw (media_line-sequence base line s n e e') h
    | inl e' ↦ elim (Option-cases (after_prefix key_tag line)) [
      | inr (attr, e'') ↦
          rw (media_line-key base line s attr e e' e'')
            (keyed-ScanInv (media_apply_key base attr) s (media_apply_key-IsKey base attr) h)
      | inl e'' ↦ rw (media_line-late base line s e e' e'') (late_line-ScanInv base line s h)
    ]
  ]
]

ScanInv-after :
    (read : Failure ⊎ Scanning) (s : Scanning) → IfRead ScanInv read → read ≡ inr s → ScanInv s
unfolding IfRead
ScanInv-after read s h e = rw e at h

media_lines-ScanInv :
    (base : Text) (raws : List Text) (s : Scanning)
    → ScanInv s
    → IfRead ScanInv (media_lines base raws s)
unfolding media_lines IfRead
media_lines-ScanInv base [] s h = h
media_lines-ScanInv base (raw ∷ raws) s h = elim (Sum-cases (media_line base (hls_trim raw) s)) [
  | inl (e, p) ↦ rw (p, media_lines) tt
  | inr (t, p) ↦
      rw (p, media_lines)
        (media_lines-ScanInv base raws t
          (ScanInv-after _ t (media_line-ScanInv base (hls_trim raw) s h) p))
]

-- Whatever the text, a media playlist that is read has at most 100000 segments, and each of them can be
-- fetched and decrypted: without encryption it has neither key nor vector, with AES-128 it has both, the
-- vector of 16 bytes, and no segment has another method.
pub hls_parse_media-IsPlayable :
    (text base : Text) → IfRead (λ m. IsPlayable m.segments) (hls_parse_media text base)
unfolding hls_parse_media IfRead ScanInv IsKey IsKeyOf IsPlayable Every
hls_parse_media-IsPlayable text base = elim (Bool-cases (hls_is_m3u8 text)) [
  | inr e ↦ rw e tt
  | inl e ↦ elim (Sum-cases (media_lines base (lines text) scanning_start)) [
    | inl (f, p) ↦ rw (e, p) tt
    | inr (s, p) ↦
        let start : ScanInv scanning_start = ((refl, refl), (tt, omega arith)) in
        let end =
          ScanInv-after _ s (media_lines-ScanInv base (lines text) scanning_start start) p in
        rw (e, p) end.1
  ]
]
