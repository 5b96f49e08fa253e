-- ===== src/Hls/ParseMedia/Written.antt =====
-- A media playlist that is written from its parts, under one key.
use hyperflux.Common.{
  ℕ, suc, ◌+◌, ◌-◌, ◌/◌, ◌%◌, ◌^◌, Option, some, ◌≡◌, refl, inr, false, none, List, [], ◌∷◌, ◌++◌,
}
use hyperflux.Libc.{Text, after_prefix}
use hyperflux.Libc.Int.{ℤ, pos, negsuc}
use hyperflux.Extractor.Resolve.{resolve_url}
use hyperflux.Hls.{enc_none, enc_aes_128, enc_sample_aes, Segment}
use hyperflux.Hls.Playlist.{hls_trim, space_off, space_off_end}
use hyperflux.Hls.Lines.{m3u8_tag, IsLine, IsUrlLine}
use hyperflux.Hls.ParseMedia.{KeyState, Scanning, segment_at, extinf_tag, late_line, media_line}

-- The length of a part as the playlist has it, and its URL.
pub record Part : Type 0 where
  pub dur : Text
  pub url : Text

unfoldable pub part_lines : List Part → List Text
part_lines [] = []
part_lines (p ∷ parts) = (extinf_tag ++ p.dur) ∷ p.url ∷ part_lines parts

-- The 16 bytes of a number of 64 bits in network order.
unfoldable pub network_order : ℕ → List ℕ
network_order n =
    0
    ∷ 0
    ∷ 0
    ∷ 0
    ∷ 0
    ∷ 0
    ∷ 0
    ∷ 0
    ∷ n / 2 ^ 56 % 256
    ∷ n / 2 ^ 48 % 256
    ∷ n / 2 ^ 40 % 256
    ∷ n / 2 ^ 32 % 256
    ∷ n / 2 ^ 24 % 256
    ∷ n / 2 ^ 16 % 256
    ∷ n / 2 ^ 8 % 256
    ∷ n % 256
    ∷ []

-- The sum of a sequence number and an index, as 64 bits.
unfoldable pub sum_64 : ℤ → ℕ → ℕ
sum_64 (pos n) i = (n + i) % 2 ^ 64
sum_64 (negsuc n) i = (i + (2 ^ 64 - suc n % 2 ^ 64)) % 2 ^ 64

-- The vector of segment `i`: the key's own, or that of the sequence number `seq` plus `i`.
unfoldable pub vector_of : KeyState → ℤ → ℕ → Option (List ℕ)
vector_of ks seq i = elim ks.enc [
  | enc_none ↦ none
  | enc_sample_aes ↦ none
  | enc_aes_128 ↦ elim ks.iv [ none ↦ some (network_order (sum_64 seq i)) | some iv ↦ some iv ]
]

unfoldable pub key_url_of : KeyState → Option Text
key_url_of ks = elim ks.enc [ enc_none ↦ none | enc_sample_aes ↦ none | enc_aes_128 ↦ ks.key_url ]

abbrev segment_of : Text → KeyState → ℤ → ℕ → Part → Segment
segment_of base ks seq i p = record {
  url = resolve_url base p.url;
  duration = p.dur;
  enc = ks.enc;
  key_url = key_url_of ks;
  iv = vector_of ks seq i;
}

-- The segments from number `i` on. Without a vector of its own the key takes the sequence number of the
-- playlist plus the number of the segment.
unfoldable pub segments_of : Text → KeyState → ℤ → ℕ → List Part → List Segment
segments_of base ks seq i [] = []
segments_of base ks seq i (p ∷ parts) =
    segment_of base ks seq i p ∷ segments_of base ks seq (suc i) parts

unfoldable pub AreLines : Part → Type 0
AreLines p = IsLine (extinf_tag ++ p.dur) × IsUrlLine p.url

with_segment : Text → Text → Scanning → Scanning
with_segment base url s = record s {
  m = record {
    segments = s.m.segments ++ (segment_at base url s ∷ []);
    media_sequence = s.m.media_sequence;
    enc = s.m.enc;
  };
  seq_index = suc s.seq_index;
  pending = false;
}

first_line : (base : Text) (s : Scanning) → media_line base (hls_trim m3u8_tag) s ≡ inr s
unfolding media_line hls_trim space_off space_off_end after_prefix late_line
first_line base s = refl
