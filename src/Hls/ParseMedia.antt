-- ===== src/Hls/ParseMedia.antt =====
-- `hls_parse_media` of src/hls.c, and the key in force while it scans.
pub mod Keys
pub mod Segments
pub mod Lines
pub mod Written
use hyperflux.Common.{
  ℕ, suc, ◌+◌, ◌-◌, ◌%◌, ◌^◌, ◌⊎◌, inl, inr, Bool, true, false, not, ◌||◌, Option, none, some, List,
  [], ◌∷◌, ◌++◌, leb, ◌==◌, if◌then◌else◌, length,
}
use hyperflux.Libc.{Text, same_nocase, after_prefix}
use hyperflux.Libc.Int.{ℤ, pos, negsuc}
use hyperflux.Libc.Number.{strtol}
use hyperflux.Extractor.Tokens.{lines}
use hyperflux.Extractor.Resolve.{resolve_url}
use hyperflux.Hls.{
  Enc, enc_none, enc_aes_128, enc_sample_aes, Segment, Media, Failure, not_m3u8, key_without_method,
  aes_without_uri, malformed_iv, sample_aes_not_supported, unsupported_method, map_not_supported,
  too_many_segments, hls_max_segments,
}
use hyperflux.Hls.Attributes.{attr_get}
use hyperflux.Hls.Playlist.{hls_trim, hls_is_m3u8}
use hyperflux.Hls.Iv.{hls_iv_from_sequence, hls_parse_iv}

-- `iv` is `none` where `have_iv` is 0.
pub record KeyState : Type 0 where
  pub enc : Enc
  pub key_url : Option Text
  pub iv : Option (List ℕ)

-- METHOD=AES-128 with its URI resolved.
unfoldable pub aes_key : Text → Text → Failure ⊎ KeyState
aes_key key_url attr = elim (attr_get attr (b'I' ∷ b'V' ∷ [])) [
  | none ↦ inr (record { enc = enc_aes_128; key_url = some key_url; iv = none })
  | some hex ↦ elim (hls_parse_iv hex) [
    | none ↦ inl malformed_iv
    | some iv ↦ inr (record { enc = enc_aes_128; key_url = some key_url; iv = some iv })
  ]
]

abbrev pub none_word : Text
none_word = b'N' ∷ b'O' ∷ b'N' ∷ b'E' ∷ []

abbrev pub aes_word : Text
aes_word = b'A' ∷ b'E' ∷ b'S' ∷ b'-' ∷ b'1' ∷ b'2' ∷ b'8' ∷ []

abbrev pub sample_word : Text
sample_word = b'S' ∷ b'A' ∷ b'M' ∷ b'P' ∷ b'L' ∷ b'E' ∷ b'-' ∷ b'A' ∷ b'E' ∷ b'S' ∷ []

abbrev pub sample_ctr_word : Text
sample_ctr_word = sample_word ++ (b'-' ∷ b'C' ∷ b'T' ∷ b'R' ∷ [])

-- The new state replaces the old one.
unfoldable pub key_of_method : Text → Text → Text → Failure ⊎ KeyState
key_of_method base attr method =
    if same_nocase method none_word
    then inr (record { enc = enc_none; key_url = none; iv = none })
    else if same_nocase method aes_word
    then elim (attr_get attr (b'U' ∷ b'R' ∷ b'I' ∷ [])) [
      | none ↦ inl aes_without_uri
      | some uri ↦ aes_key (resolve_url base uri) attr
    ]
    else if same_nocase method sample_word || same_nocase method sample_ctr_word
    then inl sample_aes_not_supported
    else inl (unsupported_method method)

unfoldable pub media_apply_key : Text → Text → Failure ⊎ KeyState
media_apply_key base attr = elim (attr_get attr (b'M' ∷ b'E' ∷ b'T' ∷ b'H' ∷ b'O' ∷ b'D' ∷ [])) [
  | none ↦ inl key_without_method
  | some method ↦ key_of_method base attr method
]

-- `pend_dur` is the text behind "#EXTINF:".
pub record Scanning : Type 0 where
  m : Media
  ks : KeyState
  pend_dur : Text
  pending : Bool
  seq_index : ℕ

-- `(uint64_t)(media_sequence + seq_index)`
unfoldable pub sequence_number : ℤ → ℕ → ℕ
sequence_number (pos n) i = (n + i) % 2 ^ 64
sequence_number (negsuc n) i = (2 ^ 64 - 1 - n % 2 ^ 64 + i) % 2 ^ 64

-- The key URL and the vector are set for AES-128 only.
unfoldable pub segment_key : Enc → Option Text → Option Text
segment_key enc_none key_url = none
segment_key enc_aes_128 key_url = key_url
segment_key enc_sample_aes key_url = none

unfoldable pub segment_iv : Enc → Option (List ℕ) → List ℕ → Option (List ℕ)
segment_iv enc_none iv default = none
segment_iv enc_aes_128 none default = some default
segment_iv enc_aes_128 (some iv) default = some iv
segment_iv enc_sample_aes iv default = none

unfoldable pub segment_at : Text → Text → Scanning → Segment
segment_at base line s = record {
  url = resolve_url base line;
  duration = s.pend_dur;
  enc = s.ks.enc;
  key_url = segment_key s.ks.enc s.ks.key_url;
  iv =
      segment_iv s.ks.enc s.ks.iv
        (hls_iv_from_sequence (sequence_number s.m.media_sequence s.seq_index));
}

unfoldable pub segment_url : Text → Text → Scanning → Failure ⊎ Scanning
segment_url base line s =
    if not s.pending
    then inr s
    else if leb hls_max_segments (length s.m.segments)
    then inl too_many_segments
    else inr (record s {
      m = record {
        segments = s.m.segments ++ (segment_at base line s ∷ []);
        media_sequence = s.m.media_sequence;
        enc = s.m.enc;
      };
      seq_index = suc s.seq_index;
      pending = false;
    })

-- `m->enc` keeps the last method that is not NONE.
unfoldable pub seen_enc : Enc → Enc → Enc
seen_enc enc_none before = before
seen_enc enc_aes_128 before = enc_aes_128
seen_enc enc_sample_aes before = enc_sample_aes

unfoldable pub with_key : KeyState → Scanning → Scanning
with_key ks s = record s {
  ks = ks;
  m = record {
    segments = s.m.segments;
    media_sequence = s.m.media_sequence;
    enc = seen_enc ks.enc s.m.enc;
  };
}

unfoldable pub keyed : Failure ⊎ KeyState → Scanning → Failure ⊎ Scanning
keyed (inl e) s = inl e
keyed (inr ks) s = inr (with_key ks s)

abbrev pub extinf_tag : Text
extinf_tag = b'#' ∷ b'E' ∷ b'X' ∷ b'T' ∷ b'I' ∷ b'N' ∷ b'F' ∷ b':' ∷ []

-- "#EXT-X-"
abbrev pub x_tag : Text → Text
x_tag name = b'#' ∷ b'E' ∷ b'X' ∷ b'T' ∷ b'-' ∷ b'X' ∷ b'-' ∷ name

abbrev pub sequence_tag : Text
sequence_tag = x_tag (
    b'M' ∷ b'E' ∷ b'D' ∷ b'I' ∷ b'A' ∷ b'-' ∷ b'S' ∷ b'E' ∷ b'Q' ∷ b'U' ∷ b'E' ∷ b'N' ∷ b'C' ∷ b'E'
    ∷ b':' ∷ [])

abbrev pub key_tag : Text
key_tag = x_tag (b'K' ∷ b'E' ∷ b'Y' ∷ b':' ∷ [])

abbrev pub map_tag : Text
map_tag = x_tag (b'M' ∷ b'A' ∷ b'P' ∷ b':' ∷ [])

-- The tests from "#EXT-X-MAP:" on.
unfoldable pub late_line : Text → Text → Scanning → Failure ⊎ Scanning
late_line base [] s = inr s
late_line base (c ∷ line) s = elim (after_prefix map_tag (c ∷ line)) [
  | some rest ↦ inl map_not_supported
  | none ↦ if c == b'#' then inr s else segment_url base (c ∷ line) s
]

unfoldable pub media_line : Text → Text → Scanning → Failure ⊎ Scanning
media_line base line s = elim (after_prefix extinf_tag line) [
  | some dur ↦ inr (record s { pend_dur = dur; pending = true })
  | none ↦ elim (after_prefix sequence_tag line) [
    | some n ↦ inr (record s {
      m = record { segments = s.m.segments; enc = s.m.enc; media_sequence = (strtol n).0 };
    })
    | none ↦ elim (after_prefix key_tag line) [
      | some attr ↦ keyed (media_apply_key base attr) s
      | none ↦ late_line base line s
    ]
  ]
]

unfoldable pub media_lines : Text → List Text → Scanning → Failure ⊎ Scanning
media_lines base [] s = inr s
media_lines base (raw ∷ raws) s = elim (media_line base (hls_trim raw) s) [
  | inl e ↦ inl e
  | inr t ↦ media_lines base raws t
]

abbrev pub scanning_start : Scanning
scanning_start = record {
  m = record { segments = []; media_sequence = pos 0; enc = enc_none };
  ks = record { enc = enc_none; key_url = none; iv = none };
  pend_dur = [];
  pending = false;
  seq_index = 0;
}

unfoldable pub hls_parse_media : Text → Text → Failure ⊎ Media
hls_parse_media text base =
    if not (hls_is_m3u8 text)
    then inl not_m3u8
    else elim (media_lines base (lines text) scanning_start) [ inl e ↦ inl e | inr s ↦ inr s.m ]
