-- ===== src/Hls/ParseMaster.antt =====
-- `hls_parse_master` of src/hls.c.
pub mod Lines
pub mod Limits
pub mod Written
use hyperflux.Common.{
  ◌⊎◌, inl, inr, Bool, true, false, not, Option, none, some, List, [], ◌∷◌, ◌++◌, leb, ◌==◌,
  if◌then◌else◌, length,
}
use hyperflux.Libc.{Text, same_nocase, after_prefix}
use hyperflux.Libc.Int.{ℤ, pos}
use hyperflux.Libc.Number.{strtol, scan_int}
use hyperflux.Extractor.Tokens.{lines}
use hyperflux.Extractor.Resolve.{resolve_url}
use hyperflux.Hls.{Master, Failure, not_m3u8, hls_max_variants}
use hyperflux.Hls.Attributes.{attr_get}
use hyperflux.Hls.Playlist.{hls_trim, hls_is_m3u8}

abbrev pub text_or : Option Text → Text
text_or none = []
text_or (some t) = t

-- `s && strcasecmp(s, word) == 0`
abbrev pub is_word : Option Text → Text → Bool
is_word none word = false
is_word (some s) word = same_nocase s word

unfoldable pub master_add_media : Text → Text → Master → Master
master_add_media base attr m =
    if not (
      is_word (attr_get attr (b'T' ∷ b'Y' ∷ b'P' ∷ b'E' ∷ []))
        (b'A' ∷ b'U' ∷ b'D' ∷ b'I' ∷ b'O' ∷ []))
    then m
    else if leb hls_max_variants (length m.audios)
    then m
    else record m {
      audios =
          m.audios
          ++ (record {
            group_id = attr_get attr (b'G' ∷ b'R' ∷ b'O' ∷ b'U' ∷ b'P' ∷ b'-' ∷ b'I' ∷ b'D' ∷ []);
            is_default =
                is_word (attr_get attr (b'D' ∷ b'E' ∷ b'F' ∷ b'A' ∷ b'U' ∷ b'L' ∷ b'T' ∷ []))
                  (b'Y' ∷ b'E' ∷ b'S' ∷ []);
            url = elim (attr_get attr (b'U' ∷ b'R' ∷ b'I' ∷ [])) [
              | none ↦ none
              | some uri ↦ some (resolve_url base uri)
            ];
          }
              ∷ []);
    }

-- What waits for its URL is `pend_bw`, `pend_w`, `pend_h` and `pend_audio`.
pub record Scanning : Type 0 where
  m : Master
  pending : Bool
  pend_bw : ℤ
  pend_w : ℤ
  pend_h : ℤ
  pend_audio : Option Text

-- `sscanf(res, "%dx%d", ...)`; a number that does not match stays 0.
unfoldable pub resolution : Option Text → ℤ × ℤ
resolution none = (pos 0, pos 0)
resolution (some res) = elim (scan_int res) [
  | none ↦ (pos 0, pos 0)
  | some w ↦ elim (after_prefix (b'x' ∷ []) w.1) [
    | none ↦ (w.0, pos 0)
    | some rest ↦ elim (scan_int rest) [ none ↦ (w.0, pos 0) | some h ↦ (w.0, h.0) ]
  ]
]

unfoldable pub stream_inf : Text → Scanning → Scanning
stream_inf attr s =
    let size =
      resolution (
        attr_get attr (b'R' ∷ b'E' ∷ b'S' ∷ b'O' ∷ b'L' ∷ b'U' ∷ b'T' ∷ b'I' ∷ b'O' ∷ b'N' ∷ [])) in
    record s {
      pend_bw =
          elim (attr_get attr (b'B' ∷ b'A' ∷ b'N' ∷ b'D' ∷ b'W' ∷ b'I' ∷ b'D' ∷ b'T' ∷ b'H' ∷ [])) [
            | none ↦ pos 0
            | some bw ↦ (strtol bw).0
          ];
      pend_w = size.0;
      pend_h = size.1;
      pend_audio = attr_get attr (b'A' ∷ b'U' ∷ b'D' ∷ b'I' ∷ b'O' ∷ []);
      pending = true;
    }

-- A line that is no tag.
unfoldable pub variant_url : Text → Text → Scanning → Scanning
variant_url base line s =
    if not s.pending
    then s
    else if leb hls_max_variants (length s.m.variants)
    then s
    else record s {
      m = record {
        audios = s.m.audios;
        variants =
            s.m.variants
            ++ (record {
              url = resolve_url base line;
              bandwidth = s.pend_bw;
              width = s.pend_w;
              height = s.pend_h;
              audio_group = s.pend_audio;
            }
                ∷ []);
      };
      pend_audio = none;
      pending = false;
    }

unfoldable pub other_line : Text → Text → Scanning → Scanning
other_line base [] s = s
other_line base (c ∷ line) s = if c == b'#' then s else variant_url base (c ∷ line) s

abbrev pub stream_inf_tag : Text
stream_inf_tag =
    b'#' ∷ b'E' ∷ b'X' ∷ b'T' ∷ b'-' ∷ b'X' ∷ b'-' ∷ b'S' ∷ b'T' ∷ b'R' ∷ b'E' ∷ b'A' ∷ b'M' ∷ b'-'
    ∷ b'I' ∷ b'N' ∷ b'F' ∷ b':' ∷ []

abbrev pub media_tag : Text
media_tag =
    b'#' ∷ b'E' ∷ b'X' ∷ b'T' ∷ b'-' ∷ b'X' ∷ b'-' ∷ b'M' ∷ b'E' ∷ b'D' ∷ b'I' ∷ b'A' ∷ b':' ∷ []

unfoldable pub master_line : Text → Text → Scanning → Scanning
master_line base line s = elim (after_prefix stream_inf_tag line) [
  | some attr ↦ stream_inf attr s
  | none ↦ elim (after_prefix media_tag line) [
    | some attr ↦ record s { m = master_add_media base attr s.m }
    | none ↦ other_line base line s
  ]
]

unfoldable pub master_lines : Text → List Text → Scanning → Scanning
master_lines base [] s = s
master_lines base (raw ∷ raws) s = master_lines base raws (master_line base (hls_trim raw) s)

abbrev pub scanning_start : Scanning
scanning_start = record {
  m = record { variants = []; audios = [] };
  pending = false;
  pend_bw = pos 0;
  pend_w = pos 0;
  pend_h = pos 0;
  pend_audio = none;
}

unfoldable pub hls_parse_master : Text → Text → Failure ⊎ Master
hls_parse_master text base =
    if not (hls_is_m3u8 text)
    then inl not_m3u8
    else inr (master_lines base (lines text) scanning_start).m
