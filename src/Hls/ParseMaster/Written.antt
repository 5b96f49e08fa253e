-- ===== src/Hls/ParseMaster/Written.antt =====
-- A master playlist that is written from its streams.
use hyperflux.Common.{
  ◌+◌, ◌≤◌, ◌<◌, ◌≡◌, refl, sym, ap, ◌∙◌, inr, true, false, none, some, List, [], ◌∷◌, ◌++◌, map,
  arith, ◌==◌, length, length-append, append_assoc, append_nil, Every,
}
use hyperflux.Libc.{Text, after_prefix}
use hyperflux.Libc.Int.{pos}
use hyperflux.Libc.Number.{strtol}
use hyperflux.Libc.Cuts.{after_prefix-append, after_prefix-ne}
use hyperflux.Extractor.Tokens.{lines}
use hyperflux.Extractor.Resolve.{resolve_url}
use hyperflux.Hls.{Variant, Master, hls_max_variants}
use hyperflux.Hls.Attributes.{attr_get}
use hyperflux.Hls.Playlist.{hls_trim, space_off, space_off_end}
use hyperflux.Hls.Lines.{
  m3u8_tag, playlist, IsLine, IsUrlLine, IsUrlLine-IsLine, lines-text_of, m3u8_tag-IsLine,
  playlist-m3u8,
}
use hyperflux.Hls.ParseMaster.{
  Scanning, resolution, stream_inf, other_line, stream_inf_tag, master_line, master_lines,
  scanning_start, hls_parse_master,
}
use hyperflux.Hls.ParseMaster.Lines.{
  master_line-stream, master_line-other, other_line-url, variant_url-pending,
}

-- The attributes of a stream, and its URL as the playlist has it.
pub record Stream : Type 0 where
  pub attr : Text
  pub url : Text

unfoldable pub stream_lines : List Stream → List Text
stream_lines [] = []
stream_lines (s ∷ streams) = (stream_inf_tag ++ s.attr) ∷ s.url ∷ stream_lines streams

unfoldable pub variant_of : Text → Stream → Variant
variant_of base s = record {
  url = resolve_url base s.url;
  bandwidth =
      (elim (attr_get s.attr (b'B' ∷ b'A' ∷ b'N' ∷ b'D' ∷ b'W' ∷ b'I' ∷ b'D' ∷ b'T' ∷ b'H' ∷ [])) [
        | none ↦ pos 0
        | some bw ↦ (strtol bw).0
      ]);
  width =
      (resolution (
        attr_get s.attr
          (b'R' ∷ b'E' ∷ b'S' ∷ b'O' ∷ b'L' ∷ b'U' ∷ b'T' ∷ b'I' ∷ b'O' ∷ b'N' ∷ []))).0;
  height =
      (resolution (
        attr_get s.attr
          (b'R' ∷ b'E' ∷ b'S' ∷ b'O' ∷ b'L' ∷ b'U' ∷ b'T' ∷ b'I' ∷ b'O' ∷ b'N' ∷ []))).1;
  audio_group = attr_get s.attr (b'A' ∷ b'U' ∷ b'D' ∷ b'I' ∷ b'O' ∷ []);
}

unfoldable pub AreLines : Stream → Type 0
AreLines s = IsLine (stream_inf_tag ++ s.attr) × IsUrlLine s.url

stream_lines-IsLine :
    (streams : List Stream) → Every AreLines streams → Every IsLine (stream_lines streams)
unfolding Every AreLines stream_lines
stream_lines-IsLine [] h = tt
stream_lines-IsLine (s ∷ streams) h =
    (h.0.0, (IsUrlLine-IsLine s.url h.0.1, stream_lines-IsLine streams h.1))

url_line :
    (base url : Text) (s : Scanning)
    → IsUrlLine url
    → s.pending ≡ true
    → length s.m.variants < hls_max_variants
    → (master_line base (hls_trim url) s).m.variants
      ≡ s.m.variants
        ++ (record {
          url = resolve_url base url;
          bandwidth = s.pend_bw;
          width = s.pend_w;
          height = s.pend_h;
          audio_group = s.pend_audio;
        }
            ∷ [])
unfolding IsUrlLine IsLine
url_line base [] s h p fits = absurd h
url_line base (c ∷ url) s h p fits =
    let line = c ∷ url in
    let no_hash : (b'#' == c) ≡ false = ground (arith, h.0) in
    let variants_of : Scanning → List Variant = λ st. st.m.variants in
    ap (λ l. variants_of (master_line base l s)) h.1.1
    ∙ ap variants_of (
        master_line-other base line s (after_prefix-ne b'#' _ c url no_hash)
          (after_prefix-ne b'#' _ c url no_hash))
    ∙ ap variants_of (other_line-url base c url s h.0)
    ∙ variant_url-pending base line s p fits

stream_line :
    (base attr : Text) (s : Scanning)
    → IsLine (stream_inf_tag ++ attr)
    → master_line base (hls_trim (stream_inf_tag ++ attr)) s ≡ stream_inf attr s
unfolding IsLine
stream_line base attr s h =
    let line = stream_inf_tag ++ attr in
    ap (λ l. master_line base l s) h.1
    ∙ master_line-stream base line s attr (after_prefix-append stream_inf_tag attr)

two_lines :
    (base : Text) (s : Stream) (st : Scanning)
    → AreLines s
    → length st.m.variants < hls_max_variants
    → (master_line base
        (hls_trim s.url)
        (master_line base (hls_trim (stream_inf_tag ++ s.attr)) st)).m.variants
      ≡ st.m.variants ++ (variant_of base s ∷ [])
unfolding AreLines stream_inf variant_of
two_lines base s st h fits =
    rw (stream_line base s.attr st h.0) (url_line base s.url (stream_inf s.attr st) h.1 refl fits)

all_lines :
    (base : Text) (streams : List Stream) (st : Scanning)
    → Every AreLines streams
    → length st.m.variants + length streams ≤ hls_max_variants
    → (master_lines base (stream_lines streams) st).m.variants
      ≡ st.m.variants ++ map (variant_of base) streams
unfolding Every stream_lines master_lines
all_lines base [] st h fits = sym (append_nil st.m.variants)
all_lines base (s ∷ streams) st h fits =
    let st' =
      master_line base (hls_trim s.url)
        (master_line base (hls_trim (stream_inf_tag ++ s.attr)) st) in
    let after = two_lines base s st h.0 (omega (arith, fits)) in
    let room : length st'.m.variants + length streams ≤ hls_max_variants =
      omega (arith, fits, ap length after, length-append st.m.variants (variant_of base s ∷ [])) in
    all_lines base streams st' h.1 room
    ∙ ap (λ vs. vs ++ map (variant_of base) streams) after
    ∙ append_assoc st.m.variants (variant_of base s ∷ []) (map (variant_of base) streams)

first_line : (base : Text) (s : Scanning) → master_line base (hls_trim m3u8_tag) s ≡ s
unfolding master_line hls_trim space_off space_off_end after_prefix other_line
first_line base s = refl

-- A master playlist that is written from at most 64 streams is read back: the variants are those of the
-- streams in their order, each with its URL resolved and its bandwidth, size and audio group from its own
-- attributes. Every attribute line and URL is a line of its own, with nothing to trim, and no URL starts
-- with '#'.
pub hls_parse_master-written :
    (base : Text) (streams : List Stream)
    → Every AreLines streams
    → length streams ≤ hls_max_variants
    → (m : Master) × ((hls_parse_master (playlist (stream_lines streams)) base ≡ inr m)
        × (m.variants ≡ map (variant_of base) streams))
unfolding hls_parse_master master_lines Every
hls_parse_master-written base streams h fits =
    let all = stream_lines streams in
    let read = lines-text_of (m3u8_tag ∷ all) (m3u8_tag-IsLine, stream_lines-IsLine streams h) in
    (
      (master_lines base (lines (playlist all)) scanning_start).m,
      (
        rw (playlist-m3u8 all) refl,
        ap (λ ls. (master_lines base ls scanning_start).m.variants) read
            ∙ ap (λ s. (master_lines base all s).m.variants) (first_line base scanning_start)
            ∙ all_lines base streams scanning_start h (omega (arith, fits)),
      ),
    )
