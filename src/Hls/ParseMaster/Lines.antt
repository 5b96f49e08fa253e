-- ===== src/Hls/ParseMaster/Lines.antt =====
-- What a line of a master playlist does, by how it starts.
use hyperflux.Common.{
  ℕ, ◌<◌, ◌≡◌, refl, true, false, none, some, [], ◌∷◌, ◌++◌, arith, leb, ◌==◌, length,
}
use hyperflux.Libc.{Text, after_prefix}
use hyperflux.Extractor.Resolve.{resolve_url}
use hyperflux.Hls.{hls_max_variants}
use hyperflux.Hls.ParseMaster.{
  Scanning, master_add_media, stream_inf, variant_url, other_line, stream_inf_tag, media_tag,
  master_line,
}

pub master_line-stream :
    (base line : Text) (s : Scanning) (attr : Text)
    → after_prefix stream_inf_tag line ≡ some attr
    → master_line base line s ≡ stream_inf attr s
unfolding master_line
master_line-stream base line s attr e = rw (e, master_line) refl

pub master_line-media :
    (base line : Text) (s : Scanning) (attr : Text)
    → after_prefix stream_inf_tag line ≡ none
    → after_prefix media_tag line ≡ some attr
    → master_line base line s ≡ record s { m = master_add_media base attr s.m }
unfolding master_line
master_line-media base line s attr e e' = rw (e, master_line) (rw e' refl)

pub master_line-other :
    (base line : Text) (s : Scanning)
    → after_prefix stream_inf_tag line ≡ none
    → after_prefix media_tag line ≡ none
    → master_line base line s ≡ other_line base line s
unfolding master_line
master_line-other base line s e e' = rw (e, master_line) (rw e' refl)

pub other_line-url :
    (base : Text) (c : ℕ) (line : Text) (s : Scanning)
    → (c == b'#') ≡ false
    → other_line base (c ∷ line) s ≡ variant_url base (c ∷ line) s
unfolding other_line
other_line-url base c line s e = rw e refl

pub variant_url-pending :
    (base line : Text) (s : Scanning)
    → s.pending ≡ true
    → length s.m.variants < hls_max_variants
    → (variant_url base line s).m.variants
      ≡ s.m.variants
        ++ (record {
          url = resolve_url base line;
          bandwidth = s.pend_bw;
          width = s.pend_w;
          height = s.pend_h;
          audio_group = s.pend_audio;
        }
            ∷ [])
unfolding variant_url
variant_url-pending base line s p fits =
    let room : leb hls_max_variants (length s.m.variants) ≡ false = ground (arith, fits) in
    rw (p, room) refl
