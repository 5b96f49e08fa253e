-- ===== src/Hls/ParseMaster/Limits.antt =====
-- The number of variants and audio renditions that `hls_parse_master` keeps.
use hyperflux.Common.{
  suc, ◌≤◌, ◌≡◌, refl, ◌⊎◌, inl, inr, false, List, [], ◌∷◌, ◌++◌, arith, ◌==◌, Bool-cases,
  Option-cases, length, length-append,
}
use hyperflux.Libc.{Text, after_prefix}
use hyperflux.Extractor.Tokens.{lines}
use hyperflux.Hls.{Master, not_m3u8, hls_max_variants}
use hyperflux.Hls.Playlist.{hls_trim, hls_is_m3u8}
use hyperflux.Hls.ParseMaster.{
  Scanning, master_add_media, stream_inf, variant_url, other_line, stream_inf_tag, media_tag,
  master_line, master_lines, scanning_start, hls_parse_master,
}
use hyperflux.Hls.ParseMaster.Lines.{master_line-stream, master_line-media, master_line-other}

-- Both arrays of `hls_master_t` are large enough.
unfoldable pub Fits : Master → Type 0
Fits m = (length m.variants ≤ hls_max_variants) × (length m.audios ≤ hls_max_variants)

length-snoc {ℓ} : {A : Type ℓ} (xs : List A) (x : A) → length (xs ++ (x ∷ [])) ≡ suc (length xs)
length-snoc xs x = omega (arith, length-append xs (x ∷ []))

master_add_media-Fits :
    (base attr : Text) (m : Master) → Fits m → Fits (master_add_media base attr m)
unfolding Fits master_add_media
master_add_media-Fits base attr m h = grind (arith, length-snoc)

variant_url-Fits : (base line : Text) (s : Scanning) → Fits s.m → Fits (variant_url base line s).m
unfolding Fits variant_url
variant_url-Fits base line s h = grind (arith, length-snoc)

other_line-Fits : (base line : Text) (s : Scanning) → Fits s.m → Fits (other_line base line s).m
unfolding other_line
other_line-Fits base [] s h = h
other_line-Fits base (c ∷ line) s h = elim (Bool-cases (c == b'#')) [
  | inl e ↦ rw e h
  | inr e ↦ rw e (variant_url-Fits base (c ∷ line) s h)
]

master_line-Fits : (base line : Text) (s : Scanning) → Fits s.m → Fits (master_line base line s).m
unfolding stream_inf
master_line-Fits base line s h = elim (Option-cases (after_prefix stream_inf_tag line)) [
  | inr (attr, e) ↦ rw (master_line-stream base line s attr e) h
  | inl e ↦ elim (Option-cases (after_prefix media_tag line)) [
    | inr (attr, e') ↦
        rw (master_line-media base line s attr e e') (master_add_media-Fits base attr s.m h)
    | inl e' ↦ rw (master_line-other base line s e e') (other_line-Fits base line s h)
  ]
]

master_lines-Fits :
    (base : Text) (raws : List Text) (s : Scanning) → Fits s.m → Fits (master_lines base raws s).m
unfolding master_lines
master_lines-Fits base [] s h = h
master_lines-Fits base (raw ∷ raws) s h =
    master_lines-Fits base raws _ (master_line-Fits base (hls_trim raw) s h)

-- Whatever the text, a playlist that is read has no more variants and no more audio renditions than the
-- arrays hold, and the only failure is a text without its first tag.
pub hls_parse_master-Fits :
    (text base : Text)
    → ((hls_is_m3u8 text ≡ false) × (hls_parse_master text base ≡ inl not_m3u8))
      ⊎ ((m : Master) × ((hls_parse_master text base ≡ inr m) × Fits m))
unfolding hls_parse_master Fits
hls_parse_master-Fits text base = elim (Bool-cases (hls_is_m3u8 text)) [
  | inl e ↦ inr (
    (master_lines base (lines text) scanning_start).m,
    (rw e refl, master_lines-Fits base (lines text) scanning_start (omega arith, omega arith)),
  )
  | inr e ↦ inl (e, rw e refl)
]
