-- ===== src/Hls/ParseMedia/Lines.antt =====
-- What a line of a media playlist does, by how it starts.
use hyperflux.Common.{
  ℕ, suc, ◌<◌, ◌≡◌, refl, inl, inr, true, false, none, some, [], ◌∷◌, ◌++◌, arith, leb, ◌==◌,
  length,
}
use hyperflux.Libc.{Text, after_prefix}
use hyperflux.Libc.Number.{strtol}
use hyperflux.Hls.{map_not_supported, hls_max_segments}
use hyperflux.Hls.ParseMedia.{
  media_apply_key, Scanning, segment_at, segment_url, keyed, extinf_tag, sequence_tag, key_tag,
  map_tag, late_line, media_line,
}

pub media_line-extinf :
    (base line : Text) (s : Scanning) (dur : Text)
    → after_prefix extinf_tag line ≡ some dur
    → media_line base line s ≡ inr (record s { pend_dur = dur; pending = true })
unfolding media_line
media_line-extinf base line s dur e = rw (e, media_line) refl

pub media_line-sequence :
    (base line : Text) (s : Scanning) (n : Text)
    → after_prefix extinf_tag line ≡ none
    → after_prefix sequence_tag line ≡ some n
    → media_line base line s
      ≡ inr (record s {
        m = record { segments = s.m.segments; enc = s.m.enc; media_sequence = (strtol n).0 };
      })
unfolding media_line
media_line-sequence base line s n e e' = rw (e, media_line) (rw e' refl)

pub media_line-key :
    (base line : Text) (s : Scanning) (attr : Text)
    → after_prefix extinf_tag line ≡ none
    → after_prefix sequence_tag line ≡ none
    → after_prefix key_tag line ≡ some attr
    → media_line base line s ≡ keyed (media_apply_key base attr) s
unfolding media_line
media_line-key base line s attr e e' e'' = rw (e, media_line) (rw e' (rw e'' refl))

pub media_line-late :
    (base line : Text) (s : Scanning)
    → after_prefix extinf_tag line ≡ none
    → after_prefix sequence_tag line ≡ none
    → after_prefix key_tag line ≡ none
    → media_line base line s ≡ late_line base line s
unfolding media_line
media_line-late base line s e e' e'' = rw (e, media_line) (rw e' (rw e'' refl))

pub late_line-nil : (base : Text) (s : Scanning) → late_line base [] s ≡ inr s
unfolding late_line
late_line-nil base s = refl

pub late_line-map :
    (base : Text) (c : ℕ) (line rest : Text) (s : Scanning)
    → after_prefix map_tag (c ∷ line) ≡ some rest
    → late_line base (c ∷ line) s ≡ inl map_not_supported
unfolding late_line
late_line-map base c line rest s e = rw (e, late_line) refl

pub late_line-tag :
    (base : Text) (c : ℕ) (line : Text) (s : Scanning)
    → after_prefix map_tag (c ∷ line) ≡ none
    → (c == b'#') ≡ true
    → late_line base (c ∷ line) s ≡ inr s
unfolding late_line
late_line-tag base c line s e e' = rw (e, late_line) (rw e' refl)

pub late_line-url :
    (base : Text) (c : ℕ) (line : Text) (s : Scanning)
    → after_prefix map_tag (c ∷ line) ≡ none
    → (c == b'#') ≡ false
    → late_line base (c ∷ line) s ≡ segment_url base (c ∷ line) s
unfolding late_line
late_line-url base c line s e e' = rw (e, late_line) (rw e' refl)

pub segment_url-pending :
    (base line : Text) (s : Scanning)
    → s.pending ≡ true
    → length s.m.segments < hls_max_segments
    → segment_url base line s
      ≡ inr (record s {
        m = record {
          segments = s.m.segments ++ (segment_at base line s ∷ []);
          media_sequence = s.m.media_sequence;
          enc = s.m.enc;
        };
        seq_index = suc s.seq_index;
        pending = false;
      })
unfolding segment_url
segment_url-pending base line s p fits =
    let room : leb hls_max_segments (length s.m.segments) ≡ false = ground (arith, fits) in
    rw (p, room) refl
