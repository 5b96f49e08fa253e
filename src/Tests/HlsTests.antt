-- ===== src/Tests/HlsTests.antt =====
-- Playlists on small inputs.
use hyperflux.Common.{ℕ, ◌≡◌, refl, inr, true, false, none, some, List, [], ◌∷◌, map, arith, Every}
use Prim.Native.Char.{code}
use Prim.Native.String.{String}
use hyperflux.Libc.{Text, same_nocase, span_until}
use hyperflux.Libc.Int.{pos}
use hyperflux.Libc.Number.{strtol, skip_space, read_digits, read_number, read_signed}
use hyperflux.Libc.Cuts.{Free, Starts}
use hyperflux.Hls.{Variant, Master, enc_aes_128}
use hyperflux.Hls.Attributes.{attr_get}
use hyperflux.Hls.Attributes.Written.{
  Attribute, written, lookup, AreAttributes, IsValue, attr_get-written,
}
use hyperflux.Hls.Playlist.{hls_is_playlist_url, ends_with, hls_trim, space_off, space_off_end}
use hyperflux.Hls.Lines.{IsLine, IsUrlLine, playlist}
use hyperflux.Hls.ParseMaster.{hls_parse_master}
use hyperflux.Hls.ParseMaster.Written.{
  Stream, stream_lines, variant_of, AreLines, hls_parse_master-written,
}
use hyperflux.Hls.ParseMedia.{KeyState, hls_parse_media}
use hyperflux.Hls.ParseMedia.Keys.{IfRead}
use hyperflux.Hls.ParseMedia.Segments.{hls_parse_media-IsPlayable, IsPlayable}
use hyperflux.Hls.ParseMedia.Written.{Part}
use hyperflux.Hls.ParseMedia.Written as MediaWritten
use hyperflux.Hls.Select.{
  target_height, wanted, hls_select_variant, select_wanted, target_from, target_step, target_choice,
  smaller, fits_better, choose, better,
}
use hyperflux.Hls.Select.Chosen.{IsChoice, Means, beats, hls_select_variant_lem}

abbrev codes : String → Text
codes String.[] = []
codes (String.◌∷◌ c s) = code c ∷ codes s

-- PATH=a=b,TITLE="x, y"
abbrev attrs : List Attribute
attrs =
    record { name = codes "PATH"; quoted = false; value = codes "a=b" }
    ∷ record { name = codes "TITLE"; quoted = true; value = codes "x, y" }
    ∷ []

attrs-AreAttributes : AreAttributes attrs
unfolding AreAttributes IsValue Free Starts
attrs-AreAttributes = ground arith

attr_get-written_example : attr_get (written attrs) (codes "title") ≡ lookup attrs (codes "title")
attr_get-written_example = attr_get-written attrs (codes "title") attrs-AreAttributes

abbrev base : Text
base = codes "http://h/a/m.m3u8"

abbrev stream : Stream
stream = record { attr = codes "BANDWIDTH=80,RESOLUTION=4x3"; url = codes "v.m3u8" }

stream-AreLines : AreLines stream
unfolding AreLines IsLine IsUrlLine Free hls_trim space_off space_off_end
stream-AreLines = ground arith

hls_parse_master-written_example :
    (m : Master) × ((hls_parse_master (playlist (stream_lines (stream ∷ []))) base ≡ inr m)
      × (m.variants ≡ map (variant_of base) (stream ∷ [])))
unfolding Every
hls_parse_master-written_example =
    hls_parse_master-written base (stream ∷ []) (stream-AreLines, tt) (omega arith)

-- A height is wanted that only the second stream keeps to.
abbrev tall_stream : Variant
tall_stream = record {
  url = codes "t";
  bandwidth = pos 9;
  width = pos 16;
  height = pos 9;
  audio_group = none;
}

abbrev low_stream : Variant
low_stream = record {
  url = codes "l";
  bandwidth = pos 5;
  width = pos 4;
  height = pos 3;
  audio_group = none;
}

abbrev two_streams : Master
two_streams = record { variants = tall_stream ∷ low_stream ∷ []; audios = [] }

hls_select_variant_lem_example :
    (i : ℕ) × ((hls_select_variant two_streams (codes "5") ≡ some i)
      × IsChoice beats (target_height (pos 5)) two_streams.variants i)
unfolding strtol read_signed read_number read_digits skip_space
hls_select_variant_lem_example =
    hls_select_variant_lem two_streams (codes "5") (target_height (pos 5)) tall_stream
      (low_stream ∷ []) (Means.height (pos 5) refl refl) refl

select_height : hls_select_variant two_streams (codes "5") ≡ some 1
unfolding hls_select_variant select_wanted wanted target_from target_step target_choice smaller
    fits_better same_nocase strtol read_signed read_number read_digits skip_space
select_height = refl

select_best : hls_select_variant two_streams (codes "BEST") ≡ some 0
unfolding hls_select_variant select_wanted wanted choose better same_nocase
select_best = refl

abbrev key_attr : Text
key_attr = codes "METHOD=AES-128,URI=\"k\""

abbrev key : KeyState
key = record { enc = enc_aes_128; key_url = some (codes "http://h/a/k"); iv = none }

abbrev part : Part
part = record { dur = codes "9.5,"; url = codes "s0.ts" }

abbrev short_playlist : Text
short_playlist = codes "#EXTM3U\n#EXTINF:4,\na.ts\nstray.ts"

hls_parse_media-IsPlayable_example :
    IfRead (λ m. IsPlayable m.segments) (hls_parse_media short_playlist base)
hls_parse_media-IsPlayable_example = hls_parse_media-IsPlayable short_playlist base

abbrev sixteen : List ℕ
sixteen = 0 ∷ 1 ∷ 2 ∷ 3 ∷ 4 ∷ 5 ∷ 6 ∷ 7 ∷ 8 ∷ 9 ∷ 10 ∷ 11 ∷ 12 ∷ 13 ∷ 254 ∷ 255 ∷ []

playlist_url : hls_is_playlist_url (codes "http://h/x.M3U8?t=1.ts") ≡ true
unfolding hls_is_playlist_url ends_with span_until same_nocase
playlist_url = refl

no_playlist_url : hls_is_playlist_url (codes "http://h/x.ts?t=.m3u8") ≡ false
unfolding hls_is_playlist_url ends_with span_until same_nocase
no_playlist_url = refl
