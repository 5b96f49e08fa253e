-- ===== src/Hls/Lines.antt =====
-- A playlist that is written from its lines.
use hyperflux.Common.{◌≡◌, refl, ap, ◌∙◌, true, false, List, [], ◌∷◌, ◌++◌, ◌==◌, Every}
use hyperflux.Libc.{Text, after_prefix}
use hyperflux.Libc.Cuts.{Free, text_of}
use hyperflux.Extractor.Tokens.{lines, onto_line}
use hyperflux.Hls.Playlist.{hls_trim, hls_is_m3u8, hls_skip_bom_ws, space_off, space_off_end}

abbrev pub m3u8_tag : Text
m3u8_tag = b'#' ∷ b'E' ∷ b'X' ∷ b'T' ∷ b'M' ∷ b'3' ∷ b'U' ∷ []

abbrev pub playlist : List Text → Text
playlist rest = text_of (m3u8_tag ∷ rest)

-- A line of its own: no newline in it, and nothing at its ends that is trimmed.
unfoldable pub IsLine : Text → Type 0
IsLine line = Free (λ c. c == b'\n') line × (hls_trim line ≡ line)

unfoldable pub IsUrlLine : Text → Type 0
IsUrlLine [] = ⊥
IsUrlLine (c ∷ line) = ((c == b'#') ≡ false) × IsLine (c ∷ line)

pub IsUrlLine-IsLine : (url : Text) → IsUrlLine url → IsLine url
unfolding IsUrlLine
IsUrlLine-IsLine [] h = absurd h
IsUrlLine-IsLine (c ∷ url) h = h.1

lines-append :
    (line rest : Text)
    → Free (λ c. c == b'\n') line
    → lines (line ++ (b'\n' ∷ rest)) ≡ line ∷ lines rest
unfolding lines Free onto_line
lines-append [] rest free = refl
lines-append (c ∷ line) rest free = rw free.0 (rw (lines-append line rest free.1) refl)

pub lines-text_of : (all : List Text) → Every IsLine all → lines (text_of all) ≡ all
unfolding Every text_of IsLine lines
lines-text_of [] h = refl
lines-text_of (line ∷ rest) h =
    lines-append line (text_of rest) h.0.0 ∙ ap (◌∷◌ line) (lines-text_of rest h.1)

pub m3u8_tag-IsLine : IsLine m3u8_tag
unfolding IsLine Free hls_trim space_off space_off_end
m3u8_tag-IsLine = ((refl, (refl, (refl, (refl, (refl, (refl, (refl, tt))))))), refl)

pub playlist-m3u8 : (rest : List Text) → hls_is_m3u8 (playlist rest) ≡ true
unfolding hls_is_m3u8 hls_skip_bom_ws space_off after_prefix text_of
playlist-m3u8 rest = refl
