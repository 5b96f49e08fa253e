-- ===== src/Hls/Playlist.antt =====
-- What the parsers of src/hls.c share: trimming, and the tests on a URL and on a text.
use hyperflux.Common.{
  ℕ, ◌-◌, Bool, true, false, ◌&&◌, ◌||◌, none, some, [], ◌∷◌, leb, ◌==◌, if◌then◌else◌, length,
  drop,
}
use hyperflux.Libc.{Text, same_nocase, after_prefix, span_until}

abbrev pub is_space : ℕ → Bool
is_space c = c == b' ' || (c == b'\t' || (c == b'\r' || c == b'\n'))

unfoldable pub space_off : Text → Text
space_off [] = []
space_off (c ∷ s) = let rest = space_off s in if is_space c then rest else c ∷ s

unfoldable pub space_off_end : Text → Text
space_off_end [] = []
space_off_end (c ∷ s) = elim (space_off_end s) [
  | [] ↦ if is_space c then [] else c ∷ []
  | d ∷ t ↦ c ∷ d ∷ t
]

unfoldable pub hls_trim : Text → Text
hls_trim s = space_off_end (space_off s)

unfoldable pub hls_skip_bom_ws : Text → Text
hls_skip_bom_ws s = elim (after_prefix (239 ∷ 187 ∷ 191 ∷ []) s) [
  | none ↦ space_off s
  | some rest ↦ space_off rest
]

unfoldable pub hls_is_m3u8 : Text → Bool
hls_is_m3u8 text =
    elim (after_prefix (b'#' ∷ b'E' ∷ b'X' ∷ b'T' ∷ b'M' ∷ b'3' ∷ b'U' ∷ [])
      (hls_skip_bom_ws text)) [ none ↦ false | some rest ↦ true ]

unfoldable pub ends_with : Text → Text → Bool
ends_with path ext =
    leb (length ext) (length path) && same_nocase (drop (length path - length ext) path) ext

unfoldable pub hls_is_playlist_url : Text → Bool
hls_is_playlist_url url =
    let path = (span_until (λ c. c == b'?' || c == b'#') url).0 in
    ends_with path (b'.' ∷ b'm' ∷ b'3' ∷ b'u' ∷ b'8' ∷ [])
    || ends_with path (b'.' ∷ b'm' ∷ b'3' ∷ b'u' ∷ [])
