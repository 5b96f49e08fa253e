-- ===== src/MirrorScan/Classify.antt =====
-- Hosts and extensions: `url_host`, `scan_is_ad_host` and `classify_url_ext` of src/scan.c.
pub mod Ads
use hyperflux.Common.{
  ℕ, zero, suc, ◌+◌, ◌-◌, Bool, true, false, not, ◌&&◌, ◌||◌, Option, none, some, List, [], ◌∷◌,
  ltb, ◌==◌, if◌then◌else◌, length, map, drop,
}
use Prim.Native.Char.{code}
use Prim.Native.String.{String}
use hyperflux.Libc.{
  Text, same, is_empty, to_lower, same_nocase, after_prefix_nocase, cut_at, span_until, find_text,
}
use hyperflux.MirrorScan.{Kind, file, hls}

-- The bytes of a literal.
abbrev pub codes : String → Text
codes String.[] = []
codes (String.◌∷◌ c s) = code c ∷ codes s

abbrev pub ad_hosts : List Text
ad_hosts =
    (codes "doubleclick.net")
    ∷ (codes "googlesyndication.com")
    ∷ (codes "googleadservices.com")
    ∷ (codes "imasdk.googleapis.com")
    ∷ (codes "adservice.google.com")
    ∷ (codes "adsystem.com")
    ∷ (codes "adnxs.com")
    ∷ (codes "adsrvr.org")
    ∷ (codes "moatads.com")
    ∷ (codes "scorecardresearch.com")
    ∷ (codes "popads.net")
    ∷ (codes "propellerads.com")
    ∷ (codes "popcash.net")
    ∷ (codes "adsterra.com")
    ∷ (codes "hilltopads.net")
    ∷ (codes "hilltopads.com")
    ∷ (codes "exoclick.com")
    ∷ (codes "clickadu.com")
    ∷ (codes "juicyads.com")
    ∷ (codes "adcash.com")
    ∷ (codes "popmyads.com")
    ∷ (codes "mgid.com")
    ∷ (codes "onclickads.net")
    ∷ (codes "trafficjunky.com")
    ∷ []

abbrev pub default_exts : List (Text × Kind)
default_exts =
    (codes "m3u8", hls)
    ∷ (codes "m3u", hls)
    ∷ (codes "mp4", file)
    ∷ (codes "webm", file)
    ∷ (codes "mkv", file)
    ∷ (codes "mov", file)
    ∷ (codes "m4v", file)
    ∷ (codes "avi", file)
    ∷ (codes "flv", file)
    ∷ (codes "ts", file)
    ∷ (codes "m2ts", file)
    ∷ (codes "ogv", file)
    ∷ (codes "mp3", file)
    ∷ (codes "flac", file)
    ∷ (codes "aac", file)
    ∷ (codes "opus", file)
    ∷ (codes "ogg", file)
    ∷ (codes "oga", file)
    ∷ (codes "wav", file)
    ∷ (codes "m4a", file)
    ∷ (codes "weba", file)
    ∷ (codes "wma", file)
    ∷ (codes "aiff", file)
    ∷ (codes "alac", file)
    ∷ []

abbrev pub is_some_text : Option Text → Bool
is_some_text none = false
is_some_text (some t) = true

-- A byte that ends the authority of a URL, or its path.
abbrev pub ends_authority : ℕ → Bool
ends_authority c = c == b'/' || (c == b'?' || c == b'#')

abbrev pub ends_path : ℕ → Bool
ends_path c = c == b'?' || c == b'#'

abbrev pub behind_userinfo : Text → Text
behind_userinfo auth = elim (cut_at b'@' auth) [ none ↦ auth | some p ↦ p.1 ]

abbrev pub before_port : Text → Text
before_port auth = elim (cut_at b':' auth) [ none ↦ auth | some p ↦ p.0 ]

unfoldable pub url_host : Text → Option Text
url_host url = elim (find_text (codes "://") url) [
  | none ↦ none
  | some p ↦
      some (map to_lower (before_port (behind_userinfo (span_until ends_authority (drop 3 p.1)).0)))
]

-- `s` is a dot and `ext`.
unfoldable pub dot_ext : Text → Text → Bool
dot_ext ext [] = false
dot_ext ext (c ∷ s) = c == b'.' && is_some_text (after_prefix_nocase ext s)

-- The path of a URL ends in a dot and `ext`.
unfoldable pub has_ext : Text → Text → Bool
has_ext path ext =
    if ltb (length path) (length ext + 1)
    then false
    else dot_ext ext (drop (length path - length ext - 1) path)

unfoldable pub classify_custom : Text → List Text → Option Kind
classify_custom path [] = none
classify_custom path (ext ∷ exts) =
    if not (length ext == 0) && has_ext path ext then some file else classify_custom path exts

unfoldable pub classify_default : Text → List (Text × Kind) → Option Kind
classify_default path [] = none
classify_default path (e ∷ es) = if has_ext path e.0 then some e.1 else classify_default path es

-- `exts` is NULL for the default set.
unfoldable pub classify_url_ext : Text → Option (List Text) → Option Kind
classify_url_ext url none = classify_default (span_until ends_path url).0 default_exts
classify_url_ext url (some exts) = classify_custom (span_until ends_path url).0 exts

-- `tail == host || tail[-1] == '.'`
unfoldable pub on_boundary : Text → ℕ → Bool
on_boundary host zero = true
on_boundary host (suc n) = elim (drop n host) [ [] ↦ false | c ∷ s ↦ c == b'.' ]

-- One turn of the loop over the list of advertisers.
unfoldable pub is_ad_entry : Text → Text → Bool
is_ad_entry host ad =
    if same ad (codes "adservice.google.com")
      && is_some_text (after_prefix_nocase (codes "adservice.") host)
    then true
    else if ltb (length host) (length ad)
    then false
    else if not (same_nocase (drop (length host - length ad) host) ad)
    then false
    else on_boundary host (length host - length ad)

unfoldable pub is_ad_from : Text → List Text → Bool
is_ad_from host [] = false
is_ad_from host (ad ∷ ads) = if is_ad_entry host ad then true else is_ad_from host ads

-- NULL is the empty text here.
unfoldable pub scan_is_ad_host : Text → Bool
scan_is_ad_host host = if is_empty host then false else is_ad_from host ad_hosts
