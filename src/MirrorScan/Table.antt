-- ===== src/MirrorScan/Table.antt =====
-- `add_candidate` of src/scan.c: the list of candidates grows by a reference of the page.
pub mod Valid
use hyperflux.Common.{
  ℕ, ◌+◌, Bool, true, false, ◌||◌, Option, none, some, List, [], ◌∷◌, ◌++◌, ltb, leb, ◌==◌,
  if◌then◌else◌, length,
}
use hyperflux.Libc.{Text, same, is_empty}
use hyperflux.Libc.Int.{pos, negsuc}
use hyperflux.Extractor.Resolve.{resolve_url}
use hyperflux.MirrorScan.{Kind, Context, unknown, player, ad, Candidate}
use hyperflux.MirrorScan.Classify.{url_host, scan_is_ad_host, classify_url_ext}

abbrev pub max_candidates : ℕ
max_candidates = 256

-- `iscntrl` in the C locale, on some byte of a text.
unfoldable pub has_control : Text → Bool
has_control [] = false
has_control (c ∷ s) = if ltb c 32 || c == 127 then true else has_control s

-- The context of a URL that is found again.
unfoldable pub stronger : Context → Context → Context
stronger player old = player
stronger ad unknown = ad
stronger ad player = player
stronger ad ad = ad
stronger unknown old = old

unfoldable pub ad_host_of : Option Text → Bool
ad_host_of none = false
ad_host_of (some host) = scan_is_ad_host host

-- The context of a new candidate.
unfoldable pub first_context : Bool → Context → Context
first_context true unknown = ad
first_context true player = player
first_context true ad = ad
first_context false context = context

module _ {Double : Type 0} where
  -- The loop over the candidates for one with this URL: `none` if there is none.
  unfoldable pub bump : Text → Context → List (Candidate Double) → Option (List (Candidate Double))
  bump url context [] = none
  bump url context (c ∷ cs) =
      let rest = bump url context cs in
      if same c.url url
      then some (record c { count = c.count + 1; context = stronger context c.context } ∷ cs)
      else elim rest [ none ↦ none | some cs' ↦ some (c ∷ cs') ]

-- `nought` is 0.0.
module _ {Double : Type 0} (nought : Double) where
  unfoldable pub new_candidate : Text → Text → Kind → Context → Candidate Double
  new_candidate url raw_ref kind context = record {
    url = url;
    raw_ref = raw_ref;
    host = url_host url;
    kind = kind;
    context = first_context (ad_host_of (url_host url)) context;
    duration = nought;
    size = negsuc 0;
    width = pos 0;
    height = pos 0;
    bandwidth = pos 0;
    count = 1;
    ad_host = ad_host_of (url_host url);
    score = nought;
    depth = 0;
    chain = [];
    param_token = none;
    media_base = none;
    gdrive_filed = false;
  }

  -- The list for a URL of this kind.
  unfoldable pub insert :
      Text → Text → Kind → Context → List (Candidate Double) → List (Candidate Double)
  insert url raw_ref kind context cs = elim (bump url context cs) [
    | some cs' ↦ cs'
    | none ↦
        if leb max_candidates (length cs)
        then cs
        else cs ++ (new_candidate url raw_ref kind context ∷ [])
  ]

  -- `page_url` and `exts` are those of the context. Memory never runs out.
  unfoldable pub add_candidate :
      Text → Option (List Text) → Text → Context → List (Candidate Double) → List (Candidate Double)
  add_candidate page_url exts raw_ref context cs =
      let url = resolve_url page_url raw_ref in
      if is_empty raw_ref || has_control raw_ref || has_control url
      then cs
      else elim (classify_url_ext url exts) [
        | none ↦ cs
        | some kind ↦ insert url raw_ref kind context cs
      ]
