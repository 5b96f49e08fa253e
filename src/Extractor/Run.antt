-- ===== src/Extractor/Run.antt =====
-- `extractor_run` and `extractor_matches` of src/extractor.c. POSIX regular expressions and the
-- fetching of pages are parameters.
pub mod Episode
use hyperflux.Common.{
  ℕ, ◌+◌, ◌-◌, Bool, true, false, ◌&&◌, ◌||◌, Option, none, some, List, [], ◌∷◌, ltb, leb,
  if◌then◌else◌, length, take, drop,
}
use hyperflux.Extractor.{Text, Header, Kind, Directive, Extractor}
use hyperflux.Extractor.Store.{Store, store_get, store_set}
use hyperflux.Extractor.Interpolate.{interpolate}
use hyperflux.Extractor.Resolve.{resolve_url}

-- What `regexec` reports of a match: the end of it, and the start and end of group 1 if that took
-- part.
pub record Match : Type 0 where
  pub end : ℕ
  pub group : Option (ℕ × ℕ)

-- A pattern that `regcomp` accepts: `re_nsub`, and `regexec`.
pub record Regex : Type 0 where
  pub nsub : ℕ
  pub exec : Text → Option Match

-- `regcomp`; `none` for an error.
abbrev pub Compiler : Type 0
Compiler = Text → Option Regex

-- The answer to the fetch of the directive with this index; `none` for a failure.
abbrev pub Fetcher : Type 0
Fetcher = ℕ → Text → List Header → Option Text

abbrev pub sub_text : ℕ → ℕ → Text → Text
sub_text so eo src = take (eo - so) (drop so src)

unfoldable pub capture_with : Regex → Text → Option Text
capture_with re src = if ltb re.nsub 1 then none else elim (re.exec src) [
  | none ↦ none
  | some m ↦ elim m.group [ none ↦ none | some (so, eo) ↦ some (sub_text so eo src) ]
]

-- `regex_capture1`. Both callers treat 0, no match, like the error -1.
unfoldable pub regex_capture1 : Compiler → Text → Text → Option Text
regex_capture1 regcomp ere src = elim (regcomp ere) [ none ↦ none | some re ↦ capture_with re src ]

-- A var directive. `none` goes to `done`.
unfoldable pub run_var : Compiler → Directive → Store → Option Store
run_var regcomp d st = elim (store_get st d.source) [
  | none ↦ none
  | some src ↦ elim (interpolate d.arg st) [
    | none ↦ none
    | some ere ↦ elim (regex_capture1 regcomp ere src) [
      | none ↦ none
      | some cap ↦ store_set st d.name cap
    ]
  ]
]

-- The headers of a get directive, with their values interpolated.
unfoldable pub run_headers : Store → List Header → Option (List Header)
run_headers st [] = some []
run_headers st (h ∷ hs) = elim (interpolate h.val st) [
  | none ↦ none
  | some hv ↦ elim (run_headers st hs) [
    | none ↦ none
    | some rest ↦ some (record h { val = hv } ∷ rest)
  ]
]

abbrev pub url_var : Text
url_var = b'u' ∷ b'r' ∷ b'l' ∷ []

-- Against the variable {url}.
unfoldable pub absolute : Store → Text → Text
absolute st ref = elim (store_get st url_var) [
  | none ↦ resolve_url [] ref
  | some base ↦ resolve_url base ref
]

unfoldable pub fetch_with : Option Fetcher → ℕ → Text → List Header → Option Text
fetch_with none i url hdrs = none
fetch_with (some fetch) i url hdrs = fetch i url hdrs

-- A get directive.
unfoldable pub run_get : Option Fetcher → ℕ → Directive → Store → Option Store
run_get fetch i d st = elim (interpolate d.arg st) [
  | none ↦ none
  | some url ↦ elim (run_headers st d.headers) [
    | none ↦ none
    | some hdrs ↦ elim (fetch_with fetch i (absolute st url) hdrs) [
      | none ↦ none
      | some body ↦ store_set st d.name body
    ]
  ]
]

-- An output directive: the media URL.
unfoldable pub run_output : Directive → Store → Option Text
run_output d st = elim (interpolate d.arg st) [
  | none ↦ none
  | some media ↦ some (absolute st media)
]

-- `list_idx`, counted from `i` on: where the first list directive stands, or the end.
unfoldable pub list_index : ℕ → List Directive → ℕ
list_index i [] = i
list_index i (d ∷ ds) =
    let rest = list_index (i + 1) ds in
    elim d.kind [
      | Kind.list_dir ↦ i
      | Kind.var_dir ↦ rest
      | Kind.get_dir ↦ rest
      | Kind.output_dir ↦ rest
    ]

-- One directive, index `i`, and what goes on from the store it leaves. `none` for -1.
unfoldable pub run_directive :
    Compiler → Option Fetcher → ℕ → Directive → Store → (Store → Option Text) → Option Text
run_directive regcomp fetch i d st go_on = elim d.kind [
  | Kind.var_dir ↦ elim (run_var regcomp d st) [ none ↦ none | some st' ↦ go_on st' ]
  | Kind.get_dir ↦ elim (run_get fetch i d st) [ none ↦ none | some st' ↦ go_on st' ]
  | Kind.output_dir ↦ run_output d st
  | Kind.list_dir ↦ go_on st
]

-- The loop from directive `i` on; `skip` tells which ones it passes over.
unfoldable pub run_from :
    Compiler → Option Fetcher → (ℕ → Bool) → ℕ → List Directive → Store → Option Text
run_from regcomp fetch skip i [] st = none
run_from regcomp fetch skip i (d ∷ ds) st = elim (skip i) [
  | true ↦ run_from regcomp fetch skip (i + 1) ds st
  | false ↦ run_directive regcomp fetch i d st (λ s. run_from regcomp fetch skip (i + 1) ds s)
]

-- The directives up to and including the first list directive, if there is one.
unfoldable pub skipped : List Directive → ℕ → Bool
skipped ds i = leb i (list_index 0 ds) && ltb (list_index 0 ds) (length ds)

unfoldable pub extractor_run : Compiler → Option Fetcher → Extractor → Text → Option Text
extractor_run regcomp fetch ex page_url = elim (store_set [] url_var page_url) [
  | none ↦ none
  | some st ↦ run_from regcomp fetch (skipped ex.directives) 0 ex.directives st
]

unfoldable pub matches_pattern : Compiler → Text → Text → Bool
matches_pattern regcomp url pattern = elim (regcomp pattern) [
  | none ↦ false
  | some re ↦ elim (re.exec url) [ none ↦ false | some m ↦ true ]
]

-- The loop of `extractor_matches`.
unfoldable pub matches_any : Compiler → Text → List Text → Bool
matches_any regcomp url [] = false
matches_any regcomp url (p ∷ ps) = matches_pattern regcomp url p || matches_any regcomp url ps

unfoldable pub extractor_matches : Compiler → Extractor → Text → Bool
extractor_matches regcomp ex url = matches_any regcomp url ex.matches
