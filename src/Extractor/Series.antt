-- ===== src/Extractor/Series.antt =====
-- Series mode in src/extractor.c: `extractor_list_episodes` and what it calls.
pub mod Distinct
pub mod Bounds
pub mod Ending
use hyperflux.Common.{
  ℕ, zero, suc, ◌+◌, Bool, true, false, ◌||◌, Option, none, some, List, [], ◌∷◌, ◌++◌, ltb,
  if◌then◌else◌, length, drop,
}
use hyperflux.Extractor.{Text, same, Kind, Directive, Extractor, extractor_max_episodes}
use hyperflux.Extractor.Store.{Store, store_get, store_set}
use hyperflux.Extractor.Interpolate.{interpolate}
use hyperflux.Extractor.Resolve.{resolve_url}
use hyperflux.Extractor.Run.{Match, Regex, Compiler, Fetcher, sub_text, run_var, run_get, url_var}

-- The loop of `extractor_has_list`.
unfoldable pub has_list : List Directive → Bool
has_list [] = false
has_list (d ∷ ds) =
    let rest = has_list ds in
    elim d.kind [
      | Kind.list_dir ↦ true
      | Kind.var_dir ↦ rest
      | Kind.get_dir ↦ rest
      | Kind.output_dir ↦ rest
    ]

-- `arr` with the item of a match behind it, if group 1 took part.
unfoldable pub keep_item : Text → Match → List Text → List Text
keep_item p m arr = elim m.group [ none ↦ arr | some (so, eo) ↦ arr ++ (sub_text so eo p ∷ []) ]

-- How far a match moves `p`: past its end, and at least one byte.
unfoldable pub past_match : Match → Text → Text
past_match m p = if ltb 0 m.end then drop m.end p else drop 1 p

-- The loop of `regex_capture_all`. A match moves it by one byte or more.
unfoldable pub capture_from : ℕ → Regex → ℕ → Text → List Text → List Text
capture_from zero re cap_max p arr = arr
capture_from (suc fuel) re cap_max p arr =
    if ltb (length arr) cap_max
    then elim (re.exec p) [
      | none ↦ arr
      | some m ↦ elim (past_match m p) [
        | [] ↦ keep_item p m arr
        | c ∷ after ↦ capture_from fuel re cap_max (c ∷ after) (keep_item p m arr)
      ]
    ]
    else arr

-- `none` for -1.
unfoldable pub regex_capture_all : Compiler → Text → Text → ℕ → Option (List Text)
regex_capture_all regcomp ere src cap_max = elim (regcomp ere) [
  | none ↦ none
  | some re ↦ if ltb re.nsub 1 then none else some (capture_from (length src + 1) re cap_max src [])
]

unfoldable pub is_among : Text → List Text → Bool
is_among a [] = false
is_among a (x ∷ out) = same x a || is_among a out

-- The loop of `resolve_dedup_list`.
unfoldable pub dedup_from : Text → List Text → List Text → List Text
dedup_from base out [] = out
dedup_from base out (r ∷ raw) =
    let a = resolve_url base r in
    dedup_from base (if is_among a out then out else out ++ (a ∷ [])) raw

unfoldable pub resolve_dedup_list : Text → List Text → List Text
resolve_dedup_list base raw = dedup_from base [] raw

unfoldable pub capture_items : Compiler → Text → Text → Option (List Text)
capture_items regcomp ere src = elim (regex_capture_all regcomp ere src extractor_max_episodes) [
  | none ↦ none
  | some [] ↦ none
  | some (r ∷ raw) ↦ some (r ∷ raw)
]

-- The list directive: the captured items and the store; `none` goes to `done` with -1.
unfoldable pub run_list : Compiler → Directive → Store → Option (List Text × Store)
run_list regcomp d st = elim (store_get st d.source) [
  | none ↦ none
  | some src ↦ elim (interpolate d.arg st) [
    | none ↦ none
    | some ere ↦ elim (capture_items regcomp ere src) [ none ↦ none | some raw ↦ some (raw, st) ]
  ]
]

-- The loop over the directives up to the first list directive.
unfoldable pub list_from :
    Compiler → Option Fetcher → ℕ → List Directive → Store → Option (List Text × Store)
list_from regcomp fetch i [] st = none
list_from regcomp fetch i (d ∷ ds) st = elim d.kind [
  | Kind.list_dir ↦ run_list regcomp d st
  | Kind.var_dir ↦ elim (run_var regcomp d st) [
    | none ↦ none
    | some st' ↦ list_from regcomp fetch (i + 1) ds st'
  ]
  | Kind.get_dir ↦ elim (run_get fetch i d st) [
    | none ↦ none
    | some st' ↦ list_from regcomp fetch (i + 1) ds st'
  ]
  | Kind.output_dir ↦ list_from regcomp fetch (i + 1) ds st
]

-- `store_get(&st, "url", 3)`, and "" for NULL.
unfoldable pub base_of : Store → Text
base_of st = elim (store_get st url_var) [ none ↦ [] | some base ↦ base ]

unfoldable pub extractor_list_episodes :
    Compiler → Option Fetcher → Extractor → Text → Option (List Text)
extractor_list_episodes regcomp fetch ex page_url = elim (store_set [] url_var page_url) [
  | none ↦ none
  | some st ↦ elim (list_from regcomp fetch 0 ex.directives st) [
    | none ↦ none
    | some (raw, st') ↦ some (resolve_dedup_list (base_of st') raw)
  ]
]
