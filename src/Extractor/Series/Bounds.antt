-- ===== src/Extractor/Series/Bounds.antt =====
-- How many episodes a list can have.
use hyperflux.Common.{
  ℕ, zero, suc, ◌+◌, ◌≤◌, ◌≡◌, sym, inl, inr, Option, none, some, List, [], ◌∷◌, ◌++◌, arith, ltb,
  Bool-cases, Option-cases, length, ltb→lt, length-append,
}
use hyperflux.Extractor.{Text, Kind, Directive, Extractor, extractor_max_episodes}
use hyperflux.Extractor.Store.{Store, store_get, store_set}
use hyperflux.Extractor.Interpolate.{interpolate}
use hyperflux.Extractor.Resolve.{resolve_url}
use hyperflux.Extractor.Run.{Match, Regex, Compiler, Fetcher, sub_text, run_var, run_get, url_var}
use hyperflux.Extractor.Series.{
  keep_item, past_match, capture_from, regex_capture_all, is_among, dedup_from, resolve_dedup_list,
  capture_items, run_list, list_from, base_of, extractor_list_episodes,
}
use hyperflux.Extractor.Series.Distinct.{IsDistinct, resolve_dedup_list-IsDistinct}

length-keep_item :
    (p : Text) (m : Match) (arr : List Text) → length (keep_item p m arr) ≤ length arr + 1
unfolding keep_item
length-keep_item p m arr = elim (Option-cases m.group) [
  | inl e ↦ rw e (omega arith)
  | inr ((so, eo), e) ↦ rw e (rw (length-append arr (sub_text so eo p ∷ [])) (omega arith))
]

going_on_bound :
    (q : Text) (arr : List Text) (cap : ℕ) (go_on : Text → List Text)
    → length arr ≤ cap
    → ((t : Text) → length (go_on t) ≤ cap)
    → length (elim q [ [] ↦ arr | c ∷ after ↦ go_on (c ∷ after) ]) ≤ cap
going_on_bound [] arr cap go_on h k = h
going_on_bound (c ∷ after) arr cap go_on h k = k (c ∷ after)

-- Never more items than asked for.
capture_from_bound :
    (fuel cap : ℕ) (re : Regex) (p : Text) (arr : List Text)
    → length arr ≤ cap
    → length (capture_from fuel re cap p arr) ≤ cap
unfolding capture_from
capture_from_bound zero cap re p arr h = h
capture_from_bound (suc fuel) cap re p arr h = elim (Bool-cases (ltb (length arr) cap)) [
  | inr l ↦ rw (l, capture_from) h
  | inl l ↦ elim (Option-cases (re.exec p)) [
    | inl e ↦ rw (l, capture_from) (rw e h)
    | inr (m, e) ↦
        let kept : length (keep_item p m arr) ≤ cap =
          omega (arith, length-keep_item p m arr, ltb→lt (length arr) cap l) in
        rw (l, capture_from)
          (rw e (
            going_on_bound (past_match m p) (keep_item p m arr) cap
              (λ t. capture_from fuel re cap t (keep_item p m arr)) kept
              (λ t. capture_from_bound fuel cap re t (keep_item p m arr) kept)))
  ]
]

length-dedup_from :
    (base : Text) (out raw : List Text) → length (dedup_from base out raw) ≤ length out + length raw
unfolding dedup_from
length-dedup_from base out [] = omega arith
length-dedup_from base out (r ∷ raw) = elim (Bool-cases (is_among (resolve_url base r) out)) [
  | inl e ↦ rw (e, dedup_from) (omega (arith, length-dedup_from base out raw))
  | inr e ↦
      let x = resolve_url base r in
      rw (e, dedup_from)
        (omega (arith, length-dedup_from base (out ++ (x ∷ [])) raw, length-append out (x ∷ [])))
]

length-resolve_dedup_list :
    (base : Text) (raw : List Text) → length (resolve_dedup_list base raw) ≤ length raw
unfolding resolve_dedup_list
length-resolve_dedup_list base raw = omega (arith, length-dedup_from base [] raw)

-- The items that a list directive captured, if it did.
unfoldable FewItems : Option (List Text × Store) → Type 0
FewItems none = Unit {0}
FewItems (some (raw, st)) = length raw ≤ extractor_max_episodes

FewItems-none : FewItems none
unfolding FewItems
FewItems-none = tt

FewItems-bind {ℓ} :
    {A : Type ℓ} (o : Option A) (go_on : A → Option (List Text × Store))
    → ((a : A) → FewItems (go_on a))
    → FewItems (elim o [ none ↦ none | some a ↦ go_on a ])
unfolding FewItems
FewItems-bind none go_on h = tt
FewItems-bind (some a) go_on h = h a

unfoldable FewTexts : Option (List Text) → Type 0
FewTexts none = Unit {0}
FewTexts (some raw) = length raw ≤ extractor_max_episodes

regex_capture_all-FewTexts :
    (regcomp : Compiler) (ere src : Text)
    → FewTexts (regex_capture_all regcomp ere src extractor_max_episodes)
unfolding regex_capture_all FewTexts
regex_capture_all-FewTexts regcomp ere src = elim (Option-cases (regcomp ere)) [
  | inl e ↦ rw (e, regex_capture_all) tt
  | inr (re, e) ↦ elim (Bool-cases (ltb re.nsub 1)) [
    | inl l ↦ rw (e, regex_capture_all) (rw l tt)
    | inr l ↦
        rw (e, regex_capture_all)
          (rw l
            (capture_from_bound (length src + 1) extractor_max_episodes re src [] (omega arith)))
  ]
]

FewTexts-nonempty :
    (o : Option (List Text))
    → FewTexts o
    → FewTexts (elim o [ none ↦ none | some [] ↦ none | some (r ∷ raw) ↦ some (r ∷ raw) ])
unfolding FewTexts
FewTexts-nonempty none h = tt
FewTexts-nonempty (some []) h = tt
FewTexts-nonempty (some (r ∷ raw)) h = h

capture_items-FewTexts :
    (regcomp : Compiler) (ere src : Text) → FewTexts (capture_items regcomp ere src)
unfolding capture_items
capture_items-FewTexts regcomp ere src =
    FewTexts-nonempty _ (regex_capture_all-FewTexts regcomp ere src)

FewItems-texts :
    (o : Option (List Text)) (st : Store)
    → FewTexts o
    → FewItems (elim o [ none ↦ none | some raw ↦ some (raw, st) ])
unfolding FewTexts FewItems
FewItems-texts none st h = tt
FewItems-texts (some raw) st h = h

run_list-FewItems :
    (regcomp : Compiler) (d : Directive) (st : Store) → FewItems (run_list regcomp d st)
unfolding run_list
run_list-FewItems regcomp d st = FewItems-bind (store_get st d.source) _ (λ src.
    FewItems-bind (interpolate d.arg st) _ (λ ere.
      FewItems-texts (capture_items regcomp ere src) st (capture_items-FewTexts regcomp ere src)))

FewItems-kind :
    (k : Kind) (l v g o : Option (List Text × Store))
    → FewItems l
    → FewItems v
    → FewItems g
    → FewItems o
    → FewItems
        (elim k [ Kind.list_dir ↦ l | Kind.var_dir ↦ v | Kind.get_dir ↦ g | Kind.output_dir ↦ o ])
FewItems-kind Kind.list_dir l v g o a b c d = a
FewItems-kind Kind.var_dir l v g o a b c d = b
FewItems-kind Kind.get_dir l v g o a b c d = c
FewItems-kind Kind.output_dir l v g o a b c d = d

list_from-FewItems :
    (regcomp : Compiler) (fetch : Option Fetcher) (i : ℕ) (ds : List Directive) (st : Store)
    → FewItems (list_from regcomp fetch i ds st)
unfolding list_from
list_from-FewItems regcomp fetch i [] st = FewItems-none
list_from-FewItems regcomp fetch i (d ∷ ds) st =
    FewItems-kind d.kind _ _ _ _ (run_list-FewItems regcomp d st)
      (FewItems-bind (run_var regcomp d st) _ (λ s. list_from-FewItems regcomp fetch (i + 1) ds s))
      (FewItems-bind (run_get fetch i d st) _ (λ s. list_from-FewItems regcomp fetch (i + 1) ds s))
      (list_from-FewItems regcomp fetch (i + 1) ds st)

FewItems-some :
    (o : Option (List Text × Store)) (raw : List Text) (st : Store)
    → FewItems o
    → o ≡ some (raw, st)
    → length raw ≤ extractor_max_episodes
unfolding FewItems
FewItems-some none raw st h e = ground arith
FewItems-some (some (raw', st')) raw st h e =
    let got : raw' ≡ raw = ground (arith, e) in rw (sym got) h

-- `extractor_list_episodes` returns 2000 URLs at most, no two of them equal.
pub extractor_list_episodes_bound :
    (regcomp : Compiler) (fetch : Option Fetcher) (ex : Extractor) (page_url : Text)
    (urls : List Text)
    → extractor_list_episodes regcomp fetch ex page_url ≡ some urls
    → (length urls ≤ 2000) × IsDistinct urls
unfolding extractor_list_episodes
extractor_list_episodes_bound regcomp fetch ex page_url urls h =
    elim (Option-cases (store_set [] url_var page_url)) [
      | inl e ↦ ground (arith, h, e)
      | inr (st, e) ↦ elim (Option-cases (list_from regcomp fetch 0 ex.directives st)) [
        | inl e' ↦ ground (arith, h, e, e')
        | inr ((raw, st'), e') ↦
            let got : resolve_dedup_list (base_of st') raw ≡ urls = ground (arith, h, e, e') in
            let few =
              FewItems-some _ raw st' (list_from-FewItems regcomp fetch 0 ex.directives st) e' in
            rw (sym got) (
              omega (arith, few, length-resolve_dedup_list (base_of st') raw),
              resolve_dedup_list-IsDistinct (base_of st') raw,
            )
      ]
    ]
