-- ===== src/Extractor/Run/Episode.antt =====
-- A run over an episode uses the directives behind the first list directive.
use hyperflux.Common.{
  ℕ, ◌+◌, ◌≤◌, ◌<◌, ◌≡◌, refl, ap, ◌∙◌, ◌≢◌, Bool, true, false, Option, none, some, List, [], ◌∷◌,
  ◌++◌, arith, leb, length, length-append,
}
use mathlib.Core.Path.{fun_ext}
use hyperflux.Extractor.{Text, Kind, Directive, Extractor}
use hyperflux.Extractor.Store.{Store, store_set, replaced}
use hyperflux.Extractor.Run.{
  Compiler, Fetcher, run_directive, url_var, list_index, run_from, skipped, extractor_run,
}

-- The pipeline: the directives one after another, `i` the index of the first.
unfoldable pub pipeline : Compiler → Option Fetcher → ℕ → List Directive → Store → Option Text
pipeline regcomp fetch i [] st = none
pipeline regcomp fetch i (d ∷ ds) st =
    run_directive regcomp fetch i d st (λ s. pipeline regcomp fetch (i + 1) ds s)

-- No directive of these is a list directive.
unfoldable pub NoList : List Directive → Type 0
NoList [] = Unit {0}
NoList (d ∷ ds) = (d.kind ≢ Kind.list_dir) × NoList ds

module _ (regcomp : Compiler) (fetch : Option Fetcher) where
  -- With nothing to skip from `i` on, the loop is the pipeline.
  run_from-pipeline :
      (skip : ℕ → Bool) (i : ℕ) (ds : List Directive) (st : Store)
      → ((j : ℕ) → i ≤ j → skip j ≡ false)
      → run_from regcomp fetch skip i ds st ≡ pipeline regcomp fetch i ds st
  unfolding run_from pipeline
  run_from-pipeline skip i [] st h = refl
  run_from-pipeline skip i (d ∷ ds) st h =
      rw (h i (omega arith), run_from, pipeline)
        (ap (run_directive regcomp fetch i d st)
          (fun_ext (λ s. run_from-pipeline skip (i + 1) ds s (λ j k. h j (omega arith)))))

  -- With all of them skipped, the loop comes to what stands behind.
  run_from-skipped :
      (skip : ℕ → Bool) (i : ℕ) (before rest : List Directive) (st : Store)
      → ((j : ℕ) → j < i + length before → skip j ≡ true)
      → run_from regcomp fetch skip i (before ++ rest) st
        ≡ run_from regcomp fetch skip (i + length before) rest st
  unfolding run_from
  run_from-skipped skip i [] rest st h =
      ap (λ n. run_from regcomp fetch skip n rest st) (omega arith)
  run_from-skipped skip i (d ∷ before) rest st h =
      rw (h i (omega arith), run_from)
        (run_from-skipped skip (i + 1) before rest st (λ j k. h j (omega arith))
          ∙ ap (λ n. run_from regcomp fetch skip n rest st) (omega arith))

not_a_list :
    (k : Kind) (x y : ℕ)
    → k ≢ Kind.list_dir
    → (elim k [ Kind.list_dir ↦ x | Kind.var_dir ↦ y | Kind.get_dir ↦ y | Kind.output_dir ↦ y ]) ≡ y
not_a_list Kind.var_dir x y h = refl
not_a_list Kind.get_dir x y h = refl
not_a_list Kind.output_dir x y h = refl
not_a_list Kind.list_dir x y h = absurd (h refl)

list_index_found :
    (i : ℕ) (before rest : List Directive) (l : Directive)
    → NoList before
    → l.kind ≡ Kind.list_dir
    → list_index i (before ++ (l ∷ rest)) ≡ i + length before
unfolding list_index NoList
list_index_found i [] rest l n k = rw k (omega arith)
list_index_found i (d ∷ before) rest l (m, n) k =
    not_a_list d.kind i (list_index (i + 1) (before ++ (l ∷ rest))) m
    ∙ list_index_found (i + 1) before rest l n k
    ∙ omega arith

list_index_missing : (i : ℕ) (ds : List Directive) → NoList ds → list_index i ds ≡ i + length ds
unfolding list_index NoList
list_index_missing i [] n = omega arith
list_index_missing i (d ∷ ds) (m, n) =
    not_a_list d.kind i (list_index (i + 1) ds) m ∙ list_index_missing (i + 1) ds n ∙ omega arith

-- The store at the start: {url} is the page.
abbrev pub start_store : Text → Store
start_store page_url = record { name = url_var; value = page_url } ∷ []

store_set_first :
    (name value : Text)
    → store_set [] name value ≡ some (record { name = name; value = value } ∷ [])
unfolding store_set replaced
store_set_first name value = refl

skipped_up_to :
    (before rest : List Directive) (l : Directive) (j : ℕ)
    → NoList before
    → l.kind ≡ Kind.list_dir
    → skipped (before ++ (l ∷ rest)) j ≡ leb j (length before)
unfolding skipped
skipped_up_to before rest l j n k =
    rw (list_index_found 0 before rest l n k, length-append before (l ∷ rest)) (ground arith)

run_from-series :
    (regcomp : Compiler) (fetch : Option Fetcher) (before rest : List Directive) (l : Directive)
    (st : Store)
    → NoList before
    → l.kind ≡ Kind.list_dir
    → run_from regcomp fetch (skipped (before ++ (l ∷ rest))) 0 (before ++ (l ∷ rest)) st
      ≡ pipeline regcomp fetch (length before + 1) rest st
run_from-series regcomp fetch before rest l st n k =
    let skip = skipped (before ++ (l ∷ rest)) in
    let test : (j : ℕ) → skip j ≡ leb j (length before) = λ j. skipped_up_to before rest l j n k in
    run_from-skipped regcomp fetch skip 0 before (l ∷ rest) st (λ j m. test j ∙ ground arith)
    ∙ run_from-skipped regcomp fetch skip _ (l ∷ []) rest st (λ j m. test j ∙ ground arith)
    ∙ run_from-pipeline regcomp fetch skip _ rest st (λ j m. test j ∙ ground arith)
    ∙ ap (λ i. pipeline regcomp fetch i rest st) (omega arith)

-- When the first list directive stands behind `before`, a run does what the directives behind it
-- do, one after another from a store with only {url} in it; those before it are not run.
pub extractor_run-series :
    (regcomp : Compiler) (fetch : Option Fetcher) (ex : Extractor) (page_url : Text)
    (before rest : List Directive) (l : Directive)
    → ex.directives ≡ before ++ (l ∷ rest)
    → NoList before
    → l.kind ≡ Kind.list_dir
    → extractor_run regcomp fetch ex page_url
      ≡ pipeline regcomp fetch (length before + 1) rest (start_store page_url)
unfolding extractor_run
extractor_run-series regcomp fetch ex page_url before rest l e n k =
    rw (store_set_first url_var page_url, e, extractor_run)
      (run_from-series regcomp fetch before rest l _ n k)

-- Without a list directive, a run does what all the directives do, one after another from a store
-- with only {url} in it.
pub extractor_run-plain :
    (regcomp : Compiler) (fetch : Option Fetcher) (ex : Extractor) (page_url : Text)
    → NoList ex.directives
    → extractor_run regcomp fetch ex page_url
      ≡ pipeline regcomp fetch 0 ex.directives (start_store page_url)
unfolding extractor_run skipped
extractor_run-plain regcomp fetch ex page_url n =
    rw (store_set_first url_var page_url, extractor_run)
      (run_from-pipeline regcomp fetch _ 0 ex.directives _
        (λ j m. rw (list_index_missing 0 ex.directives n, skipped) (ground arith)))
