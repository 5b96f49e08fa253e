-- ===== src/Extractor/Parse/Limits.antt =====
-- A configuration that was parsed is complete and within its limits.
use hyperflux.Common.{
  ℕ, zero, suc, ◌≤◌, ◌<◌, ◌≡◌, refl, sym, ap, ◌≢◌, inl, inr, Bool, true, false, not, Option, none,
  some, List, [], ◌∷◌, ◌++◌, arith, leb, if◌then◌else◌, Bool-cases, Option-cases, length, get_elem?,
  length-append,
}
use hyperflux.Flux.Reactivate.{modify}
use hyperflux.Extractor.{
  Text, Header, Kind, Directive, Extractor, extractor_max_matches, extractor_max_directives,
  extractor_max_headers,
}
use hyperflux.Extractor.Tokens.{lines, trim, cut_at_equals}
use hyperflux.Extractor.Parse.{
  is_empty, Parsing, add_directive, parse_var_like, parse_get, parse_output, add_parsed, add_header,
  header_line, name_line, match_line, parse_keyword, parse_line, parse_lines, have_output,
  empty_config, accept, extractor_parse,
}

-- Every directive has 16 headers at most.
unfoldable pub HeadersFit : List Directive → Type 0
HeadersFit [] = Unit {0}
HeadersFit (d ∷ ds) = (length d.headers ≤ extractor_max_headers) × HeadersFit ds

pub record Fits (ex : Extractor) : Type 0 where
  pub few_matches : length ex.matches ≤ extractor_max_matches
  pub few_directives : length ex.directives ≤ extractor_max_directives
  pub few_headers : HeadersFit ex.directives

HeadersFit-append :
    (ds : List Directive) (d : Directive)
    → HeadersFit ds
    → length d.headers ≤ extractor_max_headers
    → HeadersFit (ds ++ (d ∷ []))
unfolding HeadersFit
HeadersFit-append [] d h k = (k, tt)
HeadersFit-append (x ∷ ds) d (a, h) k = (a, HeadersFit-append ds d h k)

-- The header that is added to the directive found at `i`.
HeadersFit-modify :
    (i : ℕ) (h : Header) (ds : List Directive) (d : Directive)
    → HeadersFit ds
    → get_elem? ds i ≡ some d
    → length d.headers < extractor_max_headers
    → HeadersFit (modify i (λ e. record e { headers = e.headers ++ (h ∷ []) }) ds)
unfolding HeadersFit modify
HeadersFit-modify i h [] d f g k = tt
HeadersFit-modify zero h (x ∷ ds) d (a, f) g k =
    (rw (length-append x.headers (h ∷ [])) (ground (arith, g, k)), f)
HeadersFit-modify (suc i) h (x ∷ ds) d (a, f) g k = (a, HeadersFit-modify i h ds d f g k)

length-modify :
    (i : ℕ) (f : Directive → Directive) (ds : List Directive) → length (modify i f ds) ≡ length ds
unfolding modify
length-modify i f [] = refl
length-modify zero f (x ∷ ds) = refl
length-modify (suc i) f (x ∷ ds) = ap suc (length-modify i f ds)

-- What every step keeps: a result fits.
unfoldable Good : Option Parsing → Type 0
Good none = Unit {0}
Good (some p) = Fits p.ex

failed : Good none
unfolding Good
failed = tt

parsed : (p : Parsing) → Fits p.ex → Good (some p)
unfolding Good
parsed p f = f

Good-bind :
    (o : Option Parsing) (go_on : Parsing → Option Parsing)
    → Good o
    → ((p : Parsing) → Fits p.ex → Good (go_on p))
    → Good (elim o [ none ↦ none | some p ↦ go_on p ])
unfolding Good
Good-bind none go_on g h = tt
Good-bind (some p) go_on g h = h p g

guarded : (b : Bool) (o : Option Parsing) → (b ≡ false → Good o) → Good (if b then none else o)
unfolding Good
guarded true o h = tt
guarded false o h = h refl

either : (b : Bool) (o u : Option Parsing) → Good o → Good u → Good (if b then o else u)
either true o u g h = g
either false o u g h = h

unfoldable NoHeaders : Option Directive → Type 0
NoHeaders none = Unit {0}
NoHeaders (some d) = d.headers ≡ []

no_headers : (d : Directive) → d.headers ≡ [] → NoHeaders (some d)
unfolding NoHeaders
no_headers d e = e

NoHeaders-guarded :
    (b : Bool) (o : Option Directive) → NoHeaders o → NoHeaders (if b then none else o)
unfolding NoHeaders
NoHeaders-guarded true o h = tt
NoHeaders-guarded false o h = h

add_directive-Good :
    (d : Directive) (is_get : Bool) (p : Parsing)
    → Fits p.ex
    → d.headers ≡ []
    → Good (add_directive d is_get p)
unfolding add_directive
add_directive-Good d is_get p f k =
    guarded (leb extractor_max_directives (length p.ex.directives)) _ (λ t. parsed _ (record {
      few_matches = f.few_matches;
      few_directives = rw (length-append p.ex.directives (d ∷ [])) (ground (arith, t));
      few_headers = HeadersFit-append p.ex.directives d f.few_headers (rw k (omega arith));
    }))

add_parsed-Good :
    (o : Option Directive) (is_get : Bool) (p : Parsing)
    → Fits p.ex
    → NoHeaders o
    → Good (add_parsed o is_get p)
unfolding add_parsed Good NoHeaders
add_parsed-Good none is_get p f k = tt
add_parsed-Good (some d) is_get p f k = add_directive-Good d is_get p f k

parse_var_like-NoHeaders : (kind : Kind) (cur : Text) → NoHeaders (parse_var_like kind cur)
unfolding parse_var_like
parse_var_like-NoHeaders kind cur = search (NoHeaders-guarded, no_headers)

parse_get-NoHeaders : (cur : Text) → NoHeaders (parse_get cur)
unfolding parse_get
parse_get-NoHeaders cur = search (NoHeaders-guarded, no_headers)

parse_output-NoHeaders : (cur : Text) → NoHeaders (parse_output cur)
unfolding parse_output
parse_output-NoHeaders cur = search (NoHeaders-guarded, no_headers)

add_header-Good :
    (i : ℕ) (d : Directive) (kv : Text × Text) (p : Parsing)
    → Fits p.ex
    → get_elem? p.ex.directives i ≡ some d
    → Good (add_header i d kv p)
unfolding add_header
add_header-Good i d (k, v) p f g = guarded (leb extractor_max_headers (length d.headers)) _ (λ t.
    parsed _ (record {
      few_matches = f.few_matches;
      few_directives = rw (length-modify i _ p.ex.directives) f.few_directives;
      few_headers = HeadersFit-modify i _ p.ex.directives d f.few_headers g (ground (arith, t));
    }))

header_line-Good : (cur : Text) (p : Parsing) → Fits p.ex → Good (header_line cur p)
unfolding header_line
header_line-Good cur p f = elim (Option-cases p.last_get) [
  | inl e ↦ rw (e, header_line) failed
  | inr (i, e) ↦ elim (Option-cases (cut_at_equals (trim cur))) [
    | inl e' ↦ rw (e, header_line) (rw e' failed)
    | inr (kv, e') ↦ elim (Option-cases (get_elem? p.ex.directives i)) [
      | inl g ↦ rw (e, header_line) (rw (e', g) failed)
      | inr (d, g) ↦ rw (e, header_line) (rw (e', g) (add_header-Good i d kv p f g))
    ]
  ]
]

name_line-Good : (cur : Text) (p : Parsing) → Fits p.ex → Good (name_line cur p)
unfolding name_line
name_line-Good cur p f = guarded (is_empty (trim cur)) _ (λ t. parsed _ (record {
  few_matches = f.few_matches;
  few_directives = f.few_directives;
  few_headers = f.few_headers;
}))

match_line-Good :
    (compiles : Text → Bool) (cur : Text) (p : Parsing)
    → Fits p.ex
    → Good (match_line compiles cur p)
unfolding match_line
match_line-Good compiles cur p f = guarded (is_empty (trim cur)) _ (λ s.
    guarded (leb extractor_max_matches (length p.ex.matches)) _ (λ t.
      guarded (not (compiles (trim cur))) _ (λ u. parsed _ (record {
        few_matches = rw (length-append p.ex.matches (_ ∷ [])) (ground (arith, t));
        few_directives = f.few_directives;
        few_headers = f.few_headers;
      }))))

parse_keyword-Good :
    (compiles : Text → Bool) (kw cur : Text) (p : Parsing)
    → Fits p.ex
    → Good (parse_keyword compiles kw cur p)
unfolding parse_keyword
parse_keyword-Good compiles kw cur p f = either _ _ _ (name_line-Good cur p f) (
    either _ _ _ (match_line-Good compiles cur p f) (
      either _ _ _ (add_parsed-Good _ _ p f (parse_var_like-NoHeaders Kind.var_dir cur)) (
        either _ _ _ (add_parsed-Good _ _ p f (parse_var_like-NoHeaders Kind.list_dir cur)) (
          either _ _ _ (add_parsed-Good _ _ p f (parse_get-NoHeaders cur))
            (either _ _ _ (add_parsed-Good _ _ p f (parse_output-NoHeaders cur)) failed)))))

parse_line-Good :
    (compiles : Text → Bool) (raw : Text) (p : Parsing)
    → Fits p.ex
    → Good (parse_line compiles raw p)
unfolding parse_line
parse_line-Good compiles raw p f =
    either _ _ _ (parsed p f)
      (either _ _ _ (header_line-Good _ p f) (parse_keyword-Good compiles _ _ p f))

parse_lines-Good :
    (compiles : Text → Bool) (ls : List Text) (p : Parsing)
    → Fits p.ex
    → Good (parse_lines compiles ls p)
unfolding parse_lines
parse_lines-Good compiles [] p f = parsed p f
parse_lines-Good compiles (l ∷ ls) p f =
    Good-bind (parse_line compiles l p) (parse_lines compiles ls) (parse_line-Good compiles l p f)
      (parse_lines-Good compiles ls)

start_Fits : Fits empty_config.ex
unfolding HeadersFit
start_Fits = record { few_matches = omega arith; few_directives = omega arith; few_headers = tt }

Good-some : (o : Option Parsing) (p : Parsing) → Good o → o ≡ some p → Fits p.ex
unfolding Good
Good-some none p g e = ground arith
Good-some (some q) p g e = let got : q ≡ p = ground (arith, e) in rw (sym got) g

accept_complete :
    (ex ex' : Extractor)
    → accept ex ≡ some ex'
    → (ex ≡ ex') × ((ex'.title ≢ none) × (have_output ex'.directives ≡ true))
unfolding accept
accept_complete ex ex' e = elim (Option-cases ex.title) [
  | inl t ↦ ground (arith, e, t)
  | inr (name, t) ↦ elim (Bool-cases (have_output ex.directives)) [
    | inl o ↦
        let got : ex ≡ ex' = ground (arith, e, t, o) in
        (got, rw (sym got) (λ m. ground (arith, m, t), o))
    | inr o ↦ ground (arith, e, t, o)
  ]
]

-- A configuration that `extractor_parse` accepts has a name and an output directive, and has 16 match
-- lines, 64 directives and 16 headers for each directive at most.
pub extractor_parse-Fits :
    (compiles : Text → Bool) (text : Text) (ex : Extractor)
    → extractor_parse compiles text ≡ some ex
    → (ex.title ≢ none) × ((have_output ex.directives ≡ true) × Fits ex)
unfolding extractor_parse
extractor_parse-Fits compiles text ex e =
    elim (Option-cases (parse_lines compiles (lines text) empty_config)) [
      | inl n ↦ ground (arith, e, n)
      | inr (p, s) ↦
          let fits =
            Good-some _ p (parse_lines-Good compiles (lines text) empty_config start_Fits) s in
          let done = accept_complete p.ex ex (ground (arith, e, s)) in
          (done.1.0, (done.1.1, rw (sym done.0) fits))
    ]
