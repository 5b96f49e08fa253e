-- ===== src/MirrorScan/Table/Valid.antt =====
-- The list of candidates of src/scan.c stays well-formed.
use hyperflux.Common.{
  ◌+◌, ◌≤◌, ◌≡◌, refl, sym, ap, ◌∙◌, ◌≢◌, inl, inr, Bool, true, false, ◌||◌, Option, none, some,
  List, [], ◌∷◌, ◌++◌, map, arith, leb, if◌then◌else◌, Bool-cases, Option-cases, length, tests,
  length-append, length-map, Every, Every-append, Pairwise, Pairwise-append_one,
}
use hyperflux.Libc.{Text, same, same_refl, is_empty}
use hyperflux.Extractor.Resolve.{resolve_url}
use hyperflux.MirrorScan.{Kind, Context, unknown, player, ad, Candidate}
use hyperflux.MirrorScan.Classify.{url_host, classify_url_ext}
use hyperflux.MirrorScan.Table.{
  max_candidates, has_control, stronger, ad_host_of, first_context, bump, new_candidate, insert,
  add_candidate,
}

-- What holds of a candidate of the page `page_url`.
pub record IsCandidate {Double : Type 0} (page_url : Text) (exts : Option (List Text))
    (c : Candidate Double) : Type 0 where
  resolved : c.url ≡ resolve_url page_url c.raw_ref
  url_is_printable : has_control c.url ≡ false
  raw_ref_is_printable : has_control c.raw_ref ≡ false
  of_kind : classify_url_ext c.url exts ≡ some c.kind
  of_host : c.host ≡ url_host c.url
  marked : c.ad_host ≡ ad_host_of c.host
  -- An advertiser's candidate is not of unknown context.
  in_context : first_context c.ad_host c.context ≡ c.context
  counted : 1 ≤ c.count

module _ {Double : Type 0} where
  abbrev pub urls : List (Candidate Double) → List Text
  urls = map (λ c. c.url)

  -- At most `max_candidates` candidates, each with a URL of its own.
  unfoldable pub IsValid : Text → Option (List Text) → List (Candidate Double) → Type 0
  IsValid page_url exts cs =
      (length cs ≤ max_candidates)
      × Every (IsCandidate page_url exts) cs
      × Pairwise (λ u v. u ≢ v) (urls cs)

in_context-stronger :
    (b : Bool) (context old : Context)
    → first_context b old ≡ old
    → first_context b (stronger context old) ≡ stronger context old
unfolding first_context stronger
in_context-stronger false context old h = refl
in_context-stronger true unknown old h = h
in_context-stronger true player old h = refl
in_context-stronger true ad unknown h = refl
in_context-stronger true ad player h = refl
in_context-stronger true ad ad h = refl

in_context-first :
    (b : Bool) (context : Context)
    → first_context b (first_context b context) ≡ first_context b context
unfolding first_context
in_context-first false context = refl
in_context-first true unknown = refl
in_context-first true player = refl
in_context-first true ad = refl

same-other : (u url : Text) → same u url ≡ false → u ≢ url
same-other u url h e = absurd (cc (same_refl url))

rest_false : (a b c : Bool) → a || b || c ≡ false → (b ≡ false) × (c ≡ false)
rest_false false false false h = (refl, refl)
rest_false false false true h = cc
rest_false false true c h = cc
rest_false true b c h = cc

urls-append_one :
    {Double : Type 0} (cs : List (Candidate Double)) (c : Candidate Double)
    → urls (cs ++ (c ∷ [])) ≡ urls cs ++ (c.url ∷ [])
urls-append_one [] c = refl
urls-append_one (x ∷ cs) c = ap (◌∷◌ x.url) (urls-append_one cs c)

module _ {Double : Type 0} (page_url : Text) (exts : Option (List Text)) where
  bumped :
      (context : Context) (c : Candidate Double)
      → IsCandidate page_url exts c
      → IsCandidate page_url exts
          (record c { count = c.count + 1; context = stronger context c.context })
  bumped context c h = record {
    resolved = h.resolved;
    url_is_printable = h.url_is_printable;
    raw_ref_is_printable = h.raw_ref_is_printable;
    of_kind = h.of_kind;
    of_host = h.of_host;
    marked = h.marked;
    in_context = in_context-stronger c.ad_host context c.context h.in_context;
    counted = omega (arith, h.counted);
  }

  -- What `bump` answers: the same URLs, or that none is `url`.
  Answer : Text → List (Candidate Double) → Option (List (Candidate Double)) → Type 0
  Answer url cs none = Every (λ u. u ≢ url) (urls cs)
  Answer url cs (some cs') = (urls cs' ≡ urls cs) × Every (IsCandidate page_url exts) cs'

  bump-rest :
      (url : Text) (c : Candidate Double) (cs : List (Candidate Double))
      (o : Option (List (Candidate Double)))
      → same c.url url ≡ false
      → IsCandidate page_url exts c
      → Answer url cs o
      → Answer url (c ∷ cs) (elim o [ none ↦ none | some cs' ↦ some (c ∷ cs') ])
  unfolding Answer Every
  bump-rest url c cs none e h k = (same-other c.url url e, k)
  bump-rest url c cs (some cs') e h k = (ap (◌∷◌ c.url) k.0, (h, k.1))

  bump-Answer :
      (url : Text) (context : Context) (cs : List (Candidate Double))
      → Every (IsCandidate page_url exts) cs
      → Answer url cs (bump url context cs)
  unfolding bump Every Answer
  bump-Answer url context [] h = tt
  bump-Answer url context (c ∷ cs) h = elim (Bool-cases (same c.url url)) [
    | inl e ↦ rw e (refl, (bumped context c h.0, h.1))
    | inr e ↦ rw e (bump-rest url c cs (bump url context cs) e h.0 (bump-Answer url context cs h.1))
  ]

  IsValid-append_one :
      (c : Candidate Double) (cs : List (Candidate Double))
      → IsCandidate page_url exts c
      → Every (λ u. u ≢ c.url) (urls cs)
      → leb max_candidates (length cs) ≡ false
      → IsValid page_url exts cs
      → IsValid page_url exts (cs ++ (c ∷ []))
  unfolding IsValid Every
  IsValid-append_one c cs g k e h = (
    grind (tests, length-append cs (c ∷ []), e, h.0),
    Every-append (IsCandidate page_url exts) cs (c ∷ []) h.1 (g, tt),
    rw (urls-append_one cs c) (Pairwise-append_one (λ u v. u ≢ v) (urls cs) c.url h.2 k),
  )

  length-urls : (cs cs' : List (Candidate Double)) → urls cs' ≡ urls cs → length cs' ≡ length cs
  length-urls cs cs' e =
      sym (length-map cs' (λ c. c.url)) ∙ ap length e ∙ length-map cs (λ c. c.url)

  IsValid-bumped :
      (cs cs' : List (Candidate Double))
      → urls cs' ≡ urls cs
      → Every (IsCandidate page_url exts) cs'
      → IsValid page_url exts cs
      → IsValid page_url exts cs'
  unfolding IsValid
  IsValid-bumped cs cs' e g h = (rw (length-urls cs cs' e) h.0, g, rw e h.2)

  new_candidate-IsCandidate :
      (nought : Double) (raw_ref : Text) (kind : Kind) (context : Context)
      → has_control raw_ref ≡ false
      → has_control (resolve_url page_url raw_ref) ≡ false
      → classify_url_ext (resolve_url page_url raw_ref) exts ≡ some kind
      → IsCandidate page_url exts
          (new_candidate nought (resolve_url page_url raw_ref) raw_ref kind context)
  unfolding new_candidate
  new_candidate-IsCandidate nought raw_ref kind context p q k = record {
    resolved = refl;
    url_is_printable = q;
    raw_ref_is_printable = p;
    of_kind = k;
    of_host = refl;
    marked = refl;
    in_context = in_context-first (ad_host_of (url_host (resolve_url page_url raw_ref))) context;
    counted = omega arith;
  }

  -- The three ends of `insert`.
  IsValid-insert :
      (c : Candidate Double) (cs : List (Candidate Double)) (o : Option (List (Candidate Double)))
      → IsCandidate page_url exts c
      → Answer c.url cs o
      → IsValid page_url exts cs
      → IsValid page_url exts (elim o [
        | some cs' ↦ cs'
        | none ↦ if leb max_candidates (length cs) then cs else cs ++ (c ∷ [])
      ])
  unfolding Answer
  IsValid-insert c cs none g k h = elim (Bool-cases (leb max_candidates (length cs))) [
    | inl e ↦ rw e h
    | inr e ↦ rw e (IsValid-append_one c cs g k e h)
  ]
  IsValid-insert c cs (some cs') g k h = IsValid-bumped cs cs' k.0 k.1 h

  -- A reference of the page leaves the list well-formed: at most 256 candidates with distinct URLs,
  -- each resolved from its reference, free of control characters, of the kind of its extension, with
  -- its host and the advertisers' mark of that host, and not of unknown context with that mark.
  pub add_candidate-IsValid :
      (nought : Double) (raw_ref : Text) (context : Context) (cs : List (Candidate Double))
      → IsValid page_url exts cs
      → IsValid page_url exts (add_candidate nought page_url exts raw_ref context cs)
  unfolding add_candidate insert new_candidate IsValid
  add_candidate-IsValid nought raw_ref context cs h =
      let url = resolve_url page_url raw_ref in
      elim (Bool-cases (is_empty raw_ref || has_control raw_ref || has_control url)) [
        | inl e ↦ rw e h
        | inr e ↦
            let clean = rest_false (is_empty raw_ref) (has_control raw_ref) (has_control url) e in
            elim (Option-cases (classify_url_ext url exts)) [
              | inl n ↦ simp (e, n) h
              | inr (kind, k) ↦
                  rw (e, k)
                    (IsValid-insert (new_candidate nought url raw_ref kind context) cs
                      (bump url context cs)
                      (new_candidate-IsCandidate nought raw_ref kind context clean.0 clean.1 k)
                      (bump-Answer url context cs h.1) h)
            ]
      ]
