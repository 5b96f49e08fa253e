-- ===== src/Extractor/Series/Distinct.antt =====
-- The list of episodes: every captured item once, in the order of the first captures.
use hyperflux.Common.{
  ◌≡◌, refl, sym, ap, ◌∙◌, inl, inr, Bool, true, false, ◌||◌, List, [], ◌∷◌, ◌++◌, map, arith,
  if◌then◌else◌, Bool-cases, append_assoc, append_nil,
}
use hyperflux.Extractor.{Text, same, same_refl, same_eq}
use hyperflux.Extractor.Resolve.{resolve_url}
use hyperflux.Extractor.Series.{is_among, dedup_from, resolve_dedup_list}

-- The reference: the items that no earlier item equals, `seen` those before them.
unfoldable pub fresh : List Text → List Text → List Text
fresh seen [] = []
fresh seen (x ∷ xs) =
    let rest = fresh (seen ++ (x ∷ [])) xs in if is_among x seen then rest else x ∷ rest

among-append :
    (a : Text) (xs ys : List Text) → is_among a (xs ++ ys) ≡ (is_among a xs || is_among a ys)
unfolding is_among
among-append a [] ys = refl
among-append a (x ∷ xs) ys = ground (arith, among-append a xs ys)

unfoldable pub IsDistinct : List Text → Type 0
IsDistinct [] = Unit {0}
IsDistinct (x ∷ xs) = (is_among x xs ≡ false) × IsDistinct xs

true_or_false : (b c : Bool) → (b ≡ true → c ≡ true) → (c ≡ true → b ≡ true) → b ≡ c
true_or_false true c f g = sym (f refl)
true_or_false false true f g = g refl
true_or_false false false f g = refl

same_sym : (a b : Text) → same a b ≡ same b a
same_sym a b =
    true_or_false (same a b) (same b a) (λ e. rw (same_eq a b e) (same_refl b))
      (λ e. rw (same_eq b a e) (same_refl a))

IsDistinct-append :
    (xs : List Text) (a : Text)
    → IsDistinct xs
    → is_among a xs ≡ false
    → IsDistinct (xs ++ (a ∷ []))
unfolding IsDistinct is_among
IsDistinct-append [] a d h = (refl, tt)
IsDistinct-append (x ∷ xs) a (n, d) h = (
  among-append x xs (a ∷ []) ∙ ground (arith, n, h, same_sym x a),
  IsDistinct-append xs a d (ground (arith, h)),
)

IsDistinct-kept :
    (out : List Text) (a : Text)
    → IsDistinct out
    → IsDistinct (if is_among a out then out else out ++ (a ∷ []))
IsDistinct-kept out a d = elim (Bool-cases (is_among a out)) [
  | inl e ↦ rw e d
  | inr e ↦ rw e (IsDistinct-append out a d e)
]

dedup_from-IsDistinct :
    (base : Text) (out raw : List Text) → IsDistinct out → IsDistinct (dedup_from base out raw)
unfolding dedup_from
dedup_from-IsDistinct base out [] d = d
dedup_from-IsDistinct base out (r ∷ raw) d =
    let x = resolve_url base r in
    dedup_from-IsDistinct base (if is_among x out then out else out ++ (x ∷ [])) raw
      (IsDistinct-kept out x d)

-- `resolve_dedup_list` never returns two equal URLs.
pub resolve_dedup_list-IsDistinct :
    (base : Text) (raw : List Text) → IsDistinct (resolve_dedup_list base raw)
unfolding resolve_dedup_list IsDistinct
resolve_dedup_list-IsDistinct base raw = dedup_from-IsDistinct base [] raw tt

-- `out` holds the same texts as `seen`.
abbrev SameTexts : List Text → List Text → Type 0
SameTexts out seen = (a : Text) → is_among a out ≡ is_among a seen

SameTexts-known :
    (out seen : List Text) (x : Text)
    → SameTexts out seen
    → is_among x out ≡ true
    → SameTexts out (seen ++ (x ∷ []))
unfolding is_among
SameTexts-known out seen x s h a =
    true_or_false (is_among a out) (is_among a (seen ++ (x ∷ [])))
      (λ e. among-append a seen (x ∷ []) ∙ ground (arith, s a, e))
      (λ e. elim (Bool-cases (is_among a seen)) [
        | inl k ↦ s a ∙ k
        | inr k ↦
            let eq : same x a ≡ true = ground (arith, among-append a seen (x ∷ []), e, k) in
            rw (sym (same_eq x a eq)) h
      ])

SameTexts-new :
    (out seen : List Text) (x : Text)
    → SameTexts out seen
    → SameTexts (out ++ (x ∷ [])) (seen ++ (x ∷ []))
SameTexts-new out seen x s a =
    among-append a out (x ∷ [])
    ∙ ap (λ b. b || is_among a (x ∷ [])) (s a)
    ∙ sym (among-append a seen (x ∷ []))

dedup_from-fresh :
    (base : Text) (out seen raw : List Text)
    → SameTexts out seen
    → dedup_from base out raw ≡ out ++ fresh seen (map (resolve_url base) raw)
unfolding dedup_from fresh
dedup_from-fresh base out seen [] s = sym (append_nil out)
dedup_from-fresh base out seen (r ∷ raw) s =
    let x = resolve_url base r in
    let k = sym (s x) in
    elim (Bool-cases (is_among x out)) [
      | inl e ↦
          rw (k, e)
            (dedup_from-fresh base out (seen ++ (x ∷ [])) raw (SameTexts-known out seen x s e))
      | inr e ↦
          rw (k, e)
            (dedup_from-fresh base (out ++ (x ∷ [])) (seen ++ (x ∷ [])) raw
                (SameTexts-new out seen x s)
              ∙ append_assoc out (x ∷ []) _)
    ]

-- `resolve_dedup_list` returns the absolute form of every captured item that equals none of the
-- earlier ones, in the order of the items.
pub resolve_dedup_list-fresh :
    (base : Text) (raw : List Text)
    → resolve_dedup_list base raw ≡ fresh [] (map (resolve_url base) raw)
unfolding resolve_dedup_list
resolve_dedup_list-fresh base raw = dedup_from-fresh base [] [] raw (λ a. refl)
