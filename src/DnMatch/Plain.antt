-- ===== src/DnMatch/Plain.antt =====
-- Patterns without a wildcard.
use hyperflux.Common.{
  ℕ, ◌+◌, ◌^◌, ◌≤◌, ◌<◌, ◌≡◌, refl, sym, ap, ◌∙◌, inl, inr, Bool, true, false, ◌&&◌, Option, none,
  some, [], ◌∷◌, ◌++◌, arith, ◌==◌, if◌then◌else◌, Bool-cases, Option-cases, length, append_nil,
}
use hyperflux.Libc.{Text, to_lower, same_nocase, after_prefix_nocase}
use hyperflux.Libc.Cuts.{Free, Starts, span_until-append}
use hyperflux.DnMatch.{
  Match, malformed, matched, not_matched, minus_size, dot, dot_or_star, starts_with_star,
  ace_prefix, compare_right, compare_rest, is_some_text, dn_match,
}

pub star : ℕ → Bool
star c = c == b'*'

nocase_same :
    (p c : ℕ) (ps s : Text)
    → (to_lower p == to_lower c) ≡ true
    → after_prefix_nocase (p ∷ ps) (c ∷ s) ≡ after_prefix_nocase ps s
unfolding after_prefix_nocase
nocase_same p c ps s e = rw (e, after_prefix_nocase) refl

same_nocase-prefix :
    (p rest host after : Text)
    → after_prefix_nocase p host ≡ some after
    → same_nocase after rest ≡ true
    → same_nocase host (p ++ rest) ≡ true
unfolding after_prefix_nocase same_nocase
same_nocase-prefix [] rest host after h e = let whole : host ≡ after = cc in rw whole e
same_nocase-prefix (c ∷ p) rest [] after h e = ground (arith, h)
same_nocase-prefix (c ∷ p) rest (d ∷ host) after h e =
    elim (Bool-cases (to_lower c == to_lower d)) [
      | inl same ↦ ground (
        arith,
        same,
        same_nocase-prefix p rest host after (sym (nocase_same c d p host same) ∙ h) e,
      )
      | inr differs ↦ ground (arith, h, differs)
    ]

after_prefix_nocase_refl : (p s : Text) → after_prefix_nocase p (p ++ s) ≡ some s
unfolding after_prefix_nocase
after_prefix_nocase_refl [] s = refl
after_prefix_nocase_refl (c ∷ p) s =
    let same : (to_lower c == to_lower c) ≡ true = ground arith in
    rw (same, after_prefix_nocase) (after_prefix_nocase_refl p s)

same_nocase_refl : (s : Text) → same_nocase s s ≡ true
unfolding same_nocase
same_nocase_refl [] = refl
same_nocase_refl (c ∷ s) = ground (arith, same_nocase_refl s)

plain_rest : Option Text → Text → ℕ → Match
plain_rest none right n = not_matched
plain_rest (some rest) right n = compare_right rest right n 0

Starts-dot_or_star : (right : Text) → Starts dot right → Starts dot_or_star right
unfolding Starts
Starts-dot_or_star [] h = tt
Starts-dot_or_star (c ∷ right) h = ground (arith, h)

starts_with_star-dot : (right : Text) → Starts dot right → starts_with_star right ≡ false
unfolding Starts
starts_with_star-dot [] h = refl
starts_with_star-dot (c ∷ right) h = ground (arith, h)

compare_rest-dot :
    (hostname right : Text) (n : ℕ)
    → Starts dot right
    → compare_rest hostname right n ≡ compare_right hostname right n 0
unfolding compare_rest Starts
compare_rest-dot hostname [] n h = refl
compare_rest-dot hostname (c ∷ right) n h =
    let no_star : (c == b'*') ≡ false = ground (arith, h) in rw no_star refl

rest_alike :
    (o : Option Text) (right : Text) (n : ℕ)
    → Starts dot right
    → (elim o [ none ↦ not_matched | some rest ↦ compare_rest rest right n ]) ≡ plain_rest o right n
unfolding plain_rest
rest_alike none right n h = refl
rest_alike (some rest) right n h = compare_rest-dot rest right n h

-- A pattern in two parts, the second of which starts with its first dot.
plain_match :
    (hostname left right : Text) (n : ℕ)
    → Free dot_or_star left
    → Starts dot right
    → dn_match hostname (left ++ right) n
      ≡ plain_rest (after_prefix_nocase left hostname) right (minus_size n (length left))
unfolding dn_match
plain_match hostname left right n free starts =
    let whole : Text × Text → Match = λ parts.
      if starts_with_star parts.1 && is_some_text (after_prefix_nocase ace_prefix hostname)
      then not_matched
      else elim (after_prefix_nocase parts.0 hostname) [
        | none ↦ not_matched
        | some rest ↦ compare_rest rest parts.1 (minus_size n (length parts.0))
      ] in
    ap whole (span_until-append dot_or_star left right free (Starts-dot_or_star right starts))
    ∙ rw (starts_with_star-dot right starts)
        (rest_alike (after_prefix_nocase left hostname) right (minus_size n (length left)) starts)

compare_right-matched :
    (hostname pat : Text) (n : ℕ)
    → compare_right hostname pat n 0 ≡ matched
    → same_nocase hostname pat ≡ true
unfolding compare_right
compare_right-matched hostname pat n h = elim (Bool-cases (same_nocase hostname pat)) [
  | inl e ↦ e
  | inr e ↦ elim (Bool-cases (n == minus_size 0 (length pat))) [
    | inl e' ↦ ground (arith, h, e, e')
    | inr e' ↦ ground (arith, h, e, e')
  ]
]

-- A pattern without a wildcard matches no name but itself, in any case of its letters, whatever length the
-- certificate gives.
pub dn_match-matched :
    (hostname left right : Text) (n : ℕ)
    → Free dot_or_star left
    → Starts dot right
    → dn_match hostname (left ++ right) n ≡ matched
    → same_nocase hostname (left ++ right) ≡ true
unfolding plain_rest
dn_match-matched hostname left right n free starts h =
    elim (Option-cases (after_prefix_nocase left hostname)) [
      | inl e ↦ absurd (ground (arith, h, plain_match hostname left right n free starts, e))
      | inr (rest, e) ↦
          let m = minus_size n (length left) in
          let ended : compare_right rest right m 0 ≡ matched =
            sym (plain_match hostname left right n free starts ∙ ap (λ o. plain_rest o right m) e)
            ∙ h in
          same_nocase-prefix left right hostname rest e (compare_right-matched rest right m ended)
    ]

-- A name with a dot matches itself under every length that is not too small: also where the certificate
-- has more bytes behind a NUL.
pub dn_match-itself :
    (left right : Text) (n : ℕ)
    → Free dot_or_star left
    → length left + length (b'.' ∷ right) ≤ n
    → n < 2 ^ 63
    → dn_match (left ++ (b'.' ∷ right)) (left ++ (b'.' ∷ right)) n ≡ matched
unfolding plain_rest compare_right Starts
dn_match-itself left right n free long short =
    let pat = b'.' ∷ right in
    let m = minus_size n (length left) in
    let differs : (m == minus_size 0 (length pat)) ≡ false = ground (arith, long, short) in
    plain_match (left ++ pat) left pat n free refl
    ∙ ap (λ o. plain_rest o pat m) (after_prefix_nocase_refl left pat)
    ∙ rw (differs, same_nocase_refl pat) refl

-- A name without a dot does not match itself: under its true length it is malformed.
pub dn_match-dotless :
    (name : Text)
    → Free dot_or_star name
    → length name < 2 ^ 63
    → dn_match name name (length name) ≡ malformed
unfolding plain_rest compare_right Starts
dn_match-dotless name free short =
    let m = minus_size (length name) (length name) in
    let ends : (m == minus_size 0 0) ≡ true = ground (arith, short) in
    ap (λ p. dn_match p p (length name)) (sym (append_nil name))
    ∙ plain_match (name ++ []) name [] (length name) free tt
    ∙ ap (λ o. plain_rest o [] m) (after_prefix_nocase_refl name [])
    ∙ rw ends refl
