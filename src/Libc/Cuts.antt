-- ===== src/Libc/Cuts.antt =====
-- Where `strchr` and `strcspn` cut a text.
use hyperflux.Common.{
  ℕ, zero, suc, ◌+◌, ◌-◌, ◌≤◌, ◌<◌, ◌≡◌, refl, ap, ◌∙◌, inl, inr, Bool, true, false, none, some,
  List, [], ◌∷◌, ◌++◌, arith, ◌==◌, Bool-cases, Option-cases, length, take,
}
use hyperflux.Libc.{Text, cut_at, cut_at_last, span_until, after_prefix, fitted}

span_until-nil : (stop : ℕ → Bool) → span_until stop [] ≡ ([], [])
unfolding span_until
span_until-nil stop = refl

pub span_until-stop :
    (stop : ℕ → Bool) (c : ℕ) (s : Text) → stop c ≡ true → span_until stop (c ∷ s) ≡ ([], c ∷ s)
unfolding span_until
span_until-stop stop c s e = rw (e, span_until) refl

pub span_until-go :
    (stop : ℕ → Bool) (c : ℕ) (s : Text)
    → stop c ≡ false
    → span_until stop (c ∷ s) ≡ (c ∷ (span_until stop s).0, (span_until stop s).1)
unfolding span_until
span_until-go stop c s e = rw (e, span_until) refl

pub cut_at-here : (c : ℕ) (x : ℕ) (s : Text) → (x == c) ≡ true → cut_at c (x ∷ s) ≡ some ([], s)
unfolding cut_at
cut_at-here c x s e = rw (e, cut_at) refl

pub cut_at-later :
    (c : ℕ) (x : ℕ) (s : Text)
    → (x == c) ≡ false
    → cut_at c (x ∷ s) ≡ elim (cut_at c s) [ none ↦ none | some p ↦ some (x ∷ p.0, p.1) ]
unfolding cut_at
cut_at-later c x s e = rw (e, cut_at) refl

-- No byte of the text passes the test.
unfoldable pub Free : (ℕ → Bool) → Text → Type 0
Free stop [] = Unit {0}
Free stop (c ∷ s) = (stop c ≡ false) × Free stop s

-- The text is empty or its first byte passes the test.
unfoldable pub Starts : (ℕ → Bool) → Text → Type 0
Starts stop [] = Unit {0}
Starts stop (c ∷ s) = stop c ≡ true

pub span_until_le : (stop : ℕ → Bool) (s : Text) → length (span_until stop s).1 ≤ length s
span_until_le stop [] = rw (span_until-nil stop) (ground arith)
span_until_le stop (c ∷ s) = elim (Bool-cases (stop c)) [
  | inl e ↦ rw (span_until-stop stop c s e) (ground arith)
  | inr e ↦ rw (span_until-go stop c s e) (ground (arith, span_until_le stop s))
]

pub cut_at_lt : (c : ℕ) (s : Text) (p : Text × Text) → cut_at c s ≡ some p → length p.1 < length s
unfolding cut_at
cut_at_lt c [] p h = ground arith
cut_at_lt c (x ∷ s) p h = elim (Bool-cases (x == c)) [
  | inl e ↦ ground (arith, h, cut_at-here c x s e)
  | inr e ↦ elim (Option-cases (cut_at c s)) [
    | inl e' ↦ ground (arith, h, cut_at-later c x s e, e')
    | inr (q, e') ↦ ground (arith, h, cut_at-later c x s e, e', cut_at_lt c s q e')
  ]
]

pub span_until-append :
    (stop : ℕ → Bool) (a s : Text) → Free stop a → Starts stop s → span_until stop (a ++ s) ≡ (a, s)
unfolding Free Starts span_until
span_until-append stop [] [] free starts = refl
span_until-append stop [] (c ∷ s) free starts = span_until-stop stop c s starts
span_until-append stop (x ∷ a) s free starts =
    span_until-go stop x (a ++ s) free.0
    ∙ ap (λ p. (x ∷ p.0, p.1)) (span_until-append stop a s free.1 starts)

pub cut_at-append :
    (c : ℕ) (a s : Text) → Free (λ x. x == c) a → cut_at c (a ++ (c ∷ s)) ≡ some (a, s)
unfolding Free
cut_at-append c [] s free = cut_at-here c c s (ground arith)
cut_at-append c (x ∷ a) s free =
    cut_at-later c x (a ++ (c ∷ s)) free.0
    ∙ ap (λ o. elim o [ none ↦ none | some p ↦ some (x ∷ p.0, p.1) ]) (cut_at-append c a s free.1)

pub after_prefix-append : (p s : Text) → after_prefix p (p ++ s) ≡ some s
unfolding after_prefix
after_prefix-append [] s = refl
after_prefix-append (c ∷ p) s =
    let same : (c == c) ≡ true = ground arith in rw (same, after_prefix) (after_prefix-append p s)

pub after_prefix-ne :
    (x : ℕ) (p : Text) (c : ℕ) (s : Text) → (x == c) ≡ false → after_prefix (x ∷ p) (c ∷ s) ≡ none
unfolding after_prefix
after_prefix-ne x p c s e = rw (e, after_prefix) refl

-- A cut loses the byte that it is made at.
pub cut_at-length :
    (c : ℕ) (s : Text) (p : Text × Text)
    → cut_at c s ≡ some p
    → suc (length p.0 + length p.1) ≡ length s
unfolding cut_at
cut_at-length c [] p h = ground arith
cut_at-length c (x ∷ s) p h = elim (Bool-cases (x == c)) [
  | inl e ↦ ground (arith, h, cut_at-here c x s e)
  | inr e ↦ elim (Option-cases (cut_at c s)) [
    | inl e' ↦ ground (arith, h, cut_at-later c x s e, e')
    | inr (q, e') ↦ ground (arith, h, cut_at-later c x s e, e', cut_at-length c s q e')
  ]
]

pub cut_at_last-length :
    (c : ℕ) (s : Text) (p : Text × Text)
    → cut_at_last c s ≡ some p
    → suc (length p.0 + length p.1) ≡ length s
unfolding cut_at_last
cut_at_last-length c [] p h = ground arith
cut_at_last-length c (x ∷ s) p h = elim (Option-cases (cut_at_last c s)) [
  | inr (q, e) ↦ ground (arith, h, e, cut_at_last-length c s q e)
  | inl e ↦ elim (Bool-cases (x == c)) [
    | inl e' ↦ ground (arith, h, e, e')
    | inr e' ↦ ground (arith, h, e, e')
  ]
]

pub Free-append : (stop : ℕ → Bool) (a b : Text) → Free stop a → Free stop b → Free stop (a ++ b)
unfolding Free
Free-append stop [] b h h' = h'
Free-append stop (c ∷ a) b h h' = (h.0, Free-append stop a b h.1 h')

pub cut_at_last-none : (c : ℕ) (s : Text) → Free (λ x. x == c) s → cut_at_last c s ≡ none
unfolding Free cut_at_last
cut_at_last-none c [] free = refl
cut_at_last-none c (x ∷ s) free = rw (cut_at_last-none c s free.1, cut_at_last) (rw free.0 refl)

pub cut_at_last-append :
    (c : ℕ) (a s : Text) → Free (λ x. x == c) s → cut_at_last c (a ++ (c ∷ s)) ≡ some (a, s)
unfolding cut_at_last
cut_at_last-append c [] s free =
    let here : (c == c) ≡ true = ground arith in
    rw (cut_at_last-none c s free, cut_at_last) (rw here refl)
cut_at_last-append c (x ∷ a) s free = rw (cut_at_last-append c a s free, cut_at_last) refl

pub cut_at-none : (c : ℕ) (s : Text) → Free (λ x. x == c) s → cut_at c s ≡ none
unfolding Free cut_at
cut_at-none c [] free = refl
cut_at-none c (x ∷ s) free = rw (free.0, cut_at) (rw (cut_at-none c s free.1) refl)

pub span_until-whole : (stop : ℕ → Bool) (s : Text) → Free stop s → span_until stop s ≡ (s, [])
unfolding Free span_until
span_until-whole stop [] free = refl
span_until-whole stop (c ∷ s) free =
    span_until-go stop c s free.0 ∙ ap (λ p. (c ∷ p.0, p.1)) (span_until-whole stop s free.1)

pub take-all : (n : ℕ) (s : Text) → length s ≤ n → take n s ≡ s
take-all zero [] h = refl
take-all zero (c ∷ s) h = absurd (omega (arith, h))
take-all (suc n) [] h = refl
take-all (suc n) (c ∷ s) h = ap (◌∷◌ c) (take-all n s (omega (arith, h)))

-- A text that is shorter than the buffer is not cut.
pub fitted-short : (size : ℕ) (s : Text) → length s < size → fitted size s ≡ s
fitted-short size s h = take-all (size - 1) s (omega (arith, h))

-- Lines, each with its newline.
unfoldable pub text_of : List Text → Text
text_of [] = []
text_of (line ∷ rest) = line ++ (b'\n' ∷ text_of rest)
