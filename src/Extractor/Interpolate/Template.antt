-- ===== src/Extractor/Interpolate/Template.antt =====
-- A template is text with references in it, and `interpolate` replaces them.
use hyperflux.Common.{
  ℕ, zero, suc, ◌+◌, ◌≤◌, ◌<◌, ◌≡◌, refl, sym, ap, ◌∙◌, inl, inr, Bool, false, ◌||◌, Option, none,
  some, [], ◌∷◌, ◌++◌, arith, dec_le, leb, ◌==◌, if◌then◌else◌, Bool-cases, Option-cases, length,
  length-append, append_assoc, append_nil,
}
use hyperflux.Extractor.{Text}
use hyperflux.Extractor.Store.{Store, store_get}
use hyperflux.Extractor.Interpolate.{
  ext_max_value, buf_append, run_to, interpolate_from, interpolate,
}

-- Literal text and the name of a reference, in turns; the last text has no reference behind it.
pub data Template : Type 0 where
  last : Text → Template
  hole : Text → Text → Template → Template

-- How a template is written.
unfoldable pub written : Template → Text
written (last t) = t
written (hole t name rest) = t ++ (b'{' ∷ (name ++ (b'}' ∷ written rest)))

unfoldable pub contains : ℕ → Text → Bool
contains c [] = false
contains c (x ∷ xs) = x == c || contains c xs

-- Literals without '{', names without '}'.
unfoldable pub IsPlain : Template → Type 0
IsPlain (last t) = contains b'{' t ≡ false
IsPlain (hole t name rest) =
    (contains b'{' t ≡ false) × ((contains b'}' name ≡ false) × IsPlain rest)

unfoldable pub after : Text → Option Text → Option Text
after buf none = none
after buf (some t) = some (buf ++ t)

-- What a template stands for; `none` for an undefined variable.
unfoldable pub meaning : Store → Template → Option Text
meaning st (last t) = some t
meaning st (hole t name rest) = elim (store_get st name) [
  | none ↦ none
  | some v ↦ after t (after v (meaning st rest))
]

-- A result that is not too long.
unfoldable pub bounded : Option Text → Option Text
bounded none = none
bounded (some t) = if leb (length t) ext_max_value then some t else none

run_to-append : (c : ℕ) (t s : Text) → contains c t ≡ false → run_to c (t ++ (c ∷ s)) ≡ (t, c ∷ s)
unfolding run_to contains
run_to-append c [] s h = ground arith
run_to-append c (x ∷ t) s h = elim (Bool-cases (contains c t)) [
  | inl e ↦ ground (arith, h, e)
  | inr e ↦ ground (arith, h, e, run_to-append c t s e)
]

run_to_all : (c : ℕ) (t : Text) → contains c t ≡ false → run_to c t ≡ (t, [])
unfolding run_to contains
run_to_all c [] h = refl
run_to_all c (x ∷ t) h = elim (Bool-cases (contains c t)) [
  | inl e ↦ ground (arith, h, e)
  | inr e ↦ ground (arith, h, e, run_to_all c t e)
]

append_fits :
    (buf t : Text) → length buf + length t ≤ ext_max_value → buf_append buf t ≡ some (buf ++ t)
unfolding buf_append
append_fits buf t h = ground arith

append_fails : (buf t : Text) → ext_max_value < length buf + length t → buf_append buf t ≡ none
unfolding buf_append
append_fails buf t h = ground arith

bounded_fails : (t : Text) → ext_max_value < length t → bounded (some t) ≡ none
unfolding bounded
bounded_fails t h = ground arith

after_assoc : (a b : Text) (o : Option Text) → after a (after b o) ≡ after (a ++ b) o
unfolding after
after_assoc a b none = refl
after_assoc a b (some t) = ap some (sym (append_assoc a b t))

too_long :
    (buf : Text) (o : Option Text) → ext_max_value < length buf → bounded (after buf o) ≡ none
unfolding after bounded
too_long buf none h = refl
too_long buf (some t) h = bounded_fails (buf ++ t) (rw (length-append buf t) (omega arith))

-- Appending and going on, when going on from a buffer that is not too long gives what it should.
append-then :
    (buf t : Text) (o : Option Text) (go_on : Text → Option Text)
    → ((b : Text) → length b ≤ ext_max_value → go_on b ≡ bounded (after b o))
    → (elim (buf_append buf t) [ none ↦ none | some b ↦ go_on b ]) ≡ bounded (after buf (after t o))
append-then buf t o go_on h = elim (dec_le (length buf + length t) ext_max_value) [
  | yes fits ↦
      rw (append_fits buf t fits, after_assoc buf t o)
        (h (buf ++ t) (rw (length-append buf t) fits))
  | no long ↦
      rw (append_fails buf t (omega arith), after_assoc buf t o)
        (sym (too_long (buf ++ t) o (rw (length-append buf t) (omega arith))))
]

step-literal :
    (fuel x : ℕ) (st : Store) (buf xs rest : Text)
    → (x == b'{') ≡ false
    → run_to b'{' (x ∷ (xs ++ rest)) ≡ (x ∷ xs, rest)
    → interpolate_from (suc fuel) st buf (x ∷ (xs ++ rest))
      ≡ (elim (buf_append buf (x ∷ xs)) [ none ↦ none | some b ↦ interpolate_from fuel st b rest ])
unfolding interpolate_from
step-literal fuel x st buf xs rest e r =
    rw (e, interpolate_from)
      (ap (λ p. elim (buf_append buf p.0) [ none ↦ none | some b ↦ interpolate_from fuel st b p.1 ])
        r)

step-hole :
    (fuel : ℕ) (st : Store) (buf name rest : Text)
    → contains b'}' name ≡ false
    → interpolate_from (suc fuel) st buf (b'{' ∷ (name ++ (b'}' ∷ rest)))
      ≡ (elim (store_get st name) [
        | none ↦ none
        | some v ↦ elim (buf_append buf v) [
          | none ↦ none
          | some b ↦ interpolate_from fuel st b rest
        ]
      ])
unfolding interpolate_from
step-hole fuel st buf name rest h =
    (ap
      (λ p. elim p.1 [
        | [] ↦ elim (buf_append buf (b'{' ∷ [])) [
          | none ↦ none
          | some b ↦ interpolate_from fuel st b (name ++ (b'}' ∷ rest))
        ]
        | close ∷ s ↦ elim (store_get st p.0) [
          | none ↦ none
          | some v ↦ elim (buf_append buf v) [ none ↦ none | some b ↦ interpolate_from fuel st b s ]
        ]
      ])
      (run_to-append b'}' name rest h))

-- A literal, then a rest that `go_on` stands for.
literal-then :
    (fuel : ℕ) (st : Store) (buf t rest : Text) (o : Option Text)
    → contains b'{' t ≡ false
    → run_to b'{' (t ++ rest) ≡ (t, rest)
    → length buf ≤ ext_max_value
    → length (t ++ rest) < fuel
    → ((fuel' : ℕ) (b : Text)
        → length b ≤ ext_max_value
        → length rest < fuel'
        → interpolate_from fuel' st b rest ≡ bounded (after b o))
    → interpolate_from fuel st buf (t ++ rest) ≡ bounded (after buf (after t o))
unfolding contains
literal-then fuel st buf [] rest o c r l h go_on =
    go_on fuel buf l h ∙ rw (after_assoc buf [] o, append_nil buf) refl
literal-then zero st buf (x ∷ xs) rest o c r l h go_on = absurd (omega arith)
literal-then (suc fuel) st buf (x ∷ xs) rest o c r l h go_on =
    step-literal fuel x st buf xs rest (ground (arith, c)) r
    ∙ append-then buf (x ∷ xs) o (λ b. interpolate_from fuel st b rest)
        (λ b k. go_on fuel b k (omega (arith, length-append xs rest)))

from_end :
    (fuel : ℕ) (st : Store) (buf : Text)
    → length buf ≤ ext_max_value
    → 0 < fuel
    → interpolate_from fuel st buf [] ≡ bounded (after buf (some []))
unfolding interpolate_from bounded after
from_end zero st buf l h = absurd (omega arith)
from_end (suc fuel) st buf l h = rw (append_nil buf) (ground (arith, l))

after_chosen :
    (t : Text) (o : Option Text) (k : Text → Option Text)
    → (elim o [ none ↦ none | some v ↦ after t (k v) ])
      ≡ after t (elim o [ none ↦ none | some v ↦ k v ])
unfolding after
after_chosen t none k = refl
after_chosen t (some v) k = refl

after-none : (buf : Text) → bounded (after buf none) ≡ none
unfolding bounded after
after-none buf = refl

after_nothing : (o : Option Text) → after [] o ≡ o
unfolding after
after_nothing none = refl
after_nothing (some t) = refl

reference-then :
    (fuel : ℕ) (st : Store) (buf name rest : Text) (o : Option Text)
    → contains b'}' name ≡ false
    → length buf ≤ ext_max_value
    → length (name ++ (b'}' ∷ rest)) + 1 < fuel
    → ((fuel' : ℕ) (b : Text)
        → length b ≤ ext_max_value
        → length rest < fuel'
        → interpolate_from fuel' st b rest ≡ bounded (after b o))
    → interpolate_from fuel st buf (b'{' ∷ (name ++ (b'}' ∷ rest)))
      ≡ bounded (after buf (elim (store_get st name) [ none ↦ none | some v ↦ after v o ]))
reference-then zero st buf name rest o c l h go_on = absurd (omega arith)
reference-then (suc fuel) st buf name rest o c l h go_on =
    let k : length rest < fuel = omega (arith, h, length-append name (b'}' ∷ rest)) in
    step-hole fuel st buf name rest c ∙ (elim (Option-cases (store_get st name)) [
      | inl e ↦ rw e (sym (after-none buf))
      | inr (v, e) ↦
          rw e
            (append-then buf v o (λ b. interpolate_from fuel st b rest) (λ b m. go_on fuel b m k))
    ])

-- The loop on a plain template, with the buffer filled so far.
from-written :
    (tpl : Template) (fuel : ℕ) (st : Store) (buf : Text)
    → IsPlain tpl
    → length buf ≤ ext_max_value
    → length (written tpl) < fuel
    → interpolate_from fuel st buf (written tpl) ≡ bounded (after buf (meaning st tpl))
unfolding after written IsPlain meaning
from-written (last t) fuel st buf p l h =
    let e =
      literal-then fuel st buf t [] (some []) p (rw (append_nil t) (run_to_all b'{' t p)) l
        (rw (append_nil t) h) (λ f b k g. from_end f st b k g) in
    rw (sym (append_nil t)) e
from-written (hole t name rest) fuel st buf (p, (q, r)) l h =
    rw (after_chosen t (store_get st name) (λ v. after v (meaning st rest))) (
      literal-then fuel st buf t _ _ p (run_to-append b'{' t _ p) l h λ f b k g.
        reference-then f st b name (written rest) (meaning st rest) q k (omega (arith, g))
          (λ f' b' k' g'. from-written rest f' st b' r k' g'))

-- On the text of a template whose literals are free of '{' and whose names are free of '}',
-- `interpolate` returns the literals and the values in their order, if every variable is defined and
-- the result has 1048576 bytes at most; otherwise it fails.
pub interpolate-written :
    (tpl : Template) (st : Store)
    → IsPlain tpl
    → interpolate (written tpl) st ≡ bounded (meaning st tpl)
unfolding interpolate
interpolate-written tpl st p =
    from-written tpl _ st [] p (omega arith) (omega arith)
    ∙ ap bounded (after_nothing (meaning st tpl))
