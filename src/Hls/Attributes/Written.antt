-- ===== src/Hls/Attributes/Written.antt =====
-- An attribute list that is written from attributes, and how `attr_get` walks over it.
use hyperflux.Common.{
  ℕ, zero, suc, ◌≤◌, ◌<◌, ◌≡◌, refl, ap, ◌∙◌, inl, inr, Bool, true, false, not, ◌||◌, Option, none,
  some, List, [], ◌∷◌, ◌++◌, arith, ◌==◌, Bool-cases, length, length-append,
}
use hyperflux.Libc.{Text, same_nocase, cut_at, span_until}
use hyperflux.Libc.Cuts.{Free, Starts, span_until-append, cut_at-append}
use hyperflux.Hls.Attributes.{
  separators_off, attr_value, quote_off, past_value, attr_from, attr_get,
}
use hyperflux.Hls.Attributes.Ending.{attr_from-end, attr_from-found, attr_from-next}

pub record Attribute : Type 0 where
  pub name : Text
  pub quoted : Bool
  pub value : Text

-- The value in front of the text `t`.
unfoldable pub value_onto : Bool → Text → Text → Text
value_onto true value t = b'"' ∷ (value ++ (b'"' ∷ t))
value_onto false value t = value ++ t

unfoldable pub onto : Attribute → Text → Text
onto a t = a.name ++ (b'=' ∷ value_onto a.quoted a.value t)

unfoldable pub tail : List Attribute → Text
tail [] = []
tail (a ∷ rest) = b',' ∷ onto a (tail rest)

-- NAME=value or NAME="value", with commas between the attributes.
unfoldable pub written : List Attribute → Text
written [] = []
written (a ∷ rest) = onto a (tail rest)

-- The value of the first attribute of that name, in any case of its letters.
unfoldable pub lookup : List Attribute → Text → Option Text
lookup [] key = none
lookup (a ∷ rest) key = elim (same_nocase a.name key) [
  | true ↦ some a.value
  | false ↦ lookup rest key
]

unfoldable pub IsValue : Bool → Text → Type 0
IsValue true value = Free (λ x. x == b'"') value
IsValue false value = Free (λ x. x == b',') value × Starts (λ x. not (x == b'"')) value

-- No '=' in the name and no separator at its start; a value that its quotes or the next comma end.
unfoldable pub AreAttributes : List Attribute → Type 0
AreAttributes [] = Unit {0}
AreAttributes (a ∷ rest) =
    (Free (λ x. x == b'=') a.name × Starts (λ x. not (x == b' ' || x == b',')) a.name)
    × (IsValue a.quoted a.value × AreAttributes rest)

separators_off-onto :
    (name s : Text)
    → Starts (λ x. not (x == b' ' || x == b',')) name
    → separators_off (name ++ (b'=' ∷ s)) ≡ name ++ (b'=' ∷ s)
unfolding separators_off Starts
separators_off-onto [] s h = refl
separators_off-onto (c ∷ name) s h = ground (arith, h)

tail-Starts : (rest : List Attribute) → Starts (λ x. x == b',') (tail rest)
unfolding Starts tail
tail-Starts [] = tt
tail-Starts (a ∷ rest) = refl

tail-quote_off : (rest : List Attribute) → quote_off (tail rest) ≡ tail rest
unfolding tail
tail-quote_off [] = refl
tail-quote_off (a ∷ rest) = refl

tail-separators_off :
    (a : Attribute) (rest : List Attribute)
    → Starts (λ x. not (x == b' ' || x == b',')) a.name
    → separators_off (tail (a ∷ rest)) ≡ onto a (tail rest)
unfolding tail onto separators_off
tail-separators_off a rest h =
    separators_off-onto a.name (value_onto a.quoted a.value (tail rest)) h

attr_value-quoted :
    (value t : Text)
    → Free (λ x. x == b'"') value
    → attr_value (value_onto true value t) ≡ (value, b'"' ∷ t)
unfolding attr_value value_onto Starts
attr_value-quoted value t free = span_until-append (λ x. x == b'"') value (b'"' ∷ t) free refl

attr_value-plain :
    (value : Text) (rest : List Attribute)
    → Free (λ x. x == b',') value
    → Starts (λ x. not (x == b'"')) value
    → attr_value (value_onto false value (tail rest)) ≡ (value, tail rest)
unfolding attr_value value_onto Starts tail
attr_value-plain [] [] free starts = refl
attr_value-plain [] (a ∷ rest) free starts =
    span_until-append (λ x. x == b',') [] (tail (a ∷ rest)) free refl
attr_value-plain (c ∷ value) rest free starts =
    let plain : (c == b'"') ≡ false = ground (arith, starts) in
    rw plain (span_until-append (λ x. x == b',') (c ∷ value) (tail rest) free (tail-Starts rest))

-- What `attr_get` reads behind the '=' of a written attribute, and where it goes on.
value_read :
    (quoted : Bool) (value : Text) (rest : List Attribute)
    → IsValue quoted value
    → (attr_value (value_onto quoted value (tail rest))).0 ≡ value
unfolding IsValue
value_read true value rest h = ap (λ p. p.0) (attr_value-quoted value (tail rest) h)
value_read false value rest h = ap (λ p. p.0) (attr_value-plain value rest h.0 h.1)

past_value-tail : (rest : List Attribute) → past_value (tail rest) ≡ tail rest
unfolding past_value Free Starts tail span_until
past_value-tail [] = refl
past_value-tail (a ∷ rest) = refl

past_value-quote : (rest : List Attribute) → past_value (b'"' ∷ tail rest) ≡ tail rest
unfolding past_value Free
past_value-quote rest =
    ap (λ p. p.1) (span_until-append (λ x. x == b',') [] (tail rest) tt (tail-Starts rest))

value_passed :
    (quoted : Bool) (value : Text) (rest : List Attribute)
    → IsValue quoted value
    → past_value (attr_value (value_onto quoted value (tail rest))).1 ≡ tail rest
unfolding IsValue
value_passed true value rest h =
    ap (λ p. past_value p.1) (attr_value-quoted value (tail rest) h) ∙ past_value-quote rest
value_passed false value rest h =
    ap (λ p. past_value p.1) (attr_value-plain value rest h.0 h.1) ∙ past_value-tail rest

onto_found :
    (a : Attribute) (attrs : List Attribute)
    → Free (λ x. x == b'=') a.name
    → cut_at b'=' (onto a (tail attrs)) ≡ some (a.name, value_onto a.quoted a.value (tail attrs))
unfolding onto
onto_found a attrs free = cut_at-append b'=' a.name (value_onto a.quoted a.value (tail attrs)) free

separators_off-nil : separators_off [] ≡ []
unfolding separators_off
separators_off-nil = refl

cut_at-nil : (c : ℕ) → cut_at c [] ≡ none
unfolding cut_at
cut_at-nil c = refl

-- One step on a text whose separators are followed by a written attribute.
attr_from-onto :
    (fuel : ℕ) (text : Text) (a : Attribute) (attrs : List Attribute) (key : Text)
    → separators_off text ≡ onto a (tail attrs)
    → AreAttributes (a ∷ attrs)
    → attr_from fuel (tail attrs) key ≡ lookup attrs key
    → attr_from (suc fuel) text key ≡ lookup (a ∷ attrs) key
unfolding lookup AreAttributes
attr_from-onto fuel text a attrs key off areAttributes later =
    let after = value_onto a.quoted a.value (tail attrs) in
    let found : cut_at b'=' (separators_off text) ≡ some (a.name, after) =
      ap (cut_at b'=') off ∙ onto_found a attrs areAttributes.0.0 in
    elim (Bool-cases (same_nocase a.name key)) [
      | inl e ↦
          rw (e, lookup)
            (attr_from-found fuel text key (a.name, after) found e
              ∙ ap some (value_read a.quoted a.value attrs areAttributes.1.0))
      | inr e ↦
          rw (e, lookup)
            (attr_from-next fuel text key (a.name, after) found e
              ∙ ap (λ t. attr_from fuel t key)
                  (value_passed a.quoted a.value attrs areAttributes.1.0)
              ∙ later)
    ]

attr_from-tail :
    (fuel : ℕ) (attrs : List Attribute) (key : Text)
    → length attrs < fuel
    → AreAttributes attrs
    → attr_from fuel (tail attrs) key ≡ lookup attrs key
unfolding lookup AreAttributes tail
attr_from-tail zero attrs key h areAttributes = ground arith
attr_from-tail (suc fuel) [] key h areAttributes =
    attr_from-end fuel [] key (ap (cut_at b'=') separators_off-nil ∙ cut_at-nil b'=')
attr_from-tail (suc fuel) (a ∷ attrs) key h areAttributes =
    attr_from-onto fuel (tail (a ∷ attrs)) a attrs key
      (tail-separators_off a attrs areAttributes.0.1) areAttributes
      (attr_from-tail fuel attrs key (omega (arith, h)) areAttributes.1.1)

length-value_onto : (quoted : Bool) (value t : Text) → length t ≤ length (value_onto quoted value t)
unfolding value_onto
length-value_onto true value t = ground (arith, length-append value (b'"' ∷ t))
length-value_onto false value t = ground (arith, length-append value t)

length-onto : (a : Attribute) (t : Text) → length t < length (onto a t)
unfolding onto
length-onto a t =
    let after = value_onto a.quoted a.value t in
    ground (arith, length-value_onto a.quoted a.value t, length-append a.name (b'=' ∷ after))

length-tail : (attrs : List Attribute) → length attrs ≤ length (tail attrs)
unfolding tail
length-tail [] = omega arith
length-tail (a ∷ attrs) = omega (arith, length-tail attrs, length-onto a (tail attrs))

-- `attr_get` of a list that is written from attributes gives the value of the first attribute of the
-- name asked for, in any case of its letters, and nothing without one. No name holds '=' or starts with
-- a blank or a comma, no quoted value holds a quote, and no plain value holds a comma or starts with a
-- quote.
pub attr_get-written :
    (attrs : List Attribute) (key : Text)
    → AreAttributes attrs
    → attr_get (written attrs) key ≡ lookup attrs key
unfolding attr_get written AreAttributes lookup onto tail
attr_get-written [] key areAttributes = attr_from-tail 1 [] key (ground arith) areAttributes
attr_get-written (a ∷ attrs) key areAttributes =
    let text = onto a (tail attrs) in
    let off : separators_off text ≡ text =
      separators_off-onto a.name (value_onto a.quoted a.value (tail attrs)) areAttributes.0.1 in
    attr_from-onto (length text) text a attrs key off areAttributes (
      attr_from-tail (length text) attrs key
        (omega (arith, length-tail attrs, length-onto a (tail attrs))) areAttributes.1.1)
