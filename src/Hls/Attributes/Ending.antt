-- ===== src/Hls/Attributes/Ending.antt =====
-- The loop of `attr_get` ends: every attribute takes a byte of the list.
use hyperflux.Common.{
  ℕ, zero, suc, ◌≤◌, ◌<◌, ◌≡◌, refl, sym, ◌∙◌, inl, inr, true, false, none, some, [], ◌∷◌, arith,
  ◌==◌, Bool-cases, Option-cases, length,
}
use hyperflux.Libc.{Text, same_nocase, cut_at}
use hyperflux.Libc.Cuts.{span_until_le, cut_at_lt}
use hyperflux.Hls.Attributes.{separators_off, attr_value, quote_off, past_value, attr_from}

separators_off_le : (s : Text) → length (separators_off s) ≤ length s
unfolding separators_off
separators_off_le [] = ground arith
separators_off_le (c ∷ s) = ground (arith, separators_off_le s)

quote_off_le : (s : Text) → length (quote_off s) ≤ length s
quote_off_le [] = ground arith
quote_off_le (c ∷ s) = ground arith

attr_value_le : (s : Text) → length (attr_value s).1 ≤ length s
unfolding attr_value
attr_value_le [] = ground arith
attr_value_le (c ∷ s) =
    ground (arith, span_until_le (λ x. x == b'"') s, span_until_le (λ x. x == b',') (c ∷ s))

past_value_le : (s : Text) → length (past_value (attr_value s).1) ≤ length s
unfolding past_value
past_value_le s =
    let rest = (attr_value s).1 in
    omega
      (arith, span_until_le (λ x. x == b',') (quote_off rest), quote_off_le rest, attr_value_le s)

-- The step of the loop, from the two searches that decide it.
pub attr_from-end :
    (fuel : ℕ) (attr key : Text)
    → cut_at b'=' (separators_off attr) ≡ none
    → attr_from (suc fuel) attr key ≡ none
unfolding attr_from
attr_from-end fuel attr key e = rw (e, attr_from) refl

pub attr_from-found :
    (fuel : ℕ) (attr key : Text) (p : Text × Text)
    → cut_at b'=' (separators_off attr) ≡ some p
    → same_nocase p.0 key ≡ true
    → attr_from (suc fuel) attr key ≡ some (attr_value p.1).0
unfolding attr_from
attr_from-found fuel attr key p e e' = rw (e, attr_from) (rw e' refl)

pub attr_from-next :
    (fuel : ℕ) (attr key : Text) (p : Text × Text)
    → cut_at b'=' (separators_off attr) ≡ some p
    → same_nocase p.0 key ≡ false
    → attr_from (suc fuel) attr key ≡ attr_from fuel (past_value (attr_value p.1).1) key
unfolding attr_from
attr_from-next fuel attr key p e e' = rw (e, attr_from) (rw e' refl)

-- Any two amounts of fuel above the length of the list give the same value.
pub attr_from_fuel :
    (fuel fuel' : ℕ) (attr key : Text)
    → length attr < fuel
    → length attr < fuel'
    → attr_from fuel attr key ≡ attr_from fuel' attr key
attr_from_fuel zero fuel' attr key h h' = ground arith
attr_from_fuel (suc fuel) zero attr key h h' = ground arith
attr_from_fuel (suc fuel) (suc fuel') attr key h h' =
    elim (Option-cases (cut_at b'=' (separators_off attr))) [
      | inl e ↦ attr_from-end fuel attr key e ∙ sym (attr_from-end fuel' attr key e)
      | inr (p, e) ↦ elim (Bool-cases (same_nocase p.0 key)) [
        | inl e' ↦
            attr_from-found fuel attr key p e e' ∙ sym (attr_from-found fuel' attr key p e e')
        | inr e' ↦
            let smaller : length (past_value (attr_value p.1).1) < length attr = omega (
              arith,
              past_value_le p.1,
              cut_at_lt b'=' (separators_off attr) p e,
              separators_off_le attr,
            ) in
            attr_from-next fuel attr key p e e'
            ∙ attr_from_fuel fuel fuel' (past_value (attr_value p.1).1) key (omega (arith, smaller))
                (omega (arith, smaller))
            ∙ sym (attr_from-next fuel' attr key p e e')
      ]
    ]
