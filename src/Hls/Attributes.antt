-- ===== src/Hls/Attributes.antt =====
-- `attr_get` of src/hls.c: an attribute list KEY=VALUE,KEY="VALUE",...
pub mod Ending
pub mod Written
use hyperflux.Common.{
  ℕ, zero, suc, true, false, ◌||◌, Option, none, some, [], ◌∷◌, ◌==◌, if◌then◌else◌, length,
}
use hyperflux.Libc.{Text, same_nocase, cut_at, span_until}

-- The loop over ' ' and ','.
unfoldable pub separators_off : Text → Text
separators_off [] = []
separators_off (c ∷ s) =
    let rest = separators_off s in if c == b' ' || c == b',' then rest else c ∷ s

-- The value behind '=', and what starts at `vend`.
unfoldable pub attr_value : Text → Text × Text
attr_value [] = ([], [])
attr_value (c ∷ s) =
    if c == b'"' then span_until (λ x. x == b'"') s else span_until (λ x. x == b',') (c ∷ s)

abbrev pub quote_off : Text → Text
quote_off [] = []
quote_off (c ∷ s) = if c == b'"' then s else c ∷ s

-- Past this attribute: the closing quote, and all up to the next ','.
unfoldable pub past_value : Text → Text
past_value s = (span_until (λ x. x == b',') (quote_off s)).1

-- One attribute per unit of fuel; the loop has ended before `attr` has no byte left.
unfoldable pub attr_from : ℕ → Text → Text → Option Text
attr_from zero attr key = none
attr_from (suc fuel) attr key = elim (cut_at b'=' (separators_off attr)) [
  | none ↦ none
  | some p ↦ elim (same_nocase p.0 key) [
    | true ↦ some (attr_value p.1).0
    | false ↦ attr_from fuel (past_value (attr_value p.1).1) key
  ]
]

unfoldable pub attr_get : Text → Text → Option Text
attr_get attr key = attr_from (suc (length attr)) attr key
