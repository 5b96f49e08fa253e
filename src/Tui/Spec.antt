-- ===== src/Tui/Spec.antt =====
-- `tui_apply_spec` of src/tui.c: a selection typed as text, "1,3-5,8" or "all".
pub mod Written
use hyperflux.Common.{
  ℕ, zero, suc, ◌+◌, ◌-◌, ◌*◌, Bool, true, false, ◌||◌, Option, none, some, List, [], ◌∷◌, ltb,
  ◌==◌, if◌then◌else◌, length, replicate,
}
use hyperflux.Libc.{Text, same}
use hyperflux.UrlGlob.Number.{is_digit}
use hyperflux.Extractor.Episodes.{skip_blanks, mark}

-- The digits of a number, with the clamp to `n + 1`. A list has fewer than 2 ^ 60 items.
unfoldable pub digits_up_to : ℕ → ℕ → Text → ℕ × Text
digits_up_to n v [] = (v, [])
digits_up_to n v (c ∷ s) =
    let v' = v * 10 + (c - b'0') in
    let clamped = if ltb (n + 1) v' then n + 1 else v' in
    let rest = digits_up_to n clamped s in if is_digit c then rest else (v, c ∷ s)

-- `none` for `ok = 0`, also below.
unfoldable pub spec_number : ℕ → Text → Option (ℕ × Text)
spec_number n [] = none
spec_number n (c ∷ s) = if is_digit c then some (digits_up_to n 0 (c ∷ s)) else none

unfoldable pub skip_space : Text → Text
skip_space [] = []
skip_space (c ∷ s) =
    let rest = skip_space s in
    if c == b' ' || c == b'\t' || c == b'\r' || c == b'\n' then rest else c ∷ s

-- `b`, which is `a` without a '-'.
unfoldable pub spec_end : ℕ → ℕ → Text → Option (ℕ × Text)
spec_end n a [] = some (a, [])
spec_end n a (c ∷ s) = if c == b'-' then spec_number n (skip_blanks s) else some (a, c ∷ s)

abbrev pub out_of_range : ℕ → ℕ → ℕ → Bool
out_of_range n a b = ltb a 1 || ltb n a || ltb b a || ltb n b

-- One pass of the loop: the range and the text behind it.
unfoldable pub spec_range : ℕ → Text → Option ((ℕ × ℕ) × Text)
spec_range n s = elim (spec_number n (skip_blanks s)) [
  | none ↦ none
  | some (a, s1) ↦ elim (spec_end n a (skip_blanks s1)) [
    | none ↦ none
    | some (b, s2) ↦ if out_of_range n a b then none else some ((a, b), skip_space s2)
  ]
]

-- The loop. `tmp` has one entry for each of the `n` items.
unfoldable pub spec_from : ℕ → ℕ → Text → List Bool → Option (List Bool)
spec_from zero n s tmp = none
spec_from (suc fuel) n [] tmp = some tmp
spec_from (suc fuel) n (c ∷ s) tmp = elim (spec_range n (c ∷ s)) [
  | none ↦ none
  | some ((a, b), []) ↦ some (mark 0 a b tmp)
  | some ((a, b), d ∷ after) ↦ elim (d == b',') [
    | true ↦ spec_from fuel n after (mark 0 a b tmp)
    | false ↦ none
  ]
]

abbrev pub means_all : Text → Bool
means_all s = same s (b'a' ∷ b'l' ∷ b'l' ∷ []) || same s (b'*' ∷ []) || same s (b'a' ∷ [])

-- `none` for -1, where `sel` stays as it is.
unfoldable pub tui_apply_spec : Text → List Bool → Option (List Bool)
tui_apply_spec spec sel =
    let s = skip_blanks spec in
    if means_all s
    then some (replicate (length sel) true)
    else spec_from (length s + 1) (length sel) s (replicate (length sel) false)
