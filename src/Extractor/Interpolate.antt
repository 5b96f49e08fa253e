-- ===== src/Extractor/Interpolate.antt =====
-- `interpolate` of src/extractor.c: the references {name} of a template are replaced.
pub mod Template
pub mod Ending
use hyperflux.Common.{
  ℕ, zero, suc, ◌+◌, ◌-◌, ◌*◌, true, false, ◌||◌, Option, none, some, [], ◌∷◌, ◌++◌, ltb, ◌==◌,
  if◌then◌else◌, length,
}
use hyperflux.Extractor.{Text}
use hyperflux.Extractor.Store.{Store, store_get}

-- EXT_MAX_VALUE
abbrev pub ext_max_value : ℕ
ext_max_value = 1024 * 1024

-- `none` for -1. The buffer's growth to a power of two below 2 * EXT_MAX_VALUE never fails.
unfoldable pub buf_append : Text → Text → Option Text
buf_append buf src =
    if ltb ext_max_value (length src) || ltb (ext_max_value - length src) (length buf)
    then none
    else some (buf ++ src)

-- The text before the first byte `c` and the text from it on; all of it and nothing without one.
unfoldable pub run_to : ℕ → Text → Text × Text
run_to c [] = ([], [])
run_to c (x ∷ xs) = if x == c then ([], x ∷ xs) else (x ∷ (run_to c xs).0, (run_to c xs).1)

-- The loop over the template; `none` for NULL, after an undefined variable or a text too long.
unfoldable pub interpolate_from : ℕ → Store → Text → Text → Option Text
interpolate_from zero st buf p = none
interpolate_from (suc fuel) st buf [] = some buf
interpolate_from (suc fuel) st buf (c ∷ cs) =
    let (literal, rest) = run_to b'{' (c ∷ cs) in
    let (name, closing) = run_to b'}' cs in
    elim (c == b'{') [
      | false ↦ elim (buf_append buf literal) [
        | none ↦ none
        | some buf' ↦ interpolate_from fuel st buf' rest
      ]
      | true ↦ elim closing [
        | [] ↦ elim (buf_append buf (c ∷ [])) [
          | none ↦ none
          | some buf' ↦ interpolate_from fuel st buf' cs
        ]
        | close ∷ after ↦ elim (store_get st name) [
          | none ↦ none
          | some val ↦ elim (buf_append buf val) [
            | none ↦ none
            | some buf' ↦ interpolate_from fuel st buf' after
          ]
        ]
      ]
    ]

unfoldable pub interpolate : Text → Store → Option Text
interpolate tpl st = interpolate_from (length tpl + 1) st [] tpl
