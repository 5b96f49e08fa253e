-- ===== src/Extractor/Store.antt =====
-- The variable store of src/extractor.c.
pub mod Lookup
use hyperflux.Common.{Option, none, some, List, [], ◌∷◌, ◌++◌, ltb, if◌then◌else◌, length}
use hyperflux.Extractor.{Text, same, extractor_max_vars}

pub record Var : Type 0 where
  pub name : Text
  pub value : Text

-- `vars` up to `nvars`.
abbrev pub Store : Type 0
Store = List Var

unfoldable pub store_get : Store → Text → Option Text
store_get [] name = none
store_get (v ∷ st) name = if same v.name name then some v.value else store_get st name

-- The loop of `store_set`; `none` if no variable has the name.
unfoldable pub replaced : Store → Text → Text → Option Store
replaced [] name value = none
replaced (v ∷ st) name value =
    let rest = replaced st name value in
    if same v.name name
    then some (record v { value = value } ∷ st)
    else elim rest [ none ↦ none | some s ↦ some (v ∷ s) ]

-- `none` for -1: the store is full.
unfoldable pub store_set : Store → Text → Text → Option Store
store_set st name value = elim (replaced st name value) [
  | some s ↦ some s
  | none ↦
      if ltb (length st) extractor_max_vars
      then some (st ++ (record { name = name; value = value } ∷ []))
      else none
]
