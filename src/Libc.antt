-- ===== src/Libc.antt =====
-- C strings, and the functions of the C library that the source calls on them.
pub mod Int
pub mod Number
pub mod Cuts
use hyperflux.Common.{
  ℕ, ◌+◌, ◌-◌, ◌≡◌, refl, ap₂, inl, inr, Bool, true, false, ◌&&◌, Option, none, some, List, [], ◌∷◌,
  arith, leb, ◌==◌, if◌then◌else◌, Bool-cases, take,
}

-- A C string without its NUL.
abbrev pub Text : Type 0
Text = List ℕ

-- `strcmp(a, b) == 0`
unfoldable pub same : Text → Text → Bool
same [] [] = true
same [] (y ∷ ys) = false
same (x ∷ xs) [] = false
same (x ∷ xs) (y ∷ ys) = x == y && same xs ys

abbrev pub is_empty : Text → Bool
is_empty [] = true
is_empty (c ∷ s) = false

-- `tolower` in the C locale.
abbrev pub to_lower : ℕ → ℕ
to_lower c = if leb b'A' c && leb c b'Z' then c + 32 else c

-- `strcasecmp(a, b) == 0`
unfoldable pub same_nocase : Text → Text → Bool
same_nocase [] [] = true
same_nocase [] (y ∷ ys) = false
same_nocase (x ∷ xs) [] = false
same_nocase (x ∷ xs) (y ∷ ys) = to_lower x == to_lower y && same_nocase xs ys

-- `strncmp(s, prefix, strlen(prefix)) == 0`: what stands behind the prefix.
unfoldable pub after_prefix : Text → Text → Option Text
after_prefix [] s = some s
after_prefix (p ∷ ps) [] = none
after_prefix (p ∷ ps) (c ∷ s) = elim (p == c) [ true ↦ after_prefix ps s | false ↦ none ]

-- `strncasecmp(s, prefix, strlen(prefix)) == 0`
unfoldable pub after_prefix_nocase : Text → Text → Option Text
after_prefix_nocase [] s = some s
after_prefix_nocase (p ∷ ps) [] = none
after_prefix_nocase (p ∷ ps) (c ∷ s) = elim (to_lower p == to_lower c) [
  | true ↦ after_prefix_nocase ps s
  | false ↦ none
]

-- `strchr(s, c)`: what stands before the first `c`, and what stands behind it.
unfoldable pub cut_at : ℕ → Text → Option (Text × Text)
cut_at c [] = none
cut_at c (x ∷ s) = elim (x == c) [
  | true ↦ some ([], s)
  | false ↦ elim (cut_at c s) [ none ↦ none | some p ↦ some (x ∷ p.0, p.1) ]
]

-- `strrchr(s, c)`: the same at the last `c`.
unfoldable pub cut_at_last : ℕ → Text → Option (Text × Text)
cut_at_last c [] = none
cut_at_last c (x ∷ s) = elim (cut_at_last c s) [
  | some p ↦ some (x ∷ p.0, p.1)
  | none ↦ elim (x == c) [ true ↦ some ([], s) | false ↦ none ]
]

-- `strcspn`: the longest start of bytes that are not in the set, and the rest.
unfoldable pub span_until : (ℕ → Bool) → Text → Text × Text
span_until stop [] = ([], [])
span_until stop (c ∷ s) = elim (stop c) [
  | true ↦ ([], c ∷ s)
  | false ↦ (c ∷ (span_until stop s).0, (span_until stop s).1)
]

-- `strstr(s, needle)`: what stands before the first occurrence, and what stands from it on.
unfoldable pub find_text : Text → Text → Option (Text × Text)
find_text needle [] = elim needle [ [] ↦ some ([], []) | n ∷ ns ↦ none ]
find_text needle (c ∷ s) = elim (after_prefix needle (c ∷ s)) [
  | some rest ↦ some ([], c ∷ s)
  | none ↦ elim (find_text needle s) [ none ↦ none | some p ↦ some (c ∷ p.0, p.1) ]
]

-- The longest text that `strlcpy` and `snprintf` leave in a buffer of `size` bytes.
abbrev pub fitted : ℕ → Text → Text
fitted size s = take (size - 1) s

pub same_refl : (xs : Text) → same xs xs ≡ true
unfolding same
same_refl [] = refl
same_refl (x ∷ xs) = ground (arith, same_refl xs)

pub same_eq : (xs ys : Text) → same xs ys ≡ true → xs ≡ ys
unfolding same
same_eq [] [] h = refl
same_eq [] (y ∷ ys) h = ground arith
same_eq (x ∷ xs) [] h = ground arith
same_eq (x ∷ xs) (y ∷ ys) h = elim (Bool-cases (same xs ys)) [
  | inl e ↦ ap₂ ◌∷◌ (ground (arith, h, e)) (same_eq xs ys e)
  | inr e ↦ ground (arith, h, e)
]
