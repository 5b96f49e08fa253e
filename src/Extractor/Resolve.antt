-- ===== src/Extractor/Resolve.antt =====
-- `extractor_resolve_url` of src/extractor.c: a reference becomes absolute.
pub mod Absolute
use hyperflux.Common.{
  ℕ, ◌+◌, ◌&&◌, ◌||◌, Option, none, some, [], ◌∷◌, ◌++◌, ltb, ◌==◌, if◌then◌else◌, take, drop,
}
use hyperflux.Extractor.{Text}

-- `strstr(s, "://")`: where the first one starts.
unfoldable pub find_scheme : Text → Option ℕ
find_scheme [] = none
find_scheme (a ∷ []) = none
find_scheme (a ∷ b ∷ []) = none
find_scheme (a ∷ b ∷ c ∷ s) =
    let rest = find_scheme (b ∷ c ∷ s) in
    if a == b':' && (b == b'/' && c == b'/')
    then some 0
    else elim rest [ none ↦ none | some n ↦ some (n + 1) ]

-- `strcspn(s, "/?#")`
unfoldable pub authority_end : Text → ℕ
authority_end [] = 0
authority_end (c ∷ s) = if c == b'/' || (c == b'?' || c == b'#') then 0 else authority_end s + 1

-- `strcspn(s, "?#")`
unfoldable pub path_end : Text → ℕ
path_end [] = 0
path_end (c ∷ s) = if c == b'?' || c == b'#' then 0 else path_end s + 1

unfoldable pub url_authority_len : Text → ℕ
url_authority_len base = elim (find_scheme base) [
  | none ↦ 0
  | some sep ↦ sep + 3 + authority_end (drop (sep + 3) base)
]

-- The loop that turns "\/" into "/". Without one it changes nothing.
unfoldable pub unescape : Text → Text
unescape [] = []
unescape (a ∷ []) = a ∷ []
unescape (a ∷ b ∷ s) =
    let skipped = unescape s in
    let kept = unescape (b ∷ s) in if a == b'\\' && b == b'/' then b ∷ skipped else a ∷ kept

-- One more than the index of the last '/', and 0 without one.
unfoldable pub last_slash : Text → ℕ
last_slash [] = 0
last_slash (c ∷ s) = let n = last_slash s in if ltb 0 n then n + 1 else if c == b'/' then 1 else 0

-- A relative path: the directory of `base`, then `ref`.
unfoldable pub join_path : Text → ℕ → Text → Text
join_path base authlen ref =
    let path = drop authlen base in
    let slash = last_slash (take (path_end path) path) in
    if ltb 0 slash then take (authlen + slash) base ++ ref else take authlen base ++ (b'/' ∷ ref)

-- The tests on how `ref` starts, for a base that is absolute.
unfoldable pub resolve_parts : Text → ℕ → Text → Text
resolve_parts base sep ref =
    let authlen = url_authority_len base in
    elim ref [
      | [] ↦ join_path base authlen []
      | a ∷ [] ↦
          if a == b'/' then take authlen base ++ (a ∷ []) else join_path base authlen (a ∷ [])
      | a ∷ b ∷ s ↦
          if a == b'/' && b == b'/'
          then take (sep + 1) base ++ (a ∷ b ∷ s)
          else if a == b'/'
          then take authlen base ++ (a ∷ b ∷ s)
          else join_path base authlen (a ∷ b ∷ s)
    ]

unfoldable pub resolve_url : Text → Text → Text
resolve_url base ref0 =
    let ref = unescape ref0 in
    elim (find_scheme ref) [
      | some n ↦ ref
      | none ↦ elim (find_scheme base) [ none ↦ ref | some sep ↦ resolve_parts base sep ref ]
    ]
