-- ===== src/Abuf.antt =====
-- src/abuf.c: a buffer as the bytes of its memory, as many as its length.
pub mod Append
use hyperflux.Common.{
  ℕ, suc, ◌+◌, ◌-◌, Bool, Option, none, some, List, [], ◌∷◌, ◌++◌, ltb, ◌==◌, if◌then◌else◌, length,
  take, drop,
}
use hyperflux.Libc.{Text, span_until}

abbrev pub is_nul : ℕ → Bool
is_nul c = c == 0

-- `strlcat` into the whole buffer, in which `text` is ended by a NUL.
unfoldable pub strlcat : Text → List ℕ → Text → List ℕ
strlcat text mem src =
    let added = take (length mem - 1 - length text) src in
    text ++ (added ++ (0 ∷ drop (suc (length text + length added)) mem))

-- The bytes of `memcpy` come from `src` with its NUL; `none` where it reads behind that.
unfoldable pub strcat_behind : Text → List ℕ → Text → Option (List ℕ)
strcat_behind text mem src =
    let nread = length text + length src in
    let done = length mem - 1 in
    if ltb (length mem) nread
    then if ltb (suc (length src)) nread
      then none
      else some
          (take done (strlcat text mem src) ++ take (nread - done) (drop done (src ++ (0 ∷ []))))
    else some (strlcat text mem src)

-- Memory is not exhausted.
unfoldable pub abuf_strcat : List ℕ → Text → Option (List ℕ)
abuf_strcat mem src = strcat_behind (span_until is_nul mem).0 mem src
