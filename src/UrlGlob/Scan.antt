-- ===== src/UrlGlob/Scan.antt =====
-- The parse loop of `url_glob` in src/url_glob.c: the URL as literal runs and patterns.
use hyperflux.Common.{
  ℕ, zero, suc, ◌+◌, ◌-◌, ◌*◌, ◌/◌, ◌^◌, Bool, not, ◌&&◌, ◌||◌, Option, none, some, List, [], ◌∷◌,
  ◌++◌, ltb, ◌==◌, if◌then◌else◌, length, take, drop,
}
use hyperflux.UrlGlob.{Bytes, url_glob_max_urls, Built, literal, error, alts}
use hyperflux.UrlGlob.Pattern.{build_pattern, index_of}

pub data Seg : Type 0 where
  lit : Bytes → Seg
  pat : List Bytes → Seg

-- `mul_overflow` for a `size_t`.
unfoldable pub mul_overflow : ℕ → ℕ → Bool
mul_overflow a b = not (b == 0) && ltb ((2 ^ 64 - 1) / b) a

-- A literal run is a segment if it is not empty.
unfoldable pub flush : Bytes → List Seg → List Seg
flush [] segs = segs
flush (c ∷ cs) segs = lit (c ∷ cs) ∷ segs

unfoldable pub closing : ℕ → ℕ
closing ch = if ch == b'{' then b'}' else b']'

-- What `build_pattern` says of the group that `ch` opens, if the group is closed, and the text
-- behind it.
unfoldable pub group : ℕ → Bytes → Built × Bytes
group ch rest = elim (index_of (closing ch) rest) [
  | none ↦ (literal, [])
  | some j ↦ (build_pattern ch (take j rest), drop (j + 1) rest)
]

abbrev pub Scanned : Type 0
Scanned = Option (List Seg × ℕ)

-- A pattern with these alternatives has been read. `more` scans what is behind it.
unfoldable pub add_pattern : Bytes → ℕ → List Bytes → (ℕ → Scanned) → Scanned
add_pattern run product texts more =
    let np = product * length texts in
    if mul_overflow product (length texts) || ltb url_glob_max_urls np
    then none
    else elim (more np) [
      | none ↦ none
      | some (segs, total) ↦ some (flush run (pat texts ∷ segs), total)
    ]

-- What the group that `ch` opens, or seems to open, comes to.
unfoldable pub add_group : Bytes → ℕ → Built → (ℕ → Scanned) → Scanned → Scanned
add_group run product error more plain = none
add_group run product literal more plain = plain
add_group run product (alts texts) more plain = add_pattern run product texts more

-- The body of the loop, where the byte `ch` is read; `go` is what follows.
unfoldable pub scan_byte : (ℕ → Bytes → Bytes → Scanned) → ℕ → Bytes → ℕ → Bytes → Scanned
scan_byte go product run ch rest =
    if ch == b'{' || ch == b'['
    then add_group run product (group ch rest).0 (λ np. go np [] (group ch rest).1)
        (go product (run ++ (ch ∷ [])) rest)
    else go product (run ++ (ch ∷ [])) rest

-- `run` is the literal run up to here, `product` the number of URLs so far. The result is the
-- segments and the number of URLs; `none` for the label `error`. The fuel is more than the bytes
-- left.
unfoldable pub scan : ℕ → ℕ → Bytes → Bytes → Scanned
scan zero product run rest = none
scan (suc fuel) product run [] = some (flush run [], product)
scan (suc fuel) product run (ch ∷ rest) = scan_byte (scan fuel) product run ch rest
