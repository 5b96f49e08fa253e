-- ===== src/UrlGlob/Expand/Total.antt =====
-- The parse loop of `url_glob` ends, and counts the URLs; with the generating loop it gives the
-- product of what it has read.
use hyperflux.Common.{
  ℕ, zero, suc, ◌+◌, ◌*◌, ◌≤◌, ◌<◌, ◌≡◌, refl, sym, ap, ap₂, ◌∙◌, inl, inr, false, ◌||◌, Option,
  none, some, List, [], ◌∷◌, ◌++◌, arith, dec_lt, ◌==◌, if◌then◌else◌, Bool-cases, Option-cases,
  length, take, drop, length-drop,
}
use native.Mathlib.Nat.{mul_assoc, mul-one, one-mul}
use hyperflux.UrlGlob.{Bytes, url_glob_max_urls, Built, literal, error, alts}
use hyperflux.UrlGlob.Pattern.{index_of}
use hyperflux.UrlGlob.Scan.{
  Seg, pat, flush, closing, group, Scanned, add_pattern, add_group, scan_byte, scan,
}
use hyperflux.UrlGlob.Expand.{Item, patterns, product_of, generate, zeros, url_glob}
use hyperflux.UrlGlob.Expand.Cartesian.{expand, length-expand}
use hyperflux.UrlGlob.Expand.Odometer.{zeros-Valid, rank-zeros}
use hyperflux.UrlGlob.Expand.Equivalence.{checked, generate-checked}

length-group : (ch : ℕ) (rest : Bytes) → length (group ch rest).1 ≤ length rest
unfolding group
length-group ch rest = elim (Option-cases (index_of (closing ch) rest)) [
  | inl gone ↦ rw (gone, group) (omega arith)
  | inr (j, at) ↦ rw (at, group) (omega (arith, length-drop (j + 1) rest))
]

patterns-flush : (run : Bytes) (segs : List Seg) → patterns (flush run segs) ≡ patterns segs
unfolding patterns flush
patterns-flush [] segs = refl
patterns-flush (c ∷ cs) segs = refl

add_group-cong :
    (run : Bytes) (product : ℕ) (b : Built) (m n : ℕ → Scanned) (p q : Scanned)
    → ((np : ℕ) → m np ≡ n np)
    → p ≡ q
    → add_group run product b m p ≡ add_group run product b n q
unfolding add_group add_pattern
add_group-cong run product error m n p q h k = refl
add_group-cong run product literal m n p q h k = k
add_group-cong run product (alts texts) m n p q h k = rw (h (product * length texts))

scan_byte-cong :
    (a b : ℕ → Bytes → Bytes → Scanned) (product : ℕ) (run : Bytes) (ch : ℕ) (rest : Bytes)
    → ((np : ℕ) (r s : Bytes) → length s ≤ length rest → a np r s ≡ b np r s)
    → scan_byte a product run ch rest ≡ scan_byte b product run ch rest
unfolding scan_byte
scan_byte-cong a b product run ch rest h =
    ap₂ (λ x y. if ch == b'{' || ch == b'[' then x else y)
      (add_group-cong run product (group ch rest).0 _ _ _ _
        (λ np. h np [] (group ch rest).1 (length-group ch rest))
        (h product (run ++ (ch ∷ [])) rest (omega arith)))
      (h product (run ++ (ch ∷ [])) rest (omega arith))

-- More fuel than bytes left changes nothing.
pub scan_fuel :
    (f g product : ℕ) (run rest : Bytes)
    → length rest < f
    → length rest < g
    → scan f product run rest ≡ scan g product run rest
unfolding scan
scan_fuel zero g product run rest h k = absurd (omega arith)
scan_fuel (suc f) zero product run rest h k = absurd (omega arith)
scan_fuel (suc f) (suc g) product run [] h k = refl
scan_fuel (suc f) (suc g) product run (ch ∷ rest) h k =
    scan_byte-cong (scan f) (scan g) product run ch rest
      (λ np r s l. scan_fuel f g np r s (omega arith) (omega arith))

-- What is counted so far is carried to the end.
record Counts (product : ℕ) (out : List Seg × ℕ) : Type 0 where
  counted : out.1 ≡ product * product_of (patterns out.0)
  in_limit : product ≤ url_glob_max_urls → out.1 ≤ url_glob_max_urls

abbrev CountsAll : (ℕ → Bytes → Bytes → Scanned) → Type 0
CountsAll go =
    (product : ℕ) (run rest : Bytes) (out : List Seg × ℕ)
    → go product run rest ≡ some out
    → Counts product out

add_pattern-eq-some :
    (run : Bytes) (product : ℕ) (texts : List Bytes) (more : ℕ → Scanned) (out : List Seg × ℕ)
    → add_pattern run product texts more ≡ some out
    → (o : List Seg × ℕ) × (more (product * length texts) ≡ some o)
      × (product * length texts ≤ url_glob_max_urls)
      × (out ≡ (flush run (pat texts ∷ o.0), o.1))
unfolding add_pattern
add_pattern-eq-some run product texts more out e =
    elim (Option-cases (more (product * length texts))) [
      | inl gone ↦ absurd (ground arith)
      | inr (o, found) ↦ (o, found, ground arith, ground arith)
    ]

add_pattern-Counts :
    (run : Bytes) (product : ℕ) (texts : List Bytes) (more : ℕ → Scanned) (out : List Seg × ℕ)
    → ((np : ℕ) (o : List Seg × ℕ) → more np ≡ some o → Counts np o)
    → add_pattern run product texts more ≡ some out
    → Counts product out
unfolding product_of patterns
add_pattern-Counts run product texts more out h e =
    let (o, found, limit, is_out) = add_pattern-eq-some run product texts more out e in
    let c = h (product * length texts) o found in
    rw is_out (record {
      counted =
          c.counted
          ∙ mul_assoc product (length texts) (product_of (patterns o.0))
          ∙ ap (λ x. product * product_of x) (sym (patterns-flush run (pat texts ∷ o.0)));
      in_limit = λ _. c.in_limit limit;
    })

add_group-Counts :
    (run : Bytes) (product : ℕ) (b : Built) (more : ℕ → Scanned) (plain : Scanned)
    (out : List Seg × ℕ)
    → ((np : ℕ) (o : List Seg × ℕ) → more np ≡ some o → Counts np o)
    → (plain ≡ some out → Counts product out)
    → add_group run product b more plain ≡ some out
    → Counts product out
unfolding add_group
add_group-Counts run product error more plain out h k e = cc
add_group-Counts run product literal more plain out h k e = k e
add_group-Counts run product (alts texts) more plain out h k e =
    add_pattern-Counts run product texts more out h e

scan_byte-Counts :
    (go : ℕ → Bytes → Bytes → Scanned) (product : ℕ) (run : Bytes) (ch : ℕ) (rest : Bytes)
    (out : List Seg × ℕ)
    → CountsAll go
    → scan_byte go product run ch rest ≡ some out
    → Counts product out
unfolding scan_byte
scan_byte-Counts go product run ch rest out h e = elim (Bool-cases (ch == b'{' || ch == b'[')) [
  | inl opens ↦
      add_group-Counts run product (group ch rest).0 _ _ out (λ np o. h np [] (group ch rest).1 o)
        (h product (run ++ (ch ∷ [])) rest out) (rw opens at e)
  | inr plain ↦ h product (run ++ (ch ∷ [])) rest out (rw plain at e)
]

scan-Counts : (f : ℕ) → CountsAll (scan f)
unfolding scan
scan-Counts zero product run rest out e = cc
scan-Counts (suc f) product run [] out e =
    let is_out : out ≡ (flush run [], product) = ground arith in
    rw is_out (record {
      counted = rw patterns-flush (unfold patterns product_of in sym (mul-one product));
      in_limit = λ h. h;
    })
scan-Counts (suc f) product run (ch ∷ rest) out e =
    scan_byte-Counts (scan f) product run ch rest out (scan-Counts f) e

-- What `url_glob` should give: the product of the alternatives in the URL, all of them short enough.
unfoldable pub reference : ℕ → Scanned → Option (List Item)
reference max_len none = none
reference max_len (some (segs, total)) = checked max_len (expand segs)

take-length {ℓ} : {A : Type ℓ} (xs : List A) (n : ℕ) → n ≡ length xs → take n xs ≡ xs
take-length [] zero e = refl
take-length [] (suc n) e = refl
take-length (x ∷ xs) zero e = absurd (omega arith)
take-length (x ∷ xs) (suc n) e = ap (◌∷◌ x) (take-length xs n (omega arith))

nothing_to_expand :
    (m : ℕ) (segs : List Seg) (xs : List Item) → length xs ≡ 0 → some [] ≡ checked m xs
unfolding checked
nothing_to_expand m segs [] e = refl
nothing_to_expand m segs (x ∷ xs) e = absurd (omega arith)

generate-expand :
    (max_len : ℕ) (segs : List Seg)
    → 0 < max_len
    → generate max_len segs (product_of (patterns segs)) (zeros (patterns segs))
      ≡ checked max_len (expand segs)
unfolding generate
generate-expand m segs h =
    let ps = patterns segs in
    elim (dec_lt 0 (product_of ps)) [
      | yes several ↦
          generate-checked m segs (product_of ps) (zeros ps) h (zeros-Valid ps several)
            (omega (arith, rank-zeros ps))
          ∙ ap (λ r. checked m (take (product_of ps) (drop r (expand segs)))) (rank-zeros ps)
          ∙ ap (checked m) (take-length (expand segs) (product_of ps) (sym (length-expand segs)))
      | no none_at_all ↦
          let empty : product_of ps ≡ 0 = omega arith in
          rw empty (nothing_to_expand m segs (expand segs) (length-expand segs ∙ empty))
    ]

-- `url_glob` gives, in order, the product of the alternatives that its parse loop reads, if each of
-- those URLs fits in `max_len` bytes, and fails otherwise: it does what the reference does, which
-- has no odometer.
pub url_glob-reference :
    (src : Bytes) (max_len : ℕ)
    → 0 < max_len
    → url_glob src max_len ≡ reference max_len (scan (length src + 1) 1 [] src)
unfolding url_glob reference
url_glob-reference src m h = elim (Option-cases (scan (length src + 1) 1 [] src)) [
  | inl failed ↦ let t : (m == 0) ≡ false = ground arith in rw t (rw (failed, reference) refl)
  | inr ((segs, total), parsed) ↦
      let t : (m == 0) ≡ false = ground arith in
      let c = scan-Counts (length src + 1) 1 [] src (segs, total) parsed in
      let count : total ≡ product_of (patterns segs) =
        omega (arith, c.counted, one-mul (product_of (patterns segs))) in
      rw t (rw (parsed, reference) (rw count (generate-expand m segs h)))
]

abbrev pub AllShort : ℕ → List Item → Type 0
AllShort max_len [] = Unit {0}
AllShort max_len (it ∷ its) = (length it.url < max_len) × AllShort max_len its

checked-cons :
    (m : ℕ) (it : Item) (its out : List Item)
    → checked m (it ∷ its) ≡ some out
    → (length it.url < m) × (rest : List Item) × (checked m its ≡ some rest) × (out ≡ it ∷ rest)
unfolding checked
checked-cons m it its out e = elim (Option-cases (checked m its)) [
  | inl failed ↦ absurd (ground arith)
  | inr (rest, found) ↦ (ground arith, rest, found, ground arith)
]

checked-some :
    (m : ℕ) (its out : List Item) → checked m its ≡ some out → (out ≡ its) × AllShort m its
checked-some m [] out e = unfold checked in (ground arith, tt)
checked-some m (it ∷ its) out e =
    let (short, rest, found, is_out) = checked-cons m it its out e in
    let (same, all) = checked-some m its rest found in (is_out ∙ ap (◌∷◌ it) same, (short, all))

url_glob-zero : (src : Bytes) (m : ℕ) (items : List Item) → url_glob src m ≡ some items → 0 < m
unfolding url_glob
url_glob-zero src m items e = ground arith

reference_limits :
    (m : ℕ) (src : Bytes) (s : Scanned) (items : List Item)
    → scan (length src + 1) 1 [] src ≡ s
    → reference m s ≡ some items
    → (length items ≤ url_glob_max_urls) × AllShort m items
unfolding reference
reference_limits m src none items parsed e = absurd (cc)
reference_limits m src (some (segs, total)) items parsed e =
    let c = scan-Counts (length src + 1) 1 [] src (segs, total) parsed in
    let (same, all) = checked-some m (expand segs) items e in
    let count : total ≡ length items = omega (
      arith,
      c.counted,
      one-mul (product_of (patterns segs)),
      length-expand segs,
      ap length same,
    ) in
    (omega (arith, c.in_limit (omega arith)), rw same all)

-- What `url_glob` returns is within its two limits: at most 10000 URLs, each of fewer than
-- `max_len` bytes.
pub url_glob_limits :
    (src : Bytes) (max_len : ℕ) (items : List Item)
    → url_glob src max_len ≡ some items
    → (length items ≤ url_glob_max_urls) × AllShort max_len items
url_glob_limits src m items e =
    reference_limits m src (scan (length src + 1) 1 [] src) items refl
      (sym (url_glob-reference src m (url_glob-zero src m items e)) ∙ e)
