-- ===== src/UrlGlob/Expand/Equivalence.antt =====
-- `url_glob` gives the product of the alternatives, or fails where one URL is too long.
use hyperflux.Common.{
  ℕ, zero, suc, ◌+◌, ◌≤◌, ◌<◌, ◌≡◌, refl, sym, ap, ◌∙◌, inl, inr, Bool, true, false, Option, none,
  some, List, [], ◌∷◌, ◌++◌, arith, leb, if◌then◌else◌, Bool-cases, length, get_elem?, get_or, take,
  drop, leb→le, length-append,
}
use mathlib.Core.List.{append_assoc, append-nil}
use hyperflux.UrlGlob.{Bytes}
use hyperflux.UrlGlob.Scan.{Seg, lit, pat}
use hyperflux.UrlGlob.Expand.{Item, patterns, product_of, render, advance, generate}
use hyperflux.UrlGlob.Expand.Cartesian.{expand, Valid, rank, text_at, item_at, get_elem?-expand}
use hyperflux.UrlGlob.Expand.Odometer.{Advanced, moved, wrapped, advance-Advanced}

-- A text that fits in `max_len` bytes with its NUL.
abbrev limited : ℕ → Bytes → Option Bytes
limited max_len s = if leb max_len (length s) then none else some s

limited-none : (m : ℕ) (s : Bytes) → m ≤ length s → limited m s ≡ none
limited-none m s h = let t : leb m (length s) ≡ true = ground arith in rw t

limited-some : (m : ℕ) (s : Bytes) → length s < m → limited m s ≡ some s
limited-some m s h = let t : leb m (length s) ≡ false = ground arith in rw t

-- The check at each piece is the check of the whole.
limited-piece :
    (m : ℕ) (buf p t : Bytes) (inner : Option Bytes)
    → (length (buf ++ p) < m → inner ≡ limited m ((buf ++ p) ++ t))
    → (if leb m (length buf + length p) then none else inner) ≡ limited m (buf ++ (p ++ t))
limited-piece m buf p t inner h = elim (Bool-cases (leb m (length buf + length p))) [
  | inl long ↦ rw long (
      sym (
        limited-none m (buf ++ (p ++ t))
          (omega (arith, leb→le _ _ long, length-append buf (p ++ t), length-append p t))))
  | inr fits ↦
      let short : length buf + length p < m = ground arith in
      rw fits (h (omega (arith, length-append buf p)) ∙ ap (limited m) (append_assoc buf p t))
]

-- The loop over the segments has the text at the indices, if that is short enough.
render-text_at :
    (max_len : ℕ) (segs : List Seg) (idx : List ℕ) (buf : Bytes)
    → length buf < max_len
    → Valid (patterns segs) idx
    → render max_len buf segs idx ≡ limited max_len (buf ++ text_at segs idx)
unfolding render text_at patterns
render-text_at m [] [] buf h v =
    sym (limited-some m (buf ++ []) (rw append-nil h) ∙ ap some (append-nil buf))
render-text_at m [] (i ∷ idx) buf h v = absurd v
render-text_at m (lit l ∷ segs) idx buf h v =
    limited-piece m buf l (text_at segs idx) _ (λ k. render-text_at m segs idx (buf ++ l) k v)
render-text_at m (pat texts ∷ segs) [] buf h v = absurd v
render-text_at m (pat texts ∷ segs) (i ∷ idx) buf h v =
    limited-piece m buf (get_or texts i []) (text_at segs idx) _
      (λ k. render-text_at m segs idx (buf ++ get_or texts i []) k v.1)

-- The first URL that is too long makes it fail.
unfoldable pub checked : ℕ → List Item → Option (List Item)
checked max_len [] = some []
checked max_len (it ∷ its) =
    if leb max_len (length it.url)
    then none
    else elim (checked max_len its) [ none ↦ none | some rest ↦ some (it ∷ rest) ]

drop-get_elem? {ℓ} :
    {A : Type ℓ} (xs : List A) (i : ℕ) (x : A)
    → get_elem? xs i ≡ some x
    → drop i xs ≡ x ∷ drop (suc i) xs
drop-get_elem? [] i x e = cc
drop-get_elem? (y ∷ ys) zero x e = ground arith
drop-get_elem? (y ∷ ys) (suc i) x e = drop-get_elem? ys i x e

-- The items from a position on, as far as they are short enough.
abbrev pub from : ℕ → List Seg → ℕ → ℕ → Option (List Item)
from m segs count r = checked m (take count (drop r (expand segs)))

generate_after :
    (m : ℕ) (segs : List Seg) (count : ℕ) (idx : List ℕ) (out : List ℕ × Bool)
    → Advanced (patterns segs) idx out
    → rank (patterns segs) idx + suc count ≤ product_of (patterns segs)
    → ((idx' : List ℕ)
        → Valid (patterns segs) idx'
        → rank (patterns segs) idx' + count ≤ product_of (patterns segs)
        → generate m segs count idx' ≡ from m segs count (rank (patterns segs) idx'))
    → generate m segs count out.0 ≡ from m segs count (suc (rank (patterns segs) idx))
generate_after m segs count idx out (moved idx' v e) r ih =
    let next : rank (patterns segs) idx' ≡ suc (rank (patterns segs) idx) = omega (arith, e) in
    ih idx' v (omega (arith, e)) ∙ ap (from m segs count) next
generate_after m segs zero idx out (wrapped idx' v e l) r ih = unfold generate checked in refl
generate_after m segs (suc count) idx out (wrapped idx' v e l) r ih = absurd (omega (arith, l))

pub generate-checked :
    (max_len : ℕ) (segs : List Seg) (count : ℕ) (idx : List ℕ)
    → 0 < max_len
    → Valid (patterns segs) idx
    → rank (patterns segs) idx + count ≤ product_of (patterns segs)
    → generate max_len segs count idx ≡ from max_len segs count (rank (patterns segs) idx)
unfolding generate checked
generate-checked m segs zero idx h v r = refl
generate-checked m segs (suc count) idx h v r =
    let ps = patterns segs in
    let here =
      drop-get_elem? (expand segs) (rank ps idx) (item_at segs idx) (get_elem?-expand segs idx v) in
    let text = render-text_at m segs idx [] h v in
    let next =
      generate_after m segs count idx (advance ps idx) (advance-Advanced ps idx v) r
        (λ idx' v' r'. generate-checked m segs count idx' h v' r') in
    rw (here, text, generate)
      (elim (Bool-cases (leb m (length (text_at segs idx)))) [
        | inl long ↦ rw long refl
        | inr short ↦ rw (short, next) refl
      ])
