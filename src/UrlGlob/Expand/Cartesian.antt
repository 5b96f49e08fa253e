-- ===== src/UrlGlob/Expand/Cartesian.antt =====
-- What the URLs should be: the product of the alternatives, the last pattern varying fastest.
use hyperflux.Common.{
  ℕ, zero, suc, ◌+◌, ◌*◌, ◌<◌, ◌≡◌, refl, sym, ap, ◌∙◌, some, List, [], ◌∷◌, ◌++◌, map, arith,
  length, get_elem?, get_or, length-append, length-map,
}
use hyperflux.UrlGlob.{Bytes}
use hyperflux.UrlGlob.Scan.{Seg, lit, pat}
use hyperflux.UrlGlob.Expand.{Item, patterns, product_of, captures}

unfoldable pub with_literal : Bytes → Item → Item
with_literal l it = record { url = l ++ it.url; caps = it.caps }

unfoldable pub with_choice : Bytes → Item → Item
with_choice t it = record { url = t ++ it.url; caps = t ∷ it.caps }

unfoldable pub each : List Bytes → List Item → List Item
each [] items = []
each (t ∷ ts) items = map (with_choice t) items ++ each ts items

unfoldable pub expand : List Seg → List Item
expand [] = (record { url = []; caps = [] }) ∷ []
expand (lit l ∷ segs) = map (with_literal l) (expand segs)
expand (pat texts ∷ segs) = each texts (expand segs)

-- Indices for these patterns.
abbrev pub Valid : List (List Bytes) → List ℕ → Type 0
Valid [] [] = Unit {0}
Valid [] (i ∷ idx) = ⊥
Valid (p ∷ ps) [] = ⊥
Valid (p ∷ ps) (i ∷ idx) = (i < length p) × Valid ps idx

-- The position of the URL with these indices.
abbrev pub rank : List (List Bytes) → List ℕ → ℕ
rank [] idx = 0
rank (p ∷ ps) [] = 0
rank (p ∷ ps) (i ∷ idx) = i * product_of ps + rank ps idx

unfoldable pub text_at : List Seg → List ℕ → Bytes
text_at [] idx = []
text_at (lit l ∷ segs) idx = l ++ text_at segs idx
text_at (pat texts ∷ segs) [] = []
text_at (pat texts ∷ segs) (i ∷ idx) = get_or texts i [] ++ text_at segs idx

abbrev pub item_at : List Seg → List ℕ → Item
item_at segs idx = record { url = text_at segs idx; caps = captures (patterns segs) idx }

pub get_elem?-map {ℓ κ} :
    {A : Type ℓ} {B : Type κ} (f : A → B) (xs : List A) (i : ℕ) (x : A)
    → get_elem? xs i ≡ some x
    → get_elem? (map f xs) i ≡ some (f x)
get_elem?-map f [] i x e = cc
get_elem?-map f (y ∷ ys) zero x e = ground arith
get_elem?-map f (y ∷ ys) (suc i) x e = get_elem?-map f ys i x e

get_elem?-append_left {ℓ} :
    {A : Type ℓ} (xs ys : List A) (i : ℕ) (x : A)
    → get_elem? xs i ≡ some x
    → get_elem? (xs ++ ys) i ≡ some x
get_elem?-append_left [] ys i x e = cc
get_elem?-append_left (z ∷ xs) ys zero x e = e
get_elem?-append_left (z ∷ xs) ys (suc i) x e = get_elem?-append_left xs ys i x e

get_elem?-append_right {ℓ} :
    {A : Type ℓ} (xs ys : List A) (i k : ℕ)
    → k ≡ length xs + i
    → get_elem? (xs ++ ys) k ≡ get_elem? ys i
get_elem?-append_right [] ys i k e = ap (get_elem? ys) (omega arith)
get_elem?-append_right (z ∷ xs) ys i zero e = absurd (omega arith)
get_elem?-append_right (z ∷ xs) ys i (suc k) e = get_elem?-append_right xs ys i k (omega arith)

length-each :
    (ts : List Bytes) (items : List Item) → length (each ts items) ≡ length ts * length items
unfolding each
length-each [] items = omega arith
length-each (t ∷ ts) items =
    length-append (map (with_choice t) items) (each ts items)
    ∙ grind (arith, length-map items (with_choice t), length-each ts items)

pub length-expand : (segs : List Seg) → length (expand segs) ≡ product_of (patterns segs)
unfolding expand patterns product_of
length-expand [] = refl
length-expand (lit l ∷ segs) = length-map (expand segs) (with_literal l) ∙ length-expand segs
length-expand (pat texts ∷ segs) =
    length-each texts (expand segs) ∙ ap (λ k. length texts * k) (length-expand segs)

get_elem?-each :
    (ts : List Bytes) (items : List Item) (i r : ℕ) (it : Item)
    → i < length ts
    → get_elem? items r ≡ some it
    → get_elem? (each ts items) (i * length items + r) ≡ some (with_choice (get_or ts i []) it)
unfolding each
get_elem?-each [] items i r it h e = absurd (omega arith)
get_elem?-each (t ∷ ts) items zero r it h e =
    ap (get_elem? (each (t ∷ ts) items)) (omega arith)
    ∙ get_elem?-append_left (map (with_choice t) items) (each ts items) r _
        (get_elem?-map (with_choice t) items r it e)
get_elem?-each (t ∷ ts) items (suc i) r it h e =
    get_elem?-append_right (map (with_choice t) items) (each ts items) (i * length items + r) _
      (rw length-map (grind arith))
    ∙ get_elem?-each ts items i r it (omega arith) e

-- The URL at the position of some indices is the one with those alternatives.
pub get_elem?-expand :
    (segs : List Seg) (idx : List ℕ)
    → Valid (patterns segs) idx
    → get_elem? (expand segs) (rank (patterns segs) idx) ≡ some (item_at segs idx)
unfolding expand patterns text_at captures with_literal with_choice product_of
get_elem?-expand [] [] v = refl
get_elem?-expand [] (i ∷ idx) v = absurd v
get_elem?-expand (lit l ∷ segs) idx v =
    get_elem?-map (with_literal l) (expand segs) _ (item_at segs idx) (get_elem?-expand segs idx v)
    ∙ refl
get_elem?-expand (pat texts ∷ segs) [] v = absurd v
get_elem?-expand (pat texts ∷ segs) (i ∷ idx) v =
    ap (λ k. get_elem? (each texts (expand segs)) (i * k + rank (patterns segs) idx))
      (sym (length-expand segs))
    ∙ get_elem?-each texts (expand segs) i (rank (patterns segs) idx) (item_at segs idx) v.0
        (get_elem?-expand segs idx v.1)
