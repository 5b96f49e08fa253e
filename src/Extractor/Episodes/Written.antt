-- ===== src/Extractor/Episodes/Written.antt =====
-- A selection as it is written: ranges of numbers with commas between them.
use hyperflux.Common.{
  ℕ, zero, suc, ◌+◌, ◌-◌, ◌≤◌, ◌<◌, ◌≡◌, refl, sym, ap, ◌∙◌, inl, inr, Bool, true, false, ◌&&◌,
  ◌||◌, none, some, List, [], ◌∷◌, ◌++◌, arith, ℕ_discrete, leb, ◌==◌, Bool-cases, length,
  replicate, length-append, append_nil,
}
use mathlib.Core.Path.{fun_ext}
use hyperflux.Extractor.{Text, extractor_max_episodes}
use hyperflux.Extractor.Episodes.{
  skip_blanks, number_within, parse_number, mark, parse_range, select_from, selected,
  parse_episodes,
}
use hyperflux.Extractor.Episodes.Ranges.{
  Range, one, between, range_text, ends, IsRange, Ends, parse_range-range_text,
}

parse_range-nothing : (count : ℕ) → parse_range count [] ≡ none
unfolding parse_range number_within parse_number skip_blanks
parse_range-nothing count = refl

select_last :
    (fuel count a b : ℕ) (s : Text) (sel : List Bool)
    → parse_range count s ≡ some ((a, b), [])
    → select_from (suc fuel) count s sel ≡ some (mark 0 a b sel)
unfolding select_from
select_last fuel count a b [] sel e = ground (arith, e, parse_range-nothing count)
select_last fuel count a b (c ∷ s) sel e = rw (e, select_from) refl

select_more :
    (fuel count a b : ℕ) (s after : Text) (sel : List Bool)
    → parse_range count s ≡ some ((a, b), b',' ∷ after)
    → select_from (suc fuel) count s sel ≡ select_from fuel count after (mark 0 a b sel)
unfolding select_from
select_more fuel count a b [] after sel e = ground (arith, e, parse_range-nothing count)
select_more fuel count a b (c ∷ s) after sel e = rw (e, select_from) refl

-- A selection by its test, for the episodes from `i` on.
unfoldable pub table : (ℕ → Bool) → ℕ → ℕ → List Bool
table f i zero = []
table f i (suc n) = f i ∷ table f (i + 1) n

pub mark-table :
    (f : ℕ → Bool) (i n a b : ℕ)
    → mark i a b (table f i n) ≡ table (λ j. f j || leb a (j + 1) && leb (j + 1) b) i n
unfolding table mark
mark-table f i zero a b = refl
mark-table f i (suc n) a b =
    ap (◌∷◌ (f i || leb a (i + 1) && leb (i + 1) b)) (mark-table f (i + 1) n a b)

pub replicate-table : (i n : ℕ) → replicate n false ≡ table (λ j. false) i n
unfolding table
replicate-table i zero = refl
replicate-table i (suc n) = ap (◌∷◌ false) (replicate-table (i + 1) n)

-- Episode `j`, counted from 0, is in one of the ranges.
unfoldable pub covered : List Range → ℕ → Bool
covered [] j = false
covered (r ∷ rs) j = (leb (ends r).0 (j + 1) && leb (j + 1) (ends r).1) || covered rs j

unfoldable pub spec_text : List Range → Text
spec_text [] = []
spec_text (r ∷ []) = range_text r
spec_text (r ∷ q ∷ rs) = range_text r ++ (b',' ∷ spec_text (q ∷ rs))

unfoldable pub AreRanges : ℕ → List Range → Type 0
AreRanges count [] = Unit {0}
AreRanges count (r ∷ rs) = IsRange count r × AreRanges count rs

pub table_cong : (f g : ℕ → Bool) (i n : ℕ) → ((j : ℕ) → f j ≡ g j) → table f i n ≡ table g i n
table_cong f g i n h = ap (λ k. table k i n) (fun_ext h)

pub or_false : (b : Bool) → b ≡ (b || false)
or_false true = refl
or_false false = refl

pub or_assoc : (a b c : Bool) → ((a || b) || c) ≡ (a || (b || c))
or_assoc true b c = refl
or_assoc false b c = refl

select_from-spec_text :
    (count fuel : ℕ) (r : Range) (rs : List Range) (f : ℕ → Bool)
    → AreRanges count (r ∷ rs)
    → count ≤ extractor_max_episodes
    → length (spec_text (r ∷ rs)) < fuel
    → select_from fuel count (spec_text (r ∷ rs)) (table f 0 count)
      ≡ some (table (λ j. f j || covered (r ∷ rs) j) 0 count)
unfolding AreRanges spec_text covered Ends
select_from-spec_text count zero r rs f h m l = absurd (omega arith)
select_from-spec_text count (suc fuel) r [] f (h, hs) m l =
    let read : parse_range count (range_text r) ≡ some (ends r, []) =
      ap (parse_range count) (sym (append_nil (range_text r)))
      ∙ parse_range-range_text count r [] h tt m in
    select_last fuel count (ends r).0 (ends r).1 (range_text r) (table f 0 count) read
    ∙ ap some (
        mark-table f 0 count (ends r).0 (ends r).1
        ∙ table_cong _ _ 0 count (λ j. ap (λ b. f j || b) (or_false _)))
select_from-spec_text count (suc fuel) r (q ∷ rs) f (h, hs) m l =
    let after = spec_text (q ∷ rs) in
    let l' : length after < fuel = omega (arith, l, length-append (range_text r) (b',' ∷ after)) in
    select_more fuel count (ends r).0 (ends r).1 (range_text r ++ (b',' ∷ after)) after
      (table f 0 count) (parse_range-range_text count r (b',' ∷ after) h refl m)
    ∙ ap (select_from fuel count after) (mark-table f 0 count (ends r).0 (ends r).1)
    ∙ select_from-spec_text count fuel q rs _ hs m l'
    ∙ ap some (table_cong _ _ 0 count (λ j. or_assoc (f j) _ _))

selected-table :
    (f : ℕ → Bool) (i n j : ℕ) → i ≤ j → j < i + n → f j ≡ true → 0 < selected (table f i n)
unfolding selected table
selected-table f i zero j h k e = absurd (omega arith)
selected-table f i (suc n) j h k e = elim (Bool-cases (f i)) [
  | inl t ↦ rw t (omega arith)
  | inr t ↦ elim (ℕ_discrete i j) [
    | yes here ↦ ground (arith, e, t, ap f here)
    | no later ↦ rw t (selected-table f (i + 1) n j (omega (arith, later, h)) (omega (arith, k)) e)
  ]
]

ends_bounds :
    (count : ℕ) (r : Range)
    → IsRange count r
    → (1 ≤ (ends r).0) × (((ends r).0 ≤ (ends r).1) × ((ends r).1 ≤ count))
unfolding IsRange ends
ends_bounds count (one s) (n, (l, h)) = (l, (omega arith, h))
ends_bounds count (between s t) (n, (l, (h, g))) = (l, (h, g))

covered-first :
    (count : ℕ) (r : Range) (rs : List Range)
    → IsRange count r
    → covered (r ∷ rs) ((ends r).0 - 1) ≡ true
unfolding covered
covered-first count r rs h = let b = ends_bounds count r h in ground (arith, b.0, b.1.0)

-- A selection of ranges such as "1,3-5,8", each of them within 1 to the number of episodes, which is
-- 2000 at most, is accepted, and selects an episode exactly when one of the ranges covers it.
pub parse_episodes-spec_text :
    (count : ℕ) (r : Range) (rs : List Range)
    → AreRanges count (r ∷ rs)
    → count ≤ 2000
    → parse_episodes (spec_text (r ∷ rs)) count
      ≡ some (table (covered (r ∷ rs)) 0 count, selected (table (covered (r ∷ rs)) 0 count))
unfolding parse_episodes AreRanges
parse_episodes-spec_text count r rs h m =
    let f = covered (r ∷ rs) in
    let b = ends_bounds count r h.0 in
    let z : (count == 0) ≡ false = ground (arith, b.0, b.1.0, b.1.1) in
    let read : select_from _ count (spec_text (r ∷ rs)) (replicate count false)
        ≡ some (table f 0 count) =
      ap (select_from _ count (spec_text (r ∷ rs))) (replicate-table 0 count)
      ∙ select_from-spec_text count (length (spec_text (r ∷ rs)) + 1) r rs (λ j. false) h m
          (omega arith) in
    let some_set =
      selected-table f 0 count ((ends r).0 - 1) (omega arith) (omega (arith, b.0, b.1.0, b.1.1))
        (covered-first count r rs h.0) in
    let w : (selected (table f 0 count) == 0) ≡ false = ground (arith, some_set) in
    rw (z, read, parse_episodes) (rw w refl)
