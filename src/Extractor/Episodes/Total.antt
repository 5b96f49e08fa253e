-- ===== src/Extractor/Episodes/Total.antt =====
-- The loop over an episode selection ends, and what it returns.
use hyperflux.Common.{
  ℕ, zero, suc, ◌+◌, ◌-◌, ◌*◌, ◌≤◌, ◌<◌, ◌≡◌, refl, sym, ap, ◌∙◌, inl, inr, Bool, true, false, ◌||◌,
  Option, none, some, List, [], ◌∷◌, arith, ltb, ◌==◌, if◌then◌else◌, Bool-cases, Option-cases,
  length, replicate, length-replicate,
}
use hyperflux.Extractor.{Text, extractor_max_episodes}
use hyperflux.UrlGlob.Number.{is_digit}
use hyperflux.Extractor.Episodes.{
  digits_from, parse_number, skip_blanks, number_within, range_end, mark, parse_range, select_from,
  selected, parse_episodes,
}

if_shorter :
    (b : Bool) (x y : ℕ × Text) (n : ℕ)
    → length x.1 ≤ n
    → length y.1 ≤ n
    → length (if b then x else y).1 ≤ n
if_shorter true x y n h k = h
if_shorter false x y n h k = k

digits_from-shorter : (v : ℕ) (s : Text) → length (digits_from v s).1 ≤ length s
unfolding digits_from
digits_from-shorter v [] = omega arith
digits_from-shorter v (c ∷ s) =
    let v' = v * 10 + (c - b'0') in
    let clamped = if ltb (extractor_max_episodes + 1) v' then extractor_max_episodes + 1 else v' in
    let rest = digits_from-shorter clamped s in
    if_shorter (is_digit c) (digits_from clamped s) (v, c ∷ s) (suc (length s))
      (omega (arith, rest)) (omega arith)

skip_blanks-shorter : (s : Text) → length (skip_blanks s) ≤ length s
unfolding skip_blanks
skip_blanks-shorter [] = omega arith
skip_blanks-shorter (c ∷ s) = ground (arith, skip_blanks-shorter s)

-- What is left is no longer than the text.
unfoldable Shorter {ℓ} : {A : Type ℓ} → ℕ → Option (A × Text) → Type 0
Shorter n none = Unit {0}
Shorter n (some (v, t)) = length t ≤ n

Shorter-if {ℓ} :
    {A : Type ℓ} (n : ℕ) (b : Bool) (x y : Option (A × Text))
    → Shorter n x
    → Shorter n y
    → Shorter n (if b then x else y)
Shorter-if n true x y h k = h
Shorter-if n false x y h k = k

Shorter-bind {ℓ κ} :
    {A : Type ℓ} {B : Type κ} (n : ℕ) (o : Option (A × Text)) (go_on : A × Text → Option (B × Text))
    → Shorter n o
    → ((v : A) (t : Text) → length t ≤ n → Shorter n (go_on (v, t)))
    → Shorter n (elim o [ none ↦ none | some p ↦ go_on p ])
unfolding Shorter
Shorter-bind n none go_on h k = tt
Shorter-bind n (some (v, t)) go_on h k = k v t h

some-Shorter {ℓ} : {A : Type ℓ} (n : ℕ) (v : A) (t : Text) → length t ≤ n → Shorter n (some (v, t))
unfolding Shorter
some-Shorter n v t h = h

none-Shorter {ℓ} : (A : Type ℓ) (n : ℕ) → Shorter {A = A} n none
unfolding Shorter
none-Shorter A n = tt

parse_number-Shorter : (n : ℕ) (s : Text) → length s ≤ n → Shorter n (parse_number s)
unfolding parse_number
parse_number-Shorter n [] h = none-Shorter ℕ n
parse_number-Shorter n (c ∷ s) h =
    Shorter-if n (is_digit c) _ _
      (some-Shorter n _ _ (omega (arith, h, digits_from-shorter 0 (c ∷ s)))) (none-Shorter ℕ n)

number_within-Shorter :
    (n low count : ℕ) (s : Text) → length s ≤ n → Shorter n (number_within low count s)
unfolding number_within
number_within-Shorter n low count s h =
    Shorter-bind n (parse_number s)
      (λ p. if ltb p.0 low || ltb count p.0 then none else some (p.0, p.1))
      (parse_number-Shorter n s h)
      (λ v t k. Shorter-if n _ _ _ (none-Shorter ℕ n) (some-Shorter n v t k))

range_end-Shorter : (n count a : ℕ) (s : Text) → length s ≤ n → Shorter n (range_end count a s)
unfolding range_end
range_end-Shorter n count a [] h = some-Shorter n a [] h
range_end-Shorter n count a (c ∷ s) h =
    Shorter-if n (c == b'-') _ _
      (number_within-Shorter n a count (skip_blanks s) (omega (arith, h, skip_blanks-shorter s)))
      (some-Shorter n a (c ∷ s) h)

parse_range-Shorter : (n count : ℕ) (s : Text) → length s ≤ n → Shorter n (parse_range count s)
unfolding parse_range
parse_range-Shorter n count s h =
    Shorter-bind n (number_within 1 count (skip_blanks s))
      (λ p. elim (range_end count p.0 (skip_blanks p.1)) [
        | none ↦ none
        | some q ↦ some ((p.0, q.0), skip_blanks q.1)
      ])
      (number_within-Shorter n 1 count (skip_blanks s) (omega (arith, h, skip_blanks-shorter s)))
      (λ a t k.
        Shorter-bind n (range_end count a (skip_blanks t)) (λ q. some ((a, q.0), skip_blanks q.1))
          (range_end-Shorter n count a (skip_blanks t) (omega (arith, k, skip_blanks-shorter t)))
          (λ b u l.
            some-Shorter n (a, b) (skip_blanks u) (omega (arith, l, skip_blanks-shorter u))))

length-mark : (i a b : ℕ) (sel : List Bool) → length (mark i a b sel) ≡ length sel
unfolding mark
length-mark i a b [] = refl
length-mark i a b (x ∷ sel) = ap suc (length-mark (i + 1) a b sel)

selected_bound : (sel : List Bool) → selected sel ≤ length sel
unfolding selected
selected_bound [] = omega arith
selected_bound (x ∷ sel) = ground (arith, selected_bound sel)

Shorter-some {ℓ} :
    {A : Type ℓ} (n : ℕ) (o : Option (A × Text)) (v : A) (t : Text)
    → Shorter n o
    → o ≡ some (v, t)
    → length t ≤ n
unfolding Shorter
Shorter-some n none v t h e = ground arith
Shorter-some n (some (w, u)) v t h e = let got : u ≡ t = ground (arith, e) in rw (sym got) h

-- With one more step than the text has bytes, or more, the loop gives the same result: no selection
-- makes it run on.
pub select_from_fuel :
    (fuel fuel' count : ℕ) (s : Text) (sel : List Bool)
    → length s < fuel
    → length s < fuel'
    → select_from fuel count s sel ≡ select_from fuel' count s sel
unfolding select_from
select_from_fuel zero fuel' count s sel h k = absurd (omega arith)
select_from_fuel (suc fuel) zero count s sel h k = absurd (omega arith)
select_from_fuel (suc fuel) (suc fuel') count [] sel h k = refl
select_from_fuel (suc fuel) (suc fuel') count (c ∷ s) sel h k =
    elim (Option-cases (parse_range count (c ∷ s))) [
      | inl e ↦ rw (e, select_from) refl
      | inr (((a, b), []), e) ↦ rw (e, select_from) refl
      | inr (((a, b), d ∷ after), e) ↦
          let l =
            Shorter-some (suc (length s)) _ _ _
              (parse_range-Shorter (suc (length s)) count (c ∷ s) (omega arith)) e in
          let next =
            select_from_fuel fuel fuel' count after (mark 0 a b sel) (omega (arith, l, h))
              (omega (arith, l, k)) in
          rw (e, select_from) (ap (λ r. elim (d == b',') [ true ↦ r | false ↦ none ]) next)
    ]

select_from-length :
    (fuel count : ℕ) (s : Text) (sel sel' : List Bool)
    → select_from fuel count s sel ≡ some sel'
    → length sel' ≡ length sel
unfolding select_from
select_from-length zero count s sel sel' h = ground arith
select_from-length (suc fuel) count [] sel sel' h =
    let got : sel ≡ sel' = ground (arith, h) in ap length (sym got)
select_from-length (suc fuel) count (c ∷ s) sel sel' h =
    elim (Option-cases (parse_range count (c ∷ s))) [
      | inl e ↦ ground (arith, h, e)
      | inr (((a, b), []), e) ↦
          let got : mark 0 a b sel ≡ sel' = ground (arith, h, e) in
          ap length (sym got) ∙ length-mark 0 a b sel
      | inr (((a, b), d ∷ after), e) ↦ elim (Bool-cases (d == b',')) [
        | inl k ↦
            select_from-length fuel count after (mark 0 a b sel) sel' (ground (arith, h, e, k))
            ∙ length-mark 0 a b sel
        | inr k ↦ ground (arith, h, e, k)
      ]
    ]

-- A selection that is accepted has one entry for each episode, and the number returned with it is
-- the number of entries that are set, at least one.
pub parse_episodes-selected :
    (spec : Text) (count n : ℕ) (sel : List Bool)
    → parse_episodes spec count ≡ some (sel, n)
    → (length sel ≡ count) × ((n ≡ selected sel) × ((0 < n) × (n ≤ count)))
unfolding parse_episodes
parse_episodes-selected spec count n sel h = elim (Bool-cases (count == 0)) [
  | inl z ↦ ground (arith, h, z)
  | inr z ↦ elim (Option-cases (select_from (length spec + 1) count spec (replicate count false))) [
    | inl e ↦ ground (arith, h, z, e)
    | inr (sel', e) ↦ elim (Bool-cases (selected sel' == 0)) [
      | inl w ↦ ground (arith, h, z, e, w)
      | inr w ↦
          let same_sel : sel' ≡ sel = ground (arith, h, z, e, w) in
          let same_n : selected sel' ≡ n = ground (arith, h, z, e, w) in
          let len : length sel' ≡ count =
            select_from-length _ count spec _ sel' e ∙ length-replicate count false in
          let most = selected_bound sel' in
          let some_set : 0 < selected sel' = ground (arith, w) in
          (
            ap length (sym same_sel) ∙ len,
            (
              sym same_n ∙ ap selected same_sel,
              (omega (arith, some_set, same_n), omega (arith, most, len, same_n)),
            ),
          )
    ]
  ]
]
