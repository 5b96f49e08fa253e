-- ===== src/Extractor/Episodes/Ranges.antt =====
-- A range of a selection as it is written, and how it is read.
use hyperflux.Common.{
  ℕ, ◌+◌, ◌-◌, ◌*◌, ◌≤◌, ◌<◌, ◌≡◌, refl, ap, ◌∙◌, true, false, some, [], ◌∷◌, ◌++◌, arith, ltb,
  length, append_assoc,
}
use hyperflux.UrlGlob.Number.{is_digit}
use hyperflux.Extractor.{Text, extractor_max_episodes}
use hyperflux.Extractor.Episodes.{
  digits_from, parse_number, skip_blanks, number_within, range_end, parse_range,
}

-- The number that digits stand for, `v` before them.
unfoldable pub number : ℕ → Text → ℕ
number v [] = v
number v (c ∷ s) = number (v * 10 + (c - b'0')) s

unfoldable pub AllDigits : Text → Type 0
AllDigits [] = Unit {0}
AllDigits (c ∷ s) = (is_digit c ≡ true) × AllDigits s

-- No digit at the start.
unfoldable pub Stops : Text → Type 0
Stops [] = Unit {0}
Stops (c ∷ s) = is_digit c ≡ false

pub number_grows : (v : ℕ) (s : Text) → v ≤ number v s
unfolding number
number_grows v [] = omega arith
number_grows v (c ∷ s) = omega (arith, number_grows (v * 10 + (c - b'0')) s)

-- Below the clamp the digits are read as the number.
digits_from-number :
    (v : ℕ) (s rest : Text)
    → AllDigits s
    → Stops rest
    → number v s ≤ extractor_max_episodes + 1
    → digits_from v (s ++ rest) ≡ (number v s, rest)
unfolding digits_from number AllDigits Stops
digits_from-number v [] [] d t h = refl
digits_from-number v [] (c ∷ rest) d t h = rw t
digits_from-number v (c ∷ s) rest (d, ds) t h =
    let v' = v * 10 + (c - b'0') in
    let small : ltb (extractor_max_episodes + 1) v' ≡ false =
      ground (arith, h, number_grows v' s) in
    rw (d, small) (digits_from-number v' s rest ds t h)

-- One range: "a" or "a-b".
pub data Range : Type 0 where
  one : Text → Range
  between : Text → Text → Range

unfoldable pub range_text : Range → Text
range_text (one s) = s
range_text (between s t) = s ++ (b'-' ∷ t)

unfoldable pub ends : Range → ℕ × ℕ
ends (one s) = (number 0 s, number 0 s)
ends (between s t) = (number 0 s, number 0 t)

unfoldable pub IsNumeral : Text → Type 0
IsNumeral s = (0 < length s) × AllDigits s

unfoldable pub IsRange : ℕ → Range → Type 0
IsRange count (one s) = IsNumeral s × ((1 ≤ number 0 s) × (number 0 s ≤ count))
IsRange count (between s t) =
    (IsNumeral s × IsNumeral t)
    × ((1 ≤ number 0 s) × ((number 0 s ≤ number 0 t) × (number 0 t ≤ count)))

-- Behind a number: no digit and no blank.
unfoldable pub Ends : Text → Type 0
Ends [] = Unit {0}
Ends (c ∷ s) = c ≡ b','

parse_number-numeral :
    (s rest : Text)
    → IsNumeral s
    → Stops rest
    → number 0 s ≤ extractor_max_episodes + 1
    → parse_number (s ++ rest) ≡ some (number 0 s, rest)
unfolding IsNumeral parse_number AllDigits
parse_number-numeral [] rest (l, d) t h = absurd (omega arith)
parse_number-numeral (c ∷ s) rest (l, (d, ds)) t h =
    rw d (ap some (digits_from-number 0 (c ∷ s) rest (d, ds) t h))

number_within-numeral :
    (low count : ℕ) (s rest : Text)
    → IsNumeral s
    → Stops rest
    → low ≤ number 0 s
    → number 0 s ≤ count
    → count ≤ extractor_max_episodes
    → number_within low count (s ++ rest) ≡ some (number 0 s, rest)
unfolding number_within
number_within-numeral low count s rest n t l h m =
    rw (parse_number-numeral s rest n t (omega (arith, h, m)), number_within) (ground (arith, l, h))

pub skip_blanks-numeral : (s rest : Text) → IsNumeral s → skip_blanks (s ++ rest) ≡ s ++ rest
unfolding skip_blanks IsNumeral AllDigits
skip_blanks-numeral [] rest (l, d) = absurd (omega arith)
skip_blanks-numeral (c ∷ s) rest (l, (d, ds)) = ground (arith, d)

pub skip_blanks-Ends : (s : Text) → Ends s → skip_blanks s ≡ s
unfolding skip_blanks Ends
skip_blanks-Ends [] e = refl
skip_blanks-Ends (c ∷ s) e = ground (arith, e)

pub Stops-Ends : (s : Text) → Ends s → Stops s
unfolding Stops Ends
Stops-Ends [] e = tt
Stops-Ends (c ∷ s) e = ground (arith, e)

range_end-Ends : (count a : ℕ) (rest : Text) → Ends rest → range_end count a rest ≡ some (a, rest)
unfolding range_end Ends
range_end-Ends count a [] e = refl
range_end-Ends count a (c ∷ s) e = ground (arith, e)

parse_range_steps :
    (count a b : ℕ) (s s1 s2 : Text)
    → number_within 1 count (skip_blanks s) ≡ some (a, s1)
    → range_end count a (skip_blanks s1) ≡ some (b, s2)
    → Ends s2
    → parse_range count s ≡ some ((a, b), s2)
unfolding parse_range
parse_range_steps count a b s s1 s2 e f k =
    rw (e, parse_range) (rw f (ap (λ u. some ((a, b), u)) (skip_blanks-Ends s2 k)))

parse_range-one :
    (count : ℕ) (s rest : Text)
    → IsRange count (one s)
    → Ends rest
    → count ≤ extractor_max_episodes
    → parse_range count (s ++ rest) ≡ some ((number 0 s, number 0 s), rest)
unfolding IsRange
parse_range-one count s rest (n, (l, h)) e m =
    parse_range_steps count (number 0 s) (number 0 s) (s ++ rest) rest rest
      (rw (skip_blanks-numeral s rest n)
        (number_within-numeral 1 count s rest n (Stops-Ends rest e) l h m))
      (rw (skip_blanks-Ends rest e) (range_end-Ends count (number 0 s) rest e)) e

range_end-dash :
    (count a : ℕ) (s : Text)
    → range_end count a (skip_blanks (b'-' ∷ s)) ≡ number_within a count (skip_blanks s)
unfolding range_end skip_blanks
range_end-dash count a s = refl

parse_range-between :
    (count : ℕ) (s t rest : Text)
    → IsRange count (between s t)
    → Ends rest
    → count ≤ extractor_max_episodes
    → parse_range count (s ++ (b'-' ∷ (t ++ rest))) ≡ some ((number 0 s, number 0 t), rest)
unfolding IsRange Stops
parse_range-between count s t rest ((n, o), (l, (h, g))) e m =
    parse_range_steps count (number 0 s) (number 0 t) (s ++ (b'-' ∷ (t ++ rest)))
      (b'-' ∷ (t ++ rest)) rest
      (rw (skip_blanks-numeral s (b'-' ∷ (t ++ rest)) n)
        (number_within-numeral 1 count s (b'-' ∷ (t ++ rest)) n refl l (omega (arith, h, g)) m))
      (range_end-dash count (number 0 s) (t ++ rest)
        ∙ rw (skip_blanks-numeral t rest o)
            (number_within-numeral (number 0 s) count t rest o (Stops-Ends rest e) h g m))
      e

-- A range at the start of a text is read, and what stands behind it is left.
pub parse_range-range_text :
    (count : ℕ) (r : Range) (rest : Text)
    → IsRange count r
    → Ends rest
    → count ≤ extractor_max_episodes
    → parse_range count (range_text r ++ rest) ≡ some (ends r, rest)
unfolding range_text ends
parse_range-range_text count (one s) rest h e m = parse_range-one count s rest h e m
parse_range-range_text count (between s t) rest h e m =
    rw (append_assoc s (b'-' ∷ t) rest) (parse_range-between count s t rest h e m)
